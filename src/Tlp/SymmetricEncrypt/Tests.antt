-- ===== src/Tlp/SymmetricEncrypt/Tests.antt =====
-- An encrypted packet in a ring.
use wawo.Prelude.{ℕ, ◌≡◌, ◌++◌, refl, some, [], ◌∷◌, arith, take, drop, List}
use wawo.Bytes.{write_impl, write_u32}
use wawo.RingBuffer.{BytesRingbuffer, contents}
use wawo.Xxtea.{
  xxtea_encrypt, wikipedia_btea_encrypt, encrypt_rounds, encrypt_round, encrypt_from, mx, last,
  xxtea_to_uint32_array, xxtea_to_bytes_array,
}
use wawo.Xxtea.Cipher.{Xxtea, Fit}
use wawo.Tlp.HlenPacket.{hlen_packet}
use wawo.Tlp.HlenPacket.Frames.{frames, few, Ring, waits_len, Returns, code_for}
use wawo.Tlp.SymmetricEncrypt.{decode_packets}
use wawo.Tlp.SymmetricEncrypt.Stream.{sealed_stream_lem}

abbrev cipher_key : Xxtea
cipher_key = record { m_key = 1 ∷ 2 ∷ 3 ∷ 4 ∷ [] }

-- The two bytes 104 and 105, encrypted.
abbrev sealed_bytes : List ℕ
sealed_bytes = 168 ∷ 183 ∷ 22 ∷ 107 ∷ 106 ∷ 97 ∷ 60 ∷ 132 ∷ []

sealed_bytes-encrypted : xxtea_encrypt (104 ∷ 105 ∷ []) cipher_key.m_key ≡ some sealed_bytes
unfolding xxtea_encrypt wikipedia_btea_encrypt encrypt_rounds encrypt_round encrypt_from mx last
    xxtea_to_uint32_array xxtea_to_bytes_array
sealed_bytes-encrypted = refl

abbrev sealed_ring : BytesRingbuffer
sealed_ring = record {
  m_capacity = 16;
  m_begin = 0;
  m_end = 12;
  m_buffer = 0 ∷ 0 ∷ 0 ∷ 8 ∷ 168 ∷ 183 ∷ 22 ∷ 107 ∷ 106 ∷ 97 ∷ 60 ∷ 132 ∷ 9 ∷ 9 ∷ 9 ∷ 9 ∷ [];
}

sealed_ring-Ring : Ring 16 (frames (sealed_bytes ∷ []) ++ []) sealed_ring
sealed_ring-Ring = record {
  valid = record {
    storage = refl;
    room = omega arith;
    small = omega arith;
    begin_in = omega arith;
    end_in = omega arith;
  };
  held = unfold contents write_u32 write_impl in refl;
  cells_eq = refl;
}

two_bytes-Fit : Fit (104 ∷ 105 ∷ [])
two_bytes-Fit = record {
  some_bytes = omega arith;
  small = omega arith;
  all_bytes = (omega arith, (omega arith, tt));
}

sealed_stream_lem_example :
    Returns 16
      (code_for (drop 3 (sealed_bytes ∷ [])))
      (take 3 ((104 ∷ 105 ∷ []) ∷ []))
      (frames (drop 3 (sealed_bytes ∷ [])) ++ [])
      (decode_packets (record { hlen = hlen_packet 0; m_cipher = some cipher_key }) sealed_ring 3)
sealed_stream_lem_example =
    sealed_stream_lem cipher_key 16 (omega arith) 3 ((104 ∷ 105 ∷ []) ∷ []) (sealed_bytes ∷ []) []
      (hlen_packet 0) sealed_ring (waits_len 0 sealed_ring sealed_ring-Ring) (few (omega arith))
      ((two_bytes-Fit, omega arith, sealed_bytes-encrypted), tt)
