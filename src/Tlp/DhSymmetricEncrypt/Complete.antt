-- ===== src/Tlp/DhSymmetricEncrypt/Complete.antt =====
-- The whole handshake of include/wawo/net/tlp/dh_symmetric_encrypt.hpp between two sides.
use wawo.Prelude.{
  ℕ, ◌<◌, ◌≡◌, refl, false, some, List, [], ◌∷◌, ◌++◌, arith, length, take, drop, ◌==◌,
}
use wawo.Prelude.Words.{u64_mod}
use wawo.Bytes.{write_impl, read_impl, read_loop}
use wawo.Dh.Agree.{public_of}
use wawo.Xxtea.Cipher.{Xxtea}
use wawo.Xxtea.Round.{Sealed}
use wawo.Tlp.DhSymmetricEncrypt.{
  DhSymmetricEncrypt, dh_symmetric_encrypt, dh_handshake, dh_data_transfer, frame_type, framed,
  hok_message, e_tlp_handshaking, e_tlp_handshake_done, ok_packet, answer_hello, hello_arrive,
  resp_arrive, ok_arrive,
}
use wawo.Tlp.DhSymmetricEncrypt.Handshake.{
  factor_of, choose_factor_lem, shared_cipher, client_cipher, server_cipher,
}

-- The packets that pass.
abbrev pub hello : ℕ → List ℕ → List ℕ
hello x r = frame_type 1 r ++ (write_impl 8 (public_of x) ++ (2 ∷ 2 ∷ 1 ∷ 1 ∷ 1 ∷ []))

abbrev pub resp : ℕ → List ℕ → List ℕ
resp y r = frame_type 2 r ++ (write_impl 8 (public_of y) ++ (2 ∷ 1 ∷ []))

abbrev pub done : List ℕ → List ℕ → List ℕ
done c r = frame_type 3 r ++ c

-- The client behind its hello, and a side that has the key and waits for the last packet.
abbrev pub client : ℕ → DhSymmetricEncrypt
client x = record dh_symmetric_encrypt {
  m_dhstate = dh_handshake;
  m_context = record { dhfactor = factor_of x; ciphers = 2 ∷ 1 ∷ []; compress = 1 ∷ [] };
}

abbrev pub server : ℕ → DhSymmetricEncrypt
server y = record dh_symmetric_encrypt {
  m_dhstate = dh_handshake;
  m_context = record { dhfactor = factor_of y; ciphers = []; compress = [] };
}

abbrev pub keyed : Xxtea → DhSymmetricEncrypt → DhSymmetricEncrypt
keyed cipher e = record e { m_cipher = some cipher }

ok_packet_lem :
    (cipher : Xxtea) (c r : List ℕ)
    → Sealed cipher.m_key hok_message c
    → ok_packet cipher r ≡ some (done c r)
unfolding ok_packet
ok_packet_lem cipher c r s = rw s.encrypted refl

pub hello_step :
    (x y : ℕ) (c r2 r3 bytes : List ℕ)
    → 0 < y
    → y < u64_mod
    → 0 < public_of y
    → Sealed (shared_cipher x y).m_key hok_message c
    → drop 8 bytes ≡ 2 ∷ 2 ∷ 1 ∷ 1 ∷ 1 ∷ []
    → read_impl 8 (take 8 bytes) ≡ public_of x
    → length bytes ≡ 13
    → hello_arrive (y ∷ []) r2 r3 bytes dh_symmetric_encrypt
      ≡ some (
        e_tlp_handshaking,
        framed (resp y r2) ++ framed (done c r3),
        keyed (shared_cipher x y) (server y),
      )
unfolding hello_arrive answer_hello read_impl read_loop
hello_step x y c r2 r3 bytes pos h k s e f g =
    rw
      (
        g,
        e,
        f,
        choose_factor_lem y pos h k,
        server_cipher x y h,
        ok_packet_lem (shared_cipher x y) c r3 s,
      )
      refl

pub resp_step :
    (x y : ℕ) (c r bytes : List ℕ)
    → 0 < x
    → x < u64_mod
    → Sealed (shared_cipher x y).m_key hok_message c
    → drop 8 bytes ≡ 2 ∷ 1 ∷ []
    → read_impl 8 (take 8 bytes) ≡ public_of y
    → length bytes ≡ 10
    → resp_arrive r bytes (client x)
      ≡ some (e_tlp_handshaking, framed (done c r), keyed (shared_cipher x y) (client x))
unfolding resp_arrive read_impl read_loop
resp_step x y c r bytes pos h s e f g =
    let some_key : (x == 0) ≡ false = grind (arith, pos) in
    rw (g, e, f, some_key, client_cipher x y h, ok_packet_lem (shared_cipher x y) c r s) refl

-- The last packet, on either side.
pub ok_step :
    (cipher : Xxtea) (c : List ℕ) (e : DhSymmetricEncrypt)
    → Sealed cipher.m_key hok_message c
    → ok_arrive c (keyed cipher e)
      ≡ some (e_tlp_handshake_done, [], record (keyed cipher e) { m_dhstate = dh_data_transfer })
unfolding ok_arrive
ok_step cipher c e s = rw s.decrypted refl
