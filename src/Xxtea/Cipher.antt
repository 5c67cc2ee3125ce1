-- ===== src/Xxtea/Cipher.antt =====
-- The class `xxtea` of include/wawo/security/xxtea.hpp, on packets, when memory is there.
use wawo.Prelude.{
  ℕ, ◌+◌, ◌-◌, ◌≤◌, ◌<◌, ◌≡◌, refl, Option, some, List, ◌++◌, arith, length, length-append,
  length-replicate, replicate, ltb, leb, le→leb, lt→ltb, ◌&&◌, ◌>>=◌, ◌>>◌, assert,
}
use wawo.Packet.{Packet, begin_len, pack_max_right_capacity, pack_increment_right_size}
use wawo.Packet.Made.{packet_of, packet_of-Holds, begin_len_lem}
use wawo.Packet.Ends.{Holds}
use wawo.Xxtea.{xxtea_encrypt, xxtea_decrypt}
use wawo.Xxtea.Words.{AllBytes}
use wawo.Xxtea.Round.{Sealed}

pub record Xxtea : Type 0 where
  pub m_key : List ℕ

-- `set_key`, which writes 16 bytes; `none` is a failed assertion or a key that is longer.
unfoldable pub set_key : List ℕ → Option Xxtea
set_key k =
    assert (ltb 0 (length k) && leb (length k) 16)
    >> some (record { m_key = k ++ replicate (16 - length k) b'z' })

-- `encrypt` and `decrypt`, which answer OK when no assertion fails: they assert that the code is OK
-- before they look at the result, so that E_XXTEA_DECRYPT_FAILED is never returned.
unfoldable pub encrypt : Xxtea → Packet → Option Packet
encrypt x p = begin_len p >>= λ bytes. (xxtea_encrypt bytes x.m_key >>= packet_of)

unfoldable pub decrypt : Xxtea → Packet → Option Packet
decrypt x p =
    begin_len p >>= λ bytes. (xxtea_decrypt bytes x.m_key >>= λ plain. (plain >>= packet_of))

-- The key has 16 bytes, whatever it was made from.
pub set_key_lem :
    (k : List ℕ)
    → 0 < length k
    → length k ≤ 16
    → (x : Xxtea) × (set_key k ≡ some x) × (length x.m_key ≡ 16)
unfolding set_key
set_key_lem k pos h = (
  record { m_key = k ++ replicate (16 - length k) b'z' },
  rw (lt→ltb 0 (length k) pos, le→leb (length k) 16 h) refl,
  omega (
    arith,
    h,
    length-append k (replicate (16 - length k) b'z'),
    length-replicate {A = ℕ} (16 - length k) b'z',
  ),
)

-- Data that a packet and a ring have room for, with the two words that encryption adds.
pub record Fit (bytes : List ℕ) : Type 0 where
  pub some_bytes : 0 < length bytes
  pub small : length bytes + 8 + pack_increment_right_size ≤ pack_max_right_capacity
  pub all_bytes : AllBytes bytes

module _ (x : Xxtea) (bytes : List ℕ) (f : Fit bytes) (c : List ℕ) (s : Sealed x.m_key bytes c)
    (p : Packet) where
  pub encrypt-Holds : Holds bytes p → (q : Packet) × (encrypt x p ≡ some q) × Holds c q
  unfolding encrypt
  encrypt-Holds h =
      let (q, e, g) = packet_of-Holds c (omega (arith, s.size, f.small)) in
      (q, rw (begin_len_lem p h.valid, h.held, s.encrypted) e, g)

  pub decrypt-Holds : Holds c p → (q : Packet) × (decrypt x p ≡ some q) × Holds bytes q
  unfolding decrypt
  decrypt-Holds h =
      let (q, e, g) = packet_of-Holds bytes (omega (arith, f.small)) in
      (q, rw (begin_len_lem p h.valid, h.held, s.decrypted) e, g)
