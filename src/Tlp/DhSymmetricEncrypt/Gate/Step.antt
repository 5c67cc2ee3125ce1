-- ===== src/Tlp/DhSymmetricEncrypt/Gate/Step.antt =====
-- Which packets of the handshake of include/wawo/net/tlp/dh_symmetric_encrypt.hpp open a stream.
use wawo.Prelude.{
  ℕ, true, false, Bool, Option, Option-cases, inl, inr, none, some, List, [], ◌≡◌, refl, not, arith,
  ltb, length, ◌==◌, ==_iff, if◌then◌else◌, take, drop, ◌>>◌, assert,
}
use wawo.Bytes.{read_impl}
use wawo.Obfuscate.{u8_deobfuscate}
use wawo.Xxtea.{xxtea_decrypt}
use wawo.Xxtea.Cipher.{Xxtea}
use wawo.Tlp.DhSymmetricEncrypt.{
  DhSymmetricEncrypt, dh_handshake, Reply, is_data_transfer, is_handshake, is_idle, is_prefix,
  e_tlp_invalid_packet, hok_message, f_handshake_ok, swap_bytes, answer_hello, hello_arrive,
  resp_arrive, ok_arrive, handshake_packet_arrive, f_handshake_hello, f_handshake_hello_resp,
}

-- A packet of the type F_HANDSHAKE_OK whose data is, decrypted with the key, the message MESSAGE.
pub record Proves (key input : List ℕ) : Type 0 where
  pub of_type : u8_deobfuscate (swap_bytes (take 4 input)) ≡ f_handshake_ok
  pub message : List ℕ
  pub opens : xxtea_decrypt (drop 4 input) key ≡ some (some message)
  pub agrees : is_prefix hok_message message ≡ some true

-- A reply whose state is not DH_DATA_TRANSFER.
abbrev pub Shut : Option Reply → Type 0
Shut none = Unit {0}
Shut (some (code, out, e)) = is_data_transfer e.m_dhstate ≡ false

answer_hello-Shut :
    (randoms r1 r2 : List ℕ) (pub_key : ℕ) (cs ps : List ℕ) (e : DhSymmetricEncrypt)
    → is_data_transfer e.m_dhstate ≡ false
    → Shut (answer_hello randoms r1 r2 pub_key cs ps e)
unfolding answer_hello
answer_hello-Shut randoms r1 r2 pub_key cs ps e h = ground (arith, h)

hello_arrive-Shut :
    (randoms r1 r2 bytes : List ℕ) (e : DhSymmetricEncrypt)
    → Shut (hello_arrive randoms r1 r2 bytes e)
unfolding hello_arrive
hello_arrive-Shut randoms r1 r2 bytes e =
    let behind = drop 1 (drop 8 bytes) in
    let n = read_impl 1 (take 1 (drop 8 bytes)) in
    ground (
      arith,
      answer_hello-Shut randoms r1 r2 (read_impl 8 (take 8 bytes)) (take n behind)
          (drop 1 (drop n behind)) (record e { m_dhstate = dh_handshake }) refl,
    )

resp_arrive-Shut :
    (r bytes : List ℕ) (e : DhSymmetricEncrypt)
    → is_data_transfer e.m_dhstate ≡ false
    → Shut (resp_arrive r bytes e)
unfolding resp_arrive
resp_arrive-Shut r bytes e h = ground (arith, h)

-- A reply that opens the stream only for a packet that proves the key of the cipher.
abbrev pub Gated : List ℕ → Option Reply → Type 0
Gated input none = Unit {0}
Gated input (some (code, out, e)) =
    is_data_transfer e.m_dhstate ≡ true
    → (cipher : Xxtea) × (e.m_cipher ≡ some cipher) × Proves cipher.m_key input

Shut-Gated : (input : List ℕ) (m : Option Reply) → Shut m → Gated input m
Shut-Gated input none s = tt
Shut-Gated input (some (code, out, e)) s = λ h. absurd (grind (arith, s, h))

Gated-assert :
    (input : List ℕ) (b : Bool) (m : Option Reply)
    → (b ≡ true → Gated input m)
    → Gated input (assert b >> m)
Gated-assert input true m g = g refl
Gated-assert input false m g = tt

Gated-if :
    (input : List ℕ) (b : Bool) (m n : Option Reply)
    → (b ≡ true → Gated input m)
    → (b ≡ false → Gated input n)
    → Gated input (if b then m else n)
Gated-if input true m n g h = g refl
Gated-if input false m n g h = h refl

ok_arrive-Gated :
    (input : List ℕ) (e : DhSymmetricEncrypt)
    → u8_deobfuscate (swap_bytes (take 4 input)) ≡ f_handshake_ok
    → is_data_transfer e.m_dhstate ≡ false
    → Gated input (ok_arrive (drop 4 input) e)
unfolding ok_arrive
ok_arrive-Gated input e t h = elim (Option-cases e.m_cipher) [
  | inl a ↦ rw a tt
  | inr (cipher, a) ↦ elim (Option-cases (xxtea_decrypt (drop 4 input) cipher.m_key)) [
    | inl b ↦ rw (a, b) tt
    | inr (none, b) ↦ rw (a, b) tt
    | inr (some message, b) ↦ elim (Option-cases (is_prefix hok_message message)) [
      | inl c ↦ rw (a, b, c) tt
      | inr (false, c) ↦ rw (a, b, c) (λ k. absurd (grind (arith, h, k)))
      | inr (true, c) ↦
          rw (a, b, c)
            (λ k. (cipher, refl, record { of_type = t; message = message; opens = b; agrees = c }))
    ]
  ]
]

pub handshake_packet_arrive-Gated :
    (randoms r1 r2 input : List ℕ) (e : DhSymmetricEncrypt)
    → is_data_transfer e.m_dhstate ≡ false
    → Gated input (handshake_packet_arrive randoms r1 r2 input e)
unfolding handshake_packet_arrive
handshake_packet_arrive-Gated randoms r1 r2 input e h =
    let t = u8_deobfuscate (swap_bytes (take 4 input)) in
    let hello = hello_arrive randoms r1 r2 (drop 4 input) e in
    let resp = resp_arrive r1 (drop 4 input) e in
    let done = ok_arrive (drop 4 input) e in
    let other : Option Reply = some (e_tlp_invalid_packet, [], e) in
    let shut : Gated input other = Shut-Gated input other h in
    let ok_case =
      if t == f_handshake_ok then assert (is_handshake e.m_dhstate) >> done else other in
    let resp_case =
      if t == f_handshake_hello_resp then assert (is_handshake e.m_dhstate) >> resp else ok_case in
    let hello_case =
      if t == f_handshake_hello then assert (is_idle e.m_dhstate) >> hello else resp_case in
    Gated-assert input (not (is_data_transfer e.m_dhstate))
      (if ltb 4 (length input) then hello_case else other)
      (λ _.
        Gated-if input (ltb 4 (length input)) hello_case other
          (λ _.
            Gated-if input (t == f_handshake_hello) (assert (is_idle e.m_dhstate) >> hello)
              resp_case
              (λ _.
                Gated-assert input (is_idle e.m_dhstate) hello
                  (λ _. Shut-Gated input hello (hello_arrive-Shut randoms r1 r2 (drop 4 input) e)))
              (λ _.
                Gated-if input (t == f_handshake_hello_resp)
                  (assert (is_handshake e.m_dhstate) >> resp) ok_case
                  (λ _.
                    Gated-assert input (is_handshake e.m_dhstate) resp
                      (λ _. Shut-Gated input resp (resp_arrive-Shut r1 (drop 4 input) e h)))
                  (λ _.
                    Gated-if input (t == f_handshake_ok) (assert (is_handshake e.m_dhstate) >> done)
                      other
                      (λ k.
                        Gated-assert input (is_handshake e.m_dhstate) done
                          (λ _. ok_arrive-Gated input e ((==_iff t f_handshake_ok).0 k) h))
                      (λ _. shut))))
          (λ _. shut))
