-- ===== src/Xxtea/Round.antt =====
-- `xxtea_encrypt` and `xxtea_decrypt` of include/wawo/security/xxtea.hpp, one after the other.
use wawo.Prelude.{
  ℕ, ◌+◌, ◌*◌, ◌/◌, ◌%◌, ◌≤◌, ◌<◌, ◌≡◌, refl, ap, ◌∙◌, some, List, [], ◌∷◌, ◌++◌, length, take,
  arith, length-append, ltb, ◌==◌, le→leb, lt→ltb, ==_iff, ◌-◌, true, false,
}
use wawo.Prelude.Words.{u32_mod}
use wawo.Xxtea.{
  xxtea_to_uint32_array, xxtea_to_bytes_array, last, key_words, xxtea_encrypt, xxtea_decrypt,
  wikipedia_btea_encrypt, wikipedia_btea_decrypt,
}
use wawo.Xxtea.Inverse.{AllWords, decrypt-encrypt, encrypt-AllWords}
use wawo.Xxtea.Words.{
  AllBytes, words-bytes, length-bytes, words-AllWords, length-words, bytes-words-snoc, last-snoc,
  AllWords-snoc,
}

-- The steps of decryption, with what each computes.
decrypt_steps :
    (c key v bytes : List ℕ)
    → 0 < length key
    → (length c ≡ 4 * length v)
    → 0 < length c
    → wikipedia_btea_decrypt (key_words key) (xxtea_to_uint32_array c) ≡ v
    → last 0 v ≡ length bytes
    → length bytes ≤ length c
    → (length v - 1) / 4 ≤ length bytes
    → take (length bytes) (xxtea_to_bytes_array v) ≡ bytes
    → xxtea_decrypt c key ≡ some (some bytes)
unfolding xxtea_decrypt
decrypt_steps c key v bytes k len pos back final le small same =
    let four : (length c % 4 == 0) ≡ true = (==_iff _ _).1 (omega (arith, len)) in
    let held : (length c == 0) ≡ false = grind (arith, pos) in
    let fits : ltb (length c) (length bytes) ≡ false = grind (arith, le) in
    rw (back, final, same, lt→ltb 0 (length key) k, four, held, fits, le→leb _ _ small) refl

module _ (bytes key : List ℕ) where
  -- The words that are encrypted.
  abbrev plain : List ℕ
  plain = xxtea_to_uint32_array bytes ++ length bytes ∷ []

  abbrev cipher : List ℕ
  cipher = xxtea_to_bytes_array (wikipedia_btea_encrypt (key_words key) plain)

  length-plain : length plain ≡ length (xxtea_to_uint32_array bytes) + 1
  length-plain = length-append (xxtea_to_uint32_array bytes) (length bytes ∷ [])

  encrypts : 0 < length key → xxtea_encrypt bytes key ≡ some cipher
  unfolding xxtea_encrypt
  encrypts k = ground (arith, k)

  -- The words come back.
  words_back :
      0 < length bytes
      → length bytes + 8 < u32_mod
      → AllBytes bytes
      → (wikipedia_btea_decrypt (key_words key) (xxtea_to_uint32_array cipher) ≡ plain)
        × (length cipher ≡ 4 * length plain)
  words_back pos small a =
      let aw : AllWords plain = AllWords-snoc _ _ (words-AllWords bytes a) (omega arith) in
      let (back, len) =
        decrypt-encrypt (key_words key) plain (omega (arith, length-plain, length-words bytes))
          aw in
      (
        ap (wikipedia_btea_decrypt (key_words key))
              (words-bytes _ (encrypt-AllWords (key_words key) plain aw))
            ∙ back,
        length-bytes (wikipedia_btea_encrypt (key_words key) plain) ∙ ap (λ n. 4 * n) len,
      )

  decrypts :
      0 < length key
      → 0 < length bytes
      → length bytes + 8 < u32_mod
      → AllBytes bytes
      → xxtea_decrypt cipher key ≡ some (some bytes)
  unfolding xxtea_decrypt
  decrypts k pos small a =
      let (back, len) = words_back pos small a in
      let final : last 0 plain ≡ length bytes =
        last-snoc 0 (xxtea_to_uint32_array bytes) (length bytes) in
      decrypt_steps cipher key plain bytes k len (omega (arith, len, length-plain)) back final
        (omega (arith, len, length-plain, length-words bytes))
        (omega (arith, length-plain, length-words bytes)) (bytes-words-snoc bytes (length bytes) a)

-- Data of one byte or more that is encrypted under a key that is not empty is decrypted under the
-- same key to the same data, when its length with two words fits a u32_t.
pub xxtea_decrypt-xxtea_encrypt :
    (bytes key : List ℕ)
    → 0 < length key
    → 0 < length bytes
    → length bytes + 8 < u32_mod
    → AllBytes bytes
    → (cipher : List ℕ) × (xxtea_encrypt bytes key ≡ some cipher)
      × (xxtea_decrypt cipher key ≡ some (some bytes))
xxtea_decrypt-xxtea_encrypt bytes key k pos small a =
    (cipher bytes key, encrypts bytes key k, decrypts bytes key k pos small a)

-- What is encrypted, and is at most two words longer than the data.
pub record Sealed (key bytes c : List ℕ) : Type 0 where
  pub encrypted : xxtea_encrypt bytes key ≡ some c
  pub decrypted : xxtea_decrypt c key ≡ some (some bytes)
  pub some_words : 0 < length c
  pub size : length c ≤ length bytes + 8

pub encrypt-Sealed :
    (bytes key : List ℕ)
    → 0 < length key
    → 0 < length bytes
    → length bytes + 8 < u32_mod
    → AllBytes bytes
    → (c : List ℕ) × Sealed key bytes c
encrypt-Sealed bytes key k pos small a =
    let (back, len) = words_back bytes key pos small a in
    (
      cipher bytes key,
      record {
        encrypted = encrypts bytes key k;
        decrypted = decrypts bytes key k pos small a;
        some_words = omega (arith, len, length-plain bytes key);
        size = omega (arith, len, length-plain bytes key, length-words bytes);
      },
    )
