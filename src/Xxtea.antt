-- ===== src/Xxtea.antt =====
-- include/wawo/security/xxtea.hpp: the block cipher XXTEA on an array of u32_t, here a list.
pub mod Inverse
pub mod Words
pub mod Round
pub mod Cipher
mod Tests
use wawo.Prelude.{
  ℕ, zero, suc, ◌+◌, ◌-◌, ◌*◌, ◌/◌, ◌%◌, ◌^◌, ◌≤◌, ◌<◌, ◌≡◌, bit_xor, List, [], ◌∷◌, length, ltb,
  if◌then◌else◌, get_or, leb, ◌==◌, not, Option, none, some, assert, ◌>>◌, take, replicate, ◌++◌,
}
use wawo.Prelude.Words.{u32_mod, add32, sub32}

abbrev pub xxtea_delta : ℕ
xxtea_delta = 0x9e3779b9

-- A left shift of a u32_t.
abbrev pub shl32 : ℕ → ℕ → ℕ
shl32 a k = (a * 2 ^ k) % u32_mod

-- WAWO_XXTEA_MX, with its variables as arguments; `e` is computed from `sum`.
unfoldable pub mx : List ℕ → ℕ → ℕ → ℕ → ℕ → ℕ
mx key sum p y z =
    let e = (sum / 4) % 4 in
    bit_xor (add32 (bit_xor (z / 2 ^ 5) (shl32 y 2)) (bit_xor (y / 2 ^ 3) (shl32 z 4)))
      (add32 (bit_xor sum y) (bit_xor (get_or key (bit_xor (p % 4) e) 0) z))

-- The last of a list that starts with `x`.
unfoldable pub last : ℕ → List ℕ → ℕ
last x [] = x
last x (y ∷ ys) = last y ys

-- The round from index `p` on, behind the new value `z` of the cell before; `first` is the new v[0].
unfoldable pub encrypt_from : List ℕ → ℕ → ℕ → ℕ → ℕ → ℕ → List ℕ → List ℕ
encrypt_from key sum first p z x [] = add32 x (mx key sum p first z) ∷ []
encrypt_from key sum first p z x (y ∷ ys) =
    let x' = add32 x (mx key sum p y z) in x' ∷ encrypt_from key sum first (p + 1) x' y ys

-- One round of `wikipedia_btea_encrypt`.
unfoldable pub encrypt_round : List ℕ → ℕ → List ℕ → List ℕ
encrypt_round key sum [] = []
encrypt_round key sum (x ∷ []) = add32 x (mx key sum 0 x x) ∷ []
encrypt_round key sum (x ∷ y ∷ ys) =
    let x' = add32 x (mx key sum 0 y (last y ys)) in x' ∷ encrypt_from key sum x' 1 x' y ys

unfoldable pub encrypt_rounds : List ℕ → ℕ → ℕ → List ℕ → List ℕ
encrypt_rounds key zero sum v = v
encrypt_rounds key (suc rounds) sum v =
    let sum' = add32 sum xxtea_delta in encrypt_rounds key rounds sum' (encrypt_round key sum' v)

abbrev pub rounds_of : List ℕ → ℕ
rounds_of v = 6 + 52 / length v

unfoldable pub wikipedia_btea_encrypt : List ℕ → List ℕ → List ℕ
wikipedia_btea_encrypt key v = encrypt_rounds key (rounds_of v) 0 v

-- The round back, from the end to index `p`: `z` is the cell before, still encrypted, and the cell
-- behind is the head of the result.
abbrev pub head_or : ℕ → List ℕ → ℕ
head_or d [] = d
head_or d (x ∷ xs) = x

unfoldable pub decrypt_from : List ℕ → ℕ → ℕ → ℕ → ℕ → List ℕ → List ℕ
decrypt_from key sum first p z [] = []
decrypt_from key sum first p z (x ∷ xs) =
    let rest = decrypt_from key sum first (p + 1) x xs in
    sub32 x (mx key sum p (head_or first rest) z) ∷ rest

-- One round of `wikipedia_btea_decrypt`.
unfoldable pub decrypt_round : List ℕ → ℕ → List ℕ → List ℕ
decrypt_round key sum [] = []
decrypt_round key sum (x ∷ xs) =
    let rest = decrypt_from key sum x 1 x xs in
    sub32 x (mx key sum 0 (head_or x rest) (last x rest)) ∷ rest

unfoldable pub decrypt_rounds : List ℕ → ℕ → ℕ → List ℕ → List ℕ
decrypt_rounds key zero sum v = v
decrypt_rounds key (suc rounds) sum v =
    decrypt_rounds key rounds (sub32 sum xxtea_delta) (decrypt_round key sum v)

unfoldable pub wikipedia_btea_decrypt : List ℕ → List ℕ → List ℕ
wikipedia_btea_decrypt key v =
    decrypt_rounds key (rounds_of v) ((rounds_of v * xxtea_delta) % u32_mod) v

-- `xxtea_to_uint32_array` into an array of zeros: four bytes a word, the first one lowest.
abbrev pub word_of : ℕ → ℕ → ℕ → ℕ → ℕ
word_of a b c d = a + b * 2 ^ 8 + c * 2 ^ 16 + d * 2 ^ 24

unfoldable pub xxtea_to_uint32_array : List ℕ → List ℕ
xxtea_to_uint32_array [] = []
xxtea_to_uint32_array (a ∷ []) = word_of a 0 0 0 ∷ []
xxtea_to_uint32_array (a ∷ b ∷ []) = word_of a b 0 0 ∷ []
xxtea_to_uint32_array (a ∷ b ∷ c ∷ []) = word_of a b c 0 ∷ []
xxtea_to_uint32_array (a ∷ b ∷ c ∷ d ∷ bytes) = word_of a b c d ∷ xxtea_to_uint32_array bytes

-- `xxtea_to_bytes_array`, of all the bytes of the words; a caller takes as many as it asks for.
unfoldable pub xxtea_to_bytes_array : List ℕ → List ℕ
xxtea_to_bytes_array [] = []
xxtea_to_bytes_array (w ∷ ws) =
    w % 2 ^ 8
    ∷ (w / 2 ^ 8) % 2 ^ 8
    ∷ (w / 2 ^ 16) % 2 ^ 8
    ∷ (w / 2 ^ 24) % 2 ^ 8
    ∷ xxtea_to_bytes_array ws

-- The key: its first 16 bytes, with zeros behind a shorter one.
abbrev pub key_words : List ℕ → List ℕ
key_words key = xxtea_to_uint32_array (take 16 (key ++ replicate 16 0))

-- `xxtea_encrypt`, when memory is there: the length of the data is the last word.
unfoldable pub xxtea_encrypt : List ℕ → List ℕ → Option (List ℕ)
xxtea_encrypt bytes key =
    let u32data = xxtea_to_uint32_array bytes ++ length bytes ∷ [] in
    assert (ltb 0 (length key))
    >> some (xxtea_to_bytes_array (wikipedia_btea_encrypt (key_words key) u32data))

-- `xxtea_decrypt`: `none` inside is E_XXTEA_INVALID_DATA. Without bytes it divides by zero.
-- On a little-endian machine the bytes are copied from the whole array, the word of the length too.
unfoldable pub xxtea_decrypt : List ℕ → List ℕ → Option (Option (List ℕ))
xxtea_decrypt bytes key =
    let u32data = wikipedia_btea_decrypt (key_words key) (xxtea_to_uint32_array bytes) in
    let len = last 0 u32data in
    let decrypted =
      assert (not (length bytes == 0))
      >> (if ltb (length bytes) len
          then some none
          else (assert (leb ((length u32data - 1) / 4) len)
              >> some (some (take len (xxtea_to_bytes_array u32data))))) in
    assert (ltb 0 (length key)) >> (if length bytes % 4 == 0 then decrypted else some none)
