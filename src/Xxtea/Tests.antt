-- ===== src/Xxtea/Tests.antt =====
-- The cipher at concrete values.
use wawo.Prelude.{ℕ, ◌≡◌, refl, some, List, [], ◌∷◌, arith}
use wawo.Xxtea.{xxtea_encrypt, xxtea_decrypt, xxtea_to_uint32_array}
use wawo.Xxtea.Round.{xxtea_decrypt-xxtea_encrypt}

low_byte_first : xxtea_to_uint32_array (1 ∷ 2 ∷ 3 ∷ 4 ∷ 5 ∷ []) ≡ 0x04030201 ∷ 5 ∷ []
unfolding xxtea_to_uint32_array
low_byte_first = refl

abbrev key : List ℕ
key = 1 ∷ 2 ∷ 3 ∷ 4 ∷ []

xxtea_decrypt-xxtea_encrypt_example :
    (cipher : List ℕ) × (xxtea_encrypt (104 ∷ 105 ∷ []) key ≡ some cipher)
    × (xxtea_decrypt cipher key ≡ some (some (104 ∷ 105 ∷ [])))
xxtea_decrypt-xxtea_encrypt_example =
    xxtea_decrypt-xxtea_encrypt (104 ∷ 105 ∷ []) key (omega arith) (omega arith) (omega arith)
      (omega arith, (omega arith, tt))
