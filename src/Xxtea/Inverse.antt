-- ===== src/Xxtea/Inverse.antt =====
-- The rounds of include/wawo/security/xxtea.hpp, forth and back.
use wawo.Prelude.{
  ℕ, zero, suc, ◌+◌, ◌*◌, ◌%◌, ◌≤◌, ◌<◌, ◌≡◌, refl, ap, ◌∙◌, List, [], ◌∷◌, length, arith,
}
use wawo.Prelude.Words.{u32_mod, add32, sub32}
use wawo.Xxtea.{
  mx, last, encrypt_from, encrypt_round, encrypt_rounds, rounds_of, wikipedia_btea_encrypt,
  decrypt_from, decrypt_round, decrypt_rounds, wikipedia_btea_decrypt, xxtea_delta,
}

-- Every cell is a u32_t.
abbrev pub AllWords : List ℕ → Type 0
AllWords [] = Unit {0}
AllWords (x ∷ xs) = (x < u32_mod) × AllWords xs

sub32-add32 : (x m : ℕ) → x < u32_mod → sub32 (add32 x m) m ≡ x
sub32-add32 x m h = omega arith

decrypt_from-encrypt_from :
    (key : List ℕ) (sum first p z x : ℕ) (xs : List ℕ)
    → AllWords (x ∷ xs)
    → decrypt_from key sum first p z (encrypt_from key sum first p z x xs) ≡ x ∷ xs
unfolding decrypt_from encrypt_from
decrypt_from-encrypt_from key sum first p z x [] (h, _) =
    ap (λ k. k ∷ []) (sub32-add32 x (mx key sum p first z) h)
decrypt_from-encrypt_from key sum first p z x (y ∷ ys) (h, hs) =
    rw (decrypt_from-encrypt_from key sum first (p + 1) (add32 x (mx key sum p y z)) y ys hs)
      (ap (λ k. k ∷ y ∷ ys) (sub32-add32 x (mx key sum p y z) h))

decrypt_round-encrypt_round :
    (key : List ℕ) (sum : ℕ) (v : List ℕ)
    → 2 ≤ length v
    → AllWords v
    → decrypt_round key sum (encrypt_round key sum v) ≡ v
unfolding decrypt_round encrypt_round last
decrypt_round-encrypt_round key sum [] n h = refl
decrypt_round-encrypt_round key sum (x ∷ []) n h = absurd (omega arith)
decrypt_round-encrypt_round key sum (x ∷ y ∷ ys) n (h, hs) =
    rw
      (decrypt_from-encrypt_from key sum (add32 x (mx key sum 0 y (last y ys))) 1
        (add32 x (mx key sum 0 y (last y ys))) y ys hs)
      (ap (λ k. k ∷ y ∷ ys) (sub32-add32 x (mx key sum 0 y (last y ys)) h))

-- A round keeps the length, and its cells are words.
encrypt_from-AllWords :
    (key : List ℕ) (sum first p z x : ℕ) (xs : List ℕ)
    → AllWords (encrypt_from key sum first p z x xs)
      × (length (encrypt_from key sum first p z x xs) ≡ suc (length xs))
unfolding encrypt_from
encrypt_from-AllWords key sum first p z x [] = ((omega arith, tt), refl)
encrypt_from-AllWords key sum first p z x (y ∷ ys) =
    let (a, l) = encrypt_from-AllWords key sum first (p + 1) (add32 x (mx key sum p y z)) y ys in
    ((omega arith, a), ap suc l)

encrypt_round-AllWords :
    (key : List ℕ) (sum : ℕ) (v : List ℕ)
    → AllWords (encrypt_round key sum v) × (length (encrypt_round key sum v) ≡ length v)
unfolding encrypt_round
encrypt_round-AllWords key sum [] = (tt, refl)
encrypt_round-AllWords key sum (x ∷ []) = ((omega arith, tt), refl)
encrypt_round-AllWords key sum (x ∷ y ∷ ys) =
    let x' : ℕ = add32 x (mx key sum 0 y (last y ys)) in
    let (a, l) = encrypt_from-AllWords key sum x' 1 x' y ys in ((omega arith, a), ap suc l)

-- The sum after some rounds, as the last round of encryption and the first of decryption use it.
abbrev sum_after : ℕ → ℕ → ℕ
sum_after rounds sum = (sum + rounds * xxtea_delta) % u32_mod

encrypt_rounds-snoc :
    (key : List ℕ) (rounds sum : ℕ) (v : List ℕ)
    → encrypt_rounds key (suc rounds) sum v
      ≡ encrypt_round key (sum_after (suc rounds) sum) (encrypt_rounds key rounds sum v)
unfolding encrypt_rounds
encrypt_rounds-snoc key zero sum v = ap (λ s. encrypt_round key s v) (omega arith)
encrypt_rounds-snoc key (suc rounds) sum v =
    encrypt_rounds-snoc key rounds (add32 sum xxtea_delta)
      (encrypt_round key (add32 sum xxtea_delta) v)
    ∙ ap
        (λ s. encrypt_round key s (
          encrypt_rounds key rounds (add32 sum xxtea_delta)
            (encrypt_round key (add32 sum xxtea_delta) v)))
        (omega arith)

encrypt_rounds-AllWords :
    (key : List ℕ) (rounds sum : ℕ) (v : List ℕ)
    → AllWords v
    → AllWords (encrypt_rounds key rounds sum v)
      × (length (encrypt_rounds key rounds sum v) ≡ length v)
unfolding encrypt_rounds
encrypt_rounds-AllWords key zero sum v a = (a, refl)
encrypt_rounds-AllWords key (suc rounds) sum v a =
    let (a', l) = encrypt_round-AllWords key (add32 sum xxtea_delta) v in
    let (b, k) =
      encrypt_rounds-AllWords key rounds (add32 sum xxtea_delta)
        (encrypt_round key (add32 sum xxtea_delta) v) a' in
    (b, k ∙ l)

decrypt_rounds-encrypt_rounds :
    (key : List ℕ) (rounds sum : ℕ) (v : List ℕ)
    → 2 ≤ length v
    → AllWords v
    → decrypt_rounds key rounds (sum_after rounds sum) (encrypt_rounds key rounds sum v) ≡ v
unfolding decrypt_rounds
decrypt_rounds-encrypt_rounds key zero sum v n a = unfold encrypt_rounds in refl
decrypt_rounds-encrypt_rounds key (suc rounds) sum v n a =
    let (b, l) = encrypt_rounds-AllWords key rounds sum v a in
    ap
      (λ w.
        decrypt_rounds key rounds (sub32 (sum_after (suc rounds) sum) xxtea_delta)
          (decrypt_round key (sum_after (suc rounds) sum) w))
      (encrypt_rounds-snoc key rounds sum v)
    ∙ ap (decrypt_rounds key rounds (sub32 (sum_after (suc rounds) sum) xxtea_delta)) (
        decrypt_round-encrypt_round key (sum_after (suc rounds) sum)
          (encrypt_rounds key rounds sum v) (omega (arith, l)) b)
    ∙ ap (λ s. decrypt_rounds key rounds s (encrypt_rounds key rounds sum v)) (omega arith)
    ∙ decrypt_rounds-encrypt_rounds key rounds sum v n a

-- On two cells or more, of 32 bits each, and under every key, `wikipedia_btea_decrypt` inverts
-- `wikipedia_btea_encrypt`, which keeps the number of cells.
pub decrypt-encrypt :
    (key v : List ℕ)
    → 2 ≤ length v
    → AllWords v
    → (wikipedia_btea_decrypt key (wikipedia_btea_encrypt key v) ≡ v)
      × (length (wikipedia_btea_encrypt key v) ≡ length v)
unfolding wikipedia_btea_encrypt wikipedia_btea_decrypt
decrypt-encrypt key v n a =
    let (b, l) = encrypt_rounds-AllWords key (rounds_of v) 0 v a in
    (
      rw l (
          ap (λ s. decrypt_rounds key (rounds_of v) s (encrypt_rounds key (rounds_of v) 0 v))
            (omega arith)
          ∙ decrypt_rounds-encrypt_rounds key (rounds_of v) 0 v n a),
      l,
    )

-- The cells are words again.
pub encrypt-AllWords : (key v : List ℕ) → AllWords v → AllWords (wikipedia_btea_encrypt key v)
unfolding wikipedia_btea_encrypt
encrypt-AllWords key v a = (encrypt_rounds-AllWords key (rounds_of v) 0 v a).0
