-- ===== src/Dh/Modular.antt =====
-- Products and powers modulo a number.
use native.Mathlib.Nat.{
  mod-eq_of_lt, zero-mod, mod-add-div, add-mul-mod_self_left, pow-suc, pow-zero, mul_comm, mul-zero,
  mul-suc,
}
use wawo.Prelude.{
  refl, ℕ, zero, suc, ◌+◌, ◌*◌, ◌/◌, ◌%◌, ◌^◌, ◌≡◌, sym, ap, ◌∙◌, arith, ◌<◌, ◌==◌, ==_iff,
  Bool-cases, inl, inr,
}

mul-mod_left : (x y q : ℕ) → x % q * y % q ≡ x * y % q
mul-mod_left x y q = sym (
    ap (λ (k : ℕ). k % q) (omega (arith, ap (λ (t : ℕ). t * y) (mod-add-div x q)))
    ∙ add-mul-mod_self_left (x % q * y) q (x / q * y))

mul-mod_right : (x y q : ℕ) → x * (y % q) % q ≡ x * y % q
mul-mod_right x y q =
    ap (λ (k : ℕ). k % q) (mul_comm x (y % q))
    ∙ mul-mod_left y x q
    ∙ ap (λ (k : ℕ). k % q) (mul_comm y x)

-- Equal remainders have equal products and powers.
pub mul-mod_cong : (x x' y y' q : ℕ) → x % q ≡ x' % q → y % q ≡ y' % q → x * y % q ≡ x' * y' % q
mul-mod_cong x x' y y' q e f =
    sym (mul-mod_left x y q)
    ∙ ap (λ (k : ℕ). k * y % q) e
    ∙ mul-mod_left x' y q
    ∙ sym (mul-mod_right x' y q)
    ∙ ap (λ (k : ℕ). x' * k % q) f
    ∙ mul-mod_right x' y' q

pub pow-mod_cong : (x y q n : ℕ) → x % q ≡ y % q → x ^ n % q ≡ y ^ n % q
pow-mod_cong x y q zero e = ap (λ (k : ℕ). k % q) (pow-zero x ∙ sym (pow-zero y))
pow-mod_cong x y q (suc n) e =
    ap (λ (k : ℕ). k % q) (pow-suc x n)
    ∙ mul-mod_cong (x ^ n) (y ^ n) x y q (pow-mod_cong x y q n e) e
    ∙ sym (ap (λ (k : ℕ). k % q) (pow-suc y n))

pub pow_add : (x m n : ℕ) → x ^ (m + n) ≡ x ^ m * x ^ n
pow_add x zero n =
    let none : 0 + n ≡ n = omega arith in
    let one_times : x ^ n ≡ 1 * x ^ n = omega arith in
    ap (λ (k : ℕ). x ^ k) none ∙ one_times ∙ ap (λ (k : ℕ). k * x ^ n) (sym (pow-zero x))
pow_add x (suc m) n =
    let next : suc m + n ≡ suc (m + n) = omega arith in
    let swap : x ^ m * x ^ n * x ≡ x ^ m * x * x ^ n = omega arith in
    ap (λ (k : ℕ). x ^ k) next
    ∙ pow-suc x (m + n)
    ∙ ap (λ (k : ℕ). k * x) (pow_add x m n)
    ∙ swap
    ∙ ap (λ (k : ℕ). k * x ^ n) (sym (pow-suc x m))

pub pow_mul : (x m n : ℕ) → x ^ (m * n) ≡ (x ^ m) ^ n
pow_mul x m zero = ap (λ (k : ℕ). x ^ k) (mul-zero m) ∙ pow-zero x ∙ sym (pow-zero (x ^ m))
pow_mul x m (suc n) =
    ap (λ (k : ℕ). x ^ k) (mul-suc m n)
    ∙ pow_add x (m * n) m
    ∙ ap (λ (k : ℕ). k * x ^ m) (pow_mul x m n)
    ∙ sym (pow-suc (x ^ m) n)

pub pow_square : (x n : ℕ) → (x * x) ^ n ≡ x ^ (2 * n)
pow_square x n =
    let squared : x * x ≡ x ^ 2 = omega (
      arith,
      pow-suc x 1,
      ap (λ (k : ℕ). k * x) (pow-suc x 0),
      ap (λ (k : ℕ). k * x * x) (pow-zero x),
    ) in
    ap (λ (k : ℕ). k ^ n) squared ∙ sym (pow_mul x 2 n)

pub mul-pow : (x y n : ℕ) → (x * y) ^ n ≡ x ^ n * y ^ n
mul-pow x y zero =
    pow-zero (x * y)
    ∙ sym (ap (λ (k : ℕ). k * y ^ 0) (pow-zero x) ∙ ap (λ (k : ℕ). 1 * k) (pow-zero y))
mul-pow x y (suc n) =
    let swap : x ^ n * y ^ n * (x * y) ≡ x ^ n * x * (y ^ n * y) = omega arith in
    pow-suc (x * y) n
    ∙ ap (λ (k : ℕ). k * (x * y)) (mul-pow x y n)
    ∙ swap
    ∙ sym
        (ap (λ (k : ℕ). k * y ^ suc n) (pow-suc x n) ∙ ap (λ (k : ℕ). x ^ n * x * k) (pow-suc y n))

pub one-pow : (n : ℕ) → 1 ^ n ≡ 1
one-pow zero = pow-zero 1
one-pow (suc n) = pow-suc 1 n ∙ ap (λ (k : ℕ). k * 1) (one-pow n)

-- No power of a number with an inverse modulo `q` is 0 modulo `q`.
pub unit-pow : (x y q n : ℕ) → 1 < q → x * y % q ≡ 1 → 0 < x ^ n % q
unit-pow x y q n h e =
    let one : 1 % q ≡ 1 = mod-eq_of_lt h in
    let all : x ^ n * y ^ n % q ≡ 1 =
      ap (λ (k : ℕ). k % q) (sym (mul-pow x y n))
      ∙ pow-mod_cong (x * y) 1 q n (e ∙ sym one)
      ∙ ap (λ (k : ℕ). k % q) (one-pow n)
      ∙ one in
    elim (Bool-cases (x ^ n % q == 0)) [
      | inr ne ↦ grind (arith, ne)
      | inl z ↦
          let none : x ^ n * y ^ n % q ≡ 0 =
            mul-mod_cong (x ^ n) 0 (y ^ n) (y ^ n) q ((==_iff _ _).0 z ∙ sym (zero-mod q)) refl
            ∙ ap (λ (k : ℕ). k % q) (zero_times (y ^ n))
            ∙ zero-mod q in
          absurd (omega (arith, all, none))
    ]
  where
    zero_times : (t : ℕ) → 0 * t ≡ 0
    zero_times t = omega arith
