-- ===== src/Dh/Powmod.antt =====
-- The power of Q_powmod, include/wawo/math/formula.hpp.
use native.Mathlib.Nat.{
  mod-eq_of_lt, mod-lt, mod-mod, mod-add-div, pow-suc, pow-zero, mul_assoc, mul-one,
}
use wawo.Prelude.{
  ℕ, zero, suc, ◌+◌, ◌-◌, ◌*◌, ◌/◌, ◌%◌, ◌^◌, ◌≤◌, ◌<◌, ◌≡◌, refl, sym, ap, ◌∙◌, true, some, arith,
  ltb, ◌==◌, ==_iff, Bool-cases, inl, inr, if◌then◌else◌,
}
use wawo.Prelude.Words.{u64_mod}
use wawo.Dh.{powmod_loop, q_powmod, q_mulmod, reduce}
use wawo.Dh.Mulmod.{q_mulmod_lem}
use wawo.Dh.Modular.{mul-mod_cong, pow-mod_cong, pow_add, pow_square}

-- The power, in two parts of the exponent.
split_power :
    (rt a b c d q : ℕ) → d + 2 * c ≡ b → rt * a ^ d % q * (a * a % q) ^ c % q ≡ rt * a ^ b % q
split_power rt a b c d q e =
    mul-mod_cong (rt * a ^ d % q) (rt * a ^ d) ((a * a % q) ^ c) ((a * a) ^ c) q
      (mod-mod (rt * a ^ d) q) (pow-mod_cong (a * a % q) (a * a) q c (mod-mod (a * a) q))
    ∙ ap (λ (k : ℕ). rt * a ^ d * k % q) (pow_square a c)
    ∙ ap (λ (k : ℕ). k % q) assoc
    ∙ ap (λ (k : ℕ). rt * k % q) (sym (pow_add a d (2 * c)) ∙ ap (λ (k : ℕ). a ^ k) e)
  where
    assoc : rt * a ^ d * a ^ (2 * c) ≡ rt * (a ^ d * a ^ (2 * c))
    assoc = mul_assoc rt (a ^ d) (a ^ (2 * c))

no_factor : (rt a n q : ℕ) → rt < q → n ≡ 0 → rt ≡ rt * a ^ n % q
no_factor rt a n q h e =
    let one : a ^ n ≡ 1 = ap (λ (k : ℕ). a ^ k) e ∙ pow-zero a in
    sym (ap (λ (k : ℕ). rt * k % q) one ∙ ap (λ (k : ℕ). k % q) (mul-one rt) ∙ mod-eq_of_lt h)

one_factor : (rt a n q : ℕ) → n ≡ 1 → rt * a % q ≡ rt * a ^ n % q
one_factor rt a n q e =
    let first : a ≡ a ^ 1 = omega (arith, pow-suc a 0, ap (λ (k : ℕ). k * a) (pow-zero a)) in
    ap (λ (k : ℕ). rt * k % q) (first ∙ ap (λ (k : ℕ). a ^ k) (sym e))

-- `rt` after a round.
odd_product :
    (rt a b q : ℕ)
    → rt < q
    → a ≤ q
    → q < u64_mod
    → (if b % 2 == 1 then q_mulmod rt a q else some rt) ≡ some (rt * a ^ (b % 2) % q)
odd_product rt a b q h k small = elim (Bool-cases (b % 2 == 1)) [
  | inl e ↦ rw e (
      q_mulmod_lem rt a q (omega arith) (omega arith) (omega arith) small
      ∙ ap some (one_factor rt a (b % 2) q ((==_iff _ _).0 e)))
  | inr e ↦ rw e (ap some (no_factor rt a (b % 2) q h (grind (arith, e))))
]

powmod_loop_lem :
    (fuel q rt a b : ℕ)
    → rt < q
    → a ≤ q
    → q < u64_mod
    → b < 2 ^ fuel
    → powmod_loop fuel q rt a b ≡ some (rt * a ^ b % q)
unfolding powmod_loop
powmod_loop_lem zero q rt a b h k small less =
    let none_left : (b == 0) ≡ true = grind (arith, less) in
    rw none_left (ap some (no_factor rt a b q h (omega arith)))
powmod_loop_lem (suc fuel) q rt a b h k small less = elim (Bool-cases (b == 0)) [
  | inl e ↦ rw e (ap some (no_factor rt a b q h ((==_iff _ _).0 e)))
  | inr e ↦
      let shorter : b / 2 < 2 ^ fuel = omega (arith, pow-suc 2 fuel) in
      let pos : 0 < q = omega arith in
      rw (e, odd_product rt a b q h k small, q_mulmod_lem a a q pos k (omega arith) small)
        (powmod_loop_lem fuel q (rt * a ^ (b % 2) % q) (a * a % q) (b / 2) (mod-lt _ pos)
            (omega (arith, mod-lt (a * a) pos)) small shorter
          ∙ ap some (split_power rt a b (b / 2) (b % 2) q (mod-add-div b 2)))
]

-- What is left of a number, less `q` if it is over `q`.
abbrev pub less_once : ℕ → ℕ → ℕ
less_once a q = if ltb q a then a - q else a

reduce_lem : (a q : ℕ) → a < u64_mod → reduce a q ≡ less_once a q
reduce_lem a q h = elim (Bool-cases (ltb q a)) [
  | inl e ↦ rw e (grind (arith, e))
  | inr e ↦ rw e refl
]

-- Q_powmod returns, and the result is the power modulo `q`, of the base and of the exponent that
-- are left when `q` is subtracted once from each that is over `q`. The base is at most twice `q`.
pub q_powmod_lem :
    (a b q : ℕ)
    → 1 < q
    → a ≤ q + q
    → a < u64_mod
    → b < u64_mod
    → q < u64_mod
    → q_powmod a b q ≡ some (less_once a q ^ less_once b q % q)
unfolding q_powmod
q_powmod_lem a b q one two h k small =
    let base : less_once a q ≤ q = grind arith in
    let exponent : less_once b q < u64_mod = grind arith in
    rw (reduce_lem a q h, reduce_lem b q k)
      (powmod_loop_lem 64 q 1 (less_once a q) (less_once b q) one base small exponent
        ∙ ap (λ (t : ℕ). some (t % q)) (one_mul (less_once a q ^ less_once b q)))
  where
    one_mul : (t : ℕ) → 1 * t ≡ t
    one_mul t = omega arith
