-- ===== src/Dh/Mulmod.antt =====
-- The product of Q_mulmod, include/wawo/math/formula.hpp.
use native.Mathlib.Nat.{mod-eq_of_lt, add-mul-mod_self_left, mod-add-div, pow-suc}
use wawo.Prelude.{
  ℕ, zero, suc, ◌+◌, ◌-◌, ◌*◌, ◌/◌, ◌%◌, ◌^◌, ◌≤◌, ◌<◌, ◌≡◌, sym, ap, ◌∙◌, ◌⊎◌, true, some, arith,
  leb, ◌==◌, ==_iff, Bool-cases, inl, inr, if◌then◌else◌,
}
use wawo.Prelude.Words.{sub64, u64_mod}
use wawo.Dh.{add_mod, mulmod_loop, q_mulmod}

-- `x` is `y`, less `q` some times.
pub record Less (q x y : ℕ) : Type 0 where
  pub times : ℕ
  pub exact : y ≡ x + q * times

pub Less-mod : {q x y : ℕ} → Less q x y → x % q ≡ y % q
Less-mod {q = q} {x = x} h = sym (ap (λ k. k % q) h.exact ∙ add-mul-mod_self_left x q h.times)

-- No step of the round wraps around.
add_mod_lem :
    (rt a q : ℕ)
    → rt ≤ q
    → a ≤ q
    → q < u64_mod
    → ((q ≤ rt + a) × (add_mod rt a q ≡ rt + a - q)) ⊎ ((rt + a < q) × (add_mod rt a q ≡ rt + a))
unfolding add_mod
add_mod_lem rt a q h k small = elim (Bool-cases (leb (sub64 q a) rt)) [
  | inl e ↦ rw e (inl (grind (arith, e), grind (arith, e)))
  | inr e ↦ rw e (inr (grind (arith, e), grind (arith, e)))
]

add_mod-Less : (rt a q : ℕ) → rt ≤ q → a ≤ q → q < u64_mod → Less q (add_mod rt a q) (rt + a)
add_mod-Less rt a q h k small = elim (add_mod_lem rt a q h k small) [
  | inl (le, e) ↦ record { times = 1; exact = omega arith }
  | inr (lt, e) ↦ record { times = 0; exact = omega arith }
]

-- `rt` after a round.
odd-Less :
    (rt a b q : ℕ)
    → rt < q
    → a ≤ q
    → q < u64_mod
    → ((if b % 2 == 1 then add_mod rt a q else rt) < q)
      × Less q (if b % 2 == 1 then add_mod rt a q else rt) (rt + a * (b % 2))
odd-Less rt a b q h k small = elim (Bool-cases (b % 2 == 1)) [
  | inl e ↦
      let one : b % 2 ≡ 1 = grind (arith, e) in
      let l = add_mod-Less rt a q (omega arith) k small in
      rw (e, one)
        (
          omega (arith, add_mod_lem rt a q (omega arith) k small),
          record { times = l.times; exact = omega (arith, l.exact) },
        )
  | inr e ↦
      let none_added : b % 2 ≡ 0 = grind (arith, e) in
      rw (e, none_added) (h, record { times = 0; exact = omega arith })
]

-- The invariant of the loop: `rt + a * b` modulo `q`, where `b` is `d + 2 * c`.
round-Less :
    (rt a b c d q rt' a' : ℕ)
    → d + 2 * c ≡ b
    → Less q rt' (rt + a * d)
    → Less q a' (a + a)
    → Less q (rt' + a' * c) (rt + a * b)
round-Less rt a b c d q rt' a' e h k = record {
  times = h.times + k.times * c;
  exact = omega (arith, h.exact, ap (λ (t : ℕ). a * t) e, ap (λ (t : ℕ). t * c) k.exact);
}

finished : (q rt a b : ℕ) → rt < q → b ≡ 0 → rt ≡ (rt + a * b) % q
finished q rt a b h e =
    sym (ap (λ k. k % q) (ap (λ k. rt + a * k) e ∙ omega arith) ∙ mod-eq_of_lt h)

mulmod_loop_lem :
    (fuel q rt a b : ℕ)
    → rt < q
    → a ≤ q
    → q < u64_mod
    → b < 2 ^ fuel
    → mulmod_loop fuel q rt a b ≡ some ((rt + a * b) % q)
unfolding mulmod_loop
mulmod_loop_lem zero q rt a b h k small less =
    let none_left : (b == 0) ≡ true = grind (arith, less) in
    rw none_left (ap some (finished q rt a b h (omega arith)))
mulmod_loop_lem (suc fuel) q rt a b h k small less = elim (Bool-cases (b == 0)) [
  | inl e ↦ rw e (ap some (finished q rt a b h ((==_iff _ _).0 e)))
  | inr e ↦
      let (below, l) = odd-Less rt a b q h k small in
      let doubled = add_mod-Less a a q k k small in
      let shorter : b / 2 < 2 ^ fuel = omega (arith, pow-suc 2 fuel) in
      rw e (
        mulmod_loop_lem fuel q _ (add_mod a a q) (b / 2) below
          (omega (arith, add_mod_lem a a q k k small)) small shorter
        ∙ ap some (Less-mod (round-Less rt a b (b / 2) (b % 2) q _ _ (mod-add-div b 2) l doubled)))
]

-- Q_mulmod returns the product modulo `q`, for every `b` of 64 bits; what it adds and subtracts
-- never wraps around.
pub q_mulmod_lem :
    (a b q : ℕ) → 0 < q → a ≤ q → b < u64_mod → q < u64_mod → q_mulmod a b q ≡ some (a * b % q)
unfolding q_mulmod
q_mulmod_lem a b q pos h k small =
    mulmod_loop_lem 64 q 0 a b pos h small k ∙ ap (λ (t : ℕ). some (t % q)) (omega arith)
