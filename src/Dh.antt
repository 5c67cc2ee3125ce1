-- ===== src/Dh.antt =====
-- include/wawo/security/dh.hpp and the arithmetic that it uses, include/wawo/math/formula.hpp: the
-- Diffie-Hellman exchange of keys on u64_t. `none` is a loop that has no round left.
pub mod Modular
pub mod Mulmod
pub mod Powmod
pub mod Agree
mod Tests
use wawo.Prelude.{
  ℕ, zero, suc, ◌*◌, ◌/◌, ◌%◌, Bool, Option, none, some, leb, ltb, ◌==◌, if◌then◌else◌, ◌>>=◌,
}
use wawo.Prelude.Words.{add64, sub64}

-- The changes of one round of Q_mulmod to `rt` and to `a`.
unfoldable pub add_mod : ℕ → ℕ → ℕ → ℕ
add_mod rt a q = let q_a = sub64 q a in if leb q_a rt then sub64 rt q_a else add64 rt a

unfoldable pub mulmod_loop : ℕ → ℕ → ℕ → ℕ → ℕ → Option ℕ
mulmod_loop zero q rt a b = if b == 0 then some rt else none
mulmod_loop (suc fuel) q rt a b =
    let rt' = if b % 2 == 1 then add_mod rt a q else rt in
    let rest = mulmod_loop fuel q rt' (add_mod a a q) (b / 2) in if b == 0 then some rt else rest

-- A u64_t has 64 bits, and a round shifts one out.
unfoldable pub q_mulmod : ℕ → ℕ → ℕ → Option ℕ
q_mulmod a b q = mulmod_loop 64 q 0 a b

unfoldable pub powmod_loop : ℕ → ℕ → ℕ → ℕ → ℕ → Option ℕ
powmod_loop zero q rt a b = if b == 0 then some rt else none
powmod_loop (suc fuel) q rt a b =
    let product = if b % 2 == 1 then q_mulmod rt a q else some rt in
    let rest = product >>= λ rt'. (q_mulmod a a q >>= λ a'. powmod_loop fuel q rt' a' (b / 2)) in
    if b == 0 then some rt else rest

-- `if (a > q) a -= q`.
abbrev pub reduce : ℕ → ℕ → ℕ
reduce a q = if ltb q a then sub64 a q else a

unfoldable pub q_powmod : ℕ → ℕ → ℕ → Option ℕ
q_powmod a b q = powmod_loop 64 q 1 (reduce a q) (reduce b q)

abbrev pub dh_q : ℕ
dh_q = 18446744073709551557

abbrev pub dh_g : ℕ
dh_g = 5

pub record DhFactor : Type 0 where
  pub priv_key : ℕ
  pub pub_key : ℕ

-- `random` is what `random_u64` answers.
unfoldable pub dh_generate_factor : ℕ → Option DhFactor
dh_generate_factor random =
    q_powmod dh_g random dh_q >>= λ key. some (record { priv_key = random; pub_key = key })

unfoldable pub dh_generate_key : ℕ → ℕ → Option ℕ
dh_generate_key factor2_pub factor1_priv = q_powmod factor2_pub factor1_priv dh_q
