-- ===== src/Dh/Agree.antt =====
-- The exchange of include/wawo/security/dh.hpp.
use native.Mathlib.Nat.{mod-lt, mod-mod, mul_comm}
use wawo.Prelude.{ℕ, ◌*◌, ◌%◌, ◌^◌, ◌<◌, ◌≡◌, refl, sym, ap, ◌∙◌, some, arith}
use wawo.Prelude.Words.{u64_mod}
use wawo.Dh.{dh_q, dh_g, DhFactor, dh_generate_factor, dh_generate_key}
use wawo.Dh.Modular.{pow-mod_cong, pow_mul, unit-pow}
use wawo.Dh.Powmod.{less_once, q_powmod_lem}

-- The public key of a private one.
abbrev pub public_of : ℕ → ℕ
public_of x = dh_g ^ less_once x dh_q % dh_q

-- A public key is a u64_t, and never 0: 5 has an inverse modulo DH_q.
pub public-lt : (x : ℕ) → public_of x < u64_mod
public-lt x = omega (arith, mod-lt (dh_g ^ less_once x dh_q) {m = dh_q} (omega arith))

pub public-pos : (x : ℕ) → 0 < public_of x
public-pos x = unit-pow dh_g 7378697629483820623 dh_q (less_once x dh_q) (omega arith) refl

pub factor_lem :
    (x : ℕ)
    → x < u64_mod
    → dh_generate_factor x ≡ some (record { priv_key = x; pub_key = public_of x })
unfolding dh_generate_factor
factor_lem x h =
    rw (q_powmod_lem dh_g x dh_q (omega arith) (omega arith) (omega arith) h (omega arith)) refl

pub key_lem :
    (x y : ℕ)
    → x < u64_mod
    → dh_generate_key (public_of y) x ≡ some (dh_g ^ (less_once y dh_q * less_once x dh_q) % dh_q)
unfolding dh_generate_key
key_lem x y h =
    let below : public_of y < dh_q = mod-lt _ (omega arith) in
    let same : less_once (public_of y) dh_q ≡ public_of y = grind (arith, below) in
    q_powmod_lem (public_of y) x dh_q (omega arith) (omega (arith, below)) (omega (arith, below)) h
      (omega arith)
    ∙ ap (λ (t : ℕ). some (t ^ less_once x dh_q % dh_q)) same
    ∙ ap some (
        pow-mod_cong (public_of y) (dh_g ^ less_once y dh_q) dh_q (less_once x dh_q)
          (mod-mod _ dh_q)
        ∙ ap (λ (t : ℕ). t % dh_q) (sym (pow_mul dh_g (less_once y dh_q) (less_once x dh_q))))

-- Two sides that make a factor each and exchange the public keys compute the same key, whatever
-- numbers `random_u64` gave them: both calls return the generator to the product of the private
-- keys, modulo DH_q, where a private key over DH_q counts less DH_q.
pub keys_agree :
    (x y : ℕ)
    → x < u64_mod
    → y < u64_mod
    → (a b : DhFactor) × (dh_generate_factor x ≡ some a)
      × (dh_generate_factor y ≡ some b)
      × (dh_generate_key b.pub_key a.priv_key
          ≡ some (dh_g ^ (less_once x dh_q * less_once y dh_q) % dh_q))
      × (dh_generate_key a.pub_key b.priv_key
          ≡ some (dh_g ^ (less_once x dh_q * less_once y dh_q) % dh_q))
keys_agree x y h k = (
  _,
  _,
  factor_lem x h,
  factor_lem y k,
  key_lem x y h
      ∙ ap (λ (t : ℕ). some (dh_g ^ t % dh_q)) (mul_comm (less_once y dh_q) (less_once x dh_q)),
  key_lem y x k,
)
