-- ===== src/Dh/Tests.antt =====
-- The exchange at concrete numbers.
use wawo.Prelude.{◌*◌, ◌%◌, ◌^◌, ◌≡◌, some, arith}
use wawo.Dh.{q_mulmod, q_powmod, dh_q, dh_g, DhFactor, dh_generate_factor, dh_generate_key}
use wawo.Dh.Mulmod.{q_mulmod_lem}
use wawo.Dh.Powmod.{less_once, q_powmod_lem}
use wawo.Dh.Agree.{keys_agree}

q_mulmod_lem_example : q_mulmod 11 12 13 ≡ some (11 * 12 % 13)
q_mulmod_lem_example = q_mulmod_lem 11 12 13 (omega arith) (omega arith) (omega arith) (omega arith)

q_powmod_lem_example : q_powmod 15 14 13 ≡ some (less_once 15 13 ^ less_once 14 13 % 13)
q_powmod_lem_example =
    q_powmod_lem 15 14 13 (omega arith) (omega arith) (omega arith) (omega arith) (omega arith)

keys_agree_example :
    (a b : DhFactor) × (dh_generate_factor 6 ≡ some a)
    × (dh_generate_factor 15 ≡ some b)
    × (dh_generate_key b.pub_key a.priv_key
        ≡ some (dh_g ^ (less_once 6 dh_q * less_once 15 dh_q) % dh_q))
    × (dh_generate_key a.pub_key b.priv_key
        ≡ some (dh_g ^ (less_once 6 dh_q * less_once 15 dh_q) % dh_q))
keys_agree_example = keys_agree 6 15 (omega arith) (omega arith)
