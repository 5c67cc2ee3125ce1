-- ===== src/Bytes/Laws.antt =====
-- Reading what was written, of include/wawo/bytes_helper.hpp.
use native.Mathlib.Nat.{div-div-eq-div-mul, pow-suc, mod-eq_of_lt, div-le_self, div-eq_of_lt}
use wawo.Prelude.{
  ℕ, zero, suc, ◌+◌, ◌*◌, ◌/◌, ◌%◌, ◌^◌, ◌-◌, ◌<◌, ◌≡◌, refl, sym, ap, ◌∙◌, List, [], ◌∷◌, ◌++◌,
  arith, length, take, drop, take_cong, drop_cong, append-nil,
}
use wawo.Prelude.Words.{u32_mod}
use wawo.Prelude.Memory.{take-append_ge, drop-append_ge}
use wawo.Bytes.{write_impl, read_loop, read_impl, write_u32, read_u32}

pub length-write_impl : (w val : ℕ) → length (write_impl w val) ≡ w
unfolding write_impl
length-write_impl zero val = refl
length-write_impl (suc i) val = ap suc (length-write_impl i val)

-- Every byte that is written is below 256.
abbrev pub AllBytes : List ℕ → Type 0
AllBytes [] = Unit {0}
AllBytes (b ∷ bs) = (b < 256) × AllBytes bs

pub write_impl-AllBytes : (w val : ℕ) → AllBytes (write_impl w val)
unfolding write_impl
write_impl-AllBytes zero val = tt
write_impl-AllBytes (suc i) val = (omega arith, write_impl-AllBytes i val)

-- One round: the high bytes so far, shifted, with the next byte.
high_bytes : (i val : ℕ) → val / 256 ^ suc i * 256 + val / 256 ^ i % 256 ≡ val / 256 ^ i
high_bytes i val =
    omega (arith, div-div-eq-div-mul val (256 ^ i) 256, ap (λ (k : ℕ). val / k) (pow-suc 256 i))

read_loop-write :
    (w i val : ℕ) (rest : List ℕ)
    → val < 256 ^ w
    → read_loop w i (val / 256 ^ i) (write_impl i val ++ rest) ≡ val
unfolding read_loop write_impl
read_loop-write w zero val rest h = omega arith
read_loop-write w (suc i) val rest h =
    rw (mod-eq_of_lt {n = val / 256 ^ suc i * 256} {m = 256 ^ w} fits)
      (rw (high_bytes i val) (read_loop-write w i val rest h))
  where
    fits : val / 256 ^ suc i * 256 < 256 ^ w
    fits = omega (arith, high_bytes i val, div-le_self val (256 ^ i))

-- What is written as `w` bytes is read back, whatever follows it in memory.
pub read-write_impl :
    (w val : ℕ) (rest : List ℕ) → val < 256 ^ w → read_impl w (write_impl w val ++ rest) ≡ val
unfolding read_impl
read-write_impl w val rest h =
    ap (λ k. read_loop w w k (write_impl w val ++ rest)) (sym (div-eq_of_lt h))
    ∙ read_loop-write w w val rest h

pub length-write_u32 : (n : ℕ) → length (write_u32 n) ≡ 4
unfolding write_u32
length-write_u32 n = length-write_impl 4 n

-- A number in front of other bytes.
module _ (n : ℕ) (rest : List ℕ) where
  take-write_u32 : take 4 (write_u32 n ++ rest) ≡ write_u32 n
  take-write_u32 =
      take-append_ge 4 (write_u32 n) rest (omega (arith, length-write_u32 n))
      ∙ ap (◌++◌ (write_u32 n)) (
          take_cong rest {m = 4 - length (write_u32 n)} {n = 0} (omega (arith, length-write_u32 n)))
      ∙ append-nil (write_u32 n)

  pub drop-write_u32 : drop 4 (write_u32 n ++ rest) ≡ rest
  drop-write_u32 =
      drop-append_ge 4 (write_u32 n) rest (omega (arith, length-write_u32 n))
      ∙ drop_cong rest {m = 4 - length (write_u32 n)} {n = 0} (omega (arith, length-write_u32 n))

  pub read-write_u32 : n < u32_mod → read_u32 (take 4 (write_u32 n ++ rest)) ≡ n
  unfolding read_u32 write_u32
  read-write_u32 h =
      ap read_u32 (take-write_u32 ∙ sym (append-nil (write_u32 n))) ∙ read-write_impl 4 n [] h
