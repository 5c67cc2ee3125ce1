-- ===== src/Prelude/Words.antt =====
-- Unsigned arithmetic of 32 and 64 bits with its wrap-around written out.
use Prim.Native.Nat.{ℕ, ◌+◌, ◌-◌, ◌%◌, ◌^◌, ◌<◌, ◌≤◌}
use mathlib.Core.Path.{◌≡◌}
use native.Mathlib.Omega.{arith}

abbrev pub u32_mod : ℕ
u32_mod = 2 ^ 32

-- `a + b` and `a - b` on u32_t.
abbrev pub add32 : ℕ → ℕ → ℕ
add32 a b = (a + b) % u32_mod

abbrev pub sub32 : ℕ → ℕ → ℕ
sub32 a b = (a + (u32_mod - b % u32_mod)) % u32_mod

-- The same on u64_t.
abbrev pub u64_mod : ℕ
u64_mod = 2 ^ 64

abbrev pub add64 : ℕ → ℕ → ℕ
add64 a b = (a + b) % u64_mod

abbrev pub sub64 : ℕ → ℕ → ℕ
sub64 a b = (a + (u64_mod - b % u64_mod)) % u64_mod

pub sub32-add32 : (a b : ℕ) → a < u32_mod → sub32 (add32 a b) b ≡ a
sub32-add32 a b h = omega arith

pub add32-sub32 : (a b : ℕ) → a < u32_mod → add32 (sub32 a b) b ≡ a
add32-sub32 a b h = omega arith

pub sub32_of_le : (a b : ℕ) → b ≤ a → a < u32_mod → sub32 a b ≡ a - b
sub32_of_le a b h k = omega arith
