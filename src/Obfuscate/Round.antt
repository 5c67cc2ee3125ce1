-- ===== src/Obfuscate/Round.antt =====
-- A byte through `u8_obfuscate` and `u8_deobfuscate`.
use Prim.Native.Nat.{bit_or}
use wawo.Prelude.{
  ℕ, zero, suc, ◌+◌, ◌*◌, ◌/◌, ◌%◌, ◌^◌, ◌<◌, ◌≡◌, refl, ◌∙◌, List, [], ◌∷◌, arith, ◌==◌, true,
  false, if◌then◌else◌, Bool, Bool-cases, inl, inr,
}
use wawo.Obfuscate.{
  place, next_place, obfuscated_bit, obfuscated_byte, obfuscate_from, deobfuscate_from,
  u8_obfuscate, u8_deobfuscate,
}

-- A byte with the bits `x` and `y` at the places that `b` chooses.
abbrev byte_of : Bool → Bool → ℕ → ℕ
byte_of x y b =
    bit_or (bit_or 0 (bit_or (if x then 2 ^ b % 256 else 0) ((b % 8) * 2 ^ 5 % 256)))
      (bit_or (if y then 2 ^ next_place b % 256 else 0) ((b % 8) * 2 ^ 5 % 256))

abbrev bit : Bool → ℕ
bit x = if x then 1 else 0

-- What the byte gives back: its place and both bits.
abbrev Gives : Bool → Bool → ℕ → Type 0
Gives x y b =
    (place (byte_of x y b) ≡ b)
    × ((byte_of x y b / 2 ^ b) % 2 ≡ bit x)
    × ((byte_of x y b / 2 ^ next_place b) % 2 ≡ bit y)

-- Each of the five places.
each_place : (P : ℕ → Type 0) → P 0 → P 1 → P 2 → P 3 → P 4 → (b : ℕ) → b < 5 → P b
each_place P p0 p1 p2 p3 p4 zero h = p0
each_place P p0 p1 p2 p3 p4 (suc zero) h = p1
each_place P p0 p1 p2 p3 p4 (suc (suc zero)) h = p2
each_place P p0 p1 p2 p3 p4 (suc (suc (suc zero))) h = p3
each_place P p0 p1 p2 p3 p4 (suc (suc (suc (suc zero)))) h = p4
each_place P p0 p1 p2 p3 p4 (suc (suc (suc (suc (suc b))))) h = absurd (omega arith)

byte-Gives : (x y : Bool) (b : ℕ) → b < 5 → Gives x y b
byte-Gives true true =
    each_place (Gives true true) (refl, refl, refl) (refl, refl, refl) (refl, refl, refl)
      (refl, refl, refl) (refl, refl, refl)
byte-Gives true false =
    each_place (Gives true false) (refl, refl, refl) (refl, refl, refl) (refl, refl, refl)
      (refl, refl, refl) (refl, refl, refl)
byte-Gives false true =
    each_place (Gives false true) (refl, refl, refl) (refl, refl, refl) (refl, refl, refl)
      (refl, refl, refl) (refl, refl, refl)
byte-Gives false false =
    each_place (Gives false false) (refl, refl, refl) (refl, refl, refl) (refl, refl, refl)
      (refl, refl, refl) (refl, refl, refl)

-- The value that the bits from `i` on have, two for each byte.
unfoldable pub bits_from : ℕ → ℕ → List ℕ → ℕ
bits_from val i [] = 0
bits_from val i (r ∷ rs) =
    (val / 2 ^ i) % 2 * 2 ^ i + (val / 2 ^ (i + 1)) % 2 * 2 ^ (i + 1) + bits_from val (i + 2) rs

bit-eq : (n : ℕ) → bit (n % 2 == 1) ≡ n % 2
bit-eq n = elim (Bool-cases (n % 2 == 1)) [
  | inl e ↦ rw e (grind (arith, e))
  | inr e ↦ rw e (grind (arith, e))
]

-- One round of the loop, on a byte that gives back `p` and `q`.
one_byte :
    (x i v b p q : ℕ) (vs : List ℕ)
    → place v ≡ b
    → (v / 2 ^ b) % 2 ≡ p
    → (v / 2 ^ next_place b) % 2 ≡ q
    → deobfuscate_from x i (v ∷ vs) ≡ deobfuscate_from (x + p * 2 ^ i + q * 2 ^ (i + 1)) (i + 2) vs
unfolding deobfuscate_from
one_byte x i v b p q vs e f g = rw (e, f, g) refl

deobfuscate-obfuscate_from :
    (val i x : ℕ) (rs : List ℕ)
    → deobfuscate_from x i (obfuscate_from val i rs) ≡ x + bits_from val i rs
unfolding deobfuscate_from obfuscate_from obfuscated_byte obfuscated_bit bits_from
deobfuscate-obfuscate_from val i x [] = omega arith
deobfuscate-obfuscate_from val i x (r ∷ rs) =
    let first = (val / 2 ^ i) % 2 in
    let second = (val / 2 ^ (i + 1)) % 2 in
    let (e, f, g) = byte-Gives (first == 1) (second == 1) (place r) (omega arith) in
    one_byte x i _ (place r) first second (obfuscate_from val (i + 2) rs) e
      (f ∙ bit-eq (val / 2 ^ i)) (g ∙ bit-eq (val / 2 ^ (i + 1)))
    ∙ deobfuscate-obfuscate_from val (i + 2) (x + first * 2 ^ i + second * 2 ^ (i + 1)) rs
    ∙ omega arith

-- Eight bits are a byte.
all_bits : (val r0 r1 r2 r3 : ℕ) → val < 256 → 0 + bits_from val 0 (r0 ∷ r1 ∷ r2 ∷ r3 ∷ []) ≡ val
unfolding bits_from
all_bits val r0 r1 r2 r3 h = omega arith

-- A byte that is obfuscated with the four bytes of any random number is read back as it was,
-- without the number.
pub u8_deobfuscate-u8_obfuscate :
    (val r0 r1 r2 r3 : ℕ)
    → val < 256
    → u8_deobfuscate (u8_obfuscate val (r0 ∷ r1 ∷ r2 ∷ r3 ∷ [])) ≡ val
u8_deobfuscate-u8_obfuscate val r0 r1 r2 r3 h =
    deobfuscate-obfuscate_from val 0 0 (r0 ∷ r1 ∷ r2 ∷ r3 ∷ []) ∙ all_bits val r0 r1 r2 r3 h
