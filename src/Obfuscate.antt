-- ===== src/Obfuscate.antt =====
-- include/wawo/security/obfuscate.hpp at u8_t: the eight bits of a byte, two to each byte of a u32_t,
-- at places that a random number chooses. A u32_t stands as its four bytes, the lowest first, so that
-- a shift by `i / pbcbc << 3` names the byte.
pub mod Round
use Prim.Native.Nat.{bit_or}
use wawo.Prelude.{ℕ, zero, suc, ◌+◌, ◌*◌, ◌/◌, ◌%◌, ◌^◌, List, [], ◌∷◌, ◌==◌, if◌then◌else◌}

-- The place of an even bit: the three high bits of its byte of the random number.
abbrev pub place : ℕ → ℕ
place byte = (byte / 2 ^ 5) % 8 % 5

-- The place of the odd bit behind it.
abbrev pub next_place : ℕ → ℕ
next_place b = (b + 1) % 5

-- `bi`: the bit `i` of `val` at the place `b`, and `bii` on top. Both are cut to u8_t.
unfoldable pub obfuscated_bit : ℕ → ℕ → ℕ → ℕ → ℕ
obfuscated_bit val i b bii =
    bit_or (if (val / 2 ^ i) % 2 == 1 then 2 ^ b % 256 else 0) ((bii % 8) * 2 ^ 5 % 256)

-- The two rounds for one byte, whose first bit is `i`.
unfoldable pub obfuscated_byte : ℕ → ℕ → ℕ → ℕ
obfuscated_byte val i r =
    let b = place r in
    bit_or (bit_or 0 (obfuscated_bit val i b b)) (obfuscated_bit val (i + 1) (next_place b) b)

-- The loop over `i`, two bits to a byte, for the bytes of `r_u32`.
unfoldable pub obfuscate_from : ℕ → ℕ → List ℕ → List ℕ
obfuscate_from val i [] = []
obfuscate_from val i (r ∷ rs) = obfuscated_byte val i r ∷ obfuscate_from val (i + 2) rs

-- `u8_obfuscate`, for the four bytes of the random number.
abbrev pub u8_obfuscate : ℕ → List ℕ → List ℕ
u8_obfuscate val r_u32 = obfuscate_from val 0 r_u32

-- The loop of `deobfuscate`: `|=` of a bit above those that are there adds it.
unfoldable pub deobfuscate_from : ℕ → ℕ → List ℕ → ℕ
deobfuscate_from r i [] = r
deobfuscate_from r i (v ∷ vs) =
    let b = place v in
    deobfuscate_from (r + (v / 2 ^ b) % 2 * 2 ^ i + (v / 2 ^ next_place b) % 2 * 2 ^ (i + 1))
      (i + 2) vs

abbrev pub u8_deobfuscate : List ℕ → ℕ
u8_deobfuscate val = deobfuscate_from 0 0 val
