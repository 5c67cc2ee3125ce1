-- ===== src/Packet/Reads.antt =====
-- Reading from a packet of include/wawo/packet.hpp.
use wawo.Prelude.{
  ℕ, ◌+◌, ◌-◌, ◌≤◌, ◌<◌, ◌≡◌, refl, sym, ap, some, arith, length, leb, le→leb, lt→ltb, Bool-cases,
  inl, inr, take, drop, take_cong,
}
use wawo.Prelude.Words.{add32}
use wawo.Prelude.Memory.{slice, take-slice, drop-slice}
use wawo.Packet.{Packet, IsValid, contents, read, skip, peek, checked_len}
use wawo.Packet.Grow.{len_lem}
use wawo.Packet.Ends.{Holds, length-contents}

-- The packet with its read index `n` further.
abbrev pub advanced : ℕ → Packet → Packet
advanced n p = record p { m_read_idx = p.m_read_idx + n }

advanced-Holds :
    (n : ℕ) (p : Packet)
    → IsValid p
    → n ≤ length (contents p)
    → Holds (drop n (contents p)) (advanced n p)
unfolding contents
advanced-Holds n p v h = record {
  valid = record {
    storage = v.storage;
    left_max = v.left_max;
    right_max = v.right_max;
    right_some = v.right_some;
    ordered = omega (arith, length-contents p v);
    inside = v.inside;
  };
  held = sym (
      drop-slice n (p.m_write_idx - p.m_read_idx) p.m_buffer p.m_read_idx (p.m_read_idx + n)
        (p.m_write_idx - (p.m_read_idx + n)) refl (omega (arith, v.ordered)));
}

read_index :
    (n : ℕ) (p : Packet)
    → IsValid p
    → n ≤ length (contents p)
    → add32 p.m_read_idx n ≡ p.m_read_idx + n
read_index n p v h =
    omega (arith, length-contents p v, v.ordered, v.inside, v.left_max, v.right_max)

pub checked_len_lem : (p : Packet) → IsValid p → checked_len p ≡ some (length (contents p))
checked_len_lem p v = rw (le→leb _ _ v.ordered, len_lem p v, length-contents p v) refl

pub first_bytes :
    (n : ℕ) (p : Packet)
    → IsValid p
    → n ≤ length (contents p)
    → slice p.m_buffer p.m_read_idx n ≡ take n (contents p)
first_bytes n p v h =
    unfold contents in
    sym (
      take-slice n (p.m_write_idx - p.m_read_idx) p.m_buffer p.m_read_idx
        (omega (arith, length-contents p v)))

-- What `read`, `skip` and `peek` do for a number of bytes that a valid packet holds: `read` and
-- `peek` give the first ones, `read` and `skip` leave the same valid packet, of the bytes behind.
pub read-skip-peek :
    (n : ℕ) (p : Packet)
    → IsValid p
    → 0 < n
    → n ≤ length (contents p)
    → (read n p ≡ some (take n (contents p), advanced n p))
      × (skip n p ≡ some (advanced n p))
      × (peek n p ≡ some (take n (contents p)))
      × Holds (drop n (contents p)) (advanced n p)
unfolding read skip peek
read-skip-peek n p v pos h = (
  rw (checked_len_lem p v, read_index n p v h, first_bytes n p v h, le→leb _ _ h, lt→ltb _ _ pos)
      refl,
  rw (checked_len_lem p v, read_index n p v h, le→leb _ _ h) refl,
  peeked,
  advanced-Holds n p v h,
)
  where
    peeked : peek n p ≡ some (take n (contents p))
    peeked = elim (Bool-cases (leb (length (contents p)) n)) [
      | inl all ↦
          rw (checked_len_lem p v, all, first_bytes (length (contents p)) p v (omega arith))
            (ap some (take_cong (contents p) (grind arith)))
      | inr some_left ↦ rw (checked_len_lem p v, some_left, first_bytes n p v h) refl
    ]
