-- ===== src/Packet/Grow.antt =====
-- The growth of a packet of include/wawo/packet.hpp at either end.
use wawo.Prelude.{
  ℕ, zero, suc, ◌+◌, ◌-◌, ◌*◌, ◌≤◌, ◌<◌, ◌≡◌, refl, ap, ◌∙◌, none, some, List, ◌++◌, arith, length,
  length-append, length-replicate, length-drop, ltb, leb, le→leb, lt→ltb, Bool-cases, inl, inr, ◌⊎◌,
  take, take_cong,
}
use wawo.Prelude.Words.{add32}
use wawo.Prelude.Memory.{
  slice, blit, length-blit, length-slice, slice-blit_end, take-append_le, drop-append_le,
}
use wawo.Packet.{
  Packet, IsValid, contents, capacity, len, left_left_capacity, left_right_capacity, fresh_cells,
  extend_leftbuffer_capacity, extend_rightbuffer_capacity, extend_left_while, extend_right_while,
  pack_max_left_capacity, pack_max_right_capacity, pack_increment_left_size,
  pack_increment_right_size,
}

-- A slice inside the first of two lists.
slice-append_le :
    (xs ys : List ℕ) (off n : ℕ) → off + n ≤ length xs → slice (xs ++ ys) off n ≡ slice xs off n
slice-append_le xs ys off n h =
    ap (take n) (drop-append_le off xs ys (omega arith))
    ∙ take-append_le n _ ys (omega (arith, length-drop off xs))

pub length-fresh : (n : ℕ) → length (fresh_cells n) ≡ n
unfolding fresh_cells
length-fresh n = length-replicate n b'w'

pub len_lem : (p : Packet) → IsValid p → len p ≡ p.m_write_idx - p.m_read_idx
unfolding len
len_lem p v = omega arith

pub capacity_lem : (p : Packet) → IsValid p → capacity p ≡ p.m_left_capacity + p.m_right_capacity
unfolding capacity
capacity_lem p v = omega arith

pub left_right_lem :
    (p : Packet)
    → IsValid p
    → left_right_capacity p ≡ p.m_left_capacity + p.m_right_capacity - p.m_write_idx
unfolding left_right_capacity
left_right_lem p v = omega (arith, capacity_lem p v)

-- The packet after one extension at the right, and after one at the left that moved the bytes.
abbrev right_grown : Packet → Packet
right_grown p = record p {
  m_buffer = p.m_buffer ++ fresh_cells pack_increment_right_size;
  m_right_capacity = p.m_right_capacity + pack_increment_right_size;
}

abbrev left_moved : Packet → Packet
left_moved p =
    let cells = p.m_buffer ++ fresh_cells pack_increment_left_size in
    record p {
      m_left_capacity = p.m_left_capacity + pack_increment_left_size;
      m_buffer =
          blit cells (p.m_read_idx + pack_increment_left_size)
            (slice cells p.m_read_idx (p.m_write_idx - p.m_read_idx));
      m_write_idx = p.m_write_idx + pack_increment_left_size;
      m_read_idx = p.m_read_idx + pack_increment_left_size;
    }

extend_right :
    (p : Packet)
    → IsValid p
    → p.m_right_capacity + pack_increment_right_size ≤ pack_max_right_capacity
    → extend_rightbuffer_capacity p ≡ some (right_grown p)
unfolding extend_rightbuffer_capacity
extend_right p v h = ground (arith, v.right_some)

extend_left :
    (p : Packet)
    → IsValid p
    → p.m_left_capacity + pack_increment_left_size ≤ pack_max_left_capacity
    → p.m_read_idx < p.m_write_idx
    → extend_leftbuffer_capacity p ≡ some (left_moved p)
unfolding extend_leftbuffer_capacity
extend_left p v h pos =
    rw
      (
        len_lem p v,
        le→leb _ _ h,
        le→leb _ _ v.ordered,
        lt→ltb 0 (p.m_write_idx - p.m_read_idx) (omega arith),
        idx p.m_read_idx (omega (arith, v.ordered, v.inside, v.left_max, v.right_max)),
        idx p.m_write_idx (omega (arith, v.inside, v.left_max, v.right_max)),
      )
      refl
  where
    idx :
        (i : ℕ)
        → i ≤ pack_max_left_capacity + pack_max_right_capacity
        → add32 i pack_increment_left_size ≡ i + pack_increment_left_size
    idx i k = omega arith

-- The invariant and the bytes held, with the indices where they were.
right_grown-IsValid :
    (p : Packet)
    → IsValid p
    → p.m_right_capacity + pack_increment_right_size ≤ pack_max_right_capacity
    → IsValid (right_grown p) × (contents (right_grown p) ≡ contents p)
unfolding contents
right_grown-IsValid p v h = (
  record {
    storage = omega (
      arith,
      v.storage,
      length-append p.m_buffer (fresh_cells pack_increment_right_size),
      length-fresh pack_increment_right_size,
    );
    left_max = v.left_max;
    right_max = h;
    right_some = omega arith;
    ordered = v.ordered;
    inside = omega (arith, v.inside);
  },
  slice-append_le p.m_buffer _ p.m_read_idx (p.m_write_idx - p.m_read_idx)
      (omega (arith, v.storage, v.ordered, v.inside)),
)

left_moved-IsValid :
    (p : Packet)
    → IsValid p
    → p.m_left_capacity + pack_increment_left_size ≤ pack_max_left_capacity
    → IsValid (left_moved p) × (contents (left_moved p) ≡ contents p)
unfolding contents
left_moved-IsValid p v h = (
  record {
    storage =
        length-blit cells (p.m_read_idx + pack_increment_left_size) held fits
        ∙ omega (arith, long, v.storage);
    left_max = h;
    right_max = v.right_max;
    right_some = v.right_some;
    ordered = omega (arith, v.ordered);
    inside = omega (arith, v.inside);
  },
  slice-blit_end (p.m_read_idx + pack_increment_left_size)
        (p.m_write_idx + pack_increment_left_size - (p.m_read_idx + pack_increment_left_size)) cells
        (p.m_read_idx + pack_increment_left_size) held fits (omega arith)
        (omega (arith, held_long, v.ordered))
      ∙ ap (λ xs. xs ++ held)
          (take_cong _
            {m = p.m_read_idx
              + pack_increment_left_size
              - (p.m_read_idx + pack_increment_left_size)}
            {n = 0} (omega arith))
      ∙ slice-append_le p.m_buffer _ p.m_read_idx (p.m_write_idx - p.m_read_idx)
          (omega (arith, v.storage, v.ordered, v.inside)),
)
  where
    cells : List ℕ
    cells = p.m_buffer ++ fresh_cells pack_increment_left_size

    held : List ℕ
    held = slice cells p.m_read_idx (p.m_write_idx - p.m_read_idx)

    long : length cells ≡ length p.m_buffer + pack_increment_left_size
    long = omega (
      arith,
      length-append p.m_buffer (fresh_cells pack_increment_left_size),
      length-fresh pack_increment_left_size,
    )

    held_long : length held ≡ p.m_write_idx - p.m_read_idx
    held_long =
        length-slice cells p.m_read_idx (p.m_write_idx - p.m_read_idx)
          (omega (arith, long, v.storage, v.ordered, v.inside))

    fits : p.m_read_idx + pack_increment_left_size + length held ≤ length cells
    fits = omega (arith, held_long, long, v.storage, v.ordered, v.inside)

-- What growing keeps, until `n` bytes fit.
pub record Grown (p : Packet) (room : Packet → ℕ) (n : ℕ) (q : Packet) : Type 0 where
  pub valid : IsValid q
  pub same : contents q ≡ contents p
  pub fits : n ≤ room q

pub extend_right_while-Grown :
    (k n : ℕ) (p : Packet)
    → IsValid p
    → p.m_right_capacity + k * pack_increment_right_size ≤ pack_max_right_capacity
    → n + p.m_write_idx ≤ p.m_left_capacity + p.m_right_capacity + k * pack_increment_right_size
    → (q : Packet) × (extend_right_while k n p ≡ some q) × Grown p left_right_capacity n q
unfolding extend_right_while
extend_right_while-Grown zero n p v h room =
    let e : n ≤ left_right_capacity p = omega (arith, left_right_lem p v) in
    rw (le→leb _ _ e) (p, refl, record { valid = v; same = refl; fits = e })
extend_right_while-Grown (suc k) n p v h room = elim (Bool-cases (ltb (left_right_capacity p) n)) [
  | inr enough ↦
      rw enough (p, refl, record { valid = v; same = refl; fits = grind (arith, enough) })
  | inl short ↦
      let (v', same) = right_grown-IsValid p v (omega arith) in
      let (q, e, g) = extend_right_while-Grown k n (right_grown p) v' (omega arith) (omega arith) in
      rw (short, extend_right p v (omega arith))
        (q, e, record { valid = g.valid; same = g.same ∙ same; fits = g.fits })
]

pub extend_left_while-Grown :
    (k n : ℕ) (p : Packet)
    → IsValid p
    → p.m_read_idx < p.m_write_idx
    → p.m_left_capacity + k * pack_increment_left_size ≤ pack_max_left_capacity
    → n ≤ p.m_read_idx + k * pack_increment_left_size
    → (q : Packet) × (extend_left_while k n p ≡ some q) × Grown p left_left_capacity n q
unfolding extend_left_while left_left_capacity
extend_left_while-Grown zero n p v some_held h room =
    let e : n ≤ p.m_read_idx = omega arith in
    rw (le→leb _ _ e) (p, refl, record { valid = v; same = refl; fits = e })
extend_left_while-Grown (suc k) n p v some_held h room = elim (Bool-cases (ltb p.m_read_idx n)) [
  | inr enough ↦
      rw enough (p, refl, record { valid = v; same = refl; fits = grind (arith, enough) })
  | inl short ↦
      let (v', same) = left_moved-IsValid p v (omega arith) in
      let (q, e, g) =
        extend_left_while-Grown k n (left_moved p) v' (omega arith) (omega arith) (omega arith) in
      rw (short, extend_left p v (omega arith) some_held)
        (q, e, record { valid = g.valid; same = g.same ∙ same; fits = g.fits })
]

-- With no byte held an extension at the left moves no index.
abbrev grown_empty : Packet → Packet
grown_empty p = record p {
  m_buffer = p.m_buffer ++ fresh_cells pack_increment_left_size;
  m_left_capacity = p.m_left_capacity + pack_increment_left_size;
}

extend_left_empty :
    (p : Packet)
    → p.m_read_idx ≡ p.m_write_idx
    → (extend_leftbuffer_capacity p ≡ none) ⊎ (extend_leftbuffer_capacity p ≡ some (grown_empty p))
unfolding extend_leftbuffer_capacity len
extend_left_empty p e =
    elim (Bool-cases (leb (p.m_left_capacity + pack_increment_left_size) pack_max_left_capacity)) [
      | inr full ↦ inl (ground (arith, full))
      | inl room ↦ inr (ground (arith, room, e))
    ]

-- So the loop ends in the check of the capacity.
pub extend_left_while_empty :
    (k n : ℕ) (p : Packet)
    → p.m_read_idx ≡ p.m_write_idx
    → p.m_read_idx < n
    → extend_left_while k n p ≡ none
unfolding extend_left_while left_left_capacity
extend_left_while_empty zero n p e h = ground (arith, h)
extend_left_while_empty (suc k) n p e h = elim (extend_left_empty p e) [
  | inl refused ↦ rw (lt→ltb _ _ h, refused) refl
  | inr grown ↦ rw (lt→ltb _ _ h, grown) (extend_left_while_empty k n (grown_empty p) e h)
]
