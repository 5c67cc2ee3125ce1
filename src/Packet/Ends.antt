-- ===== src/Packet/Ends.antt =====
-- The constructor and the writes of include/wawo/packet.hpp, and the bytes that a packet holds.
use wawo.Prelude.{
  ℕ, ◌+◌, ◌-◌, ◌≤◌, ◌<◌, ◌≡◌, refl, ap, ◌∙◌, none, some, List, [], ◌++◌, arith, length, take, drop,
  take_cong, drop_cong,
}
use wawo.Prelude.Words.{add32, sub32}
use wawo.Prelude.Memory.{
  blit, length-blit, length-slice, slice-blit_end, drop-blit_le, take-append_ge,
}
use wawo.Packet.{
  Packet, IsValid, contents, left_left_capacity, left_extensions, right_extensions,
  pack_max_left_capacity, pack_max_right_capacity, pack_increment_left_size,
  pack_increment_right_size, write, write_left, init, fresh_cells, max_of, pack_min_left_capacity,
  pack_min_right_capacity,
}
use wawo.Packet.Grow.{
  extend_right_while-Grown, extend_left_while-Grown, extend_left_while_empty, left_right_lem,
  length-fresh,
}

-- The bytes as they stand in the buffer.
pub length-contents : (p : Packet) → IsValid p → length (contents p) ≡ p.m_write_idx - p.m_read_idx
unfolding contents
length-contents p v =
    length-slice p.m_buffer p.m_read_idx _ (omega (arith, v.storage, v.ordered, v.inside))

-- Of `q`, what a change to the bytes `bytes` leaves.
pub record Holds (bytes : List ℕ) (q : Packet) : Type 0 where
  pub valid : IsValid q
  pub held : contents q ≡ bytes

pub Holds-same : {xs ys : List ℕ} {q : Packet} → xs ≡ ys → Holds xs q → Holds ys q
Holds-same e h = record { valid = h.valid; held = h.held ∙ e }

pub placed_right :
    (p : Packet) (bytes : List ℕ)
    → IsValid p
    → p.m_write_idx + length bytes ≤ p.m_left_capacity + p.m_right_capacity
    → Holds (contents p ++ bytes) (record p {
      m_buffer = blit p.m_buffer p.m_write_idx bytes;
      m_write_idx = p.m_write_idx + length bytes;
    })
unfolding contents
placed_right p bytes v h = record {
  valid = record {
    storage = length-blit p.m_buffer p.m_write_idx bytes (omega (arith, v.storage)) ∙ v.storage;
    left_max = v.left_max;
    right_max = v.right_max;
    right_some = v.right_some;
    ordered = omega (arith, v.ordered);
    inside = h;
  };
  held =
      slice-blit_end p.m_read_idx (p.m_write_idx + length bytes - p.m_read_idx) p.m_buffer
        p.m_write_idx bytes (omega (arith, v.storage)) v.ordered refl;
}

placed_left :
    (p : Packet) (bytes : List ℕ) (i : ℕ)
    → IsValid p
    → i + length bytes ≡ p.m_read_idx
    → Holds (bytes ++ contents p) (record p { m_read_idx = i; m_buffer = blit p.m_buffer i bytes })
unfolding contents
placed_left p bytes i v h = record {
  valid = record {
    storage =
        length-blit p.m_buffer i bytes (omega (arith, v.storage, v.ordered, v.inside, h))
        ∙ v.storage;
    left_max = v.left_max;
    right_max = v.right_max;
    right_some = v.right_some;
    ordered = omega (arith, v.ordered, h);
    inside = v.inside;
  };
  held =
      ap (take (p.m_write_idx - i)) (
        drop-blit_le i p.m_buffer i bytes (omega (arith, v.storage, v.ordered, v.inside, h))
          (omega arith)
        ∙ ap (λ xs. xs ++ (bytes ++ drop (i + length bytes) p.m_buffer))
            (take_cong (drop i p.m_buffer) {m = i - i} {n = 0} (omega arith)))
      ∙ take-append_ge (p.m_write_idx - i) bytes _ (omega (arith, v.ordered, h))
      ∙ ap (◌++◌ bytes) (
          ap (take (p.m_write_idx - i - length bytes)) (drop_cong p.m_buffer h)
          ∙ take_cong (drop p.m_read_idx p.m_buffer) (omega (arith, h)));
}

-- `write` on a valid packet returns a valid packet that holds the bytes it held and then the new
-- ones. It extends the packet as often as it must; the bytes fit, with one step of extension, under
-- the maximum.
pub write-Holds :
    (p : Packet) (bytes : List ℕ)
    → IsValid p
    → p.m_write_idx + length bytes + pack_increment_right_size
      ≤ p.m_left_capacity + pack_max_right_capacity
    → (q : Packet) × (write bytes p ≡ some q) × Holds (contents p ++ bytes) q
unfolding write
write-Holds p bytes v h =
    let (q, e, g) =
      extend_right_while-Grown (right_extensions p) (length bytes) p v (omega (arith, v.right_max))
        (omega (arith, v.right_max)) in
    let fits : q.m_write_idx + length bytes ≤ q.m_left_capacity + q.m_right_capacity =
      omega (arith, g.fits, left_right_lem q g.valid, g.valid.inside) in
    let idx : add32 q.m_write_idx (length bytes) ≡ q.m_write_idx + length bytes =
      omega (arith, fits, g.valid.left_max, g.valid.right_max) in
    rw (e, idx)
      (_, refl, Holds-same (ap (λ xs. xs ++ bytes) g.same) (placed_right q bytes g.valid fits))

-- `write_left` on a valid packet that holds bytes returns a valid packet with the new ones before
-- them, extended as often as it must; they fit, with one step of extension, under the maximum.
pub write_left-Holds :
    (p : Packet) (bytes : List ℕ)
    → IsValid p
    → 0 < length (contents p)
    → length bytes + p.m_left_capacity + pack_increment_left_size
      ≤ p.m_read_idx + pack_max_left_capacity
    → (q : Packet) × (write_left bytes p ≡ some q) × Holds (bytes ++ contents p) q
unfolding write_left
write_left-Holds p bytes v pos h =
    let (q, e, g) =
      extend_left_while-Grown (left_extensions p) (length bytes) p v
        (omega (arith, pos, length-contents p v)) (omega (arith, v.left_max))
        (omega (arith, v.left_max)) in
    let fits : length bytes ≤ q.m_read_idx = unfold left_left_capacity in g.fits in
    let idx : sub32 q.m_read_idx (length bytes) ≡ q.m_read_idx - length bytes =
      omega (arith, fits, g.valid.ordered, g.valid.inside, g.valid.left_max, g.valid.right_max) in
    rw (e, idx)
      (
        _,
        refl,
        Holds-same (ap (◌++◌ bytes) g.same)
            (placed_left q bytes (q.m_read_idx - length bytes) g.valid (omega (arith, fits))),
      )

-- On a packet that holds nothing `write_left` of more bytes than stand before its index fails,
-- whatever its capacity: the extension moves the bytes held, and there are none to move.
pub write_left_empty :
    (p : Packet) (bytes : List ℕ)
    → p.m_read_idx ≡ p.m_write_idx
    → p.m_read_idx < length bytes
    → write_left bytes p ≡ none
unfolding write_left
write_left_empty p bytes e h =
    rw (extend_left_while_empty (left_extensions p) (length bytes) p e h) refl

-- The packet of the capacities asked for, or the minimum, with nothing in it.
abbrev pub empty_packet : ℕ → ℕ → Packet
empty_packet right left = record {
  m_buffer =
      fresh_cells
        (add32 (max_of left pack_min_left_capacity) (max_of right pack_min_right_capacity));
  m_left_capacity = max_of left pack_min_left_capacity;
  m_read_idx = max_of left pack_min_left_capacity;
  m_right_capacity = max_of right pack_min_right_capacity;
  m_write_idx = max_of left pack_min_left_capacity;
}

-- The constructor makes a valid packet with nothing in it, of the capacities asked for or the
-- minimum, when they are under the maximum.
pub init-Holds :
    (right left : ℕ)
    → left < pack_max_left_capacity
    → right ≤ pack_max_right_capacity
    → (init right left ≡ some (empty_packet right left)) × Holds [] (empty_packet right left)
unfolding init contents
init-Holds right left h k = (
  ground (arith, h, k),
  record {
    valid = record {
      storage = length-fresh _ ∙ ground (arith, h, k);
      left_max = ground (arith, h);
      right_max = ground (arith, k);
      right_some = ground arith;
      ordered = omega arith;
      inside = omega arith;
    };
    held =
        take_cong (drop (max_of left pack_min_left_capacity) (empty_packet right left).m_buffer)
          {m = max_of left pack_min_left_capacity - max_of left pack_min_left_capacity} {n = 0}
          (omega arith);
  },
)
