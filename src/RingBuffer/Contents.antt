-- ===== src/RingBuffer/Contents.antt =====
-- The counts of include/wawo/bytes_ringbuffer.hpp against the bytes that a ring holds.
use native.Mathlib.Nat.{mod-eq_of_lt, mod-eq-sub-mod}
use wawo.Prelude.{
  ℕ, ◌+◌, ◌-◌, ◌≤◌, ◌<◌, ◌≡◌, ◌↔◌, true, some, arith, length, length-append, length-take,
  length-replicate, inl, inr, ◌∙◌, ◌%◌, take, dec_le, dec_lt, ◌⊎◌, [], ◌++◌, le→leb,
}
use wawo.Prelude.Words.{add32}
use wawo.Prelude.Memory.{slice, length-slice}
use wawo.RingBuffer.{
  BytesRingbuffer, IsValid, contents, init, capacity, count, left_capacity, is_empty, is_full,
  max_ring_buffer_size, min_ring_buffer_size, malloc,
}

pub mod_of_lt : (a b n : ℕ) → a ≡ b → b < n → a % n ≡ b
mod_of_lt a b n e h = rw e (mod-eq_of_lt h)

pub mod_of_wrap : (a b n : ℕ) → a ≡ b + n → b < n → a % n ≡ b
mod_of_wrap a b n e h =
    rw e
      (mod-eq-sub-mod {n = b + n} {m = n} (omega arith) ∙ mod_of_lt (b + n - n) b n (omega arith) h)

-- `count`, without the wrap-around.
pub count_le :
    (r : BytesRingbuffer) → IsValid r → r.m_begin ≤ r.m_end → count r ≡ r.m_end - r.m_begin
unfolding count
count_le r v h = mod_of_wrap _ (r.m_end - r.m_begin) r.m_capacity (omega arith) (omega arith)

pub count_gt :
    (r : BytesRingbuffer)
    → IsValid r
    → r.m_end < r.m_begin
    → count r ≡ r.m_capacity - r.m_begin + r.m_end
unfolding count
count_gt r v h =
    mod_of_lt _ (r.m_capacity - r.m_begin + r.m_end) r.m_capacity (omega arith) (omega arith)

pub contents_le :
    (r : BytesRingbuffer)
    → r.m_begin ≤ r.m_end
    → contents r ≡ slice r.m_buffer r.m_begin (r.m_end - r.m_begin)
unfolding contents
contents_le r h = ground arith

pub contents_gt :
    (r : BytesRingbuffer)
    → r.m_end < r.m_begin
    → contents r ≡ slice r.m_buffer r.m_begin (r.m_capacity - r.m_begin) ++ take r.m_end r.m_buffer
unfolding contents
contents_gt r h = ground arith

-- `count` is the number of bytes held.
pub count-eq-length : (r : BytesRingbuffer) → IsValid r → count r ≡ length (contents r)
count-eq-length r v = elim (dec_le r.m_begin r.m_end) [
  | yes h ↦ rw (contents_le r h) (
      omega (
        arith,
        count_le r v h,
        length-slice r.m_buffer r.m_begin (r.m_end - r.m_begin) (omega arith),
      ))
  | no h ↦ rw (contents_gt r (omega arith)) (
      omega (
        arith,
        count_gt r v (omega arith),
        length-append (slice r.m_buffer r.m_begin (r.m_capacity - r.m_begin))
            (take r.m_end r.m_buffer),
        length-slice r.m_buffer r.m_begin (r.m_capacity - r.m_begin) (omega arith),
        length-take r.m_end r.m_buffer,
      ))
]

pub count-lt-capacity : (r : BytesRingbuffer) → IsValid r → count r < r.m_capacity
count-lt-capacity r v = elim (dec_le r.m_begin r.m_end) [
  | yes h ↦ omega (arith, count_le r v h)
  | no h ↦ omega (arith, count_gt r v (omega arith))
]

-- What is held and what is left make up the capacity.
pub count-add-left :
    (r : BytesRingbuffer)
    → IsValid r
    → (capacity r ≡ r.m_capacity - 1) × (count r + left_capacity r ≡ capacity r)
unfolding left_capacity capacity
count-add-left r v =
    let h : count r < r.m_capacity = count-lt-capacity r v in (omega arith, omega arith)

-- The index behind the last one is 0.
next_index :
    (r : BytesRingbuffer)
    → IsValid r
    → ((r.m_end + 1 < r.m_capacity) × (add32 r.m_end 1 % r.m_capacity ≡ r.m_end + 1))
      ⊎ ((r.m_end + 1 ≡ r.m_capacity) × (add32 r.m_end 1 % r.m_capacity ≡ 0))
next_index r v = elim (dec_lt (r.m_end + 1) r.m_capacity) [
  | yes h ↦ inl (h, mod_of_lt _ (r.m_end + 1) r.m_capacity (omega arith) h)
  | no h ↦ inr (omega arith, mod_of_wrap _ 0 r.m_capacity (omega arith) (omega arith))
]

pub count_two_ways :
    (r : BytesRingbuffer)
    → IsValid r
    → ((r.m_begin ≤ r.m_end) × (count r ≡ r.m_end - r.m_begin))
      ⊎ ((r.m_end < r.m_begin) × (count r ≡ r.m_capacity - r.m_begin + r.m_end))
count_two_ways r v = elim (dec_le r.m_begin r.m_end) [
  | yes h ↦ inl (h, count_le r v h)
  | no h ↦ inr (omega arith, count_gt r v (omega arith))
]

-- `is_empty` says that no byte is held, and `is_full` that no byte is left.
pub is_empty-is_full :
    (r : BytesRingbuffer)
    → IsValid r
    → ((is_empty r ≡ true) ↔ (count r ≡ 0)) × ((is_full r ≡ true) ↔ (left_capacity r ≡ 0))
unfolding is_empty is_full
is_empty-is_full r v = (
  ((λ e. ground (arith, count_two_ways r v)), (λ e. ground (arith, count_two_ways r v))),
  (
    (λ e. ground (arith, count_two_ways r v, next_index r v, count-add-left r v)),
    (λ e. ground (arith, count_two_ways r v, next_index r v, count-add-left r v)),
  ),
)

-- The state after the constructor.
abbrev pub fresh : ℕ → BytesRingbuffer
fresh n = record { m_capacity = n + 1; m_begin = 0; m_end = 0; m_buffer = malloc (n + 1) }

pub fresh-IsValid :
    (n : ℕ) → min_ring_buffer_size ≤ n → n ≤ max_ring_buffer_size → IsValid (fresh n)
fresh-IsValid n h k = record {
  storage = length-replicate (n + 1) _;
  room = omega arith;
  small = omega arith;
  begin_in = omega arith;
  end_in = omega arith;
}

pub contents-fresh : (n : ℕ) → contents (fresh n) ≡ []
contents-fresh n = contents_le (fresh n) (omega arith)

-- A capacity within the limits is accepted, and the ring is valid, empty and of that capacity.
pub init-IsValid :
    (n : ℕ)
    → min_ring_buffer_size ≤ n
    → n ≤ max_ring_buffer_size
    → (init n ≡ some (fresh n))
      × IsValid (fresh n)
      × (contents (fresh n) ≡ [])
      × (capacity (fresh n) ≡ n)
unfolding init capacity
init-IsValid n h k = (
  rw (le→leb min_ring_buffer_size n h, le→leb n max_ring_buffer_size k),
  fresh-IsValid n h k,
  contents-fresh n,
  omega arith,
)
