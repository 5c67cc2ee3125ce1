-- ===== src/RingBuffer/Skip.antt =====
-- `skip` of include/wawo/bytes_ringbuffer.hpp and the queue of bytes that the ring holds.
use wawo.Prelude.{
  ℕ, ◌+◌, ◌-◌, ◌≤◌, ◌<◌, ◌≡◌, refl, true, some, arith, length, Bool-cases, inl, inr, sym, ap, ◌∙◌,
  ◌%◌, take, drop, dec_lt, ◌++◌, ◌⊎◌, le→leb, take_cong, drop_cong, drop-take,
}
use wawo.Prelude.Words.{add32}
use wawo.Prelude.Memory.{slice, length-slice, drop-slice, drop-append_le, drop-append_ge}
use wawo.RingBuffer.{BytesRingbuffer, IsValid, contents, count, skip, reset, is_empty}
use wawo.RingBuffer.Contents.{
  count_le, count_gt, contents_le, contents_gt, count-lt-capacity, mod_of_lt, mod_of_wrap,
  count_two_ways,
}

-- The bytes from the read index to the end of the buffer.
pub length_tail :
    (r : BytesRingbuffer)
    → IsValid r
    → length (slice r.m_buffer r.m_begin (r.m_capacity - r.m_begin)) ≡ r.m_capacity - r.m_begin
length_tail r v = length-slice r.m_buffer r.m_begin (r.m_capacity - r.m_begin) (omega arith)

-- The ring with its read index `s` further.
abbrev advance : BytesRingbuffer → ℕ → BytesRingbuffer
advance r s = record r { m_begin = add32 r.m_begin s % r.m_capacity }

advance_index :
    (r : BytesRingbuffer) (s : ℕ)
    → IsValid r
    → s ≤ count r
    → ((r.m_begin + s < r.m_capacity) × ((advance r s).m_begin ≡ r.m_begin + s))
      ⊎ ((r.m_capacity ≤ r.m_begin + s) × ((advance r s).m_begin ≡ r.m_begin + s - r.m_capacity))
advance_index r s v h = elim (dec_lt (r.m_begin + s) r.m_capacity) [
  | yes lt ↦ inl (lt, mod_of_lt _ (r.m_begin + s) r.m_capacity (omega arith) lt)
  | no ge ↦ inr (
    omega arith,
    mod_of_wrap _ (r.m_begin + s - r.m_capacity) r.m_capacity (omega (arith, count-lt-capacity r v))
        (omega (arith, count-lt-capacity r v)),
  )
]

advance-IsValid : (r : BytesRingbuffer) (s : ℕ) → IsValid r → s ≤ count r → IsValid (advance r s)
advance-IsValid r s v h = ground (arith, advance_index r s v h, count-lt-capacity r v)

-- The read index `s` further on, straight or round the end, leaves the bytes behind the first `s`.
module _ (r : BytesRingbuffer) (b s : ℕ) (v : IsValid r) (h : s ≤ count r) where
  shift_le :
      r.m_begin ≤ r.m_end
      → b ≡ r.m_begin + s
      → contents (record r { m_begin = b }) ≡ drop s (contents r)
  shift_le le e =
      contents_le (record r { m_begin = b }) (omega (arith, count_le r v le))
      ∙ sym (
          ap (drop s) (contents_le r le)
          ∙ drop-slice s (r.m_end - r.m_begin) r.m_buffer r.m_begin b (r.m_end - b) e (omega arith))

  shift_gt :
      r.m_end < r.m_begin
      → r.m_begin + s < r.m_capacity
      → b ≡ r.m_begin + s
      → contents (record r { m_begin = b }) ≡ drop s (contents r)
  shift_gt gt lt e =
      contents_gt (record r { m_begin = b }) (omega arith)
      ∙ sym (
          ap (drop s) (contents_gt r gt)
          ∙ drop-append_le s _ (take r.m_end r.m_buffer) (omega (arith, length_tail r v))
          ∙ ap (λ xs. xs ++ take r.m_end r.m_buffer)
              (drop-slice s (r.m_capacity - r.m_begin) r.m_buffer r.m_begin b (r.m_capacity - b) e
                (omega arith)))

  shift_round :
      r.m_end < r.m_begin
      → r.m_capacity ≤ r.m_begin + s
      → b ≡ r.m_begin + s - r.m_capacity
      → contents (record r { m_begin = b }) ≡ drop s (contents r)
  shift_round gt ge e =
      contents_le (record r { m_begin = b }) (omega (arith, count_gt r v gt))
      ∙ sym (
          ap (drop s) (contents_gt r gt)
          ∙ drop-append_ge s _ (take r.m_end r.m_buffer) (omega (arith, length_tail r v))
          ∙ drop-take _ r.m_end r.m_buffer
          ∙ slice_cong (omega (arith, length_tail r v)) (omega (arith, length_tail r v)))
    where
      slice_cong :
          {m n i j : ℕ} → m ≡ n → i ≡ j → take m (drop i r.m_buffer) ≡ take n (drop j r.m_buffer)
      slice_cong {n} {i} p q =
          take_cong (drop i r.m_buffer) p ∙ ap (take n) (drop_cong r.m_buffer q)

contents-advance :
    (r : BytesRingbuffer) (s : ℕ)
    → IsValid r
    → s ≤ count r
    → contents (advance r s) ≡ drop s (contents r)
contents-advance r s v h = elim (count_two_ways r v) [
  | inl (le, c) ↦ shift_le r _ s v h le (ground (arith, advance_index r s v h))
  | inr (gt, c) ↦ elim (advance_index r s v h) [
    | inl (lt, e) ↦ shift_gt r _ s v h gt lt e
    | inr (ge, e) ↦ shift_round r _ s v h gt ge e
  ]
]

-- An empty ring holds nothing, wherever its indices stand.
contents-reset :
    (r : BytesRingbuffer) → is_empty r ≡ true → IsValid r → contents (reset r) ≡ contents r
unfolding is_empty reset contents
contents-reset r e v = ground (arith)

reset-IsValid : (r : BytesRingbuffer) → IsValid r → IsValid (reset r)
unfolding reset
reset-IsValid r v = ground arith

-- `skip` drops the first bytes held.
pub skip_lem :
    (r : BytesRingbuffer) (s : ℕ)
    → IsValid r
    → s ≤ count r
    → (r' : BytesRingbuffer) × (skip s r ≡ some r')
      × IsValid r'
      × (contents r' ≡ drop s (contents r))
      × (r'.m_capacity ≡ r.m_capacity)
unfolding skip
skip_lem r s v h = elim (Bool-cases (is_empty (advance r s))) [
  | inl e ↦ (
    reset (advance r s),
    rw (le→leb s (count r) h, e),
    reset-IsValid _ (advance-IsValid r s v h),
    contents-reset _ e (advance-IsValid r s v h) ∙ contents-advance r s v h,
    unfold reset in refl,
  )
  | inr ne ↦ (
    advance r s,
    rw (le→leb s (count r) h, ne),
    advance-IsValid r s v h,
    contents-advance r s v h,
    refl,
  )
]
