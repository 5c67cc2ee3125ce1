-- ===== src/RingBuffer/Read.antt =====
-- Reading from the ring of include/wawo/bytes_ringbuffer.hpp and the queue of bytes that it holds.
use wawo.Prelude.{
  leb→le, ℕ, ◌-◌, ◌≤◌, ◌<◌, ◌≡◌, refl, true, false, Bool, some, arith, length, min, Bool-cases, inl,
  inr, leb, ltb, sym, ap, ◌∙◌, take, drop, dec_le, dec_lt, List, ◌++◌, if◌then◌else◌, [], take-nil,
  ◌⊎◌, take_all, drop_all, le→leb, ◌==◌, ==_iff, eq_nil, take-take, take_cong, drop_cong, drop-nil,
}
use wawo.Prelude.Words.{sub32, sub32_of_le}
use wawo.Prelude.Memory.{slice, take-slice, take-append_le, take-append_ge}
use wawo.RingBuffer.{BytesRingbuffer, IsValid, contents, count, skip, copied, read, try_read}
use wawo.RingBuffer.Contents.{
  count_le, count_gt, contents_le, contents_gt, count-eq-length, count_two_ways,
}
use wawo.RingBuffer.Skip.{length_tail, skip_lem}

module _ (r : BytesRingbuffer) (v : IsValid r) where
  copied_straight :
      (c : ℕ)
      → (r.m_begin < r.m_end) ⊎ (c ≤ r.m_capacity - r.m_begin)
      → copied r c ≡ slice r.m_buffer r.m_begin c
  unfolding copied
  copied_straight c h = ground arith

  copied_round :
      (c : ℕ)
      → r.m_end ≤ r.m_begin
      → r.m_capacity - r.m_begin < c
      → c ≤ r.m_capacity
      → copied r c
        ≡ slice r.m_buffer r.m_begin (r.m_capacity - r.m_begin)
          ++ take (c - (r.m_capacity - r.m_begin)) r.m_buffer
  unfolding copied
  copied_round c h k l = ground (arith, tail_c, sub32_of_le c (r.m_capacity - r.m_begin))
    where
      tail_c : sub32 r.m_capacity r.m_begin ≡ r.m_capacity - r.m_begin
      tail_c = omega arith

  -- The bytes that are copied are the first ones held.
  pub copied-eq-take : (c : ℕ) → c ≤ count r → 0 < count r → copied r c ≡ take c (contents r)
  copied-eq-take c h pos = elim (dec_lt r.m_begin r.m_end) [
    | yes lt ↦
        copied_straight c (inl lt)
        ∙ sym (
            ap (take c) (contents_le r (omega arith))
            ∙ take-slice c (r.m_end - r.m_begin) r.m_buffer r.m_begin
                (omega (arith, count_le r v (omega arith))))
    | no ge ↦ round (ground (arith, count_two_ways r v))
  ]
    where
      round : r.m_end < r.m_begin → copied r c ≡ take c (contents r)
      round gt = elim (dec_le c (r.m_capacity - r.m_begin)) [
        | yes fits ↦
            copied_straight c (inr fits)
            ∙ sym (
                ap (take c) (contents_gt r gt)
                ∙ take-append_le c _ (take r.m_end r.m_buffer) (omega (arith, length_tail r v))
                ∙ take-slice c (r.m_capacity - r.m_begin) r.m_buffer r.m_begin fits)
        | no over ↦
            copied_round c (omega arith) (omega arith) (omega (arith, count_gt r v gt))
            ∙ sym (
                ap (take c) (contents_gt r gt)
                ∙ take-append_ge c _ (take r.m_end r.m_buffer) (omega (arith, length_tail r v))
                ∙ ap (◌++◌ (slice r.m_buffer r.m_begin (r.m_capacity - r.m_begin))) (
                    take-take _ r.m_end r.m_buffer
                    ∙ take_cong r.m_buffer (omega (arith, length_tail r v, count_gt r v gt))))
      ]

copy_c-eq-min : (s n : ℕ) → (if ltb s n then s else n) ≡ min s n
copy_c-eq-min s n = ground arith

take-min : (s n : ℕ) (xs : List ℕ) → n ≡ length xs → take (min s n) xs ≡ take s xs
take-min s n xs e = sym (take-take s n xs) ∙ ap (take s) (take_all n xs (omega arith))

pub drop-min : (s n : ℕ) (xs : List ℕ) → n ≡ length xs → drop (min s n) xs ≡ drop s xs
drop-min s n xs e = elim (dec_le s n) [
  | yes le ↦ drop_cong xs (omega arith)
  | no gt ↦ drop_all (min s n) xs (omega arith) ∙ sym (drop_all s xs (omega arith))
]

-- The three ways through `read`.
read_nothing :
    (r : BytesRingbuffer) (s : ℕ) (move : Bool) → count r ≡ 0 → read s move r ≡ some (0, [], r)
unfolding read
read_nothing r s move e = rw ((==_iff _ _).1 e)

read_still :
    (r : BytesRingbuffer) (s : ℕ)
    → (count r == 0) ≡ false
    → read s false r ≡ some (min s (count r), copied r (min s (count r)), r)
unfolding read
read_still r s e = rw (e, copy_c-eq-min s (count r))

read_move :
    (r : BytesRingbuffer) (s : ℕ) {r' : BytesRingbuffer}
    → (count r == 0) ≡ false
    → skip (min s (count r)) r ≡ some r'
    → read s true r ≡ some (min s (count r), copied r (min s (count r)), r')
unfolding read
read_move r s e f = rw (e, copy_c-eq-min s (count r), f)

-- What `read` promises of its result `r'`.
abbrev pub Reads : BytesRingbuffer → ℕ → Bool → BytesRingbuffer → Type 0
Reads r s move r' =
    (read s move r ≡ some (min s (count r), take s (contents r), r'))
    × IsValid r'
    × (contents r' ≡ (if move then drop s (contents r) else contents r))
    × (r'.m_capacity ≡ r.m_capacity)

module _ (r : BytesRingbuffer) (s : ℕ) (v : IsValid r) where
  first_bytes : (count r == 0) ≡ false → copied r (min s (count r)) ≡ take s (contents r)
  first_bytes e =
      copied-eq-take r v (min s (count r)) (omega arith) (ground arith)
      ∙ take-min s (count r) (contents r) (count-eq-length r v)

  read_held : (move : Bool) → (count r == 0) ≡ false → (r' : BytesRingbuffer) × Reads r s move r'
  read_held false e = (
    r,
    (read_still r s e ∙ ap (λ t. some (min s (count r), t, r)) (first_bytes e), v, refl, refl),
  )
  read_held true e =
      let (r', done, v', rest, cap) = skip_lem r (min s (count r)) v (omega arith) in
      (
        r',
        (
          read_move r s e done ∙ ap (λ t. some (min s (count r), t, r')) (first_bytes e),
          v',
          rest ∙ drop-min s (count r) (contents r) (count-eq-length r v),
          cap,
        ),
      )

  read_empty : (move : Bool) → count r ≡ 0 → Reads r s move r
  read_empty move e = (
    read_nothing r s move e ∙ ground (arith, none_held, take-nil {A = ℕ} s),
    v,
    ground (arith, none_held, drop-nil {A = ℕ} s),
    refl,
  )
    where
      none_held : contents r ≡ []
      none_held = eq_nil (contents r) (omega (arith, count-eq-length r v))

-- `read` returns the first bytes held, at most `s`, in order; with `move` they are taken out, and
-- without it the ring is as it was.
pub read_lem :
    (r : BytesRingbuffer) (s : ℕ) (move : Bool)
    → IsValid r
    → (r' : BytesRingbuffer) × Reads r s move r'
read_lem r s move v = elim (Bool-cases (count r == 0)) [
  | inl e ↦ (r, read_empty r s v move ((==_iff _ _).0 e))
  | inr ne ↦ read_held r s v move ne
]

-- What `try_read` promises of its result `r'`, as `enough` bytes are held or not.
abbrev pub Tries : BytesRingbuffer → ℕ → Bool → BytesRingbuffer → Type 0
Tries r s enough r' =
    (try_read s r ≡ some (enough, (if enough then take s (contents r) else []), r'))
    × IsValid r'
    × (contents r' ≡ (if enough then drop s (contents r) else contents r))

-- `try_read` answers `true` with the first `s` bytes, taken out, if so many are held; else it
-- answers `false` and changes nothing.
pub try_read_lem :
    (r : BytesRingbuffer) (s : ℕ)
    → IsValid r
    → (r' : BytesRingbuffer) × Tries r s (leb s (length (contents r))) r'
unfolding try_read
try_read_lem r s v = elim (Bool-cases (leb s (length (contents r)))) [
  | inl h ↦
      let (r', p) = read_lem r s true v in
      (
        r',
        rw h (
          rw (le→leb s (count r) (omega (arith, held, leb→le _ _ h)), p.0, least (leb→le _ _ h))
              refl,
          p.1,
          p.2,
        ),
      )
  | inr h ↦ (r, rw h (ground (arith, held, h), v, refl))
]
  where
    held : count r ≡ length (contents r)
    held = count-eq-length r v

    least : s ≤ length (contents r) → (min s (count r) == s) ≡ true
    least h = (==_iff _ _).1 (omega (arith, held))
