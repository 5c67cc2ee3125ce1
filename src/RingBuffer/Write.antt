-- ===== src/RingBuffer/Write.antt =====
-- Writing to the ring of include/wawo/bytes_ringbuffer.hpp and the queue of bytes that it holds.
use wawo.Prelude.{
  ℕ, ◌-◌, ◌<◌, ◌≡◌, refl, false, some, none, arith, length, min, Bool-cases, inl, inr, sym, ap, ◌∙◌,
  take, drop, List, ◌++◌, if◌then◌else◌, ◌==◌, ==_iff, append-nil, take_cong, take-min-length,
}
use wawo.RingBuffer.{BytesRingbuffer, IsValid, contents, count, left_capacity, store, write}
use wawo.RingBuffer.Contents.{count_le, contents_le, count-add-left}
use wawo.RingBuffer.Store.{Stores, stores}

-- The ring that `write` stores to: an empty one is set back to 0.
abbrev homed : BytesRingbuffer → BytesRingbuffer
homed r = if r.m_end == r.m_begin then record r { m_end = 0; m_begin = 0 } else r

homed-IsValid :
    (r : BytesRingbuffer)
    → IsValid r
    → IsValid (homed r)
      × (contents (homed r) ≡ contents r)
      × (count (homed r) ≡ count r)
      × ((homed r).m_capacity ≡ r.m_capacity)
      × ((homed r).m_begin ≡ (homed r).m_end → (homed r).m_begin ≡ 0)
homed-IsValid r v = elim (Bool-cases (r.m_end == r.m_begin)) [
  | inl e ↦
      rw e
        (home_valid, none_held ((==_iff _ _).0 e), count_none ((==_iff _ _).0 e), refl, λ _. refl)
  | inr ne ↦ rw ne (v, refl, refl, refl, ground arith)
]
  where
    home : BytesRingbuffer
    home = record r { m_end = 0; m_begin = 0 }

    home_valid : IsValid home
    home_valid = omega arith

    none_held : r.m_end ≡ r.m_begin → contents home ≡ contents r
    none_held e =
        contents_le home (omega arith)
        ∙ sym (
            contents_le r (omega arith)
            ∙ take_cong (drop r.m_begin r.m_buffer) {m = r.m_end - r.m_begin} {n = 0} (omega arith))

    count_none : r.m_end ≡ r.m_begin → count home ≡ count r
    count_none e = omega (arith, count_le home home_valid (omega arith), count_le r v (omega arith))

-- What `write` promises of its result `r'`.
abbrev pub Writes : BytesRingbuffer → List ℕ → BytesRingbuffer → Type 0
Writes r bytes r' =
    (write bytes r ≡ some (min (length bytes) (left_capacity r), r'))
    × IsValid r'
    × (contents r' ≡ contents r ++ take (left_capacity r) bytes)
    × (r'.m_capacity ≡ r.m_capacity)

-- `write` of at least one byte adds as many of the bytes as there is room for behind those held,
-- and returns their number.
pub write_lem :
    (r : BytesRingbuffer) (bytes : List ℕ)
    → IsValid r
    → 0 < length bytes
    → (r' : BytesRingbuffer) × Writes r bytes r'
write_lem r bytes v pos = elim (Bool-cases (left_capacity r == 0)) [
  | inl full ↦ (r, nothing ((==_iff _ _).0 full))
  | inr room ↦ (store bytes n (homed r), something room)
]
  where
    n : ℕ
    n = min (length bytes) (left_capacity r)

    nothing : left_capacity r ≡ 0 → Writes r bytes r
    nothing e = (
      unfold write in ground arith,
      v,
      sym (append-nil (contents r)) ∙ ap (◌++◌ (contents r)) (take_cong bytes {m = 0} (sym e)),
      refl,
    )

    stored : Stores (homed r) bytes n
    stored =
        let (v', same, held, cap, home) = homed-IsValid r v in
        stores (homed r) v' bytes n (omega arith) (omega (arith, held, cap, count-add-left r v))
          home

    something : (left_capacity r == 0) ≡ false → Writes r bytes (store bytes n (homed r))
    something room = (
      unfold write in ground (arith, room),
      stored.0,
      stored.1
          ∙ ap (λ xs. xs ++ take n bytes) (homed-IsValid r v).1
          ∙ ap (◌++◌ (contents r)) (take-min-length (left_capacity r) bytes),
      stored.2 ∙ (homed-IsValid r v).3,
    )

-- A write of no bytes is an assertion.
pub write_nothing : (r : BytesRingbuffer) (bytes : List ℕ) → length bytes ≡ 0 → write bytes r ≡ none
unfolding write
write_nothing r bytes e = ground arith
