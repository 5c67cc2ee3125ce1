-- ===== src/RingBuffer/Store.antt =====
-- The copies of `write` of include/wawo/bytes_ringbuffer.hpp and the queue of bytes that the ring holds.
use wawo.Prelude.{
  ℕ, ◌+◌, ◌-◌, ◌≤◌, ◌<◌, ◌≡◌, refl, arith, length, length-take, length-drop, inl, inr, sym, ap, ◌∙◌,
  ◌%◌, take, drop, dec_lt, List, ◌++◌, ◌⊎◌, append_assoc, append-nil, take_cong, take_add,
}
use wawo.Prelude.Words.{add32, sub32, sub32_of_le}
use wawo.Prelude.Memory.{slice, blit, length-blit, take-blit_end, drop-blit_ge, slice-blit_end}
use wawo.RingBuffer.{BytesRingbuffer, IsValid, contents, count, store}
use wawo.RingBuffer.Contents.{contents_le, contents_gt, mod_of_lt, mod_of_wrap, count_two_ways}

-- The ring with `bs` copied behind the bytes held and its write index at `e`.
module _ (r : BytesRingbuffer) (v : IsValid r) (bs : List ℕ) (e : ℕ) where
  abbrev placed : BytesRingbuffer
  placed = record r { m_buffer = blit r.m_buffer r.m_end bs; m_end = e }

  placed-IsValid : r.m_end + length bs ≤ r.m_capacity → e < r.m_capacity → IsValid placed
  placed-IsValid h lt = record {
    storage = length-blit r.m_buffer r.m_end bs (omega arith) ∙ v.storage;
    room = v.room;
    small = v.small;
    begin_in = v.begin_in;
    end_in = lt;
  }

  -- Up to a cell of the buffer.
  placed_le :
      r.m_begin ≤ r.m_end
      → r.m_end + length bs ≤ r.m_capacity
      → e ≡ r.m_end + length bs
      → contents placed ≡ contents r ++ bs
  placed_le le fits k =
      contents_le placed (omega arith)
      ∙ slice-blit_end r.m_begin (e - r.m_begin) r.m_buffer r.m_end bs (omega arith) le
          (omega arith)
      ∙ ap (λ xs. xs ++ bs) (sym (contents_le r le))

  -- Just up to the end of the buffer.
  placed_full :
      r.m_begin ≤ r.m_end
      → r.m_end + length bs ≡ r.m_capacity
      → 0 < r.m_begin
      → e ≡ 0
      → contents placed ≡ contents r ++ bs
  placed_full le full pos k =
      contents_gt placed (omega arith)
      ∙ ap (◌++◌ (slice placed.m_buffer r.m_begin (r.m_capacity - r.m_begin)))
          (take_cong placed.m_buffer k)
      ∙ append-nil _
      ∙ slice-blit_end r.m_begin (r.m_capacity - r.m_begin) r.m_buffer r.m_end bs (omega arith) le
          (omega arith)
      ∙ ap (λ xs. xs ++ bs) (sym (contents_le r le))

  -- Before the bytes at the end of the buffer.
  placed_gt :
      r.m_end + length bs < r.m_begin → e ≡ r.m_end + length bs → contents placed ≡ contents r ++ bs
  placed_gt lt k =
      contents_gt placed (omega arith)
      ∙ ap (λ xs. take (r.m_capacity - r.m_begin) xs ++ take e placed.m_buffer)
          (drop-blit_ge r.m_begin r.m_buffer r.m_end bs (omega arith) (omega arith))
      ∙ ap (◌++◌ (slice r.m_buffer r.m_begin (r.m_capacity - r.m_begin)))
          (take-blit_end e r.m_buffer r.m_end bs (omega arith) k)
      ∙ sym (
          append_assoc (slice r.m_buffer r.m_begin (r.m_capacity - r.m_begin))
            (take r.m_end r.m_buffer) bs)
      ∙ ap (λ xs. xs ++ bs) (sym (contents_gt r (omega arith)))

-- The ring with `b1` copied up to the end of the buffer and `b2` to its front.
module _ (r : BytesRingbuffer) (v : IsValid r) (b1 b2 : List ℕ) where
  abbrev turned : ℕ → BytesRingbuffer
  turned e = record r { m_buffer = blit (blit r.m_buffer r.m_end b1) 0 b2; m_end = e }

  turned-IsValid :
      (e : ℕ)
      → r.m_end + length b1 ≡ r.m_capacity
      → length b2 ≡ e
      → e < r.m_capacity
      → IsValid (turned e)
  turned-IsValid e h k lt = record {
    storage =
        length-blit (blit r.m_buffer r.m_end b1) 0 b2
          (omega (arith, length-blit r.m_buffer r.m_end b1 (omega arith)))
        ∙ length-blit r.m_buffer r.m_end b1 (omega arith)
        ∙ v.storage;
    room = v.room;
    small = v.small;
    begin_in = v.begin_in;
    end_in = lt;
  }

  contents-turned :
      (e : ℕ)
      → r.m_begin ≤ r.m_end
      → r.m_end + length b1 ≡ r.m_capacity
      → length b2 ≡ e
      → e < r.m_begin
      → contents (turned e) ≡ contents r ++ (b1 ++ b2)
  contents-turned e le h k lt =
      contents_gt (turned e) lt
      ∙ ap (λ xs. take (r.m_capacity - r.m_begin) xs ++ take e (turned e).m_buffer)
          (drop-blit_ge r.m_begin buf 0 b2 (omega (arith, len)) (omega arith))
      ∙ ap (◌++◌ (slice buf r.m_begin (r.m_capacity - r.m_begin)))
          (take-blit_end e buf 0 b2 (omega (arith, len)) (omega arith))
      ∙ ap (λ xs. xs ++ b2)
          (slice-blit_end r.m_begin (r.m_capacity - r.m_begin) r.m_buffer r.m_end b1 (omega arith)
              le (omega arith)
            ∙ ap (λ xs. xs ++ b1) (sym (contents_le r le)))
      ∙ append_assoc (contents r) b1 b2
    where
      buf : List ℕ
      buf = blit r.m_buffer r.m_end b1

      len : length buf ≡ r.m_capacity
      len = length-blit r.m_buffer r.m_end b1 (omega arith) ∙ v.storage

-- What `store` promises of `n` bytes.
abbrev pub Stores : BytesRingbuffer → List ℕ → ℕ → Type 0
Stores r bytes n =
    IsValid (store bytes n r)
    × (contents (store bytes n r) ≡ contents r ++ take n bytes)
    × ((store bytes n r).m_capacity ≡ r.m_capacity)

module _ (r : BytesRingbuffer) (v : IsValid r) (bytes : List ℕ) (n : ℕ)
    (len : n ≤ length bytes) where
  length-first : length (take n bytes) ≡ n
  length-first = omega (arith, length-take n bytes)

  store_straight :
      (r.m_end ≤ r.m_begin) ⊎ (n ≤ r.m_capacity - r.m_end)
      → store bytes n r ≡ placed r v (take n bytes) (add32 r.m_end n % r.m_capacity)
  unfolding store
  store_straight h = ground arith

  store_round :
      r.m_begin < r.m_end
      → r.m_capacity - r.m_end < n
      → n ≤ r.m_capacity
      → store bytes n r
        ≡ turned r v
            (take (r.m_capacity - r.m_end) bytes)
            (take (n - (r.m_capacity - r.m_end)) (drop (r.m_capacity - r.m_end) bytes))
            (n - (r.m_capacity - r.m_end))
  unfolding store
  store_round lt over h = ground (arith, sub32_of_le n (r.m_capacity - r.m_end), tail_s)
    where
      tail_s : sub32 r.m_capacity r.m_end ≡ r.m_capacity - r.m_end
      tail_s = omega arith

  Stores-straight :
      (r.m_end ≤ r.m_begin) ⊎ (n ≤ r.m_capacity - r.m_end)
      → (e : ℕ) → add32 r.m_end n % r.m_capacity ≡ e
      → r.m_end + n ≤ r.m_capacity
      → e < r.m_capacity
      → contents (placed r v (take n bytes) e) ≡ contents r ++ take n bytes
      → Stores r bytes n
  Stores-straight h e k fits lt c =
      rw (store_straight h, k)
        (placed-IsValid r v (take n bytes) e (omega (arith, length-first)) lt, c, refl)

  -- Of bytes that fit, behind a write index that stands at 0 when nothing is held.
  pub stores : count r + n < r.m_capacity → (r.m_begin ≡ r.m_end → r.m_begin ≡ 0) → Stores r bytes n
  stores fits home = elim (count_two_ways r v) [
    | inr (gt, c) ↦
        Stores-straight (inl (omega arith)) (r.m_end + n)
          (mod_of_lt _ (r.m_end + n) r.m_capacity (omega arith) (omega arith)) (omega arith)
          (omega arith)
          (placed_gt r v (take n bytes) (r.m_end + n) (omega (arith, length-first))
            (omega (arith, length-first)))
    | inl (le, c) ↦ elim (dec_lt (r.m_end + n) r.m_capacity) [
      | yes lt ↦
          Stores-straight (inr (omega arith)) (r.m_end + n)
            (mod_of_lt _ (r.m_end + n) r.m_capacity (omega arith) lt) (omega arith) lt
            (placed_le r v (take n bytes) (r.m_end + n) le (omega (arith, length-first))
              (omega (arith, length-first)))
      | no ge ↦ elim (dec_lt r.m_capacity (r.m_end + n)) [
        | no full ↦
            Stores-straight (inr (omega arith)) 0
              (mod_of_wrap _ 0 r.m_capacity (omega arith) (omega arith)) (omega arith) (omega arith)
              (placed_full r v (take n bytes) 0 le (omega (arith, length-first)) (omega arith) refl)
        | yes over ↦ stores_turned le over (omega (arith, c)) (grind (arith, c))
      ]
    ]
  ]
    where
      t : ℕ
      t = r.m_capacity - r.m_end

      whole : t ≤ n → take t bytes ++ take (n - t) (drop t bytes) ≡ take n bytes
      whole h = take_add t (n - t) bytes ∙ take_cong bytes (omega arith)

      stores_turned :
          r.m_begin ≤ r.m_end
          → r.m_capacity < r.m_end + n
          → r.m_end + n < r.m_begin + r.m_capacity
          → r.m_begin < r.m_end
          → Stores r bytes n
      stores_turned le over wraps lt = rw (store_round lt (omega arith) (omega arith)) (
        turned-IsValid r v (take t bytes) (take (n - t) (drop t bytes)) (n - t)
            (omega (arith, length-take t bytes))
            (omega (arith, length-take (n - t) (drop t bytes), length-drop t bytes)) (omega arith),
        contents-turned r v (take t bytes) (take (n - t) (drop t bytes)) (n - t) le
              (omega (arith, length-take t bytes))
              (omega (arith, length-take (n - t) (drop t bytes), length-drop t bytes)) (omega arith)
            ∙ ap (◌++◌ (contents r)) (whole (omega arith)),
        refl,
      )
