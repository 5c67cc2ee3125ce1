-- ===== src/RingBuffer/Tests.antt =====
-- The ring at concrete values.
use wawo.Prelude.{◌≡◌, refl, [], ◌∷◌, arith}
use wawo.RingBuffer.{BytesRingbuffer, IsValid, contents, capacity}
use wawo.RingBuffer.Refine.{puts, gets, peeks, skips, run, queue_run, run_refines}

-- Eight cells, the bytes 5, 6 and 7 around the end.
abbrev turned_ring : BytesRingbuffer
turned_ring = record {
  m_capacity = 8;
  m_begin = 6;
  m_end = 1;
  m_buffer = 7 ∷ 0 ∷ 0 ∷ 0 ∷ 0 ∷ 0 ∷ 5 ∷ 6 ∷ [];
}

turned_ring-IsValid : IsValid turned_ring
turned_ring-IsValid = record {
  storage = refl;
  room = omega arith;
  small = omega arith;
  begin_in = omega arith;
  end_in = omega arith;
}

run_refines_example :
    run (puts (8 ∷ 9 ∷ []) ∷ gets 4 ∷ peeks 1 ∷ skips 2 ∷ []) turned_ring
    ≡ queue_run
        (capacity turned_ring)
        (puts (8 ∷ 9 ∷ []) ∷ gets 4 ∷ peeks 1 ∷ skips 2 ∷ [])
        (contents turned_ring)
run_refines_example =
    run_refines (puts (8 ∷ 9 ∷ []) ∷ gets 4 ∷ peeks 1 ∷ skips 2 ∷ []) turned_ring
      turned_ring-IsValid
