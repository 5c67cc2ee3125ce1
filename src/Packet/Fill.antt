-- ===== src/Packet/Fill.antt =====
-- A packet of include/wawo/packet.hpp that is filled from outside: bytes are copied to `begin` of an
-- empty one, and `forward_write_index` counts them.
use wawo.Prelude.{
  ℕ, ◌+◌, ◌-◌, ◌≤◌, ◌≡◌, refl, ap, true, some, List, ◌++◌, arith, length, leb, le→leb, drop,
  take_cong,
}
use wawo.Prelude.Words.{add32, sub32}
use wawo.Prelude.Memory.{blit}
use wawo.Packet.{Packet, IsValid, contents, left_right_capacity, capacity, forward_write_index}
use wawo.Packet.Ends.{Holds, Holds-same, placed_right}

module _ (p : Packet) (bytes : List ℕ) (v : IsValid p) (e : p.m_read_idx ≡ p.m_write_idx) where
  none_held : contents p ++ bytes ≡ bytes
  unfolding contents
  none_held =
      ap (λ xs. xs ++ bytes)
        (take_cong (drop p.m_read_idx p.m_buffer) {m = p.m_write_idx - p.m_read_idx} {n = 0}
          (omega (arith, e)))

  pub fill_lem :
      p.m_write_idx + length bytes ≤ p.m_left_capacity + p.m_right_capacity
      → (q : Packet) × (forward_write_index
            (length bytes)
            (record p { m_buffer = blit p.m_buffer p.m_read_idx bytes })
          ≡ some q)
        × Holds bytes q
  unfolding forward_write_index left_right_capacity capacity
  fill_lem h =
      let room : leb (length bytes)
            (sub32 (add32 p.m_left_capacity p.m_right_capacity) p.m_write_idx)
          ≡ true =
        le→leb _ _ (omega (arith, h, v.left_max, v.right_max)) in
      let idx : add32 p.m_write_idx (length bytes) ≡ p.m_write_idx + length bytes =
        omega (arith, h, v.left_max, v.right_max) in
      (_, rw (room, idx, e) refl, Holds-same none_held (placed_right p bytes v h))
