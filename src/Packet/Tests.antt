-- ===== src/Packet/Tests.antt =====
-- Packets at concrete values.
use wawo.Prelude.{◌≡◌, ◌++◌, refl, some, none, [], ◌∷◌, arith}
use wawo.Packet.{Packet, IsValid, contents, write, write_left}
use wawo.Packet.Ends.{Holds, write-Holds, write_left-Holds, write_left_empty}

-- The bytes 1, 2 and 3 in a buffer of eight, with one cell free before them and four behind.
abbrev small_packet : Packet
small_packet = record {
  m_buffer = 0 ∷ 1 ∷ 2 ∷ 3 ∷ 0 ∷ 0 ∷ 0 ∷ 0 ∷ [];
  m_left_capacity = 4;
  m_read_idx = 1;
  m_right_capacity = 4;
  m_write_idx = 4;
}

small_packet-IsValid : IsValid small_packet
small_packet-IsValid = record {
  storage = refl;
  left_max = omega arith;
  right_max = omega arith;
  right_some = omega arith;
  ordered = omega arith;
  inside = omega arith;
}

-- The same buffer with the bytes read.
abbrev drained_packet : Packet
drained_packet = record small_packet { m_read_idx = 4 }

write-Holds_example :
    (q : Packet) × (write (7 ∷ 8 ∷ 9 ∷ 10 ∷ 11 ∷ []) small_packet ≡ some q)
    × Holds (contents small_packet ++ (7 ∷ 8 ∷ 9 ∷ 10 ∷ 11 ∷ [])) q
write-Holds_example =
    write-Holds small_packet (7 ∷ 8 ∷ 9 ∷ 10 ∷ 11 ∷ []) small_packet-IsValid (omega arith)

write_left-Holds_example :
    (q : Packet) × (write_left (8 ∷ 9 ∷ []) small_packet ≡ some q)
    × Holds (8 ∷ 9 ∷ contents small_packet) q
write_left-Holds_example =
    write_left-Holds small_packet (8 ∷ 9 ∷ []) small_packet-IsValid (unfold contents in omega arith)
      (omega arith)

write_left_empty_example : write_left (5 ∷ 6 ∷ 7 ∷ 8 ∷ 9 ∷ []) drained_packet ≡ none
write_left_empty_example =
    write_left_empty drained_packet (5 ∷ 6 ∷ 7 ∷ 8 ∷ 9 ∷ []) refl (omega arith)
