-- ===== src/Packet/Made.antt =====
-- Packets of include/wawo/packet.hpp made from bytes, and read as bytes.
use wawo.Prelude.{
  ℕ, ◌+◌, ◌≤◌, ◌≡◌, ap, ◌∙◌, Option, some, List, ◌++◌, take_all, arith, length, ◌>>=◌,
}
use wawo.Packet.{
  Packet, IsValid, contents, begin_len, init, write, pack_init_left_capacity,
  pack_max_right_capacity, pack_increment_right_size,
}
use wawo.Packet.Ends.{Holds, Holds-same, write-Holds, init-Holds, empty_packet}
use wawo.Packet.Reads.{checked_len_lem, first_bytes}

-- A new packet of the length of the bytes, and the bytes written to it.
abbrev pub packet_of : List ℕ → Option Packet
packet_of bytes = init (length bytes) pack_init_left_capacity >>= write bytes

pub packet_of-Holds :
    (bytes : List ℕ)
    → length bytes + pack_increment_right_size ≤ pack_max_right_capacity
    → (p : Packet) × (packet_of bytes ≡ some p) × Holds bytes p
packet_of-Holds bytes h =
    let (made, empty) =
      init-Holds (length bytes) pack_init_left_capacity (omega arith) (omega (arith, h)) in
    let (q, e, g) =
      write-Holds (empty_packet (length bytes) pack_init_left_capacity) bytes empty.valid
        (omega (arith, h)) in
    (q, rw made e, Holds-same (ap (λ xs. xs ++ bytes) empty.held) g)

pub begin_len_lem : (p : Packet) → IsValid p → begin_len p ≡ some (contents p)
begin_len_lem p v = rw (checked_len_lem p v) (
    ap some
      (first_bytes _ p v (omega arith) ∙ take_all (length (contents p)) (contents p) (omega arith)))
