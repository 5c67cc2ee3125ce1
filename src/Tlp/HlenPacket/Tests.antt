-- ===== src/Tlp/HlenPacket/Tests.antt =====
-- A stream of two packets and a half, in a ring.
use wawo.Prelude.{refl, [], ◌∷◌, ◌++◌, arith, take, drop, List, ℕ}
use wawo.Bytes.{write_impl, write_u32}
use wawo.RingBuffer.{BytesRingbuffer, contents}
use wawo.Packet.{Packet}
use wawo.Packet
use wawo.Tlp.HlenPacket.{hlen_packet, decode_packets}
use wawo.Tlp.HlenPacket.Frames.{frames, few, Ring, waits_len, Returns, code_for}
use wawo.Tlp.HlenPacket.Decode.{decode_packets_lem}

abbrev stream_ring : BytesRingbuffer
stream_ring = record {
  m_capacity = 20;
  m_begin = 1;
  m_end = 14;
  m_buffer = 9 ∷ 0 ∷ 0 ∷ 0 ∷ 2 ∷ 7 ∷ 8 ∷ 0 ∷ 0 ∷ 0 ∷ 1 ∷ 5 ∷ 0 ∷ 0 ∷ 9 ∷ 9 ∷ 9 ∷ 9 ∷ 9 ∷ 9 ∷ [];
}

abbrev two_packets : List (List ℕ)
two_packets = (7 ∷ 8 ∷ []) ∷ (5 ∷ []) ∷ []

stream_ring-Ring : Ring 20 (frames two_packets ++ (0 ∷ 0 ∷ [])) stream_ring
stream_ring-Ring = record {
  valid = record {
    storage = refl;
    room = omega arith;
    small = omega arith;
    begin_in = omega arith;
    end_in = omega arith;
  };
  held = unfold contents write_u32 write_impl in refl;
  cells_eq = refl;
}

-- With room for one packet in `arrives`.
decode_packets_lem_example :
    Returns 20
      (code_for (drop 1 two_packets))
      (take 1 two_packets)
      (frames (drop 1 two_packets) ++ (0 ∷ 0 ∷ []))
      (decode_packets (hlen_packet 0) stream_ring 1)
decode_packets_lem_example =
    decode_packets_lem 20 1 (0 ∷ 0 ∷ []) (few (omega arith)) two_packets (hlen_packet 0) stream_ring
      (waits_len 0 stream_ring stream_ring-Ring)
      ((omega arith, omega arith, omega arith), ((omega arith, omega arith, omega arith), tt))

abbrev one_packet : Packet
one_packet = record {
  m_buffer = 0 ∷ 0 ∷ 7 ∷ 8 ∷ [];
  m_left_capacity = 2;
  m_read_idx = 2;
  m_right_capacity = 2;
  m_write_idx = 4;
}

one_packet-IsValid : Packet.IsValid one_packet
one_packet-IsValid = record {
  storage = refl;
  left_max = omega arith;
  right_max = omega arith;
  right_some = omega arith;
  ordered = omega arith;
  inside = omega arith;
}
