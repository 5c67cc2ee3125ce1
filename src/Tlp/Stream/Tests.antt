-- ===== src/Tlp/Stream/Tests.antt =====
-- A ring of bytes cut into packets.
use wawo.Prelude.{◌*◌, ◌≡◌, refl, some, List, [], ◌∷◌, arith, length, ltb, if◌then◌else◌}
use wawo.RingBuffer.{BytesRingbuffer, contents}
use wawo.RingBuffer
use wawo.Packet.{Packet}
use wawo.Tlp.HlenPacket.{ok, e_tlp_try_again}
use wawo.Tlp.Stream.{decode_packets}
use wawo.Tlp.Stream.Pieces.{Splits, piece_of, decode_packets-Splits}

-- Eight cells, the bytes 5, 6 and 7 around the end.
abbrev turned_stream : BytesRingbuffer
turned_stream = record {
  m_capacity = 8;
  m_begin = 6;
  m_end = 1;
  m_buffer = 7 ∷ 0 ∷ 0 ∷ 0 ∷ 0 ∷ 0 ∷ 5 ∷ 6 ∷ [];
}

turned_stream-IsValid : RingBuffer.IsValid turned_stream
turned_stream-IsValid = record {
  storage = refl;
  room = omega arith;
  small = omega arith;
  begin_in = omega arith;
  end_in = omega arith;
}

decode_packets-Splits_example :
    (packs : List Packet) × (r' : BytesRingbuffer) × (decode_packets turned_stream 2
      ≡ some ((if ltb 0 (length (contents r')) then e_tlp_try_again else ok), packs, r'))
    × Splits (2 * piece_of turned_stream) turned_stream packs r'
decode_packets-Splits_example =
    decode_packets-Splits turned_stream 2 turned_stream-IsValid (omega arith)
      (unfold contents in omega arith)
