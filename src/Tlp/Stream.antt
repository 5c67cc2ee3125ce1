-- ===== src/Tlp/Stream.antt =====
-- include/wawo/net/tlp/stream.hpp: a stream without framing, in packets of what has arrived, as it is
-- compiled with WAWO_STREAM_PACKET_ENABLE_SPLIT.
pub mod Pieces
mod Tests
use wawo.Prelude.{
  ℕ, zero, suc, ◌+◌, ◌*◌, Bool, Option, none, some, List, [], ◌∷◌, ◌++◌, ltb, leb, ◌==◌, ◌&&◌,
  if◌then◌else◌, ◌>>=◌, ◌>>◌, assert, length,
}
use wawo.Prelude.Memory.{blit}
use wawo.Packet.{Packet, forward_write_index, pack_init_left_capacity}
use wawo.Packet
use wawo.RingBuffer.{BytesRingbuffer, count}
use wawo.RingBuffer
use wawo.Tlp.HlenPacket.{ErrorCode, ok, e_tlp_try_again}

abbrev pub wawo_stream_piece_max : ℕ
wawo_stream_piece_max = 1024 * 128

-- `encode`: a copy of the packet.
abbrev pub encode : Packet → ErrorCode × Packet
encode p = (ok, p)

-- A packet with room for `ps` bytes, and the bytes that are read to it.
unfoldable pub read_piece : ℕ → BytesRingbuffer → Option (Packet × BytesRingbuffer)
read_piece ps r = Packet.init ps pack_init_left_capacity >>= λ pack.
    RingBuffer.read ps Bool.true r >>= λ (brc, bytes, r').
    assert (leb brc ps)
    >> (forward_write_index brc
          (record pack { m_buffer = blit pack.m_buffer pack.m_read_idx bytes })
        >>= λ pack'. some (pack', r'))

-- The loop, of at most `room` more rounds: there are `size - idx` of them. `ps` is of the bytes that
-- were there at first, in every round.
unfoldable pub read_pieces : ℕ → ℕ → BytesRingbuffer → Option (List Packet × BytesRingbuffer)
read_pieces zero ps r = none
read_pieces (suc room) ps r = read_piece ps r >>= λ (pack, r').
    let rest = read_pieces room ps r' >>= λ (packs, r2). some (pack ∷ packs, r2) in
    if ltb 0 (count r') && ltb 0 room then rest else some (pack ∷ [], r')

-- `decode_packets`: the code, the packets of `arrives` and the ring. `none` is a failed assertion,
-- as `idx<size` when there is no room at all.
pub decode_packets : BytesRingbuffer → ℕ → Option (ErrorCode × List Packet × BytesRingbuffer)
decode_packets r size =
    let cbc = count r in
    let ps = if ltb wawo_stream_piece_max cbc then wawo_stream_piece_max else cbc in
    if cbc == 0
    then some (ok, List.[], r)
    else (read_pieces size ps r >>= λ (packs, r').
        some ((if ltb 0 (count r') then e_tlp_try_again else ok), packs, r'))
