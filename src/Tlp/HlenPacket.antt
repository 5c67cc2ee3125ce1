-- ===== src/Tlp/HlenPacket.antt =====
-- include/wawo/net/tlp/hlen_packet.hpp: every packet stands in the stream behind its length, as the
-- header is compiled, without WAWO_PACKET_ADD_PREFIX_SYMBOL.
pub mod Turns
pub mod Frames
pub mod Decode
mod Tests
use wawo.Prelude.{
  ℕ, zero, suc, ◌+◌, Bool, Option, none, some, List, [], ◌∷◌, ◌++◌, ltb, ◌==◌, if◌then◌else◌, ◌>>=◌,
  ◌>>◌, assert, length,
}
use wawo.Prelude.Memory.{blit}
use wawo.Packet.{
  Packet, len, checked_len, write_left_u32, forward_write_index, pack_init_left_capacity,
}
use wawo.Packet
use wawo.RingBuffer.{BytesRingbuffer, count, capacity, try_read_u32_t}
use wawo.RingBuffer

-- The results of include/wawo/constants.h that the framing returns.
pub data ErrorCode : Type 0 where
  ok e_socket_empty_packet e_tlp_invalid_packet e_tlp_socket_broken e_tlp_try_again : ErrorCode

pub data PacketParseState : Type 0 where
  s_read_len s_read_content : PacketParseState

pub record HlenPacket : Type 0 where
  pub m_parse_state : PacketParseState
  pub m_size : ℕ

-- The constructor, which leaves `m_size` as memory had it.
abbrev pub hlen_packet : ℕ → HlenPacket
hlen_packet garbage = record { m_parse_state = s_read_len; m_size = garbage }

-- `encode`: the result, and the packet that goes out. `in` is copied, so it stays as it is.
unfoldable pub encode : Packet → Option (ErrorCode × Option Packet)
encode p = checked_len p >>= λ n.
    if n == 0
    then some (e_socket_empty_packet, none)
    else (write_left_u32 n p >>= λ o. some (ok, some o))

-- What `decode_packets` works on: the framing's state, the ring and the packets of `arrives`.
pub record Session : Type 0 where
  pub hlen : HlenPacket
  pub buffer : BytesRingbuffer
  pub arrives : List Packet

-- After one round of the loop it goes on, or `bExit` is set and `ec_o` has its value.
pub data Turn : Type 0 where
  again : Session → Turn
  exit : ErrorCode → Session → Turn

-- The case S_READ_LEN, once the length is read.
unfoldable pub take_len : ℕ → Session → Option Turn
take_len n s =
    let s' = record s { hlen = record (s.hlen) { m_size = n } } in
    assert (ltb 0 n)
    >> some (
        if ltb (capacity s.buffer) n
        then exit e_tlp_socket_broken s'
        else again (record s { hlen = record { m_parse_state = s_read_content; m_size = n } }))

unfoldable pub read_len : Session → Option Turn
read_len s = try_read_u32_t s.buffer >>= λ (t, r). elim t [
  | none ↦ some (exit ok (record s { buffer = r }))
  | some n ↦ take_len n (record s { buffer = r })
]

-- The new packet of `n` bytes, read from the ring.
unfoldable pub read_packet : ℕ → BytesRingbuffer → Option (Packet × BytesRingbuffer)
read_packet n r = Packet.init n pack_init_left_capacity >>= λ pack.
    RingBuffer.read n Bool.true r >>= λ (nbytes, bytes, r').
    assert (nbytes == n)
    >> (forward_write_index n (record pack { m_buffer = blit pack.m_buffer pack.m_read_idx bytes })
        >>= λ pack'. some (pack', r'))

-- The end of the case S_READ_CONTENT.
unfoldable pub arrive : ℕ → Session → Option Turn
arrive size s = read_packet s.hlen.m_size s.buffer >>= λ (pack, r).
    assert (ltb (length s.arrives) size)
    >> some (
        again (record {
          hlen = record (s.hlen) { m_parse_state = s_read_len };
          buffer = r;
          arrives = s.arrives ++ (pack ∷ []);
        }))

unfoldable pub read_content : ℕ → Session → Option Turn
read_content size s =
    let rest = arrive size s in
    assert (ltb 0 s.hlen.m_size)
    >> (if s.hlen.m_size == 0
        then some (exit e_tlp_invalid_packet s)
        else (if ltb (count s.buffer) s.hlen.m_size
            then some (exit ok s)
            else (if length s.arrives == size then some (exit e_tlp_try_again s) else rest)))

unfoldable pub turn : ℕ → Session → Option Turn
turn size s = elim s.hlen.m_parse_state [
  | s_read_len ↦ read_len s
  | s_read_content ↦ read_content size s
]

-- A failed assertion, no round left, or the code and the state at the `return`.
pub data Outcome : Type 0 where
  raises : Outcome
  out_of_fuel : Outcome
  returns : ErrorCode → Session → Outcome

-- The loop.
unfoldable pub decode_loop : ℕ → ℕ → Session → Outcome
decode_loop zero size s = out_of_fuel
decode_loop (suc fuel) size s = elim (turn size s) [
  | none ↦ raises
  | some (exit ec s') ↦ returns ec s'
  | some (again s') ↦ decode_loop fuel size s'
]

-- Every round that goes on takes a byte or more out of the ring.
unfoldable pub decode_packets : HlenPacket → BytesRingbuffer → ℕ → Outcome
decode_packets h r size =
    decode_loop (suc (count r)) size (record { hlen = h; buffer = r; arrives = [] })
