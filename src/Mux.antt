-- ===== src/Mux.antt =====
-- include/wawo/net/peer/mux_cargo.hpp, message/mux_cargo.hpp and src/net/peer/message/mux_cargo.cpp:
-- many streams of bytes over one socket. This file has the types, the codec of the messages and the
-- socket; a packet is the list of its bytes. Socket and scheduler are outside: `net n` is what the
-- n-th call of `send_packet` answers, and `snd_size` is the size of the socket's send buffer.
pub mod Stream
pub mod Flush
pub mod Flow
pub mod Message
mod Tests
pub mod Cargo
use wawo.Prelude.{
  ℕ, ◌+◌, ◌*◌, suc, Bool, true, false, Option, none, some, List, [], ◌∷◌, ◌++◌, if◌then◌else◌, leb,
  length, take, drop, ◌>>◌, assert,
}
use wawo.Bytes.{read_u16, read_u32, write_u16, write_u32}
use wawo.RingBuffer.{BytesRingbuffer}

-- The codes of include/wawo/constants.h that this part returns, and the socket's.
pub data MuxCode : Type 0 where
  ok e_invalid_state e_socket_send_block e_mux_stream_write_block : MuxCode
  e_mux_stream_cargo_stream_exists e_mux_stream_cargo_stream_not_found : MuxCode
  e_mux_stream_cargo_stream_read_shutdowned_already : MuxCode
  e_mux_stream_cargo_stream_write_shutdowned_already : MuxCode
  e_mux_stream_cargo_stream_closed_already : MuxCode
  other : ℕ → MuxCode

abbrev pub is_ok : MuxCode → Bool
is_ok ok = true
is_ok _ = false

abbrev pub is_send_block : MuxCode → Bool
is_send_block e_socket_send_block = true
is_send_block _ = false

pub data StreamState : Type 0 where
  ss_closed ss_established ss_recycle : StreamState

abbrev pub is_closed : StreamState → Bool
is_closed ss_closed = true
is_closed _ = false

abbrev pub is_established : StreamState → Bool
is_established ss_established = true
is_established _ = false

abbrev pub is_recycle : StreamState → Bool
is_recycle ss_recycle = true
is_recycle _ = false

-- `stream_flag`, one Boolean to a bit.
pub record StreamFlag : Type 0 where
  pub read_shutdown_called : Bool
  pub read_shutdown : Bool
  pub write_shutdown_called : Bool
  pub write_shutdown : Bool
  pub plan_fin : Bool
  pub plan_syn : Bool
  pub buffer_determined : Bool

-- `stream_write_flag`.
pub record StreamWriteFlag : Type 0 where
  pub write_blocked : Bool
  pub write_unblocked : Bool

abbrev pub mux_stream_wnd_size : ℕ
mux_stream_wnd_size = 256 * 1024

-- `class stream`. A context is a pointer that may be null.
pub record MuxStream : Type 0 where
  pub ctx : Option ℕ
  pub state : StreamState
  pub flag : StreamFlag
  pub id : ℕ
  pub rb : BytesRingbuffer
  pub rb_incre : ℕ
  pub wb : BytesRingbuffer
  pub wb_wnd : ℕ
  pub write_flag : StreamWriteFlag

-- `mux_stream_message_type`.
abbrev pub t_syn : ℕ
t_syn = 1

abbrev pub t_data : ℕ
t_data = 2

abbrev pub t_uwnd : ℕ
t_uwnd = 4

abbrev pub t_rst : ℕ
t_rst = 8

abbrev pub t_fin : ℕ
t_fin = 16

abbrev pub t_accepted : ℕ
t_accepted = 32

abbrev pub t_closed : ℕ
t_closed = 64

abbrev pub t_write_block : ℕ
t_write_block = 128

abbrev pub t_write_unblock : ℕ
t_write_unblock = 256

abbrev pub t_mux_stream_message_type_max : ℕ
t_mux_stream_message_type_max = t_write_unblock + 1

-- `message::mux_cargo::encode`: the two fields are written to the left of the data, the type first.
unfoldable pub encode : ℕ → ℕ → List ℕ → List ℕ
encode id type data' = write_u32 id ++ (write_u16 type ++ data')

-- The two fields that `on_event` reads off a packet, and what is behind them.
unfoldable pub read_fields : List ℕ → Option (ℕ × ℕ × List ℕ)
read_fields inpack =
    assert (leb 6 (length inpack))
    >> some (read_u32 (take 4 inpack), read_u16 (take 2 (drop 4 inpack)), drop 2 (drop 4 inpack))

-- What the streams see of a socket: how often `send_packet` was called, the packets that it took, in
-- order, and whether it is connected.
pub record Socket : Type 0 where
  pub tries : ℕ
  pub sent : List (List ℕ)
  pub connected : Bool

module _ (net : ℕ → MuxCode) where
  unfoldable pub send_packet : List ℕ → Socket → MuxCode × Socket
  send_packet packet so = (
    net so.tries,
    record so {
      tries = suc so.tries;
      sent = if is_ok (net so.tries) then so.sent ++ packet ∷ [] else so.sent;
    },
  )
