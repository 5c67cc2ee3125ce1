-- ===== src/Mux/Cargo.antt =====
-- `class mux_cargo` of include/wawo/net/peer/mux_cargo.hpp: the peer that owns the streams of a
-- socket. `std::map` is a list in the order of its keys. `none` is an assertion or an exception.
pub mod Arrive
pub mod Disconnected
pub mod Stuck
pub mod Tick
use wawo.Prelude.{
  ℕ, Bool, false, true, Option, none, some, List, [], ◌∷◌, ◌++◌, ltb, ◌==◌, if◌then◌else◌, ◌>>=◌,
  ◌>>◌, assert,
}
use wawo.Mux.{
  MuxCode, ok, e_invalid_state, e_mux_stream_cargo_stream_exists,
  e_mux_stream_cargo_stream_not_found, is_send_block, MuxStream, Socket, t_rst, encode, send_packet,
}
use wawo.Mux.Stream
use wawo.Mux.Stream.{stream, open_stream}

-- `_mux_state`.
pub data MuxState : Type 0 where
  socket_attached socket_deattached socket_closed : MuxState

abbrev pub is_attached : MuxState → Bool
is_attached socket_attached = true
is_attached _ = false

-- The events that the peer triggers or schedules: messages of a stream, with the type, the stream's
-- id and the context, and the socket's events, which are handed on.
pub data PeerEvent : Type 0 where
  e_message : ℕ → ℕ → Option ℕ → PeerEvent
  pe_close pe_rd_shutdown pe_wr_shutdown pe_wr_block pe_wr_unblock pe_error : PeerEvent

abbrev pub StreamMap : Type 0
StreamMap = List (ℕ × MuxStream)

-- The members, with the events that were triggered or scheduled, the first one first.
pub record MuxCargo : Type 0 where
  pub m_stream_map : StreamMap
  pub m_mux_state : MuxState
  pub m_outps : List (List ℕ)
  pub m_so : Option Socket
  pub events : List PeerEvent

unfoldable pub find : ℕ → StreamMap → Option MuxStream
find id [] = none
find id ((k, s) ∷ ss) = if k == id then some s else find id ss

unfoldable pub insert : ℕ → MuxStream → StreamMap → StreamMap
insert id s [] = (id, s) ∷ []
insert id s ((k, t) ∷ ss) =
    if ltb id k
    then (id, s) ∷ ((k, t) ∷ ss)
    else (if k == id then (k, t) ∷ ss else (k, t) ∷ insert id s ss)

-- The stream that the map points to has changed.
unfoldable pub store : ℕ → MuxStream → StreamMap → StreamMap
store id s [] = []
store id s ((k, t) ∷ ss) = if k == id then (k, s) ∷ ss else (k, t) ∷ store id s ss

-- The constructor.
abbrev pub mux_cargo : MuxCargo
mux_cargo = record {
  m_stream_map = [];
  m_mux_state = socket_deattached;
  m_outps = [];
  m_so = none;
  events = [];
}

unfoldable pub attach_socket : Socket → MuxCargo → MuxCargo
attach_socket so c = record c { m_so = some so; m_mux_state = socket_attached }

unfoldable pub detach_socket : MuxCargo → MuxCargo
detach_socket c = record c { m_so = none; m_mux_state = socket_deattached }

-- `stream_open`: the answer, and the peer with the stream in its map.
unfoldable pub stream_open : ℕ → Option ℕ → MuxCargo → Option (MuxCode × MuxCargo)
stream_open id ctx c =
    let opened = open_stream id ctx stream >>= λ (ec_o, s).
    Stream.init s >>= λ s'. some (ec_o, record c { m_stream_map = insert id s' c.m_stream_map }) in
    if is_attached c.m_mux_state
    then elim (find id c.m_stream_map) [
      | some s ↦ some (e_mux_stream_cargo_stream_exists, c)
      | none ↦ opened
    ]
    else some (e_invalid_state, c)

unfoldable pub stream_close : ℕ → MuxCargo → Option (MuxCode × MuxCargo)
stream_close stream_id c = elim (find stream_id c.m_stream_map) [
  | none ↦ some (e_mux_stream_cargo_stream_not_found, c)
  | some s ↦ Stream.close s >>= λ (ec, s').
      some (ec, record c { m_stream_map = store stream_id s' c.m_stream_map })
]

module _ (net : ℕ → MuxCode) where
  -- A reset that the socket does not take waits for the next tick.
  reset_by : List ℕ → Option Socket → MuxCargo → Option MuxCargo
  unfolding send_packet
  reset_by outp none c = none
  reset_by outp (some so) c =
      let (sndrt, so') = send_packet net outp so in
      some (record c {
        m_so = some so';
        m_outps = if is_send_block sndrt then c.m_outps ++ outp ∷ [] else c.m_outps;
      })

  unfoldable pub stream_snd_rst : ℕ → MuxCargo → Option MuxCargo
  unfolding reset_by
  stream_snd_rst id c = assert (is_attached c.m_mux_state) >> reset_by (encode id t_rst []) c.m_so c
