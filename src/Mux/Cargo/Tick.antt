-- ===== src/Mux/Cargo/Tick.antt =====
-- Ticks, closing and the socket's events of `class mux_cargo`, include/wawo/net/peer/mux_cargo.hpp.
use wawo.Prelude.{
  ℕ, zero, suc, Bool, false, true, Option, none, some, List, [], ◌∷◌, ◌++◌, not, if◌then◌else◌,
  ◌>>=◌, ◌>>◌, assert,
}
use wawo.Mux.{
  MuxCode, MuxStream, StreamWriteFlag, Socket, is_recycle, is_send_block, send_packet, t_closed,
  t_write_block, t_write_unblock,
}
use wawo.Mux.Stream
use wawo.Mux.Stream.{force_close}
use wawo.Mux.Flush.{update}
use wawo.Mux.Cargo.{
  MuxCargo, StreamMap, PeerEvent, e_message, pe_close, pe_rd_shutdown, pe_wr_shutdown, pe_wr_block,
  pe_wr_unblock, pe_error, socket_closed,
}
use wawo.Mux.Cargo.Arrive.{packet_arrive}

abbrev pub is_disconnected : Option Socket → Bool
is_disconnected none = true
is_disconnected (some so) = not so.connected

-- The events of a stream that stays.
abbrev pub write_events : StreamWriteFlag → MuxStream → List PeerEvent
write_events wflag s =
    (if wflag.write_blocked then e_message t_write_block s.id s.ctx ∷ [] else [])
    ++ (if wflag.write_unblocked then e_message t_write_unblock s.id s.ctx ∷ [] else [])

-- The events of `socket_event` that `on_event` tells apart.
pub data SocketEvent : Type 0 where
  e_packet_arrive : List ℕ → SocketEvent
  e_close e_rd_shutdown e_wr_shutdown e_wr_block e_wr_unblock e_error e_unknown : SocketEvent

-- The call of `close` on every stream.
unfoldable pub close_streams : StreamMap → Option StreamMap
close_streams [] = some []
close_streams ((id, s) ∷ ss) =
    Stream.close s >>= λ (ec, s'). close_streams ss >>= λ ss'. some ((id, s') ∷ ss')

abbrev pub is_null : Option Socket → Bool
is_null none = true
is_null (some so) = false

abbrev trigger : PeerEvent → MuxCargo → MuxCargo
trigger evt c = record c { events = c.events ++ evt ∷ [] }

-- The end of the loop, or its next rounds.
unfoldable pub if_streams :
    StreamMap → MuxCargo → Option (Bool × MuxCargo) → Option (Bool × MuxCargo)
if_streams [] c more = some (true, c)
if_streams (s ∷ ss) c more = more

module _ (net : ℕ → MuxCode) (snd_size : ℕ) where
  -- The packets that wait: whether all were handled, those left, and the socket.
  unfoldable pub flush_outps :
      List (List ℕ) → Option Socket → Option (Bool × List (List ℕ) × Option Socket)
  unfolding send_packet
  flush_outps [] so = some (true, [], so)
  flush_outps (outp ∷ outps) none = none
  flush_outps (outp ∷ outps) (some so) =
      let (sndrt, so') = send_packet net outp so in
      let next = flush_outps outps (some so') in
      if is_send_block sndrt then some (false, outp ∷ outps, some so') else next

  -- The loop over the streams: those that stay, the socket, and the events.
  unfoldable pub tick_streams :
      Bool → StreamMap → Option Socket → Option (StreamMap × Option Socket × List PeerEvent)
  tick_streams disconnected [] so = some ([], so, [])
  tick_streams disconnected ((id, s) ∷ ss) so =
      update net snd_size (if disconnected then force_close s else s) so >>= λ (wflag, s', so').
      tick_streams disconnected ss so' >>= λ (ss', so'', evts). some (
        if is_recycle s'.state
        then (ss', so'', e_message t_closed s'.id s'.ctx ∷ evts)
        else ((id, s') ∷ ss', so'', write_events wflag s' ++ evts))

  unfoldable pub do_tick : MuxCargo → Option MuxCargo
  do_tick c = flush_outps c.m_outps c.m_so >>= λ (all, outps, so).
      (let ticked = tick_streams (is_disconnected so) c.m_stream_map so >>= λ (ss, so', evts).
      some
        (record c { m_outps = outps; m_so = so'; m_stream_map = ss; events = c.events ++ evts }) in
        if all then ticked else some (record c { m_outps = outps; m_so = so }))

  -- The loop that ticks until no stream is left, with fuel: whether it ended, and the peer.
  unfoldable pub drain : ℕ → MuxCargo → Option (Bool × MuxCargo)
  drain zero c = some (false, c)
  drain (suc fuel) c = let more = do_tick c >>= drain fuel in if_streams c.m_stream_map c more

  -- What `close` and the case E_CLOSE begin with.
  unfoldable pub begin_close : MuxCargo → Option MuxCargo
  begin_close c = close_streams c.m_stream_map >>= λ ss.
      some (record c { m_mux_state = socket_closed; m_stream_map = ss })

  abbrev closed_socket : Option Socket → Option Socket
  closed_socket none = none
  closed_socket (some so) = some (record so { connected = false })

  unfoldable pub close : ℕ → MuxCargo → Option (Bool × MuxCargo)
  close fuel c = begin_close c >>= λ c1. drain fuel c1 >>= λ (ended, c2).
      some (ended, (if ended then record c2 { m_so = closed_socket c2.m_so } else c2))

  -- The case E_CLOSE.
  unfoldable pub end_streams : ℕ → MuxCargo → Option (Bool × MuxCargo)
  end_streams fuel c = begin_close c >>= λ c1.
      drain fuel c1 >>= λ (ended, c2). some (ended, (if ended then trigger pe_close c2 else c2))

  -- `on_event`, for the events of `m_so`.
  unfoldable pub on_event : ℕ → SocketEvent → MuxCargo → Option (Bool × MuxCargo)
  on_event fuel (e_packet_arrive packet) c = packet_arrive net packet c >>= λ c'. some (true, c')
  on_event fuel e_close c = assert (not (is_null c.m_so)) >> end_streams fuel c
  on_event fuel e_rd_shutdown c = some (true, trigger pe_rd_shutdown c)
  on_event fuel e_wr_shutdown c = some (true, trigger pe_wr_shutdown c)
  on_event fuel e_wr_block c = some (true, trigger pe_wr_block c)
  on_event fuel e_wr_unblock c = some (true, trigger pe_wr_unblock c)
  on_event fuel e_error c = some (true, trigger pe_error c)
  on_event fuel e_unknown c = none
