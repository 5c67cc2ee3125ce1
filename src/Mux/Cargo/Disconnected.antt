-- ===== src/Mux/Cargo/Disconnected.antt =====
-- The streams of a socket that is gone: ticks and E_CLOSE of include/wawo/net/peer/mux_cargo.hpp.
use wawo.Prelude.{
  ℕ, suc, ◌≡◌, refl, sym, ap, ◌∙◌, true, false, Option, some, List, [], ◌∷◌, ◌++◌, not, ◌>>=◌, ◌>>◌,
  assert, append-nil,
}
use wawo.Mux.{MuxCode, Socket, t_closed}
use wawo.Mux.Stream.{force_close}
use wawo.Mux.Stream.Sound.{IsSound, close_lem}
use wawo.Mux.Flush.{update}
use wawo.Mux.Cargo.{MuxCargo, StreamMap, PeerEvent, e_message, pe_close, socket_closed}
use wawo.Mux.Cargo.Tick.{
  is_disconnected, is_null, end_streams, if_streams, flush_outps, tick_streams, do_tick, drain,
  begin_close, close_streams, on_event, e_close,
}

-- The events that tell of the end of the streams of a map.
unfoldable pub closed_events : StreamMap → List PeerEvent
closed_events [] = []
closed_events ((id, s) ∷ ss) = e_message t_closed s.id s.ctx ∷ closed_events ss

-- The peer that is left when all streams have ended.
abbrev pub emptied : Option Socket → MuxCargo → MuxCargo
emptied so c = record c {
  m_outps = [];
  m_so = so;
  m_stream_map = [];
  events = c.events ++ closed_events c.m_stream_map;
}

-- Every stream of a map is in order.
abbrev pub AllSound : StreamMap → Type 0
AllSound [] = Unit {0}
AllSound ((id, s) ∷ ss) = IsSound s × AllSound ss

-- All streams can be closed, and keep what the events tell of them.
close_streams_lem :
    (ss : StreamMap)
    → AllSound ss
    → (ss' : StreamMap) × (close_streams ss ≡ some ss') × (closed_events ss' ≡ closed_events ss)
unfolding close_streams closed_events
close_streams_lem [] i = ([], refl, refl)
close_streams_lem ((id, s) ∷ ss) (i, is) =
    let (s', c) = close_lem s i in
    let (ss', done, same) = close_streams_lem ss is in
    ((id, s') ∷ ss', rw (c.returns, done) refl, rw (c.id_kept, c.ctx_kept, same) refl)

module _ (net : ℕ → MuxCode) (snd_size : ℕ) where
  tick_streams_lem :
      (ss : StreamMap) (so : Option Socket)
      → tick_streams net snd_size true ss so ≡ some ([], so, closed_events ss)
  unfolding tick_streams closed_events update force_close
  tick_streams_lem [] so = refl
  tick_streams_lem ((id, s) ∷ ss) so = rw (tick_streams_lem ss so) refl

  module _ (c : MuxCargo) (so : Option Socket)
      (none_waits : flush_outps net snd_size c.m_outps c.m_so ≡ some (true, [], so))
      (gone : is_disconnected so ≡ true) where
    -- One tick ends every stream of a socket that is gone, in whatever state it is, and schedules a
    -- T_CLOSED for each, in the order of the ids.
    pub do_tick_gone : do_tick net snd_size c ≡ some (emptied so c)
    unfolding do_tick
    do_tick_gone = rw (none_waits, gone, tick_streams_lem c.m_stream_map so) refl

  -- The rounds of the loop that waits for the streams to end: one tick is enough.
  drain_gone :
      (n : ℕ) (c : MuxCargo) (so : Option Socket)
      → flush_outps net snd_size c.m_outps c.m_so ≡ some (true, [], so)
      → is_disconnected so ≡ true
      → (c' : MuxCargo) × (drain net snd_size (suc (suc n)) c ≡ some (true, c'))
        × (c'.m_stream_map ≡ [])
        × (c'.m_mux_state ≡ c.m_mux_state)
        × (c'.events ≡ c.events ++ closed_events c.m_stream_map)
  unfolding drain if_streams
  drain_gone n c so w g = by_map c.m_stream_map refl
    where
      by_streams :
          {ss : StreamMap}
          → c.m_stream_map ≡ ss
          → drain net snd_size (suc (suc n)) c
            ≡ if_streams ss c (do_tick net snd_size c >>= drain net snd_size (suc n))
      by_streams e =
          unfold drain in
          ap (λ ts. if_streams ts c (do_tick net snd_size c >>= drain net snd_size (suc n))) e

      no_events : c.events ++ closed_events [] ≡ c.events
      no_events = unfold closed_events in append-nil c.events

      by_map :
          (ss : StreamMap)
          → c.m_stream_map ≡ ss
          → (c' : MuxCargo) × (drain net snd_size (suc (suc n)) c ≡ some (true, c'))
            × (c'.m_stream_map ≡ [])
            × (c'.m_mux_state ≡ c.m_mux_state)
            × (c'.events ≡ c.events ++ closed_events c.m_stream_map)
      by_map [] e =
          (c, by_streams e, e, refl, sym (ap (λ ts. c.events ++ closed_events ts) e ∙ no_events))
      by_map (t ∷ ss) e = (
        emptied so c,
        by_streams e ∙ ap (λ o. o >>= drain net snd_size (suc n)) (do_tick_gone c so w g),
        refl,
        refl,
        refl,
      )

  -- E_CLOSE of a socket that is not connected, with the flags of all streams in order, when the resets
  -- that wait are all handled: `on_event` returns after one tick at most, whatever the streams' rings
  -- and windows are. No stream is left, the peer is closed, and a T_CLOSED of each stream is scheduled,
  -- in the order of the map, before the E_CLOSE of the peer is triggered.
  pub on_event_close_lem :
      (n : ℕ) (c : MuxCargo) (s so : Socket)
      → AllSound c.m_stream_map
      → c.m_so ≡ some s
      → flush_outps net snd_size c.m_outps c.m_so ≡ some (true, [], some so)
      → so.connected ≡ false
      → (c' : MuxCargo) × (on_event net snd_size (suc (suc n)) e_close c ≡ some (true, c'))
        × (c'.m_stream_map ≡ [])
        × (c'.m_mux_state ≡ socket_closed)
        × (c'.events ≡ (c.events ++ closed_events c.m_stream_map) ++ pe_close ∷ [])
  unfolding on_event
  on_event_close_lem n c s so i e w g =
      let (ss, closed, same) = close_streams_lem c.m_stream_map i in
      let c1 = record c { m_mux_state = socket_closed; m_stream_map = ss } in
      let (c', drained, none_left, state, evts) = drain_gone n c1 (some so) w (rw g refl) in
      (
        record c' { events = c'.events ++ pe_close ∷ [] },
        ap (λ o. assert (not (is_null o)) >> end_streams net snd_size (suc (suc n)) c) e
            ∙ ends closed drained,
        none_left,
        state,
        ap (λ es. es ++ pe_close ∷ []) (evts ∙ ap (◌++◌ c.events) same),
      )
    where
      ends :
          {ss : StreamMap} {c' : MuxCargo}
          → close_streams c.m_stream_map ≡ some ss
          → drain net snd_size
              (suc (suc n))
              (record c { m_mux_state = socket_closed; m_stream_map = ss })
            ≡ some (true, c')
          → end_streams net snd_size (suc (suc n)) c
            ≡ some (true, record c' { events = c'.events ++ pe_close ∷ [] })
      ends p q = unfold end_streams begin_close in rw (p, q) refl
