-- ===== src/Mux/Cargo/Stuck.antt =====
-- Closing a peer, include/wawo/net/peer/mux_cargo.hpp, whose streams wait for their windows.
use wawo.Prelude.{
  ℕ, zero, suc, ◌≡◌, refl, ap, ◌∙◌, true, false, some, List, [], ◌∷◌, ltb, ◌==◌, not, ◌&&◌, arith,
  append-nil,
}
use wawo.Bytes.{write_u32}
use wawo.RingBuffer.{count}
use wawo.Mux.{MuxCode, ok, MuxStream, Socket, ss_established, is_recycle, t_uwnd, t_syn}
use wawo.Mux.Flush.{
  no_flag, tell, determine_if, determine_buffer, buffer_size, flush_uwnd, flush_syn, flush_data,
  flush_bytes, flush_open, flush, unblock, after_flush, update_in, update, may_send,
}
use wawo.Mux.Flush.Whole.{otherwise}
use wawo.Mux.Cargo.{MuxCargo, StreamMap, PeerEvent, socket_closed}
use wawo.Mux.Cargo.Arrive.{packet_arrive}
use wawo.Mux.Cargo.Tick.{flush_outps, tick_streams, do_tick, drain, if_streams}

-- A stream with bytes to send and no window left, which has told all that it has to tell.
pub record IsStuck (s : MuxStream) : Type 0 where
  pub up : s.state ≡ ss_established
  pub told : (ltb 0 s.rb_incre) ≡ false
  pub open_to_write : s.flag.write_shutdown ≡ false
  pub waits : (count s.wb == 0) ≡ false
  pub determined : s.flag.buffer_determined ≡ true
  pub syn_sent : s.flag.plan_syn ≡ false
  pub no_window : s.wb_wnd ≡ 0

abbrev pub AllStuck : StreamMap → Type 0
AllStuck [] = Unit {0}
AllStuck ((id, s) ∷ ss) = IsStuck s × AllStuck ss

-- A peer that `close` was called for, with no reset that waits.
abbrev pub closing : StreamMap → Socket → List PeerEvent → MuxCargo
closing ss so evts = record {
  m_stream_map = ss;
  m_mux_state = socket_closed;
  m_outps = [];
  m_so = some so;
  events = evts;
}

module _ (net : ℕ → MuxCode) (snd_size : ℕ) where
  module _ (s : MuxStream) (so : Socket) (k : IsStuck s) where
    uwnd_still : flush_uwnd net s so ≡ (ok, s, so)
    unfolding flush_uwnd tell
    uwnd_still =
        ap (λ b. tell net b t_uwnd (write_u32 s.rb_incre) s (record s { rb_incre = 0 }) so) k.told

    syn_still : flush_syn net s so ≡ (ok, s, so)
    unfolding flush_syn tell
    syn_still =
        ap
          (λ b. tell net b t_syn [] s (record s { flag = record (s.flag) { plan_syn = false } }) so)
          k.syn_sent

    buffer_still : determine_buffer snd_size s ≡ some s
    unfolding determine_buffer determine_if
    buffer_still = ap (λ b. determine_if (not b) (buffer_size snd_size s) s) k.determined

    data_still : flush_data net 2 0 s so ≡ some (0, (ok, s, so))
    unfolding flush_data
    data_still = let e : may_send 0 s ≡ false = ground (arith, k.no_window) in rw e refl

    bytes_still : flush_bytes net snd_size s so ≡ some (no_flag, (ok, s, so))
    unfolding flush_bytes unblock
    bytes_still = rw (buffer_still, syn_still, data_still) refl

    open_still : flush_open net snd_size s so ≡ some (no_flag, (ok, s, so))
    unfolding flush_open
    open_still =
        let shut : (s.rb_incre == 0 && (s.flag.write_shutdown && s.flag.read_shutdown)) ≡ false =
          ground (arith, k.open_to_write) in
        otherwise _ _ _ _ shut k.open_to_write k.waits ∙ bytes_still

    update_still : update net snd_size s (some so) ≡ some (no_flag, s, some so)
    unfolding update flush after_flush
    update_still =
        ap (λ st. update_in net st snd_size s (some so)) k.up ∙ rw (uwnd_still, open_still) refl

  tick_still :
      (ss : StreamMap) (so : Socket)
      → AllStuck ss
      → tick_streams net snd_size false ss (some so) ≡ some (ss, some so, [])
  unfolding tick_streams
  tick_still [] so k = refl
  tick_still ((id, s) ∷ ss) so (k, ks) =
      rw (update_still s so k, tick_still ss so ks, ap is_recycle (k.up)) refl

  do_tick_still :
      (ss : StreamMap) (so : Socket) (evts : List PeerEvent)
      → AllStuck ss
      → so.connected ≡ true
      → do_tick net snd_size (closing ss so evts) ≡ some (closing ss so evts)
  unfolding do_tick flush_outps
  do_tick_still ss so evts k c = rw (ap not c, tick_still ss so k, append-nil evts) refl

  rounds :
      (id : ℕ) (s : MuxStream) (ss : StreamMap) (so : Socket) (evts : List PeerEvent)
      → AllStuck ((id, s) ∷ ss)
      → so.connected ≡ true
      → (n : ℕ)
      → drain net snd_size n (closing ((id, s) ∷ ss) so evts)
        ≡ some (false, closing ((id, s) ∷ ss) so evts)
  unfolding drain if_streams
  rounds id s ss so evts k c zero = refl
  rounds id s ss so evts k c (suc n) =
      rw (do_tick_still ((id, s) ∷ ss) so evts k c) (rounds id s ss so evts k c n)

  -- Once `close` was called, with no reset that waits, a connected socket and only streams that have
  -- bytes to send, no window left and all else told, one at least: however many rounds the loop makes,
  -- whatever the socket answers, it does not end, and nothing changes; and a packet that arrives, the
  -- T_UWND that would give a window among them, is dropped.
  pub close_never_ends :
      (id : ℕ) (s : MuxStream) (ss : StreamMap) (so : Socket) (evts : List PeerEvent) (fuel : ℕ)
      (packet : List ℕ)
      → AllStuck ((id, s) ∷ ss)
      → so.connected ≡ true
      → (drain net snd_size fuel (closing ((id, s) ∷ ss) so evts)
          ≡ some (false, closing ((id, s) ∷ ss) so evts))
        × (packet_arrive net packet (closing ((id, s) ∷ ss) so evts)
            ≡ some (closing ((id, s) ∷ ss) so evts))
  unfolding packet_arrive
  close_never_ends id s ss so evts fuel packet k c = (rounds id s ss so evts k c fuel, refl)
