-- ===== src/Wcp/Send/Fin.antt =====
-- A pack with the flag FIN in `WCB::check_send` of src/net/wcp.cpp.
use wawo.Prelude.{
  ℕ, suc, ◌+◌, ◌*◌, ◌≤◌, ◌<◌, ◌^◌, ◌≡◌, ◌≢◌, refl, ap, ◌∙◌, true, false, none, some, List, [], ◌∷◌,
  ◌++◌, arith, length,
}
use wawo.Wcp.Flag
use wawo.Wcp.Flag.{test_flag}
use wawo.Wcp.Pack.{WcbPack, Address, pack_to_udpmessage}
use wawo.Wcp.Types
use wawo.Wcp.Types.{Wcb, WriteFlag, Errno, is_ok, WcbState, established, wawo_min}
use wawo.Wcp.Rtt.{ntotal_bytes}
use wawo.Wcp.Net.{stamped}
use wawo.Wcp.Send.{proceed, congested, take_off, fin_sent, send_loop, refill, send_rounds}
use wawo.Wcp.Send.Flight.Returns.{send_pack_lem}

-- A FIN is due: it is the next in sequence, has a peer, and the windows leave room for two.
pub record FinIsDue (net : ℕ → Errno) (p : WcbPack) (to : Address) (w : Wcb) : Type 0 where
  pub has_fin : test_flag p.header.flag Flag.fin ≡ true
  pub no_sack : test_flag p.header.flag Flag.sack ≡ false
  pub no_probe : test_flag p.header.flag Flag.keep_alive ≡ false
  pub no_reply : test_flag p.header.flag Flag.keep_alive_reply ≡ false
  pub no_data : length p.data_bytes ≡ 0
  pub no_length : p.header.dlen ≡ 0
  pub is_next : p.header.seq ≡ w.snd_info.next
  pub in_order : w.snd_info.una ≤ w.snd_info.next
  pub word : w.snd_info.next < 2 ^ 32
  pub small : w.snd_nflight_bytes + 2 * ntotal_bytes p < 2 ^ 32
  pub room_cwnd : w.snd_nflight_bytes + 2 * ntotal_bytes p < w.snd_info.cwnd
  pub room_rwnd : w.snd_nflight_bytes + 2 * ntotal_bytes p < w.snd_info.rwnd
  pub opened : w.state ≡ established
  pub peer : w.remote_addr ≡ some to
  pub taken : is_ok (net (length w.outp)) ≡ true

module _ (net : ℕ → Errno) (now : ℕ) where
  -- A pack at the front whose number is not the next one is an assertion, once the windows allow it.
  stale_front :
      (p : WcbPack) (ps : List WcbPack) (w : Wcb)
      → congested p w ≡ false
      → p.header.seq ≢ w.snd_info.next
      → send_loop net now (p ∷ ps) w ≡ none
  unfolding send_loop
  stale_front p ps w free other = ground (arith, free, other)

  -- The pack after it was sent, and the state.
  abbrev left_behind : WcbPack → Wcb → WcbPack
  left_behind p w = record (stamped net p w) { sent_ts = now; sent_times = 1 }

  abbrev fin_out : WcbPack → List WcbPack → List ℕ → Address → Wcb → Wcb
  fin_out p ps message to w =
      record (take_off now (stamped net p w) (record w { outp = (message, to) ∷ w.outp })) {
        timer_state = now;
        state = Types.fin_wait_1;
        s_flag = record (w.s_flag) { local_fin_sent = true };
        snd_sending = left_behind p w ∷ ps;
      }

  sends_fin :
      (p : WcbPack) (ps : List WcbPack) (to : Address) (w : Wcb)
      → FinIsDue net p to w
      → (message : List ℕ) × (pack_to_udpmessage (left_behind p w) ≡ some message)
        × (send_loop net now (p ∷ ps) w ≡ some (proceed (fin_out p ps message to w)))
  unfolding send_loop fin_sent take_off congested
  sends_fin p ps to w d =
      let (message, coded, k) = send_pack_lem net p w to (omega (arith, d.no_data)) d.peer in
      (message, unfold pack_to_udpmessage in coded, ground (arith, k, d))

  refill_lem :
      (p : WcbPack) (ps : List WcbPack) (w : Wcb)
      → w.snd_sending ≡ p ∷ ps
      → w.s_flag.local_fin_sent ≡ true
      → refill w
        ≡ some (record w { snd_sending = p ∷ ps ++ w.s_sending_standby; s_sending_standby = [] })
  unfolding refill
  refill_lem p ps w e f = ground (arith, e, f)

  -- The queue and the flight after the FIN went out, and the round that follows.
  pub record FinStays (p : WcbPack) (ps : List WcbPack) (to : Address) (w : Wcb) : Type 0 where
    pub sent : Wcb
    pub refilled : Wcb
    pub sends : send_loop net now w.snd_sending w ≡ some (proceed sent)
    pub message : List ℕ
    pub encoded : pack_to_udpmessage (left_behind p w) ≡ some message
    pub handed : sent.outp ≡ (message, to) ∷ w.outp
    pub on_flight : sent.snd_flights ≡ w.snd_flights ++ left_behind p w ∷ []
    pub closing : (sent.state ≡ Types.fin_wait_1) × (sent.s_flag.local_fin_sent ≡ true)
    pub queued : sent.snd_sending ≡ left_behind p w ∷ ps
    pub refills : refill sent ≡ some refilled
    pub in_front : refilled.snd_sending ≡ left_behind p w ∷ ps ++ w.s_sending_standby
    pub room : congested (left_behind p w) refilled ≡ false
    pub stale : (left_behind p w).header.seq ≢ refilled.snd_info.next
    pub asserts : send_loop net now refilled.snd_sending refilled ≡ none

  -- In an established connection a FIN that is due, with room for two in the windows, goes out: its
  -- message is handed to `sendto`, it is put on the flight, and the state is WCB_FIN_WAIT_1. It stays at
  -- the front of `snd_sending`, also behind the refilling of the queue, where the windows let it pass
  -- again; there its number is not the next one, and the loop of the second round, and with it the
  -- function, ends in an assertion.
  pub fin_asserts :
      (fuel : ℕ) (p : WcbPack) (ps : List WcbPack) (to : Address) (w : Wcb)
      → w.snd_sending ≡ p ∷ ps
      → FinIsDue net p to w
      → FinStays p ps to w × (send_rounds net now (suc (suc fuel)) w ≡ none)
  unfolding send_rounds take_off
  fin_asserts fuel p ps to w e d =
      let (message, coded, k) = sends_fin p ps to w d in
      let x : Wcb = fin_out p ps message to w in
      let y : Wcb = record x {
        snd_sending = left_behind p w ∷ ps ++ w.s_sending_standby;
        s_sending_standby = [];
      } in
      let free : congested (left_behind p w) y ≡ false =
        unfold congested take_off stamped in grind (arith, d) in
      let other : (left_behind p w).header.seq ≢ y.snd_info.next =
        unfold take_off stamped in grind (arith, d) in
      let again : send_loop net now (left_behind p w ∷ ps ++ w.s_sending_standby) y ≡ none =
        stale_front _ _ _ free other in
      let stays : FinStays p ps to w = record {
        sent = x;
        refilled = y;
        sends = ap (λ l. send_loop net now l w) e ∙ k;
        message = message;
        encoded = coded;
        handed = refl;
        on_flight = refl;
        closing = (refl, refl);
        queued = refl;
        refills = refill_lem (left_behind p w) ps x refl refl;
        in_front = refl;
        room = free;
        stale = other;
        asserts = again;
      } in
      (stays, ground (arith, e, k, refill_lem (left_behind p w) ps x refl refl, again))
