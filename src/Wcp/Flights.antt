-- ===== src/Wcp/Flights.antt =====
-- `WCB::check_flights` of src/net/wcp.cpp: packs that are acknowledged leave the flight, those that
-- are late are sent again, and lost packs shrink the window.
use wawo.Prelude.{
  ℕ, ◌+◌, ◌*◌, ◌/◌, ◌%◌, ◌^◌, Bool, true, false, Option, some, List, [], ◌∷◌, leb, ltb,
  if◌then◌else◌, ◌==◌, not, ◌&&◌, ◌||◌, assert, ◌>>=◌, ◌>>◌,
}
use wawo.Prelude.Words.{add32, sub32, u32_mod}
use wawo.Wcp.Pack.{WcbPack, wcp_mtu}
use wawo.Wcp.Types.{
  Wcb, Errno, is_ok, is_send_block, WcbState, established, sub64, wawo_min, wawo_max,
  wcp_rto_clock_granularity, wcp_rto_min, wcp_rto_max, wcp_lost_threshold, wcp_snd_ssthresh_min,
  wcp_lw,
}
use wawo.Wcp.Rtt.{handle_pack_acked}
use wawo.Wcp.Net.{send_pack, stamped}

-- The variables of the loop: the block, and the two counts of `check_flights`.
pub record Scan : Type 0 where
  pub wcb : Wcb
  pub lost_count : ℕ
  pub max_sent_time : ℕ

-- Why a pack is sent again: 0 for not at all, 1 skipped, 2 fast recovery, 3 timeout.
unfoldable pub retransmit_reason : ℕ → WcbPack → Wcb → ℕ
retransmit_reason now p w =
    let timediff = sub64 now p.sent_ts % u32_mod in
    let skip = sub32 w.snd_biggest_ack p.header.seq in
    let late = leb (add32 w.srtt (w.rttvar / 4)) timediff in
    if (leb 1 skip && ltb skip (2 ^ 31)) && late
    then 1
    else (if w.wcb_flag.snd_fast_recovered && late
        then 2
        else (if leb w.rto timediff then 3 else 0))

-- What a timeout counts.
unfoldable pub note_lost : WcbPack → Scan → Scan
note_lost p s =
    let w = s.wcb in
    let w' =
      if not w.wcb_flag.snd_lost_detected && ltb w.snd_lost_biggest_seq p.header.seq
      then record w { snd_lost_biggest_seq = p.header.seq }
      else w in
    record {
      wcb = w';
      lost_count = s.lost_count + 1;
      max_sent_time = if ltb s.max_sent_time p.sent_times then p.sent_times else s.max_sent_time;
    }

abbrev pub send_failed : Errno → Wcb → Wcb
send_failed ec w =
    if is_send_block ec
    then w
    else record w { wcb_errno = ec; s_flag = record (w.s_flag) { send_error = true } }

module _ (net : ℕ → Errno) (now : ℕ) where
  -- The loop over the flight: the packs that stay on it, in order.
  unfoldable pub scan_flights : List WcbPack → Scan → Option (List WcbPack × Scan)
  scan_flights [] s = some ([], s)
  scan_flights (p ∷ ps) s =
      let w = s.wcb in
      let reason = retransmit_reason now p w in
      let s1 = if reason == 3 then note_lost p s else s in
      let acked = handle_pack_acked p now w >>= λ w'. scan_flights ps (record s { wcb = w' }) in
      let kept = scan_flights ps s1 >>= λ (rest, s'). some (p ∷ rest, s') in
      let resend = send_pack net p s1.wcb >>= λ (ec, w2).
      let p1 = stamped net p s1.wcb in
      let p2 = record p1 { sent_ts = now; sent_times = add32 p.sent_times 1 } in
      let rest = scan_flights ps (record s1 { wcb = w2 }) >>= λ (rest, s'). some (p2 ∷ rest, s') in
      if is_ok ec then rest else some (p1 ∷ ps, record s1 { wcb = send_failed ec w2 }) in
      if w.wcb_flag.snd_una_update && ltb p.header.seq w.snd_info.una
      then acked
      else (if reason == 0 then kept else resend)

-- The window after a loss, at most once in a round-trip time.
unfoldable pub shrink_cwnd : ℕ → Wcb → Option Wcb
shrink_cwnd now w =
    let half_flight_max = w.snd_nflight_bytes_max / 2 in
    let new_ssthresh = wawo_max half_flight_max wcp_snd_ssthresh_min in
    assert (leb w.snd_nflight_bytes w.snd_nflight_bytes_max)
    >> some (record w {
      snd_lost_detected_timer = now;
      snd_lost_bigger_than_lost_seq_time = 0;
      snd_lost_cwnd_for_fast_recovery_compensation = sub32 new_ssthresh (w.snd_nflight_bytes / 2);
      snd_info = record (w.snd_info) {
        ssthresh = wawo_min new_ssthresh w.snd_info.ssthresh;
        cwnd = wcp_lw * wcp_mtu;
      };
      snd_nflight_bytes_max = wawo_max half_flight_max w.snd_nflight_bytes;
      wcb_flag = record (w.wcb_flag) {
        snd_cwnd_slow_start = true;
        snd_lost_detected = true;
        snd_cwnd_congest_avoidance = false;
      };
    })

abbrev pub is_established : WcbState → Bool
is_established established = true
is_established _ = false

unfoldable pub after_scan : ℕ → Scan → Option Wcb
after_scan now s =
    let w = record (s.wcb) {
      wcb_flag = record (s.wcb.wcb_flag) {
        snd_biggest_sack_update = false;
        snd_una_update = false;
        snd_fast_recovered = false;
      };
    } in
    let backed_off = record w { rto = wawo_min (add32 (w.rto / 2) w.rto) wcp_rto_max } in
    let lost =
      assert (leb wcp_rto_min w.rto)
      >> (if is_established w.state
            && leb (wawo_max w.srtt 30) (sub64 now w.snd_lost_detected_timer)
          then shrink_cwnd now backed_off
          else some backed_off) in
    if leb wcp_lost_threshold s.lost_count || leb 5 s.max_sent_time then lost else some w

unfoldable pub check_flights : (ℕ → Errno) → ℕ → Wcb → Option Wcb
check_flights net now w =
    let f = w.wcb_flag in
    let start = record w { snd_last_rto_timer = now } in
    let scanned =
      scan_flights net now w.snd_flights (record { wcb = start; lost_count = 0; max_sent_time = 0 })
      >>= λ (flights, s).
          after_scan now (record s { wcb = record (s.wcb) { snd_flights = flights } }) in
    if not (f.snd_una_update || f.snd_fast_recovered || f.snd_biggest_sack_update)
      && ltb now ((w.snd_last_rto_timer + wcp_rto_clock_granularity) % 2 ^ 64)
    then some w
    else scanned
