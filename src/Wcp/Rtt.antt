-- ===== src/Wcp/Rtt.antt =====
-- Round-trip times and the congestion window: `_check_cwnd` and `_handle_pack_acked` of
-- include/wawo/net/wcp.hpp.
pub mod Bounds
use wawo.Prelude.{
  ℕ, ◌+◌, ◌-◌, ◌*◌, ◌/◌, ◌%◌, ◌^◌, Bool, true, false, Option, some, leb, ltb, if◌then◌else◌, ◌==◌,
  assert, ◌>>=◌, ◌>>◌,
}
use wawo.Prelude.Words.{add32, sub32, u32_mod}
use wawo.Wcp.Pack.{WcbPack, wcp_mtu, wcp_header_len}
use wawo.Wcp.Types.{
  Wcb, WcbSndInfo, WcbFlag, sub64, wawo_min, wawo_max, wawo_abs2, wcp_snd_cwnd_max, wcp_rto_min,
  wcp_rto_max, wcp_rto_clock_granularity, wcp_srtt_alpha, wcp_rttvar_beta,
}

-- The first part of `_check_cwnd`: the window grows.
unfoldable pub grow_cwnd : ℕ → ℕ → Wcb → Wcb
grow_cwnd now check_size w =
    let cwnd = add32 w.snd_info.cwnd check_size in
    let grown = record w { snd_info = record (w.snd_info) { cwnd = cwnd } } in
    let avoiding = record grown {
      wcb_flag = record (w.wcb_flag) {
        snd_cwnd_congest_avoidance = true;
        snd_cwnd_slow_start = false;
      };
    } in
    let stepped = record w {
      snd_info = record (w.snd_info) { cwnd = add32 w.snd_info.cwnd wcp_mtu };
      snd_timer_cwnd_congest_avoidance = now;
    } in
    if w.wcb_flag.snd_cwnd_slow_start
    then (if leb w.snd_info.ssthresh cwnd then avoiding else grown)
    else (if w.wcb_flag.snd_cwnd_congest_avoidance
        then (if leb w.srtt (sub64 now w.snd_timer_cwnd_congest_avoidance) then stepped else w)
        else w)

-- `now` is what the clock says in the call.
unfoldable pub check_cwnd : ℕ → ℕ → Wcb → Wcb
check_cwnd now check_size w =
    let w' = grow_cwnd now check_size w in
    record w' {
      snd_info = record (w'.snd_info) { cwnd = wawo_min w'.snd_info.cwnd wcp_snd_cwnd_max };
    }

-- The estimates after a sample `rtt`.
unfoldable pub sample_rtt : ℕ → Wcb → Wcb
sample_rtt rtt w =
    let first = record w {
      wcb_flag = record (w.wcb_flag) { first_rtt_done = true };
      srtt = rtt;
      rttvar = rtt / 2;
      rto = add32 rtt (wawo_max wcp_rto_clock_granularity (2 * (rtt / 2) % u32_mod));
    } in
    let rttvar =
      ((1 - wcp_rttvar_beta) * w.rttvar + wcp_rttvar_beta * wawo_abs2 w.srtt rtt) % u32_mod in
    let srtt = ((1 - wcp_srtt_alpha) * w.srtt + wcp_srtt_alpha * rtt) % u32_mod in
    let later = record w {
      rttvar = rttvar;
      srtt = srtt;
      rto = add32 srtt (wawo_max wcp_rto_clock_granularity (2 * rttvar % u32_mod));
    } in
    if w.wcb_flag.first_rtt_done then later else first

-- `rto` is kept within its limits.
unfoldable pub clamp_rto : Wcb → Wcb
clamp_rto w = record w {
  rto =
      if ltb wcp_rto_max w.rto
      then wcp_rto_max
      else (if ltb w.rto wcp_rto_min then wcp_rto_min else w.rto);
}

-- The part of `_handle_pack_acked` on the round-trip time: only a pack sent once is a sample.
unfoldable pub rtt_sample : WcbPack → ℕ → Wcb → Wcb
rtt_sample pack now w =
    if pack.sent_times == 1 then clamp_rto (sample_rtt (sub64 now pack.sent_ts % u32_mod) w) else w

-- `ntotal_bytes`, what a pack counts on the flight.
abbrev pub ntotal_bytes : WcbPack → ℕ
ntotal_bytes pack = pack.header.dlen + wcp_header_len

unfoldable pub handle_pack_acked : WcbPack → ℕ → Wcb → Option Wcb
handle_pack_acked pack now w =
    let w' = rtt_sample pack now w in
    assert (leb (ntotal_bytes pack) w'.snd_nflight_bytes)
    >> some (
        check_cwnd now (ntotal_bytes pack)
          (record w' { snd_nflight_bytes = w'.snd_nflight_bytes - ntotal_bytes pack }))
