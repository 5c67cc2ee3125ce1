-- ===== src/Wcp/Rtt/Bounds.antt =====
-- What `_handle_pack_acked` of include/wawo/net/wcp.hpp keeps and changes.
use wawo.Prelude.{ℕ, ◌+◌, ◌-◌, ◌≤◌, ◌<◌, ◌%◌, ◌≡◌, true, some, arith}
use wawo.Prelude.Words.{u32_mod}
use wawo.Wcp.Pack.{WcbPack}
use wawo.Wcp.Types.{Wcb, wcp_snd_cwnd_max, wcp_rto_min, wcp_rto_max, sub64}
use wawo.Wcp.Rtt.{
  grow_cwnd, check_cwnd, sample_rtt, clamp_rto, rtt_sample, ntotal_bytes, handle_pack_acked,
}

-- The state after a pack whose bytes are on the flight is acknowledged.
abbrev pub acked : WcbPack → ℕ → Wcb → Wcb
acked pack now w =
    let w' = rtt_sample pack now w in
    check_cwnd now (ntotal_bytes pack)
      (record w' { snd_nflight_bytes = w'.snd_nflight_bytes - ntotal_bytes pack })

nflight-rtt_sample :
    (pack : WcbPack) (now : ℕ) (w : Wcb)
    → (rtt_sample pack now w).snd_nflight_bytes ≡ w.snd_nflight_bytes
unfolding rtt_sample clamp_rto sample_rtt
nflight-rtt_sample pack now w = ground arith

nflight-check_cwnd :
    (now n : ℕ) (w : Wcb) → (check_cwnd now n w).snd_nflight_bytes ≡ w.snd_nflight_bytes
unfolding check_cwnd grow_cwnd
nflight-check_cwnd now n w = ground arith

pub cwnd-check_cwnd : (now n : ℕ) (w : Wcb) → (check_cwnd now n w).snd_info.cwnd ≤ wcp_snd_cwnd_max
unfolding check_cwnd
cwnd-check_cwnd now n w = ground arith

-- The limits of the retransmission timeout.
pub record RtoInRange (w : Wcb) : Type 0 where
  pub rto_low : wcp_rto_min ≤ w.rto
  pub rto_high : w.rto ≤ wcp_rto_max

clamp_rto-RtoInRange : (w : Wcb) → RtoInRange (clamp_rto w)
unfolding clamp_rto
clamp_rto-RtoInRange w = ground arith

rtt_sample-RtoInRange :
    (pack : WcbPack) (now : ℕ) (w : Wcb) → RtoInRange w → RtoInRange (rtt_sample pack now w)
unfolding rtt_sample
rtt_sample-RtoInRange pack now w v =
    ground (arith, clamp_rto-RtoInRange (sample_rtt (sub64 now pack.sent_ts % u32_mod) w))

rto-check_cwnd : (now n : ℕ) (w : Wcb) → (check_cwnd now n w).rto ≡ w.rto
unfolding check_cwnd grow_cwnd
rto-check_cwnd now n w = ground arith

-- A pack on the flight is acknowledged without an assertion: its bytes leave the flight, the window
-- stays within its maximum and the timeout within its limits.
pub handle_pack_acked_lem :
    (pack : WcbPack) (now : ℕ) (w : Wcb)
    → ntotal_bytes pack ≤ w.snd_nflight_bytes
    → RtoInRange w
    → (handle_pack_acked pack now w ≡ some (acked pack now w))
      × ((acked pack now w).snd_nflight_bytes + ntotal_bytes pack ≡ w.snd_nflight_bytes)
      × ((acked pack now w).snd_info.cwnd ≤ wcp_snd_cwnd_max)
      × RtoInRange (acked pack now w)
unfolding handle_pack_acked
handle_pack_acked_lem pack now w h v = (
  ground (arith, nflight-rtt_sample pack now w),
  omega
      (arith, nflight-rtt_sample pack now w, nflight-check_cwnd now (ntotal_bytes pack) (after w)),
  cwnd-check_cwnd now (ntotal_bytes pack) (after w),
  omega
      (arith, rtt_sample-RtoInRange pack now w v, rto-check_cwnd now (ntotal_bytes pack) (after w)),
)
  where
    after : Wcb → Wcb
    after u =
        let u' = rtt_sample pack now u in
        record u' { snd_nflight_bytes = u'.snd_nflight_bytes - ntotal_bytes pack }

-- Both estimates are 32-bit numbers.
abbrev pub Estimates : Wcb → Type 0
Estimates w = (w.srtt < u32_mod) × (w.rttvar < u32_mod)

-- What a later sample leaves as it was.
abbrev pub Frozen : Wcb → Wcb → Type 0
Frozen w u = (u.srtt ≡ w.srtt) × (u.rttvar ≡ w.rttvar) × (u.wcb_flag.first_rtt_done ≡ true)

rtt_sample-Frozen :
    (pack : WcbPack) (now : ℕ) (w : Wcb)
    → w.wcb_flag.first_rtt_done ≡ true
    → Estimates w
    → Frozen w (rtt_sample pack now w)
unfolding rtt_sample clamp_rto sample_rtt
rtt_sample-Frozen pack now w done e = ground arith

check_cwnd-Frozen : (now n : ℕ) (w u : Wcb) → Frozen w u → Frozen w (check_cwnd now n u)
unfolding check_cwnd grow_cwnd
check_cwnd-Frozen now n w u f = ground arith

-- After the first sample an acknowledgement changes neither `srtt` nor `rttvar`, whatever the
-- round-trip time: both weights are quotients of integers, and 0.
pub srtt-Frozen :
    (pack : WcbPack) (now : ℕ) (w : Wcb)
    → w.wcb_flag.first_rtt_done ≡ true
    → Estimates w
    → Frozen w (acked pack now w)
srtt-Frozen pack now w done e =
    check_cwnd-Frozen now (ntotal_bytes pack) w _ (rtt_sample-Frozen pack now w done e)
