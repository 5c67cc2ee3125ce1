-- ===== src/Wcp/Send/Flight.antt =====
-- `snd_nflight_bytes` and the packs on the flight, through `WCB::check_recv`, `check_flights` and
-- `check_send` of src/net/wcp.cpp.
pub mod Acked
pub mod Scanned
pub mod Sent
pub mod Log
pub mod Handed
pub mod Survives
pub mod Returns
pub mod ScanReturns
use wawo.Prelude.{ℕ, ◌+◌, ◌-◌, ◌≤◌, ◌<◌, ◌^◌, ◌≡◌, refl, List, [], ◌∷◌, ◌++◌, arith}
use wawo.Wcp.Pack.{WcbPack, WcpHeader}
use wawo.Wcp.Types.{Wcb, wcp_snd_cwnd_max}
use wawo.Wcp.Rtt.{ntotal_bytes}

unfoldable pub flight_bytes : List WcbPack → ℕ
flight_bytes [] = 0
flight_bytes (p ∷ ps) = ntotal_bytes p + flight_bytes ps

-- The number counts the flight, and it and the window stay within the window's maximum.
pub record FlightOk (w : Wcb) : Type 0 where
  pub balanced : w.snd_nflight_bytes ≡ flight_bytes w.snd_flights
  pub below : w.snd_nflight_bytes ≤ wcp_snd_cwnd_max
  pub window : w.snd_info.cwnd ≤ wcp_snd_cwnd_max

pub flight_bytes-snoc :
    (ps : List WcbPack) (p : WcbPack)
    → flight_bytes (ps ++ p ∷ []) ≡ flight_bytes ps + ntotal_bytes p
unfolding flight_bytes
flight_bytes-snoc [] p = omega arith
flight_bytes-snoc (q ∷ ps) p = omega (arith, flight_bytes-snoc ps p)
