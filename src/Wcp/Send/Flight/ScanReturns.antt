-- ===== src/Wcp/Send/Flight/ScanReturns.antt =====
-- When `WCB::check_flights` of src/net/wcp.cpp meets no assertion.
use wawo.Prelude.{
  ℕ, ◌+◌, ◌≤◌, ◌≡◌, refl, Option, none, some, List, [], ◌∷◌, arith, ltb, ◌==◌, if◌then◌else◌,
  Bool-cases, inl, inr, ◌>>=◌, ◌&&◌, length, ◌∙◌,
}
use wawo.Prelude.Words.{add32}
use wawo.Wcp.Pack.{WcbPack, Address, wcp_mdu}
use wawo.Wcp.Types.{Wcb, Errno, is_ok}
use wawo.Wcp.Rtt.{ntotal_bytes, rtt_sample, check_cwnd, grow_cwnd, sample_rtt, clamp_rto}
use wawo.Wcp.Rtt.Bounds.{acked, RtoInRange, handle_pack_acked_lem}
use wawo.Wcp.Net.{send_pack, stamped}
use wawo.Wcp.Flights.{
  Scan, retransmit_reason, note_lost, send_failed, scan_flights, shrink_cwnd, after_scan,
  check_flights,
}
use wawo.Wcp.Send.Flight.{flight_bytes, FlightOk}
use wawo.Wcp.Send.Flight.Survives.{check_flights_lem}
use wawo.Wcp.Send.Flight.Returns.{send_pack_lem}

-- Every pack on the flight fits a message.
abbrev pub AllFit : List WcbPack → Type 0
AllFit [] = Unit {0}
AllFit (p ∷ ps) = (length p.data_bytes ≤ wcp_mdu) × AllFit ps

-- What the scan of `ps` needs: their bytes are counted, a peak at least as high is on record, and
-- there is a peer.
record CanScan (to : Address) (ps : List WcbPack) (w : Wcb) : Type 0 where
  pub enough : flight_bytes ps ≤ w.snd_nflight_bytes
  pub peak : w.snd_nflight_bytes ≤ w.snd_nflight_bytes_max
  pub peer : w.remote_addr ≡ some to
  pub rto_ok : RtoInRange w

peak-acked :
    (p : WcbPack) (now : ℕ) (w : Wcb)
    → (acked p now w).snd_nflight_bytes_max ≡ w.snd_nflight_bytes_max
unfolding rtt_sample check_cwnd grow_cwnd sample_rtt clamp_rto
peak-acked p now w = ground arith

peer-acked : (p : WcbPack) (now : ℕ) (w : Wcb) → (acked p now w).remote_addr ≡ w.remote_addr
unfolding rtt_sample check_cwnd grow_cwnd sample_rtt clamp_rto
peer-acked p now w = ground arith

note_lost-CanScan :
    (to : Address) (p : WcbPack) (ps : List WcbPack) (s : Scan)
    → CanScan to ps s.wcb
    → CanScan to ps (note_lost p s).wcb
unfolding note_lost
note_lost-CanScan to p ps s c = ground arith

abbrev ScanReturned : Option (List WcbPack × Scan) → Type 0
ScanReturned none = ⊥
ScanReturned (some (rest, s)) =
    (s.wcb.snd_nflight_bytes ≤ s.wcb.snd_nflight_bytes_max) × RtoInRange s.wcb

ScanReturned-put :
    (p : WcbPack) (m : Option (List WcbPack × Scan))
    → ScanReturned m
    → ScanReturned (m >>= λ (rest, s'). some (p ∷ rest, s'))
ScanReturned-put p none a = a
ScanReturned-put p (some (rest, s)) a = a

rest-CanScan :
    (to : Address) (p : WcbPack) (ps : List WcbPack) (w : Wcb)
    → CanScan to (p ∷ ps) w
    → CanScan to ps w
unfolding flight_bytes
rest-CanScan to p ps w c = record {
  enough = omega (arith, c.enough);
  peak = c.peak;
  peer = c.peer;
  rto_ok = c.rto_ok;
}

failed-Returned :
    (to : Address) (ps l : List WcbPack) (ec : Errno) (w : Wcb) (s : Scan)
    → CanScan to ps w
    → ScanReturned (some (l, record s { wcb = send_failed ec w }))
failed-Returned to ps l ec w s c = ground arith

module _ (net : ℕ → Errno) (now : ℕ) (to : Address) where
  abbrev Onward : List WcbPack → Type 0
  Onward ps = (s : Scan) → CanScan to ps s.wcb → ScanReturned (scan_flights net now ps s)

  resend-Returned :
      (p : WcbPack) (ps : List WcbPack) (s1 : Scan)
      → length p.data_bytes ≤ wcp_mdu
      → CanScan to ps s1.wcb
      → Onward ps
      → ScanReturned (
          send_pack net p s1.wcb >>= λ (ec, w2).
          let p1 = stamped net p s1.wcb in
          let p2 = record p1 { sent_ts = now; sent_times = add32 p.sent_times 1 } in
          let rest = scan_flights net now ps (record s1 { wcb = w2 }) >>= λ (rest, s').
          some (p2 ∷ rest, s') in
          if is_ok ec then rest else some (p1 ∷ ps, record s1 { wcb = send_failed ec w2 }))
  resend-Returned p ps s1 fits c go =
      let (message, _, k) = send_pack_lem net p s1.wcb to fits c.peer in
      let c2 : CanScan to ps (record (s1.wcb) { outp = (message, to) ∷ s1.wcb.outp }) = record {
        enough = c.enough;
        peak = c.peak;
        peer = c.peer;
        rto_ok = record { rto_low = c.rto_ok.rto_low; rto_high = c.rto_ok.rto_high };
      } in
      elim (Bool-cases (is_ok (net (length s1.wcb.outp)))) [
        | inl out ↦
            rw (k, out)
              (ScanReturned-put _ _ (
                go (record s1 { wcb = record (s1.wcb) { outp = (message, to) ∷ s1.wcb.outp } }) c2))
        | inr fails ↦
            rw (k, fails)
              (failed-Returned to ps (stamped net p s1.wcb ∷ ps) (net (length s1.wcb.outp)) _ s1 c2)
      ]

  scan_flights-Returned :
      (ps : List WcbPack) (s : Scan)
      → AllFit ps
      → CanScan to ps s.wcb
      → ScanReturned (scan_flights net now ps s)
  unfolding scan_flights
  scan_flights-Returned [] s a c = (c.peak, c.rto_ok)
  scan_flights-Returned (p ∷ ps) s (fits, a) c =
      elim (Bool-cases (s.wcb.wcb_flag.snd_una_update && ltb p.header.seq s.wcb.snd_info.una)) [
        | inl gone ↦
            let (done, left, cwnd, r) = handle_pack_acked_lem p now s.wcb in_flight c.rto_ok in
            rw (gone, done) (scan_flights-Returned ps _ a (fewer left r))
        | inr here ↦ elim (Bool-cases (retransmit_reason now p s.wcb == 0)) [
          | inl kept ↦ elim (Bool-cases (retransmit_reason now p s.wcb == 3)) [
            | inl late ↦
                rw (here, kept, late)
                  (ScanReturned-put p _
                    (scan_flights-Returned ps _ a (note_lost-CanScan to p ps s c')))
            | inr in_time ↦
                rw (here, kept, in_time) (ScanReturned-put p _ (scan_flights-Returned ps s a c'))
          ]
          | inr again ↦ elim (Bool-cases (retransmit_reason now p s.wcb == 3)) [
            | inl late ↦
                rw (here, again, late)
                  (resend-Returned p ps (note_lost p s) fits (note_lost-CanScan to p ps s c')
                    (λ s'. scan_flights-Returned ps s' a))
            | inr in_time ↦
                rw (here, again, in_time)
                  (resend-Returned p ps s fits c' (λ s'. scan_flights-Returned ps s' a))
          ]
        ]
      ]
    where
      c' : CanScan to ps s.wcb
      c' = rest-CanScan to p ps s.wcb c

      in_flight : ntotal_bytes p ≤ s.wcb.snd_nflight_bytes
      in_flight = unfold flight_bytes in omega (arith, c.enough)

      fewer :
          (acked p now s.wcb).snd_nflight_bytes + ntotal_bytes p ≡ s.wcb.snd_nflight_bytes
          → RtoInRange (acked p now s.wcb)
          → CanScan to ps (acked p now s.wcb)
      fewer left r =
          unfold flight_bytes in
          record {
            enough = omega (arith, c.enough, left);
            peak = omega (arith, left, peak-acked p now s.wcb, c.peak);
            peer = peer-acked p now s.wcb ∙ c.peer;
            rto_ok = r;
          }

  -- What is left after the scan returns.
  abbrev BlockReturned : Option Wcb → Type 0
  BlockReturned none = ⊥
  BlockReturned (some u) = Unit {0}

  after_scan-Returned :
      (flights : List WcbPack) (s : Scan)
      → ScanReturned (some (flights, s))
      → BlockReturned (after_scan now (record s { wcb = record (s.wcb) { snd_flights = flights } }))
  unfolding after_scan shrink_cwnd
  after_scan-Returned flights s (peak, r) = ground (arith, peak, r)

  scanned-Returned :
      (m : Option (List WcbPack × Scan))
      → ScanReturned m
      → BlockReturned (
          m >>= λ (flights, s).
          after_scan now (record s { wcb = record (s.wcb) { snd_flights = flights } }))
  scanned-Returned none a = a
  scanned-Returned (some (flights, s)) a = after_scan-Returned flights s a

  check_flights-Returned :
      (w : Wcb)
      → CanScan to w.snd_flights w
      → AllFit w.snd_flights
      → BlockReturned (check_flights net now w)
  unfolding check_flights
  check_flights-Returned w c a = ground (
    arith,
    scanned-Returned _ (
        scan_flights-Returned w.snd_flights
          (record {
            wcb = record w { snd_last_rto_timer = now };
            lost_count = 0;
            max_sent_time = 0;
          })
          a
          (record {
            enough = c.enough;
            peak = c.peak;
            peer = c.peer;
            rto_ok = record { rto_low = c.rto_ok.rto_low; rto_high = c.rto_ok.rto_high };
          })),
  )

  block_result : (m : Option Wcb) → BlockReturned m → (u : Wcb) × (m ≡ some u)
  block_result none a = absurd a
  block_result (some u) a = (u, refl)

  -- In a connection with a peer whose flight is counted, within the recorded peak, and of packs that
  -- fit a message, `check_flights` returns, whatever `sendto` answers; the flight stays counted
  -- exactly, the window within its maximum and the timeout within its limits.
  pub check_flights_returns :
      (w : Wcb)
      → FlightOk w
      → RtoInRange w
      → w.remote_addr ≡ some to
      → w.snd_nflight_bytes ≤ w.snd_nflight_bytes_max
      → AllFit w.snd_flights
      → (u : Wcb) × (check_flights net now w ≡ some u) × FlightOk u × RtoInRange u
  check_flights_returns w f r peer peak a =
      let c : CanScan to w.snd_flights w = record {
        enough = omega (arith, f.balanced);
        peak = peak;
        peer = peer;
        rto_ok = r;
      } in
      let (u, e) = block_result (check_flights net now w) (check_flights-Returned w c a) in
      let (f', r', _) = check_flights_lem net now w u f r e in (u, e, f', r')
