-- ===== src/Wcp/Send/Flight/Scanned.antt =====
-- The flight through `WCB::check_flights` of src/net/wcp.cpp.
use wawo.Prelude.{
  ℕ, ◌+◌, ◌≤◌, ◌≡◌, ◌∙◌, Option, none, some, List, [], ◌∷◌, arith, ltb, ◌==◌, if◌then◌else◌,
  Bool-cases, inl, inr, ◌>>=◌, ◌&&◌,
}
use wawo.Prelude.Words.{add32}
use wawo.Wcp.Pack.{WcbPack}
use wawo.Wcp.Types.{Wcb, Errno, is_ok, wcp_snd_cwnd_max}
use wawo.Wcp.Rtt.{ntotal_bytes}
use wawo.Wcp.Rtt.Bounds.{RtoInRange, handle_pack_acked_lem}
use wawo.Wcp.Net.{send_pack, stamped, inject_to_address}
use wawo.Wcp.Flights.{
  Scan, retransmit_reason, note_lost, send_failed, scan_flights, shrink_cwnd, after_scan,
  check_flights,
}
use wawo.Wcp.Send.Flight.{flight_bytes}
use wawo.Wcp.Send.Flight.Acked.{Kept}

-- While the packs `ps` are still to scan, and the ones kept so far count `k`.
pub record Scanning (k : ℕ) (ps : List WcbPack) (w : Wcb) : Type 0 where
  pub counts : w.snd_nflight_bytes ≡ k + flight_bytes ps
  pub limit : w.snd_nflight_bytes ≤ wcp_snd_cwnd_max
  pub window : w.snd_info.cwnd ≤ wcp_snd_cwnd_max
  pub rto_ok : RtoInRange w

abbrev ScanEnds : ℕ → Option (List WcbPack × Scan) → Type 0
ScanEnds k none = Unit {0}
ScanEnds k (some (rest, s)) = Scanning k rest s.wcb

ScanEnds-put :
    (k : ℕ) (p : WcbPack) (m : Option (List WcbPack × Scan))
    → ScanEnds (k + ntotal_bytes p) m
    → ScanEnds k (m >>= λ (rest, s'). some (p ∷ rest, s'))
unfolding flight_bytes
ScanEnds-put k p none e = tt
ScanEnds-put k p (some (rest, s)) e = record {
  counts = omega (arith, e.counts);
  limit = e.limit;
  window = e.window;
  rto_ok = e.rto_ok;
}

note_lost-Scanning :
    (k : ℕ) (p : WcbPack) (ps : List WcbPack) (s : Scan)
    → Scanning k ps s.wcb
    → Scanning k ps (note_lost p s).wcb
unfolding note_lost
note_lost-Scanning k p ps s c = ground arith

-- A send changes the log of messages alone.
abbrev pub Sent : Wcb → Option (Errno × Wcb) → Type 0
Sent w none = Unit {0}
Sent w (some (ec, u)) =
    (u.snd_nflight_bytes ≡ w.snd_nflight_bytes)
    × (u.snd_info ≡ w.snd_info)
    × (u.rto ≡ w.rto)
    × (u.snd_flights ≡ w.snd_flights)

pub send_pack-Sent : (net : ℕ → Errno) (p : WcbPack) (w : Wcb) → Sent w (send_pack net p w)
unfolding send_pack inject_to_address
send_pack-Sent net p w = ground arith

failed-Scanning :
    (k : ℕ) (ps : List WcbPack) (ec : Errno) (w : Wcb)
    → Scanning k ps w
    → Scanning k ps (send_failed ec w)
failed-Scanning k ps ec w c = ground arith

moved-Scanning :
    (k : ℕ) (ps : List WcbPack) (ec : Errno) (w u : Wcb)
    → Sent w (some (ec, u))
    → Scanning k ps w
    → Scanning k ps u
moved-Scanning k ps ec w u (n, i, r, f) c = record {
  counts = n ∙ c.counts;
  limit = rw n c.limit;
  window = rw i c.window;
  rto_ok = record { rto_low = rw r c.rto_ok.rto_low; rto_high = rw r c.rto_ok.rto_high };
}

-- The first pack stays.
past_first :
    (k : ℕ) (p : WcbPack) (ps : List WcbPack) (w : Wcb)
    → Scanning k (p ∷ ps) w
    → Scanning (k + ntotal_bytes p) ps w
unfolding flight_bytes
past_first k p ps w c = record {
  counts = omega (arith, c.counts);
  limit = c.limit;
  window = c.window;
  rto_ok = c.rto_ok;
}

module _ (net : ℕ → Errno) (now : ℕ) where
  -- The pack is sent again, and the scan goes on when `sendto` took it.
  abbrev pub resent : WcbPack → List WcbPack → Scan → Errno → Wcb → Option (List WcbPack × Scan)
  resent p ps s1 ec w2 =
      let p1 = stamped net p s1.wcb in
      let p2 = record p1 { sent_ts = now; sent_times = add32 p.sent_times 1 } in
      let rest =
        scan_flights net now ps (record s1 { wcb = w2 }) >>= λ (rest, s'). some (p2 ∷ rest, s') in
      if is_ok ec then rest else some (p1 ∷ ps, record s1 { wcb = send_failed ec w2 })

  resent-ScanEnds :
      (k : ℕ) (p : WcbPack) (ps : List WcbPack) (s1 : Scan) (m : Option (Errno × Wcb))
      → Sent s1.wcb m
      → Scanning k (p ∷ ps) s1.wcb
      → ((s : Scan)
          → Scanning (k + ntotal_bytes p) ps s.wcb
          → ScanEnds (k + ntotal_bytes p) (scan_flights net now ps s))
      → ScanEnds k (m >>= λ (ec, w2). resent p ps s1 ec w2)
  unfolding flight_bytes stamped
  resent-ScanEnds k p ps s1 none sent c go = tt
  resent-ScanEnds k p ps s1 (some (ec, w2)) sent c go = elim (Bool-cases (is_ok ec)) [
    | inl out ↦ rw out (
        ScanEnds-put k _ _
          (go _ (moved-Scanning _ ps ec s1.wcb w2 sent (past_first k p ps s1.wcb c))))
    | inr fails ↦
        rw fails
          (again (failed-Scanning k (p ∷ ps) ec w2 (moved-Scanning k (p ∷ ps) ec s1.wcb w2 sent c)))
  ]
    where
      again : {u : Wcb} → Scanning k (p ∷ ps) u → Scanning k (stamped net p s1.wcb ∷ ps) u
      again c = record { counts = c.counts; limit = c.limit; window = c.window; rto_ok = c.rto_ok }

  scan_flights-ScanEnds :
      (ps : List WcbPack) (k : ℕ) (s : Scan)
      → Scanning k ps s.wcb
      → ScanEnds k (scan_flights net now ps s)
  unfolding scan_flights
  scan_flights-ScanEnds [] k s c = c
  scan_flights-ScanEnds (p ∷ ps) k s c =
      elim (Bool-cases (s.wcb.wcb_flag.snd_una_update && ltb p.header.seq s.wcb.snd_info.una)) [
        | inl gone ↦
            let (done, left, cwnd, r) = handle_pack_acked_lem p now s.wcb in_flight c.rto_ok in
            rw (gone, done) (scan_flights-ScanEnds ps k _ (fewer left cwnd r))
        | inr here ↦ elim (Bool-cases (retransmit_reason now p s.wcb == 0)) [
          | inl kept ↦ elim (Bool-cases (retransmit_reason now p s.wcb == 3)) [
            | inl late ↦
                rw (here, kept, late)
                  (keeps (λ k' s'. scan_flights-ScanEnds ps k' s') (note_lost p s)
                    (note_lost-Scanning k p (p ∷ ps) s c))
            | inr in_time ↦
                rw (here, kept, in_time) (keeps (λ k' s'. scan_flights-ScanEnds ps k' s') s c)
          ]
          | inr again ↦ elim (Bool-cases (retransmit_reason now p s.wcb == 3)) [
            | inl late ↦
                rw (here, again, late)
                  (resends (λ k' s'. scan_flights-ScanEnds ps k' s') (note_lost p s)
                    (note_lost-Scanning k p (p ∷ ps) s c))
            | inr in_time ↦
                rw (here, again, in_time) (resends (λ k' s'. scan_flights-ScanEnds ps k' s') s c)
          ]
        ]
      ]
    where
      in_flight : ntotal_bytes p ≤ s.wcb.snd_nflight_bytes
      in_flight = unfold flight_bytes in omega (arith, c.counts)

      fewer :
          {u : Wcb}
          → u.snd_nflight_bytes + ntotal_bytes p ≡ s.wcb.snd_nflight_bytes
          → u.snd_info.cwnd ≤ wcp_snd_cwnd_max
          → RtoInRange u
          → Scanning k ps u
      fewer left cwnd r =
          unfold flight_bytes in
          record {
            counts = omega (arith, c.counts, left);
            limit = omega (arith, left, c.limit);
            window = cwnd;
            rto_ok = r;
          }

      Rest : Type 0
      Rest = (k' : ℕ) (s' : Scan) → Scanning k' ps s'.wcb → ScanEnds k' (scan_flights net now ps s')

      keeps :
          Rest
          → (s1 : Scan) → Scanning k (p ∷ ps) s1.wcb
          → ScanEnds k (scan_flights net now ps s1 >>= λ (rest, s'). some (p ∷ rest, s'))
      keeps go s1 c1 = ScanEnds-put k p _ (go (k + ntotal_bytes p) s1 (past_first k p ps s1.wcb c1))

      resends :
          Rest
          → (s1 : Scan) → Scanning k (p ∷ ps) s1.wcb
          → ScanEnds k (send_pack net p s1.wcb >>= λ (ec, w2). resent p ps s1 ec w2)
      resends go s1 c1 =
          resent-ScanEnds k p ps s1 _ (send_pack-Sent net p s1.wcb) c1
            (λ s'. go (k + ntotal_bytes p) s')

  -- What is left after the scan.
  abbrev pub AllKept : Option Wcb → Type 0
  AllKept none = Unit {0}
  AllKept (some u) = Kept u

  after_scan-AllKept :
      (flights : List WcbPack) (s : Scan)
      → Scanning 0 flights s.wcb
      → AllKept (after_scan now (record s { wcb = record (s.wcb) { snd_flights = flights } }))
  unfolding after_scan shrink_cwnd
  after_scan-AllKept flights s c = ground arith

  scanned-AllKept :
      (m : Option (List WcbPack × Scan))
      → ScanEnds 0 m
      → AllKept (
          m >>= λ (flights, s).
          after_scan now (record s { wcb = record (s.wcb) { snd_flights = flights } }))
  scanned-AllKept none e = tt
  scanned-AllKept (some (flights, s)) e = after_scan-AllKept flights s e

  pub check_flights-AllKept : (w : Wcb) → Kept w → AllKept (check_flights net now w)
  unfolding check_flights
  check_flights-AllKept w (f, r) = ground (
    arith,
    f,
    r,
    scanned-AllKept _ (
        scan_flights-ScanEnds w.snd_flights 0
          (record {
            wcb = record w { snd_last_rto_timer = now };
            lost_count = 0;
            max_sent_time = 0;
          })
          (record {
            counts = omega (arith, f.balanced);
            limit = f.below;
            window = f.window;
            rto_ok = record { rto_low = r.rto_low; rto_high = r.rto_high };
          })),
  )
