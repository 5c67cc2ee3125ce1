-- ===== src/Wcp/Send/Flight/Survives.antt =====
-- Which packs stay on the flight in `WCB::check_flights` of src/net/wcp.cpp, and what is sent again.
use wawo.Prelude.{
  ℕ, ◌+◌, ◌%◌, ◌^◌, ◌≡◌, refl, sym, ap, ◌∙◌, Bool, true, false, Option, none, some, List, [], ◌∷◌,
  arith, ltb, ◌==◌, ◌&&◌, not, ◌||◌, Bool-cases, inl, inr, ◌>>=◌, ◌>>◌, assert, subst, length,
}
use wawo.Wcp.Pack.{WcbPack, Address, pack_to_udpmessage}
use wawo.Wcp.Types.{Wcb, Errno, is_ok, wcp_rto_clock_granularity}
use wawo.Wcp.Rtt.{handle_pack_acked, rtt_sample, check_cwnd, grow_cwnd, sample_rtt, clamp_rto}
use wawo.Wcp.Rtt.Bounds.{RtoInRange, acked}
use wawo.Wcp.Net.{send_pack, stamped}
use wawo.Wcp.Flights.{
  Scan, retransmit_reason, note_lost, send_failed, scan_flights, shrink_cwnd, after_scan,
  check_flights,
}
use wawo.Wcp.Send.Flight.{FlightOk}
use wawo.Wcp.Send.Flight.Scanned.{AllKept, check_flights-AllKept, resent}
use wawo.Wcp.Send.Flight.Log.{Log, GoesFor, send_cases}

-- Whether a pack is acknowledged: `snd_info.una` moved, behind its number.
abbrev pub is_acked : Bool → ℕ → WcbPack → Bool
is_acked una_update una p = una_update && ltb p.header.seq una

-- From the flight to what stays of it, with the messages before and after.
pub data Scanned (net : ℕ → Errno) (una_update : Bool) (una : ℕ) (peer : Option Address)
    : List WcbPack → List WcbPack → Log → Log → Type 0 where
  at_end : {o : Log} → Scanned net una_update una peer [] [] o o
  leaves :
      {ps rest : List WcbPack} {o o' : Log} (p : WcbPack)
      → is_acked una_update una p ≡ true
      → Scanned net una_update una peer ps rest o o'
      → Scanned net una_update una peer (p ∷ ps) rest o o'
  stays :
      {ps rest : List WcbPack} {o o' : Log} (p : WcbPack)
      → is_acked una_update una p ≡ false
      → Scanned net una_update una peer ps rest o o'
      → Scanned net una_update una peer (p ∷ ps) (p ∷ rest) o o'
  goes_again :
      {ps rest : List WcbPack} {o o' : Log} (p q : WcbPack) (message : List ℕ) (to : Address)
      → is_acked una_update una p ≡ false
      → GoesFor p q
      → peer ≡ some to
      → pack_to_udpmessage q ≡ some message
      → is_ok (net (length o)) ≡ true
      → Scanned net una_update una peer ps rest ((message, to) ∷ o) o'
      → Scanned net una_update una peer (p ∷ ps) (q ∷ rest) o o'
  fails :
      {ps : List WcbPack} {o : Log} (p q : WcbPack) (message : List ℕ) (to : Address)
      → is_acked una_update una p ≡ false
      → GoesFor p q
      → peer ≡ some to
      → pack_to_udpmessage q ≡ some message
      → is_ok (net (length o)) ≡ false
      → Scanned net una_update una peer (p ∷ ps) (q ∷ ps) o ((message, to) ∷ o)

-- A pack that goes out goes for itself.
stamped-GoesFor :
    (net : ℕ → Errno) (p : WcbPack) (w : Wcb)
    → GoesFor p (stamped net p w)
      × ((ts times : ℕ) → GoesFor p (record (stamped net p w) { sent_ts = ts; sent_times = times }))
unfolding stamped
stamped-GoesFor net p w = (
  record { same_seq = refl; same_flag = refl; same_dlen = refl; same_data = refl },
  (λ ts times. record { same_seq = refl; same_flag = refl; same_dlen = refl; same_data = refl }),
)

-- What the scan does not change.
pub record InScan (una_update : Bool) (una : ℕ) (peer : Option Address) (w : Wcb) : Type 0 where
  pub update : w.wcb_flag.snd_una_update ≡ una_update
  pub first : w.snd_info.una ≡ una
  pub to : w.remote_addr ≡ peer

module _ (una_update : Bool) (una : ℕ) (peer : Option Address) where
  acked-InScan :
      (p : WcbPack) (now : ℕ) (w : Wcb)
      → InScan una_update una peer w
      → InScan una_update una peer (acked p now w)
  unfolding rtt_sample check_cwnd grow_cwnd sample_rtt clamp_rto
  acked-InScan p now w c = ground arith

  acked-outp : (p : WcbPack) (now : ℕ) (w : Wcb) → (acked p now w).outp ≡ w.outp
  unfolding rtt_sample check_cwnd grow_cwnd sample_rtt clamp_rto
  acked-outp p now w = ground arith

  note_lost-InScan :
      (p : WcbPack) (s : Scan)
      → InScan una_update una peer s.wcb
      → InScan una_update una peer (note_lost p s).wcb
  unfolding note_lost
  note_lost-InScan p s c = ground arith

  note_lost-outp : (p : WcbPack) (s : Scan) → (note_lost p s).wcb.outp ≡ s.wcb.outp
  unfolding note_lost
  note_lost-outp p s = ground arith

  module _ (net : ℕ → Errno) (now : ℕ) where
    abbrev Ends : List WcbPack → Log → Option (List WcbPack × Scan) → Type 0
    Ends ps o none = Unit {0}
    Ends ps o (some (rest, s)) = Scanned net una_update una peer ps rest o s.wcb.outp

    abbrev Rest : List WcbPack → Type 0
    Rest ps =
        (s : Scan)
        → InScan una_update una peer s.wcb
        → Ends ps s.wcb.outp (scan_flights net now ps s)

    stays-Ends :
        (p : WcbPack) (ps : List WcbPack) (o : Log) (m : Option (List WcbPack × Scan))
        → is_acked una_update una p ≡ false
        → Ends ps o m
        → Ends (p ∷ ps) o (m >>= λ (rest, s'). some (p ∷ rest, s'))
    stays-Ends p ps o none e l = tt
    stays-Ends p ps o (some (rest, s)) e l = stays p e l

    leaves-Ends :
        (p : WcbPack) (ps : List WcbPack) (o : Log) (m : Option (List WcbPack × Scan))
        → is_acked una_update una p ≡ true
        → Ends ps o m
        → Ends (p ∷ ps) o m
    leaves-Ends p ps o none e l = tt
    leaves-Ends p ps o (some (rest, s)) e l = leaves p e l

    again-Ends :
        (p q : WcbPack) (ps : List WcbPack) (o : Log) (message : List ℕ) (to : Address)
        (m : Option (List WcbPack × Scan))
        → is_acked una_update una p ≡ false
        → GoesFor p q
        → peer ≡ some to
        → pack_to_udpmessage q ≡ some message
        → is_ok (net (length o)) ≡ true
        → Ends ps ((message, to) ∷ o) m
        → Ends (p ∷ ps) o (m >>= λ (rest, s'). some (q ∷ rest, s'))
    again-Ends p q ps o message to none e g r k out l = tt
    again-Ends p q ps o message to (some (rest, s)) e g r k out l =
        goes_again p q message to e g r k out l

    -- A pack that leaves, when its bytes are on the flight.
    gone-Ends :
        (p : WcbPack) (ps : List WcbPack) (s : Scan) (b : Bool)
        → is_acked una_update una p ≡ true
        → InScan una_update una peer s.wcb
        → Rest ps
        → Ends (p ∷ ps) s.wcb.outp (
            (assert b >> some (acked p now s.wcb)) >>= λ w'.
            scan_flights net now ps (record s { wcb = w' }))
    gone-Ends p ps s false e c go = tt
    gone-Ends p ps s true e c go =
        let s1 : Scan = record s { wcb = acked p now s.wcb } in
        leaves-Ends p ps s.wcb.outp (scan_flights net now ps s1) e (
          subst (λ o. Ends ps o (scan_flights net now ps s1)) (acked-outp p now s.wcb)
            (go s1 (acked-InScan p now s.wcb c)))

    resent-Ends :
        (p : WcbPack) (ps : List WcbPack) (s1 : Scan)
        → is_acked una_update una p ≡ false
        → InScan una_update una peer s1.wcb
        → Rest ps
        → Ends
            (p ∷ ps)
            s1.wcb.outp
            (send_pack net p s1.wcb >>= λ (ec, w2). resent net now p ps s1 ec w2)
    resent-Ends p ps s1 e c go =
        send_cases net p s1.wcb
          (λ m. Ends (p ∷ ps) s1.wcb.outp (m >>= λ (ec, w2). resent net now p ps s1 ec w2)) tt
          (λ message to r k. elim (Bool-cases (is_ok (net (length s1.wcb.outp)))) [
            | inl out ↦ rw out (
                again-Ends p _ ps s1.wcb.outp message to
                  (scan_flights net now ps
                    (record s1 { wcb = record (s1.wcb) { outp = (message, to) ∷ s1.wcb.outp } }))
                  e ((stamped-GoesFor net p s1.wcb).1 _ _) (sym c.to ∙ r)
                  (unfold pack_to_udpmessage in k) out
                  (go _ (record { update = c.update; first = c.first; to = c.to })))
            | inr bad ↦ rw bad (
                subst
                  (λ o.
                    Scanned net una_update una peer (p ∷ ps) (stamped net p s1.wcb ∷ ps) s1.wcb.outp
                      o)
                  (sym (logged message to))
                  (fails p (stamped net p s1.wcb) message to e (stamped-GoesFor net p s1.wcb).0
                    (sym c.to ∙ r) k bad))
          ])
      where
        logged :
            (message : List ℕ) (to : Address)
            → (send_failed
                (net (length s1.wcb.outp))
                (record (s1.wcb) { outp = (message, to) ∷ s1.wcb.outp })).outp
              ≡ (message, to) ∷ s1.wcb.outp
        logged message to = ground arith

    scan_flights-Ends : (ps : List WcbPack) → Rest ps
    unfolding scan_flights handle_pack_acked
    scan_flights-Ends [] s c = at_end
    scan_flights-Ends (p ∷ ps) s c =
        elim (Bool-cases (s.wcb.wcb_flag.snd_una_update && ltb p.header.seq s.wcb.snd_info.una)) [
          | inl gone ↦ rw gone (gone-Ends p ps s _ (acks ∙ gone) c (scan_flights-Ends ps))
          | inr here ↦ elim (Bool-cases (retransmit_reason now p s.wcb == 0)) [
            | inl kept ↦ elim (Bool-cases (retransmit_reason now p s.wcb == 3)) [
              | inl late ↦ rw (here, kept, late) (late_stays (acks ∙ here) (scan_flights-Ends ps))
              | inr in_time ↦
                  rw (here, kept, in_time)
                    (stays-Ends p ps s.wcb.outp (scan_flights net now ps s) (acks ∙ here)
                      (scan_flights-Ends ps s c))
            ]
            | inr again ↦ elim (Bool-cases (retransmit_reason now p s.wcb == 3)) [
              | inl late ↦ rw (here, again, late) (late_again (acks ∙ here) (scan_flights-Ends ps))
              | inr in_time ↦
                  rw (here, again, in_time)
                    (resent-Ends p ps s (acks ∙ here) c (scan_flights-Ends ps))
            ]
          ]
        ]
      where
        acks :
            is_acked una_update una p
            ≡ (s.wcb.wcb_flag.snd_una_update && ltb p.header.seq s.wcb.snd_info.una)
        acks =
            ap (λ b. is_acked b una p) (sym c.update)
            ∙ ap (λ n. is_acked s.wcb.wcb_flag.snd_una_update n p) (sym c.first)

        late_stays :
            is_acked una_update una p ≡ false
            → Rest ps
            → Ends
                (p ∷ ps)
                s.wcb.outp
                (scan_flights net now ps (note_lost p s) >>= λ (rest, s'). some (p ∷ rest, s'))
        late_stays e go = stays-Ends p ps s.wcb.outp (scan_flights net now ps (note_lost p s)) e (
            subst (λ o. Ends ps o (scan_flights net now ps (note_lost p s))) (note_lost-outp p s)
              (go (note_lost p s) (note_lost-InScan p s c)))

        late_again :
            is_acked una_update una p ≡ false
            → Rest ps
            → Ends (p ∷ ps) s.wcb.outp (
                send_pack net p (note_lost p s).wcb >>= λ (ec, w2).
                resent net now p ps (note_lost p s) ec w2)
        late_again e go =
            subst
              (λ o. Ends (p ∷ ps) o (
                send_pack net p (note_lost p s).wcb >>= λ (ec, w2).
                resent net now p ps (note_lost p s) ec w2))
              (note_lost-outp p s) (resent-Ends p ps (note_lost p s) e (note_lost-InScan p s c) go)

    -- Without new acknowledgements all packs stay.
    all_stay :
        una_update ≡ false
        → (ps : List WcbPack) (o : Log) → Scanned net una_update una peer ps ps o o
    all_stay e [] o = at_end
    all_stay e (p ∷ ps) o = stays p (ap (λ b. is_acked b una p) e) (all_stay e ps o)

module _ (net : ℕ → Errno) (now : ℕ) where
  -- The flight of `u` is what the scan leaves of that of `w`.
  abbrev pub Survive : Wcb → Wcb → Type 0
  Survive w u =
      Scanned net w.wcb_flag.snd_una_update w.snd_info.una w.remote_addr w.snd_flights u.snd_flights
        w.outp u.outp

  abbrev AllSurvive : Wcb → Option Wcb → Type 0
  AllSurvive w none = Unit {0}
  AllSurvive w (some u) = Survive w u

  after_scan-AllSurvive :
      (w : Wcb) (flights : List WcbPack) (s : Scan)
      → Scanned net w.wcb_flag.snd_una_update w.snd_info.una w.remote_addr w.snd_flights flights
          w.outp s.wcb.outp
      → AllSurvive w (after_scan now (record s { wcb = record (s.wcb) { snd_flights = flights } }))
  unfolding after_scan shrink_cwnd
  after_scan-AllSurvive w flights s c = ground arith

  scanned-AllSurvive :
      (w : Wcb) (m : Option (List WcbPack × Scan))
      → Ends w.wcb_flag.snd_una_update w.snd_info.una w.remote_addr net now w.snd_flights w.outp m
      → AllSurvive w (
          m >>= λ (flights, s).
          after_scan now (record s { wcb = record (s.wcb) { snd_flights = flights } }))
  scanned-AllSurvive w none e = tt
  scanned-AllSurvive w (some (flights, s)) e = after_scan-AllSurvive w flights s e

  check_flights-AllSurvive : (w : Wcb) → AllSurvive w (check_flights net now w)
  unfolding check_flights
  check_flights-AllSurvive w = elim (Bool-cases (not_due w)) [
    | inl early ↦ rw early (
        all_stay w.wcb_flag.snd_una_update w.snd_info.una w.remote_addr net now
          (ground (arith, early)) w.snd_flights w.outp)
    | inr due ↦ rw due (
        scanned-AllSurvive w (scan_flights net now w.snd_flights (start w)) (
          scan_flights-Ends w.wcb_flag.snd_una_update w.snd_info.una w.remote_addr net now
            w.snd_flights (start w) (record { update = refl; first = refl; to = refl })))
  ]
    where
      not_due : Wcb → Bool
      not_due w =
          not (
            w.wcb_flag.snd_una_update || w.wcb_flag.snd_fast_recovered
            || w.wcb_flag.snd_biggest_sack_update)
          && ltb now ((w.snd_last_rto_timer + wcp_rto_clock_granularity) % 2 ^ 64)

      start : Wcb → Scan
      start w = record {
        wcb = record w { snd_last_rto_timer = now };
        lost_count = 0;
        max_sent_time = 0;
      }

  -- `check_flights`, when it meets no assertion, lets exactly those packs leave the flight whose number is
  -- behind `snd_info.una` after it moved, except for those behind a send that fails, which all stay.
  -- The others stay once each and in order, with their numbers, flags and data. The messages that it
  -- hands to `sendto` are of packs that stay, in order, each with the pack as it is on the flight
  -- then; the scan goes on after each that `sendto` takes, and ends with the one that it refuses. The
  -- number of bytes on the flight stays the sum over the flight's packs, the window stays within its maximum,
  -- and the timeout within its limits.
  pub check_flights_lem :
      (w u : Wcb)
      → FlightOk w
      → RtoInRange w
      → check_flights net now w ≡ some u
      → FlightOk u × RtoInRange u × Survive w u
  check_flights_lem w u f r e =
      let (g, v) = subst (AllKept net now) e (check_flights-AllKept net now w (f, r)) in
      (g, v, subst (AllSurvive w) e (check_flights-AllSurvive w))
