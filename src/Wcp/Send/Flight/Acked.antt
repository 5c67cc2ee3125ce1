-- ===== src/Wcp/Send/Flight/Acked.antt =====
-- The flight through the loop over `acked_queue` in `WCB::check_recv` of src/net/wcp.cpp.
use wawo.Prelude.{
  ℕ, ◌+◌, ◌≡◌, refl, true, none, some, List, [], ◌∷◌, arith, ltb, ◌==◌, Bool-cases, inl, inr,
  Option-cases,
}
use wawo.Wcp.Pack.{WcbPack}
use wawo.Wcp.Types.{Wcb}
use wawo.Wcp.Rtt.{ntotal_bytes, handle_pack_acked}
use wawo.Wcp.Rtt.Bounds.{RtoInRange, handle_pack_acked_lem}
use wawo.Wcp.Recv.{find_flight, erase_flight, fast_recover, ack_flight, ack_one, ack_all}
use wawo.Wcp.Send.Flight.{flight_bytes, FlightOk}

-- A pack on the flight is counted, and counted out when it is erased.
pub flight_bytes-erase :
    (seq : ℕ) (ps : List WcbPack) (p : WcbPack)
    → find_flight seq ps ≡ some p
    → flight_bytes (erase_flight seq ps) + ntotal_bytes p ≡ flight_bytes ps
unfolding flight_bytes find_flight erase_flight
flight_bytes-erase seq [] p e = ground (arith, e)
flight_bytes-erase seq (q ∷ ps) p e = elim (Bool-cases (q.header.seq == seq)) [
  | inl here ↦ ground (arith, here, e)
  | inr there ↦ ground (arith, there, e, flight_bytes-erase seq ps p)
]

-- What a step keeps.
abbrev pub Kept : Wcb → Type 0
Kept w = FlightOk w × RtoInRange w

ack_flight-some :
    (now ack : ℕ) (w u : Wcb) (p : WcbPack)
    → find_flight ack w.snd_flights ≡ some p
    → handle_pack_acked p now w ≡ some u
    → ack_flight now ack w ≡ some (record u { snd_flights = erase_flight ack w.snd_flights })
unfolding ack_flight
ack_flight-some now ack w u p e h = ground (arith, e, h)

ack_flight-none :
    (now ack : ℕ) (w : Wcb) → find_flight ack w.snd_flights ≡ none → ack_flight now ack w ≡ some w
unfolding ack_flight
ack_flight-none now ack w e = ground (arith, e)

ack_flight_lem :
    (now ack : ℕ) (w : Wcb) → Kept w → (u : Wcb) × (ack_flight now ack w ≡ some u) × Kept u
ack_flight_lem now ack w (f, r) = elim (Option-cases (find_flight ack w.snd_flights)) [
  | inl e ↦ (w, ack_flight-none now ack w e, (f, r))
  | inr (p, e) ↦
      let counted : flight_bytes (erase_flight ack w.snd_flights) + ntotal_bytes p
          ≡ flight_bytes w.snd_flights =
        flight_bytes-erase ack w.snd_flights p e in
      let (done, left, cwnd, r') =
        handle_pack_acked_lem p now w (omega (arith, counted, f.balanced)) r in
      (
        _,
        ack_flight-some now ack w _ p e done,
        (
          record {
            balanced = omega (arith, counted, left, f.balanced);
            below = omega (arith, left, f.below);
            window = cwnd;
          },
          record { rto_low = r'.rto_low; rto_high = r'.rto_high },
        ),
      )
]

fast_recover_lem : (ack : ℕ) (w : Wcb) → Kept w → Kept (fast_recover ack w)
unfolding fast_recover
fast_recover_lem ack w (f, r) = ground arith

ack_one_lem : (now ack : ℕ) (w : Wcb) → Kept w → (u : Wcb) × (ack_one now ack w ≡ some u) × Kept u
unfolding ack_one
ack_one_lem now ack w k = elim (Bool-cases (ltb ack w.snd_info.una)) [
  | inl old ↦ rw old (w, refl, k)
  | inr fresh ↦ elim (Bool-cases (ltb w.snd_biggest_ack ack)) [
    | inl bigger ↦
        let (u, e, k') = ack_flight_lem now ack _ (noted k) in
        rw (fresh, bigger, e) (fast_recover ack u, refl, fast_recover_lem ack u k')
    | inr not_bigger ↦
        let (u, e, k') = ack_flight_lem now ack w k in
        rw (fresh, not_bigger, e) (fast_recover ack u, refl, fast_recover_lem ack u k')
  ]
]
  where
    noted :
        Kept w
        → Kept (record w {
          snd_biggest_ack = ack;
          wcb_flag = record (w.wcb_flag) { snd_biggest_sack_update = true };
        })
    noted k = ground arith

-- The acknowledgements of a SACK pack, in whatever order and however often, are taken without an
-- assertion, and the bytes on the flight stay the sum of its packs.
pub ack_all_lem :
    (now : ℕ) (acks : List ℕ) (w : Wcb)
    → FlightOk w
    → RtoInRange w
    → (u : Wcb) × (ack_all now acks w ≡ some u) × FlightOk u × RtoInRange u
unfolding ack_all
ack_all_lem now [] w f r = (w, refl, f, r)
ack_all_lem now (a ∷ as') w f r =
    let (u, e, k) = ack_one_lem now a w (f, r) in rw e (ack_all_lem now as' u k.0 k.1)
