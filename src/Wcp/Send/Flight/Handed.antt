-- ===== src/Wcp/Send/Flight/Handed.antt =====
-- What the loop of `WCB::check_send` of src/net/wcp.cpp hands to `sendto`, and what it puts on the
-- flight.
use wawo.Prelude.{
  ℕ, ◌+◌, ◌<◌, ◌^◌, ◌≡◌, refl, sym, ap, ◌∙◌, Bool, true, false, Option, none, some, List, [], ◌∷◌,
  ◌++◌, arith, leb, ◌==◌, Bool-cases, inl, inr, ◌⊎◌, ◌>>=◌, ◌>>◌, assert, subst, length,
  append_assoc, append-nil,
}
use wawo.Wcp.Flag
use wawo.Wcp.Flag.{test_flag}
use wawo.Wcp.Pack.{WcbPack, Address, pack_to_udpmessage}
use wawo.Wcp.Types.{Wcb, Errno, is_ok, wawo_min}
use wawo.Wcp.Rtt.{ntotal_bytes}
use wawo.Wcp.Net.{send_pack, stamped}
use wawo.Wcp.Flights.{send_failed}
use wawo.Wcp.Send.{Progress, proceed, leave, congested, take_off, send_loop}
use wawo.Wcp.Send.Flight.{FlightOk, flight_bytes-snoc}
use wawo.Wcp.Send.Flight.Sent.{
  AllShort, send_window, SentOk, take_off_lem, in_sequence, flying, answered, send_loop-LoopOk,
  LoopOk,
}
use wawo.Wcp.Send.Flight.Log.{
  Log, Handed, stops, refused, flies, Flown, AlikeOut, AlikeOut-FlightOk, AlikeOutAll,
  fin_sent-AlikeOutAll, syn_out-AlikeOutAll, send_cases,
}

module _ (net : ℕ → Errno) (now : ℕ) where
  AlikeOut-Flown : (w u : Wcb) (ps : List WcbPack) → AlikeOut w u → Flown net ps w u
  AlikeOut-Flown w u ps a = (
    [],
    a.flights ∙ sym (append-nil w.snd_flights),
    subst (λ o. Handed net (send_window w) w.remote_addr ps [] w.snd_nflight_bytes w.outp o)
        (sym a.log) stops,
  )

  abbrev LoopFlown : List WcbPack → Wcb → Option Progress → Type 0
  LoopFlown ps w none = Unit {0}
  LoopFlown ps w (some (proceed u)) = Flown net ps w u
  LoopFlown ps w (some (leave u)) = Flown net ps w u

  LoopFlown-assert :
      (ps : List WcbPack) (w : Wcb) (b : Bool) (m : Option Progress)
      → LoopFlown ps w m
      → LoopFlown ps w (assert b >> m)
  LoopFlown-assert ps w true m l = l
  LoopFlown-assert ps w false m l = tt

  -- One pack that flies, before what follows.
  module _ (p : WcbPack) (ps : List WcbPack) (w : Wcb) (message : List ℕ) (to : Address)
      (f : FlightOk w) (short : p.header.dlen < 2 ^ 16)
      (free : congested (stamped net p w) w ≡ false) (peer : w.remote_addr ≡ some to)
      (coded : pack_to_udpmessage (stamped net p w) ≡ some message)
      (out_now : is_ok (net (length w.outp)) ≡ true) where
    abbrev flown : Wcb
    flown = take_off now (stamped net p w) (record w { outp = (message, to) ∷ w.outp })

    flown-FlightOk : FlightOk flown
    flown-FlightOk =
        let (g, _, _) =
          take_off_lem now (stamped net p w) (record w { outp = (message, to) ∷ w.outp })
            (record { balanced = f.balanced; below = f.below; window = f.window })
            (unfold stamped in short) (unfold congested in free) in
        g

    -- The pack as it is on the flight.
    abbrev flying_pack : WcbPack
    flying_pack = record (stamped net p w) { sent_ts = now; sent_times = 1 }

    counted : flown.snd_nflight_bytes ≡ w.snd_nflight_bytes + ntotal_bytes flying_pack
    unfolding take_off
    counted =
        flown-FlightOk.balanced
        ∙ flight_bytes-snoc w.snd_flights flying_pack
        ∙ ap (λ n. n + ntotal_bytes flying_pack) (sym f.balanced)

    fits : w.snd_nflight_bytes + ntotal_bytes flying_pack < send_window w
    fits =
        let (_, less, same) =
          take_off_lem now (stamped net p w) (record w { outp = (message, to) ∷ w.outp })
            (record { balanced = f.balanced; below = f.below; window = f.window })
            (unfold stamped in short) (unfold congested in free) in
        subst (λ n. n < send_window w) counted less

    first-Flown : (x u : Wcb) → AlikeOut flown x → Flown net ps x u → Flown net (p ∷ ps) w u
    unfolding take_off
    first-Flown x u a (qs, on, handed) =
        let h1 =
          subst (λ n. Handed net (send_window x) x.remote_addr ps qs n x.outp u.outp)
            (a.nflight ∙ counted) handed in
        let n : ℕ = w.snd_nflight_bytes + ntotal_bytes flying_pack in
        let h2 = subst (λ o. Handed net (send_window x) x.remote_addr ps qs n o u.outp) a.log h1 in
        let o : Log = (message, to) ∷ w.outp in
        let h3 = subst (λ r. Handed net (send_window x) r ps qs n o u.outp) a.peer h2 in
        let h4 =
          subst (λ k. Handed net k w.remote_addr ps qs n o u.outp)
            (ap (λ i. wawo_min i.cwnd i.rwnd) a.info) h3 in
        (
          flying_pack ∷ qs,
          on ∙ ap (λ l. l ++ qs) a.flights ∙ append_assoc w.snd_flights (flying_pack ∷ []) qs,
          flies p flying_pack message to peer
              (unfold stamped in
                record { same_seq = refl; same_flag = refl; same_dlen = refl; same_data = refl })
              (unfold pack_to_udpmessage in coded) out_now fits h4,
        )

    abbrev Rest : Type 0
    Rest = (x : Wcb) → FlightOk x → LoopFlown ps x (send_loop net now ps x)

    first-LoopFlown :
        (x : Wcb) (m : Option Progress)
        → AlikeOut flown x
        → LoopFlown ps x m
        → LoopFlown (p ∷ ps) w m
    first-LoopFlown x none a l = tt
    first-LoopFlown x (some (proceed u)) a l = first-Flown x u a l
    first-LoopFlown x (some (leave u)) a l = first-Flown x u a l

    fin-LoopFlown :
        (l : List WcbPack) (m : Option Wcb)
        → AlikeOutAll flown m
        → LoopFlown (p ∷ ps) w (m >>= λ w3. some (proceed (record w3 { snd_sending = l })))
    fin-LoopFlown l none a = tt
    fin-LoopFlown l (some w3) a =
        let u : Wcb = record w3 { snd_sending = l } in
        let b : AlikeOut flown u = record {
          nflight = a.nflight;
          info = a.info;
          flights = a.flights;
          peer = a.peer;
          log = a.log;
        } in
        first-Flown u u b (
          AlikeOut-Flown u u ps
            (record { nflight = refl; info = refl; flights = refl; peer = refl; log = refl }))

    syn-LoopFlown :
        (m : Option Wcb)
        → AlikeOutAll flown m
        → Rest
        → LoopFlown (p ∷ ps) w (m >>= send_loop net now ps)
    syn-LoopFlown none a go = tt
    syn-LoopFlown (some x) a go =
        first-LoopFlown x (send_loop net now ps x) a
          (go x (AlikeOut-FlightOk flown x a flown-FlightOk))

    flying-LoopFlown : Rest → LoopFlown (p ∷ ps) w (flying net now p ps (stamped net p w) flown)
    flying-LoopFlown go = elim (Bool-cases (test_flag p.header.flag Flag.fin)) [
      | inl e ↦ rw e (fin-LoopFlown _ _ (fin_sent-AlikeOutAll now flown))
      | inr e ↦ elim (Bool-cases (test_flag p.header.flag Flag.syn)) [
        | inl k ↦ rw (e, k) (syn-LoopFlown _ (syn_out-AlikeOutAll flown) go)
        | inr k ↦
            rw (e, k)
              (first-LoopFlown flown _
                (record { nflight = refl; info = refl; flights = refl; peer = refl; log = refl })
                (go flown flown-FlightOk))
      ]
    ]

  -- A message that `sendto` refused ends the loop.
  refused-Flown :
      (p : WcbPack) (ps l : List WcbPack) (w : Wcb) (message : List ℕ × Address) (ec : Errno)
      → is_ok (net (length w.outp)) ≡ false
      → Flown net
          (p ∷ ps)
          w
          (record (send_failed ec (record w { outp = message ∷ w.outp })) { snd_sending = l })
  refused-Flown p ps l w message ec fails =
      let w1 : Wcb = record w { outp = message ∷ w.outp } in
      let on : (record (send_failed ec w1) { snd_sending = l }).snd_flights ≡ w.snd_flights =
        ground arith in
      let out : (record (send_failed ec w1) { snd_sending = l }).outp ≡ message ∷ w.outp =
        ground arith in
      (
        [],
        on ∙ sym (append-nil w.snd_flights),
        subst
            (λ o. Handed net (send_window w) w.remote_addr (p ∷ ps) [] w.snd_nflight_bytes w.outp o)
            (sym out) (refused message fails),
      )

  send_loop-LoopFlown :
      (ps : List WcbPack) (w : Wcb)
      → FlightOk w
      → AllShort ps
      → LoopFlown ps w (send_loop net now ps w)
  unfolding send_loop stamped
  send_loop-LoopFlown [] w f short =
      AlikeOut-Flown w (record w { snd_sending = [] }) []
        (record { nflight = refl; info = refl; flights = refl; peer = refl; log = refl })
  send_loop-LoopFlown (p ∷ ps) w f (short, shorts) = elim (Bool-cases (congested p w)) [
    | inl full ↦ rw full (
        AlikeOut-Flown w (record w { snd_sending = p ∷ ps }) (p ∷ ps)
          (record { nflight = refl; info = refl; flights = refl; peer = refl; log = refl }))
    | inr free ↦ rw free (
        LoopFlown-assert (p ∷ ps) w (p.header.seq == w.snd_info.next)
          (assert (leb w.snd_info.una p.header.seq) >> sent)
          (LoopFlown-assert (p ∷ ps) w (leb w.snd_info.una p.header.seq) sent (
            send_cases net p w
              (λ m.
                LoopFlown (p ∷ ps) w
                  (m >>= λ (ec, w1). answered net now p ps (stamped net p w) ec w1))
              tt
              (λ message to peer coded. elim (Bool-cases (is_ok (net (length w.outp)))) [
                | inl out_now ↦ rw out_now (
                    LoopFlown-assert (p ∷ ps) w (in_sequence net now p) _ (
                      flying-LoopFlown p ps w message to f short (unfold stamped congested in free)
                        peer coded out_now (λ x fx. send_loop-LoopFlown ps x fx shorts)))
                | inr fails ↦ rw fails (
                    refused-Flown p ps (stamped net p w ∷ ps) w (message, to) (net (length w.outp))
                      fails)
              ]))))
  ]
    where
      sent : Option Progress
      sent = send_pack net p w >>= λ (ec, w1). answered net now p ps (stamped net p w) ec w1

  -- Of the packs that wait, the loop of `check_send` puts some on the flight, behind the packs there:
  -- those in front, in order, with their numbers, flags and data. They are exactly the ones whose message it
  -- handed to `sendto` and `sendto` took, besides at most one message at the end that `sendto`
  -- refused, and each fit, with what was on the flight then, below the smaller of the congestion
  -- window and the peer's window. The number of bytes on the flight counts the whole flight. This is
  -- whatever `sendto` answers, when the loop meets no assertion, from a flight that is counted exactly
  -- and within the window's maximum, for packs whose length is a 16-bit number.
  pub send_loop_lem :
      (ps : List WcbPack) (w u : Wcb)
      → FlightOk w
      → AllShort ps
      → (send_loop net now ps w ≡ some (proceed u)) ⊎ (send_loop net now ps w ≡ some (leave u))
      → SentOk w u × Flown net ps w u
  send_loop_lem ps w u f short (inl e) = (
    subst (LoopOk w) e (send_loop-LoopOk net now ps w f short),
    subst (LoopFlown ps w) e (send_loop-LoopFlown ps w f short),
  )
  send_loop_lem ps w u f short (inr e) = (
    subst (LoopOk w) e (send_loop-LoopOk net now ps w f short),
    subst (LoopFlown ps w) e (send_loop-LoopFlown ps w f short),
  )
