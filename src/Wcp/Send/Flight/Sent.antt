-- ===== src/Wcp/Send/Flight/Sent.antt =====
-- The flight and the windows through the loop of `WCB::check_send` of src/net/wcp.cpp.
use wawo.Prelude.{
  ℕ, ◌<◌, ◌^◌, ◌≡◌, refl, sym, ap, ◌∙◌, Bool, true, false, Option, none, some, List, [], ◌∷◌, arith,
  leb, ◌==◌, if◌then◌else◌, Bool-cases, inl, inr, ◌⊎◌, ◌>>=◌, ◌>>◌, ◌||◌, not, assert, subst,
}
use wawo.Wcp.Flag
use wawo.Wcp.Flag.{test_flag}
use wawo.Wcp.Pack.{WcbPack}
use wawo.Wcp.Types.{Wcb, Errno, is_ok, wawo_min}
use wawo.Wcp.Net.{send_pack, stamped}
use wawo.Wcp.Flights.{send_failed}
use wawo.Wcp.Send.{Progress, proceed, leave, congested, take_off, fin_sent, syn_out, send_loop}
use wawo.Wcp.Send.Flight.{flight_bytes, FlightOk, flight_bytes-snoc}
use wawo.Wcp.Send.Flight.Scanned.{Sent, send_pack-Sent}

-- `dlen` is a 16-bit field.
abbrev pub AllShort : List WcbPack → Type 0
AllShort [] = Unit {0}
AllShort (p ∷ ps) = (p.header.dlen < 2 ^ 16) × AllShort ps

-- The smaller of both windows.
abbrev pub send_window : Wcb → ℕ
send_window w = wawo_min w.snd_info.cwnd w.snd_info.rwnd

-- The flight of `u` is counted, and either nothing was added to that of `w` or it is within the
-- windows.
pub record SentOk (w u : Wcb) : Type 0 where
  pub flight_ok : FlightOk u
  pub windows : send_window u ≡ send_window w
  pub in_window :
      (u.snd_nflight_bytes ≡ w.snd_nflight_bytes) ⊎ (u.snd_nflight_bytes < send_window w)

abbrev pub LoopOk : Wcb → Option Progress → Type 0
LoopOk w none = Unit {0}
LoopOk w (some (proceed u)) = SentOk w u
LoopOk w (some (leave u)) = SentOk w u

-- A pack that does not have to wait fits in the window, and no sum wraps.
pub take_off_lem :
    (now : ℕ) (p : WcbPack) (w : Wcb)
    → FlightOk w
    → p.header.dlen < 2 ^ 16
    → congested p w ≡ false
    → FlightOk (take_off now p w)
      × ((take_off now p w).snd_nflight_bytes < send_window w)
      × (send_window (take_off now p w) ≡ send_window w)
unfolding congested take_off
take_off_lem now p w f short free = (
  record {
    balanced = omega (
      arith,
      f.balanced,
      f.below,
      flight_bytes-snoc w.snd_flights (record p { sent_ts = now; sent_times = 1 }),
    );
    below = grind (arith, f, free);
    window = f.window;
  },
  grind (arith, f, free),
  refl,
)

-- States that agree on the flight and the windows.
abbrev Alike : Wcb → Wcb → Type 0
Alike w u =
    (u.snd_nflight_bytes ≡ w.snd_nflight_bytes)
    × (u.snd_info ≡ w.snd_info)
    × (u.snd_flights ≡ w.snd_flights)

Alike-FlightOk : (w u : Wcb) → Alike w u → FlightOk w → FlightOk u
Alike-FlightOk w u (n, i, l) f = record {
  balanced = n ∙ f.balanced ∙ ap flight_bytes (sym l);
  below = rw n f.below;
  window = rw i f.window;
}

Alike-SentOk : (w x u : Wcb) → Alike x u → SentOk w x → SentOk w u
Alike-SentOk w x u (n, i, l) s = record {
  flight_ok = Alike-FlightOk x u (n, i, l) s.flight_ok;
  windows = ap (λ k. wawo_min k.cwnd k.rwnd) i ∙ s.windows;
  in_window = rw n s.in_window;
}

SentOk_refl : (w : Wcb) → FlightOk w → SentOk w w
SentOk_refl w f = record { flight_ok = f; windows = refl; in_window = inl refl }

SentOk_trans : (w x u : Wcb) → SentOk w x → SentOk x u → SentOk w u
SentOk_trans w x u a b = record {
  flight_ok = b.flight_ok;
  windows = b.windows ∙ a.windows;
  in_window = joined a.in_window b.in_window;
}
  where
    joined :
        (x.snd_nflight_bytes ≡ w.snd_nflight_bytes) ⊎ (x.snd_nflight_bytes < send_window w)
        → (u.snd_nflight_bytes ≡ x.snd_nflight_bytes) ⊎ (u.snd_nflight_bytes < send_window x)
        → (u.snd_nflight_bytes ≡ w.snd_nflight_bytes) ⊎ (u.snd_nflight_bytes < send_window w)
    joined (inl e) (inl k) = inl (k ∙ e)
    joined (inr e) (inl k) = inr (rw k e)
    joined d (inr k) = inr (subst (λ n. u.snd_nflight_bytes < n) a.windows k)

LoopOk-trans : (w x : Wcb) (m : Option Progress) → SentOk w x → LoopOk x m → LoopOk w m
LoopOk-trans w x none a l = tt
LoopOk-trans w x (some (proceed u)) a l = SentOk_trans w x u a l
LoopOk-trans w x (some (leave u)) a l = SentOk_trans w x u a l

LoopOk-assert : (w : Wcb) (b : Bool) (m : Option Progress) → LoopOk w m → LoopOk w (assert b >> m)
LoopOk-assert w true m l = l
LoopOk-assert w false m l = tt

abbrev AlikeAll : Wcb → Option Wcb → Type 0
AlikeAll w none = Unit {0}
AlikeAll w (some u) = Alike w u

fin_sent-AlikeAll : (now : ℕ) (w : Wcb) → AlikeAll w (fin_sent now w)
unfolding fin_sent
fin_sent-AlikeAll now w = ground arith

syn_out-AlikeAll : (w : Wcb) → AlikeAll w (syn_out w)
unfolding syn_out
syn_out-AlikeAll w = ground arith

module _ (net : ℕ → Errno) (now : ℕ) where
  -- What follows a send that `sendto` took.
  abbrev pub flying : WcbPack → List WcbPack → WcbPack → Wcb → Option Progress
  flying p ps out w2 =
      let popped = send_loop net now ps w2 in
      let syn_popped = syn_out w2 >>= send_loop net now ps in
      if test_flag p.header.flag Flag.fin
      then (fin_sent now w2 >>= λ w3.
          some (
            proceed
              (record w3 { snd_sending = record out { sent_ts = now; sent_times = 1 } ∷ ps })))
      else (if test_flag p.header.flag Flag.syn then syn_popped else popped)

  abbrev pub in_sequence : WcbPack → Bool
  in_sequence p = not (
      test_flag p.header.flag Flag.sack
      || test_flag p.header.flag Flag.keep_alive
      || test_flag p.header.flag Flag.keep_alive_reply)

  abbrev pub answered : WcbPack → List WcbPack → WcbPack → Errno → Wcb → Option Progress
  answered p ps out ec w1 =
      if is_ok ec
      then (assert (in_sequence p) >> flying p ps out (take_off now out w1))
      else some (leave (record (send_failed ec w1) { snd_sending = out ∷ ps }))

  fin-LoopOk :
      (w w2 : Wcb) (l : List WcbPack) (m : Option Wcb)
      → SentOk w w2
      → AlikeAll w2 m
      → LoopOk w (m >>= λ w3. some (proceed (record w3 { snd_sending = l })))
  fin-LoopOk w w2 l none s a = tt
  fin-LoopOk w w2 l (some w3) s a = Alike-SentOk w w2 _ a s

  abbrev Rest : List WcbPack → Type 0
  Rest ps = (x : Wcb) → FlightOk x → LoopOk x (send_loop net now ps x)

  syn-LoopOk :
      (w w2 : Wcb) (ps : List WcbPack) (m : Option Wcb)
      → SentOk w w2
      → AlikeAll w2 m
      → Rest ps
      → LoopOk w (m >>= send_loop net now ps)
  syn-LoopOk w w2 ps none s a go = tt
  syn-LoopOk w w2 ps (some x) s a go =
      let s' : SentOk w x = Alike-SentOk w w2 x a s in
      LoopOk-trans w x (send_loop net now ps x) s' (go x s'.flight_ok)

  flying-LoopOk :
      (p : WcbPack) (ps : List WcbPack) (out : WcbPack) (w w2 : Wcb)
      → SentOk w w2
      → Rest ps
      → LoopOk w (flying p ps out w2)
  flying-LoopOk p ps out w w2 s go = elim (Bool-cases (test_flag p.header.flag Flag.fin)) [
    | inl e ↦ rw e (fin-LoopOk w w2 _ _ s (fin_sent-AlikeAll now w2))
    | inr e ↦ elim (Bool-cases (test_flag p.header.flag Flag.syn)) [
      | inl k ↦ rw (e, k) (syn-LoopOk w w2 ps _ s (syn_out-AlikeAll w2) go)
      | inr k ↦ rw (e, k) (LoopOk-trans w w2 (send_loop net now ps w2) s (go w2 s.flight_ok))
    ]
  ]

  answered-LoopOk :
      (p : WcbPack) (ps : List WcbPack) (out : WcbPack) (w : Wcb) (m : Option (Errno × Wcb))
      → Sent w m
      → FlightOk w
      → out.header.dlen < 2 ^ 16
      → congested out w ≡ false
      → Rest ps
      → LoopOk w (m >>= λ (ec, w1). answered p ps out ec w1)
  answered-LoopOk p ps out w none sent f short free go = tt
  answered-LoopOk p ps out w (some (ec, w1)) (n, i, r, l) f short free go =
      elim (Bool-cases (is_ok ec)) [
        | inl out_now ↦ rw out_now (
            LoopOk-assert w (in_sequence p) (flying p ps out (take_off now out w1))
              (flying-LoopOk p ps out w (take_off now out w1) flew go))
        | inr fails ↦ rw fails (
            Alike-SentOk w w1 _ (failing (out ∷ ps))
              (Alike-SentOk w w w1 (n, i, l) (SentOk_refl w f)))
      ]
    where
      f1 : FlightOk w1
      f1 = Alike-FlightOk w w1 (n, i, l) f

      free1 : congested out w1 ≡ false
      free1 = unfold congested in rw (n, i) free

      flew : SentOk w (take_off now out w1)
      flew =
          let (f2, less, same) = take_off_lem now out w1 f1 short free1 in
          let w_same : send_window w1 ≡ send_window w = ap (λ k. wawo_min k.cwnd k.rwnd) i in
          record {
            flight_ok = f2;
            windows = same ∙ w_same;
            in_window = inr (subst (λ k. (take_off now out w1).snd_nflight_bytes < k) w_same less);
          }

      failing : (q : List WcbPack) → Alike w1 (record (send_failed ec w1) { snd_sending = q })
      failing q = ground arith

  pub send_loop-LoopOk :
      (ps : List WcbPack) (w : Wcb) → FlightOk w → AllShort ps → LoopOk w (send_loop net now ps w)
  unfolding send_loop stamped
  send_loop-LoopOk [] w f short = Alike-SentOk w w _ (refl, refl, refl) (SentOk_refl w f)
  send_loop-LoopOk (p ∷ ps) w f (short, shorts) = elim (Bool-cases (congested p w)) [
    | inl full ↦ rw full (Alike-SentOk w w _ (refl, refl, refl) (SentOk_refl w f))
    | inr free ↦ rw free (
        LoopOk-assert w (p.header.seq == w.snd_info.next)
          (assert (leb w.snd_info.una p.header.seq) >> sent)
          (LoopOk-assert w (leb w.snd_info.una p.header.seq) sent (
            answered-LoopOk p ps (stamped net p w) w (send_pack net p w) (send_pack-Sent net p w) f
              (unfold stamped in short) (unfold stamped congested in free)
              (λ x fx. send_loop-LoopOk ps x fx shorts))))
  ]
    where
      sent : Option Progress
      sent = send_pack net p w >>= λ (ec, w1). answered p ps (stamped net p w) ec w1
