-- ===== src/Wcp/Send/Flight/Log.antt =====
-- The messages that `WCB::check_send` and `WCB::check_flights` of src/net/wcp.cpp hand to `sendto`.
use wawo.Prelude.{
  ℕ, ◌+◌, ◌<◌, ◌≡◌, refl, sym, ap, ◌∙◌, true, false, Option, none, some, List, [], ◌∷◌, ◌++◌, arith,
  Option-cases, inl, inr, subst, length,
}
use wawo.Wcp.Pack.{WcbPack, Address, pack_to_udpmessage}
use wawo.Wcp.Types.{Wcb, Errno, is_ok}
use wawo.Wcp.Rtt.{ntotal_bytes}
use wawo.Wcp.Net.{send_pack, stamped, inject_to_address}
use wawo.Wcp.Send.{fin_sent, syn_out}
use wawo.Wcp.Send.Flight.{flight_bytes, FlightOk}
use wawo.Wcp.Send.Flight.Sent.{send_window}

-- The messages, the last one first.
abbrev pub Log : Type 0
Log = List (List ℕ × Address)

-- A pack that goes out for one that waits: its number and its data are the same.
pub record GoesFor (p q : WcbPack) : Type 0 where
  pub same_seq : q.header.seq ≡ p.header.seq
  pub same_flag : q.header.flag ≡ p.header.flag
  pub same_dlen : q.header.dlen ≡ p.header.dlen
  pub same_data : q.data_bytes ≡ p.data_bytes

-- From the waiting packs to the ones that fly, with the bytes on the flight and the messages before
-- and after: each that flies was encoded and taken by `sendto` while it fit in the window, and no
-- message was handed over besides theirs but one at the end that `sendto` refused.
pub data Handed (net : ℕ → Errno) (window : ℕ) (peer : Option Address)
    : List WcbPack → List WcbPack → ℕ → Log → Log → Type 0 where
  stops : {ps : List WcbPack} {n : ℕ} {o : Log} → Handed net window peer ps [] n o o
  refused :
      {ps : List WcbPack} {n : ℕ} {o : Log} (message : List ℕ × Address)
      → is_ok (net (length o)) ≡ false
      → Handed net window peer ps [] n o (message ∷ o)
  flies :
      {ps qs : List WcbPack} {n : ℕ} {o o' : Log} (p q : WcbPack) (message : List ℕ) (to : Address)
      → peer ≡ some to
      → GoesFor p q
      → pack_to_udpmessage q ≡ some message
      → is_ok (net (length o)) ≡ true
      → n + ntotal_bytes q < window
      → Handed net window peer ps qs (n + ntotal_bytes q) ((message, to) ∷ o) o'
      → Handed net window peer (p ∷ ps) (q ∷ qs) n o o'

-- The packs of `ps` that went on the flight.
abbrev pub Flown : (ℕ → Errno) → List WcbPack → Wcb → Wcb → Type 0
Flown net ps w u =
    (sent : List WcbPack) × (u.snd_flights ≡ w.snd_flights ++ sent)
    × Handed net (send_window w) w.remote_addr ps sent w.snd_nflight_bytes w.outp u.outp

-- States that agree on all that matters here.
pub record AlikeOut (w u : Wcb) : Type 0 where
  pub nflight : u.snd_nflight_bytes ≡ w.snd_nflight_bytes
  pub info : u.snd_info ≡ w.snd_info
  pub flights : u.snd_flights ≡ w.snd_flights
  pub peer : u.remote_addr ≡ w.remote_addr
  pub log : u.outp ≡ w.outp

pub AlikeOut-FlightOk : (w u : Wcb) → AlikeOut w u → FlightOk w → FlightOk u
AlikeOut-FlightOk w u a f = record {
  balanced = a.nflight ∙ f.balanced ∙ ap flight_bytes (sym a.flights);
  below = rw a.nflight f.below;
  window = rw a.info f.window;
}

abbrev pub AlikeOutAll : Wcb → Option Wcb → Type 0
AlikeOutAll w none = Unit {0}
AlikeOutAll w (some u) = AlikeOut w u

pub fin_sent-AlikeOutAll : (now : ℕ) (w : Wcb) → AlikeOutAll w (fin_sent now w)
unfolding fin_sent
fin_sent-AlikeOutAll now w = ground arith

pub syn_out-AlikeOutAll : (w : Wcb) → AlikeOutAll w (syn_out w)
unfolding syn_out
syn_out-AlikeOutAll w = ground arith

-- What a pack that is sent comes to: an assertion, or one more message.
pub send_cases :
    (net : ℕ → Errno) (p : WcbPack) (w : Wcb) (P : Option (Errno × Wcb) → Type 0)
    → P none
    → ((message : List ℕ) (to : Address)
        → w.remote_addr ≡ some to
        → pack_to_udpmessage (stamped net p w) ≡ some message
        → P (some (net (length w.outp), record w { outp = (message, to) ∷ w.outp })))
    → P (send_pack net p w)
unfolding send_pack inject_to_address
send_cases net p w P fails sends = elim (Option-cases w.remote_addr) [
  | inl e ↦ subst P (sym (no_message e)) fails
  | inr (to, e) ↦ elim (Option-cases (pack_to_udpmessage (stamped net p w))) [
    | inl k ↦ subst P (sym (not_coded to e k)) fails
    | inr (message, k) ↦ subst P (sym (out_to message to e k)) (sends message to e k)
  ]
]
  where
    no_message : w.remote_addr ≡ none → send_pack net p w ≡ none
    no_message e = rw e refl

    not_coded :
        (to : Address)
        → w.remote_addr ≡ some to
        → pack_to_udpmessage (stamped net p w) ≡ none
        → send_pack net p w ≡ none
    not_coded to e k = ground (arith, e, k)

    out_to :
        (message : List ℕ) (to : Address)
        → w.remote_addr ≡ some to
        → pack_to_udpmessage (stamped net p w) ≡ some message
        → send_pack net p w ≡ some (net (length w.outp), record w { outp = (message, to) ∷ w.outp })
    out_to message to e k = ground (arith, e, k)
