-- ===== src/Wcp/Send/Flight/Returns.antt =====
-- When the loop of `WCB::check_send` of src/net/wcp.cpp meets no assertion.
use wawo.Prelude.{
  ℕ, ◌+◌, ◌≤◌, ◌<◌, ◌^◌, ◌≡◌, refl, false, Option, none, some, List, [], ◌∷◌, arith, Bool-cases,
  inl, inr, ◌⊎◌, Option-cases, subst, length,
}
use wawo.Wcp.Flag
use wawo.Wcp.Flag.{test_flag}
use wawo.Wcp.Pack.{WcbPack, Address, wcp_mdu, pack_to_udpmessage}
use wawo.Wcp.Types.{Wcb, Errno, is_ok}
use wawo.Wcp.Net.{send_pack, stamped, inject_to_address}
use wawo.Wcp.Send.{Progress, proceed, leave, congested, take_off, send_loop}
use wawo.Wcp.Send.Flight.{FlightOk}
use wawo.Wcp.Send.Flight.Sent.{AllShort, SentOk}
use wawo.Wcp.Send.Flight.Handed.{send_loop_lem}

-- A pack of data that fits a message.
pub record IsDataPack (p : WcbPack) : Type 0 where
  pub fits : length p.data_bytes ≤ wcp_mdu
  pub no_sack : test_flag p.header.flag Flag.sack ≡ false
  pub no_probe : test_flag p.header.flag Flag.keep_alive ≡ false
  pub no_reply : test_flag p.header.flag Flag.keep_alive_reply ≡ false
  pub no_fin : test_flag p.header.flag Flag.fin ≡ false
  pub no_syn : test_flag p.header.flag Flag.syn ≡ false

-- Packs of data whose numbers go on from `next`, without wrapping.
abbrev pub Queued : ℕ → List WcbPack → Type 0
Queued next [] = Unit {0}
Queued next (p ∷ ps) =
    IsDataPack p × (p.header.seq ≡ next) × (next + 1 < 2 ^ 32) × Queued (next + 1) ps

pub message_lem :
    (p : WcbPack)
    → length p.data_bytes ≤ wcp_mdu
    → (message : List ℕ) × (pack_to_udpmessage p ≡ some message)
message_lem p fits = elim (Option-cases (pack_to_udpmessage p)) [
  | inl e ↦ absurd (refused e)
  | inr r ↦ r
]
  where
    refused : pack_to_udpmessage p ≡ none → ⊥
    refused e = unfold pack_to_udpmessage in ground (arith, e, fits)

-- The pack goes to the socket.
pub send_pack_lem :
    (net : ℕ → Errno) (p : WcbPack) (w : Wcb) (to : Address)
    → length p.data_bytes ≤ wcp_mdu
    → w.remote_addr ≡ some to
    → (message : List ℕ) × (pack_to_udpmessage (stamped net p w) ≡ some message)
      × (send_pack net p w ≡ some (net (length w.outp), record w { outp = (message, to) ∷ w.outp }))
unfolding send_pack inject_to_address stamped
send_pack_lem net p w to fits e =
    let (message, k) = message_lem (stamped net p w) fits in (message, k, ground (arith, e, k))

abbrev Returned : Option Progress → Type 0
Returned none = ⊥
Returned (some r) = Unit {0}

result : (m : Option Progress) → Returned m → (r : Progress) × (m ≡ some r)
result none a = absurd a
result (some r) a = (r, refl)

module _ (net : ℕ → Errno) (now : ℕ) where
  send_loop-Returned :
      (ps : List WcbPack) (w : Wcb) (to : Address)
      → w.remote_addr ≡ some to
      → w.snd_info.una ≤ w.snd_info.next
      → Queued w.snd_info.next ps
      → Returned (send_loop net now ps w)
  unfolding send_loop
  send_loop-Returned [] w to e u q = tt
  send_loop-Returned (p ∷ ps) w to e u (d, s, small, more) = elim (Bool-cases (congested p w)) [
    | inl full ↦ rw full tt
    | inr free ↦
        let (message, _, k) = send_pack_lem net p w to d.fits e in
        elim (Bool-cases (is_ok (net (length w.outp)))) [
          | inr fails ↦ ground (arith, free, k, fails, s, u)
          | inl out ↦
              let w1 : Wcb = record w { outp = (message, to) ∷ w.outp } in
              let after : Returned (send_loop net now ps (take_off now (stamped net p w) w1)) =
                send_loop-Returned ps _ to (unfold take_off in e) (unfold take_off in omega arith)
                  (unfold take_off in subst (λ n. Queued n ps) (omega arith) more) in
              ground (
                arith, free, k, out, s, u, d.no_sack, d.no_probe, d.no_reply, d.no_fin, d.no_syn,
                after,
              )
        ]
  ]

  -- With data packs waiting whose numbers go on from `snd_info.next` and do not wrap, and a peer,
  -- the loop of `check_send` returns; the flight stays counted exactly and within the windows,
  -- whatever `sendto` answers.
  pub send_loop_returns :
      (ps : List WcbPack) (w : Wcb) (to : Address)
      → w.remote_addr ≡ some to
      → w.snd_info.una ≤ w.snd_info.next
      → Queued w.snd_info.next ps
      → FlightOk w
      → AllShort ps
      → (u : Wcb) × ((send_loop net now ps w ≡ some (proceed u))
          ⊎ (send_loop net now ps w ≡ some (leave u)))
        × SentOk w u
  send_loop_returns ps w to e una q f short =
      let (r, k) = result (send_loop net now ps w) (send_loop-Returned ps w to e una q) in ended r k
    where
      ended :
          (r : Progress)
          → send_loop net now ps w ≡ some r
          → (u : Wcb) × ((send_loop net now ps w ≡ some (proceed u))
              ⊎ (send_loop net now ps w ≡ some (leave u)))
            × SentOk w u
      ended (proceed u) k = (u, inl k, (send_loop_lem net now ps w u f short (inl k)).0)
      ended (leave u) k = (u, inr k, (send_loop_lem net now ps w u f short (inr k)).0)
