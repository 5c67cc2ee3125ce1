-- ===== src/Wcp/Pump/Packs.antt =====
-- Datagrams of packs, received by the functions of src/net/wcp.cpp.
use wawo.Prelude.{
  ℕ, ◌≡◌, refl, sym, ap, ◌∙◌, true, Option, some, none, List, [], ◌∷◌, ◌++◌, arith, length, leb,
  le→leb, append-nil, append_assoc,
}
use wawo.Wcp.Pack.{Address, WcbPack, WcbReceivedPack, wcp_header_len, pack_to_udpmessage}
use wawo.Wcp.Pack.Codec.{IsSendable, message, length-message, from-to_udpmessage}
use wawo.Wcp.Types.{Wcb, ok, e_socket_recv_block}
use wawo.Wcp.Pump.{datagram, inpack, pump_packs, recv_pack}

-- The pack as it is received.
abbrev pub arrived : Address → WcbPack → WcbReceivedPack
arrived from p = record { header = p.header; data_bytes = p.data_bytes; from = from }

abbrev pub all_arrived : Address → List WcbPack → List WcbReceivedPack
all_arrived from [] = []
all_arrived from (p ∷ ps) = arrived from p ∷ all_arrived from ps

-- The datagrams are those that `pack_to_udpmessage` makes of the packs, from one sender.
abbrev pub AllSent : Address → List WcbPack → List (List ℕ × Address) → Type 0
AllSent from [] [] = Unit {0}
AllSent from [] (d ∷ ds) = ⊥
AllSent from (p ∷ ps) [] = ⊥
AllSent from (p ∷ ps) ((m, a) ∷ ds) =
    (IsSendable p × (pack_to_udpmessage p ≡ some m) × (a ≡ from)) × AllSent from ps ds

bytes_of : Option (List ℕ) → List ℕ
bytes_of none = []
bytes_of (some bytes) = bytes

inpack_lem :
    (p : WcbPack) (m : List ℕ) (a from : Address)
    → IsSendable p
    → pack_to_udpmessage p ≡ some m
    → a ≡ from
    → inpack m a ≡ some (arrived from p)
unfolding inpack bytes_of
inpack_lem p m a from v e f =
    let (sent, received) = from-to_udpmessage p from v in
    let same : m ≡ message p.header p.data_bytes = ap bytes_of (sym e ∙ sent) in
    let long : leb wcp_header_len (length (message p.header p.data_bytes)) ≡ true =
      le→leb _ _ (omega (arith, length-message p.header p.data_bytes)) in
    rw (same, f, long) received

pump_packs_onto :
    (ps : List WcbPack) (ds : List (List ℕ × Address)) (from : Address) (w : Wcb)
    → AllSent from ps ds
    → pump_packs ds e_socket_recv_block w
      ≡ some (record w { received_vec_standby = w.received_vec_standby ++ all_arrived from ps })
unfolding pump_packs
pump_packs_onto [] [] from w v =
    ap (λ xs. some (record w { received_vec_standby = xs }))
      (sym (append-nil w.received_vec_standby))
pump_packs_onto [] (d ∷ ds) from w v = absurd v
pump_packs_onto (p ∷ ps) [] from w v = absurd v
pump_packs_onto (p ∷ ps) ((m, a) ∷ ds) from w v =
    let ((u, e, f), rest) = v in
    rw (inpack_lem p m a from u e f) (
      pump_packs_onto ps ds from
        (record w { received_vec_standby = w.received_vec_standby ++ (arrived from p ∷ []) }) rest
      ∙ ap (λ xs. some (record w { received_vec_standby = xs }))
          (append_assoc w.received_vec_standby (arrived from p ∷ []) (all_arrived from ps)))

-- Packs that can be sent are received as they were sent: of the datagrams that waited in the
-- socket, all from one sender, `pump_packs` adds the packs that were sent, in order, to those that
-- wait for `check_recv`, and changes nothing else of the block; and `recv_pack` answers OK with the
-- pack of a datagram.
pub pump_packs-recv_pack :
    (ps : List WcbPack) (ds : List (List ℕ × Address)) (p : WcbPack) (m : List ℕ) (from : Address)
    (w : Wcb)
    → AllSent from ps ds
    → IsSendable p
    → pack_to_udpmessage p ≡ some m
    → (pump_packs ds e_socket_recv_block w
        ≡ some (record w { received_vec_standby = w.received_vec_standby ++ all_arrived from ps }))
      × (recv_pack (datagram m from) ≡ some (ok, some (arrived from p)))
unfolding recv_pack
pump_packs-recv_pack ps ds p m from w v u e =
    (pump_packs_onto ps ds from w v, rw (inpack_lem p m from from u e refl) refl)
