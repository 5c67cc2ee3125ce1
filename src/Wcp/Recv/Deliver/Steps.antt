-- ===== src/Wcp/Recv/Deliver/Steps.antt =====
-- The states of a connection as packs are delivered: the switches on `state` in the last loop of
-- `WCB::check_recv` of src/net/wcp.cpp, as a step relation.
use wawo.Prelude.{
  ◌≡◌, ◌≤◌, refl, Bool, true, false, Option, none, some, List, [], ◌∷◌, arith, leb, ◌==◌, take,
  ◌>>=◌, ◌>>◌, assert, Bool-cases, Option-cases, inl, inr, ℕ, subst, not, ◌||◌, ltb, sym,
}
use wawo.RingBuffer
use wawo.Wcp.Flag
use wawo.Wcp.Flag.{test_flag}
use wawo.Wcp.Pack.{WcbReceivedPack, Address}
use wawo.Wcp.Types.{
  Wcb, Errno, is_ok, WcbState, closed, listen, syning, syn_sent, syn_received, fin_wait_1, closing,
  fin_wait_2, established, close_wait, time_wait, last_ack, recycle,
}
use wawo.Wcp.Queue.{synack, synsynack, finack, enqueue}
use wawo.Wcp.Net.{is_address, reply_rst_to_address, inject_to_address}
use wawo.Wcp.Recv.Deliver.{
  Delivery, go, stop, if_go, aborted, bump_next, store_data, accept_data, deliver_data, deliver_rst,
  deliver_syn, connect_peer, deliver_ack, deliver_fin, deliver_one, deliver,
}

-- What one pack may do to the state.
pub data Step : WcbState → WcbState → Type 0 where
  syn_acked : Step syn_sent established
  handshake_acked : Step syn_received established
  fin_acked : Step fin_wait_1 fin_wait_2
  last_acked : Step last_ack closed
  both_acked : Step closing time_wait
  peer_fin : Step established close_wait
  crossing_fin : Step fin_wait_1 closing
  late_fin : Step fin_wait_2 time_wait
  abort : {s : WcbState} → Step s closed

pub data Reaches (s : WcbState) : WcbState → Type 0 where
  here : Reaches s s
  further : {t u : WcbState} → Reaches s t → Step t u → Reaches s u

Reaches-Reaches : {s t u : WcbState} → Reaches s t → Reaches t u → Reaches s u
Reaches-Reaches a here = a
Reaches-Reaches a (further b k) = further (Reaches-Reaches a b) k

-- Of the end of a round, and of a block.
abbrev Ends : WcbState → Option Delivery → Type 0
Ends s none = Unit {0}
Ends s (some (go u)) = Reaches s u.state
Ends s (some (stop b u)) = Reaches s u.state

abbrev Leads : WcbState → Option Wcb → Type 0
Leads s none = Unit {0}
Leads s (some u) = Reaches s u.state

Ends-if_go :
    (s : WcbState) (d : Option Delivery) (f : Wcb → Option Delivery)
    → Ends s d
    → ((u : Wcb) → Ends u.state (f u))
    → Ends s (if_go d f)
Ends-if_go s none f e k = tt
Ends-if_go s (some (stop b u)) f e k = e
Ends-if_go s (some (go u)) f e k = onwards (f u) (k u)
  where
    onwards : (d : Option Delivery) → Ends u.state d → Ends s d
    onwards none a = tt
    onwards (some (go v)) a = Reaches-Reaches e a
    onwards (some (stop b v)) a = Reaches-Reaches e a

Ends-assert : (s : WcbState) (b : Bool) (d : Option Delivery) → Ends s d → Ends s (assert b >> d)
Ends-assert s true d e = e
Ends-assert s false d e = tt

Ends-aborted : (s : WcbState) (m : Option Wcb) → Ends s (m >>= λ w'. some (stop true (aborted w')))
Ends-aborted s none = tt
Ends-aborted s (some u) = further here abort

Ends-finack :
    (s : WcbState) (m : Option Wcb) → Leads s m → Ends s (m >>= λ w'. some (go (finack w')))
unfolding finack enqueue
Ends-finack s none a = tt
Ends-finack s (some u) a = a

store_data-Ends : (p : WcbReceivedPack) (w : Wcb) → Ends w.state (store_data p w)
unfolding store_data
store_data-Ends p w =
    elim (Option-cases (RingBuffer.write (take p.header.dlen p.data_bytes) w.rb_standby)) [
      | inl e ↦ rw e tt
      | inr (r, e) ↦ rw e here
    ]

module _ (net : ℕ → Errno) (connectrt : Errno) (now : ℕ) where
  rst-Leads :
      (seq : ℕ) (to : Address) (s : WcbState) (w : Wcb)
      → Reaches s w.state
      → Leads s (reply_rst_to_address net seq to w)
  unfolding reply_rst_to_address inject_to_address
  rst-Leads seq to s w a = ground (arith, a)

  accept_data-Ends :
      (p : WcbReceivedPack) (w : Wcb) → Ends w.state (accept_data net connectrt now p w)
  unfolding accept_data
  accept_data-Ends p w = elim (Bool-cases (is_address w.remote_addr p.from)) [
    | inl known ↦ elim (Bool-cases (ltb (RingBuffer.left_capacity w.rb_standby) p.header.dlen)) [
      | inl crowded ↦ rw (known, crowded) here
      | inr fits ↦ rw (known, fits) (store_data-Ends p w)
    ]
    | inr stranger ↦
        rw stranger (Ends-aborted w.state (reply_rst_to_address net p.header.ack p.from w))
  ]

  deliver_data-Ends :
      (p : WcbReceivedPack) (w : Wcb) → Ends w.state (deliver_data net connectrt now p w)
  unfolding deliver_data
  deliver_data-Ends p w = elim (Bool-cases (p.header.dlen == 0)) [
    | inl none_at_all ↦ rw none_at_all here
    | inr some_bytes ↦ rw some_bytes (
        Ends-assert w.state (test_flag p.header.flag Flag.dat)
          (assert (not (test_flag p.header.flag Flag.syn || test_flag p.header.flag Flag.fin))
            >> accept_data net connectrt now p w)
          (Ends-assert w.state
            (not (test_flag p.header.flag Flag.syn || test_flag p.header.flag Flag.fin))
            (accept_data net connectrt now p w) (accept_data-Ends p w)))
  ]

  deliver_rst-Ends :
      (p : WcbReceivedPack) (w : Wcb) → Ends w.state (deliver_rst net connectrt now p w)
  unfolding deliver_rst
  deliver_rst-Ends p w = elim (Bool-cases (test_flag p.header.flag Flag.rst)) [
    | inl e ↦ rw e (further here abort)
    | inr e ↦ rw e here
  ]

  -- A SYN, by the state.
  syn_in :
      (p : WcbReceivedPack) (w : Wcb) (s : WcbState)
      → w.state ≡ s
      → test_flag p.header.flag Flag.syn ≡ true
      → Ends s (deliver_syn net connectrt now p w)
  unfolding deliver_syn synack synsynack enqueue
  syn_in p w syn_received e k = rw (e, k) (subst (Reaches syn_received) (sym e) here)
  syn_in p w syn_sent e k = rw (e, k) (subst (Reaches syn_sent) (sym e) here)
  syn_in p w s e k = rw (e, k) (Ends-aborted s (reply_rst_to_address net p.header.ack p.from w))

  deliver_syn-Ends :
      (p : WcbReceivedPack) (w : Wcb) → Ends w.state (deliver_syn net connectrt now p w)
  deliver_syn-Ends p w = elim (Bool-cases (test_flag p.header.flag Flag.syn)) [
    | inl k ↦ syn_in p w w.state refl k
    | inr k ↦ unfold deliver_syn in rw k here
  ]

  connect_peer-Ends :
      (p : WcbReceivedPack) (w : Wcb)
      → w.state ≡ syn_sent
      → Ends syn_sent (connect_peer net connectrt now p w)
  unfolding connect_peer
  connect_peer-Ends p w e = elim (Bool-cases (is_address w.remote_addr p.from)) [
    | inr k ↦ rw k tt
    | inl k ↦ elim (Bool-cases (is_ok connectrt)) [
      | inl c ↦ rw (k, c) (further here syn_acked)
      | inr c ↦ rw (k, c) (further here abort)
    ]
  ]

  -- An ACK, by the state.
  ack_in :
      (p : WcbReceivedPack) (w : Wcb) (s : WcbState)
      → w.state ≡ s
      → test_flag p.header.flag Flag.ack ≡ true
      → Ends s (deliver_ack net connectrt now p w)
  unfolding deliver_ack
  ack_in p w syn_sent e k = rw (e, k) (connect_peer-Ends p w e)
  ack_in p w syn_received e k = rw (e, k) (further here handshake_acked)
  ack_in p w fin_wait_1 e k = rw (e, k) (further here fin_acked)
  ack_in p w last_ack e k = rw (e, k) (further here last_acked)
  ack_in p w closing e k = rw (e, k) (further here both_acked)
  ack_in p w established e k = rw (e, k) (subst (Reaches established) (sym e) here)
  ack_in p w fin_wait_2 e k = rw (e, k) (subst (Reaches fin_wait_2) (sym e) here)
  ack_in p w close_wait e k = rw (e, k) (subst (Reaches close_wait) (sym e) here)
  ack_in p w time_wait e k = rw (e, k) (subst (Reaches time_wait) (sym e) here)
  ack_in p w s e k = rw (e, k) tt

  deliver_ack-Ends :
      (p : WcbReceivedPack) (w : Wcb) → Ends w.state (deliver_ack net connectrt now p w)
  deliver_ack-Ends p w = elim (Bool-cases (test_flag p.header.flag Flag.ack)) [
    | inl k ↦ ack_in p w w.state refl k
    | inr k ↦ unfold deliver_ack in rw k here
  ]

  -- A FIN, by the state.
  fin_in :
      (p : WcbReceivedPack) (w : Wcb) (s : WcbState)
      → w.state ≡ s
      → test_flag p.header.flag Flag.fin ≡ true
      → Ends s (deliver_fin net connectrt now p w)
  unfolding deliver_fin finack enqueue
  fin_in p w established e k = rw (e, k) (further here peer_fin)
  fin_in p w fin_wait_1 e k = rw (e, k) (further here crossing_fin)
  fin_in p w fin_wait_2 e k = rw (e, k) (further here late_fin)
  fin_in p w s e k =
      rw (e, k)
        (Ends-finack s (reply_rst_to_address net p.header.ack p.from (aborted w))
          (rst-Leads p.header.ack p.from s (aborted w) (further here abort)))

  deliver_fin-Ends :
      (p : WcbReceivedPack) (w : Wcb) → Ends w.state (deliver_fin net connectrt now p w)
  deliver_fin-Ends p w = elim (Bool-cases (test_flag p.header.flag Flag.fin)) [
    | inl k ↦ fin_in p w w.state refl k
    | inr k ↦ unfold deliver_fin in rw k here
  ]

  deliver_one-Ends :
      (p : WcbReceivedPack) (w : Wcb) → Ends w.state (deliver_one net connectrt now p w)
  unfolding deliver_one
  deliver_one-Ends p w = Ends-if_go w.state _ _ (deliver_data-Ends p w) λ w1.
      Ends-if_go w1.state _ _ (deliver_rst-Ends p (bump_next w1)) λ w2.
        Ends-if_go w2.state _ _ (deliver_syn-Ends p w2)
          λ w3. Ends-if_go w3.state _ _ (deliver_ack-Ends p w3) (deliver_fin-Ends p)

  deliver-Leads :
      (packs : List WcbReceivedPack) (w : Wcb) → Leads w.state (deliver net connectrt now packs w)
  unfolding deliver
  deliver-Leads [] w = here
  deliver-Leads (p ∷ ps) w = elim (Bool-cases (leb w.rcv_info.next p.header.seq)) [
    | inr late ↦ rw late tt
    | inl early ↦ elim (Bool-cases (p.header.seq == w.rcv_info.next)) [
      | inr gap ↦ rw (early, gap) here
      | inl due ↦ elim (Option-cases (deliver_one net connectrt now p w)) [
        | inl e ↦ rw (early, due, e) tt
        | inr (go x, e) ↦
            rw (early, due, e)
              (onwards x (round e) (deliver net connectrt now ps x) (deliver-Leads ps x))
        | inr (stop true x, e) ↦ rw (early, due, e) (round e)
        | inr (stop false x, e) ↦ rw (early, due, e) (round e)
      ]
    ]
  ]
    where
      round : {d : Option Delivery} → deliver_one net connectrt now p w ≡ d → Ends w.state d
      round e = subst (Ends w.state) e (deliver_one-Ends p w)

      onwards :
          (x : Wcb) → Reaches w.state x.state → (m : Option Wcb) → Leads x.state m → Leads w.state m
      onwards x a none b = tt
      onwards x a (some u) b = Reaches-Reaches a b

  -- Whatever packs `deliver` hands on, the state moves by the steps of the relation alone: along
  -- the handshake, along one of the two orders of closing, or to CLOSED.
  pub deliver-Reaches :
      (packs : List WcbReceivedPack) (w u : Wcb)
      → deliver net connectrt now packs w ≡ some u
      → Reaches w.state u.state
  deliver-Reaches packs w u e = subst (Leads w.state) e (deliver-Leads packs w)

-- How far a connection has come: CLOSED is the last, both orders of closing come after ESTABLISHED.
pub phase : WcbState → ℕ
phase listen = 0
phase syning = 0
phase syn_sent = 1
phase syn_received = 1
phase established = 2
phase fin_wait_1 = 3
phase close_wait = 3
phase fin_wait_2 = 4
phase closing = 4
phase last_ack = 4
phase time_wait = 5
phase recycle = 6
phase closed = 7

phase-Step : {s t : WcbState} → Step s t → phase s ≤ phase t
unfolding phase
phase-Step syn_acked = omega arith
phase-Step handshake_acked = omega arith
phase-Step fin_acked = omega arith
phase-Step last_acked = omega arith
phase-Step both_acked = omega arith
phase-Step peer_fin = omega arith
phase-Step crossing_fin = omega arith
phase-Step late_fin = omega arith
phase-Step {s = s} abort = phase-closed s
  where
    phase-closed : (s : WcbState) → phase s ≤ 7
    phase-closed s = ground arith

phase-Reaches : {s t : WcbState} → Reaches s t → phase s ≤ phase t
phase-Reaches here = omega arith
phase-Reaches (further a k) = omega (arith, phase-Reaches a, phase-Step k)

-- Delivery never moves a connection back: once a FIN took it out of ESTABLISHED it is not
-- established again, and a CLOSED one stays CLOSED.
pub deliver-phase :
    (net : ℕ → Errno) (connectrt : Errno) (now : ℕ) (packs : List WcbReceivedPack) (w u : Wcb)
    → deliver net connectrt now packs w ≡ some u
    → phase w.state ≤ phase u.state
deliver-phase net connectrt now packs w u e =
    phase-Reaches (deliver-Reaches net connectrt now packs w u e)
