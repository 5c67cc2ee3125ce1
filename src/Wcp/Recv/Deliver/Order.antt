-- ===== src/Wcp/Recv/Deliver/Order.antt =====
-- What the last loop of `WCB::check_recv` of src/net/wcp.cpp hands to the reader: the payloads of
-- consecutive packs, in order.
use wawo.Prelude.{
  ◌>>◌, assert, subst, not, ◌||◌, ℕ, ◌+◌, ◌≤◌, ◌<◌, ◌≡◌, refl, sym, ap, ◌∙◌, Bool, true, false,
  Option, none, some, List, [], ◌∷◌, ◌++◌, arith, length, length-take, length-append, take,
  take_all, append-nil, Bool-cases, inl, inr, ◌⊎◌, ==_iff, ltb, ◌==◌, ◌>>=◌, Option-cases,
}
use wawo.Prelude.Words.{add32}
use wawo.RingBuffer.{BytesRingbuffer, contents, IsValid, left_capacity}
use wawo.RingBuffer.Contents.{count-add-left, count-eq-length}
use wawo.RingBuffer.Write.{write_lem, write_nothing}
use wawo.Wcp.Flag
use wawo.Wcp.Flag.{test_flag}
use wawo.Wcp.Pack.{WcbReceivedPack, Address}
use wawo.Wcp.Types.{Wcb, Errno}
use wawo.Wcp.Queue.{enqueue, synack, synsynack, finack}
use wawo.Wcp.Net.{reply_rst_to_address, inject_to_address, is_address}
use wawo.Wcp.Recv.Deliver.{
  Delivery, go, stop, if_go, aborted, store_data, accept_data, deliver_data, bump_next, deliver_rst,
  deliver_syn, connect_peer, deliver_ack, deliver_fin, deliver_one,
}

-- The bytes of a pack that count, and those of a list of packs.
abbrev pub payload : WcbReceivedPack → List ℕ
payload p = take p.header.dlen p.data_bytes

abbrev pub payloads : List WcbReceivedPack → List ℕ
payloads [] = []
payloads (p ∷ ps) = payload p ++ payloads ps

-- Packs with consecutive numbers from `next` on, as u32_t counts.
abbrev pub InSequence : ℕ → List WcbReceivedPack → Type 0
InSequence next [] = Unit {0}
InSequence next (p ∷ ps) = (p.header.seq ≡ next) × InSequence (add32 next 1) ps

abbrev pub next_after : ℕ → List WcbReceivedPack → ℕ
next_after next [] = next
next_after next (p ∷ ps) = next_after (add32 next 1) ps

-- The reader's side of `u` is that of `w` with `bytes` behind it, and the next number is `next`.
pub record Fed (w : Wcb) (bytes : List ℕ) (next : ℕ) (u : Wcb) : Type 0 where
  pub ring_valid : IsValid u.rb_standby
  pub ring_holds : contents u.rb_standby ≡ contents w.rb_standby ++ bytes
  pub next_is : u.rcv_info.next ≡ next

-- A round that fed nothing, or the pack.
abbrev pub Round : Wcb → WcbReceivedPack → Option Delivery → Type 0
Round w p none = Unit {0}
Round w p (some (go u)) = Fed w (payload p) (add32 w.rcv_info.next 1) u
Round w p (some (stop b u)) =
    Fed w [] w.rcv_info.next u ⊎ Fed w (payload p) (add32 w.rcv_info.next 1) u

-- What a later part of a round keeps.
abbrev Same : Wcb → Wcb → Type 0
Same w u = (u.rb_standby ≡ w.rb_standby) × (u.rcv_info.next ≡ w.rcv_info.next)

abbrev SameRound : Wcb → Option Delivery → Type 0
SameRound w none = Unit {0}
SameRound w (some (go u)) = Same w u
SameRound w (some (stop b u)) = Same w u

abbrev SameState : Wcb → Option Wcb → Type 0
SameState w none = Unit {0}
SameState w (some u) = Same w u

-- The room of a ring that took `bs`.
room_after :
    (r r' : BytesRingbuffer) (bs : List ℕ)
    → IsValid r
    → IsValid r'
    → contents r' ≡ contents r ++ bs
    → r'.m_capacity ≡ r.m_capacity
    → left_capacity r' + length bs ≡ left_capacity r
room_after r r' bs v v' holds cap = omega (
  arith,
  count-add-left r v,
  count-add-left r' v',
  count-eq-length r v,
  count-eq-length r' v',
  ap length holds,
  length-append (contents r) bs,
  cap,
)

-- The payload of a pack that fits, behind what the ring holds.
pub store_data-Fed :
    (p : WcbReceivedPack) (w : Wcb)
    → IsValid w.rb_standby
    → 0 < length (payload p)
    → length (payload p) ≤ left_capacity w.rb_standby
    → (u : Wcb) × (store_data p w ≡ some (go u))
      × Fed w (payload p) w.rcv_info.next u
      × (u.state ≡ w.state)
      × (u.remote_addr ≡ w.remote_addr)
      × (left_capacity u.rb_standby + length (payload p) ≡ left_capacity w.rb_standby)
unfolding store_data
store_data-Fed p w v pos fits =
    let (rb, (called, v', holds, cap)) = write_lem w.rb_standby (payload p) v pos in
    rw called (
      _,
      refl,
      record {
        ring_valid = v';
        ring_holds =
            holds
            ∙ ap (◌++◌ (contents w.rb_standby))
                (take_all (left_capacity w.rb_standby) (payload p) fits);
        next_is = refl;
      },
      refl,
      refl,
      room_after _ rb (payload p) v v'
          (holds ∙ ap (◌++◌ (contents w.rb_standby)) (take_all _ (payload p) fits)) cap,
    )

module _ (net : ℕ → Errno) (connectrt : Errno) (now : ℕ) where
  rst-Same : (seq : ℕ) (to : Address) (w : Wcb) → SameState w (reply_rst_to_address net seq to w)
  unfolding reply_rst_to_address inject_to_address
  rst-Same seq to w = ground arith

  deliver_rst-Same :
      (p : WcbReceivedPack) (w : Wcb) → SameRound w (deliver_rst net connectrt now p w)
  unfolding deliver_rst
  deliver_rst-Same p w = ground arith

  -- An RST is answered and the loop stops.
  stopped-Same :
      (m : Option Wcb) (w : Wcb)
      → SameState (aborted w) m
      → SameRound w (m >>= λ w'. some (stop true w'))
  stopped-Same none w s = tt
  stopped-Same (some u) w s = s

  stranger-Same :
      (m : Option Wcb) (w : Wcb)
      → SameState w m
      → SameRound w (m >>= λ w'. some (stop true (aborted w')))
  stranger-Same none w s = tt
  stranger-Same (some u) w s = s

  deliver_syn-Same :
      (p : WcbReceivedPack) (w : Wcb) → SameRound w (deliver_syn net connectrt now p w)
  unfolding deliver_syn synack synsynack enqueue
  deliver_syn-Same p w = ground (arith, stranger-Same _ w (rst-Same p.header.ack p.from w))

  deliver_ack-Same :
      (p : WcbReceivedPack) (w : Wcb) → SameRound w (deliver_ack net connectrt now p w)
  unfolding deliver_ack connect_peer
  deliver_ack-Same p w = ground arith

  finacked-Same :
      (m : Option Wcb) (w : Wcb) → SameState w m → SameRound w (m >>= λ w'. some (go (finack w')))
  unfolding finack enqueue
  finacked-Same none w s = tt
  finacked-Same (some u) w s = s

  deliver_fin-Same :
      (p : WcbReceivedPack) (w : Wcb) → SameRound w (deliver_fin net connectrt now p w)
  unfolding deliver_fin finack enqueue
  deliver_fin-Same p w =
      ground (arith, finacked-Same _ w (rst-Same p.header.ack p.from (aborted w)))

  if_go-Same :
      (d : Option Delivery) (f : Wcb → Option Delivery) (w : Wcb)
      → SameRound w d
      → ((u : Wcb) → SameRound u (f u))
      → SameRound w (if_go d f)
  if_go-Same none f w s t = tt
  if_go-Same (some (stop b u)) f w s t = s
  if_go-Same (some (go u)) f w s t = trans_round (f u) (t u)
    where
      trans_round : (d : Option Delivery) → SameRound u d → SameRound w d
      trans_round none k = tt
      trans_round (some (go v)) k = (k.0 ∙ s.0, k.1 ∙ s.1)
      trans_round (some (stop b v)) k = (k.0 ∙ s.0, k.1 ∙ s.1)

  -- What the payload's part of a round does.
  abbrev DataRound : Wcb → WcbReceivedPack → Option Delivery → Type 0
  DataRound w p none = Unit {0}
  DataRound w p (some (go u)) = Fed w (payload p) w.rcv_info.next u
  DataRound w p (some (stop b u)) = Fed w [] w.rcv_info.next u

  Fed-nothing : (w u : Wcb) → IsValid w.rb_standby → Same w u → Fed w [] w.rcv_info.next u
  Fed-nothing w u v (same, n) =
      rw same record { ring_valid = v; ring_holds = sym (append-nil _); next_is = n }

  stranger-DataRound :
      (p : WcbReceivedPack) (m : Option Wcb) (w : Wcb)
      → IsValid w.rb_standby
      → SameState w m
      → DataRound w p (m >>= λ w'. some (stop true (aborted w')))
  stranger-DataRound p none w v s = tt
  stranger-DataRound p (some u) w v s = Fed-nothing w (aborted u) v s

  stored-DataRound :
      (p : WcbReceivedPack) (w : Wcb)
      → IsValid w.rb_standby
      → p.header.dlen ≤ left_capacity w.rb_standby
      → DataRound w p (store_data p w)
  stored-DataRound p w v fits = elim (Bool-cases (length (payload p) == 0)) [
    | inr pos ↦
        let (u, e, fed, s1, s2, s3) =
          store_data-Fed p w v (grind arith)
            (omega (arith, length-take p.header.dlen p.data_bytes)) in
        rw e fed
    | inl none_at_all ↦ empty ((==_iff _ _).0 none_at_all)
  ]
    where
      empty : length (payload p) ≡ 0 → DataRound w p (store_data p w)
      empty e = unfold store_data in rw (write_nothing w.rb_standby (payload p) e) tt

  assert-DataRound :
      (p : WcbReceivedPack) (w : Wcb) (b : Bool) (d : Option Delivery)
      → DataRound w p d
      → DataRound w p (assert b >> d)
  assert-DataRound p w true d r = r
  assert-DataRound p w false d r = tt

  accept_data-DataRound :
      (p : WcbReceivedPack) (w : Wcb)
      → IsValid w.rb_standby
      → DataRound w p (accept_data net connectrt now p w)
  unfolding accept_data
  accept_data-DataRound p w v = elim (Bool-cases (is_address w.remote_addr p.from)) [
    | inl known ↦ elim (Bool-cases (ltb (left_capacity w.rb_standby) p.header.dlen)) [
      | inl crowded ↦ rw (known, crowded) (Fed-nothing w _ v (refl, refl))
      | inr fits ↦ rw (known, fits) (stored-DataRound p w v (grind arith))
    ]
    | inr stranger ↦ rw stranger (stranger-DataRound p _ w v (rst-Same p.header.ack p.from w))
  ]

  deliver_data-DataRound :
      (p : WcbReceivedPack) (w : Wcb)
      → IsValid w.rb_standby
      → DataRound w p (deliver_data net connectrt now p w)
  unfolding deliver_data
  deliver_data-DataRound p w v = elim (Bool-cases (p.header.dlen == 0)) [
    | inl none_at_all ↦ rw none_at_all (nothing ((==_iff _ _).0 none_at_all))
    | inr some_bytes ↦ rw some_bytes (
        assert-DataRound p w (test_flag p.header.flag Flag.dat)
          (assert (not (test_flag p.header.flag Flag.syn || test_flag p.header.flag Flag.fin))
            >> accept_data net connectrt now p w)
          (assert-DataRound p w
            (not (test_flag p.header.flag Flag.syn || test_flag p.header.flag Flag.fin))
            (accept_data net connectrt now p w) (accept_data-DataRound p w v)))
  ]
    where
      nothing : p.header.dlen ≡ 0 → Fed w (payload p) w.rcv_info.next w
      nothing e = rw e (Fed-nothing w w v (refl, refl))

  Fed-then :
      {w u z : Wcb} {bytes : List ℕ}
      → Fed w bytes w.rcv_info.next u
      → Same (bump_next u) z
      → Fed w bytes (add32 w.rcv_info.next 1) z
  Fed-then fed s = rw (s.0) record {
    ring_valid = fed.ring_valid;
    ring_holds = fed.ring_holds;
    next_is = s.1 ∙ ap (λ n. add32 n 1) fed.next_is;
  }

  -- The rest of a round behind the payload.
  after_data :
      (p : WcbReceivedPack) (w u : Wcb) (d : Option Delivery)
      → Fed w (payload p) w.rcv_info.next u
      → SameRound (bump_next u) d
      → Round w p d
  after_data p w u none fed s = tt
  after_data p w u (some (go z)) fed s = Fed-then fed s
  after_data p w u (some (stop b z)) fed s = inr (Fed-then fed s)

  pub deliver_one-Round :
      (p : WcbReceivedPack) (w : Wcb)
      → IsValid w.rb_standby
      → Round w p (deliver_one net connectrt now p w)
  unfolding deliver_one
  deliver_one-Round p w v = elim (Option-cases (deliver_data net connectrt now p w)) [
    | inl e ↦ rw e tt
    | inr (stop b u, e) ↦ rw e (inl (fed e))
    | inr (go u, e) ↦ rw e (
        after_data p w u _ (fed e) (
          if_go-Same _ _ (bump_next u) (deliver_rst-Same p (bump_next u)) λ w2.
            if_go-Same _ _ w2 (deliver_syn-Same p w2)
              λ w3. if_go-Same _ _ w3 (deliver_ack-Same p w3) (deliver_fin-Same p)))
  ]
    where
      fed : {d : Option Delivery} → deliver_data net connectrt now p w ≡ d → DataRound w p d
      fed e = subst (DataRound w p) e (deliver_data-DataRound p w v)
