-- ===== src/Wcp/Recv/Deliver/InOrder.antt =====
-- What the reader gets of the packs received: the last loop of `WCB::check_recv` of src/net/wcp.cpp.
use wawo.Prelude.{
  ℕ, ◌+◌, ◌≤◌, ◌<◌, ◌≡◌, refl, sym, ap, ◌∙◌, true, false, Option, none, some, List, [], ◌∷◌, ◌++◌,
  arith, length, length-append, length-take, ◌⊎◌, append-nil, append_assoc, Bool-cases, inl, inr,
  ==_iff, leb, ◌==◌, Option-cases, subst,
}
use wawo.Prelude.Words.{add32}
use wawo.RingBuffer.{contents, IsValid, left_capacity}
use wawo.Wcp.Flag
use wawo.Wcp.Flag.{test_flag}
use wawo.Wcp.Pack.{WcbReceivedPack}
use wawo.Wcp.Types.{Wcb, Errno, established}
use wawo.Wcp.Net.{is_address}
use wawo.Wcp.Recv.Deliver.{
  Delivery, go, stop, deliver_one, deliver, bump_next, accept_data, deliver_data, deliver_rst,
  deliver_syn, deliver_ack, deliver_fin,
}
use wawo.Wcp.Recv.Deliver.Order.{
  payload, payloads, InSequence, next_after, Fed, Round, deliver_one-Round, store_data-Fed,
}

-- The loop consumed a front part of the list, whose packs are in sequence, and fed its payloads.
pub record Consumed (w : Wcb) (packs : List WcbReceivedPack) (u : Wcb) : Type 0 where
  pub got : List WcbReceivedPack
  pub left : List WcbReceivedPack
  pub split : packs ≡ got ++ left
  pub in_sequence : InSequence w.rcv_info.next got
  pub fed : Fed w (payloads got) (next_after w.rcv_info.next got) u

Fed-same :
    (w u : Wcb)
    → IsValid w.rb_standby
    → u.rb_standby ≡ w.rb_standby
    → u.rcv_info.next ≡ w.rcv_info.next
    → Fed w [] w.rcv_info.next u
Fed-same w u v e n = rw e record { ring_valid = v; ring_holds = sym (append-nil _); next_is = n }

held :
    {w x : Wcb} {bytes : List ℕ} {next : ℕ} {l : List WcbReceivedPack}
    → Fed w bytes next x
    → Fed w bytes next (record x { rcv_received = l })
held f = record { ring_valid = f.ring_valid; ring_holds = f.ring_holds; next_is = f.next_is }

-- One more pack in front.
Consumed-more :
    (p : WcbReceivedPack) (packs : List WcbReceivedPack) (w x u : Wcb)
    → p.header.seq ≡ w.rcv_info.next
    → Fed w (payload p) (add32 w.rcv_info.next 1) x
    → Consumed x packs u
    → Consumed w (p ∷ packs) u
Consumed-more p packs w x u e f c = record {
  got = p ∷ c.got;
  left = c.left;
  split = ap (◌∷◌ p) c.split;
  in_sequence = (e, subst (λ n. InSequence n c.got) f.next_is c.in_sequence);
  fed = record {
    ring_valid = c.fed.ring_valid;
    ring_holds =
        c.fed.ring_holds
        ∙ ap (λ xs. xs ++ payloads c.got) f.ring_holds
        ∙ append_assoc (contents w.rb_standby) (payload p) (payloads c.got);
    next_is = c.fed.next_is ∙ ap (λ n. next_after n c.got) f.next_is;
  };
}

Consumed-none :
    (packs : List WcbReceivedPack) (w u : Wcb) → Fed w [] w.rcv_info.next u → Consumed w packs u
Consumed-none packs w u f = record {
  got = [];
  left = packs;
  split = refl;
  in_sequence = tt;
  fed = f;
}

Consumed-one :
    (p : WcbReceivedPack) (packs : List WcbReceivedPack) (w u : Wcb)
    → p.header.seq ≡ w.rcv_info.next
    → Fed w (payload p) (add32 w.rcv_info.next 1) u
    → Consumed w (p ∷ packs) u
Consumed-one p packs w u e f =
    Consumed-more p packs w u u e f (Consumed-none packs u u (Fed-same u u f.ring_valid refl refl))

abbrev ConsumedBy : Wcb → List WcbReceivedPack → Option Wcb → Type 0
ConsumedBy w packs none = Unit {0}
ConsumedBy w packs (some u) = Consumed w packs u

-- What `deliver` expects of `next` on in an established connection: data of its peer, numbered
-- without a gap.
abbrev pub Expected : ℕ → Wcb → List WcbReceivedPack → Type 0
Expected next w [] = Unit {0}
Expected next w (p ∷ ps) =
    (p.header.seq ≡ next)
    × (0 < length (payload p))
    × (p.header.dlen ≤ length p.data_bytes)
    × (test_flag p.header.flag Flag.dat ≡ true)
    × (test_flag p.header.flag Flag.syn ≡ false)
    × (test_flag p.header.flag Flag.fin ≡ false)
    × (test_flag p.header.flag Flag.rst ≡ false)
    × (is_address w.remote_addr p.from ≡ true)
    × Expected (add32 next 1) w ps

-- The same packs under a state with the same peer.
Expected_same :
    (next : ℕ) (w x : Wcb) (packs : List WcbReceivedPack)
    → x.remote_addr ≡ w.remote_addr
    → Expected next w packs
    → Expected next x packs
Expected_same next w x [] e h = tt
Expected_same next w x (p ∷ ps) e (s, pos, whole, dat, syn, fin, rst, known, more) =
    (s, pos, whole, dat, syn, fin, rst, rw e known, Expected_same (add32 next 1) w x ps e more)

module _ (net : ℕ → Errno) (connectrt : Errno) (now : ℕ) where
  deliver-ConsumedBy :
      (packs : List WcbReceivedPack) (w : Wcb)
      → IsValid w.rb_standby
      → ConsumedBy w packs (deliver net connectrt now packs w)
  unfolding deliver
  deliver-ConsumedBy [] w v = Consumed-none [] w _ (Fed-same w _ v refl refl)
  deliver-ConsumedBy (p ∷ ps) w v = elim (Bool-cases (leb w.rcv_info.next p.header.seq)) [
    | inr late ↦ rw late tt
    | inl early ↦ elim (Bool-cases (p.header.seq == w.rcv_info.next)) [
      | inr gap ↦ rw (early, gap) (Consumed-none (p ∷ ps) w _ (Fed-same w _ v refl refl))
      | inl now_due ↦ elim (Option-cases (deliver_one net connectrt now p w)) [
        | inl e ↦ rw (early, now_due, e) tt
        | inr (go x, e) ↦
            rw (early, now_due, e)
              (goes ((==_iff _ _).0 now_due) x (round e) (deliver net connectrt now ps x)
                (deliver-ConsumedBy ps x (round e).ring_valid))
        | inr (stop true x, e) ↦ rw (early, now_due, e) (stops ((==_iff _ _).0 now_due) x (round e))
        | inr (stop false x, e) ↦
            rw (early, now_due, e) (stops ((==_iff _ _).0 now_due) x (round e))
      ]
    ]
  ]
    where
      round : {d : Option Delivery} → deliver_one net connectrt now p w ≡ d → Round w p d
      round e = subst (Round w p) e (deliver_one-Round net connectrt now p w v)

      goes :
          p.header.seq ≡ w.rcv_info.next
          → (x : Wcb) → Fed w (payload p) (add32 w.rcv_info.next 1) x
          → (m : Option Wcb) → ConsumedBy x ps m
          → ConsumedBy w (p ∷ ps) m
      goes e x f none c = tt
      goes e x f (some u) c = Consumed-more p ps w x u e f c

      stops :
          p.header.seq ≡ w.rcv_info.next
          → (x : Wcb) → Fed w [] w.rcv_info.next x ⊎ Fed w (payload p) (add32 w.rcv_info.next 1) x
          → {l : List WcbReceivedPack} → Consumed w (p ∷ ps) (record x { rcv_received = l })
      stops e x (inl f) = Consumed-none (p ∷ ps) w _ (held f)
      stops e x (inr f) = Consumed-one p ps w _ e (held f)

  -- `deliver`, when it meets no assertion, moves to the reader's ring exactly the payloads of a
  -- front part of the list whose packs carry the numbers that are next, each once and in order;
  -- `rcv_info.next` counts them, and the ring stays well formed.
  pub deliver_in_order :
      (packs : List WcbReceivedPack) (w u : Wcb)
      → IsValid w.rb_standby
      → deliver net connectrt now packs w ≡ some u
      → Consumed w packs u
  deliver_in_order packs w u v e = subst (ConsumedBy w packs) e (deliver-ConsumedBy packs w v)

  -- A round of such a pack goes on.
  deliver_one_expected :
      (p : WcbReceivedPack) (ps : List WcbReceivedPack) (w : Wcb)
      → IsValid w.rb_standby
      → w.state ≡ established
      → Expected w.rcv_info.next w (p ∷ ps)
      → length (payload p) ≤ left_capacity w.rb_standby
      → (u : Wcb) × (deliver_one net connectrt now p w ≡ some (go u))
        × Fed w (payload p) (add32 w.rcv_info.next 1) u
        × (u.state ≡ established)
        × (u.remote_addr ≡ w.remote_addr)
        × (left_capacity u.rb_standby + length (payload p) ≡ left_capacity w.rb_standby)
  unfolding deliver_one deliver_data accept_data deliver_rst deliver_syn deliver_ack deliver_fin
  deliver_one_expected p ps w v est (s, pos, whole, dat, syn, fin, rst, known, _) fits =
      let (x, e, fed, st, peer, left) = store_data-Fed p w v pos fits in
      (
        bump_next x,
        ground
            (arith, e, st, est, dat, syn, fin, rst, known, length-take p.header.dlen p.data_bytes),
        record {
          ring_valid = fed.ring_valid;
          ring_holds = fed.ring_holds;
          next_is = ap (λ n. add32 n 1) fed.next_is;
        },
        st ∙ est,
        peer,
        left,
      )

  -- In an established connection, when the list is data packs of the peer without a gap from the
  -- next number on, and the ring has room for all their payloads, `deliver` returns: every
  -- payload stands behind what the ring held, in order, the list is empty, and `rcv_info.next` has
  -- counted every pack.
  pub all_delivered :
      (packs : List WcbReceivedPack) (w : Wcb)
      → IsValid w.rb_standby
      → w.state ≡ established
      → Expected w.rcv_info.next w packs
      → length (payloads packs) ≤ left_capacity w.rb_standby
      → (u : Wcb) × (deliver net connectrt now packs w ≡ some u)
        × (contents u.rb_standby ≡ contents w.rb_standby ++ payloads packs)
        × (u.rcv_info.next ≡ next_after w.rcv_info.next packs)
        × (u.rcv_received ≡ [])
        × (u.state ≡ established)
  unfolding deliver
  all_delivered [] w v est h fits = (_, refl, sym (append-nil _), refl, refl, est)
  all_delivered (p ∷ ps) w v est h fits =
      let both : length (payload p) + length (payloads ps) ≤ left_capacity w.rb_standby =
        omega (arith, fits, length-append (payload p) (payloads ps)) in
      let (x, e, fed, est', peer, left) =
        deliver_one_expected p ps w v est h (omega (arith, both)) in
      let more : Expected x.rcv_info.next x ps =
        subst (λ n. Expected n x ps) (sym fed.next_is) (Expected_same _ w x ps peer h.8) in
      let (u, r, holds, n, empty, est'') =
        all_delivered ps x fed.ring_valid est' more (omega (arith, left, both)) in
      (
        u,
        ground (arith, e, h.0) ∙ r,
        holds
            ∙ ap (λ xs. xs ++ payloads ps) fed.ring_holds
            ∙ append_assoc (contents w.rb_standby) (payload p) (payloads ps),
        n ∙ ap (λ k. next_after k ps) fed.next_is,
        empty,
        est'',
      )
