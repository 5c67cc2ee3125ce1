-- ===== src/Mux/Flow/InOrder.antt =====
-- The order of the bytes of a stream of include/wawo/net/peer/mux_cargo.hpp.
use wawo.Prelude.{
  ℕ, ◌≤◌, ◌<◌, ◌≡◌, refl, sym, ap, ◌∙◌, some, List, [], ◌∷◌, ◌++◌, if◌then◌else◌, Option-cases, inl,
  inr, append_assoc, append-nil, ◌>>=◌,
}
use wawo.Prelude.Words.{u32_mod}
use wawo.RingBuffer.{BytesRingbuffer, contents}
use wawo.RingBuffer.Contents.{fresh, contents-fresh}
use wawo.Mux.{MuxCode, is_ok, MuxStream, mux_stream_wnd_size, read_fields}
use wawo.Mux.Stream
use wawo.Mux.Message.{payloads, payloads-append, data_of}
use wawo.Mux.Flush.Whole.{Fits, flush_lem}
use wawo.Mux.Flow.{
  turned, Act, writes, reads, shuts_write, flushes, receives, turns, receive, receive_front, act,
  Fresh,
}
use wawo.Mux.Flow.Actions.{
  OnSome, OnSome-and, OnSome-map, OnSome-bind, OnSome-some, write-Keeps, read-Keeps,
  close_write-Keeps,
}
use wawo.Mux.Flow.Bytes.{write-Written, read-Taken, close_write_same}
use wawo.Mux.Flow.Receive.{Takes, Takes-Balanced, receive-Takes}
use wawo.Mux.Flow.Window.{
  kept-Balanced, received_bound, moved-Balanced, turned-Balanced, start-Balanced,
}
use wawo.Mux.Flow.History.{History, record_act, InOrder, Conserved, Fitting, Recorded, start, acts}

module _ (snd_size : ℕ) (least : 3072 ≤ snd_size) (small : snd_size < u32_mod) (h : History)
    (k : Conserved h) where
  writes-Conserved : (bytes : List ℕ) → OnSome Conserved (record_act snd_size (writes bytes) h)
  unfolding record_act InOrder
  writes-Conserved bytes = OnSome-bind Conserved (Stream.write bytes h.sys.a) _ (
      OnSome-map _ _ (Stream.write bytes h.sys.a)
        (λ (ec, s) (keeps, (wrote, same)). record {
          balanced = kept-Balanced h.sys k.balanced s keeps;
          forth =
              ap (λ xs. xs ++ (if is_ok ec then bytes else [])) k.forth
              ∙ regroup (if is_ok ec then bytes else [])
              ∙ ap (λ xs. h.got_b ++ (contents h.sys.b.rb ++ (payloads h.sys.to_b.sent ++ xs)))
                  (sym wrote);
          back =
              k.back
              ∙ ap
                  (λ r.
                    h.got_a ++ (contents r ++ (payloads h.sys.to_a.sent ++ contents h.sys.b.wb)))
                  (sym same);
        })
        (OnSome-and _ _ (Stream.write bytes h.sys.a) (write-Keeps h.sys.a k.balanced.end_a bytes)
          (write-Written h.sys.a bytes k.balanced.end_a.ready.valid)))
    where
      regroup :
          (more : List ℕ)
          → (h.got_b ++ (contents h.sys.b.rb ++ (payloads h.sys.to_b.sent ++ contents h.sys.a.wb)))
              ++ more
            ≡ h.got_b
              ++ (contents h.sys.b.rb
                  ++ (payloads h.sys.to_b.sent ++ (contents h.sys.a.wb ++ more)))
      regroup more = simp append_assoc

  reads-Conserved : (n : ℕ) → OnSome Conserved (record_act snd_size (reads n) h)
  unfolding record_act InOrder
  reads-Conserved n = OnSome-bind Conserved (Stream.read n h.sys.a) _ (
      OnSome-map _ _ (Stream.read n h.sys.a)
        (λ (count, pack, s) (keeps, (taken, same)). record {
          balanced = kept-Balanced h.sys k.balanced s keeps;
          forth =
              k.forth
              ∙ ap
                  (λ r.
                    h.got_b ++ (contents h.sys.b.rb ++ (payloads h.sys.to_b.sent ++ contents r)))
                  (sym same);
          back =
              k.back
              ∙ ap (λ xs. h.got_a ++ (xs ++ (payloads h.sys.to_a.sent ++ contents h.sys.b.wb)))
                  (sym taken)
              ∙ regroup pack (contents s.rb);
        })
        (OnSome-and _ _ (Stream.read n h.sys.a)
          (read-Keeps h.sys.a k.balanced.end_a n (received_bound h.sys k.balanced))
          (read-Taken h.sys.a n k.balanced.end_a.rb_valid)))
    where
      regroup :
          (p q : List ℕ)
          → h.got_a ++ ((p ++ q) ++ (payloads h.sys.to_a.sent ++ contents h.sys.b.wb))
            ≡ (h.got_a ++ p) ++ (q ++ (payloads h.sys.to_a.sent ++ contents h.sys.b.wb))
      regroup p q = simp append_assoc

  shuts_write-Conserved : OnSome Conserved (record_act snd_size shuts_write h)
  unfolding record_act act InOrder
  shuts_write-Conserved =
      OnSome-bind Conserved
        (Stream.close_write h.sys.a >>= λ (ec, s). some (record (h.sys) { a = s })) _
        (OnSome-bind _ (Stream.close_write h.sys.a) _ (
          OnSome-map _ _ (Stream.close_write h.sys.a)
            (λ (ec, s) (keeps, (w, r)). record {
              balanced = kept-Balanced h.sys k.balanced s keeps;
              forth =
                  k.forth
                  ∙ ap
                      (λ b.
                        h.got_b
                        ++ (contents h.sys.b.rb ++ (payloads h.sys.to_b.sent ++ contents b)))
                      (sym w);
              back =
                  k.back
                  ∙ ap
                      (λ b.
                        h.got_a
                        ++ (contents b ++ (payloads h.sys.to_a.sent ++ contents h.sys.b.wb)))
                      (sym r);
            })
            (OnSome-and _ _ (Stream.close_write h.sys.a)
              (close_write-Keeps h.sys.a k.balanced.end_a) (close_write_same h.sys.a))))

  flushes-Conserved :
      (net : ℕ → MuxCode)
      → Fits snd_size h.sys.a
      → OnSome Conserved (record_act snd_size (flushes net) h)
  unfolding record_act act InOrder
  flushes-Conserved net fits =
      let f = flush_lem net snd_size least small h.sys.a h.sys.to_b k.balanced.end_a.ready in
      let m = f.moves in
      let all_kept : payloads m.out ++ contents f.s'.wb ≡ contents h.sys.a.wb =
        sym (append-nil _)
        ∙ ap (λ l. (payloads m.out ++ contents f.s'.wb) ++ l) (sym (f.kept fits))
        ∙ m.bytes in
      let on_way : payloads f.so'.sent ≡ payloads h.sys.to_b.sent ++ payloads m.out =
        ap payloads m.sent ∙ payloads-append h.sys.to_b.sent m.out in
      rw (f.returns) (record {
        balanced = moved-Balanced h.sys k.balanced m;
        forth =
            k.forth
            ∙ ap (λ xs. h.got_b ++ (contents h.sys.b.rb ++ xs))
                (ap (◌++◌ (payloads h.sys.to_b.sent)) (sym all_kept)
                  ∙ sym
                      (append_assoc (payloads h.sys.to_b.sent) (payloads m.out) (contents f.s'.wb))
                  ∙ ap (λ xs. xs ++ contents f.s'.wb) (sym on_way));
        back =
            k.back
            ∙ ap (λ r. h.got_a ++ (contents r ++ (payloads h.sys.to_a.sent ++ contents h.sys.b.wb)))
                (sym m.rb_same);
      })

  turns-Conserved : OnSome Conserved (record_act snd_size turns h)
  unfolding record_act turned
  turns-Conserved = record {
    balanced = turned-Balanced h.sys k.balanced;
    forth = k.back;
    back = k.forth;
  }

  -- The message in front has arrived.
  took-Conserved :
      (m : List ℕ) (ms : List (List ℕ)) (e : h.sys.to_a.sent ≡ m ∷ ms) (s : MuxStream)
      → Takes h.sys k.balanced m ms e s
      → Conserved
          (record h { sys = record (h.sys) { a = s; to_a = record (h.sys.to_a) { sent = ms } } })
  unfolding InOrder payloads
  took-Conserved m ms e s t =
      let (i, w, c, r, b) = t in
      record {
        balanced = Takes-Balanced h.sys k.balanced m ms e s t;
        forth =
            k.forth
            ∙ ap (λ q. h.got_b ++ (contents h.sys.b.rb ++ (payloads h.sys.to_b.sent ++ contents q)))
                (sym b);
        back =
            k.back
            ∙ ap (λ ns. h.got_a ++ (contents h.sys.a.rb ++ (payloads ns ++ contents h.sys.b.wb))) e
            ∙ regroup (data_of (read_fields m))
            ∙ ap (λ xs. h.got_a ++ (xs ++ (payloads ms ++ contents h.sys.b.wb))) (sym c);
      }
    where
      regroup :
          (d : List ℕ)
          → h.got_a ++ (contents h.sys.a.rb ++ ((d ++ payloads ms) ++ contents h.sys.b.wb))
            ≡ h.got_a ++ ((contents h.sys.a.rb ++ d) ++ (payloads ms ++ contents h.sys.b.wb))
      regroup d = simp append_assoc

  receives-Conserved : OnSome Conserved (record_act snd_size receives h)
  unfolding record_act act
  receives-Conserved =
      OnSome-bind Conserved (receive_front h.sys.to_a.sent h.sys) _ (front h.sys.to_a.sent refl)
    where
      front :
          (ns : List (List ℕ))
          → h.sys.to_a.sent ≡ ns
          → OnSome (λ x. Conserved (record h { sys = x })) (receive_front ns h.sys)
      front [] e = unfold receive_front in k
      front (m ∷ ms) e =
          unfold receive_front in
          elim (Option-cases (read_fields m)) [
            | inl f ↦ rw f tt
            | inr ((id, t, bytes), f) ↦ rw f (
                OnSome-bind _ (receive t bytes h.sys.a) _ (
                  OnSome-map _ _ (receive t bytes h.sys.a) (took-Conserved m ms e)
                    (receive-Takes h.sys k.balanced m ms e id t bytes f)))
          ]

-- Nothing is written yet.
start-InOrder :
    (wrote : List ℕ) (s : MuxStream) (out : List (List ℕ)) (t : MuxStream) (got : List ℕ)
    → Fresh s
    → Fresh t
    → out ≡ []
    → wrote ≡ []
    → got ≡ []
    → InOrder wrote s out t got
unfolding InOrder payloads
start-InOrder wrote s out t got f g p q r =
    q
    ∙ sym (
        ap (λ xs. xs ++ (contents t.rb ++ (payloads out ++ contents s.wb))) r
        ∙ ap (λ xs. xs ++ (payloads out ++ contents s.wb)) (none_held g.rb_fresh)
        ∙ ap (λ ms. payloads ms ++ contents s.wb) p
        ∙ none_held f.wb_fresh)
  where
    none_held : {b : BytesRingbuffer} → b ≡ fresh mux_stream_wnd_size → contents b ≡ []
    none_held e = ap contents e ∙ contents-fresh mux_stream_wnd_size

module _ (snd_size : ℕ) (least : 3072 ≤ snd_size) (small : snd_size < u32_mod) where
  record_act-Conserved :
      (c : Act) (h : History)
      → Conserved h
      → Fitting snd_size c h
      → OnSome Conserved (record_act snd_size c h)
  unfolding Fitting
  record_act-Conserved (writes bytes) h k f = writes-Conserved snd_size least small h k bytes
  record_act-Conserved (reads n) h k f = reads-Conserved snd_size least small h k n
  record_act-Conserved shuts_write h k f = shuts_write-Conserved snd_size least small h k
  record_act-Conserved (flushes net) h k f = flushes-Conserved snd_size least small h k net f
  record_act-Conserved receives h k f = receives-Conserved snd_size least small h k
  record_act-Conserved turns h k f = turns-Conserved snd_size least small h k

  -- In a run from two fresh ends in which, at each flush, the bytes that wait fit into the buffer or
  -- its size was determined before, whatever the sockets answer: the bytes that `write` took at one end
  -- are, in order, those that `read` gave out at the other, those that the other holds, those on the
  -- way, and those that wait. None is lost, doubled or moved, and the windows are balanced.
  pub Recorded-Conserved : (h : History) → Recorded snd_size h → Conserved h
  Recorded-Conserved h (start g a b p q r t u v) = record {
    balanced = start-Balanced g.sys a b p q;
    forth = start-InOrder g.wrote_a g.sys.a g.sys.to_b.sent g.sys.b g.got_b a b p r v;
    back = start-InOrder g.wrote_b g.sys.b g.sys.to_a.sent g.sys.a g.got_a b a q u t;
  }
  Recorded-Conserved h (acts c g g' r f e) =
      OnSome-some Conserved (record_act-Conserved c g (Recorded-Conserved g r) f) e
