-- ===== src/Mux/Flow/Window.antt =====
-- The window of a stream, include/wawo/net/peer/message/mux_cargo.hpp, between its two ends.
use wawo.Prelude.{
  ℕ, ◌≤◌, ◌<◌, ◌≡◌, refl, ap, ◌∙◌, some, List, [], ◌∷◌, ◌++◌, arith, length, Option-cases, inl, inr,
  length-append,
}
use wawo.Prelude.Words.{u32_mod}
use wawo.RingBuffer.{BytesRingbuffer, contents, left_capacity}
use wawo.RingBuffer.Contents.{fresh-IsValid, contents-fresh}
use wawo.Mux.{MuxStream, Socket, mux_stream_wnd_size, read_fields, t_data}
use wawo.Mux.Stream
use wawo.Mux.Message.{payloads, credits, payloads-append, credits-append}
use wawo.Mux.Flush.Moves.{Moves}
use wawo.Mux.Flush.Whole.{Ready-Moves, flush_lem}
use wawo.Mux.Cargo.Arrive.{data_arrive}
use wawo.Mux.Flow.{
  System, turned, Act, writes, reads, shuts_write, flushes, receives, turns, receive, receive_front,
  act, Fresh, Reachable, start, acts, IsEnd, window, Balanced,
}
use wawo.Mux.Flow.Receive.{Takes, Takes-Balanced, receive-Takes, data_room}
use wawo.Mux.Flow.Actions.{
  OnSome, OnSome-map, OnSome-bind, OnSome-some, received, Keeps, write-Keeps, read-Keeps,
  close_write-Keeps, data_arrive_lem,
}

module _ (x : System) (h : Balanced x) where
  pub kept-Balanced : (s : MuxStream) → Keeps x.a s → Balanced (record x { a = s })
  unfolding window
  kept-Balanced s k = record {
    end_a = k.end_kept;
    end_b = h.end_b;
    forth = omega (arith, h.forth, k.wnd_kept);
    back = omega (arith, h.back, k.received_kept);
  }

  pub received_bound : received x.a ≤ mux_stream_wnd_size
  unfolding window
  received_bound = omega (arith, h.back)

  pub moved-Balanced :
      {lost : List ℕ} {s : MuxStream} {so : Socket}
      → Moves lost x.a x.to_b s so
      → Balanced (record x { a = s; to_b = so })
  unfolding window
  moved-Balanced m =
      let data' =
        ap (λ ms. length (payloads ms)) m.sent
        ∙ ap (length {A = ℕ}) (payloads-append x.to_b.sent m.out) in
      let credit' = ap credits m.sent ∙ credits-append x.to_b.sent m.out in
      let counted = length-append (payloads x.to_b.sent) (payloads m.out) in
      record {
        end_a = record {
          ready = Ready-Moves h.end_a.ready m;
          rb_valid = rw (m.rb_same) (h.end_a.rb_valid);
          rb_size = ap (λ (r : BytesRingbuffer). r.m_capacity) m.rb_same ∙ h.end_a.rb_size;
        };
        end_b = h.end_b;
        forth = omega (arith, h.forth, data', counted, m.wnd);
        back = omega (arith, h.back, credit', m.credit, ap (λ r. length (contents r)) m.rb_same);
      }

  pub turned-Balanced : Balanced (turned x)
  unfolding turned
  turned-Balanced = record { end_a = h.end_b; end_b = h.end_a; forth = h.back; back = h.forth }

  front-Balanced : (ns : List (List ℕ)) → x.to_a.sent ≡ ns → OnSome Balanced (receive_front ns x)
  unfolding receive_front
  front-Balanced [] e = h
  front-Balanced (m ∷ ms) e = elim (Option-cases (read_fields m)) [
    | inl f ↦ rw f tt
    | inr ((id, t, bytes), f) ↦ rw f (
        OnSome-bind Balanced (receive t bytes x.a) _ (
          OnSome-map (Takes x h m ms e) _ (receive t bytes x.a) (Takes-Balanced x h m ms e)
            (receive-Takes x h m ms e id t bytes f)))
  ]

Fresh-IsEnd : (s : MuxStream) → Fresh s → IsEnd s
Fresh-IsEnd s f = record {
  ready = record {
    valid = rw (f.wb_fresh) (fresh-IsValid mux_stream_wnd_size (omega arith) (omega arith));
    id_in = f.id_in;
    wnd_in = omega (arith, f.wnd_whole);
    incre_in = omega (arith, f.incre_none);
  };
  rb_valid = rw (f.rb_fresh) (fresh-IsValid mux_stream_wnd_size (omega arith) (omega arith));
  rb_size = ap (λ (r : BytesRingbuffer). r.m_capacity) f.rb_fresh;
}

-- Nothing is on the way, and nothing is held.
Fresh-window :
    (s t : MuxStream) (out back : List (List ℕ))
    → Fresh s
    → Fresh t
    → out ≡ []
    → back ≡ []
    → window s out t back ≡ mux_stream_wnd_size
unfolding window payloads credits
Fresh-window s t out back f g e k = omega (
  arith,
  f.wnd_whole,
  g.incre_none,
  ap (λ ms. length (payloads ms)) e,
  ap credits k,
  ap (λ r. length (contents r)) g.rb_fresh,
  ap (length {A = ℕ}) (contents-fresh mux_stream_wnd_size),
)

pub start-Balanced :
    (x : System) → Fresh x.a → Fresh x.b → x.to_b.sent ≡ [] → x.to_a.sent ≡ [] → Balanced x
start-Balanced y a b p q = record {
  end_a = Fresh-IsEnd y.a a;
  end_b = Fresh-IsEnd y.b b;
  forth = Fresh-window y.a y.b y.to_b.sent y.to_a.sent a b p q;
  back = Fresh-window y.b y.a y.to_a.sent y.to_b.sent b a q p;
}

module _ (snd_size : ℕ) (least : 3072 ≤ snd_size) (small : snd_size < u32_mod) where
  act-Balanced : (c : Act) (x : System) → Balanced x → OnSome Balanced (act snd_size c x)
  unfolding act
  act-Balanced (writes bytes) x h = OnSome-bind Balanced (Stream.write bytes x.a) _ (
      OnSome-map _ _ (Stream.write bytes x.a) (λ r. kept-Balanced x h r.1)
        (write-Keeps x.a h.end_a bytes))
  act-Balanced (reads n) x h = OnSome-bind Balanced (Stream.read n x.a) _ (
      OnSome-map _ _ (Stream.read n x.a) (λ r. kept-Balanced x h r.2)
        (read-Keeps x.a h.end_a n (received_bound x h)))
  act-Balanced shuts_write x h = OnSome-bind Balanced (Stream.close_write x.a) _ (
      OnSome-map _ _ (Stream.close_write x.a) (λ r. kept-Balanced x h r.1)
        (close_write-Keeps x.a h.end_a))
  act-Balanced (flushes net) x h =
      let f = flush_lem net snd_size least small x.a x.to_b h.end_a.ready in
      rw (f.returns) (moved-Balanced x h f.moves)
  act-Balanced receives x h = front-Balanced x h x.to_a.sent refl
  act-Balanced turns x h = turned-Balanced x h

  -- In a run from two fresh ends, in whatever order the ends write, read, flush, shut their writing
  -- sides and receive, and whatever the sockets answer: the window of an end, the data on its way, the
  -- bytes that the other end holds, those that it has read and not told of, and the window on the way
  -- back make up MUX_STREAM_WND_SIZE, in both directions; and both ends stay within their sizes.
  pub Reachable-Balanced : (x : System) → Reachable snd_size x → Balanced x
  Reachable-Balanced x (start y a b p q) = start-Balanced y a b p q
  Reachable-Balanced x (acts c y z r e) =
      OnSome-some Balanced (act-Balanced c y (Reachable-Balanced y r)) e

  -- Data that is on the way in a run from two fresh ends never fails the assertion on its length: the
  -- ring of the other end has room for it, and stores all of it behind the bytes that it holds.
  pub data_never_over :
      (x : System) (m : List ℕ) (ms : List (List ℕ)) (id : ℕ) (bytes : List ℕ)
      → Reachable snd_size x
      → x.to_a.sent ≡ m ∷ ms
      → read_fields m ≡ some (id, t_data, bytes)
      → (length bytes ≤ left_capacity x.a.rb)
        × OnSome (λ s. contents s.rb ≡ contents x.a.rb ++ bytes) (data_arrive bytes x.a)
  data_never_over x m ms id bytes r e f =
      let h = Reachable-Balanced x r in
      let (room, stored) =
        data_arrive_lem x.a h.end_a bytes (data_room x h m ms e id t_data bytes f refl) in
      (room, OnSome-map _ _ (data_arrive bytes x.a) (λ s k. k.2) stored)
