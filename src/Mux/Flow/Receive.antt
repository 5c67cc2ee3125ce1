-- ===== src/Mux/Flow/Receive.antt =====
-- A message that arrives at one end of a stream, include/wawo/net/peer/mux_cargo.hpp.
use wawo.Prelude.{
  ℕ, ◌+◌, ◌≤◌, ◌≡◌, refl, sym, ap, ◌∙◌, false, none, some, List, [], ◌∷◌, ◌++◌, arith, length, ◌==◌,
  ==_iff, Bool-cases, inl, inr, length-append, append-nil,
}
use wawo.Bytes.{read_u32}
use wawo.RingBuffer.{contents}
use wawo.Mux.{MuxStream, mux_stream_wnd_size, read_fields, t_data, t_uwnd, t_rst}
use wawo.Mux.Message.{payloads, credits, data_of, credit_of}
use wawo.Mux.Cargo.Arrive.{data_arrive, uwnd_arrive}
use wawo.Mux.Flow.{System, receive, IsEnd, window, Balanced}
use wawo.Mux.Flow.Actions.{OnSome, OnSome-if, OnSome-map, data_arrive_lem, uwnd_arrive_lem}

-- The message in front of those on the way to this end.
module _ (x : System) (h : Balanced x) (m : List ℕ) (ms : List (List ℕ))
    (e : x.to_a.sent ≡ m ∷ ms) where
  front_data :
      length (payloads x.to_a.sent) ≡ length (data_of (read_fields m)) + length (payloads ms)
  unfolding payloads
  front_data =
      ap (λ ns. length (payloads ns)) e ∙ length-append (data_of (read_fields m)) (payloads ms)

  front_credit : credits x.to_a.sent ≡ credit_of (read_fields m) + credits ms
  unfolding credits
  front_credit = ap credits e

  -- What the message does to this end.
  abbrev pub Takes : MuxStream → Type 0
  Takes s =
      IsEnd s
      × (s.wb_wnd ≡ x.a.wb_wnd + credit_of (read_fields m))
      × (contents s.rb ≡ contents x.a.rb ++ data_of (read_fields m))
      × (s.rb_incre ≡ x.a.rb_incre)
      × (s.wb ≡ x.a.wb)

  pub Takes-Balanced :
      (s : MuxStream)
      → Takes s
      → Balanced (record x { a = s; to_a = record (x.to_a) { sent = ms } })
  unfolding window
  Takes-Balanced s (i, w, c, r, b) = record {
    end_a = i;
    end_b = h.end_b;
    forth = omega (arith, h.forth, w, front_credit);
    back = omega (
      arith,
      h.back,
      r,
      front_data,
      ap (length {A = ℕ}) c,
      length-append (contents x.a.rb) (data_of (read_fields m)),
    );
  }

  nothing_new :
      data_of (read_fields m) ≡ [] → contents x.a.rb ≡ contents x.a.rb ++ data_of (read_fields m)
  nothing_new e = sym (ap (◌++◌ (contents x.a.rb)) e ∙ append-nil (contents x.a.rb))

  module _ (id t : ℕ) (bytes : List ℕ) (f : read_fields m ≡ some (id, t, bytes)) where
    of_data : t ≡ t_data → (data_of (read_fields m) ≡ bytes) × (credit_of (read_fields m) ≡ 0)
    unfolding data_of credit_of
    of_data d = (rw (f, d) refl, rw (f, d) refl)

    of_uwnd :
        t ≡ t_uwnd → (data_of (read_fields m) ≡ []) × (credit_of (read_fields m) ≡ read_u32 bytes)
    unfolding data_of credit_of
    of_uwnd d = (rw (f, d) refl, rw (f, d) refl)

    of_others :
        (t == t_data) ≡ false
        → (t == t_uwnd) ≡ false
        → (data_of (read_fields m) ≡ []) × (credit_of (read_fields m) ≡ 0)
    unfolding data_of credit_of
    of_others d u = (rw (f, d) refl, rw (f, u) refl)

    -- The data of a message on the way has room.
    pub data_room : t ≡ t_data → length (contents x.a.rb) + length bytes ≤ mux_stream_wnd_size
    unfolding window
    data_room d = omega (arith, h.back, front_data, ap (length {A = ℕ}) (of_data d).0)

    credit_room : t ≡ t_uwnd → x.a.wb_wnd + read_u32 bytes ≤ mux_stream_wnd_size
    unfolding window
    credit_room d = omega (arith, h.forth, front_credit, (of_uwnd d).1)

    pub receive-Takes : OnSome Takes (receive t bytes x.a)
    unfolding receive
    receive-Takes = elim (Bool-cases (t == t_data)) [
      | inl d ↦
          let (data', credit') = of_data ((==_iff t t_data).0 d) in
          rw d (
            OnSome-if Takes x.a.flag.read_shutdown none (data_arrive bytes x.a) tt (
              OnSome-map _ Takes (data_arrive bytes x.a)
                (λ s (i, w, c, r, b).
                  (i, omega (arith, w, credit'), c ∙ ap (◌++◌ (contents x.a.rb)) (sym data'), r, b))
                (data_arrive_lem x.a h.end_a bytes (data_room ((==_iff t t_data).0 d))).1))
      | inr d ↦ elim (Bool-cases (t == t_uwnd)) [
        | inl u ↦
            let (data', credit') = of_uwnd ((==_iff t t_uwnd).0 u) in
            rw (d, u)
              (OnSome-map _ Takes (uwnd_arrive bytes x.a)
                (λ s (i, w, c, r, b).
                  (i, omega (arith, w, credit'), ap contents c ∙ nothing_new data', r, b))
                (uwnd_arrive_lem x.a h.end_a bytes (credit_room ((==_iff t t_uwnd).0 u))))
        | inr u ↦
            let (data', credit') = of_others d u in
            rw (d, u)
              (OnSome-if Takes (t == t_rst) none (some x.a) tt
                (h.end_a, omega (arith, credit'), nothing_new data', refl, refl))
      ]
    ]
