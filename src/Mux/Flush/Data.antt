-- ===== src/Mux/Flush/Data.antt =====
-- The loop of `stream::_flush`, src/net/peer/message/mux_cargo.cpp, that sends data.
use wawo.Prelude.{
  dec_le, ℕ, suc, ◌-◌, ◌≤◌, ◌<◌, ◌≡◌, ◌⊎◌, refl, ap, ◌∙◌, true, false, some, [], ◌∷◌, ◌++◌, arith,
  length, min, take, drop, ltb, leb, ◌==◌, ◌&&◌, append-nil, Bool-cases, inl, inr, take-append-drop,
  length-take, eq_nil, drop_all,
}
use wawo.Prelude.Words.{u32_mod, sub32, add32}
use wawo.RingBuffer.{IsValid, BytesRingbuffer, contents, count, peek}
use wawo.RingBuffer.Contents.{count-eq-length}
use wawo.RingBuffer.Read.{read_lem, drop-min}
use wawo.RingBuffer.Skip.{skip_lem}
use wawo.Mux.{MuxCode, ok, is_ok, MuxStream, Socket, mux_stream_wnd_size, encode, t_data}
use wawo.Mux.Message.{payloads, payloads-message, credits-message}
use wawo.Mux.Flush.{flush_data, may_send, can_send_max, flush_fuel, send_data, send}
use wawo.Mux.Flush.Moves.{Moves, quiet}

-- What one round promises of its result.
abbrev Round : (ℕ → MuxCode) → ℕ → MuxStream → Socket → MuxStream → Socket → Type 0
Round net can s so s' so' =
    (send_data net can s so ≡ some (min can (count s.wb), (net so.tries, s', so')))
    × Moves [] s so s' so'
    × (is_ok (net so.tries) ≡ true
        → (contents s'.wb ≡ drop can (contents s.wb))
          × (s'.wb_wnd ≡ s.wb_wnd - min can (count s.wb)))

-- The message of the first `can` bytes.
data-Moves :
    (net : ℕ → MuxCode) (s : MuxStream) (so : Socket)
    → s.id < u32_mod
    → (can : ℕ) (wb' : BytesRingbuffer) → min can (count s.wb) ≤ s.wb_wnd
    → s.wb_wnd < u32_mod
    → IsValid s.wb
    → IsValid wb'
    → contents wb' ≡ drop can (contents s.wb)
    → is_ok (net so.tries) ≡ true
    → Moves [] s so
        (record s { wb = wb'; wb_wnd = sub32 s.wb_wnd (min can (count s.wb)) })
        (send net t_data (take can (contents s.wb)) s so).1
unfolding send
data-Moves net s so h can wb' le small v v' left f =
    let bytes = take can (contents s.wb) in
    let m = encode s.id t_data bytes in
    let carried : payloads (m ∷ []) ≡ bytes = payloads-message s.id h t_data bytes (omega arith) in
    let none_given = credits-message s.id h t_data bytes (omega arith) in
    record {
      out = m ∷ [];
      sent = rw f refl;
      bytes =
          append-nil _
          ∙ ap (λ xs. xs ++ contents wb') carried
          ∙ ap (◌++◌ bytes) left
          ∙ take-append-drop can (contents s.wb);
      wnd = omega (
        arith,
        ap (length {A = ℕ}) carried,
        length-take can (contents s.wb),
        count-eq-length s.wb v,
      );
      credit = omega (arith, none_given);
      rb_same = refl;
      id_same = refl;
      reads = refl;
      valid = v';
    }

module _ (net : ℕ → MuxCode) (s : MuxStream) (so : Socket) (v : IsValid s.wb)
    (h : s.id < u32_mod) where
  send_data_lem :
      (can : ℕ)
      → 0 < can
      → can ≤ s.wb_wnd
      → s.wb_wnd < u32_mod
      → 0 < count s.wb
      → (s' : MuxStream) × (so' : Socket) × Round net can s so s' so'
  unfolding send_data peek
  send_data_lem can pos le small held =
      let (r, (peeked, v', keeps, c)) = read_lem s.wb can false v in
      let (wb', skipped, v'', rest, c') = skip_lem s.wb (min can (count s.wb)) v (omega arith) in
      let count' = count-eq-length s.wb v in
      let some_sent : (ltb 0 (min can (count s.wb)) && leb (min can (count s.wb)) can) ≡ true =
        ground arith in
      let in_wnd : leb (min can (count s.wb)) s.wb_wnd ≡ true = ground arith in
      let so1 = (send net t_data (take can (contents s.wb)) s so).1 in
      let s1 = record s { wb = wb'; wb_wnd = sub32 s.wb_wnd (min can (count s.wb)) } in
      let left = rest ∙ drop-min can (count s.wb) (contents s.wb) count' in
      elim (Bool-cases (is_ok (net so.tries))) [
        | inr f ↦ (
          s,
          so1,
          (
            rw (peeked, some_sent, f) refl,
            quiet s s so so1 v (refl, refl, refl, refl, refl) (rw f refl) refl,
            (λ e. absurd (cc)),
          ),
        )
        | inl f ↦ (
          s1,
          so1,
          (
            rw (peeked, some_sent, f, skipped, in_wnd) refl,
            data-Moves net s so h can wb' (omega arith) small v v'' left f,
            (λ e. (left, omega arith)),
          ),
        )
      ]

module _ (net : ℕ → MuxCode) (s : MuxStream) (so : Socket) (v : IsValid s.wb)
    (h : s.id < u32_mod) where
  -- Where the loop ends.
  Ends : ℕ → MuxStream → Type 0
  Ends flushed s = (count s.wb ≡ 0) ⊎ ((mux_stream_wnd_size ≤ flushed) ⊎ (s.wb_wnd ≡ 0))

  ends :
      (fuel flushed : ℕ) (s : MuxStream) (so : Socket)
      → Ends flushed s
      → flush_data net (suc fuel) flushed s so ≡ some (flushed, (ok, s, so))
  unfolding flush_data Ends
  ends fuel flushed s so h = ground (arith, h)

  -- What the loop promises of its result: two rounds are enough, and unless the socket refuses, the
  -- ring is empty or the window used up.
  abbrev pub Loop : MuxStream → Socket → Type 0
  Loop s' so' =
      (n : ℕ) × (ec_o : MuxCode) × (flush_data net flush_fuel 0 s so ≡ some (n, (ec_o, s', so')))
      × Moves [] s so s' so'
      × (is_ok ec_o ≡ true → (contents s'.wb ≡ []) ⊎ (s'.wb_wnd ≡ 0))

  all_or_window :
      (s' : MuxStream)
      → IsValid s'.wb
      → contents s'.wb ≡ drop s.wb_wnd (contents s.wb)
      → s'.wb_wnd ≡ s.wb_wnd - min s.wb_wnd (count s.wb)
      → (contents s'.wb ≡ []) ⊎ (s'.wb_wnd ≡ 0)
  all_or_window s' v' e f = elim (dec_le (count s.wb) s.wb_wnd) [
    | yes le ↦ inl (e ∙ drop_all s.wb_wnd (contents s.wb) (omega (arith, count-eq-length s.wb v)))
    | no gt ↦ inr (omega arith)
  ]

  pub flush_data_lem :
      s.wb_wnd ≤ mux_stream_wnd_size → (s' : MuxStream) × (so' : Socket) × Loop s' so'
  unfolding flush_data Loop Ends
  flush_data_lem bound = elim (Bool-cases (may_send 0 s)) [
    | inr e ↦ (
      s,
      so,
      (
        0,
        ok,
        rw e refl,
        quiet s s so so v (refl, refl, refl, refl, refl) refl refl,
        (λ f. elim (Bool-cases (count s.wb == 0)) [
          | inl z ↦ inl (eq_nil (contents s.wb) (ground (arith, count-eq-length s.wb v)))
          | inr z ↦ inr (ground arith)
        ]),
      ),
    )
    | inl e ↦
        let (s', so', (sent, moves, left)) =
          send_data_lem net s so v h s.wb_wnd (ground arith) (omega arith) (omega arith)
            (ground arith) in
        let can : can_send_max 0 s ≡ s.wb_wnd = ground arith in
        elim (Bool-cases (is_ok (net so.tries))) [
          | inr f ↦
              (s', so', (0, net so.tries, rw (e, can, sent, f) refl, moves, (λ g. absurd (cc))))
          | inl f ↦
              let (bytes, wnd) = left f in
              let last = all_or_window s' moves.valid bytes wnd in
              (
                s',
                so',
                (
                  add32 0 (min s.wb_wnd (count s.wb)),
                  ok,
                  rw (e, can, sent, f) (ends 0 _ s' so' (ended s' moves.valid last)),
                  moves,
                  (λ g. last),
                ),
              )
        ]
  ]
    where
      ended :
          (s' : MuxStream)
          → IsValid s'.wb
          → (contents s'.wb ≡ []) ⊎ (s'.wb_wnd ≡ 0)
          → (count s'.wb ≡ 0)
            ⊎ ((mux_stream_wnd_size ≤ add32 0 (min s.wb_wnd (count s.wb))) ⊎ (s'.wb_wnd ≡ 0))
      ended s' v' (inl e) = inl (count-eq-length s'.wb v' ∙ ap (length {A = ℕ}) e)
      ended s' v' (inr e) = inr (inr e)
