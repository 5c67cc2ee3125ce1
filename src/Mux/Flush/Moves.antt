-- ===== src/Mux/Flush/Moves.antt =====
-- What one part of `stream::_flush`, src/net/peer/message/mux_cargo.cpp, moves from a stream to the
-- socket.
use wawo.Prelude.{
  ℕ, ◌+◌, ◌<◌, ◌^◌, ◌≡◌, ◌≢◌, refl, sym, ap, ◌∙◌, true, false, Bool, List, [], ◌∷◌, ◌++◌, arith,
  length, append-nil, append_assoc, Bool-cases, inl, inr, ltb, length-append,
}
use wawo.Prelude.Words.{u32_mod}
use wawo.Bytes.{read_u32, write_u32}
use wawo.RingBuffer.{IsValid, contents}
use wawo.Mux.{MuxCode, is_ok, MuxStream, Socket, encode, t_data, t_uwnd, t_fin, t_syn}
use wawo.Mux.Message.{
  payloads, credits, payloads-append, credits-append, payloads-message, credits-message,
  read_one-write_u32,
}
use wawo.Mux.Flush.{tell, flush_uwnd, flush_fin, flush_syn}

-- The messages `out` went to the socket. They carry the first of the bytes that wait, and each byte
-- uses up one of the window; the window that they give is taken off the bytes that were read. The
-- bytes `lost` are neither sent nor kept.
pub record Moves (lost : List ℕ) (s : MuxStream) (so : Socket) (s' : MuxStream) (so' : Socket)
    : Type 0 where
  pub out : List (List ℕ)
  pub sent : so'.sent ≡ so.sent ++ out
  pub bytes : (payloads out ++ contents s'.wb) ++ lost ≡ contents s.wb
  pub wnd : s'.wb_wnd + length (payloads out) ≡ s.wb_wnd
  pub credit : credits out + s'.rb_incre ≡ s.rb_incre
  pub rb_same : s'.rb ≡ s.rb
  pub id_same : s'.id ≡ s.id
  pub reads : s'.flag.read_shutdown ≡ s.flag.read_shutdown
  pub valid : IsValid s'.wb

-- The same parts one after the other.
pub Moves-trans :
    {l l' : List ℕ} {s s' s'' : MuxStream} {so so' so'' : Socket}
    → Moves l s so s' so'
    → Moves l' s' so' s'' so''
    → Moves (l' ++ l) s so s'' so''
Moves-trans {l} {l'} {s''} {so} a b = record {
  out = a.out ++ b.out;
  sent = b.sent ∙ ap (λ xs. xs ++ b.out) a.sent ∙ append_assoc so.sent a.out b.out;
  bytes =
      ap (λ xs. (xs ++ contents s''.wb) ++ (l' ++ l)) (payloads-append a.out b.out)
      ∙ regroup (payloads a.out) (payloads b.out) (contents s''.wb)
      ∙ ap (λ xs. (payloads a.out ++ xs) ++ l) b.bytes
      ∙ a.bytes;
  wnd = omega (
    arith,
    a.wnd,
    b.wnd,
    ap (length {A = ℕ}) (payloads-append a.out b.out),
    length-append (payloads a.out) (payloads b.out),
  );
  credit = omega (arith, a.credit, b.credit, credits-append a.out b.out);
  rb_same = b.rb_same ∙ a.rb_same;
  id_same = b.id_same ∙ a.id_same;
  reads = b.reads ∙ a.reads;
  valid = b.valid;
}
  where
    regroup : (p q c : List ℕ) → ((p ++ q) ++ c) ++ (l' ++ l) ≡ (p ++ ((q ++ c) ++ l')) ++ l
    regroup p q c = simp append_assoc

-- A change that the other side does not see.
abbrev pub SameBytes : MuxStream → MuxStream → Type 0
SameBytes s s' =
    (s'.wb ≡ s.wb)
    × (s'.wb_wnd ≡ s.wb_wnd)
    × (s'.rb ≡ s.rb)
    × (s'.id ≡ s.id)
    × (s'.flag.read_shutdown ≡ s.flag.read_shutdown)

module _ (s s' : MuxStream) (so so' : Socket) (v : IsValid s.wb) (e : SameBytes s s') where
  -- Nothing is sent.
  pub quiet : so'.sent ≡ so.sent → s'.rb_incre ≡ s.rb_incre → Moves [] s so s' so'
  quiet f g = record {
    out = [];
    sent = f ∙ sym (append-nil so.sent);
    bytes = unfold payloads in (append-nil (contents s'.wb) ∙ ap contents e.0);
    wnd = unfold payloads in omega (arith, e.1);
    credit = unfold credits in omega (arith, g);
    rb_same = e.2;
    id_same = e.3;
    reads = e.4;
    valid = rw (e.0) v;
  }

  -- A message without data is sent.
  pub told :
      (m : List ℕ)
      → so'.sent ≡ so.sent ++ m ∷ []
      → payloads (m ∷ []) ≡ []
      → credits (m ∷ []) + s'.rb_incre ≡ s.rb_incre
      → Moves [] s so s' so'
  told m f p g = record {
    out = m ∷ [];
    sent = f;
    bytes = append-nil _ ∙ ap (λ xs. xs ++ contents s'.wb) p ∙ ap contents e.0;
    wnd = omega (arith, e.1, ap (length {A = ℕ}) p);
    credit = g;
    rb_same = e.2;
    id_same = e.3;
    reads = e.4;
    valid = rw (e.0) v;
  }

same : (s : MuxStream) → SameBytes s s
same s = (refl, refl, refl, refl, refl)

module _ (net : ℕ → MuxCode) (s : MuxStream) (so : Socket) (v : IsValid s.wb)
    (h : s.id < u32_mod) where
  -- A part that sends a message without data.
  tell-Moves :
      (planned : Bool) (type : ℕ) (opack : List ℕ) (s' : MuxStream)
      → SameBytes s s'
      → type < 2 ^ 16
      → type ≢ t_data
      → credits (encode s.id type opack ∷ []) + s'.rb_incre ≡ s.rb_incre
      → Moves [] s so
          (tell net planned type opack s s' so).1
          (tell net planned type opack s s' so).2
  unfolding tell
  tell-Moves false type opack s' e k ne g = quiet s s so so v (same s) refl refl
  tell-Moves true type opack s' e k ne g = elim (Bool-cases (is_ok (net so.tries))) [
    | inr f ↦ rw f (quiet s s so _ v (same s) refl refl)
    | inl f ↦ rw f (
        told s s' so _ v e (encode s.id type opack) refl
          (payloads-message s.id h type opack k ∙ ground arith) g)
  ]

  -- The parts that send the window, a FIN and a SYN.
  pub flush_uwnd-Moves :
      s.rb_incre < u32_mod → Moves [] s so (flush_uwnd net s so).1 (flush_uwnd net s so).2
  unfolding flush_uwnd
  flush_uwnd-Moves small =
      tell-Moves (ltb 0 s.rb_incre) t_uwnd (write_u32 s.rb_incre) (record s { rb_incre = 0 })
        (same s) (omega arith) (omega arith)
        (omega (arith, given, read_one-write_u32 s.rb_incre small))
    where
      given :
          credits (encode s.id t_uwnd (write_u32 s.rb_incre) ∷ []) ≡ read_u32 (write_u32 s.rb_incre)
      given = credits-message s.id h t_uwnd (write_u32 s.rb_incre) (omega arith)

  pub flush_fin-Moves : Moves [] s so (flush_fin net s so).1 (flush_fin net s so).2
  unfolding flush_fin
  flush_fin-Moves =
      tell-Moves s.flag.plan_fin t_fin [] _ (same s) (omega arith) (omega arith)
        (omega (arith, credits-message s.id h t_fin [] (omega arith)))

  pub flush_syn-Moves : Moves [] s so (flush_syn net s so).1 (flush_syn net s so).2
  unfolding flush_syn
  flush_syn-Moves =
      tell-Moves s.flag.plan_syn t_syn [] _ (same s) (omega arith) (omega arith)
        (omega (arith, credits-message s.id h t_syn [] (omega arith)))
