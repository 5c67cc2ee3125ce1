-- ===== src/Mux/Flush/Whole.antt =====
-- `stream::_flush` as a whole, of src/net/peer/message/mux_cargo.cpp.
use wawo.Prelude.{
  ℕ, ◌-◌, ◌≤◌, ◌<◌, ◌≡◌, ◌⊎◌, refl, ap, ◌∙◌, true, false, Bool, some, Option, List, [], ◌++◌, arith,
  length, ltb, ◌==◌, ◌&&◌, if◌then◌else◌, Bool-cases, inl, inr,
}
use wawo.Prelude.Words.{u32_mod}
use wawo.Bytes.{write_u32}
use wawo.RingBuffer.{IsValid, contents, count}
use wawo.Mux.{
  t_uwnd, MuxCode, ok, is_ok, MuxStream, StreamFlag, StreamWriteFlag, Socket, ss_closed,
  mux_stream_wnd_size,
}
use wawo.Mux.Flush.{
  Flush, tell, no_flag, unblock, flush_uwnd, flush_fin, flush_syn, flush_bytes, flush_open, flush,
}
use wawo.Mux.Flush.Moves.{
  Moves, Moves-trans, SameBytes, quiet, flush_uwnd-Moves, flush_fin-Moves, flush_syn-Moves,
}
use wawo.Mux.Flush.Determine.{Lost-none, determine_buffer_lem}
use wawo.Mux.Flush.Data.{flush_data_lem}

-- The sizes that `_flush` counts on.
pub record Ready (s : MuxStream) : Type 0 where
  pub valid : IsValid s.wb
  pub id_in : s.id < u32_mod
  pub wnd_in : s.wb_wnd ≤ mux_stream_wnd_size
  pub incre_in : s.rb_incre < u32_mod

pub Ready-Moves :
    {l : List ℕ} {s s' : MuxStream} {so so' : Socket} → Ready s → Moves l s so s' so' → Ready s'
Ready-Moves r m = record {
  valid = m.valid;
  id_in = omega (arith, m.id_same, r.id_in);
  wnd_in = omega (arith, m.wnd, r.wnd_in);
  incre_in = omega (arith, m.credit, r.incre_in);
}

-- The third and the fourth branch of a chain of tests.
module _ {a b c : Bool} (x y z w : Option Flush) (e : a ≡ false) (f : b ≡ false) where
  third : c ≡ true → (if a then x else (if b then y else (if c then z else w))) ≡ z
  third g = rw (e, f, g) refl

  pub otherwise : c ≡ false → (if a then x else (if b then y else (if c then z else w))) ≡ w
  otherwise g = rw (e, f, g) refl

unblock-Moves :
    (n : ℕ) (ec_o : MuxCode) (s : MuxStream) (so : Socket)
    → IsValid s.wb
    → Moves [] s so (unblock (n, (ec_o, s, so))).1.1 (unblock (n, (ec_o, s, so))).1.2
unfolding unblock
unblock-Moves n ec_o s so v = elim (Bool-cases (ltb 0 n && s.write_flag.write_blocked)) [
  | inl e ↦ rw e (quiet s _ so so v (refl, refl, refl, refl, refl) refl refl)
  | inr e ↦ rw e (quiet s s so so v (refl, refl, refl, refl, refl) refl refl)
]

-- The bytes that wait fit into the buffer that `_flush` chooses, or it is chosen already.
abbrev pub Fits : ℕ → MuxStream → Type 0
Fits snd_size s = (s.flag.buffer_determined ≡ true) ⊎ (length (contents s.wb) ≤ snd_size - 1024)

module _ (net : ℕ → MuxCode) (snd_size : ℕ) (least : 3072 ≤ snd_size)
    (small : snd_size < u32_mod) where
  -- What `_flush` promises of its result.
  pub record Flushes (s : MuxStream) (so : Socket) : Type 0 where
    pub wflag : StreamWriteFlag
    pub ec_o : MuxCode
    pub s' : MuxStream
    pub so' : Socket
    pub lost : List ℕ
    pub returns : flush net snd_size s so ≡ some (wflag, (ec_o, s', so'))
    pub moves : Moves lost s so s' so'
    pub kept : Fits snd_size s → lost ≡ []

  module _ (s : MuxStream) (so : Socket) (r : Ready s) where
    -- What the parts of `_flush` that go on from `s` promise of what they answer.
    abbrev Goes : Option Flush → Type 0
    Goes answer =
        (f : Flush) × (lost : List ℕ) × (answer ≡ some f)
        × Moves lost s so f.1.1 f.1.2
        × (Fits snd_size s → lost ≡ [])

    flush_bytes_lem : Goes (flush_bytes net snd_size s so)
    unfolding flush_bytes
    flush_bytes_lem =
        let (s1, lost, determined, moves1, cut) =
          determine_buffer_lem snd_size s so r.valid least small in
        let kept : Fits snd_size s → lost ≡ [] =
          λ h. Lost-none snd_size s so r.valid least small lost h cut in
        let r1 = Ready-Moves r moves1 in
        let (ec1, s2, so2) = flush_syn net s1 so in
        let moves2 = Moves-trans moves1 (flush_syn-Moves net s1 so r1.valid r1.id_in) in
        let r2 = Ready-Moves r moves2 in
        elim (Bool-cases (is_ok (flush_syn net s1 so).0)) [
          | inr e ↦ ((no_flag, (ec1, s2, so2)), lost, rw (determined, e) refl, moves2, kept)
          | inl e ↦
              let (s3, so3, (n, ec_o, looped, moves3, last)) =
                flush_data_lem net s2 so2 r2.valid r2.id_in r2.wnd_in in
              (
                unblock (n, (ec_o, s3, so3)),
                lost,
                rw (determined, e, looped) refl,
                Moves-trans moves2 (Moves-trans moves3 (unblock-Moves n ec_o s3 so3 moves3.valid)),
                kept,
              )
        ]

    still : (s' : MuxStream) → SameBytes s s' → s'.rb_incre ≡ s.rb_incre → Moves [] s so s' so
    still s' e f = quiet s s' so so r.valid e refl f

    flush_open_lem : Goes (flush_open net snd_size s so)
    unfolding flush_open
    flush_open_lem =
        elim (Bool-cases (s.rb_incre == 0 && (s.flag.write_shutdown && s.flag.read_shutdown))) [
          | inl e ↦ (
            (no_flag, (ok, record s { state = ss_closed }, so)),
            [],
            rw e refl,
            still _ (refl, refl, refl, refl, refl) refl,
            (λ h. refl),
          )
          | inr e ↦ elim (Bool-cases s.flag.write_shutdown) [
            | inl f ↦ (
              (no_flag, (ok, s, so)),
              [],
              ground (arith, e, f),
              still s (refl, refl, refl, refl, refl) refl,
              (λ h. refl),
            )
            | inr f ↦ elim (Bool-cases (count s.wb == 0)) [
              | inl g ↦ (
                (no_flag, flush_fin net s so),
                [],
                third _ _ _ _ e f g,
                flush_fin-Moves net s so r.valid r.id_in,
                (λ h. refl),
              )
              | inr g ↦
                  let (f', lost, done, moves, kept) = flush_bytes_lem in
                  (f', lost, otherwise _ _ _ _ e f g ∙ done, moves, kept)
            ]
          ]
        ]

  -- Sending the window changes neither the bytes that wait nor the flags.
  flush_uwnd_same :
      (s : MuxStream) (so : Socket)
      → ((flush_uwnd net s so).1.wb ≡ s.wb) × ((flush_uwnd net s so).1.flag ≡ s.flag)
  unfolding flush_uwnd
  flush_uwnd_same s so = by_test (ltb 0 s.rb_incre)
    where
      by_test :
          (b : Bool)
          → let s' =
              (tell net b t_uwnd (write_u32 s.rb_incre) s (record s { rb_incre = 0 }) so).1 in
            (s'.wb ≡ s.wb) × (s'.flag ≡ s.flag)
      by_test false = (refl, refl)
      by_test true = ground arith

  Fits-flush_uwnd :
      (s : MuxStream) (so : Socket) → Fits snd_size s → Fits snd_size (flush_uwnd net s so).1
  Fits-flush_uwnd s so h =
      let (e, f) = flush_uwnd_same s so in
      elim h [
        | inl d ↦ inl (ap (λ (g : StreamFlag). g.buffer_determined) f ∙ d)
        | inr le ↦ inr (rw e le)
      ]

  -- `_flush` of a stream within its sizes returns, with no assertion failed, whatever the socket
  -- answers, for a send buffer of 3072 bytes or more. The messages that the socket took carry the first
  -- of the bytes that wait, in order, each of which uses up one of the window, and a T_UWND tells of
  -- the bytes that were read or none does; and every other byte still waits, if the bytes fit into the
  -- buffer or its size was determined before.
  pub flush_lem : (s : MuxStream) (so : Socket) → Ready s → Flushes s so
  unfolding flush
  flush_lem s so r =
      let (ec1, s1, so1) = flush_uwnd net s so in
      let moves1 = flush_uwnd-Moves net s so r.valid r.id_in r.incre_in in
      elim (Bool-cases (is_ok (flush_uwnd net s so).0)) [
        | inr e ↦ record {
          wflag = no_flag;
          ec_o = ec1;
          s' = s1;
          so' = so1;
          lost = [];
          returns = rw e refl;
          moves = moves1;
          kept = (λ h. refl);
        }
        | inl e ↦
            let (f, lost, done, moves2, kept) = flush_open_lem s1 so1 (Ready-Moves r moves1) in
            record {
              wflag = f.0;
              ec_o = f.1.0;
              s' = f.1.1;
              so' = f.1.2;
              lost = lost ++ [];
              returns = rw (e, done) refl;
              moves = Moves-trans moves1 moves2;
              kept = (λ h. ap (λ xs. xs ++ []) (kept (Fits-flush_uwnd s so h)));
            }
      ]
