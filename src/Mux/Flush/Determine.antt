-- ===== src/Mux/Flush/Determine.antt =====
-- The choice of the buffer's size in `stream::_flush`, src/net/peer/message/mux_cargo.cpp.
use wawo.Prelude.{
  ℕ, ◌+◌, ◌-◌, ◌≤◌, ◌<◌, ◌≡◌, ◌⊎◌, refl, sym, ap, ◌∙◌, true, false, Bool, some, List, [], ◌++◌,
  arith, length, take, drop, ◌==◌, ==_iff, not, append-nil, Bool-cases, inl, inr, take-append-drop,
  drop_all,
}
use wawo.Prelude.Words.{u32_mod}
use wawo.RingBuffer.{BytesRingbuffer, IsValid, contents, count, capacity}
use wawo.RingBuffer.Contents.{count-eq-length, count-add-left, fresh, init-IsValid}
use wawo.Mux.{MuxStream, Socket}
use wawo.Mux.Message.{payloads, credits}
use wawo.Mux.Flush.{buffer_size, determine_if, determine_buffer}
use wawo.Mux.Flush.Buffer.{move_bytes_lem}
use wawo.Mux.Flush.Moves.{Moves, quiet}

-- The stream with its buffer determined.
abbrev determined : MuxStream → BytesRingbuffer → MuxStream
determined s r = record s { flag = record (s.flag) { buffer_determined = true }; wb = r }

module _ (snd_size : ℕ) (s : MuxStream) (so : Socket) (v : IsValid s.wb) (least : 3072 ≤ snd_size)
    (small : snd_size < u32_mod) where
  -- What the new buffer does not hold.
  pub cut_off : List ℕ
  cut_off = drop (snd_size - 1024) (contents s.wb)

  size_lem :
      ((buffer_size snd_size s ≡ capacity s.wb) × (capacity s.wb ≤ snd_size - 1024))
      ⊎ ((buffer_size snd_size s ≡ snd_size - 1024) × (snd_size - 1024 < capacity s.wb))
  unfolding buffer_size
  size_lem = ground arith

  fits :
      (size : ℕ)
      → size ≡ snd_size - 1024
      → size < capacity s.wb
      → (s' : MuxStream) × (determine_if true size s ≡ some s')
        × Moves (drop size (contents s.wb)) s so s' so
        × (contents s'.wb ≡ take size (contents s.wb))
  unfolding determine_if
  fits size e lt =
      let cap = count-add-left s.wb v in
      let (made, u, none_held, c) = init-IsValid size (omega arith) (omega arith) in
      let (r, (moved, w, kept, c')) =
        move_bytes_lem (count s.wb) s.wb (fresh size) v u (omega (arith, count-eq-length s.wb v)) in
      let other : (size == capacity s.wb) ≡ false = ground arith in
      let held : contents r ≡ take size (contents s.wb) =
        kept
        ∙ ap (λ xs. take (size + 1 - 1) (xs ++ contents s.wb)) none_held
        ∙ ap (λ k. take k (contents s.wb)) (omega arith) in
      (
        determined s r,
        rw (other, made, moved) refl,
        record {
          out = [];
          sent = sym (append-nil so.sent);
          bytes =
              unfold payloads in
              (ap (λ xs. xs ++ drop size (contents s.wb)) held
                ∙ take-append-drop size (contents s.wb));
          wnd = unfold payloads in omega arith;
          credit = unfold credits in omega arith;
          rb_same = refl;
          id_same = refl;
          reads = refl;
          valid = w;
        },
        held,
      )

  -- The bytes that are lost: none once the size is determined, or if the bytes fit.
  pub Lost : List ℕ → Type 0
  Lost lost =
      (lost ≡ [])
      ⊎ ((s.flag.buffer_determined ≡ false) × (lost ≡ drop (snd_size - 1024) (contents s.wb)))

  pub Lost-none :
      (lost : List ℕ)
      → (s.flag.buffer_determined ≡ true) ⊎ (length (contents s.wb) ≤ snd_size - 1024)
      → Lost lost
      → lost ≡ []
  unfolding Lost
  Lost-none lost h (inl e) = e
  Lost-none lost (inl d) (inr (f, e)) = absurd (cc)
  Lost-none lost (inr le) (inr (f, e)) = e ∙ drop_all (snd_size - 1024) (contents s.wb) le

  pub determine_buffer_lem :
      (s' : MuxStream) × (lost : List ℕ) × (determine_buffer snd_size s ≡ some s')
      × Moves lost s so s' so
      × Lost lost
  unfolding determine_if Lost
  determine_buffer_lem = elim (Bool-cases s.flag.buffer_determined) [
    | inl d ↦
        (s, [], opened d, quiet s s so so v (refl, refl, refl, refl, refl) refl refl, inl refl)
    | inr d ↦ elim size_lem [
      | inl (e, le) ↦ (
        determined s s.wb,
        [],
        opened d ∙ ap (λ k. determine_if true k s) e ∙ keeps,
        quiet s (determined s s.wb) so so v (refl, refl, refl, refl, refl) refl refl,
        inl refl,
      )
      | inr (e, lt) ↦
          let (s', done, moves, held) = fits (snd_size - 1024) refl lt in
          (
            s',
            drop (snd_size - 1024) (contents s.wb),
            opened d ∙ ap (λ k. determine_if true k s) e ∙ done,
            moves,
            inr (d, refl),
          )
    ]
  ]
    where
      keeps : determine_if true (capacity s.wb) s ≡ some (determined s s.wb)
      keeps = unfold determine_if in rw ((==_iff (capacity s.wb) (capacity s.wb)).1 refl) refl

      opened :
          {b : Bool}
          → s.flag.buffer_determined ≡ b
          → determine_buffer snd_size s ≡ determine_if (not b) (buffer_size snd_size s) s
      opened d =
          unfold determine_buffer in ap (λ b. determine_if (not b) (buffer_size snd_size s) s) d

-- At its first flush a stream goes over to a buffer of the size of the socket's, less 1024. Bytes that
-- `write` took and that do not fit are dropped: the first `snd_size - 1024` of them stay.
pub first_flush_cuts :
    (snd_size : ℕ) (s : MuxStream)
    → IsValid s.wb
    → 3072 ≤ snd_size
    → snd_size < u32_mod
    → s.flag.buffer_determined ≡ false
    → snd_size - 1024 < length (contents s.wb)
    → (s' : MuxStream) × (determine_buffer snd_size s ≡ some s')
      × (contents s'.wb ≡ take (snd_size - 1024) (contents s.wb))
unfolding determine_buffer
first_flush_cuts snd_size s v least small d over =
    let so : Socket = record { tries = 0; sent = []; connected = true } in
    elim (size_lem snd_size s so v least small) [
      | inl (e, le) ↦ absurd (omega (arith, whole))
      | inr (e, lt) ↦
          let (s', done, moves, held) =
            fits snd_size s so v least small (snd_size - 1024) refl lt in
          (
            s',
            ap (λ b. determine_if (not b) (buffer_size snd_size s) s) d
                ∙ ap (λ k. determine_if true k s) e
                ∙ done,
            held,
          )
    ]
  where
    whole : length (contents s.wb) ≤ capacity s.wb
    whole = omega (arith, count-eq-length s.wb v, count-add-left s.wb v)
