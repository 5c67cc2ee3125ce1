-- ===== src/Socket/Flush.antt =====
-- `_flush` of src/net/socket.cpp: no byte is lost, doubled or moved, and what waits goes out.
use wawo.RingBuffer
use wawo.Prelude.{
  ℕ, zero, suc, ◌+◌, ◌<◌, ◌≡◌, refl, ap, ◌∙◌, true, false, Bool, some, List, ◌++◌, arith, length,
  take, drop, ltb, ◌==◌, not, ◌&&◌, if◌then◌else◌, Bool-cases, inl, inr, append_assoc, append-nil,
  take-take, take_cong, take-append-drop, length-drop, length-take,
}
use wawo.RingBuffer.{BytesRingbuffer, IsValid, contents, count, peek, capacity, left_capacity}
use wawo.RingBuffer.Read.{read_lem}
use wawo.RingBuffer.Skip.{skip_lem}
use wawo.RingBuffer.Contents.{count-eq-length}
use wawo.Socket.{SocketCode, ok, SysSent, DataSocket, base_send, is_ok, flush_loop, flush}
use wawo.Socket.Kernel.{IsKernel, Took, base_send_lem}
use wawo.Socket.Send.{passed}

module _ (sys : ℕ → ℕ → SysSent) (k : IsKernel sys) where
  -- What one call of `_flush` promises: what the socket took over is unchanged, in order.
  pub record Flushes (s s' : DataSocket) : Type 0 where
    pub kept : passed s' ≡ passed s
    pub ring : IsValid s'.m_sb
    pub mode : s'.nonblocking ≡ s.nonblocking
    pub limit : s'.snd_size ≡ s.snd_size

  stops :
      (fuel n : ℕ) (ec : SocketCode) (s : DataSocket)
      → 0 < fuel
      → is_ok ec ≡ false
      → flush_loop sys fuel n ec s ≡ some (n, ec, s)
  unfolding flush_loop
  stops zero n ec s pos e = absurd (omega arith)
  stops (suc fuel) n ec s pos e = ground (arith, e)

  abbrev Loops : ℕ → ℕ → SocketCode → DataSocket → Type 0
  Loops fuel flushed ec_o s =
      (n : ℕ) × (ec : SocketCode) × (s' : DataSocket) × (flush_loop sys fuel flushed ec_o s
        ≡ some (n, ec, s'))
      × Flushes s s'
      × (is_ok ec ≡ true → count s'.m_sb ≡ 0)

  module _ (s : DataSocket) (v : IsValid s.m_sb) (sent : ℕ) (s' : DataSocket)
      (t : Took (take s.snd_size (contents s.m_sb)) sent s s') where
    ring_same : s'.m_sb ≡ s.m_sb
    ring_same = ap (λ (r : DataSocket). r.m_sb) t.others

    -- Nothing was sent.
    none_sent : sent ≡ 0 → Flushes s s'
    none_sent z = record {
      kept =
          ap (λ r. s'.wire ++ contents r) ring_same
          ∙ ap (λ w. w ++ contents s.m_sb)
              (t.taken
                ∙ ap (λ n. s.wire ++ take n (take s.snd_size (contents s.m_sb))) z
                ∙ append-nil s.wire);
      ring = rw ring_same v;
      mode = ap (λ (r : DataSocket). r.nonblocking) t.others;
      limit = ap (λ (r : DataSocket). r.snd_size) t.others;
    }

    -- What was sent is taken out of the ring.
    some_sent :
        (sb' : BytesRingbuffer)
        → IsValid sb'
        → contents sb' ≡ drop sent (contents s'.m_sb)
        → Flushes s (record s' { m_sb = sb' })
    some_sent sb' u rest = record {
      kept =
          ap (◌++◌ s'.wire) (rest ∙ ap (λ r. drop sent (contents r)) ring_same)
          ∙ ap (λ w. w ++ drop sent (contents s.m_sb))
              (t.taken
                ∙ ap (◌++◌ s.wire) (
                    take-take sent s.snd_size (contents s.m_sb)
                    ∙ take_cong (contents s.m_sb)
                        (omega (arith, t.some_of, length-take s.snd_size (contents s.m_sb)))))
          ∙ append_assoc s.wire (take sent (contents s.m_sb)) (drop sent (contents s.m_sb))
          ∙ ap (◌++◌ s.wire) (take-append-drop sent (contents s.m_sb));
      ring = u;
      mode = ap (λ (r : DataSocket). r.nonblocking) t.others;
      limit = ap (λ (r : DataSocket). r.snd_size) t.others;
    }

  Flushes-trans : {s s' s'' : DataSocket} → Flushes s s' → Flushes s' s'' → Flushes s s''
  Flushes-trans f g = record {
    kept = g.kept ∙ f.kept;
    ring = g.ring;
    mode = g.mode ∙ f.mode;
    limit = g.limit ∙ f.limit;
  }

  -- A round, by what its three calls answer.
  round_eq :
      (fuel flushed m : ℕ) (ec_o ec : SocketCode) (s s' : DataSocket) (tsb : List ℕ) (sent : ℕ)
      (r sb' : BytesRingbuffer) (b : Bool)
      → (not (count s.m_sb == 0) && is_ok ec_o) ≡ true
      → RingBuffer.read s.snd_size false s.m_sb ≡ some (m, tsb, r)
      → base_send sys tsb s ≡ some (sent, ec, s')
      → RingBuffer.skip sent s'.m_sb ≡ some sb'
      → ltb 0 sent ≡ b
      → flush_loop sys (suc fuel) flushed ec_o s
        ≡ flush_loop sys fuel (flushed + sent) ec (if b then record s' { m_sb = sb' } else s')
  unfolding flush_loop peek
  round_eq fuel flushed m ec_o ec s s' tsb sent r sb' b e p q w z =
      rw (flush_loop, e, p, q, w)
        (ap
          (λ b.
            flush_loop sys fuel (flushed + sent) ec (if b then record s' { m_sb = sb' } else s'))
          z)

  -- A call that sent nothing of some bytes has failed.
  not_whole :
      {sent n : ℕ} (b : Bool) → (b ≡ true → sent ≡ n) → ltb 0 sent ≡ false → 0 < n → b ≡ false
  not_whole false h p pos = refl
  not_whole true h p pos = absurd (ground (arith, h refl))

  one_round :
      (fuel flushed : ℕ) (ec_o : SocketCode) (s : DataSocket)
      → ((flushed' : ℕ) (ec : SocketCode) (s' : DataSocket)
          → IsValid s'.m_sb
          → 0 < s'.snd_size
          → count s'.m_sb < fuel
          → Loops fuel flushed' ec s')
      → IsValid s.m_sb
      → 0 < s.snd_size
      → count s.m_sb < suc fuel
      → (not (count s.m_sb == 0) && is_ok ec_o) ≡ true
      → Loops (suc fuel) flushed ec_o s
  unfolding flush_loop peek
  one_round fuel flushed ec_o s more v pos le e =
      let (r, (peeked, v', keeps, c)) = read_lem s.m_sb s.snd_size false v in
      let tsb = take s.snd_size (contents s.m_sb) in
      let held = count-eq-length s.m_sb v in
      let counted = length-take s.snd_size (contents s.m_sb) in
      let some_bytes : 0 < length tsb = ground (arith, e, held, counted) in
      let (sent, ec, s', done, t, whole) = base_send_lem sys k tsb s some_bytes in
      let same = ring_same s v sent s' t in
      let v1 : IsValid s'.m_sb = rw same v in
      let (sb', skipped, u, rest, cap) =
        skip_lem s'.m_sb sent v1 (omega (arith, t.some_of, counted, held, ap count same)) in
      elim (Bool-cases (ltb 0 sent)) [
        | inl p ↦
            let fl = some_sent s v sent s' t sb' u rest in
            let less : count sb' < fuel = ground (
              arith,
              p,
              count-eq-length sb' u,
              ap (length {A = ℕ}) rest,
              length-drop sent (contents s'.m_sb),
              count-eq-length s'.m_sb v1,
              ap count same,
            ) in
            let (n, ec', s'', looped, fl', last) =
              more (flushed + sent) ec (record s' { m_sb = sb' }) u (omega (arith, fl.limit))
                less in
            (
              n,
              ec',
              s'',
              round_eq fuel flushed _ ec_o ec s s' tsb sent r sb' true e peeked done skipped p
                  ∙ looped,
              Flushes-trans fl fl',
              last,
            )
        | inr p ↦
            let not_ok : is_ok ec ≡ false = not_whole (is_ok ec) whole p some_bytes in
            (
              flushed + sent,
              ec,
              s',
              round_eq fuel flushed _ ec_o ec s s' tsb sent r sb' false e peeked done skipped p
                  ∙ (stops fuel (flushed + sent) ec s' (ground (arith, e)) not_ok),
              none_sent s v sent s' t (ground arith),
              (λ h. absurd (cc)),
            )
      ]

  flush_loop_lem :
      (fuel flushed : ℕ) (ec_o : SocketCode) (s : DataSocket)
      → IsValid s.m_sb
      → 0 < s.snd_size
      → count s.m_sb < fuel
      → Loops fuel flushed ec_o s
  unfolding flush_loop
  flush_loop_lem zero flushed ec_o s v pos le = absurd (omega arith)
  flush_loop_lem (suc fuel) flushed ec_o s v pos le =
      elim (Bool-cases (not (count s.m_sb == 0) && is_ok ec_o)) [
        | inr e ↦ (
          flushed,
          ec_o,
          s,
          rw (flush_loop, e) refl,
          record { kept = refl; ring = v; mode = refl; limit = refl },
          (λ h. ground (arith, e, h)),
        )
        | inl e ↦ one_round fuel flushed ec_o s (flush_loop_lem fuel) v pos le e
      ]

  -- `_flush` of a nonblocking socket returns, for a kernel that takes a byte or more of each call that
  -- it takes any of and that no signal interrupts, and a send buffer of a size over 0. What the socket
  -- took over stays the same sequence of bytes, of which more may be with the kernel; and if the
  -- answer is OK, none waits.
  pub flush-Flushes :
      (s : DataSocket)
      → IsValid s.m_sb
      → 0 < s.snd_size
      → s.nonblocking ≡ true
      → (n : ℕ) × (ec : SocketCode) × (s' : DataSocket) × (flush sys s ≡ some (n, ec, s'))
        × Flushes s s'
        × (is_ok ec ≡ true → count s'.m_sb ≡ 0)
  unfolding flush
  flush-Flushes s v pos mode =
      let (n, ec, s', done, f, last) =
        flush_loop_lem (suc (suc (count s.m_sb))) 0 ok s v pos (omega arith) in
      (n, ec, s', ground (arith, mode, done), f, last)
