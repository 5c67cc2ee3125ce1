-- ===== src/RingBuffer/Refine.antt =====
-- The ring of include/wawo/bytes_ringbuffer.hpp beside a queue of bytes of bounded length.
use wawo.Prelude.{
  ℕ, ◌-◌, ◌≡◌, refl, true, false, Option, none, some, List, [], ◌∷◌, ◌++◌, arith, length, min, take,
  drop, leb, leb→le, ◌==◌, not, ap, ◌∙◌, Bool-cases, inl, inr, ◌>>=◌, ◌>>◌, assert,
}
use wawo.RingBuffer.{
  BytesRingbuffer, IsValid, contents, count, capacity, left_capacity, read, peek, skip, write,
}
use wawo.RingBuffer.Contents.{count-eq-length, count-add-left}
use wawo.RingBuffer.Skip.{skip_lem}
use wawo.RingBuffer.Read.{read_lem}
use wawo.RingBuffer.Write.{write_lem}

-- The calls of a client.
pub data Call : Type 0 where
  puts : List ℕ → Call
  gets : ℕ → Call
  peeks : ℕ → Call
  skips : ℕ → Call

-- The count that a call returns, and the bytes that it hands out.
abbrev pub Reply : Type 0
Reply = ℕ × List ℕ

-- One call on the ring; `none` is a failed assertion.
pub call : Call → BytesRingbuffer → Option (Reply × BytesRingbuffer)
call (puts bytes) r = write bytes r >>= λ (n, r'). some ((n, []), r')
call (gets s) r = read s true r >>= λ (n, out, r'). some ((n, out), r')
call (peeks s) r = peek s r >>= λ (n, out, r'). some ((n, out), r')
call (skips s) r = skip s r >>= λ r'. some ((s, []), r')

-- The same call on a queue of at most `cap` bytes.
pub queue_call : ℕ → Call → List ℕ → Option (Reply × List ℕ)
queue_call cap (puts bytes) q =
    assert (not (length bytes == 0))
    >> some ((min (length bytes) (cap - length q), []), q ++ take (cap - length q) bytes)
queue_call cap (gets s) q = some ((min s (length q), take s q), drop s q)
queue_call cap (peeks s) q = some ((min s (length q), take s q), q)
queue_call cap (skips s) q = assert (leb s (length q)) >> some ((s, []), drop s q)

-- The replies to a sequence of calls, up to the first failed assertion.
pub run : List Call → BytesRingbuffer → List (Option Reply)
run [] r = []
run (c ∷ cs) r = elim (call c r) [ none ↦ none ∷ [] | some (a, r') ↦ some a ∷ run cs r' ]

pub queue_run : ℕ → List Call → List ℕ → List (Option Reply)
queue_run cap [] q = []
queue_run cap (c ∷ cs) q = elim (queue_call cap c q) [
  | none ↦ none ∷ []
  | some (a, q') ↦ some a ∷ queue_run cap cs q'
]

-- What relates the two: both fail, or both answer alike and the ring holds the queue.
pub data Agrees (cap : ℕ) (c : Call) (r : BytesRingbuffer) : Type 0 where
  fails : call c r ≡ none → queue_call cap c (contents r) ≡ none → Agrees cap c r
  answers :
      (a : Reply) (r' : BytesRingbuffer)
      → call c r ≡ some (a, r')
      → queue_call cap c (contents r) ≡ some (a, contents r')
      → IsValid r'
      → r'.m_capacity ≡ r.m_capacity
      → Agrees cap c r

module _ (r : BytesRingbuffer) (v : IsValid r) where
  left-eq : left_capacity r ≡ r.m_capacity - 1 - length (contents r)
  left-eq = omega (arith, count-add-left r v, count-eq-length r v)

  call-Agrees : (c : Call) → Agrees (r.m_capacity - 1) c r
  unfolding call queue_call
  call-Agrees (puts bytes) = elim (Bool-cases (length bytes == 0)) [
    | inl e ↦ fails (unfold write in rw e) (rw e)
    | inr ne ↦
        let (r', p) = write_lem r bytes v (ground arith) in
        answers (min (length bytes) (left_capacity r), []) r' (rw p.0)
          (rw ne (ground (arith, left-eq, p.2))) p.1 p.3
  ]
  call-Agrees (gets s) =
      let (r', p) = read_lem r s true v in
      answers (min s (count r), take s (contents r)) r' (rw p.0)
        (ground (arith, p.2, count-eq-length r v)) p.1 p.3
  call-Agrees (peeks s) =
      let (r', p) = read_lem r s false v in
      answers (min s (count r), take s (contents r)) r' (unfold peek in rw p.0)
        (ground (arith, p.2, count-eq-length r v)) p.1 p.3
  call-Agrees (skips s) = elim (Bool-cases (leb s (count r))) [
    | inl le ↦
        let (r', done, v', rest, cap) = skip_lem r s v (leb→le s (count r) le) in
        answers (s, []) r' (rw done) (rw (← count-eq-length r v, le, rest)) v' cap
    | inr gt ↦ fails (unfold skip in rw gt) (rw (← count-eq-length r v, gt))
  ]

run-Agrees :
    (c : Call) (cs : List Call) (r : BytesRingbuffer)
    → Agrees (r.m_capacity - 1) c r
    → ((r' : BytesRingbuffer)
        → IsValid r'
        → run cs r' ≡ queue_run (r'.m_capacity - 1) cs (contents r'))
    → run (c ∷ cs) r ≡ queue_run (r.m_capacity - 1) (c ∷ cs) (contents r)
unfolding run queue_run
run-Agrees c cs r (fails e f) ih = rw (e, f, run, queue_run)
run-Agrees c cs r (answers a r' e f v cap) ih =
    rw (e, f, run, queue_run)
      (ap (◌∷◌ (some a)) (ih r' v ∙ ap (λ n. queue_run (n - 1) cs (contents r')) cap))

runs_alike :
    (cs : List Call) (r : BytesRingbuffer)
    → IsValid r
    → run cs r ≡ queue_run (r.m_capacity - 1) cs (contents r)
unfolding run queue_run
runs_alike [] r v = refl
runs_alike (c ∷ cs) r v = run-Agrees c cs r (call-Agrees r v c) (runs_alike cs)

-- A valid ring answers every sequence of calls as the queue of the bytes that it holds does, where
-- the queue holds at most `capacity` bytes: with the same counts, bytes and failed assertions.
pub run_refines :
    (cs : List Call) (r : BytesRingbuffer)
    → IsValid r
    → run cs r ≡ queue_run (capacity r) cs (contents r)
run_refines cs r v = rw (count-add-left r v).0 (runs_alike cs r v)
