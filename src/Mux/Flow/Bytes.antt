-- ===== src/Mux/Flow/Bytes.antt =====
-- The bytes of a stream, include/wawo/net/peer/message/mux_cargo.hpp, from the one end to the other.
use wawo.Prelude.{
  ℕ, ◌≡◌, refl, sym, ap, ◌∙◌, true, some, List, [], ◌++◌, arith, length, take, ◌==◌, ==_iff, not,
  ◌||◌, ltb, if◌then◌else◌, Bool-cases, inl, inr, append-nil, ◌>>=◌, min, take-append-drop,
  take_all,
}
use wawo.Prelude.Words.{add32}
use wawo.RingBuffer
use wawo.RingBuffer.{IsValid, contents, count, left_capacity}
use wawo.RingBuffer.Read.{read_lem}
use wawo.RingBuffer.Write.{write_lem, write_nothing}
use wawo.Mux.{MuxCode, ok, is_established, is_ok, MuxStream}
use wawo.Mux.Stream
use wawo.Mux.Stream.{write, read, close_write}
use wawo.Mux.Flow.Actions.{OnSome, OnSome-asserts, OnSome-if}

-- What `write` does with bytes: all of them are behind those that wait if it answers OK, and none
-- otherwise; what arrived stays.
abbrev pub Written : List ℕ → MuxStream → MuxCode × MuxStream → Type 0
Written bytes s (ec, s') =
    (contents s'.wb ≡ contents s.wb ++ (if is_ok ec then bytes else [])) × (s'.rb ≡ s.rb)

-- What `read` does: the packet and what is left are the bytes that had arrived.
abbrev pub Taken : MuxStream → ℕ × List ℕ × MuxStream → Type 0
Taken s (n, pack, s') = (pack ++ contents s'.rb ≡ contents s.rb) × (s'.wb ≡ s.wb)

module _ (s : MuxStream) where
  pub write-Written :
      (bytes : List ℕ) → IsValid s.wb → OnSome (Written bytes s) (Stream.write bytes s)
  unfolding write
  write-Written bytes v =
      elim (Bool-cases (s.flag.write_shutdown_called || s.flag.write_shutdown)) [
        | inl e ↦ rw e (sym (append-nil (contents s.wb)), refl)
        | inr e ↦ elim (Bool-cases (ltb (left_capacity s.wb) (length bytes))) [
          | inl f ↦ rw (e, f) (sym (append-nil (contents s.wb)), refl)
          | inr f ↦ elim (Bool-cases (length bytes == 0)) [
            | inl z ↦ rw (e, f, write_nothing s.wb bytes ((==_iff _ _).0 z)) tt
            | inr z ↦
                let (wb', (stored, v', held, cap)) = write_lem s.wb bytes v (ground arith) in
                let whole : (min (length bytes) (left_capacity s.wb) == length bytes) ≡ true =
                  ground arith in
                rw (e, f, stored, whole)
                  (
                    held
                        ∙ ap (◌++◌ (contents s.wb))
                            (take_all (left_capacity s.wb) bytes (ground arith)),
                    refl,
                  )
          ]
        ]
      ]

  pub read-Taken : (n : ℕ) → IsValid s.rb → OnSome (Taken s) (Stream.read n s)
  unfolding read
  read-Taken n v = OnSome-if (Taken s) (count s.rb == 0) _ _ (refl, refl) (taken _)
    where
      taken :
          (m : ℕ)
          → OnSome (Taken s) (
              RingBuffer.read m true s.rb >>= λ (rcount, pack, rb').
              some (rcount, pack, record s { rb = rb'; rb_incre = add32 s.rb_incre rcount }))
      taken m =
          let (rb', (got, v', rest, cap)) = read_lem s.rb m true v in
          rw got
            (ap (◌++◌ (take m (contents s.rb))) rest ∙ take-append-drop m (contents s.rb), refl)

  pub close_write_same :
      OnSome (λ (r : MuxCode × MuxStream). (r.1.wb ≡ s.wb) × (r.1.rb ≡ s.rb)) (Stream.close_write s)
  unfolding close_write
  close_write_same =
      OnSome-if kept s.flag.write_shutdown_called _ _ (refl, refl)
        (OnSome-asserts kept (is_established s.state) (not (s.id == 0))
          (not s.flag.write_shutdown_called) (not s.flag.plan_fin)
          (record s { flag = record (s.flag) { plan_fin = true } })
          (λ s'. some (record s' { flag = record (s'.flag) { write_shutdown_called = true } }))
          (λ s'. some (ok, s')) (refl, refl))
    where
      kept : MuxCode × MuxStream → Type 0
      kept r = (r.1.wb ≡ s.wb) × (r.1.rb ≡ s.rb)
