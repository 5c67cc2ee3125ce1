-- ===== src/Socket/Kernel.antt =====
-- The loop of `wawo::net::send` and `socket_base::send`, for the kernel that sockets count on.
use wawo.Prelude.{
  lt→ltb, ℕ, zero, suc, ◌+◌, ◌≤◌, ◌<◌, ◌≡◌, refl, sym, ap, ◌∙◌, true, some, List, ◌++◌, arith,
  length, take, drop, ◌==◌, ==_iff, Bool-cases, inl, inr, append_assoc, append-nil, take_add,
  length-drop, ◌≢◌,
}
use wawo.Socket.{
  SocketCode, ok, e_socket_send_block, e_socket_wr_shutdown_already, other, SysSent, took,
  would_block, interrupted, failed, DataSocket, is_ok, send_loop, base_send,
}

-- What is counted on of the kernel: it takes a byte at least and no more than there are, and no signal
-- interrupts it.
pub record IsKernel (sys : ℕ → ℕ → SysSent) : Type 0 where
  pub takes : (i len n : ℕ) → 0 < len → sys i len ≡ took n → (0 < n) × (n ≤ len)
  pub quiet : (i len : ℕ) → sys i len ≢ interrupted

-- A change of the socket by the kernel alone, which took the first `n` of the bytes.
pub record Took (bytes : List ℕ) (n : ℕ) (s s' : DataSocket) : Type 0 where
  pub some_of : n ≤ length bytes
  pub taken : s'.wire ≡ s.wire ++ take n bytes
  pub others : s' ≡ record s { calls = s'.calls; wire = s'.wire }

module _ (sys : ℕ → ℕ → SysSent) (k : IsKernel sys) where
  abbrev pub Loops : ℕ → List ℕ → ℕ → DataSocket → Type 0
  Loops fuel rest total s =
      (n : ℕ) × (ec_o : SocketCode) × (s' : DataSocket) × (send_loop sys fuel rest total s
        ≡ some (total + n, ec_o, s'))
      × Took rest n s s'
      × (is_ok ec_o ≡ true → n ≡ length rest)

  -- One call of the kernel, and the rounds after it.
  one_call :
      (fuel : ℕ) (rest : List ℕ) (total : ℕ) (s : DataSocket)
      → ((rest' : List ℕ) (total' : ℕ) (s' : DataSocket)
          → 0 < length rest'
          → length rest' ≤ fuel
          → Loops fuel rest' total' s')
      → 0 < length rest
      → length rest ≤ suc fuel
      → (a : SysSent) → sys s.calls (length rest) ≡ a
      → Loops (suc fuel) rest total s
  unfolding send_loop
  one_call fuel rest total s more pos le would_block e = (
    0,
    e_socket_send_block,
    record s { calls = suc s.calls },
    rw (send_loop, e)
        (ap (λ t. some (t, e_socket_send_block, record s { calls = suc s.calls })) (omega arith)),
    record { some_of = omega arith; taken = sym (append-nil s.wire); others = refl },
    (λ h. absurd (cc)),
  )
  one_call fuel rest total s more pos le (failed ec) e = (
    0,
    other ec,
    record s { calls = suc s.calls },
    rw (send_loop, e)
        (ap (λ t. some (t, other ec, record s { calls = suc s.calls })) (omega arith)),
    record { some_of = omega arith; taken = sym (append-nil s.wire); others = refl },
    (λ h. absurd (cc)),
  )
  one_call fuel rest total s more pos le interrupted e = absurd (k.quiet s.calls (length rest) e)
  one_call fuel rest total s more pos le (took n) e =
      let (some_taken, in_rest) = k.takes s.calls (length rest) n pos e in
      elim (Bool-cases (n == length rest)) [
        | inl all ↦ (
          n,
          ok,
          record s { calls = suc s.calls; wire = s.wire ++ take n rest },
          rw (send_loop, e, lt→ltb 0 n some_taken, all) refl,
          record { some_of = in_rest; taken = refl; others = refl },
          (λ h. (==_iff n (length rest)).0 all),
        )
        | inr part ↦
            let s2 = record s { calls = suc s.calls; wire = s.wire ++ take n rest } in
            let (n', ec_o, s', done, t, whole) =
              more (drop n rest) (total + n) s2 (ground (arith, part, length-drop n rest))
                (omega (arith, length-drop n rest)) in
            (
              n + n',
              ec_o,
              s',
              rw (send_loop, e, lt→ltb 0 n some_taken, part)
                  (done ∙ ap (λ t. some (t, ec_o, s')) (omega arith)),
              record {
                some_of = omega (arith, t.some_of, length-drop n rest);
                taken =
                    t.taken
                    ∙ append_assoc s.wire (take n rest) (take n' (drop n rest))
                    ∙ ap (◌++◌ s.wire) (take_add n n' rest);
                others = t.others;
              },
              (λ h. omega (arith, whole h, length-drop n rest)),
            )
      ]

  pub send_loop_lem :
      (fuel : ℕ) (rest : List ℕ) (total : ℕ) (s : DataSocket)
      → 0 < length rest
      → length rest ≤ fuel
      → Loops fuel rest total s
  send_loop_lem zero rest total s pos le = absurd (omega arith)
  send_loop_lem (suc fuel) rest total s pos le =
      one_call fuel rest total s (send_loop_lem fuel) pos le (sys s.calls (length rest)) refl

  -- `socket_base::send` returns, and the count is of the bytes that the kernel took.
  pub base_send_lem :
      (buffer : List ℕ) (s : DataSocket)
      → 0 < length buffer
      → (n : ℕ) × (ec_o : SocketCode) × (s' : DataSocket) × (base_send sys buffer s
          ≡ some (n, ec_o, s'))
        × Took buffer n s s'
        × (is_ok ec_o ≡ true → n ≡ length buffer)
  unfolding base_send
  base_send_lem buffer s pos = elim (Bool-cases s.write_shutdown) [
    | inl e ↦ (
      0,
      e_socket_wr_shutdown_already,
      s,
      ground (arith, e),
      record { some_of = omega arith; taken = sym (append-nil s.wire); others = refl },
      (λ h. absurd (cc)),
    )
    | inr e ↦
        let (n, ec_o, s', done, t, whole) =
          send_loop_lem (length buffer) buffer 0 s pos (omega arith) in
        (n, ec_o, s', ground (arith, e, done), t, whole)
  ]
