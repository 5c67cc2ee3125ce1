-- ===== src/Socket/Send.antt =====
-- `send` of src/net/socket.cpp: no byte is lost, doubled or moved.
use wawo.RingBuffer
use wawo.Prelude.{
  le→leb, ℕ, ◌+◌, ◌≤◌, ◌<◌, ◌≡◌, refl, sym, ap, ◌∙◌, true, some, List, [], ◌∷◌, ◌++◌, arith, length,
  take, drop, ltb, leb, ◌==◌, ==_iff, ◌&&◌, Bool-cases, inl, inr, append_assoc, append-nil,
  take_all, take-append-drop, length-drop, false, Bool, eq_nil,
}
use wawo.RingBuffer.{BytesRingbuffer, IsValid, contents, count, capacity, left_capacity, peek}
use wawo.RingBuffer.Contents.{count-eq-length, count-add-left}
use wawo.RingBuffer.Write.{write_lem}
use wawo.Socket.{
  begin_async_write, SocketCode, e_socket_send_block, e_socket_wr_shutdown_already, SysSent,
  DataSocket, is_send_block, e_wr_block, buffer_rest, e_socket_large_packet, send,
}
use wawo.Socket.Kernel.{IsKernel, Took, base_send_lem}

-- The bytes that a socket took over: those that the kernel has, and those that wait.
abbrev pub passed : DataSocket → List ℕ
passed s = s.wire ++ contents s.m_sb

-- What a call that takes over the first `n` of the bytes promises of the socket.
pub record Passes (bytes : List ℕ) (n : ℕ) (s s' : DataSocket) : Type 0 where
  pub of_bytes : n ≤ length bytes
  pub in_order : passed s' ≡ passed s ++ take n bytes
  pub ring : IsValid s'.m_sb
  pub size : s'.m_sb.m_capacity ≡ s.m_sb.m_capacity
  pub mode : s'.nonblocking ≡ s.nonblocking
  pub limit : s'.snd_size ≡ s.snd_size

module _ (s : DataSocket) (v : IsValid s.m_sb) where
  pub refused : (bytes : List ℕ) → Passes bytes 0 s s
  refused bytes = record {
    of_bytes = omega arith;
    in_order = sym (append-nil (passed s));
    ring = v;
    size = refl;
    mode = refl;
    limit = refl;
  }

  -- All of the bytes go behind those that wait.
  pub appended :
      (bytes : List ℕ)
      → 0 < length bytes
      → length bytes ≤ left_capacity s.m_sb
      → (sb' : BytesRingbuffer) × (RingBuffer.write bytes s.m_sb ≡ some (length bytes, sb'))
        × IsValid sb'
        × (contents sb' ≡ contents s.m_sb ++ bytes)
        × (sb'.m_capacity ≡ s.m_sb.m_capacity)
  appended bytes pos fits =
      let (sb', (stored, u, held, cap)) = write_lem s.m_sb bytes v pos in
      (
        sb',
        stored ∙ ap (λ k. some (k, sb')) (omega arith),
        u,
        held ∙ ap (◌++◌ (contents s.m_sb)) (take_all (left_capacity s.m_sb) bytes fits),
        cap,
      )

  -- The bytes that the kernel took, for a ring that stays.
  Took-Passes :
      (bytes : List ℕ) (n : ℕ) (s' : DataSocket)
      → contents s.m_sb ≡ []
      → Took bytes n s s'
      → Passes bytes n s s'
  Took-Passes bytes n s' e t =
      let same = ap (λ (r : DataSocket). r.m_sb) t.others in
      record {
        of_bytes = t.some_of;
        in_order =
            ap (λ r. s'.wire ++ contents r) same
            ∙ ap (λ xs. s'.wire ++ xs) e
            ∙ append-nil s'.wire
            ∙ t.taken
            ∙ ap (λ xs. xs ++ take n bytes) (sym (ap (λ xs. s.wire ++ xs) e ∙ append-nil s.wire));
        ring = rw same v;
        size = ap (λ (r : BytesRingbuffer). r.m_capacity) same;
        mode = ap (λ (r : DataSocket). r.nonblocking) t.others;
        limit = ap (λ (r : DataSocket). r.snd_size) t.others;
      }

-- The rest that the kernel did not take waits.
module _ (buffer : List ℕ) (now : ℕ) (s s1 : DataSocket) (n : ℕ) (ec_o : SocketCode)
    (v : IsValid s.m_sb) (none_waits : contents s.m_sb ≡ []) (mode : s.nonblocking ≡ true)
    (fits : length buffer ≤ capacity s.m_sb) (t : Took buffer n s s1) where
  same_ring : s1.m_sb ≡ s.m_sb
  same_ring = ap (λ (r : DataSocket). r.m_sb) t.others

  whole_order :
      (xs : List ℕ)
      → xs ≡ contents s1.m_sb ++ drop n buffer
      → s1.wire ++ xs ≡ passed s ++ take (n + length (drop n buffer)) buffer
  whole_order xs held =
      ap (◌++◌ (s1.wire))
        (held ∙ ap (λ ys. ys ++ drop n buffer) (ap contents same_ring ∙ none_waits))
      ∙ ap (λ w. w ++ drop n buffer) t.taken
      ∙ append_assoc s.wire (take n buffer) (drop n buffer)
      ∙ ap (◌++◌ (s.wire)) (take-append-drop n buffer)
      ∙ sym (
          ap (λ ys. (s.wire ++ ys) ++ take (n + length (drop n buffer)) buffer) none_waits
          ∙ ap (λ ys. ys ++ take (n + length (drop n buffer)) buffer) (append-nil s.wire)
          ∙ ap (◌++◌ (s.wire))
              (take_all (n + length (drop n buffer)) buffer (omega (arith, length-drop n buffer))))

  abbrev pub Rests : Type 0
  Rests =
      (m : ℕ) × (s' : DataSocket) × (buffer_rest buffer now (n, ec_o, s1) ≡ some (m, ec_o, s'))
      × Passes buffer m s s'

  buffered : (ltb n (length buffer) && is_send_block ec_o) ≡ true → Rests
  unfolding buffer_rest
  buffered e =
      let v1 : IsValid s1.m_sb = rw same_ring v in
      let pos : 0 < length (drop n buffer) = ground (arith, e, length-drop n buffer) in
      let empty : length (contents s.m_sb) ≡ 0 = ap (length {A = ℕ}) none_waits in
      let room : length (drop n buffer) ≤ left_capacity s1.m_sb = omega (
        arith,
        length-drop n buffer,
        empty,
        count-eq-length s.m_sb v,
        count-add-left s.m_sb v,
        ap left_capacity same_ring,
      ) in
      let (sb', stored, u, held, cap) = appended s1 v1 (drop n buffer) pos room in
      let asserted : (s1.nonblocking && leb (length (drop n buffer)) (left_capacity s1.m_sb))
          ≡ true =
        ap (λ b. b && leb (length (drop n buffer)) (left_capacity s1.m_sb))
          (ap (λ (r : DataSocket). r.nonblocking) t.others ∙ mode)
        ∙ le→leb _ _ room in
      let all_in : (length (drop n buffer) == length (drop n buffer)) ≡ true =
        (==_iff _ _).1 refl in
      (
        n + length (drop n buffer),
        begin_async_write
            (record s1 { m_sb = sb'; m_async_wt = now; events = s1.events ++ e_wr_block ∷ [] }),
        rw (e, asserted, stored, all_in) refl,
        record {
          of_bytes = omega (arith, length-drop n buffer, t.some_of);
          in_order = whole_order (contents sb') held;
          ring = u;
          size = cap ∙ ap (λ (r : BytesRingbuffer). r.m_capacity) same_ring;
          mode = ap (λ (r : DataSocket). r.nonblocking) t.others;
          limit = ap (λ (r : DataSocket). r.snd_size) t.others;
        },
      )

  pub buffer_rest_lem : Rests
  unfolding buffer_rest
  buffer_rest_lem = elim (Bool-cases (ltb n (length buffer) && is_send_block ec_o)) [
    | inl e ↦ buffered e
    | inr e ↦ (n, s1, rw e refl, Took-Passes s v buffer n s1 none_waits t)
  ]

module _ (sys : ℕ → ℕ → SysSent) (k : IsKernel sys) where
  module _ (buffer : List ℕ) (use_snd_buffer : Bool) (ec_o : SocketCode) (now : ℕ) (s : DataSocket)
      (v : IsValid s.m_sb) (mode : s.nonblocking ≡ true) (pos : 0 < length buffer)
      (fits : length buffer ≤ capacity s.m_sb) where
    -- What `send` promises.
    abbrev Sends : Type 0
    Sends =
        (n : ℕ) × (ec : SocketCode) × (s' : DataSocket) × (send sys buffer use_snd_buffer ec_o now s
          ≡ some (n, ec, s'))
        × Passes buffer n s s'

    sized : (ltb 0 (length buffer) && leb (length buffer) (capacity s.m_sb)) ≡ true
    sized = ground arith

    waiting :
        (count s.m_sb == 0) ≡ false
        → s.write_shutdown ≡ false
        → ltb s.snd_size (length buffer) ≡ false
        → Sends
    unfolding send
    waiting f e g =
        elim (Bool-cases (use_snd_buffer && ltb (length buffer) (left_capacity s.m_sb))) [
          | inl h ↦
              let (sb', stored, u, held, cap) = appended s v buffer pos (ground (arith, h)) in
              (
                length buffer,
                ec_o,
                record s { m_sb = sb' },
                ground (arith, sized, e, f, g, h, mode, stored),
                record {
                  of_bytes = omega arith;
                  in_order =
                      ap (◌++◌ s.wire) held
                      ∙ sym (append_assoc s.wire (contents s.m_sb) buffer)
                      ∙ ap (◌++◌ (passed s)) (sym (take_all (length buffer) buffer (omega arith)));
                  ring = u;
                  size = cap;
                  mode = refl;
                  limit = refl;
                },
              )
          | inr h ↦ (
            0,
            e_socket_send_block,
            s,
            ground (arith, sized, e, f, g, h, mode),
            refused s v buffer,
          )
        ]

    straight :
        (count s.m_sb == 0) ≡ true
        → s.write_shutdown ≡ false
        → ltb s.snd_size (length buffer) ≡ false
        → Sends
    unfolding send
    straight f e g =
        let (n, ec, s1, done, t, whole) = base_send_lem sys k buffer s pos in
        let empty = eq_nil (contents s.m_sb) (ground (arith, count-eq-length s.m_sb v, f)) in
        let (m, s', rest, passes) = buffer_rest_lem buffer now s s1 n ec v empty mode fits t in
        (m, ec, s', ground (arith, sized, e, f, g, mode, done, rest), passes)

    -- `send` of a nonblocking socket, of at least one byte and no more than its buffer can hold, for a
    -- kernel that takes a byte or more of each call that it takes any of and that no signal
    -- interrupts: fails no assertion, in every state of the buffer. The bytes that it counts are the
    -- first ones, and they are, in order, behind those that the socket took over before, whether these
    -- are with the kernel or wait in the buffer; and the socket takes over no others.
    pub send-Passes : Sends
    unfolding send
    send-Passes = elim (Bool-cases s.write_shutdown) [
      | inl e ↦ (0, e_socket_wr_shutdown_already, s, ground (arith, sized, e), refused s v buffer)
      | inr e ↦ elim (Bool-cases (ltb s.snd_size (length buffer))) [
        | inl g ↦ (0, e_socket_large_packet, s, ground (arith, sized, e, g), refused s v buffer)
        | inr g ↦ elim (Bool-cases (count s.m_sb == 0)) [
          | inl f ↦ straight f e g
          | inr f ↦ waiting f e g
        ]
      ]
    ]
