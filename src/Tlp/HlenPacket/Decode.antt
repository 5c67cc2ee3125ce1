-- ===== src/Tlp/HlenPacket/Decode.antt =====
-- `decode_packets` and `encode` of include/wawo/net/tlp/hlen_packet.hpp.
use wawo.Prelude.{
  ℕ, suc, ◌+◌, ◌≤◌, ◌<◌, ◌≡◌, refl, sym, ap, ◌∙◌, subst, some, none, false, append-nil, List, [],
  ◌∷◌, ◌++◌, arith, length, length-append, take, drop, take-nil, drop-nil, ◌==◌,
}
use wawo.Prelude.Words.{u32_mod}
use wawo.Bytes.{write_u32, read_u32}
use wawo.Bytes.Laws.{length-write_u32, drop-write_u32, read-write_u32}
use wawo.RingBuffer.{BytesRingbuffer, count}
use wawo.RingBuffer.Contents.{count-eq-length}
use wawo.Packet.{Packet}
use wawo.Packet
use wawo.Packet.Ends.{Holds, Holds-same, write_left-Holds}
use wawo.Packet.Reads.{checked_len_lem}
use wawo.Tlp.HlenPacket.{
  HlenPacket, ok, e_socket_empty_packet, Outcome, decode_loop, decode_packets, encode,
}
use wawo.Tlp.HlenPacket.Turns.{at_len, at_content, len_read, content_short}
use wawo.Tlp.HlenPacket.Frames.{
  frames, frames_then, Fits, Short, few, part, Ring, Ring-length, then_Ring, Decoding, waits_len,
  waits_content, Returns, code_for, loop_again, loop_exit, tail_Returns, content_Returns,
}

-- Two numbers in front of the same bytes.
same_front :
    (n k : ℕ) (xs ys : List ℕ)
    → n < u32_mod
    → k < u32_mod
    → write_u32 n ++ xs ≡ write_u32 k ++ ys
    → (n ≡ k) × (xs ≡ ys)
same_front n k xs ys h h' e = (
  sym (read-write_u32 n xs h) ∙ ap (λ zs. read_u32 (take 4 zs)) e ∙ read-write_u32 k ys h',
  sym (drop-write_u32 n xs) ∙ ap (drop 4) e ∙ drop-write_u32 k ys,
)

cells_small :
    {cells : ℕ} {bytes : List ℕ} {r : BytesRingbuffer} → Ring cells bytes r → cells < u32_mod
cells_small v = omega (arith, v.valid.small, v.cells_eq)

Ring-count :
    {cells : ℕ} {bytes : List ℕ} {r : BytesRingbuffer} → Ring cells bytes r → count r ≡ length bytes
Ring-count {r = r} v = count-eq-length r v.valid ∙ Ring-length v

module _ (cells size : ℕ) (tail : List ℕ) (short : Short cells tail) where
  none_whole :
      (o : Outcome)
      → Returns cells ok [] tail o
      → Returns cells (code_for (drop size [])) (take size []) (frames (drop size []) ++ tail) o
  none_whole o h =
      subst (λ xs. Returns cells (code_for xs) (take size []) (frames xs ++ tail) o)
        (sym (drop-nil size)) (subst (λ xs. Returns cells ok xs tail o) (sym (take-nil size)) h)

  -- The loop from the first byte of a length.
  from_len :
      (ms : List (List ℕ)) (g : ℕ) (r : BytesRingbuffer)
      → Ring cells (frames ms ++ tail) r
      → Fits cells ms
      → Returns cells
          (code_for (drop size ms))
          (take size ms)
          (frames (drop size ms) ++ tail)
          (decode_loop (suc (count r)) size (at_len g r []))
  unfolding Returns
  from_len [] g r v f = none_whole _ (
      tail_Returns cells size tail short (suc (count r)) g r [] [] v tt
        (omega (arith, Ring-count v)))
  from_len (m ∷ ms) g r v f =
      let bytes = m ++ (frames ms ++ tail) in
      let (r', read, t) =
        len_read size r [] v.valid g (length m) bytes (v.held ∙ frames_then m ms tail) f.0.0
          (omega (arith, f.0.1, v.cells_eq)) in
      let less : length bytes < count r = omega (
        arith,
        Ring-count v,
        ap (length {A = ℕ}) (frames_then m ms tail),
        length-append (write_u32 (length m)) bytes,
        length-write_u32 (length m),
      ) in
      let (s', run, st, cs) =
        content_Returns cells size tail short ms size (count r) m r' [] [] (then_Ring v t) f tt
          (omega arith) less in
      (s', loop_again (count r) size _ _ read ∙ run, st, cs)

  -- The loop from a length that is read.
  from_content :
      (ms : List (List ℕ)) (n : ℕ) (rest : List ℕ) (r : BytesRingbuffer)
      → frames ms ++ tail ≡ write_u32 n ++ rest
      → 0 < n
      → n < cells
      → Ring cells rest r
      → Fits cells ms
      → Returns cells
          (code_for (drop size ms))
          (take size ms)
          (frames (drop size ms) ++ tail)
          (decode_loop (suc (count r)) size (at_content n r []))
  unfolding Returns
  from_content [] n rest r e pos less v f = none_whole _ (elim short [
    | few few_left ↦ absurd (
        omega (
          arith,
          few_left,
          ap (length {A = ℕ}) e,
          length-append (write_u32 n) rest,
          length-write_u32 n,
        ))
    | part k xs f' fits left ↦
        let (size_eq, rest_eq) =
          same_front k n xs rest (omega (arith, fits, cells_small v))
            (omega (arith, less, cells_small v)) (sym f' ∙ e) in
        (
          at_content n r [],
          loop_exit (count r) size _ _ ok (
              content_short size r [] v.valid n
                (omega (arith, Ring-length v, left, size_eq, ap (length {A = ℕ}) rest_eq))),
          waits_content n rest r e pos less v,
          tt,
        )
  ])
  from_content (m ∷ ms) n rest r e pos less v f =
      let bytes = m ++ (frames ms ++ tail) in
      let (size_eq, rest_eq) =
        same_front (length m) n bytes rest (omega (arith, f.0.1, cells_small v))
          (omega (arith, less, cells_small v)) (sym (frames_then m ms tail) ∙ e) in
      let v' : Ring cells bytes r = subst (λ xs. Ring cells xs r) (sym rest_eq) v in
      subst
        (λ k.
          Returns cells (code_for (drop size (m ∷ ms))) (take size (m ∷ ms))
            (frames (drop size (m ∷ ms)) ++ tail)
            (decode_loop (suc (count r)) size (at_content k r [])))
        size_eq
        (content_Returns cells size tail short ms size (suc (count r)) m r [] [] v' f tt
          (omega arith) (omega (arith, Ring-count v')))

  -- On a stream of packets behind their lengths, of which it may have read one length already, and
  -- of one more packet's front part, `decode_packets` returns: the first packets, as many as
  -- `arrives` has room for, hold the bytes sent, in order, and what is behind them still waits, for
  -- the next call. The code is E_TLP_TRY_AGAIN when whole packets are left, else OK. No assertion
  -- fails. The packets are not empty, and fit the ring and a `packet`.
  pub decode_packets_lem :
      (ms : List (List ℕ)) (h : HlenPacket) (r : BytesRingbuffer)
      → Decoding cells (frames ms ++ tail) h r
      → Fits cells ms
      → Returns cells
          (code_for (drop size ms))
          (take size ms)
          (frames (drop size ms) ++ tail)
          (decode_packets h r size)
  unfolding decode_packets
  decode_packets_lem ms _ _ (waits_len g r v) f = from_len ms g r v f
  decode_packets_lem ms _ _ (waits_content n rest r e pos less v) f =
      from_content ms n rest r e pos less v f

-- A packet that is not empty is sent behind its length: `encode` returns OK and a valid packet of
-- these bytes, where the left capacity may still grow by one step.
pub encode_lem :
    (p : Packet)
    → Packet.IsValid p
    → 0 < length (Packet.contents p)
    → 4 + p.m_left_capacity + Packet.pack_increment_left_size
      ≤ p.m_read_idx + Packet.pack_max_left_capacity
    → (q : Packet) × (encode p ≡ some (ok, some q)) × Holds (frames (Packet.contents p ∷ [])) q
unfolding encode
encode_lem p v pos room =
    let (q, e, g) =
      write_left-Holds p (write_u32 (length (Packet.contents p))) v pos
        (omega (arith, room, length-write_u32 (length (Packet.contents p)))) in
    let some_left : (length (Packet.contents p) == 0) ≡ false = grind (arith, pos) in
    (
      q,
      rw (checked_len_lem p v, some_left, e) refl,
      Holds-same
          (ap (◌++◌ (write_u32 (length (Packet.contents p))))
            (sym (append-nil (Packet.contents p))))
          g,
    )

pub encode_empty :
    (p : Packet)
    → Packet.IsValid p
    → Packet.contents p ≡ []
    → encode p ≡ some (e_socket_empty_packet, none)
unfolding encode
encode_empty p v e = rw (checked_len_lem p v, e) refl
