-- ===== src/Tlp/HlenPacket/Frames.antt =====
-- The loop of include/wawo/net/tlp/hlen_packet.hpp on a stream of packets behind their lengths.
use wawo.Prelude.{
  ℕ, zero, suc, ◌+◌, ◌≤◌, ◌<◌, ◌≡◌, refl, sym, ap, ◌∙◌, subst, some, List, [], ◌∷◌, ◌++◌, arith,
  length, length-append, append_assoc, append-nil, take, drop, take-nil, drop-nil,
}
use wawo.Bytes.{write_u32}
use wawo.Bytes.Laws.{length-write_u32}
use wawo.RingBuffer.{BytesRingbuffer, contents}
use wawo.RingBuffer
use wawo.Packet.{Packet, pack_max_right_capacity}
use wawo.Packet.Ends.{Holds}
use wawo.Tlp.HlenPacket.{
  Session, HlenPacket, s_read_len, s_read_content, again, exit, turn, decode_loop, Outcome, returns,
  ErrorCode, ok, e_tlp_try_again,
}
use wawo.Tlp.HlenPacket.Turns.{
  at_len, at_content, Rings, len_short, len_read, content_short, content_full, content_read,
}

-- The stream of the packets `ms`.
abbrev pub frames : List (List ℕ) → List ℕ
frames [] = []
frames (m ∷ ms) = write_u32 (length m) ++ (m ++ frames ms)

pub frames_then :
    (m : List ℕ) (ms : List (List ℕ)) (tail : List ℕ)
    → frames (m ∷ ms) ++ tail ≡ write_u32 (length m) ++ (m ++ (frames ms ++ tail))
frames_then m ms tail =
    append_assoc (write_u32 (length m)) (m ++ frames ms) tail
    ∙ ap (◌++◌ (write_u32 (length m))) (append_assoc m (frames ms) tail)

-- Packets that a ring of `cells` cells, one of which stays unused, and a `packet` have room for.
abbrev pub Fits : ℕ → List (List ℕ) → Type 0
Fits cells [] = Unit {0}
Fits cells (m ∷ ms) =
    ((0 < length m) × (length m < cells) × (length m ≤ pack_max_right_capacity)) × Fits cells ms

-- The front part of one more packet.
pub data Short (cells : ℕ) (bytes : List ℕ) : Type 0 where
  few : length bytes < 4 → Short cells bytes
  part :
      (n : ℕ) (rest : List ℕ)
      → bytes ≡ write_u32 n ++ rest
      → n < cells
      → length rest < n
      → Short cells bytes

-- The packets hold the bytes of the lists, one each and in order.
abbrev pub Carries : List Packet → List (List ℕ) → Type 0
Carries [] [] = Unit {0}
Carries [] (m ∷ ms) = ⊥
Carries (p ∷ ps) [] = ⊥
Carries (p ∷ ps) (m ∷ ms) = Holds m p × Carries ps ms

Carries-append :
    (ps : List Packet) (ms : List (List ℕ)) (p : Packet) (m : List ℕ)
    → Carries ps ms
    → Holds m p
    → Carries (ps ++ (p ∷ [])) (ms ++ (m ∷ []))
Carries-append [] [] p m c h = (h, tt)
Carries-append [] (x ∷ ms) p m c h = absurd c
Carries-append (q ∷ ps) [] p m c h = absurd c
Carries-append (q ∷ ps) (x ∷ ms) p m c h = (c.0, Carries-append ps ms p m c.1 h)

-- A ring of `cells` cells that holds `bytes`.
pub record Ring (cells : ℕ) (bytes : List ℕ) (r : BytesRingbuffer) : Type 0 where
  pub valid : RingBuffer.IsValid r
  pub held : contents r ≡ bytes
  pub cells_eq : r.m_capacity ≡ cells

-- The framing between two calls, with the bytes of the stream that no packet has yet: those in the
-- ring, behind a length if it is read already.
pub data Decoding (cells : ℕ) (bytes : List ℕ) : HlenPacket → BytesRingbuffer → Type 0 where
  waits_len :
      (g : ℕ) (r : BytesRingbuffer)
      → Ring cells bytes r
      → Decoding cells bytes (record { m_parse_state = s_read_len; m_size = g }) r
  waits_content :
      (n : ℕ) (rest : List ℕ) (r : BytesRingbuffer)
      → bytes ≡ write_u32 n ++ rest
      → 0 < n
      → n < cells
      → Ring cells rest r
      → Decoding cells bytes (record { m_parse_state = s_read_content; m_size = n }) r

-- What the loop returns: the code, the packets and what is left.
unfoldable pub Returns : ℕ → ErrorCode → List (List ℕ) → List ℕ → Outcome → Type 0
Returns cells ec ms bytes o =
    (s : Session) × (o ≡ returns ec s) × Decoding cells bytes s.hlen s.buffer × Carries s.arrives ms

-- The code for the packets that there is no room for in `arrives`.
abbrev pub code_for : List (List ℕ) → ErrorCode
code_for [] = ok
code_for (m ∷ ms) = e_tlp_try_again

pub loop_again :
    (fuel size : ℕ) (s s' : Session)
    → turn size s ≡ some (again s')
    → decode_loop (suc fuel) size s ≡ decode_loop fuel size s'
unfolding decode_loop
loop_again fuel size s s' e = rw (decode_loop, e) refl

pub loop_exit :
    (fuel size : ℕ) (s s' : Session) (ec : ErrorCode)
    → turn size s ≡ some (exit ec s')
    → decode_loop (suc fuel) size s ≡ returns ec s'
unfolding decode_loop
loop_exit fuel size s s' ec e = rw (decode_loop, e) refl

pub Ring-length :
    {cells : ℕ} {bytes : List ℕ} {r : BytesRingbuffer}
    → Ring cells bytes r
    → length (contents r) ≡ length bytes
Ring-length h = ap (length {A = ℕ}) h.held

pub then_Ring :
    {cells : ℕ} {bytes rest : List ℕ} {r r' : BytesRingbuffer}
    → Ring cells bytes r
    → Rings rest r r'
    → Ring cells rest r'
then_Ring h t = record { valid = t.valid; held = t.held; cells_eq = t.size ∙ h.cells_eq }

module _ (cells size : ℕ) (tail : List ℕ) (short : Short cells tail) where
  -- At the front part of a packet the loop stops.
  pub tail_Returns :
      (fuel g : ℕ) (r : BytesRingbuffer) (ps : List Packet) (ms : List (List ℕ))
      → Ring cells tail r
      → Carries ps ms
      → length tail < fuel
      → Returns cells ok ms tail (decode_loop fuel size (at_len g r ps))
  unfolding Returns
  tail_Returns zero g r ps ms v c h = absurd (omega arith)
  tail_Returns (suc fuel) g r ps ms v c h = elim short [
    | few few_left ↦ (
      at_len g r ps,
      loop_exit fuel size _ _ ok (len_short size r ps v.valid g (omega (arith, Ring-length v))),
      waits_len g r v,
      c,
    )
    | part n rest f fits less ↦
        begun fuel n rest f fits less (
          omega
            (arith, ap (length {A = ℕ}) f, length-append (write_u32 n) rest, length-write_u32 n))
  ]
    where
      begun :
          (fuel n : ℕ) (rest : List ℕ)
          → tail ≡ write_u32 n ++ rest
          → n < cells
          → length rest < n
          → 0 < fuel
          → Returns cells ok ms tail (decode_loop (suc fuel) size (at_len g r ps))
      begun zero n rest f fits less pos = absurd (omega arith)
      begun (suc fuel) n rest f fits less pos =
          let (r', read, t) =
            len_read size r ps v.valid g n rest (v.held ∙ f) (omega arith)
              (omega (arith, v.cells_eq)) in
          let v' = then_Ring v t in
          (
            at_content n r' ps,
            loop_again (suc fuel) size _ _ read
                ∙ loop_exit fuel size _ _ ok
                    (content_short size r' ps t.valid n (omega (arith, Ring-length v'))),
            waits_content n rest r' f (omega arith) fits v',
            c,
          )

  -- From a packet whose length is read, with room for `k` more packets.
  pub content_Returns :
      (ms : List (List ℕ)) (k fuel : ℕ) (m : List ℕ) (r : BytesRingbuffer) (ps : List Packet)
      (done : List (List ℕ))
      → Ring cells (m ++ (frames ms ++ tail)) r
      → Fits cells (m ∷ ms)
      → Carries ps done
      → k + length ps ≡ size
      → length (m ++ (frames ms ++ tail)) < fuel
      → Returns cells
          (code_for (drop k (m ∷ ms)))
          (done ++ take k (m ∷ ms))
          (frames (drop k (m ∷ ms)) ++ tail)
          (decode_loop fuel size (at_content (length m) r ps))
  unfolding Returns
  content_Returns ms k zero m r ps done v f c e h = absurd (omega arith)
  content_Returns ms zero (suc fuel) m r ps done v f c e h = (
    at_content (length m) r ps,
    loop_exit fuel size _ _ e_tlp_try_again (
        content_full size r ps v.valid (length m) f.0.0
          (omega (arith, Ring-length v, length-append m (frames ms ++ tail))) (omega (arith, e))),
    waits_content (length m) _ r (frames_then m ms tail) f.0.0 f.0.1 v,
    subst (Carries ps) (sym (append-nil done)) c,
  )
  content_Returns [] (suc k) (suc fuel) m r ps done v f c e h =
      let (p, r', got, held, t) =
        content_read size r ps v.valid m tail v.held f.0.0 f.0.2 (omega arith) in
      let (s', run, st, cs) =
        tail_Returns fuel (length m) r' (ps ++ (p ∷ [])) (done ++ (m ∷ [])) (then_Ring v t)
          (Carries-append ps done p m c held) (omega (arith, length-append m tail)) in
      (
        s',
        loop_again fuel size _ _ got ∙ run ∙ ap (λ xs. returns (code_for xs) s') (sym (drop-nil k)),
        subst (λ xs. Decoding cells (frames xs ++ tail) s'.hlen s'.buffer) (sym (drop-nil k)) st,
        subst (λ xs. Carries s'.arrives (done ++ (m ∷ xs))) (sym (take-nil k)) cs,
      )
  content_Returns (m' ∷ ms) (suc k) (suc zero) m r ps done v f c e h =
      absurd (omega (arith, length-append m (frames (m' ∷ ms) ++ tail), f.0.0))
  content_Returns (m' ∷ ms) (suc k) (suc (suc fuel)) m r ps done v f c e h =
      let (p, r', got, held, t) =
        content_read size r ps v.valid m (frames (m' ∷ ms) ++ tail) v.held f.0.0 f.0.2
          (omega arith) in
      let (r2, read, t2) =
        len_read size r' (ps ++ (p ∷ [])) t.valid (length m) (length m') (m' ++ (frames ms ++ tail))
          (t.held ∙ frames_then m' ms tail) f.1.0.0 (omega (arith, f.1.0.1, t.size, v.cells_eq)) in
      let (s', run, st, cs) =
        content_Returns ms k fuel m' r2 (ps ++ (p ∷ [])) (done ++ (m ∷ []))
          (then_Ring (then_Ring v t) t2) f.1 (Carries-append ps done p m c held)
          (omega (arith, length-append ps (p ∷ []), e))
          (omega (
            arith,
            length-append m (frames (m' ∷ ms) ++ tail),
            ap (length {A = ℕ}) (frames_then m' ms tail),
            length-append (write_u32 (length m')) (m' ++ (frames ms ++ tail)),
            length-write_u32 (length m'),
            f.0.0,
          )) in
      (
        s',
        loop_again (suc fuel) size _ _ got ∙ loop_again fuel size _ _ read ∙ run,
        st,
        subst (Carries s'.arrives) (append_assoc done (m ∷ []) (take k (m' ∷ ms))) cs,
      )
