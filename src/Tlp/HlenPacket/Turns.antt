-- ===== src/Tlp/HlenPacket/Turns.antt =====
-- One round of the loop of include/wawo/net/tlp/hlen_packet.hpp.
use wawo.Prelude.{
  ℕ, ◌≤◌, ◌<◌, ◌≡◌, refl, ap, subst, ◌∙◌, true, false, some, List, [], ◌∷◌, ◌++◌, arith, length,
  length-append, length-take, take, drop, take-append_self, drop-append_self, ltb, lt→ltb, ◌==◌,
  ==_iff, min,
}
use wawo.Prelude.Memory.{blit}
use wawo.Bytes.{write_u32, read_u32}
use wawo.Bytes.Laws.{length-write_u32, drop-write_u32, read-write_u32}
use wawo.RingBuffer.{BytesRingbuffer, contents, count, capacity, try_read_u32_t, read_u32_t}
use wawo.RingBuffer
use wawo.RingBuffer.Contents.{count-eq-length, count-add-left}
use wawo.RingBuffer.Read.{read_lem}
use wawo.RingBuffer.Words.{Taken, try_read_u32_lem, try_read_u32_short}
use wawo.Packet.Fill.{fill_lem}
use wawo.Packet.{Packet, pack_max_right_capacity, pack_init_left_capacity, forward_write_index}
use wawo.Packet.Ends.{Holds, Holds-same, init-Holds, empty_packet}
use wawo.Tlp.HlenPacket.{
  Session, s_read_len, s_read_content, again, exit, ok, e_tlp_try_again, take_len, read_len,
  read_packet, arrive, read_content, turn,
}

abbrev new_packet : ℕ → Packet
new_packet n = empty_packet n pack_init_left_capacity

-- The packet of the bytes that are read.
read_packet_lem :
    (n : ℕ) (r : BytesRingbuffer)
    → RingBuffer.IsValid r
    → n ≤ length (contents r)
    → n ≤ pack_max_right_capacity
    → (p : Packet) × (r' : BytesRingbuffer) × (read_packet n r ≡ some (p, r'))
      × Holds (take n (contents r)) p
      × Taken n r r'
unfolding read_packet
read_packet_lem n r v h fits =
    let (r', p) = read_lem r n true v in
    let (made, empty) = init-Holds n pack_init_left_capacity (omega arith) fits in
    let got : min n (count r) ≡ n = omega (arith, h, count-eq-length r v) in
    let size : length (take n (contents r)) ≡ n = omega (arith, h, length-take n (contents r)) in
    let (q, e, g) =
      fill_lem (new_packet n) (take n (contents r)) empty.valid refl (grind (arith, size)) in
    let filled : forward_write_index n (record (new_packet n) {
      m_buffer = blit (new_packet n).m_buffer (new_packet n).m_read_idx (take n (contents r));
    })
        ≡ some q =
      subst
        (λ k.
          forward_write_index k (record (new_packet n) {
            m_buffer = blit (new_packet n).m_buffer (new_packet n).m_read_idx (take n (contents r));
          })
          ≡ some q)
        size e in
    let same : (n == n) ≡ true = (==_iff n n).1 refl in
    (
      q,
      r',
      rw (made, p.0, got, same, filled) refl,
      g,
      record { valid = p.1; left = p.2; size = p.3 },
    )

-- A session that waits for a length, and one that waits for the `n` bytes behind it.
abbrev pub at_len : ℕ → BytesRingbuffer → List Packet → Session
at_len g r ps = record {
  hlen = record { m_parse_state = s_read_len; m_size = g };
  buffer = r;
  arrives = ps;
}

abbrev pub at_content : ℕ → BytesRingbuffer → List Packet → Session
at_content n r ps = record {
  hlen = record { m_parse_state = s_read_content; m_size = n };
  buffer = r;
  arrives = ps;
}

-- `r'` is valid, of the size of `r`, and holds `bytes`.
pub record Rings (bytes : List ℕ) (r r' : BytesRingbuffer) : Type 0 where
  pub valid : RingBuffer.IsValid r'
  pub held : contents r' ≡ bytes
  pub size : r'.m_capacity ≡ r.m_capacity

module _ (size : ℕ) (r : BytesRingbuffer) (ps : List Packet) (v : RingBuffer.IsValid r) where
  pub len_short :
      (g : ℕ) → length (contents r) < 4 → turn size (at_len g r ps) ≡ some (exit ok (at_len g r ps))
  unfolding turn read_len
  len_short g h = rw (try_read_u32_short r v h) refl

  pub len_read :
      (g n : ℕ) (rest : List ℕ)
      → contents r ≡ write_u32 n ++ rest
      → 0 < n
      → n < r.m_capacity
      → (r' : BytesRingbuffer) × (turn size (at_len g r ps) ≡ some (again (at_content n r' ps)))
        × Rings rest r r'
  unfolding turn read_len take_len
  len_read g n rest e pos h =
      let four : 4 ≤ length (contents r) =
        omega
          (arith, ap (length {A = ℕ}) e, length-append (write_u32 n) rest, length-write_u32 n) in
      let (r', got, t) = try_read_u32_lem r v four in
      let value : read_u32 (take 4 (contents r)) ≡ n =
        ap (λ xs. read_u32 (take 4 xs)) e ∙ read-write_u32 n rest (omega (arith, h, v.small)) in
      let fits : ltb (capacity r') n ≡ false =
        grind (arith, (count-add-left r' t.valid).0, t.size, h) in
      (
        r',
        rw (got, value, lt→ltb 0 n pos, fits) refl,
        record {
          valid = t.valid;
          held = t.left ∙ ap (drop 4) e ∙ drop-write_u32 n rest;
          size = t.size;
        },
      )

  pub content_short :
      (n : ℕ)
      → length (contents r) < n
      → turn size (at_content n r ps) ≡ some (exit ok (at_content n r ps))
  unfolding turn read_content
  content_short n h =
      let pos : ltb 0 n ≡ true = lt→ltb _ _ (omega (arith, h)) in
      let some_left : (n == 0) ≡ false = grind (arith, h) in
      let c : ltb (count r) n ≡ true = lt→ltb _ _ (omega (arith, h, count-eq-length r v)) in
      rw (pos, some_left, c) refl

  pub content_full :
      (n : ℕ)
      → 0 < n
      → n ≤ length (contents r)
      → length ps ≡ size
      → turn size (at_content n r ps) ≡ some (exit e_tlp_try_again (at_content n r ps))
  unfolding turn read_content
  content_full n pos h e =
      let some_left : (n == 0) ≡ false = grind (arith, pos) in
      let c : ltb (count r) n ≡ false = grind (arith, h, count-eq-length r v) in
      let full : (length ps == size) ≡ true = (==_iff _ _).1 e in
      rw (lt→ltb 0 n pos, some_left, c, full) refl

  pub content_read :
      (m rest : List ℕ)
      → contents r ≡ m ++ rest
      → 0 < length m
      → length m ≤ pack_max_right_capacity
      → length ps < size
      → (p : Packet) × (r' : BytesRingbuffer) × (turn size (at_content (length m) r ps)
          ≡ some (again (at_len (length m) r' (ps ++ (p ∷ [])))))
        × Holds m p
        × Rings rest r r'
  unfolding turn read_content arrive
  content_read m rest e pos fits h =
      let enough : length m ≤ length (contents r) =
        omega (arith, ap (length {A = ℕ}) e, length-append m rest) in
      let (p, r', got, held, t) = read_packet_lem (length m) r v enough fits in
      let some_left : (length m == 0) ≡ false = grind (arith, pos) in
      let c : ltb (count r) (length m) ≡ false = grind (arith, enough, count-eq-length r v) in
      let room : (length ps == size) ≡ false = grind (arith, h) in
      (
        p,
        r',
        rw (lt→ltb 0 (length m) pos, some_left, c, room, got, lt→ltb _ _ h) refl,
        Holds-same (ap (take (length m)) e ∙ take-append_self m rest) held,
        record {
          valid = t.valid;
          held = t.left ∙ ap (drop (length m)) e ∙ drop-append_self m rest;
          size = t.size;
        },
      )
