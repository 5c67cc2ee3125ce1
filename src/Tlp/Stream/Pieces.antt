-- ===== src/Tlp/Stream/Pieces.antt =====
-- The pieces of include/wawo/net/tlp/stream.hpp beside the bytes of the ring.
use wawo.Prelude.{
  ℕ, zero, suc, ◌+◌, ◌*◌, ◌≤◌, ◌<◌, ◌≡◌, refl, sym, ap, ◌∙◌, subst, true, false, some, List, [],
  ◌∷◌, ◌++◌, arith, length, length-take, length-drop, take, drop, take_all, drop_all, take_add,
  drop-drop, take_cong, drop_cong, append-nil, ltb, le→leb, ◌==◌, ◌&&◌, min, if◌then◌else◌,
  Bool-cases, inl, inr,
}
use wawo.Prelude.Memory.{blit}
use wawo.RingBuffer.{BytesRingbuffer, contents, count}
use wawo.RingBuffer
use wawo.RingBuffer.Contents.{count-eq-length}
use wawo.RingBuffer.Read.{read_lem}
use wawo.RingBuffer.Words.{Taken}
use wawo.Packet.{Packet, forward_write_index, pack_init_left_capacity, pack_max_right_capacity}
use wawo.Packet
use wawo.Packet.Ends.{Holds, init-Holds, empty_packet}
use wawo.Packet.Fill.{fill_lem}
use wawo.Tlp.HlenPacket.{ok, e_tlp_try_again}
use wawo.Tlp.Stream.{wawo_stream_piece_max, read_piece, read_pieces, decode_packets}

abbrev new_packet : ℕ → Packet
new_packet n = empty_packet n pack_init_left_capacity

read_piece_lem :
    (ps : ℕ) (r : BytesRingbuffer)
    → RingBuffer.IsValid r
    → ps ≤ pack_max_right_capacity
    → (p : Packet) × (r' : BytesRingbuffer) × (read_piece ps r ≡ some (p, r'))
      × Holds (take ps (contents r)) p
      × Taken ps r r'
unfolding read_piece
read_piece_lem ps r v fits =
    let (r', p) = read_lem r ps true v in
    let bytes = take ps (contents r) in
    let (made, empty) = init-Holds ps pack_init_left_capacity (omega arith) fits in
    let brc : length bytes ≡ min ps (count r) =
      omega (arith, count-eq-length r v, length-take ps (contents r)) in
    let (q, e, g) = fill_lem (new_packet ps) bytes empty.valid refl (grind (arith, brc)) in
    let filled : forward_write_index (min ps (count r)) (record (new_packet ps) {
      m_buffer = blit (new_packet ps).m_buffer (new_packet ps).m_read_idx bytes;
    })
        ≡ some q =
      subst
        (λ k.
          forward_write_index k (record (new_packet ps) {
            m_buffer = blit (new_packet ps).m_buffer (new_packet ps).m_read_idx bytes;
          })
          ≡ some q)
        brc e in
    (
      q,
      r',
      rw (made, p.0, le→leb (min ps (count r)) ps (omega arith), filled) refl,
      g,
      record { valid = p.1; left = p.2; size = p.3 },
    )

-- The bytes of the packets, one after the other.
abbrev pub joined : List Packet → List ℕ
joined [] = []
joined (p ∷ ps) = Packet.contents p ++ joined ps

abbrev pub AllValid : List Packet → Type 0
AllValid [] = Unit {0}
AllValid (p ∷ ps) = Packet.IsValid p × AllValid ps

-- The packets have the first `n` bytes of `r`, and `r'` the others.
pub record Splits (n : ℕ) (r : BytesRingbuffer) (packs : List Packet) (r' : BytesRingbuffer)
    : Type 0 where
  pub valid : RingBuffer.IsValid r'
  pub all_valid : AllValid packs
  pub bytes : joined packs ≡ take n (contents r)
  pub left : contents r' ≡ drop n (contents r)

-- The loop stops with no room left, or with no bytes left.
last_piece :
    (room ps : ℕ) (r r' : BytesRingbuffer)
    → Taken ps r r'
    → (ltb 0 (count r') && ltb 0 room) ≡ false
    → (take ps (contents r) ≡ take (suc room * ps) (contents r))
      × (drop ps (contents r) ≡ drop (suc room * ps) (contents r))
last_piece zero ps r r' t done =
    (take_cong (contents r) (omega arith), drop_cong (contents r) (omega arith))
last_piece (suc room) ps r r' t done = (
  take_all ps (contents r) few ∙ sym (take_all (suc (suc room) * ps) (contents r) more),
  drop_all ps (contents r) few ∙ sym (drop_all (suc (suc room) * ps) (contents r) more),
)
  where
    empty : count r' ≡ 0
    empty = ground (arith, done)

    few : length (contents r) ≤ ps
    few = omega (
      arith,
      empty,
      count-eq-length r' t.valid,
      ap (length {A = ℕ}) t.left,
      length-drop ps (contents r),
    )

    more : length (contents r) ≤ suc (suc room) * ps
    more = omega (arith, few)

read_pieces_lem :
    (room ps : ℕ) (r : BytesRingbuffer)
    → RingBuffer.IsValid r
    → 0 < room
    → ps ≤ pack_max_right_capacity
    → (packs : List Packet) × (r' : BytesRingbuffer) × (read_pieces room ps r ≡ some (packs, r'))
      × Splits (room * ps) r packs r'
unfolding read_pieces
read_pieces_lem zero ps r v pos fits = absurd (omega arith)
read_pieces_lem (suc room) ps r v pos fits =
    let (p, r', e, h, t) = read_piece_lem ps r v fits in
    elim (Bool-cases (ltb 0 (count r') && ltb 0 room)) [
      | inl more ↦
          let (packs, r2, es, s) = read_pieces_lem room ps r' t.valid (ground (arith, more)) fits in
          let total : ps + room * ps ≡ suc room * ps = omega arith in
          (
            p ∷ packs,
            r2,
            rw (e, more, es) refl,
            record {
              valid = s.valid;
              all_valid = (h.valid, s.all_valid);
              bytes =
                  ap (λ xs. xs ++ joined packs) h.held
                  ∙ ap (◌++◌ (take ps (contents r))) (s.bytes ∙ ap (take (room * ps)) t.left)
                  ∙ take_add ps (room * ps) (contents r)
                  ∙ take_cong (contents r) total;
              left =
                  s.left
                  ∙ ap (drop (room * ps)) t.left
                  ∙ drop-drop (room * ps) ps (contents r)
                  ∙ drop_cong (contents r) total;
            },
          )
      | inr done ↦
          let (same_take, same_drop) = last_piece room ps r r' t done in
          (
            p ∷ [],
            r',
            rw (e, done) refl,
            record {
              valid = t.valid;
              all_valid = (h.valid, tt);
              bytes = append-nil (Packet.contents p) ∙ h.held ∙ same_take;
              left = t.left ∙ same_drop;
            },
          )
    ]

-- `ps`, the size of the pieces.
abbrev pub piece_of : BytesRingbuffer → ℕ
piece_of r = min (length (contents r)) wawo_stream_piece_max

-- With room for a packet, and bytes in the ring, `decode_packets` returns: the packets are valid and
-- have, one after the other, the first bytes of the stream, `size` pieces of them or all; the ring
-- keeps the others for the next call. The code is E_TLP_TRY_AGAIN when bytes are left, else OK. A
-- piece is what the ring held at first, or WAWO_STREAM_PIECE_MAX when that is less.
pub decode_packets-Splits :
    (r : BytesRingbuffer) (size : ℕ)
    → RingBuffer.IsValid r
    → 0 < size
    → 0 < length (contents r)
    → (packs : List Packet) × (r' : BytesRingbuffer) × (decode_packets r size
        ≡ some ((if ltb 0 (length (contents r')) then e_tlp_try_again else ok), packs, r'))
      × Splits (size * piece_of r) r packs r'
unfolding decode_packets
decode_packets-Splits r size v pos held =
    let c : count r ≡ length (contents r) = count-eq-length r v in
    let ps : (if ltb wawo_stream_piece_max (count r) then wawo_stream_piece_max else count r)
        ≡ piece_of r =
      grind (arith, c) in
    let some_bytes : (count r == 0) ≡ false = grind (arith, c, held) in
    let (packs, r', e, s) =
      read_pieces_lem size
        (if ltb wawo_stream_piece_max (count r) then wawo_stream_piece_max else count r) r v pos
        (omega (arith, ps)) in
    (
      packs,
      r',
      rw (some_bytes, e, count-eq-length r' s.valid) refl,
      subst (λ k. Splits (size * k) r packs r') ps s,
    )
