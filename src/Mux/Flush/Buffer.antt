-- ===== src/Mux/Flush/Buffer.antt =====
-- Moving the bytes of a stream to a ring of the size of the socket's buffer, of
-- src/net/peer/message/mux_cargo.cpp.
use wawo.Prelude.{
  ℕ, zero, suc, ◌-◌, ◌≤◌, ◌<◌, ◌≡◌, refl, sym, ap, ◌∙◌, true, false, some, List, ◌++◌, arith,
  length, take, ◌==◌, Bool-cases, inl, inr, eq_nil, append-nil, append_assoc, take-append, take_all,
  take_cong, length-take, length-drop, take-append-drop, take-take,
}
use wawo.RingBuffer.{BytesRingbuffer, IsValid, contents, count, left_capacity}
use wawo.RingBuffer.Contents.{count-eq-length, count-add-left}
use wawo.RingBuffer.Read.{read_lem}
use wawo.RingBuffer.Write.{write_lem}
use wawo.Mux.Flush.{move_bytes}

-- A bounded list filled up, in one go or in two.
take-take_append : (n : ℕ) (xs ys : List ℕ) → take n (take n xs ++ ys) ≡ take n (xs ++ ys)
take-take_append n xs ys =
    take-append n (take n xs) ys
    ∙ ap (λ zs. zs ++ take (n - length (take n xs)) ys)
        (take-take n n xs ∙ take_cong xs (omega arith))
    ∙ ap (◌++◌ (take n xs)) (take_cong ys (omega (arith, length-take n xs)))
    ∙ sym (take-append n xs ys)

append_take :
    (n : ℕ) (xs ys : List ℕ) → length xs ≤ n → xs ++ take (n - length xs) ys ≡ take n (xs ++ ys)
append_take n xs ys h =
    ap (λ zs. zs ++ take (n - length xs) ys) (sym (take_all n xs h)) ∙ sym (take-append n xs ys)

-- What `move_bytes` promises: the new ring holds what it held and the bytes of the old one, as far as
-- they fit.
abbrev pub Moved : ℕ → BytesRingbuffer → BytesRingbuffer → BytesRingbuffer → Type 0
Moved n wb sb r =
    (move_bytes n wb sb ≡ some r)
    × IsValid r
    × (contents r ≡ take (sb.m_capacity - 1) (contents sb ++ contents wb))
    × (r.m_capacity ≡ sb.m_capacity)

module _ (wb sb : BytesRingbuffer) (v : IsValid wb) (u : IsValid sb) where
  room : left_capacity sb ≡ sb.m_capacity - 1 - length (contents sb)
  room = omega (arith, count-eq-length sb u, count-add-left sb u)

  nothing_left : (n : ℕ) → (count wb == 0) ≡ true → Moved n wb sb sb
  unfolding move_bytes
  nothing_left n e = (by_fuel n, u, sym same, refl)
    where
      by_fuel : (n : ℕ) → move_bytes n wb sb ≡ some sb
      by_fuel zero = rw e
      by_fuel (suc n) = rw e

      same : take (sb.m_capacity - 1) (contents sb ++ contents wb) ≡ contents sb
      same =
          ap (λ xs. take (sb.m_capacity - 1) (contents sb ++ xs))
            (eq_nil (contents wb) (ground (arith, count-eq-length wb v)))
          ∙ ap (take (sb.m_capacity - 1)) (append-nil (contents sb))
          ∙ take_all (sb.m_capacity - 1) (contents sb)
              (omega (arith, count-eq-length sb u, count-add-left sb u))

  -- One round, and the rounds after it.
  another_round :
      (n : ℕ)
      → ((wb' sb' : BytesRingbuffer)
          → IsValid wb'
          → IsValid sb'
          → length (contents wb') ≤ n
          → (r : BytesRingbuffer) × Moved n wb' sb' r)
      → length (contents wb) ≤ suc n
      → (count wb == 0) ≡ false
      → (r : BytesRingbuffer) × Moved (suc n) wb sb r
  unfolding move_bytes
  another_round n more h e =
      let pos : 0 < length (contents wb) = ground (arith, count-eq-length wb v) in
      let tmp = take 8192 (contents wb) in
      let cap = sb.m_capacity - 1 in
      let (wb', (done, v', rest, c)) = read_lem wb 8192 true v in
      let (sb', (stored, u', held, cap')) =
        write_lem sb tmp u (omega (arith, length-take 8192 (contents wb))) in
      let (r, (moved, w, all, cap'')) =
        more wb' sb' v' u'
          (omega (arith, ap (length {A = ℕ}) rest, length-drop 8192 (contents wb))) in
      let filled : contents sb' ≡ take cap (contents sb ++ tmp) =
        held
        ∙ ap (λ k. contents sb ++ take k tmp) room
        ∙ append_take cap (contents sb) tmp
            (omega (arith, count-eq-length sb u, count-add-left sb u)) in
      (
        r,
        (
          rw (e, done, stored) moved,
          w,
          all
              ∙ ap (λ k. take k (contents sb' ++ contents wb')) (omega (arith, cap'))
              ∙ ap (λ xs. take cap (xs ++ contents wb')) filled
              ∙ take-take_append cap (contents sb ++ tmp) (contents wb')
              ∙ ap (take cap) (
                  append_assoc (contents sb) tmp (contents wb')
                  ∙ ap (λ xs. contents sb ++ (tmp ++ xs)) rest
                  ∙ ap (◌++◌ (contents sb)) (take-append-drop 8192 (contents wb))),
          cap'' ∙ cap',
        ),
      )

-- With a round for every byte of the old ring the loop ends.
pub move_bytes_lem :
    (n : ℕ) (wb sb : BytesRingbuffer)
    → IsValid wb
    → IsValid sb
    → length (contents wb) ≤ n
    → (r : BytesRingbuffer) × Moved n wb sb r
move_bytes_lem zero wb sb v u h =
    (sb, nothing_left wb sb v u 0 (ground (arith, count-eq-length wb v)))
move_bytes_lem (suc n) wb sb v u h = elim (Bool-cases (count wb == 0)) [
  | inl e ↦ (sb, nothing_left wb sb v u (suc n) e)
  | inr e ↦ another_round wb sb v u n (move_bytes_lem n) h e
]
