-- ===== src/Wcp/Recv/Insert/Sorted.antt =====
-- `rcv_received` of src/net/wcp.cpp as a sorted map from sequence numbers to packs.
use mathlib.Core.List.{reverse, reverse-cons}
use wawo.Prelude.{
  ℕ, ◌<◌, ◌≡◌, refl, sym, ap, ◌∙◌, Option, none, some, List, [], ◌∷◌, ◌++◌, arith, ltb, ◌==◌,
  if◌then◌else◌, Bool-cases, inl, inr, subst,
}
use wawo.Wcp.Pack.{WcbReceivedPack}
use wawo.Wcp.Recv.Insert.{insert, insert_from_back}

-- Every element of a list is in relation to the ones behind it.
module _ (R : WcbReceivedPack → WcbReceivedPack → Type 0) where
  abbrev pub ToAll : WcbReceivedPack → List WcbReceivedPack → Type 0
  ToAll p [] = Unit {0}
  ToAll p (q ∷ qs) = R p q × ToAll p qs

  abbrev pub Chain : List WcbReceivedPack → Type 0
  Chain [] = Unit {0}
  Chain (p ∷ ps) = ToAll p ps × Chain ps

  ToAll-append :
      (p : WcbReceivedPack) (xs ys : List WcbReceivedPack)
      → ToAll p xs
      → ToAll p ys
      → ToAll p (xs ++ ys)
  ToAll-append p [] ys a b = b
  ToAll-append p (x ∷ xs) ys (r, a) b = (r, ToAll-append p xs ys a b)

  ToAll-reverse :
      (p : WcbReceivedPack) (xs : List WcbReceivedPack) → ToAll p xs → ToAll p (reverse xs)
  ToAll-reverse p [] a = tt
  ToAll-reverse p (x ∷ xs) (r, a) =
      subst (ToAll p) (sym (reverse-cons x xs))
        (ToAll-append p (reverse xs) (x ∷ []) (ToAll-reverse p xs a) (r, tt))

abbrev Flip :
    (WcbReceivedPack → WcbReceivedPack → Type 0) → WcbReceivedPack → WcbReceivedPack → Type 0
Flip R p q = R q p

Chain-snoc :
    (R : WcbReceivedPack → WcbReceivedPack → Type 0) (xs : List WcbReceivedPack)
    (p : WcbReceivedPack)
    → Chain R xs
    → ToAll (Flip R) p xs
    → Chain R (xs ++ p ∷ [])
Chain-snoc R [] p c a = (tt, tt)
Chain-snoc R (x ∷ xs) p (b, c) (r, a) =
    (ToAll-append R x xs (p ∷ []) b (r, tt), Chain-snoc R xs p c a)

Chain-reverse :
    (R : WcbReceivedPack → WcbReceivedPack → Type 0) (xs : List WcbReceivedPack)
    → Chain (Flip R) xs
    → Chain R (reverse xs)
Chain-reverse R [] c = tt
Chain-reverse R (x ∷ xs) (a, c) =
    subst (Chain R) (sym (reverse-cons x xs))
      (Chain-snoc R (reverse xs) x (Chain-reverse R xs c) (ToAll-reverse (Flip R) x xs a))

abbrev Before : WcbReceivedPack → WcbReceivedPack → Type 0
Before p q = p.header.seq < q.header.seq

-- The numbers grow strictly.
abbrev pub IsSorted : List WcbReceivedPack → Type 0
IsSorted l = Chain Before l

-- The pack with a number.
unfoldable pub find : ℕ → List WcbReceivedPack → Option WcbReceivedPack
find seq [] = none
find seq (p ∷ ps) = if p.header.seq == seq then some p else find seq ps

-- The first of two that is there.
abbrev pub or_else : Option WcbReceivedPack → Option WcbReceivedPack → Option WcbReceivedPack
or_else none o = o
or_else (some p) o = some p

-- The walk over the list from its end, whose numbers fall.
back-ToAll :
    (p q : WcbReceivedPack) (l : List WcbReceivedPack)
    → Before p q
    → ToAll (Flip Before) q l
    → ToAll (Flip Before) q (insert_from_back p l)
unfolding insert_from_back
back-ToAll p q [] lt a = (lt, tt)
back-ToAll p q (x ∷ l) lt (r, a) = elim (Bool-cases (x.header.seq == p.header.seq)) [
  | inl same ↦ rw same (r, a)
  | inr other ↦ elim (Bool-cases (ltb p.header.seq x.header.seq)) [
    | inl less ↦ rw (other, less) (r, back-ToAll p q l lt a)
    | inr more ↦ rw (other, more) (lt, (r, a))
  ]
]

below_all :
    (p x : WcbReceivedPack) (l : List WcbReceivedPack)
    → Before x p
    → ToAll (Flip Before) x l
    → ToAll (Flip Before) p l
below_all p x [] lt a = tt
below_all p x (y ∷ l) lt (r, a) = (omega (arith, lt, r), below_all p x l lt a)

back-Chain :
    (p : WcbReceivedPack) (l : List WcbReceivedPack)
    → Chain (Flip Before) l
    → Chain (Flip Before) (insert_from_back p l)
unfolding insert_from_back
back-Chain p [] c = (tt, tt)
back-Chain p (x ∷ l) (a, c) = elim (Bool-cases (x.header.seq == p.header.seq)) [
  | inl same ↦ rw same (a, c)
  | inr other ↦ elim (Bool-cases (ltb p.header.seq x.header.seq)) [
    | inl less ↦ rw (other, less) (back-ToAll p x l (grind arith) a, back-Chain p l c)
    | inr more ↦
        let lt : Before x p = grind arith in rw (other, more) ((lt, below_all p x l lt a), (a, c))
  ]
]

-- No pack of greater numbers has the number.
find_below :
    (s : ℕ) (x : WcbReceivedPack) (l : List WcbReceivedPack)
    → ToAll (Flip Before) x l
    → x.header.seq ≡ s
    → find s l ≡ none
unfolding find
find_below s x [] a e = refl
find_below s x (y ∷ l) (r, a) e = ground (arith, find_below s x l a e)

find_above :
    (s : ℕ) (x : WcbReceivedPack) (l : List WcbReceivedPack)
    → ToAll Before x l
    → x.header.seq ≡ s
    → find s l ≡ none
unfolding find
find_above s x [] a e = refl
find_above s x (y ∷ l) (r, a) e = ground (arith, find_above s x l a e)

or_else-none : (o : Option WcbReceivedPack) → or_else o none ≡ o
or_else-none none = refl
or_else-none (some p) = refl

find-back :
    (s : ℕ) (p : WcbReceivedPack) (l : List WcbReceivedPack)
    → Chain (Flip Before) l
    → find s (insert_from_back p l) ≡ or_else (find s l) (find s (p ∷ []))
unfolding find insert_from_back
find-back s p [] c = refl
find-back s p (x ∷ l) (a, c) = elim (Bool-cases (x.header.seq == p.header.seq)) [
  | inl same ↦ ground (arith, same, or_else-none (find s l))
  | inr other ↦ elim (Bool-cases (ltb p.header.seq x.header.seq)) [
    | inl less ↦ ground (arith, other, less, find-back s p l c)
    | inr more ↦
        let lt : Before x p = grind arith in
        ground
          (arith, other, more, or_else-none (find s l), find_below s p l (below_all p x l lt a))
  ]
]

find-append :
    (s : ℕ) (xs ys : List WcbReceivedPack) → find s (xs ++ ys) ≡ or_else (find s xs) (find s ys)
unfolding find
find-append s [] ys = refl
find-append s (x ∷ xs) ys = ground (arith, find-append s xs ys)

find-reverse_back :
    (s : ℕ) (l : List WcbReceivedPack) → Chain (Flip Before) l → find s (reverse l) ≡ find s l
unfolding find
find-reverse_back s [] c = refl
find-reverse_back s (x ∷ l) (a, c) =
    rw (reverse-cons x l, find-append s (reverse l) (x ∷ []), find-reverse_back s l c)
      (ground (arith, find_below s x l a))

find-reverse : (s : ℕ) (l : List WcbReceivedPack) → IsSorted l → find s (reverse l) ≡ find s l
unfolding find
find-reverse s [] c = refl
find-reverse s (x ∷ l) (a, c) =
    rw (reverse-cons x l, find-append s (reverse l) (x ∷ []), find-reverse s l c)
      (ground (arith, find_above s x l a))

-- `insert` keeps the list sorted by strictly growing numbers, and adds the pack exactly if its number is new: every
-- number finds the pack that it found before, and otherwise the new one.
pub insert_lem :
    (p : WcbReceivedPack) (l : List WcbReceivedPack)
    → IsSorted l
    → IsSorted (insert p l) × ((s : ℕ) → find s (insert p l) ≡ or_else (find s l) (find s (p ∷ [])))
unfolding insert
insert_lem p l c =
    let d : Chain (Flip Before) (reverse l) = Chain-reverse (Flip Before) l c in
    (
      Chain-reverse Before _ (back-Chain p (reverse l) d),
      λ s.
          find-reverse_back s _ (back-Chain p (reverse l) d)
          ∙ find-back s p (reverse l) d
          ∙ ap (λ o. or_else o (find s (p ∷ []))) (find-reverse s l c),
    )
