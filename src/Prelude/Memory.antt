-- ===== src/Prelude/Memory.antt =====
-- Blocks of memory as lists of bytes: what `memcpy` reads and writes.
use wawo.Prelude.Lists.{
  length, take, drop, take_all, drop_all, take-append, drop-append, take-take, drop-drop, drop-take,
  length-append, length-take, length-drop, take_cong, drop_cong, take_add,
}
use Prim.Native.Nat.{ℕ, ◌+◌, ◌-◌, ◌≤◌}
use mathlib.Core.Path.{◌≡◌, ap, sym, ◌∙◌}
use mathlib.Core.List.{List, ◌++◌, append-nil, append_assoc}
use native.Mathlib.Omega.{arith}

module _ {ℓ} {A : Type ℓ} where
  -- The `n` cells from offset `off`.
  abbrev pub slice : List A → ℕ → ℕ → List A
  slice buf off n = take n (drop off buf)

  -- `memcpy(buf + off, bytes, n)` for the `n` cells of `bytes`.
  unfoldable pub blit : List A → ℕ → List A → List A
  blit buf off bytes = take off buf ++ (bytes ++ drop (off + length bytes) buf)

  pub length-blit :
      (buf : List A) (off : ℕ) (bytes : List A)
      → off + length bytes ≤ length buf
      → length (blit buf off bytes) ≡ length buf
  unfolding blit
  length-blit buf off bytes h = omega (
    arith,
    length-append (take off buf) (bytes ++ drop (off + length bytes) buf),
    length-append bytes (drop (off + length bytes) buf),
    length-take off buf,
    length-drop (off + length bytes) buf,
  )

  pub take-append_le : (n : ℕ) (xs ys : List A) → n ≤ length xs → take n (xs ++ ys) ≡ take n xs
  take-append_le n xs ys h =
      take-append n xs ys
      ∙ ap (◌++◌ (take n xs)) (take_cong ys {m = n - length xs} {n = 0} (omega arith))
      ∙ append-nil (take n xs)

  pub take-append_ge :
      (n : ℕ) (xs ys : List A) → length xs ≤ n → take n (xs ++ ys) ≡ xs ++ take (n - length xs) ys
  take-append_ge n xs ys h = rw (take-append n xs ys, take_all n xs h)

  pub drop-append_le :
      (n : ℕ) (xs ys : List A) → n ≤ length xs → drop n (xs ++ ys) ≡ drop n xs ++ ys
  drop-append_le n xs ys h =
      drop-append n xs ys
      ∙ ap (◌++◌ (drop n xs)) (drop_cong ys {m = n - length xs} {n = 0} (omega arith))

  pub drop-append_ge :
      (n : ℕ) (xs ys : List A) → length xs ≤ n → drop n (xs ++ ys) ≡ drop (n - length xs) ys
  drop-append_ge n xs ys h = rw (drop-append n xs ys, drop_all n xs h)

  -- Cells before the written ones.
  pub take-blit_le :
      (k : ℕ) (buf : List A) (off : ℕ) (bytes : List A)
      → off + length bytes ≤ length buf
      → k ≤ off
      → take k (blit buf off bytes) ≡ take k buf
  unfolding blit
  take-blit_le k buf off bytes h le =
      take-append_le k (take off buf) _ (omega (arith, length-take off buf))
      ∙ take-take k off buf
      ∙ take_cong buf (omega arith)

  -- Up to the last written cell.
  pub take-blit_end :
      (k : ℕ) (buf : List A) (off : ℕ) (bytes : List A)
      → off + length bytes ≤ length buf
      → k ≡ off + length bytes
      → take k (blit buf off bytes) ≡ take off buf ++ bytes
  unfolding blit
  take-blit_end k buf off bytes h e =
      take-append_ge k (take off buf) _ (omega (arith, length-take off buf))
      ∙ ap (◌++◌ (take off buf)) (
          take_cong (bytes ++ drop (off + length bytes) buf) {m = k - length (take off buf)}
            {n = length bytes} (omega (arith, length-take off buf))
          ∙ take-append_le (length bytes) bytes _ (omega arith)
          ∙ take_all (length bytes) bytes (omega arith))

  -- Cells behind the written ones.
  pub drop-blit_ge :
      (k : ℕ) (buf : List A) (off : ℕ) (bytes : List A)
      → off + length bytes ≤ length buf
      → off + length bytes ≤ k
      → drop k (blit buf off bytes) ≡ drop k buf
  unfolding blit
  drop-blit_ge k buf off bytes h le =
      drop-append_ge k (take off buf) _ (omega (arith, length-take off buf))
      ∙ drop-append_ge (k - length (take off buf)) bytes _ (omega (arith, length-take off buf))
      ∙ drop-drop (k - length (take off buf) - length bytes) (off + length bytes) buf
      ∙ drop_cong buf (omega (arith, length-take off buf))

  -- From a cell before the written ones.
  pub drop-blit_le :
      (k : ℕ) (buf : List A) (off : ℕ) (bytes : List A)
      → off + length bytes ≤ length buf
      → k ≤ off
      → drop k (blit buf off bytes)
        ≡ slice buf k (off - k) ++ (bytes ++ drop (off + length bytes) buf)
  unfolding blit
  drop-blit_le k buf off bytes h le =
      drop-append_le k (take off buf) _ (omega (arith, length-take off buf))
      ∙ ap (λ xs. xs ++ (bytes ++ drop (off + length bytes) buf)) (drop-take k off buf)

  -- A slice that ends with the written cells.
  pub slice-blit_end :
      (k n : ℕ) (buf : List A) (off : ℕ) (bytes : List A)
      → off + length bytes ≤ length buf
      → k ≤ off
      → n ≡ off + length bytes - k
      → slice (blit buf off bytes) k n ≡ slice buf k (off - k) ++ bytes
  slice-blit_end k n buf off bytes h le e = rw (drop-blit_le k buf off bytes h le) (
      rw (← append_assoc) (
        take-append_le n (slice buf k (off - k) ++ bytes) _ (omega (arith, len))
        ∙ take_all n (slice buf k (off - k) ++ bytes) (omega (arith, len))))
    where
      len : length (slice buf k (off - k) ++ bytes) ≡ off - k + length bytes
      len = omega (
        arith,
        length-append (slice buf k (off - k)) bytes,
        length-take (off - k) (drop k buf),
        length-drop k buf,
      )

  pub length-slice :
      (buf : List A) (off n : ℕ) → off + n ≤ length buf → length (slice buf off n) ≡ n
  length-slice buf off n h = omega (arith, length-take n (drop off buf), length-drop off buf)

  -- Consecutive slices.
  pub slice-append :
      (buf : List A) (off m n k : ℕ)
      → k ≡ off + m
      → slice buf off m ++ slice buf k n ≡ slice buf off (m + n)
  slice-append buf off m n k e =
      ap (λ xs. take m (drop off buf) ++ take n xs) (drop_cong buf e ∙ sym (drop-drop m off buf))
      ∙ take_add m n (drop off buf)

  pub take-slice :
      (m n : ℕ) (buf : List A) (off : ℕ) → m ≤ n → take m (slice buf off n) ≡ slice buf off m
  take-slice m n buf off h = take-take m n (drop off buf) ∙ take_cong (drop off buf) (omega arith)

  pub drop-slice :
      (m n : ℕ) (buf : List A) (off k j : ℕ)
      → k ≡ off + m
      → j ≡ n - m
      → drop m (slice buf off n) ≡ slice buf k j
  drop-slice m n buf off k j e f =
      drop-take m n (drop off buf)
      ∙ ap (take (n - m)) (drop-drop m off buf ∙ drop_cong buf (sym e))
      ∙ take_cong (drop k buf) (sym f)
