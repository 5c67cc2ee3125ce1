-- ===== src/Xxtea/Words.antt =====
-- Bytes as words and back, of include/wawo/security/xxtea.hpp.
use wawo.Prelude.{
  ℕ, ◌+◌, ◌*◌, ◌/◌, ◌%◌, ◌^◌, ◌≤◌, ◌<◌, ◌≡◌, refl, ap, List, [], ◌∷◌, ◌++◌, length, take, arith,
}
use wawo.Prelude.Words.{u32_mod}
use wawo.Xxtea.{word_of, xxtea_to_uint32_array, xxtea_to_bytes_array, last}
use wawo.Xxtea.Inverse.{AllWords}

abbrev pub AllBytes : List ℕ → Type 0
AllBytes [] = Unit {0}
AllBytes (b ∷ bs) = (b < 2 ^ 8) × AllBytes bs

-- A word is its four bytes, and four bytes are a word's.
word_of-bytes :
    (w : ℕ)
    → w < u32_mod
    → word_of (w % 2 ^ 8) ((w / 2 ^ 8) % 2 ^ 8) ((w / 2 ^ 16) % 2 ^ 8) ((w / 2 ^ 24) % 2 ^ 8) ≡ w
word_of-bytes w h = omega arith

pub words-bytes : (ws : List ℕ) → AllWords ws → xxtea_to_uint32_array (xxtea_to_bytes_array ws) ≡ ws
unfolding xxtea_to_uint32_array xxtea_to_bytes_array
words-bytes [] a = refl
words-bytes (w ∷ ws) (h, a) = rw (word_of-bytes w h, words-bytes ws a) refl

pub length-bytes : (ws : List ℕ) → length (xxtea_to_bytes_array ws) ≡ 4 * length ws
unfolding xxtea_to_bytes_array
length-bytes [] = refl
length-bytes (w ∷ ws) = omega (arith, length-bytes ws)

pub words-AllWords : (bs : List ℕ) → AllBytes bs → AllWords (xxtea_to_uint32_array bs)
unfolding xxtea_to_uint32_array
words-AllWords [] a = tt
words-AllWords (b1 ∷ []) (h1, _) = (omega arith, tt)
words-AllWords (b1 ∷ b2 ∷ []) (h1, (h2, _)) = (omega arith, tt)
words-AllWords (b1 ∷ b2 ∷ b3 ∷ []) (h1, (h2, (h3, _))) = (omega arith, tt)
words-AllWords (b1 ∷ b2 ∷ b3 ∷ b4 ∷ bs) (h1, (h2, (h3, (h4, a)))) =
    (omega arith, words-AllWords bs a)

-- The number of words that the bytes fill.
pub length-words :
    (bs : List ℕ)
    → (length bs ≤ 4 * length (xxtea_to_uint32_array bs))
      × (4 * length (xxtea_to_uint32_array bs) ≤ length bs + 3)
unfolding xxtea_to_uint32_array
length-words [] = (omega arith, omega arith)
length-words (b1 ∷ []) = (omega arith, omega arith)
length-words (b1 ∷ b2 ∷ []) = (omega arith, omega arith)
length-words (b1 ∷ b2 ∷ b3 ∷ []) = (omega arith, omega arith)
length-words (b1 ∷ b2 ∷ b3 ∷ b4 ∷ bs) =
    let (a, b) = length-words bs in (omega (arith, a), omega (arith, b))

-- The bytes come back, with zeros behind them.
cell :
    (b1 b2 b3 b4 : ℕ)
    → b1 < 2 ^ 8
    → b2 < 2 ^ 8
    → b3 < 2 ^ 8
    → b4 < 2 ^ 8
    → (word_of b1 b2 b3 b4 % 2 ^ 8 ≡ b1)
      × ((word_of b1 b2 b3 b4 / 2 ^ 8) % 2 ^ 8 ≡ b2)
      × ((word_of b1 b2 b3 b4 / 2 ^ 16) % 2 ^ 8 ≡ b3)
      × ((word_of b1 b2 b3 b4 / 2 ^ 24) % 2 ^ 8 ≡ b4)
cell b1 b2 b3 b4 h1 h2 h3 h4 = (omega arith, omega arith, omega arith, omega arith)

pub bytes-words :
    (bs : List ℕ)
    → AllBytes bs
    → take (length bs) (xxtea_to_bytes_array (xxtea_to_uint32_array bs)) ≡ bs
unfolding xxtea_to_uint32_array xxtea_to_bytes_array
bytes-words [] a = refl
bytes-words (b1 ∷ []) (h1, _) =
    let (e1, _, _, _) = cell b1 0 0 0 h1 (omega arith) (omega arith) (omega arith) in rw e1 refl
bytes-words (b1 ∷ b2 ∷ []) (h1, (h2, _)) =
    let (e1, e2, _, _) = cell b1 b2 0 0 h1 h2 (omega arith) (omega arith) in rw (e1, e2) refl
bytes-words (b1 ∷ b2 ∷ b3 ∷ []) (h1, (h2, (h3, _))) =
    let (e1, e2, e3, _) = cell b1 b2 b3 0 h1 h2 h3 (omega arith) in rw (e1, e2, e3) refl
bytes-words (b1 ∷ b2 ∷ b3 ∷ b4 ∷ bs) (h1, (h2, (h3, (h4, a)))) =
    let (e1, e2, e3, e4) = cell b1 b2 b3 b4 h1 h2 h3 h4 in
    rw (e1, e2, e3, e4, bytes-words bs a) refl

-- A word behind does not change the bytes in front.
pub bytes-words-snoc :
    (bs : List ℕ) (n : ℕ)
    → AllBytes bs
    → take (length bs) (xxtea_to_bytes_array (xxtea_to_uint32_array bs ++ n ∷ [])) ≡ bs
unfolding xxtea_to_uint32_array xxtea_to_bytes_array
bytes-words-snoc [] n a = refl
bytes-words-snoc (b1 ∷ []) n (h1, _) =
    let (e1, _, _, _) = cell b1 0 0 0 h1 (omega arith) (omega arith) (omega arith) in rw e1 refl
bytes-words-snoc (b1 ∷ b2 ∷ []) n (h1, (h2, _)) =
    let (e1, e2, _, _) = cell b1 b2 0 0 h1 h2 (omega arith) (omega arith) in rw (e1, e2) refl
bytes-words-snoc (b1 ∷ b2 ∷ b3 ∷ []) n (h1, (h2, (h3, _))) =
    let (e1, e2, e3, _) = cell b1 b2 b3 0 h1 h2 h3 (omega arith) in rw (e1, e2, e3) refl
bytes-words-snoc (b1 ∷ b2 ∷ b3 ∷ b4 ∷ bs) n (h1, (h2, (h3, (h4, a)))) =
    let (e1, e2, e3, e4) = cell b1 b2 b3 b4 h1 h2 h3 h4 in
    rw (e1, e2, e3, e4, bytes-words-snoc bs n a) refl

-- The word at the end.
pub last-snoc : (d : ℕ) (ws : List ℕ) (n : ℕ) → last d (ws ++ n ∷ []) ≡ n
unfolding last
last-snoc d [] n = refl
last-snoc d (w ∷ ws) n = last-snoc w ws n

pub take-snoc : (ws : List ℕ) (n : ℕ) → take (length ws) (ws ++ n ∷ []) ≡ ws
take-snoc [] n = refl
take-snoc (w ∷ ws) n = ap (◌∷◌ w) (take-snoc ws n)

pub AllWords-snoc : (ws : List ℕ) (n : ℕ) → AllWords ws → n < u32_mod → AllWords (ws ++ n ∷ [])
AllWords-snoc [] n a h = (h, tt)
AllWords-snoc (w ∷ ws) n (k, a) h = (k, AllWords-snoc ws n a h)
