-- ===== src/RingBuffer/Words.antt =====
-- `try_read<u32_t>` of include/wawo/bytes_ringbuffer.hpp.
use wawo.Prelude.{
  ◌≤◌, ◌<◌, ◌≡◌, refl, true, false, none, some, lt→ltb, arith, length, take, drop, ltb, leb, min, ℕ,
}
use wawo.Bytes.{read_u32}
use wawo.RingBuffer.{BytesRingbuffer, IsValid, contents, count, try_read_u32_t, read_u32_t}
use wawo.RingBuffer.Contents.{count-eq-length}
use wawo.RingBuffer.Read.{read_lem}

-- What `r'` is, when the first `k` bytes of `r` are taken out.
pub record Taken (k : ℕ) (r r' : BytesRingbuffer) : Type 0 where
  pub valid : IsValid r'
  pub left : contents r' ≡ drop k (contents r)
  pub size : r'.m_capacity ≡ r.m_capacity

pub try_read_u32_lem :
    (r : BytesRingbuffer)
    → IsValid r
    → 4 ≤ length (contents r)
    → (r' : BytesRingbuffer) × (try_read_u32_t r ≡ some (some (read_u32 (take 4 (contents r))), r'))
      × Taken 4 r r'
unfolding try_read_u32_t read_u32_t
try_read_u32_lem r v h =
    let (r', p) = read_lem r 4 true v in
    let c : count r ≡ length (contents r) = count-eq-length r v in
    let enough : ltb (count r) 4 ≡ false = grind (arith, c, h) in
    let all : leb 4 (count r) ≡ true = grind (arith, c, h) in
    let four : min 4 (count r) ≡ 4 = omega (arith, c, h) in
    (r', rw (enough, all, p.0, four) refl, record { valid = p.1; left = p.2; size = p.3 })

-- Fewer than four bytes: the answer is `false`.
pub try_read_u32_short :
    (r : BytesRingbuffer) → IsValid r → length (contents r) < 4 → try_read_u32_t r ≡ some (none, r)
unfolding try_read_u32_t
try_read_u32_short r v h = rw (lt→ltb (count r) 4 (omega (arith, h, count-eq-length r v))) refl
