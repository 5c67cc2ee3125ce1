-- ===== src/RingBuffer.antt =====
-- include/wawo/bytes_ringbuffer.hpp: the byte ring that buffers every stream of the library.
-- `none` is an assertion that fails. `m_capacity` counts one cell that stays unused.
pub mod Contents
pub mod Skip
pub mod Read
pub mod Store
pub mod Write
pub mod Words
pub mod Refine
mod Tests
use wawo.Prelude.{
  ℕ, ◌+◌, ◌-◌, ◌*◌, ◌%◌, ◌^◌, ◌≤◌, ◌<◌, ◌≡◌, Bool, true, false, Option, none, some, List, ◌++◌,
  arith, ltb, leb, ◌==◌, not, ◌&&◌, if◌then◌else◌, ◌>>=◌, ◌>>◌, assert, length, take, drop,
  replicate,
}
use wawo.Prelude.Words.{u32_mod, add32, sub32}
use wawo.Prelude.Memory.{slice, blit}
use wawo.Bytes.{read_u32}

pub record BytesRingbuffer : Type 0 where
  pub m_capacity : ℕ
  pub m_begin : ℕ
  pub m_end : ℕ
  pub m_buffer : List ℕ

abbrev pub max_ring_buffer_size : ℕ
max_ring_buffer_size = 1024 * 1024 * 32

abbrev pub min_ring_buffer_size : ℕ
min_ring_buffer_size = 1024 * 2

-- The cells that `malloc` returns; debug builds fill them with 'i'.
abbrev pub malloc : ℕ → List ℕ
malloc n = replicate n b'i'

-- `reset` with the buffer allocated.
unfoldable pub reset : BytesRingbuffer → BytesRingbuffer
reset r = record r { m_begin = 0; m_end = 0 }

-- The constructor, with the branch of `reset` that allocates.
pub init : ℕ → Option BytesRingbuffer
init capacity = do
  assert (leb min_ring_buffer_size capacity && leb capacity max_ring_buffer_size)
  some (record {
    m_capacity = capacity + 1;
    m_begin = 0;
    m_end = 0;
    m_buffer = malloc (capacity + 1);
  })

unfoldable pub is_empty : BytesRingbuffer → Bool
is_empty r = r.m_begin == r.m_end

unfoldable pub is_full : BytesRingbuffer → Bool
is_full r = add32 r.m_end 1 % r.m_capacity == r.m_begin

unfoldable pub capacity : BytesRingbuffer → ℕ
capacity r = sub32 r.m_capacity 1

unfoldable pub count : BytesRingbuffer → ℕ
count r = add32 (sub32 r.m_end r.m_begin) r.m_capacity % r.m_capacity

unfoldable pub left_capacity : BytesRingbuffer → ℕ
left_capacity r = sub32 (capacity r) (count r)

unfoldable pub skip : ℕ → BytesRingbuffer → Option BytesRingbuffer
skip s r = do
  assert (leb s (count r))
  let r' = record r { m_begin = add32 r.m_begin s % r.m_capacity }
  some (if is_empty r' then reset r' else r')

-- The bytes that `read` copies to the target: `copy_c` of them.
unfoldable pub copied : BytesRingbuffer → ℕ → List ℕ
copied r copy_c =
    let tail_c = sub32 r.m_capacity r.m_begin in
    if ltb r.m_begin r.m_end
    then slice r.m_buffer r.m_begin copy_c
    else (if leb copy_c tail_c
        then slice r.m_buffer r.m_begin copy_c
        else slice r.m_buffer r.m_begin tail_c ++ take (sub32 copy_c tail_c) r.m_buffer)

-- `read(target, s, move)`: the count that it returns, the target's bytes and the ring.
unfoldable pub read : ℕ → Bool → BytesRingbuffer → Option (ℕ × List ℕ × BytesRingbuffer)
read s move r =
    let avail_c = count r in
    let copy_c = if ltb s avail_c then s else avail_c in
    let target = copied r copy_c in
    if avail_c == 0
    then some (0, List.[], r)
    else (if move
        then (skip copy_c r >>= λ r'. some (copy_c, target, r'))
        else some (copy_c, target, r))

unfoldable pub peek : ℕ → BytesRingbuffer → Option (ℕ × List ℕ × BytesRingbuffer)
peek size r = read size false r

-- `try_read(buffer, size)`: whether it read, the bytes and the ring.
pub try_read : ℕ → BytesRingbuffer → Option (Bool × List ℕ × BytesRingbuffer)
try_read size r =
    if leb size (count r)
    then (do (n, target, r') ← read size true r; assert (n == size); some (true, target, r'))
    else some (false, List.[], r)

-- `read<u32_t>()` and `try_read<u32_t>(t)`.
unfoldable pub read_u32_t : BytesRingbuffer → Option (ℕ × BytesRingbuffer)
read_u32_t r = do
  assert (leb 4 (count r))
  (n, tmp, r') ← read 4 true r
  assert (n == 4)
  some (read_u32 tmp, r')

-- `none` inside is the answer `false`.
unfoldable pub try_read_u32_t : BytesRingbuffer → Option (Option ℕ × BytesRingbuffer)
try_read_u32_t r =
    if ltb (count r) 4 then some (none, r) else (read_u32_t r >>= λ (t, r'). some (some t, r'))

-- The copies of `write`, of `to_write_c` bytes, once an empty ring is set back to 0.
unfoldable pub store : List ℕ → ℕ → BytesRingbuffer → BytesRingbuffer
store bytes to_write_c r =
    let tail_s = sub32 r.m_capacity r.m_end in
    let straight = record r {
      m_buffer = blit r.m_buffer r.m_end (take to_write_c bytes);
      m_end = add32 r.m_end to_write_c % r.m_capacity;
    } in
    let end' = sub32 to_write_c tail_s in
    if leb r.m_end r.m_begin
    then straight
    else (if leb to_write_c tail_s then straight else record r {
      m_buffer =
          blit (blit r.m_buffer r.m_end (take tail_s bytes)) 0 (take end' (drop tail_s bytes));
      m_end = end';
    })

-- `write(bytes, s)`, `bytes` being the `s` bytes at the address.
unfoldable pub write : List ℕ → BytesRingbuffer → Option (ℕ × BytesRingbuffer)
write bytes r =
    let s = length bytes in
    let avail_s = left_capacity r in
    let r' = if r.m_end == r.m_begin then record r { m_end = 0; m_begin = 0 } else r in
    let to_write_c = if ltb s avail_s then s else avail_s in
    assert (not (s == 0))
    >> (if avail_s == 0 then some (0, r) else some (to_write_c, store bytes to_write_c r'))

-- The representation invariant: the indices lie in the buffer, and no u32_t sum wraps.
pub record IsValid (r : BytesRingbuffer) : Type 0 where
  pub storage : length r.m_buffer ≡ r.m_capacity
  pub room : 1 < r.m_capacity
  pub small : r.m_capacity ≤ max_ring_buffer_size + 1
  pub begin_in : r.m_begin < r.m_capacity
  pub end_in : r.m_end < r.m_capacity

-- The bytes that the ring holds, oldest first.
unfoldable pub contents : BytesRingbuffer → List ℕ
contents r =
    if leb r.m_begin r.m_end
    then slice r.m_buffer r.m_begin (r.m_end - r.m_begin)
    else slice r.m_buffer r.m_begin (r.m_capacity - r.m_begin) ++ take r.m_end r.m_buffer
