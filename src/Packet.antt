-- ===== src/Packet.antt =====
-- include/wawo/packet.hpp: the growing byte buffer that messages are built in, writable at both ends.
-- `none` is an assertion or a condition check that fails.
pub mod Grow
pub mod Ends
pub mod Reads
pub mod Fill
pub mod Made
mod Tests
use wawo.Prelude.{
  ℕ, zero, suc, ◌+◌, ◌-◌, ◌*◌, ◌/◌, ◌≤◌, ◌<◌, ◌≡◌, Bool, Option, none, some, List, [], ◌++◌, ltb,
  leb, not, ◌==◌, ◌&&◌, if◌then◌else◌, ◌>>=◌, ◌>>◌, assert, length, take, replicate,
}
use wawo.Prelude.Words.{add32, sub32}
use wawo.Prelude.Memory.{slice, blit}
use wawo.Bytes.{read_u32, write_u32}

pub record Packet : Type 0 where
  pub m_buffer : List ℕ
  pub m_left_capacity : ℕ
  pub m_read_idx : ℕ
  pub m_right_capacity : ℕ
  pub m_write_idx : ℕ

abbrev pub pack_min_left_capacity : ℕ
pack_min_left_capacity = 128

abbrev pub pack_max_left_capacity : ℕ
pack_max_left_capacity = 1024 * 1024 * 16

abbrev pub pack_min_right_capacity : ℕ
pack_min_right_capacity = 256

abbrev pub pack_max_right_capacity : ℕ
pack_max_right_capacity = 1024 * 1024 * 16

abbrev pub pack_increment_left_size : ℕ
pack_increment_left_size = 1024 * 8 - 128

abbrev pub pack_increment_right_size : ℕ
pack_increment_right_size = 1024 * 8 - 128

abbrev pub pack_init_left_capacity : ℕ
pack_init_left_capacity = pack_min_left_capacity

abbrev pub pack_init_right_capacity : ℕ
pack_init_right_capacity = 1024 * 4 - pack_min_left_capacity - 128

-- The cells that `malloc` and `realloc` add; debug builds fill the first ones with 'w'.
unfoldable pub fresh_cells : ℕ → List ℕ
fresh_cells n = replicate n b'w'

unfoldable pub capacity : Packet → ℕ
capacity p = add32 p.m_left_capacity p.m_right_capacity

-- `len`, without its assertion; `checked_len` has it.
unfoldable pub len : Packet → ℕ
len p = sub32 p.m_write_idx p.m_read_idx

unfoldable pub left_left_capacity : Packet → ℕ
left_left_capacity p = p.m_read_idx

unfoldable pub left_right_capacity : Packet → ℕ
left_right_capacity p = sub32 (capacity p) p.m_write_idx

abbrev pub max_of : ℕ → ℕ → ℕ
max_of a b = if ltb b a then a else b

-- The constructor, by `_init_buffer`.
unfoldable pub init : ℕ → ℕ → Option Packet
init right left =
    let l = max_of left pack_min_left_capacity in
    let r = max_of right pack_min_right_capacity in
    assert (ltb l pack_max_left_capacity)
    >> (assert (leb r pack_max_right_capacity)
        >> some (record {
          m_buffer = fresh_cells (add32 l r);
          m_left_capacity = l;
          m_read_idx = l;
          m_right_capacity = r;
          m_write_idx = l;
        }))

-- `_extend_leftbuffer_capacity__`: the bytes held move right, if there are any.
unfoldable pub extend_leftbuffer_capacity : Packet → Option Packet
extend_leftbuffer_capacity p =
    let cells = p.m_buffer ++ fresh_cells pack_increment_left_size in
    let grown = record p {
      m_buffer = cells;
      m_left_capacity = p.m_left_capacity + pack_increment_left_size;
    } in
    let new_left = add32 p.m_read_idx pack_increment_left_size in
    let moved = record grown {
      m_buffer = blit cells new_left (slice cells p.m_read_idx (len p));
      m_write_idx = add32 p.m_write_idx pack_increment_left_size;
      m_read_idx = new_left;
    } in
    assert (leb (p.m_left_capacity + pack_increment_left_size) pack_max_left_capacity)
    >> (assert (leb p.m_read_idx p.m_write_idx) >> some (if ltb 0 (len p) then moved else grown))

-- `_extend_rightbuffer_capacity__`.
unfoldable pub extend_rightbuffer_capacity : Packet → Option Packet
extend_rightbuffer_capacity p =
    assert (not (p.m_right_capacity == 0))
    >> (assert (leb (p.m_right_capacity + pack_increment_right_size) pack_max_right_capacity)
        >> some (record p {
          m_buffer = p.m_buffer ++ fresh_cells pack_increment_right_size;
          m_right_capacity = p.m_right_capacity + pack_increment_right_size;
        }))

-- The loops that extend while `length` bytes do not fit. The first argument counts the extensions
-- that the maximum still allows: at 0 the next one is refused.
unfoldable pub extend_left_while : ℕ → ℕ → Packet → Option Packet
extend_left_while zero n p = assert (leb n (left_left_capacity p)) >> some p
extend_left_while (suc k) n p =
    let more = extend_leftbuffer_capacity p >>= extend_left_while k n in
    if ltb (left_left_capacity p) n then more else some p

unfoldable pub extend_right_while : ℕ → ℕ → Packet → Option Packet
extend_right_while zero n p = assert (leb n (left_right_capacity p)) >> some p
extend_right_while (suc k) n p =
    let more = extend_rightbuffer_capacity p >>= extend_right_while k n in
    if ltb (left_right_capacity p) n then more else some p

abbrev pub left_extensions : Packet → ℕ
left_extensions p = (pack_max_left_capacity - p.m_left_capacity) / pack_increment_left_size

abbrev pub right_extensions : Packet → ℕ
right_extensions p = (pack_max_right_capacity - p.m_right_capacity) / pack_increment_right_size

-- `write_left` and `write`, of the bytes at an address.
unfoldable pub write_left : List ℕ → Packet → Option Packet
write_left bytes p = extend_left_while (left_extensions p) (length bytes) p >>= λ p'.
    let idx = sub32 p'.m_read_idx (length bytes) in
    some (record p' { m_read_idx = idx; m_buffer = blit p'.m_buffer idx bytes })

unfoldable pub write : List ℕ → Packet → Option Packet
write bytes p = extend_right_while (right_extensions p) (length bytes) p >>= λ p'. some (record p' {
  m_buffer = blit p'.m_buffer p'.m_write_idx bytes;
  m_write_idx = add32 p'.m_write_idx (length bytes);
})

-- `write_left<u32_t>` and `write<u32_t>`.
abbrev pub write_left_u32 : ℕ → Packet → Option Packet
write_left_u32 t p = write_left (write_u32 t) p

abbrev pub write_u32_t : ℕ → Packet → Option Packet
write_u32_t t p = write (write_u32 t) p

abbrev pub checked_len : Packet → Option ℕ
checked_len p = assert (leb p.m_read_idx p.m_write_idx) >> some (len p)

-- The bytes from `begin()`, `len()` of them.
abbrev pub begin_len : Packet → Option (List ℕ)
begin_len p = checked_len p >>= λ l. some (slice p.m_buffer p.m_read_idx l)

unfoldable pub forward_write_index : ℕ → Packet → Option Packet
forward_write_index n p =
    assert (leb n (left_right_capacity p))
    >> some (record p { m_write_idx = add32 p.m_write_idx n })

-- `read(target, length)`: the bytes that go to the target.
unfoldable pub read : ℕ → Packet → Option (List ℕ × Packet)
read n p = checked_len p >>= λ l.
    assert (leb n l && ltb 0 n)
    >> some (slice p.m_buffer p.m_read_idx n, record p { m_read_idx = add32 p.m_read_idx n })

unfoldable pub skip : ℕ → Packet → Option Packet
skip n p =
    checked_len p >>= λ l. assert (leb n l) >> some (record p { m_read_idx = add32 p.m_read_idx n })

-- `peek(buffer, size)`.
unfoldable pub peek : ℕ → Packet → Option (List ℕ)
peek size p =
    checked_len p >>= λ l. some (slice p.m_buffer p.m_read_idx (if leb l size then l else size))

-- `read<u32_t>()` and `peek<u32_t>()`.
unfoldable pub read_u32_t : Packet → Option (ℕ × Packet)
read_u32_t p = checked_len p >>= λ l.
    assert (leb 4 l)
    >> some
        (read_u32 (slice p.m_buffer p.m_read_idx 4), record p { m_read_idx = add32 p.m_read_idx 4 })

unfoldable pub peek_u32_t : Packet → Option ℕ
peek_u32_t p =
    checked_len p >>= λ l. assert (leb 4 l) >> some (read_u32 (slice p.m_buffer p.m_read_idx 4))

unfoldable pub reset : Packet → Option Packet
reset p =
    assert (ltb 0 p.m_left_capacity && ltb p.m_left_capacity pack_max_left_capacity)
    >> some (record p { m_read_idx = p.m_left_capacity; m_write_idx = p.m_left_capacity })

-- The representation invariant: the indices are in order, and lie in the buffer.
pub record IsValid (p : Packet) : Type 0 where
  pub storage : length p.m_buffer ≡ p.m_left_capacity + p.m_right_capacity
  pub left_max : p.m_left_capacity ≤ pack_max_left_capacity
  pub right_max : p.m_right_capacity ≤ pack_max_right_capacity
  pub right_some : 0 < p.m_right_capacity
  pub ordered : p.m_read_idx ≤ p.m_write_idx
  pub inside : p.m_write_idx ≤ p.m_left_capacity + p.m_right_capacity

-- The bytes that the packet holds.
unfoldable pub contents : Packet → List ℕ
contents p = slice p.m_buffer p.m_read_idx (p.m_write_idx - p.m_read_idx)
