-- ===== src/Bytes.antt =====
-- include/wawo/bytes_helper.hpp: big-endian integers as bytes. A value of an unsigned type of `w`
-- bytes is a number below `256 ^ w`; memory is a list of bytes from the address on.
pub mod Laws
mod Tests
use wawo.Prelude.{ℕ, zero, suc, ◌+◌, ◌*◌, ◌/◌, ◌%◌, ◌^◌, List, [], ◌∷◌}

-- The loop of `write_impl`, for `i` from `n - 1` down to 0: `(val >> (i * 8)) & 0xff`.
unfoldable pub write_impl : ℕ → ℕ → List ℕ
write_impl zero val = []
write_impl (suc i) val = (val / 256 ^ i) % 256 ∷ write_impl i val

-- The loop of `read_impl`: the shift drops what leaves the `w` bytes of T, and leaves the low
-- eight bits clear, so that `|=` of a byte adds it.
unfoldable pub read_loop : ℕ → ℕ → ℕ → List ℕ → ℕ
read_loop w zero ret bytes = ret
read_loop w (suc i) ret [] = ret
read_loop w (suc i) ret (b ∷ bytes) = read_loop w i ((ret * 256) % 256 ^ w + b) bytes

unfoldable pub read_impl : ℕ → List ℕ → ℕ
unfolding read_loop
read_impl w bytes = read_loop w w 0 bytes

-- `read_u16` and `read_u32`, and the writers that the codecs call.
unfoldable pub read_u16 : List ℕ → ℕ
read_u16 bytes = read_impl 2 bytes

unfoldable pub read_u32 : List ℕ → ℕ
read_u32 bytes = read_impl 4 bytes

unfoldable pub write_u16 : ℕ → List ℕ
write_u16 val = write_impl 2 val

unfoldable pub write_u32 : ℕ → List ℕ
write_u32 val = write_impl 4 val
