-- ===== src/Bytes/Tests.antt =====
-- Bytes on concrete values.
use wawo.Prelude.{◌≡◌, refl, [], ◌∷◌}
use wawo.Bytes.{write_impl, read_impl, read_u32}

big_endian : write_impl 4 0x01020304 ≡ 1 ∷ 2 ∷ 3 ∷ 4 ∷ []
unfolding write_impl
big_endian = refl

read_back : read_u32 (1 ∷ 2 ∷ 3 ∷ 4 ∷ 9 ∷ []) ≡ 0x01020304
unfolding read_u32 read_impl
read_back = refl
