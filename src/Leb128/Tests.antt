-- ===== src/Leb128/Tests.antt =====
-- The encoding at single values.
use sea_pkg.Base.{ℕ, ◌-◌, ◌^◌, ◌≡◌, refl, List, [], ◌∷◌, ◌++◌, ◌≤◌, length, arith, some}
use sea_pkg.Base.Outcome.{ok}
use sea_pkg.Leb128.{read_var_uint32_size, read_varint64, write_var_uint32, write_varint64}
use sea_pkg.Leb128.Unsigned.{read_var_uint32_size-write_var_uint32}
use sea_pkg.Leb128.Decode.{uleb_decode, read_var_uint32_size-uleb_decode}

-- 624485 is the example of the DWARF standard.
write_624485 : write_var_uint32 624485 ≡ some (0xe5 ∷ 0x8e ∷ 0x26 ∷ [])
unfolding write_var_uint32
write_624485 = refl

-- -123456, as a bit pattern.
write_minus_123456 : write_varint64 (2 ^ 64 - 123456) ≡ some (0xc0 ∷ 0xbb ∷ 0x78 ∷ [])
unfolding write_varint64
write_minus_123456 = refl

read_minus_123456 : read_varint64 (0xc0 ∷ 0xbb ∷ 0x78 ∷ 7 ∷ []) ≡ ok (2 ^ 64 - 123456, 7 ∷ [])
unfolding read_varint64
read_minus_123456 = refl

read_var_uint32_size-write_var_uint32_example :
    (bs : List ℕ) × (write_var_uint32 624485 ≡ some bs)
    × (read_var_uint32_size (bs ++ 7 ∷ []) ≡ ok ((624485, length bs), 7 ∷ []))
    × (length bs ≤ 5)
read_var_uint32_size-write_var_uint32_example =
    read_var_uint32_size-write_var_uint32 624485 (7 ∷ []) (omega arith)

-- A number of 36 bits loses the highest four.
read_var_uint32_size-uleb_decode_example :
    read_var_uint32_size (0xff ∷ 0xff ∷ 0xff ∷ 0xff ∷ 0xff ∷ 1 ∷ 7 ∷ [])
    ≡ ok ((2 ^ 32 - 1, 6), 7 ∷ [])
unfolding uleb_decode
read_var_uint32_size-uleb_decode_example =
    read_var_uint32_size-uleb_decode (0xff ∷ 0xff ∷ 0xff ∷ 0xff ∷ 0xff ∷ 1 ∷ 7 ∷ []) (
      omega arith,
      (omega arith, (omega arith, (omega arith, (omega arith, (omega arith, (omega arith, tt)))))),
    )
