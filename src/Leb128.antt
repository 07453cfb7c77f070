-- ===== src/Leb128.antt =====
-- wagon/wasm/leb128: LEB128 integers of 32 and 64 bits.
-- A reader is the list of the bytes still to come, and a writer's buffer the list of its bytes.
-- An `int32` or `int64` is its two's complement bit pattern. `shift` and `size` count what was read
-- of an input in memory, so they do not wrap; a Go shift by the width or more gives 0, as here.
pub mod Unsigned
pub mod Reader
pub mod Decode
pub mod Local
mod Tests
use sea_pkg.Base.{ℕ, zero, suc, ◌+◌, ◌-◌, ◌*◌, ◌/◌, ◌%◌, ◌^◌, List, [], ◌∷◌, ◌++◌}
use sea_pkg.Base.{
  Bool, ◌&&◌, ◌||◌, not, ◌==◌, ltb, if◌then◌else◌, bit_and, bit_or, Option, none, some,
}
use sea_pkg.Base.Outcome.{Outcome, ok, err, ◌>>=◌}

-- `io.ReadFull` of one byte fails with `io.EOF` at the end of the input.
pub data ReadError : Type 0 where
  eof : ReadError

abbrev pub Read : Type 0 → Type 0
Read A = Outcome ReadError (A × List ℕ)

-- The loop of `ReadVarUint32Size`; the pair is the value and its size in bytes.
unfoldable pub read_var_uint32_loop : List ℕ → ℕ → ℕ → ℕ → Read (ℕ × ℕ)
read_var_uint32_loop [] res size shift = err eof
read_var_uint32_loop (cur ∷ r) res size shift =
    let res' = bit_or res (bit_and cur 0x7f * 2 ^ shift % 2 ^ 32) in
    let more = read_var_uint32_loop r res' (size + 1) (shift + 7) in
    if bit_and cur 0x80 == 0 then ok ((res', size + 1), r) else more

unfoldable pub read_var_uint32_size : List ℕ → Read (ℕ × ℕ)
unfolding read_var_uint32_loop
read_var_uint32_size r = read_var_uint32_loop r 0 0 0

unfoldable pub read_var_uint32 : List ℕ → Read ℕ
unfolding read_var_uint32_size
read_var_uint32 r = do ((n, _), rest) ← read_var_uint32_size r; ok (n, rest)

-- `x >> 1` on an `int64`.
abbrev pub sar_one : ℕ → ℕ
sar_one x = x / 2 + (if ltb x (2 ^ 63) then 0 else 2 ^ 63)

-- After the loop of `ReadVarint64Size`: the sign of a short encoding is spread.
unfoldable pub extend_sign : ℕ → ℕ → ℕ
extend_sign sign res = if bit_and (sar_one sign) res == 0 then res else bit_or res sign

unfoldable pub read_varint64_loop : List ℕ → ℕ → ℕ → ℕ → ℕ → Read (ℕ × ℕ)
read_varint64_loop [] res size shift sign = err eof
read_varint64_loop (cur ∷ r) res size shift sign =
    let res' = bit_or res (bit_and cur 0x7f * 2 ^ shift % 2 ^ 64) in
    let sign' = sign * 128 % 2 ^ 64 in
    let more = read_varint64_loop r res' (size + 1) (shift + 7) sign' in
    if bit_and cur 0x80 == 0 then ok ((extend_sign sign' res', size + 1), r) else more

unfoldable pub read_varint64_size : List ℕ → Read (ℕ × ℕ)
unfolding read_varint64_loop extend_sign
read_varint64_size r = read_varint64_loop r 0 0 0 (2 ^ 64 - 1)

unfoldable pub read_varint64 : List ℕ → Read ℕ
unfolding read_varint64_size
read_varint64 r = do ((n, _), rest) ← read_varint64_size r; ok (n, rest)

-- `int32(res64)` keeps the low 32 bits.
unfoldable pub read_varint32_size : List ℕ → Read (ℕ × ℕ)
unfolding read_varint64_size
read_varint32_size r = do ((n, size), rest) ← read_varint64_size r; ok ((n % 2 ^ 32, size), rest)

unfoldable pub read_varint32 : List ℕ → Read ℕ
unfolding read_varint32_size
read_varint32 r = do ((n, _), rest) ← read_varint32_size r; ok (n, rest)

-- The loop of `AppendUleb128`, on fuel; `none` means that the fuel ran out.
unfoldable pub append_uleb128_loop : ℕ → List ℕ → ℕ → Option (List ℕ)
append_uleb128_loop zero b v = none
append_uleb128_loop (suc fuel) b v =
    let v' = v / 128 in
    let c = if v' == 0 then bit_and v 0x7f else bit_or (bit_and v 0x7f) 0x80 in
    let b' = b ++ c ∷ [] in
    let more = append_uleb128_loop fuel b' v' in if bit_and c 0x80 == 0 then some b' else more

-- A `uint64` has ten groups of seven bits.
unfoldable pub append_uleb128 : List ℕ → ℕ → Option (List ℕ)
unfolding append_uleb128_loop
append_uleb128 b v = append_uleb128_loop 10 b v

-- `v >> 7` on an `int64`.
abbrev pub sar_seven : ℕ → ℕ
sar_seven v = v / 128 + (if ltb v (2 ^ 63) then 0 else 2 ^ 64 - 2 ^ 57)

-- The loop of `AppendSleb128`, on fuel; `v != -1` is a test of the bit pattern.
unfoldable pub append_sleb128_loop : ℕ → List ℕ → ℕ → Option (List ℕ)
append_sleb128_loop zero b v = none
append_sleb128_loop (suc fuel) b v =
    let s = bit_and v 0x40 in
    let v' = sar_seven v in
    let goes_on = (not (v' == 2 ^ 64 - 1) || s == 0) && (not (v' == 0) || not (s == 0)) in
    let c = if goes_on then bit_or (bit_and v 0x7f) 0x80 else bit_and v 0x7f in
    let b' = b ++ c ∷ [] in
    let more = append_sleb128_loop fuel b' v' in if bit_and c 0x80 == 0 then some b' else more

unfoldable pub append_sleb128 : List ℕ → ℕ → Option (List ℕ)
unfolding append_sleb128_loop
append_sleb128 b v = append_sleb128_loop 10 b v

-- What `WriteVarUint32` and `WriteVarint64` hand to the writer.
unfoldable pub write_var_uint32 : ℕ → Option (List ℕ)
unfolding append_uleb128
write_var_uint32 cur = append_uleb128 [] cur

unfoldable pub write_varint64 : ℕ → Option (List ℕ)
unfolding append_sleb128
write_varint64 cur = append_sleb128 [] cur
