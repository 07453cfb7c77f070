-- ===== src/Math.antt =====
-- util/math/integer.go and big.go. A `uint64` is its bit pattern. A `big.Int` that the code takes for
-- a size, a position or a 256-bit word is a natural number, and its words, which `Bits` returns, are a
-- list with the lowest first; the argument of `U256` and the result of `S256` may be negative.
pub mod Exp
pub mod Checked
pub mod Bytes
mod Tests
use sea_pkg.Base.{
  ℕ, zero, suc, ◌+◌, ◌-◌, ◌*◌, ◌/◌, ◌%◌, ◌^◌, min, List, [], ◌∷◌, ◌++◌, Bool, true, false, ◌||◌,
}
use sea_pkg.Base.{◌==◌, leb, ltb, if◌then◌else◌, length, get_or, slice}
use sea_pkg.Conv.{right_pad_bytes}

abbrev pub max_uint64 : ℕ
max_uint64 = 2 ^ 64 - 1

-- An integer of any sign: `negsuc n` is -(n + 1).
pub data ℤ : Type 0 where
  pos negsuc : ℕ → ℤ

unfoldable pub safe_sub : ℕ → ℕ → ℕ × Bool
safe_sub x y = ((x + 2 ^ 64 - y) % 2 ^ 64, ltb x y)

unfoldable pub safe_add : ℕ → ℕ → ℕ × Bool
safe_add x y = ((x + y) % 2 ^ 64, ltb (max_uint64 - x) y)

unfoldable pub safe_mul : ℕ → ℕ → ℕ × Bool
safe_mul x y = if x == 0 || y == 0 then (0, false) else (x * y % 2 ^ 64, ltb (max_uint64 / x) y)

-- `And` with 2^256 - 1 takes a negative number in two's complement.
unfoldable pub u256 : ℤ → ℕ
u256 (pos n) = n % 2 ^ 256
u256 (negsuc n) = 2 ^ 256 - 1 - n % 2 ^ 256

abbrev pub tt255 : ℕ
tt255 = 2 ^ 255

-- `x - tt256`, for an `x` of at most 256 bits.
unfoldable pub s256 : ℕ → ℤ
s256 x = if ltb x tt255 then pos x else negsuc (2 ^ 256 - 1 - x)

-- The inner loop of `Exp`: the result and the base, which is overwritten.
unfoldable pub exp_word : ℕ → ℕ → ℕ × ℕ → ℕ × ℕ
exp_word zero word (r, b) = (r, b)
exp_word (suc n) word (r, b) =
    exp_word n (word / 2) ((if word % 2 == 1 then r * b % 2 ^ 256 else r), b * b % 2 ^ 256)

unfoldable pub exp_words : List ℕ → ℕ × ℕ → ℕ × ℕ
exp_words [] s = s
exp_words (word ∷ words) s = exp_words words (exp_word 64 word s)

-- The result, and what `base` holds afterwards, where it is not the exponent's own number.
unfoldable pub exp : ℕ → List ℕ → ℕ × ℕ
exp base exponent = exp_words exponent (1, base)

unfoldable pub big_endian_byte_at : List ℕ → ℕ → ℕ
big_endian_byte_at words n = get_or words (n / 8) 0 / 2 ^ (8 * (n % 8)) % 256

unfoldable pub byte : List ℕ → ℕ → ℕ → ℕ
byte words padlength n = if leb padlength n then 0 else big_endian_byte_at words (padlength - 1 - n)

unfoldable pub calc_mem_size : ℕ → ℕ → ℕ
calc_mem_size off l = if l == 0 then 0 else off + l

unfoldable pub big_max : ℕ → ℕ → ℕ
big_max x y = if ltb x y then y else x

unfoldable pub big_min : ℕ → ℕ → ℕ
big_min x y = if ltb y x then y else x

-- `int(size.Uint64())` keeps the lowest 64 bits.
unfoldable pub get_data_big : List ℕ → ℕ → ℕ → List ℕ
get_data_big data' start size =
    let s = big_min start (length data') in
    let e = big_min (s + size) (length data') in right_pad_bytes (slice data' s e) (size % 2 ^ 64)

unfoldable pub big_uint64 : ℕ → ℕ × Bool
big_uint64 v = (v % 2 ^ 64, leb (2 ^ 64) v)

unfoldable pub to_word_size : ℕ → ℕ
to_word_size size =
    if ltb (max_uint64 - 31) size then max_uint64 / 32 + 1 else (size + 31) % 2 ^ 64 / 32
