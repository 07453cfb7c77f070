-- ===== src/Math/Checked.antt =====
-- Checked arithmetic against the numbers, and words in two's complement.
use sea_pkg.Base.{ℕ, ◌+◌, ◌*◌, ◌/◌, ◌%◌, ◌^◌, ◌≤◌, ◌<◌, ◌≡◌, refl, ap, Bool, false, arith}
use sea_pkg.Base.{ltb, leb, ◌==◌}
use native.Mathlib.Decide.{dec_lt}
use native.Mathlib.Nat.{div-lt_iff_lt-mul, mul_comm, zero-mul, mul-zero}
use sea_pkg.Math.{safe_add, safe_mul, u256, s256, to_word_size, max_uint64}

zero_of : (x : ℕ) → ¬ (0 < x) → x ≡ 0
zero_of x h = omega arith

not_zero : (x : ℕ) → 0 < x → (x == 0) ≡ false
not_zero x h = ground arith

-- The test by division finds a product that needs more than 64 bits.
mul_flag : (x y : ℕ) → 0 < x → ltb (max_uint64 / x) y ≡ leb (2 ^ 64) (x * y)
mul_flag x y h =
    let (to, from) = div-lt_iff_lt-mul {k = x} {x = max_uint64} {y = y} h in
    elim (dec_lt (max_uint64 / x) y) [
      | yes over ↦ let large : 2 ^ 64 ≤ x * y = omega (arith, to over, mul_comm x y) in ground arith
      | no fits ↦
          let small : ¬ (max_uint64 < y * x) = λ l. fits (from l) in
          let small' : x * y < 2 ^ 64 = omega (arith, small, mul_comm x y) in ground arith
    ]

-- On two `uint64`s the sum is the exact one modulo 2^64, and the flag tells whether the exact one
-- needs more than 64 bits.
safe_add-exact :
    (x y : ℕ) → x < 2 ^ 64 → y < 2 ^ 64 → safe_add x y ≡ ((x + y) % 2 ^ 64, leb (2 ^ 64) (x + y))
unfolding safe_add
safe_add-exact x y h k = ap (λ (b : Bool). ((x + y) % 2 ^ 64, b)) (ground arith)

-- On two `uint64`s the product is the exact one modulo 2^64, and the flag tells whether the exact
-- one needs more than 64 bits.
pub safe_mul-exact :
    (x y : ℕ) → x < 2 ^ 64 → y < 2 ^ 64 → safe_mul x y ≡ (x * y % 2 ^ 64, leb (2 ^ 64) (x * y))
unfolding safe_mul
safe_mul-exact x y h k = elim (dec_lt 0 x) [
  | no none_left ↦ rw (zero_of x none_left, zero-mul y) refl
  | yes left ↦ elim (dec_lt 0 y) [
    | no none_right ↦ rw (zero_of y none_right, mul-zero x) (ground arith)
    | yes right ↦
        let flag : ltb (max_uint64 / x) y ≡ leb (2 ^ 64) (x * y) = mul_flag x y left in
        rw (not_zero x left, not_zero y right, flag) refl
  ]
]

-- `U256` takes back what `S256` made of a number of 256 bits.
u256-s256 : (x : ℕ) → x < 2 ^ 256 → u256 (s256 x) ≡ x
unfolding u256 s256
u256-s256 x h = ground arith

-- The words of 32 bytes for a size hold it, and one word less would not.
to_word_size-ceiling :
    (size : ℕ)
    → size < 2 ^ 64
    → (size ≤ 32 * to_word_size size) × (32 * to_word_size size < size + 32)
unfolding to_word_size
to_word_size-ceiling size h = (ground arith, ground arith)
