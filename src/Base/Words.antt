-- ===== src/Base/Words.antt =====
-- Go's operations on unsigned and signed integers of `w` bits, on bit patterns below `2 ^ w`.
use Prim.Native.Nat.{ℕ, zero, suc, ◌+◌, ◌-◌, ◌*◌, ◌/◌, ◌%◌, ◌^◌}
use mathlib.Core.Bool.{Bool, true, false, not}
use sea_pkg.Base.Tests.{ltb, leb, ◌==◌, if◌then◌else◌}

abbrev pub add : ℕ → ℕ → ℕ → ℕ
add w a b = (a + b) % 2 ^ w

abbrev pub sub : ℕ → ℕ → ℕ → ℕ
sub w a b = (a + 2 ^ w - b) % 2 ^ w

abbrev pub mul : ℕ → ℕ → ℕ → ℕ
mul w a b = a * b % 2 ^ w

-- The sign bit, the negation and the magnitude of a two's complement pattern.
abbrev pub is_neg : ℕ → ℕ → Bool
is_neg w a = leb (2 ^ (w - 1)) a

abbrev pub neg : ℕ → ℕ → ℕ
neg w a = (2 ^ w - a) % 2 ^ w

abbrev pub magnitude : ℕ → ℕ → ℕ
magnitude w a = if is_neg w a then 2 ^ w - a else a

abbrev pub same_sign : Bool → Bool → Bool
same_sign true b = b
same_sign false b = not b

-- `/` and `%` on signed integers truncate towards zero; the divisor is not 0.
unfoldable pub div_s : ℕ → ℕ → ℕ → ℕ
div_s w a b =
    let q = magnitude w a / magnitude w b in
    if same_sign (is_neg w a) (is_neg w b) then q % 2 ^ w else neg w q

unfoldable pub rem_s : ℕ → ℕ → ℕ → ℕ
rem_s w a b = let r = magnitude w a % magnitude w b in if is_neg w a then neg w r else r

-- `<` on signed integers.
abbrev pub lt_s : ℕ → ℕ → ℕ → Bool
lt_s w a b = ltb ((a + 2 ^ (w - 1)) % 2 ^ w) ((b + 2 ^ (w - 1)) % 2 ^ w)

-- Shifts; a count of `w` or more shifts every bit out.
unfoldable pub shl : ℕ → ℕ → ℕ → ℕ
shl w a k = if ltb k w then a * 2 ^ k % 2 ^ w else 0

unfoldable pub shr_u : ℕ → ℕ → ℕ → ℕ
shr_u w a k = if ltb k w then a / 2 ^ k else 0

unfoldable pub shr_s : ℕ → ℕ → ℕ → ℕ
shr_s w a k =
    if is_neg w a
    then (if ltb k w then a / 2 ^ k + (2 ^ w - 2 ^ (w - k)) else 2 ^ w - 1)
    else (if ltb k w then a / 2 ^ k else 0)

-- `bits.RotateLeft32` and `bits.RotateLeft64`, for a count that is reduced modulo `w`.
unfoldable pub rotate_left : ℕ → ℕ → ℕ → ℕ
rotate_left w a k = a * 2 ^ (k % w) % 2 ^ w + a / 2 ^ (w - k % w)

-- `bits.LeadingZeros`, `bits.TrailingZeros` and `bits.OnesCount` of the low `w` bits.
unfoldable pub leading_zeros : ℕ → ℕ → ℕ
leading_zeros zero a = 0
leading_zeros (suc w) a = let rest = leading_zeros w a in if ltb a (2 ^ w) then rest + 1 else 0

unfoldable pub trailing_zeros : ℕ → ℕ → ℕ
trailing_zeros zero a = 0
trailing_zeros (suc w) a = let rest = trailing_zeros w (a / 2) in if a % 2 == 0 then rest + 1 else 0

unfoldable pub ones_count : ℕ → ℕ → ℕ
ones_count zero a = 0
ones_count (suc w) a = a % 2 + ones_count w (a / 2)

-- A signed integer of `w` bits as one of `v` bits, `w ≤ v`.
abbrev pub extend_s : ℕ → ℕ → ℕ → ℕ
extend_s w v a = if is_neg w a then a + (2 ^ v - 2 ^ w) else a
