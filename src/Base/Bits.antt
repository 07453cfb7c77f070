-- ===== src/Base/Bits.antt =====
-- Masks and disjoint sums of native numbers as arithmetic, from the digit recursion that the native
-- operations stand for.
use Prim.Native.Nat.{ℕ, zero, suc, ◌+◌, ◌*◌, ◌/◌, ◌%◌, ◌^◌, ◌≤◌, ◌<◌, min, max}
use Prim.Native.Nat.{bit_and, bit_or, digits, bit_and-bitwise, bit_or-bitwise}
use mathlib.Core.Path.{◌≡◌, refl, sym, ap, ◌∙◌}
use native.Mathlib.Omega.{arith}
use native.Mathlib.Nat.{pow-suc}

module _ (end : ℕ → ℕ) (digit : ℕ → ℕ → ℕ) where
  digits-end : (count b : ℕ) → digits end digit count zero b ≡ end b
  digits-end zero b = refl
  digits-end (suc count) b = refl

  -- Two counts that cover the first number give the same digits.
  digits-covered : (x b p q : ℕ) → x ≤ p → x ≤ q → digits end digit p x b ≡ digits end digit q x b
  digits-covered zero b p q h k = digits-end p b ∙ sym (digits-end q b)
  digits-covered (suc x) b zero q h k = absurd (omega arith)
  digits-covered (suc x) b (suc p) zero h k = absurd (omega arith)
  digits-covered (suc x) b (suc p) (suc q) h k =
      ap (λ rest. rest * 2 + digit (suc x % 2) (b % 2))
        (digits-covered (suc x / 2) (b / 2) p q (omega arith) (omega arith))

  lowest_digit :
      (op : ℕ → ℕ → ℕ)
      → ((a b : ℕ) → op a b ≡ digits end digit a a b)
      → (x b : ℕ) → op (suc x) b ≡ op (suc x / 2) (b / 2) * 2 + digit (suc x % 2) (b % 2)
  lowest_digit op law x b =
      law (suc x) b
      ∙ ap (λ rest. rest * 2 + digit (suc x % 2) (b % 2))
          (digits-covered (suc x / 2) (b / 2) x (suc x / 2) (omega arith) (omega arith)
            ∙ sym (law (suc x / 2) (b / 2)))

pub bit_and_step : (a b : ℕ) → bit_and a b ≡ bit_and (a / 2) (b / 2) * 2 + min (a % 2) (b % 2)
bit_and_step zero b = omega (arith, bit_and-bitwise 0 b, bit_and-bitwise 0 (b / 2))
bit_and_step (suc a) b = lowest_digit (λ _. zero) min bit_and bit_and-bitwise a b

pub zero-bit_or : (b : ℕ) → bit_or 0 b ≡ b
zero-bit_or b = bit_or-bitwise 0 b

pub bit_or_step : (a b : ℕ) → bit_or a b ≡ bit_or (a / 2) (b / 2) * 2 + max (a % 2) (b % 2)
bit_or_step zero b = omega (arith, zero-bit_or b, zero-bit_or (b / 2))
bit_or_step (suc a) b = lowest_digit (λ y. y) max bit_or bit_or-bitwise a b

and-none : (count a : ℕ) → digits (λ _. zero) min count a zero ≡ zero
and-none zero a = refl
and-none (suc count) zero = refl
and-none (suc count) (suc a) = omega (arith, and-none count (suc a / 2))

pub bit_and-low : (a : ℕ) → bit_and a 0 ≡ 0
bit_and-low a = bit_and-bitwise a 0 ∙ and-none a a

-- The lowest bits, one more at each step.
bit_and_1 : (a : ℕ) → bit_and a 0x1 ≡ a % 2
bit_and_1 a = omega (arith, bit_and_step a 0x1, bit_and-low (a / 2))

bit_and_3 : (a : ℕ) → bit_and a 0x3 ≡ a % 4
bit_and_3 a = omega (arith, bit_and_step a 0x3, bit_and_1 (a / 2))

bit_and_7 : (a : ℕ) → bit_and a 0x7 ≡ a % 8
bit_and_7 a = omega (arith, bit_and_step a 0x7, bit_and_3 (a / 2))

bit_and_f : (a : ℕ) → bit_and a 0xf ≡ a % 16
bit_and_f a = omega (arith, bit_and_step a 0xf, bit_and_7 (a / 2))

bit_and_1f : (a : ℕ) → bit_and a 0x1f ≡ a % 32
bit_and_1f a = omega (arith, bit_and_step a 0x1f, bit_and_f (a / 2))

bit_and_3f : (a : ℕ) → bit_and a 0x3f ≡ a % 64
bit_and_3f a = omega (arith, bit_and_step a 0x3f, bit_and_1f (a / 2))

pub bit_and_7f : (a : ℕ) → bit_and a 0x7f ≡ a % 128
bit_and_7f a = omega (arith, bit_and_step a 0x7f, bit_and_3f (a / 2))

-- One bit, the next at each step.
bit_and_2_bit : (a : ℕ) → bit_and a 0x2 ≡ a / 2 % 2 * 2
bit_and_2_bit a = omega (arith, bit_and_step a 0x2, bit_and_1 (a / 2))

bit_and_4_bit : (a : ℕ) → bit_and a 0x4 ≡ a / 4 % 2 * 4
bit_and_4_bit a = omega (arith, bit_and_step a 0x4, bit_and_2_bit (a / 2))

bit_and_8_bit : (a : ℕ) → bit_and a 0x8 ≡ a / 8 % 2 * 8
bit_and_8_bit a = omega (arith, bit_and_step a 0x8, bit_and_4_bit (a / 2))

bit_and_10_bit : (a : ℕ) → bit_and a 0x10 ≡ a / 16 % 2 * 16
bit_and_10_bit a = omega (arith, bit_and_step a 0x10, bit_and_8_bit (a / 2))

bit_and_20_bit : (a : ℕ) → bit_and a 0x20 ≡ a / 32 % 2 * 32
bit_and_20_bit a = omega (arith, bit_and_step a 0x20, bit_and_10_bit (a / 2))

bit_and_40_bit : (a : ℕ) → bit_and a 0x40 ≡ a / 64 % 2 * 64
bit_and_40_bit a = omega (arith, bit_and_step a 0x40, bit_and_20_bit (a / 2))

bit_and_80_bit : (a : ℕ) → bit_and a 0x80 ≡ a / 128 % 2 * 128
bit_and_80_bit a = omega (arith, bit_and_step a 0x80, bit_and_40_bit (a / 2))

pub bit_and_80 : (a : ℕ) → a < 256 → bit_and a 0x80 ≡ a / 128 * 128
bit_and_80 a h = omega (arith, bit_and_80_bit a)

double_half : (n : ℕ) → 2 * n / 2 ≡ n
double_half n = omega arith

-- A number above the bits of another: `or` adds them.
pub bit_or-disjoint : (s a b : ℕ) → a < 2 ^ s → bit_or a (b * 2 ^ s) ≡ a + b * 2 ^ s
bit_or-disjoint zero zero b h = omega (arith, zero-bit_or (b * 1))
bit_or-disjoint zero (suc a) b h = absurd (omega arith)
bit_or-disjoint (suc s) a b h =
    let double : b * 2 ^ suc s ≡ 2 * (b * 2 ^ s) = rw pow-suc (omega arith) in
    let half : a / 2 < 2 ^ s = omega (arith, pow-suc 2 s) in
    rw double (
      omega (
        arith,
        bit_or_step a (2 * (b * 2 ^ s)),
        ap (bit_or (a / 2)) (double_half (b * 2 ^ s)),
        bit_or-disjoint s (a / 2) b half,
      ))
