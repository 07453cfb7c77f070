-- ===== src/Sha2/Power.antt =====
-- `nextPowerOfTwo`.
use sea_pkg.Base.{ℕ, zero, suc, ◌+◌, ◌*◌, ◌%◌, ◌^◌, ◌≤◌, ◌<◌, ◌≡◌, refl, arith, ltb}
use sea_pkg.Base.{none, some, ◌⊎◌, inl, inr, Bool-cases, true, ltb→lt}
use native.Mathlib.Decide.{dec_lt}
use sea_pkg.Sha2.{next_power_loop, next_power_of_two}
use native.Mathlib.Nat.{pow-suc, pow-le-pow_right}

-- The least power of two that is not below `n`.
abbrev pub IsNextPower : ℕ → ℕ → Type 0
IsNextPower n k = (n ≤ 2 ^ k) × ((k ≡ 0) ⊎ ((j : ℕ) × (k ≡ suc j) × (2 ^ j < n)))

-- A power of two below a number that 63 bits and one more hold is below the 63rd.
below_63 : (n j : ℕ) → n ≤ 2 ^ 63 → ltb (2 ^ j) n ≡ true → suc j ≤ 63
below_63 n j h less = elim (dec_lt j 63) [
  | yes small ↦ small
  | no large ↦
      let above : 2 ^ 63 ≤ 2 ^ j =
        pow-le-pow_right {n = 2} (omega arith) {i = 63} {j = j} (omega arith) in
      absurd (omega (arith, ltb→lt (2 ^ j) n less))
]

double : (j : ℕ) → suc j ≤ 63 → 2 ^ j * 2 % 2 ^ 64 ≡ 2 ^ suc j
double j h =
    let bound : 2 ^ suc j ≤ 2 ^ 63 =
      pow-le-pow_right {n = 2} (omega arith) {i = suc j} {j = 63} h in
    omega (arith, pow-suc 2 j)

next_power_loop-IsNextPower :
    (fuel n j : ℕ)
    → n ≤ 2 ^ 63
    → j ≤ 63
    → 64 ≤ j + fuel
    → (j ≡ 0) ⊎ ((i : ℕ) × (j ≡ suc i) × (2 ^ i < n))
    → (k : ℕ) × (next_power_loop fuel n (2 ^ j) ≡ some (2 ^ k)) × IsNextPower n k
unfolding next_power_loop
next_power_loop-IsNextPower zero n j h l f i = absurd (omega arith)
next_power_loop-IsNextPower (suc fuel) n j h l f i = elim (Bool-cases (ltb (2 ^ j) n)) [
  | inl less ↦
      let small : suc j ≤ 63 = below_63 n j h less in
      let next : 2 ^ j * 2 % 2 ^ 64 ≡ 2 ^ suc j = double j small in
      rw (less, next)
        (next_power_loop-IsNextPower fuel n (suc j) h small (omega arith)
          (inr (j, refl, ltb→lt (2 ^ j) n less)))
  | inr done ↦ (j, rw done refl, (ground arith, i))
]

-- For at most 2^63 the result is the least power of two that is not below `n`.
pub next_power_of_two-IsNextPower :
    (n : ℕ) → n ≤ 2 ^ 63 → (k : ℕ) × (next_power_of_two n ≡ some (2 ^ k)) × IsNextPower n k
unfolding next_power_of_two
next_power_of_two-IsNextPower n h =
    next_power_loop-IsNextPower 64 n 0 h (omega arith) (omega arith) (inl refl)

stays_zero : (fuel n : ℕ) → 0 < n → next_power_loop fuel n 0 ≡ none
unfolding next_power_loop
stays_zero zero n h = refl
stays_zero (suc fuel) n h = ground (arith, stays_zero fuel n)

-- Past 64 bits the power is 0, and stays it.
next_power_loop-none : (fuel n j : ℕ) → 2 ^ 63 < n → j ≤ 63 → next_power_loop fuel n (2 ^ j) ≡ none
unfolding next_power_loop
next_power_loop-none zero n j h l = refl
next_power_loop-none (suc fuel) n j h l =
    let bound : 2 ^ j ≤ 2 ^ 63 = pow-le-pow_right {n = 2} (omega arith) {i = j} {j = 63} l in
    elim (dec_lt j 63) [
      | yes small ↦ rw (double j small) (ground (arith, next_power_loop-none fuel n (suc j)))
      | no large ↦ let last : j ≡ 63 = omega arith in rw last (ground (arith, stays_zero fuel n))
    ]

-- Above 2^63 the loop of `nextPowerOfTwo` does not end in any number of rounds.
pub next_power_of_two-none : (fuel n : ℕ) → 2 ^ 63 < n → next_power_loop fuel n 1 ≡ none
next_power_of_two-none fuel n h = next_power_loop-none fuel n 0 h (omega arith)
