-- ===== src/Math/Tests.antt =====
-- Sums that need 64 and 65 bits, a power, a negative word, and a window behind the end of the data.
use sea_pkg.Base.{ℕ, List, ◌-◌, ◌*◌, ◌%◌, ◌^◌, ◌≡◌, refl, [], ◌∷◌, true, arith}
use sea_pkg.Base.{leb}
use sea_pkg.Math.{safe_mul, exp, exp_words, exp_word, safe_sub}
use sea_pkg.Math.Checked.{safe_mul-exact}
use sea_pkg.Math.Exp.{words_value, exp-power}

abbrev five : List ℕ
five = 5 ∷ []

exp_three_five : (exp 3 five).0 ≡ 243
unfolding exp exp_words exp_word
exp_three_five = refl

safe_sub_below : safe_sub 3 5 ≡ (2 ^ 64 - 2, true)
unfolding safe_sub
safe_sub_below = refl

safe_mul-exact_example : safe_mul (2 ^ 32) 6 ≡ (2 ^ 32 * 6 % 2 ^ 64, leb (2 ^ 64) (2 ^ 32 * 6))
safe_mul-exact_example = safe_mul-exact (2 ^ 32) 6 (omega arith) (omega arith)

exp-power_example : (exp 3 five).0 ≡ 3 ^ words_value five % 2 ^ 256
exp-power_example = exp-power 3 five (omega arith, tt)
