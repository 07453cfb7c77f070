-- ===== src/Sha2/Tests.antt =====
-- `Merkle` with a stand-in for SHA-256, of 32 bytes as the standard library's.
use sea_pkg.Base.{ℕ, ◌+◌, ◌%◌, ◌^◌, ◌≡◌, refl, arith, List, [], ◌∷◌, replicate, some, none, get_or}
use sea_pkg.Base.Outcome.{ok, err}
use sea_pkg.Sha2.{
  merkle, blocked, next_power_of_two, next_power_loop, merkle_loop, merkle_level, add_sha256,
  sum_sha256, receive, set_hash,
}
use sea_pkg.Sha2.Power.{IsNextPower, next_power_of_two-IsNextPower, next_power_of_two-none}
use sea_pkg.Sha2.Tree.{merkle-blocked}

abbrev stand_in : List ℕ → List ℕ
stand_in b = replicate 32 ((get_or b 0 0 + get_or b 32 0) % 256)

abbrev leaf : ℕ → List ℕ
leaf n = replicate 32 n

abbrev leaves : List (List ℕ)
leaves = leaf 1 ∷ leaf 2 ∷ leaf 3 ∷ []

merkle_three : merkle stand_in (some 1) leaves ≡ ok (leaf 6)
unfolding merkle next_power_of_two next_power_loop merkle_loop merkle_level add_sha256 sum_sha256
    receive set_hash
merkle_three = refl

merkle-blocked_example : merkle stand_in none leaves ≡ err blocked
merkle-blocked_example = merkle-blocked stand_in (leaf 1) (leaf 2) (leaf 3 ∷ []) (omega arith)

next_power_of_two-IsNextPower_example :
    (k : ℕ) × (next_power_of_two 5 ≡ some (2 ^ k)) × IsNextPower 5 k
next_power_of_two-IsNextPower_example = next_power_of_two-IsNextPower 5 (omega arith)

next_power_of_two-none_example : next_power_loop 1000 (2 ^ 63 + 1) 1 ≡ none
next_power_of_two-none_example = next_power_of_two-none 1000 (2 ^ 63 + 1) (omega arith)
