-- ===== src/Sha2/Tree.antt =====
-- `Merkle` as the package leaves it.
use sea_pkg.Base.{ℕ, ◌^◌, ◌≤◌, ◌≡◌, arith, List, ◌∷◌, length, none}
use sea_pkg.Base.Outcome.{err}
use sea_pkg.Sha2.{blocked, receive, sum_sha256, add_sha256, merkle_level, merkle_loop, merkle}
use sea_pkg.Sha2.Power.{next_power_of_two-IsNextPower}

-- The package makes no channel, so none of its hashes returns: `Merkle` waits for ever on two
-- leaves or more.
pub merkle-blocked :
    (sha256 : List ℕ → List ℕ) (a b : List ℕ) (rest : List (List ℕ))
    → length (a ∷ b ∷ rest) ≤ 2 ^ 63
    → merkle sha256 none (a ∷ b ∷ rest) ≡ err blocked
unfolding merkle_loop merkle_level add_sha256 sum_sha256 receive merkle
merkle-blocked sha256 a b rest h =
    let (k, found, next) = next_power_of_two-IsNextPower (length (a ∷ b ∷ rest)) h in
    rw (found, merkle) (ground arith)
