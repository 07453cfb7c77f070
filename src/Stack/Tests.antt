-- ===== src/Stack/Tests.antt =====
-- A stack of three elements, and a pool at its limit.
use sea_pkg.Base.{ℕ, ◌+◌, ◌≡◌, refl, List, [], ◌∷◌, ◌++◌, length, arith}
use sea_pkg.Base.Outcome.{ok, err}
use sea_pkg.Stack.{swap, from_top, peek, get, put, require, underflow}
use sea_pkg.Stack.Swap.{swap-swap}
use sea_pkg.Stack.Pool.{get-put}

abbrev three_elements : List ℕ
three_elements = 7 ∷ 8 ∷ 9 ∷ []

abbrev two_elements : List ℕ
two_elements = 1 ∷ 2 ∷ []

swap_three : swap 3 three_elements ≡ ok (9 ∷ 8 ∷ 7 ∷ [])
unfolding swap from_top
swap_three = refl

require_four : require 4 three_elements ≡ err (underflow 3 4)
unfolding require
require_four = refl

swap-swap_example :
    (st' : List ℕ) × (swap 3 three_elements ≡ ok st')
    × (peek st' ≡ from_top 3 three_elements)
    × (swap 3 st' ≡ ok three_elements)
swap-swap_example = swap-swap 3 three_elements (omega arith) (omega arith)

get-put_example :
    (length (put (two_elements ++ 5 ∷ []) three_elements)
      ≡ length three_elements + length two_elements + 1)
    × (get 0 (put (two_elements ++ 5 ∷ []) three_elements)
        ≡ ok (5, put two_elements three_elements))
get-put_example = get-put 0 two_elements 5 three_elements (omega arith)
