-- ===== src/Memory/Tests.antt =====
-- Two bytes in an empty memory, whose slice gets a capacity of five bytes.
use sea_pkg.Base.{ℕ, ◌≡◌, refl, List, [], ◌∷◌, ◌++◌, arith, take, drop, replicate}
use sea_pkg.Base.Outcome.{ok}
use sea_pkg.Memory.{Memory, new_memory, set_value, resize, get, data_of}
use sea_pkg.Memory.Window.{get-set_value}

abbrev spare : ℕ → ℕ → List ℕ
spare capacity size = 0 ∷ 0 ∷ []

get-set_value_example :
    (data_of (resize spare 3 new_memory) ≡ [] ++ replicate 3 0)
    × (m' : Memory) × (set_value 1 2 (7 ∷ 8 ∷ []) (resize spare 3 new_memory) ≡ ok m')
    × (get 1 2 m' ≡ ok (7 ∷ 8 ∷ []))
    × (take 1 m'.backing ≡ take 1 (resize spare 3 new_memory).backing)
    × (drop 3 m'.backing ≡ drop 3 (resize spare 3 new_memory).backing)
    × (m'.len ≡ (resize spare 3 new_memory).len)
unfolding data_of
get-set_value_example =
    get-set_value spare 1 2 (7 ∷ 8 ∷ []) new_memory (omega arith) (omega arith) refl
