-- ===== src/Db.antt =====
-- chaindb/memorydb/memorydb.go and chaindb/queue/queue.go. A key and a value are lists of bytes, those
-- of the slices when the call is made. A Go map is a list of its entries without an order that the code
-- could rely on: `order` is what a `range` makes of the keys. The locks make a call one step.
pub mod Refines
pub mod Order
mod Tests
use sea_pkg.Base.{ℕ, ◌-◌, List, [], ◌∷◌, ◌++◌, map, Bool, true, false, ◌&&◌, Option, none, some}
use sea_pkg.Base.{◌==◌, ltb, if◌then◌else◌, length, get_elem?, take}
use sea_pkg.Base.Outcome.{Outcome, ok, err, panic, empty_stack, ◌>>=◌}

abbrev pub Bytes : Type 0
Bytes = List ℕ

-- "key is not found".
pub data DbError : Type 0 where
  not_found : DbError

unfoldable pub bytes_eq : Bytes → Bytes → Bool
bytes_eq [] [] = true
bytes_eq [] (_ ∷ _) = false
bytes_eq (_ ∷ _) [] = false
bytes_eq (a ∷ as') (b ∷ bs) = a == b && bytes_eq as' bs

pub record MemDb : Type 0 where
  pub entries : List (Bytes × Bytes)

abbrev pub new_mem_db : MemDb
new_mem_db = record { entries = [] }

-- An assignment to a key of a map, a read of it, and `delete`.
unfoldable pub assign : Bytes → Bytes → List (Bytes × Bytes) → List (Bytes × Bytes)
assign key value [] = (key, value) ∷ []
assign key value ((k, v) ∷ rest) =
    let later = assign key value rest in
    if bytes_eq k key then (k, value) ∷ rest else (k, v) ∷ later

unfoldable pub lookup : Bytes → List (Bytes × Bytes) → Option Bytes
lookup key [] = none
lookup key ((k, v) ∷ rest) = let later = lookup key rest in if bytes_eq k key then some v else later

unfoldable pub delete : Bytes → List (Bytes × Bytes) → List (Bytes × Bytes)
delete key [] = []
delete key ((k, v) ∷ rest) =
    let later = delete key rest in if bytes_eq k key then rest else (k, v) ∷ later

unfoldable pub put : Bytes → Bytes → MemDb → MemDb
put key value db = record { entries = assign key value db.entries }

abbrev pub answer : Option Bytes → Outcome DbError Bytes
answer none = err not_found
answer (some v) = ok v

abbrev pub is_some : Option Bytes → Bool
is_some none = false
is_some (some v) = true

unfoldable pub get : Bytes → MemDb → Outcome DbError Bytes
get key db = answer (lookup key db.entries)

unfoldable pub has : Bytes → MemDb → Bool
has key db = is_some (lookup key db.entries)

unfoldable pub del : Bytes → MemDb → MemDb
del key db = record { entries = delete key db.entries }

unfoldable pub get_all_key : (List Bytes → List Bytes) → MemDb → List Bytes
get_all_key order db = order (map (λ (e : Bytes × Bytes). e.0) db.entries)

module _ {ℓ} {A : Type ℓ} where
  -- `Pool.Push`, `Pool.Pop`, which panics on an empty pool, and the methods of `StackPool`: `none` is
  -- the nil that `Pop` returns.
  unfoldable pub pool_push : A → List A → List A
  pool_push x p = p ++ x ∷ []

  unfoldable pub pool_pop : List A → Outcome ⊥ (A × List A)
  pool_pop p = elim (get_elem? p (length p - 1)) [
    | none ↦ panic empty_stack
    | some x ↦ ok (x, take (length p - 1) p)
  ]

  unfoldable pub stack_pool_push : A → List A → List A
  stack_pool_push x s = pool_push x s

  unfoldable pub stack_pool_pop : List A → Outcome ⊥ (Option A × List A)
  stack_pool_pop s =
      if ltb 0 (length s) then (pool_pop s >>= λ r. ok (some (r.0), r.1)) else ok (none, s)
