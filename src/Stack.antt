-- ===== src/Stack.antt =====
-- util/stack/stack.go and util/intpool/intpool.go. An element is what its `*big.Int` points at, so
-- `Dup` pushes the same element; the last of the list is the top. `new_int` is `new(big.Int)`.
pub mod Swap
pub mod Pool
mod Tests
use sea_pkg.Base.{ℕ, ◌+◌, ◌-◌, List, [], ◌∷◌, ◌++◌, Option, none, some}
use sea_pkg.Base.{ltb, if◌then◌else◌, length, get_elem?, set, take}
use sea_pkg.Base.Outcome.{Outcome, ok, err, panic, index_range, ◌>>=◌}

-- The error of `Require` with the length and the need, and the panic for an index below 0.
pub data StackFault : Type 0 where
  underflow : ℕ → ℕ → StackFault
  negative_index : StackFault

abbrev pub pool_limit : ℕ
pool_limit = 256

abbrev pub Result {ℓ} : Type ℓ → Type ℓ
Result A = Outcome StackFault A

module _ {ℓ} {A : Type ℓ} where
  abbrev pub indexed : ℕ → List A → Option A → Result A
  indexed i st none = panic (index_range i (length st))
  indexed i st (some a) = ok a

  -- `st.data[st.Len()-n]`.
  unfoldable pub from_top : ℕ → List A → Result A
  from_top n st =
      if ltb (length st) n
      then err negative_index
      else indexed (length st - n) st (get_elem? st (length st - n))

  unfoldable pub push : A → List A → List A
  push d st = st ++ d ∷ []

  unfoldable pub push_n : List A → List A → List A
  push_n ds st = st ++ ds

  unfoldable pub pop : List A → Result (A × List A)
  pop st = from_top 1 st >>= λ d. ok (d, take (length st - 1) st)

  unfoldable pub swap : ℕ → List A → Result (List A)
  swap n st = do
    last ← from_top 1 st
    other ← from_top n st
    ok (set (set st (length st - n) last) (length st - 1) other)

  unfoldable pub dup : ℕ → List A → Result (List A)
  dup n st = from_top n st >>= λ d. ok (push d st)

  unfoldable pub peek : List A → Result A
  peek st = from_top 1 st

  unfoldable pub back : ℕ → List A → Result A
  back n st = from_top (n + 1) st

  unfoldable pub require : ℕ → List A → Result (Unit {0})
  require n st = if ltb (length st) n then err (underflow (length st) n) else ok tt

  -- `IntPool.Get` and `IntPool.Put`.
  unfoldable pub get : A → List A → Result (A × List A)
  get new_int pool = if ltb 0 (length pool) then pop pool else ok (new_int, pool)

  unfoldable pub put_all : List A → List A → List A
  put_all [] pool = pool
  put_all (i ∷ is') pool = put_all is' (push i pool)

  unfoldable pub put : List A → List A → List A
  put is' pool = if ltb pool_limit (length pool) then pool else put_all is' pool
