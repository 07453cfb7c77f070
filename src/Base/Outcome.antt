-- ===== src/Base/Outcome.antt =====
-- The outcome of a Go call that returns a value and an error, or panics.
use Prim.Native.Nat.{ℕ}

-- The run-time panics that the modelled code can meet: an index and the length that it exceeds, a
-- slice bound and the limit that it exceeds, and those with no number. `empty_stack` is the index
-- -1 of `stack[len(stack)-1]` where the stack is empty, and `negative_index` any other index below
-- 0. `not_implemented` is the code's own `panic("not implemented")`, and `invalid_type` its panic
-- for a value type that is none.
pub data Fault : Type 0 where
  index_range : ℕ → ℕ → Fault
  slice_bounds : ℕ → ℕ → Fault
  empty_stack negative_index divide make_length nil_pointer not_implemented invalid_type : Fault

pub data Outcome {ℓ} (E : Type 0) (A : Type ℓ) : Type ℓ where
  ok : A → Outcome E A
  err : E → Outcome E A
  panic : Fault → Outcome E A

module _ {ℓ κ} {E : Type 0} {A : Type ℓ} {B : Type κ} where
  infixl 5 ◌>>=◌
  abbrev pub ◌>>=◌ : Outcome E A → (A → Outcome E B) → Outcome E B
  ok a >>= f = f a
  err e >>= f = err e
  panic p >>= f = panic p
