-- ===== src/Validate/Rules.antt =====
-- Invariants of actions, one rule for each way to build an action.
use sea_pkg.Base.{ℕ, ◌≤◌, ◌≡◌, refl, ◌∙◌, List, [], ◌∷◌, All, arith, length}
use sea_pkg.Base.{Bool, true, false, if◌then◌else◌, leb, none, some}
use sea_pkg.Base.{◌⊎◌, length-drop, if_both}
use sea_pkg.Base.Outcome.{ok, err, panic, Fault, index_range, nil_pointer, not_implemented}
use sea_pkg.Leb128.{Read, eof}
use sea_pkg.Leb128.Reader.{Takes, read_var_uint32-Takes, read_varint32-Takes, read_varint64-Takes}
use sea_pkg.Wasm.{FunctionSig, Module}
use sea_pkg.Validate.{
  ValidateError, Block, MockVm, Result, Action, continue, ◌>>=◌, pure, throw, fail, gets, reject_if,
  fetched, fetch_var_uint, fetch_var_int, fetch_var_int64, fetch_bytes, fetch_uint32, fetch_uint64,
  push_block,
}

-- The operand stack and the blocks agree: no `stack_top` is above the entries that are there.
pub record IsSound (vm : MockVm) : Type 0 where
  pub top : vm.stack_top ≤ length vm.stack
  pub bases : All (λ (b : Block). b.stack_top ≤ length vm.stack) vm.blocks

-- The only panics: a function with several results, the third element of the two operands of
-- `select`, and a type index that is out of range.
abbrev pub Allowed : Module → Fault → Type 0
Allowed m (index_range i n) =
    ((i ≡ 2) × (n ≡ 2))
    ⊎ ((types : List FunctionSig) × (m.types ≡ some types) × (n ≡ length types) × (n ≤ i))
Allowed m not_implemented = Unit {0}
Allowed m nil_pointer = m.types ≡ none
Allowed m _ = ⊥

-- After an action from `vm` the machine is sound and has no more code to read than before; the
-- offset of an error lies in the code.
abbrev pub Follows : {A : Type 0} → Module → MockVm → Result A → Type 0
Follows m vm (ok (_, vm')) =
    IsSound vm'
    × (length vm'.code ≤ length vm.code)
    × (length vm.stack ≤ length vm'.stack)
    × (vm'.orig_length ≡ vm.orig_length)
Follows m vm (err (e, offset)) = offset ≤ vm.orig_length
Follows m vm (panic p) = Allowed m p

-- `act` is safe from every sound machine whose stack has at least `n` entries.
pub record Keeps {A : Type 0} (m : Module) (n : ℕ) (act : Action A) : Type 0 where
  pub at : (vm : MockVm) → IsSound vm → n ≤ length vm.stack → Follows m vm (act vm)

abbrev pub Below : ℕ → Block → Type 0
Below n b = b.stack_top ≤ n

pub Below-mono : (m n : ℕ) (bs : List Block) → m ≤ n → All (Below m) bs → All (Below n) bs
Below-mono m n [] h a = tt
Below-mono m n (b ∷ bs) h (a, r) = (omega arith, Below-mono m n bs h r)

module _ (m : Module) (n : ℕ) where
  pub Keeps-pure : {A : Type 0} (a : A) → Keeps m n (pure a)
  unfolding pure
  Keeps-pure a = record { at = λ vm s h. (s, omega arith, omega arith, refl) }

  pub Keeps-throw : {A : Type 0} (e : ValidateError) → Keeps m n (throw {A = A} e)
  unfolding throw
  Keeps-throw e = record { at = λ vm s h. omega arith }

  pub Keeps-gets : {A : Type 0} (f : MockVm → A) → Keeps m n (gets f)
  unfolding gets
  Keeps-gets f = record { at = λ vm s h. (s, omega arith, omega arith, refl) }

  pub Keeps-fail : {A : Type 0} (p : Fault) → Allowed m p → Keeps m n (fail {A = A} p)
  unfolding fail
  Keeps-fail p a = record { at = λ vm s h. a }

  pub Keeps-if :
      {A : Type 0} (b : Bool) {x y : Action A}
      → Keeps m n x
      → Keeps m n y
      → Keeps m n (if b then x else y)
  Keeps-if true k l = k
  Keeps-if false k l = l

  pub Keeps-reject : (b : Bool) (e : ValidateError) → Keeps m n (reject_if b e)
  Keeps-reject b e = Keeps-if b (Keeps-throw e) (Keeps-pure tt)

  Follows-trans :
      {A : Type 0} (vm vm' : MockVm) (r : Result A)
      → length vm'.code ≤ length vm.code
      → length vm.stack ≤ length vm'.stack
      → vm'.orig_length ≡ vm.orig_length
      → Follows m vm' r
      → Follows m vm r
  Follows-trans vm vm' (ok (b, vm'')) c g o (s, code, grows, same) =
      (s, omega arith, omega arith, same ∙ o)
  Follows-trans vm vm' (err (e, offset)) c g o t = omega arith
  Follows-trans vm vm' (panic p) c g o t = t

  pub Follows-bind :
      {A B : Type 0} (vm : MockVm) (r : Result A) (f : A → Action B)
      → n ≤ length vm.stack
      → Follows m vm r
      → ((a : A) → Keeps m n (f a))
      → Follows m vm (continue r f)
  Follows-bind vm (ok (a, vm')) f h (s, code, grows, same) k =
      Follows-trans vm vm' (f a vm') code grows same ((k a).at vm' s (omega arith))
  Follows-bind vm (err (e, offset)) f h r k = r
  Follows-bind vm (panic p) f h r k = r

  pub Keeps-bind :
      {A B : Type 0} (act : Action A) (f : A → Action B)
      → Keeps m n act
      → ((a : A) → Keeps m n (f a))
      → Keeps m n (act >>= f)
  unfolding ◌>>=◌
  Keeps-bind act f k l = record { at = λ vm s h. Follows-bind vm (act vm) f h (k.at vm s h) l }

  Follows-fetched :
      {A : Type 0} (vm : MockVm) (r : Read A)
      → IsSound vm
      → Takes vm.code r
      → Follows m vm (fetched vm r)
  Follows-fetched vm (ok (a, rest)) s t =
      (record { top = s.top; bases = s.bases }, omega arith, omega arith, refl)
  Follows-fetched vm (err eof) s t = omega arith
  Follows-fetched vm (panic p) s t = absurd t

  pub Keeps-fetch_var_uint : Keeps m n fetch_var_uint
  unfolding fetch_var_uint
  Keeps-fetch_var_uint = record {
    at = λ vm s h. Follows-fetched vm _ s (read_var_uint32-Takes vm.code);
  }

  pub Keeps-fetch_var_int : Keeps m n fetch_var_int
  unfolding fetch_var_int
  Keeps-fetch_var_int = record {
    at = λ vm s h. Follows-fetched vm _ s (read_varint32-Takes vm.code);
  }

  pub Keeps-fetch_var_int64 : Keeps m n fetch_var_int64
  unfolding fetch_var_int64
  Keeps-fetch_var_int64 = record {
    at = λ vm s h. Follows-fetched vm _ s (read_varint64-Takes vm.code);
  }

  Keeps-fetch_bytes : (k : ℕ) → Keeps m n (fetch_bytes k)
  unfolding fetch_bytes
  Keeps-fetch_bytes k = record {
    at = λ vm s h.
        if_both (Follows m vm) (leb k (length vm.code))
          (
            record { top = s.top; bases = s.bases },
            omega (arith, length-drop {0} k vm.code),
            omega arith,
            refl,
          )
          (omega arith);
  }

  pub Keeps-fetch_uint32 : Keeps m n fetch_uint32
  unfolding fetch_uint32
  Keeps-fetch_uint32 = Keeps-fetch_bytes 4

  pub Keeps-fetch_uint64 : Keeps m n fetch_uint64
  unfolding fetch_uint64
  Keeps-fetch_uint64 = Keeps-fetch_bytes 8

  pub Keeps-push_block : (op t : ℕ) → Keeps m n (push_block op t)
  unfolding push_block
  Keeps-push_block op t = record {
    at = λ vm s h.
        (record { top = s.top; bases = (s.top, s.bases) }, omega arith, omega arith, refl);
  }

pub ruleset keeps_rules = (
  Keeps-pure, Keeps-throw, Keeps-gets, Keeps-if, Keeps-reject, Keeps-bind, Keeps-fetch_var_uint,
  Keeps-fetch_var_int, Keeps-fetch_var_int64, Keeps-fetch_uint32, Keeps-fetch_uint64,
  Keeps-push_block,
)
