-- ===== src/Exec.antt =====
-- wagon/exec/vm.go: the state of the interpreter, and how operators fetch, pop and push.
-- A stack entry is a `uint64`, and the operand stack is a list from its top, where the source
-- appends at the end. Integers are bit patterns: the pushes and pops below convert as the source
-- does, and an index into code is the pattern of an `int64`. Every failure is a Go panic: `err` for
-- a panic of the package itself, `panic` for one of the run time.
pub mod I32
pub mod I64
pub mod Linear
pub mod Variables
pub mod Floats
pub mod Table
pub mod Loop
pub mod Start
pub mod Starts
pub mod Process
mod Tests
use sea_pkg.Base.{ℕ, zero, suc, ◌+◌, ◌-◌, ◌*◌, ◌/◌, ◌%◌, ◌^◌, List, [], ◌∷◌, Bool, true, false, not}
use sea_pkg.Base.{◌==◌, leb, ltb, if◌then◌else◌, length, get_elem?, set, drop, Option, none, some}
use sea_pkg.Base.Outcome.{
  Outcome, ok, err, panic, Fault, index_range, slice_bounds, divide, empty_stack,
}
use sea_pkg.Base.Bytes.{le_value}
use sea_pkg.Base.Words.{extend_s}

-- The values that the package panics with, the last a message of `execCode` for a function that is
-- not compiled. `exhausted` is no Go value: the fuel of the model ran out.
pub data Trap : Type 0 where
  out_of_bounds_memory unreachable signature_mismatch undefined_element call_limit : Trap
  not_compiled exhausted : Trap

-- `context`, and the parts of `VM` that the operators change.
pub record Vm : Type 0 where
  pub stack : List ℕ
  pub locals : List ℕ
  pub code : List ℕ
  pub pc : ℕ
  pub globals : List ℕ
  pub memory : List ℕ
  pub cur_func : ℕ
  pub recursive_call_depth : ℕ
  pub abort : Bool

abbrev pub Result : Type 0 → Type 0
Result A = Outcome Trap (A × Vm)

abbrev pub Action : Type 0 → Type 0
Action A = Vm → Result A

abbrev pub continue : {A B : Type 0} → Result A → (A → Action B) → Result B
continue (ok (a, vm)) f = f a vm
continue (err e) f = err e
continue (panic p) f = panic p

infixl 5 ◌>>=◌ ◌>>◌
unfoldable pub ◌>>=◌ : {A B : Type 0} → Action A → (A → Action B) → Action B
◌>>=◌ m f vm = continue (m vm) f

abbrev pub ◌>>◌ : {A B : Type 0} → Action A → Action B → Action B
m >> k = m >>= λ _. k

unfoldable pub pure : {A : Type 0} → A → Action A
pure a vm = ok (a, vm)

unfoldable pub trap : {A : Type 0} → Trap → Action A
trap e vm = err e

unfoldable pub fault : {A : Type 0} → Fault → Action A
fault p vm = panic p

unfoldable pub gets : {A : Type 0} → (Vm → A) → Action A
gets f vm = ok (f vm, vm)

abbrev pub pop_from : List ℕ → Action ℕ
pop_from [] vm = panic empty_stack
pop_from (i ∷ rest) vm = ok (i, record vm { stack = rest })

unfoldable pub pop_uint64 : Action ℕ
pop_uint64 vm = pop_from vm.stack vm

unfoldable pub pop_int64 : Action ℕ
unfolding pop_uint64
pop_int64 = pop_uint64

unfoldable pub pop_uint32 : Action ℕ
unfolding pop_uint64 ◌>>=◌ pure
pop_uint32 = pop_uint64 >>= λ i. pure (i % 2 ^ 32)

unfoldable pub pop_int32 : Action ℕ
unfolding pop_uint32
pop_int32 = pop_uint32

unfoldable pub push_uint64 : ℕ → Action (Unit {0})
push_uint64 i vm = ok (tt, record vm { stack = i ∷ vm.stack })

unfoldable pub push_int64 : ℕ → Action (Unit {0})
unfolding push_uint64
push_int64 i = push_uint64 i

unfoldable pub push_uint32 : ℕ → Action (Unit {0})
unfolding push_uint64
push_uint32 i = push_uint64 i

-- `uint64(i)` of an `int32` extends its sign.
unfoldable pub push_int32 : ℕ → Action (Unit {0})
unfolding push_uint64
push_int32 i = push_uint64 (extend_s 32 64 i)

unfoldable pub push_bool : Bool → Action (Unit {0})
unfolding push_uint64
push_bool v = push_uint64 (if v then 1 else 0)

-- `endianess.Uint32(vm.ctx.code[vm.ctx.pc:])` and its kin: `n` bytes at `pc`.
unfoldable pub code_at : ℕ → Action ℕ
code_at n vm =
    if leb (vm.pc + n) (length vm.code)
    then ok (le_value n (drop vm.pc vm.code), vm)
    else if leb vm.pc (length vm.code)
    then panic (index_range (n - 1) (length vm.code - vm.pc))
    else panic (slice_bounds vm.pc (length vm.code))

unfoldable pub advance : ℕ → Action (Unit {0})
advance n vm = ok (tt, record vm { pc = vm.pc + n })

-- `code[pc]`, then `pc++`.
unfoldable pub fetch_int8 : Action ℕ
fetch_int8 vm = elim (get_elem? vm.code vm.pc) [
  | none ↦ panic (index_range vm.pc (length vm.code))
  | some b ↦ ok (b, record vm { pc = vm.pc + 1 })
]

unfoldable pub fetch_bool : Action Bool
unfolding fetch_int8 ◌>>=◌ pure
fetch_bool = fetch_int8 >>= λ b. pure (not (b == 0))

unfoldable pub fetch_uint32 : Action ℕ
unfolding code_at advance ◌>>=◌ pure
fetch_uint32 = do v ← code_at 4; advance 4; pure v

unfoldable pub fetch_uint64 : Action ℕ
unfolding code_at advance ◌>>=◌ pure
fetch_uint64 = do v ← code_at 8; advance 8; pure v

unfoldable pub fetch_int32 : Action ℕ
unfolding fetch_uint32
fetch_int32 = fetch_uint32

unfoldable pub fetch_int64 : Action ℕ
unfolding fetch_uint64
fetch_int64 = fetch_uint64

-- A Go division by zero.
unfoldable pub nonzero : ℕ → Action (Unit {0})
unfolding pure fault
nonzero v = if v == 0 then fault divide else pure tt
