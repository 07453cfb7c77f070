-- ===== src/Validate.antt =====
-- wagon/validate/vm.go and error.go: the machine that checks the types of a function body.
-- The operand stack is a list from its bottom, of which the first `stack_top` entries count, as in
-- the source. The blocks are a list with the innermost block first, where the source appends at the
-- end. `code` is what the reader has not read. An action returns its value with the new machine; an
-- error comes with the offset that `vm.pc()` then gives. Log lines are left out.
pub mod Body
pub mod Rules
pub mod Operands
pub mod Cases
pub mod Safety
pub mod Typing
pub mod Select
mod Tests
use sea_pkg.Base.{
  ℕ, ◌+◌, ◌-◌, ◌*◌, ◌%◌, ◌^◌, List, [], ◌∷◌, ◌++◌, Bool, true, false, not, ◌&&◌, ◌||◌,
}
use sea_pkg.Base.{
  ◌==◌, leb, ltb, if◌then◌else◌, length, get_elem?, set, take, drop, Option, none, some,
}
use sea_pkg.Base.Outcome.{Outcome, ok, err, panic, Fault, index_range}
use sea_pkg.Leb128.{Read, ReadError, eof, read_var_uint32, read_varint32, read_varint64}
use sea_pkg.Wasm.{FunctionSig, block_type_empty}
use sea_pkg.Operators.{Op}
use Prim.Native.String.{String}

-- `end_of_input` is `io.EOF` and `io.ErrUnexpectedEOF`: the two are told apart only at an opcode, a
-- single byte, whose read cannot end in the middle.
pub data ValidateError : Type 0 where
  end_of_input stack_underflow : ValidateError
  invalid_opcode unmatched_op invalid_label invalid_local_index : ℕ → ValidateError
  invalid_global_index invalid_function_index no_section : ℕ → ValidateError
  invalid_immediate : String → ValidateError
  invalid_type : ℕ → ℕ → ValidateError

pub record Block : Type 0 where
  pub pc : ℕ
  pub stack_top : ℕ
  pub block_type : ℕ
  pub op : ℕ
  pub polymorphic : Bool
  pub loop : Bool

pub record MockVm : Type 0 where
  pub stack : List ℕ
  pub stack_top : ℕ
  pub orig_length : ℕ
  pub code : List ℕ
  pub polymorphic : Bool
  pub blocks : List Block
  pub cur_func : FunctionSig

unfoldable pub pc : MockVm → ℕ
pc vm = vm.orig_length - length vm.code

-- An error with its offset, or the value and the machine.
abbrev pub Result : Type 0 → Type 0
Result A = Outcome (ValidateError × ℕ) (A × MockVm)

abbrev pub Action : Type 0 → Type 0
Action A = MockVm → Result A

abbrev pub continue : {A B : Type 0} → Result A → (A → Action B) → Result B
continue (ok (a, vm)) f = f a vm
continue (err e) f = err e
continue (panic p) f = panic p

infixl 5 ◌>>=◌ ◌>>◌
unfoldable pub ◌>>=◌ : {A B : Type 0} → Action A → (A → Action B) → Action B
◌>>=◌ m f vm = continue (m vm) f

abbrev pub ◌>>◌ : {A B : Type 0} → Action A → Action B → Action B
m >> k = m >>= λ _. k

unfoldable pub pure : {A : Type 0} → A → Action A
pure a vm = ok (a, vm)

unfoldable pub throw : {A : Type 0} → ValidateError → Action A
unfolding pc
throw e vm = err (e, pc vm)

unfoldable pub fail : {A : Type 0} → Fault → Action A
fail p vm = panic p

unfoldable pub gets : {A : Type 0} → (MockVm → A) → Action A
gets f vm = ok (f vm, vm)

-- `if bad { return e }`
abbrev pub reject_if : Bool → ValidateError → Action (Unit {0})
reject_if bad e = if bad then throw e else pure tt

-- A read at the end of the input leaves nothing unread.
abbrev fetched : {A : Type 0} → MockVm → Read A → Result A
fetched vm (ok (a, rest)) = ok (a, record vm { code = rest })
fetched vm (err eof) = err (end_of_input, vm.orig_length)
fetched vm (panic p) = panic p

unfoldable pub fetch_var_uint : Action ℕ
fetch_var_uint vm = fetched vm (read_var_uint32 vm.code)

unfoldable pub fetch_var_int : Action ℕ
fetch_var_int vm = fetched vm (read_varint32 vm.code)

unfoldable pub fetch_var_int64 : Action ℕ
fetch_var_int64 vm = fetched vm (read_varint64 vm.code)

-- `io.ReadFull` of four or eight bytes; no caller uses the value.
unfoldable pub fetch_bytes : ℕ → Action (Unit {0})
fetch_bytes n vm =
    if leb n (length vm.code)
    then ok (tt, record vm { code = drop n vm.code })
    else err (end_of_input, vm.orig_length)

unfoldable pub fetch_uint32 : Action (Unit {0})
unfolding fetch_bytes
fetch_uint32 = fetch_bytes 4

unfoldable pub fetch_uint64 : Action (Unit {0})
unfolding fetch_bytes
fetch_uint64 = fetch_bytes 8

unfoldable pub is_polymorphic : MockVm → Bool
is_polymorphic vm = elim vm.blocks [ [] ↦ vm.polymorphic | b ∷ _ ↦ b.polymorphic ]

-- `op == ops.Loop`
unfoldable pub push_block : ℕ → ℕ → Action (Unit {0})
unfolding pc is_polymorphic
push_block op block_type vm =
    let b : Block = record {
      pc = pc vm;
      stack_top = vm.stack_top;
      block_type = block_type;
      op = op;
      polymorphic = is_polymorphic vm;
      loop = op == 0x03;
    } in
    ok (tt, record vm { blocks = b ∷ vm.blocks })

unfoldable pub get_block_from_depth : ℕ → MockVm → Option Block
get_block_from_depth depth vm = get_elem? vm.blocks depth

unfoldable pub pop_block_from : List Block → Action (Option Block)
pop_block_from [] vm = ok (none, vm)
pop_block_from (b ∷ rest) vm = ok (some b, record vm { blocks = rest })

unfoldable pub pop_block : Action (Option Block)
unfolding pop_block_from
pop_block vm = pop_block_from vm.blocks vm

unfoldable pub top_block : MockVm → Option Block
top_block vm = elim vm.blocks [ [] ↦ none | b ∷ _ ↦ some b ]

-- `vm.stack[i]`
abbrev pub stack_at : ℕ → MockVm → Result ℕ
stack_at i vm = elim (get_elem? vm.stack i) [
  | none ↦ panic (index_range i (length vm.stack))
  | some t ↦ ok (t, vm)
]

-- The operand on top and whether there was none; then its type is the zero value.
unfoldable pub top_operand : Action (ℕ × Bool)
top_operand vm =
    if vm.stack_top == 0
    then ok ((0, true), vm)
    else continue (stack_at (vm.stack_top - 1) vm) (λ t vm'. ok ((t, false), vm'))

unfoldable pub pop_operand : Action (ℕ × Bool)
pop_operand vm =
    if vm.stack_top == 0
    then ok ((0, true), vm)
    else continue (stack_at (vm.stack_top - 1) vm)
        (λ t vm'. ok ((t, false), record vm' { stack_top = vm'.stack_top - 1 }))

unfoldable pub push_operand : ℕ → Action (Unit {0})
push_operand t vm =
    if vm.stack_top == length vm.stack
    then ok (tt, record vm { stack = vm.stack ++ t ∷ []; stack_top = vm.stack_top + 1 })
    else if ltb vm.stack_top (length vm.stack)
    then ok (tt, record vm { stack = set vm.stack vm.stack_top t; stack_top = vm.stack_top + 1 })
    else panic (index_range vm.stack_top (length vm.stack))

unfoldable pub set_stack_top : ℕ → Action (Unit {0})
set_stack_top n vm = ok (tt, record vm { stack_top = n })

unfoldable pub set_polymorphic : Action (Unit {0})
set_polymorphic vm = elim vm.blocks [
  | [] ↦ ok (tt, record vm { polymorphic = true })
  | b ∷ rest ↦ ok (tt, record vm { blocks = record b { polymorphic = true } ∷ rest })
]

-- Pops an operand that must have the type `t`, unless the block is polymorphic.
abbrev pub mismatch : Bool → ℕ → ℕ × Bool → Bool
mismatch poly t (top, under) = not poly && (under || not (top == t))

unfoldable pub pop_expected : ℕ → Action (Unit {0})
unfolding pop_operand is_polymorphic ◌>>=◌ throw pure gets
pop_expected t = do
  o ← pop_operand
  poly ← gets is_polymorphic
  reject_if (mismatch poly t o) (invalid_type t o.0)

unfoldable pub pop_all : List ℕ → Action (Unit {0})
unfolding pop_expected ◌>>=◌ pure
pop_all [] = pure tt
pop_all (t ∷ ts) = pop_expected t >> pop_all ts

unfoldable pub adjust_stack : Op → Action (Unit {0})
unfolding pop_all push_operand pure
adjust_stack op = do
  pop_all op.args
  if op.returns == block_type_empty then pure tt else push_operand op.returns

-- The type that a branch to `depth` must find on top, or `InvalidLabelError`.
unfoldable pub label_type : ℕ → MockVm → Option ℕ
unfolding get_block_from_depth
label_type depth vm = elim (get_block_from_depth depth vm) [
  | some b ↦ some (if b.loop then block_type_empty else b.block_type)
  | none ↦
      if depth == length vm.blocks
      then elim vm.cur_func.return_types [ [] ↦ some block_type_empty | t ∷ _ ↦ some t ]
      else none
]

unfoldable pub check_label : ℕ → Option ℕ → Action (Option ValidateError)
unfolding top_operand ◌>>=◌ pure
check_label depth none = pure (some (invalid_label depth))
check_label depth (some t) =
    if t == block_type_empty
    then pure none
    else top_operand >>= λ o.
        pure (if o.1 || not (o.0 == t) then some (invalid_type t o.0) else none)

-- `canBranch`: the error that it returns, if any.
unfoldable pub can_branch : ℕ → Action (Option ValidateError)
unfolding label_type check_label ◌>>=◌ gets
can_branch depth = gets (label_type depth) >>= check_label depth
