-- ===== src/Disasm.antt =====
-- wagon/disasm/disasm.go: instructions, and the state of `Disassemble`. The stacks of
-- wagon/internal/stack and the lists of polymorphic operators are lists from their top, where the
-- source appends at the end, so `Get(Len()-1-k)` is the entry `k`. An `int` and a `uint64` are bit
-- patterns. `curIndex` is the length of the code. Log lines are left out.
pub mod Effects
pub mod Cases
pub mod Body
pub mod Trace
pub mod Invariant
pub mod Blocks
pub mod Rounds
pub mod Loop
mod Tests
use sea_pkg.Base.{
  ℕ, ◌+◌, ◌-◌, ◌%◌, ◌^◌, List, [], ◌∷◌, ◌++◌, Bool, true, false, not, ◌&&◌, Option, none, some,
}
use sea_pkg.Base.{◌==◌, leb, if◌then◌else◌, length, get_elem?, set}
use sea_pkg.Base.Outcome.{Outcome, ok, err, panic, Fault, empty_stack, negative_index, ◌>>=◌}
use sea_pkg.Base.Words.{sub, lt_s}

pub record StackInfo : Type 0 where
  pub stack_top_diff : ℕ
  pub preserve_top : Bool
  pub is_return : Bool

abbrev pub new_stack_info : StackInfo
new_stack_info = record { stack_top_diff = 0; preserve_top = false; is_return = false }

pub record BlockInfo : Type 0 where
  pub start : Bool
  pub signature : ℕ
  pub if_else_index : ℕ
  pub else_if_index : ℕ
  pub end_index : ℕ
  pub block_start_index : ℕ

abbrev pub new_block_info : Bool → ℕ → BlockInfo
new_block_info start signature = record {
  start = start;
  signature = signature;
  if_else_index = 0;
  else_if_index = 0;
  end_index = 0;
  block_start_index = 0;
}

-- An immediate of another type by its size in bytes and its bits.
pub data Immediate : Type 0 where
  uint32 : ℕ → Immediate
  sized : ℕ → ℕ → Immediate

pub record Instr : Type 0 where
  pub op : ℕ
  pub immediates : List Immediate
  pub new_stack : Option StackInfo
  pub block : Option BlockInfo
  pub unreachable : Bool
  pub is_return : Bool
  pub branches : List StackInfo

-- The cases of the switches on an operator that its control flow sets apart.
pub data Kind : Type 0 where
  memory_access if_ loop block_ else_ end_ br br_if br_table plain : Kind

unfoldable pub kind : ℕ → Kind
kind op =
    if leb 0x28 op && leb op 0x3e
    then memory_access
    else if op == 0x04
    then if_
    else if op == 0x03
    then loop
    else if op == 0x02
    then block_
    else if op == 0x05
    then else_
    else if op == 0x0b
    then end_
    else if op == 0x0c
    then br
    else if op == 0x0d
    then br_if
    else if op == 0x0e
    then br_table
    else plain

-- The errors of `Disassemble`, the first two those of the reader. `exhausted` is no Go value: the
-- fuel of the model ran out.
pub data DisasmError : Type 0 where
  end_of_input unexpected_end stack_underflow missing_types exhausted : DisasmError
  invalid_opcode : ℕ → DisasmError

abbrev pub Result {ℓ} : Type ℓ → Type ℓ
Result A = Outcome DisasmError A

-- The local variables of `Disassemble`, with the `Disassembly` that it builds.
pub record State : Type 0 where
  pub reader : List ℕ
  pub code : List Instr
  pub max_depth : ℕ
  pub block_polymorphic_ops : List (List ℕ)
  pub stack_depths : List ℕ
  pub block_indices : List ℕ
  pub last_op_return : Bool

pub record Disassembly : Type 0 where
  pub code : List Instr
  pub max_depth : ℕ

abbrev pub found_at {ℓ} : {A : Type ℓ} → Fault → Option A → Result A
found_at p none = panic p
found_at p (some a) = ok a

unfoldable pub check_max_depth : ℕ → State → State
check_max_depth depth d = record d {
  max_depth = if lt_s 64 d.max_depth depth then depth else d.max_depth;
}

abbrev pub push_to : ℕ → List (List ℕ) → Result (List (List ℕ))
push_to index [] = panic empty_stack
push_to index (ops ∷ stack) = ok ((ops ++ index ∷ []) ∷ stack)

-- `pushPolymorphicOp` with the current index.
unfoldable pub push_polymorphic_op : State → Result State
push_polymorphic_op d = do
  stack ← push_to (length d.code) d.block_polymorphic_ops
  ok (record d { block_polymorphic_ops = stack })

abbrev pub is_empty : List ℕ → Bool
is_empty [] = true
is_empty (_ ∷ _) = false

abbrev pub is_instr_reachable : List (List ℕ) → Result Bool
is_instr_reachable [] = panic empty_stack
is_instr_reachable (ops ∷ _) = ok (is_empty ops)

-- `stackDepths.Top()` and `SetTop(v)`.
abbrev pub top_of : List ℕ → Result ℕ
top_of [] = panic empty_stack
top_of (v ∷ _) = ok v

abbrev pub set_top_of : ℕ → List ℕ → Result (List ℕ)
set_top_of v [] = panic empty_stack
set_top_of v (_ ∷ stack) = ok (v ∷ stack)

unfoldable pub top : State → Result ℕ
top d = top_of d.stack_depths

unfoldable pub set_top : ℕ → State → Result State
set_top v d = do stack ← set_top_of v d.stack_depths; ok (record d { stack_depths = stack })

-- `SetTop(Top() - n)`, where a depth below 0 wraps round.
unfoldable pub lower_top : ℕ → State → Result State
lower_top n d = do v ← top d; set_top (sub 64 v n) d
