-- ===== src/Validate/Body.antt =====
-- wagon/validate/validate.go: `verifyBody` and `VerifyModule`.
-- The `switch` is `classify`, from the opcode to the case, and `verify_case`, with a function for
-- each longer case. Opcodes that no case names only adjust the stack.
use sea_pkg.Base.{ℕ, zero, suc, ◌+◌, ◌%◌, List, [], ◌∷◌, ◌++◌, Bool, false, not, ◌&&◌, ◌||◌}
use sea_pkg.Base.{◌==◌, leb, if◌then◌else◌, length, get_elem?, replicate, Option, none, some}
use sea_pkg.Base.Outcome.{Outcome, ok, err, panic, index_range, nil_pointer, not_implemented}
use sea_pkg.Wasm.{
  FunctionSig, FunctionBody, Function, GlobalEntry, Module, LocalEntry, get_function, get_global,
}
use sea_pkg.Wasm.{i32, i64, f32, f64, block_type_empty}
use sea_pkg.Operators
use sea_pkg.Operators.{Op}
use sea_pkg.Validate.{
  ValidateError, stack_underflow, invalid_opcode, unmatched_op, invalid_local_index,
  invalid_global_index, invalid_function_index, no_section, invalid_immediate, invalid_type, Block,
  MockVm, Result, Action, ◌>>=◌, ◌>>◌, pure, throw, fail, gets, reject_if, fetch_var_uint,
  fetch_var_int, fetch_var_int64, fetch_uint32, fetch_uint64, is_polymorphic, push_block, pop_block,
  top_block, top_operand, pop_operand, push_operand, set_stack_top, set_polymorphic, mismatch,
  pop_expected, pop_all, adjust_stack, can_branch,
}
use mathlib.Core.List.{reverse}

-- The parameters and then the declared variables, each by its type.
unfoldable pub declared : List LocalEntry → List ℕ
declared [] = []
declared (entry ∷ rest) = replicate entry.count entry.value_type ++ declared rest

unfoldable pub local_variables : FunctionSig → FunctionBody → List ℕ
unfolding declared
local_variables fn body = fn.param_types ++ declared body.locals

-- The cases of the `switch`, in its order.
pub data Case : Type 0 where
  open_block otherwise_branch end_block branch branch_table return_op unreachable : Case
  i32_const i64_const f32_const f64_const local_op global_op memory_op memory_size : Case
  call call_indirect drop_op select_op plain : Case

abbrev pub one_of : ℕ → List ℕ → Bool
one_of op [] = false
one_of op (c ∷ cs) = op == c || one_of op cs

unfoldable pub classify : ℕ → Case
classify op =
    if one_of op (0x04 ∷ 0x02 ∷ 0x03 ∷ [])
    then open_block
    else if op == 0x05
    then otherwise_branch
    else if op == 0x0b
    then end_block
    else if one_of op (0x0d ∷ 0x0c ∷ [])
    then branch
    else if op == 0x0e
    then branch_table
    else if op == 0x0f
    then return_op
    else if op == 0x00
    then unreachable
    else if op == 0x41
    then i32_const
    else if op == 0x42
    then i64_const
    else if op == 0x43
    then f32_const
    else if op == 0x44
    then f64_const
    else if one_of op (0x20 ∷ 0x21 ∷ 0x22 ∷ [])
    then local_op
    else if one_of op (0x23 ∷ 0x24 ∷ [])
    then global_op
    else if leb 0x28 op && leb op 0x3e
    then memory_op
    else if one_of op (0x3f ∷ 0x40 ∷ [])
    then memory_size
    else if op == 0x10
    then call
    else if op == 0x11
    then call_indirect
    else if op == 0x1a
    then drop_op
    else if op == 0x1b
    then select_op
    else plain

-- `wasm.ValueType(sig)`, an `int8`, is one of the block types.
unfoldable pub verify_open : Op → Action (Unit {0})
verify_open op = do
  sig ← fetch_var_int
  let block_type = sig % 256
  poly ← gets is_polymorphic
  if one_of block_type (i32 ∷ i64 ∷ f32 ∷ f64 ∷ block_type_empty ∷ [])
      then push_block op.code block_type
      else reject_if (not poly) (invalid_immediate op.name)

unfoldable pub verify_else_block : Block → Action (Unit {0})
verify_else_block block =
    (if block.block_type == block_type_empty then pure tt else do
      o ← top_operand
      poly ← gets is_polymorphic
      reject_if (mismatch poly block.block_type o) (invalid_type block.block_type o.0)
      push_operand block.block_type)
    >> set_stack_top block.stack_top

-- What the case does with the block that it found, or with nil.
unfoldable pub else_at : Op → Option Block → Action (Unit {0})
else_at op none = throw (unmatched_op op.code)
else_at op (some b) = if b.op == 0x04 then verify_else_block b else throw (unmatched_op op.code)

unfoldable pub verify_else : Op → Action (Unit {0})
verify_else op = gets top_block >>= else_at op

unfoldable pub verify_end_block : Bool → Block → Action (Unit {0})
verify_end_block poly block =
    if block.block_type == block_type_empty then set_stack_top block.stack_top else do
      o ← top_operand
      reject_if (mismatch poly block.block_type o) (invalid_type block.block_type o.0)
      set_stack_top block.stack_top
      push_operand block.block_type
      set_stack_top (block.stack_top + 1)

unfoldable pub end_at : Op → Bool → Option Block → Action (Unit {0})
end_at op poly none = throw (unmatched_op op.code)
end_at op poly (some b) = verify_end_block poly b

unfoldable pub verify_end : Op → Action (Unit {0})
verify_end op = gets is_polymorphic >>= λ poly. pop_block >>= end_at op poly

-- One target of a branch: the error of `canBranch` counts unless the block is polymorphic.
unfoldable pub target_error : Bool → Option ValidateError → Action (Unit {0})
target_error poly none = pure tt
target_error poly (some e) = reject_if (not poly) e

unfoldable pub verify_target : ℕ → Action (Unit {0})
verify_target depth = do e ← can_branch depth; poly ← gets is_polymorphic; target_error poly e

unfoldable pub verify_branch : Op → Action (Unit {0})
verify_branch op = do
  depth ← fetch_var_uint
  verify_target depth
  if op.code == 0x0c then set_polymorphic else pure tt

unfoldable pub verify_targets : ℕ → Action (Unit {0})
verify_targets zero = pure tt
verify_targets (suc n) = fetch_var_uint >>= λ entry. verify_target entry >> verify_targets n

unfoldable pub verify_branch_table : Action (Unit {0})
verify_branch_table = do
  pop_expected i32
  target_count ← fetch_var_uint
  verify_targets target_count
  default_target ← fetch_var_uint
  verify_target default_target
  set_polymorphic

unfoldable pub return_with : List ℕ → Action (Unit {0})
return_with [] = set_polymorphic
return_with (t ∷ []) = pop_expected t >> set_polymorphic
return_with (_ ∷ _ ∷ _) = fail not_implemented

unfoldable pub verify_return : FunctionSig → Action (Unit {0})
verify_return fn = return_with fn.return_types

unfoldable pub local_at : Op → ℕ → Option ℕ → Action (Unit {0})
local_at op i none = throw (invalid_local_index i)
local_at op i (some t) =
    if op.code == 0x20
    then push_operand t
    else pop_expected t >> (if op.code == 0x22 then push_operand t else pure tt)

unfoldable pub verify_local : List ℕ → Op → Action (Unit {0})
verify_local locals op = fetch_var_uint >>= λ i. local_at op i (get_elem? locals i)

unfoldable pub global_at : Op → ℕ → Option GlobalEntry → Action (Unit {0})
global_at op index none = throw (invalid_global_index index)
global_at op index (some gv) =
    if op.code == 0x23 then push_operand gv.value_type else pop_expected gv.value_type

unfoldable pub verify_global : Module → Op → Action (Unit {0})
verify_global m op = fetch_var_uint >>= λ index. global_at op index (get_global m index)

-- The operands of a call, the last parameter first, and its result.
unfoldable pub push_result : List ℕ → Action (Unit {0})
push_result [] = pure tt
push_result (t ∷ _) = push_operand t

unfoldable pub apply_sig : FunctionSig → Action (Unit {0})
apply_sig sig = pop_all (reverse sig.param_types) >> push_result sig.return_types

unfoldable pub call_at : ℕ → Option Function → Action (Unit {0})
call_at index none = throw (invalid_function_index index)
call_at index (some fn) = apply_sig fn.sig

unfoldable pub verify_call : Module → Action (Unit {0})
verify_call m = fetch_var_uint >>= λ index. call_at index (get_function m index)

-- `module.Types.Entries[index]`; a module without types never comes here.
unfoldable pub entry_of : ℕ → List FunctionSig → Action FunctionSig
entry_of index types = elim (get_elem? types index) [
  | none ↦ fail (index_range index (length types))
  | some sig ↦ pure sig
]

unfoldable pub type_entry : Option (List FunctionSig) → ℕ → Action FunctionSig
type_entry none index = fail nil_pointer
type_entry (some types) index = entry_of index types

unfoldable pub call_table : Module → Option ℕ → Action (Unit {0})
call_table m none = throw (no_section 4)
call_table m (some entries) =
    if entries == 0
    then throw (no_section 4)
    else do index ← fetch_var_uint; sig ← type_entry m.types index; pop_expected i32; apply_sig sig

-- The section id of a table is 4.
unfoldable pub verify_call_indirect : Module → Action (Unit {0})
verify_call_indirect m = call_table m m.table

unfoldable pub verify_drop : Action (Unit {0})
verify_drop = do
  o ← pop_operand
  poly ← gets is_polymorphic
  reject_if (not poly && o.1) stack_underflow

-- One of the two values between which `select` chooses.
unfoldable pub pop_choice : Action ℕ
pop_choice = do
  o ← pop_operand
  poly ← gets is_polymorphic
  reject_if (not poly && o.1) stack_underflow
  pure o.0

-- `operands` has two elements, and the error for different types reads a third.
unfoldable pub verify_select_typed : Action (Unit {0})
verify_select_typed = do
  c ← pop_operand
  reject_if (mismatch false i32 c) (invalid_type i32 c.0)
  a ← pop_choice
  b ← pop_choice
  if a == b then push_operand b else fail (index_range 2 2)

unfoldable pub verify_select : Action (Unit {0})
verify_select = gets is_polymorphic >>= λ poly. if poly then pure tt else verify_select_typed

unfoldable pub verify_case : FunctionSig → Module → List ℕ → Op → Case → Action (Unit {0})
verify_case fn m locals op open_block = verify_open op
verify_case fn m locals op otherwise_branch = verify_else op
verify_case fn m locals op end_block = verify_end op
verify_case fn m locals op branch = verify_branch op
verify_case fn m locals op branch_table = verify_branch_table
verify_case fn m locals op return_op = verify_return fn
verify_case fn m locals op unreachable = set_polymorphic
verify_case fn m locals op i32_const = fetch_var_uint >> pure tt
verify_case fn m locals op i64_const = fetch_var_int64 >> pure tt
verify_case fn m locals op f32_const = fetch_uint32
verify_case fn m locals op f64_const = fetch_uint64
verify_case fn m locals op local_op = verify_local locals op
verify_case fn m locals op global_op = verify_global m op
verify_case fn m locals op memory_op = fetch_var_uint >> (fetch_var_uint >> pure tt)
verify_case fn m locals op memory_size = fetch_var_uint >> pure tt
verify_case fn m locals op call = verify_call m
verify_case fn m locals op call_indirect = verify_call_indirect m
verify_case fn m locals op drop_op = verify_drop
verify_case fn m locals op select_op = verify_select
verify_case fn m locals op plain = pure tt

-- The body of the loop after the opcode is read.
unfoldable pub verify_known : FunctionSig → Module → List ℕ → ℕ → Option Op → Action (Unit {0})
verify_known fn m locals code none = throw (invalid_opcode code)
verify_known fn m locals code (some op) =
    (if op.polymorphic then pure tt else adjust_stack op)
    >> verify_case fn m locals op (classify code)

unfoldable pub verify_op : FunctionSig → Module → List ℕ → ℕ → Action (Unit {0})
verify_op fn m locals code = verify_known fn m locals code (Operators.new code)

-- The loop, on fuel, over the code that is left: `none` means that the fuel ran out.
unfoldable pub verify_loop :
    FunctionSig → Module → List ℕ → ℕ → List ℕ → MockVm → Option (Result (Unit {0}))
verify_loop fn m locals zero code vm = none
verify_loop fn m locals (suc fuel) [] vm = some (ok (tt, vm))
verify_loop fn m locals (suc fuel) (op ∷ rest) vm =
    elim (verify_op fn m locals op (record vm { code = rest })) [
      | ok (_, vm') ↦ verify_loop fn m locals fuel vm'.code vm'
      | err e ↦ some (err e)
      | panic p ↦ some (panic p)
    ]

unfoldable pub initial : FunctionSig → FunctionBody → MockVm
initial fn body = record {
  stack = [];
  stack_top = 0;
  orig_length = length body.code;
  code = body.code;
  polymorphic = false;
  blocks = [];
  cur_func = fn;
}

-- A round takes a byte at least, so one round more than the body has bytes is enough.
unfoldable pub verify_body : FunctionSig → FunctionBody → Module → Option (Result (Unit {0}))
verify_body fn body m =
    verify_loop fn m (local_variables fn body) (suc (length body.code)) body.code (initial fn body)

-- The error of a module: the offset, the function and the error, or a missing section.
pub data ModuleError : Type 0 where
  in_function : ℕ → ℕ → ValidateError → ModuleError
  missing_section : ℕ → ModuleError

unfoldable pub verify_functions :
    Module → ℕ → List Function → Option (Outcome ModuleError (Unit {0}))
verify_functions m i [] = some (ok tt)
verify_functions m i (fn ∷ rest) =
    let others = verify_functions m (suc i) rest in
    elim (verify_body fn.sig fn.body m) [
      | none ↦ none
      | some (ok _) ↦ others
      | some (err (e, offset)) ↦ some (err (in_function offset i e))
      | some (panic p) ↦ some (panic p)
    ]

-- The section id of the code is 10.
unfoldable pub verify_module : Module → Option (Outcome ModuleError (Unit {0}))
verify_module m = elim m.function [
  | none ↦ some (ok tt)
  | some _ ↦ elim m.types [
    | none ↦ some (ok tt)
    | some [] ↦ some (ok tt)
    | some (_ ∷ _) ↦ elim m.code [
      | none ↦ some (err (missing_section 10))
      | some _ ↦ verify_functions m 0 m.function_index_space
    ]
  ]
]
