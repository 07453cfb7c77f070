-- ===== src/Disasm/Cases.antt =====
-- wagon/disasm/disasm.go: the longer cases of the `switch` of `Disassemble`.
use sea_pkg.Base.{
  ℕ, zero, suc, ◌+◌, ◌%◌, List, [], ◌∷◌, ◌++◌, Bool, true, false, not, ◌&&◌, ◌||◌, Option, none,
  some,
}
use sea_pkg.Base.{◌==◌, if◌then◌else◌, length, get_elem?, set, drop}
use sea_pkg.Base.Outcome.{
  ok, err, panic, empty_stack, negative_index, index_range, slice_bounds, nil_pointer, ◌>>=◌,
}
use sea_pkg.Base.Words.{add, sub, is_neg, lt_s}
use sea_pkg.Wasm.{Function, FunctionSig, Module, get_function, block_type_empty}
use sea_pkg.Disasm.{
  StackInfo, new_stack_info, BlockInfo, new_block_info, Immediate, uint32, sized, Instr,
  stack_underflow, missing_types, Result, State, found_at, check_max_depth, push_polymorphic_op,
  top, set_top, lower_top,
}
use sea_pkg.Disasm.Effects.{read_uint32, read_int32, below_minus_one, when}

abbrev pub pop_index : List ℕ → Result (ℕ × List ℕ)
pop_index [] = panic empty_stack
pop_index (i ∷ rest) = ok (i, rest)

-- `disas.Code[index]`, and its block.
unfoldable pub instr_at : ℕ → State → Result Instr
instr_at index d = found_at (index_range index (length d.code)) (get_elem? d.code index)

unfoldable pub block_of : Instr → Result BlockInfo
block_of i = found_at nil_pointer i.block

-- `stackDepths.Get(stackDepths.Len() - 2 - depth)`.
unfoldable pub parent_depth : ℕ → State → Result ℕ
parent_depth depth d = found_at negative_index (get_elem? d.stack_depths (depth + 1))

-- The stack after a block: after `return` it is not looked at.
unfoldable pub unwound : State → ℕ → ℕ → ℕ → Result StackInfo
unwound d cur prev sig =
    if d.last_op_return
    then ok new_stack_info
    else if below_minus_one (sub 64 cur prev)
    then err stack_underflow
    else ok (record new_stack_info {
      stack_top_diff = sub 64 cur prev;
      preserve_top = not (sig == block_type_empty);
    })

-- The result of a block counts for the block around it.
unfoldable pub count_result : Bool → ℕ → ℕ → State → State
count_result counts sig prev d =
    let counted = counts && not (sig == block_type_empty) in
    record d {
      stack_depths = if counted then set d.stack_depths 1 (add 64 prev 1) else d.stack_depths;
      max_depth =
          if counted && lt_s 64 d.max_depth (add 64 prev 1) then add 64 prev 1 else d.max_depth;
    }

-- The lists without that of a reachable block.
abbrev pub pop_list : Bool → List (List ℕ) → Result (List (List ℕ))
pop_list true polys = ok polys
pop_list false [] = panic (slice_bounds 0 0)
pop_list false (_ ∷ polys) = ok polys

-- The new block of `else`, whose stack starts at 0.
unfoldable pub open_else : Bool → State → State
open_else unreachable d = record d {
  stack_depths = 0 ∷ d.stack_depths;
  block_indices = length d.code ∷ d.block_indices;
  block_polymorphic_ops =
      if unreachable then d.block_polymorphic_ops else [] ∷ d.block_polymorphic_ops;
}

-- The information of `end` and `else`, and what they note at the operator that starts the block.
unfoldable pub closing_info : Bool → ℕ → BlockInfo → BlockInfo
closing_info is_else index info =
    let closed = new_block_info false info.signature in
    if is_else
    then record closed { else_if_index = index }
    else record closed { block_start_index = index }

unfoldable pub note_close : Bool → ℕ → ℕ → BlockInfo → BlockInfo
note_close is_else index cur info =
    if is_else then record info { if_else_index = index } else record info { end_index = cur }

unfoldable pub disassemble_close : Bool → Instr → State → Result (Instr × State)
disassemble_close is_else instr d = do
  cur ← top d
  (index, indices) ← pop_index d.block_indices
  starting ← instr_at index d
  info ← block_of starting
  prev ← parent_depth 0 d
  stack ← unwound d cur prev info.signature
  let starting' = record starting {
    block = some (note_close is_else index (length d.code) info);
    new_stack = some stack;
  }
  polys ← pop_list instr.unreachable d.block_polymorphic_ops
  let d' = count_result (not is_else && not instr.unreachable) info.signature prev d
  let d'' = record d' {
    code = set d.code index starting';
    block_indices = indices;
    block_polymorphic_ops = polys;
    stack_depths = drop 1 d'.stack_depths;
  }
  let instr' = record instr {
    block = some (closing_info is_else index info);
    new_stack = some stack;
  }
  ok (instr', if is_else then open_else instr.unreachable d'' else d'')

unfoldable pub disassemble_open : Instr → State → Result (Instr × State)
disassemble_open instr d = do
  (sig, d') ← read_int32 d
  depth ← top d'
  let opened = record d' {
    stack_depths = depth ∷ d'.stack_depths;
    block_indices = length d'.code ∷ d'.block_indices;
    block_polymorphic_ops =
        if instr.unreachable then d'.block_polymorphic_ops else [] ∷ d'.block_polymorphic_ops;
  }
  let instr' = record instr {
    block = some (new_block_info true (sig % 256));
    immediates = sized 1 (sig % 256) ∷ [];
  }
  ok (instr', opened)

-- The number of elements that a branch discards.
unfoldable pub discarded : ℕ → ℕ → Result ℕ
discarded cur prev =
    let elems_discard = sub 64 cur prev in
    if is_neg 64 elems_discard then err stack_underflow else ok elems_discard

-- The stack that a branch to the block `depth` unwinds.
unfoldable pub branch_info : ℕ → State → Result StackInfo
branch_info depth d = do
  cur ← top d
  prev ← parent_depth depth d
  elems_discard ← discarded cur prev
  index ← found_at negative_index (get_elem? d.block_indices depth)
  target ← instr_at index d
  info ← block_of target
  ok (record new_stack_info {
    stack_top_diff = elems_discard;
    preserve_top = not (info.signature == block_type_empty);
  })

unfoldable pub disassemble_branch : Instr → State → Result (Instr × State)
disassemble_branch instr d = do
  (depth, d') ← read_uint32 d
  let instr' = record instr { immediates = uint32 depth ∷ [] }
  if depth == length d'.block_indices
      then ok (record instr' { is_return = true }, d')
      else branch_info depth d' >>= λ info. ok (record instr' { new_stack = some info }, d')

unfoldable pub table_info : ℕ → State → Result StackInfo
table_info entry d =
    if entry == length d.block_indices
    then ok (record new_stack_info { is_return = true })
    else branch_info entry d

-- The entries of a branch table, with what each unwinds.
unfoldable pub read_targets : ℕ → State → Result (List Immediate × List StackInfo × State)
read_targets zero d = ok ([], [], d)
read_targets (suc n) d = do
  (entry, d') ← read_uint32 d
  info ← table_info entry d'
  (entries, infos, d'') ← read_targets n d'
  ok (uint32 entry ∷ entries, info ∷ infos, d'')

unfoldable pub disassemble_br_table : Instr → State → Result (Instr × State)
disassemble_br_table instr d = do
  d1 ← when (not instr.unreachable) (lower_top 1) d
  (count, d2) ← read_uint32 d1
  (entries, infos, d3) ← read_targets count d2
  (default_target, d4) ← read_uint32 d3
  info ← table_info default_target d4
  d5 ← push_polymorphic_op d4
  let instr' = record instr {
    immediates = uint32 count ∷ (entries ++ uint32 default_target ∷ []);
    branches = infos ++ info ∷ [];
  }
  ok (instr', d5)

-- `module.Types.Entries[index]`.
abbrev pub entry_of : ℕ → Option (List FunctionSig) → Result FunctionSig
entry_of index none = err missing_types
entry_of index (some entries) =
    found_at (index_range index (length entries)) (get_elem? entries index)

-- The signature of a callee.
unfoldable pub callee : Module → Bool → ℕ → Result FunctionSig
callee m indirect index =
    if indirect
    then entry_of index m.types
    else found_at nil_pointer (get_function m index) >>= λ f. ok f.sig

unfoldable pub apply_call : Module → Bool → ℕ → State → Result State
apply_call m indirect index d = do
  v ← top d
  sig ← callee m indirect index
  let v' = if indirect then sub 64 v 1 else v
  let t = add 64 (sub 64 v' (length sig.param_types)) (length sig.return_types)
  d' ← set_top t d
  ok (check_max_depth t d')

unfoldable pub disassemble_call : Module → Bool → Instr → State → Result (Instr × State)
disassemble_call m indirect instr d = do
  (index, d1) ← read_uint32 d
  (reserved, d2) ← if indirect then read_uint32 d1 else ok (0, d1)
  d3 ← when (not instr.unreachable) (apply_call m indirect index) d2
  ok (
    record instr { immediates = uint32 index ∷ (if indirect then uint32 reserved ∷ [] else []) },
    d3,
  )

-- `get_local` and `get_global` push, `set_local` and `set_global` pop, `tee_local` does neither.
unfoldable pub apply_variable : ℕ → State → Result State
apply_variable op d =
    if op == 0x20 || op == 0x23
    then (do v ← top d; d' ← set_top (add 64 v 1) d; ok (check_max_depth (add 64 v 1) d'))
    else if op == 0x21 || op == 0x24
    then lower_top 1 d
    else ok d

unfoldable pub disassemble_variable : Instr → State → Result (Instr × State)
disassemble_variable instr d = do
  (index, d') ← read_uint32 d
  d'' ← when (not instr.unreachable) (apply_variable instr.op) d'
  ok (record instr { immediates = uint32 index ∷ [] }, d'')

unfoldable pub disassemble_const : ℕ → Result (ℕ × State) → Instr → Result (Instr × State)
disassemble_const size r instr = do
  (v, d) ← r
  ok (record instr { immediates = sized size v ∷ [] }, d)

unfoldable pub disassemble_memory_access : Instr → State → Result (Instr × State)
disassemble_memory_access instr d = do
  (flags, d') ← read_uint32 d
  (offset, d'') ← read_uint32 d'
  ok (record instr { immediates = uint32 flags ∷ uint32 offset ∷ [] }, d'')

unfoldable pub disassemble_memory_size : Instr → State → Result (Instr × State)
disassemble_memory_size instr d = do
  (res, d') ← read_uint32 d
  ok (record instr { immediates = sized 1 (res % 256) ∷ [] }, d')

unfoldable pub disassemble_return : Function → Instr → State → Result (Instr × State)
disassemble_return fn instr d = do
  d' ← when (not instr.unreachable) (lower_top (length fn.sig.return_types)) d
  d'' ← push_polymorphic_op d'
  ok (instr, d'')
