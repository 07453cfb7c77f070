-- ===== src/Disasm/Body.antt =====
-- wagon/disasm/disasm.go: the `switch` of `Disassemble` and its loop.
use sea_pkg.Base.{
  ℕ, zero, suc, ◌+◌, List, [], ◌∷◌, ◌++◌, Bool, true, false, not, ◌&&◌, ◌||◌, none, some,
}
use sea_pkg.Base.{◌==◌, leb, if◌then◌else◌, length}
use sea_pkg.Base.Outcome.{ok, err, ◌>>=◌}
use sea_pkg.Wasm.{Function, Module}
use sea_pkg.Operators.{new}
use sea_pkg.Disasm.{
  Instr, Kind, memory_access, if_, loop, block_, else_, end_, br, br_if, br_table, plain, kind,
  exhausted, invalid_opcode, Result, State, Disassembly, push_polymorphic_op, is_instr_reachable,
  lower_top,
}
use sea_pkg.Disasm.Effects.{read_int32, read_int64, read_full, check_type, when}
use sea_pkg.Disasm.Cases.{
  disassemble_close, disassemble_open, disassemble_branch, disassemble_br_table, disassemble_call,
  disassemble_variable, disassemble_const, disassemble_memory_access, disassemble_memory_size,
  disassemble_return,
}

-- The operators without a part in the control flow, and `unreachable` and `return`.
unfoldable pub disassemble_plain : Function → Module → Instr → State → Result (Instr × State)
disassemble_plain fn m instr d =
    if instr.op == 0x00
    then (push_polymorphic_op d >>= λ d'. ok (instr, d'))
    else if instr.op == 0x1a
    then (when (not instr.unreachable) (lower_top 1) d >>= λ d'. ok (instr, d'))
    else if instr.op == 0x1b
    then (when (not instr.unreachable) (lower_top 2) d >>= λ d'. ok (instr, d'))
    else if instr.op == 0x0f
    then disassemble_return fn instr d
    else if instr.op == 0x10
    then disassemble_call m false instr d
    else if instr.op == 0x11
    then disassemble_call m true instr d
    else if leb 0x20 instr.op && leb instr.op 0x24
    then disassemble_variable instr d
    else if instr.op == 0x41
    then disassemble_const 4 (read_int32 d) instr
    else if instr.op == 0x42
    then disassemble_const 8 (read_int64 d) instr
    else if instr.op == 0x43
    then disassemble_const 4 (read_full 4 d) instr
    else if instr.op == 0x44
    then disassemble_const 8 (read_full 8 d) instr
    else if instr.op == 0x3f || instr.op == 0x40
    then disassemble_memory_size instr d
    else ok (instr, d)

unfoldable pub disassemble_kind : Function → Module → Kind → Instr → State → Result (Instr × State)
disassemble_kind fn m memory_access instr d = disassemble_memory_access instr d
disassemble_kind fn m if_ instr d = disassemble_open instr d
disassemble_kind fn m loop instr d = disassemble_open instr d
disassemble_kind fn m block_ instr d = disassemble_open instr d
disassemble_kind fn m else_ instr d = disassemble_close true instr d
disassemble_kind fn m end_ instr d = disassemble_close false instr d
disassemble_kind fn m br instr d =
    disassemble_branch instr d >>= λ r. push_polymorphic_op (r.1) >>= λ d'. ok (r.0, d')
disassemble_kind fn m br_if instr d = disassemble_branch instr d
disassemble_kind fn m br_table instr d = disassemble_br_table instr d
disassemble_kind fn m plain instr d = disassemble_plain fn m instr d

-- Whether an instruction is unreachable: `end` and `else` are if their block is.
abbrev pub closes : Kind → Bool
closes end_ = true
closes else_ = true
closes _ = false

unfoldable pub is_unreachable : Kind → State → Result Bool
is_unreachable k d =
    if closes k
    then ok (not (length d.block_indices + 1 == length d.block_polymorphic_ops))
    else is_instr_reachable d.block_polymorphic_ops >>= λ reachable. ok (not reachable)

abbrev pub new_instr : ℕ → Bool → Instr
new_instr op unreachable = record {
  op = op;
  immediates = [];
  new_stack = none;
  block = none;
  unreachable = unreachable;
  is_return = false;
  branches = [];
}

unfoldable pub append_instr : ℕ → Instr × State → State
append_instr op (instr, d) = record d { code = d.code ++ instr ∷ []; last_op_return = op == 0x0f }

-- One round of the loop, for the operator `op` that was read.
unfoldable pub disassemble_op : Function → Module → ℕ → State → Result State
disassemble_op fn m op d = elim (new op) [
  | none ↦ err (invalid_opcode op)
  | some op_str ↦ is_unreachable (kind op) d >>= λ unreachable.
      check_type op_str unreachable d >>= λ d'.
      disassemble_kind fn m (kind op) (new_instr op unreachable) d' >>= λ r. ok (append_instr op r)
]

-- The loop, on fuel.
unfoldable pub disassemble_loop : Function → Module → ℕ → State → Result State
disassemble_loop fn m zero d = err exhausted
disassemble_loop fn m (suc fuel) d = elim d.reader [
  | [] ↦ ok d
  | op ∷ rest ↦ disassemble_op fn m op (record d { reader = rest }) >>= disassemble_loop fn m fuel
]

abbrev pub initial : List ℕ → State
initial code = record {
  reader = code;
  code = [];
  max_depth = 0;
  block_polymorphic_ops = [] ∷ [];
  stack_depths = 0 ∷ [];
  block_indices = [];
  last_op_return = false;
}

-- A round reads a byte at least, so a round for each byte and one more are enough.
unfoldable pub disassemble : Function → Module → Result Disassembly
disassemble fn m = do
  d ← disassemble_loop fn m (length fn.body.code + 1) (initial fn.body.code)
  ok (record { code = d.code; max_depth = d.max_depth })
