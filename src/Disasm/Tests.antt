-- ===== src/Disasm/Tests.antt =====
-- `block; i32.const 1; br_if 0; end`, and `else` above values on the stack.
use sea_pkg.Base.{ℕ, ◌≡◌, refl, List, [], ◌∷◌, Option, some, none, true, false}
use sea_pkg.Base.Outcome.{ok, err}
use sea_pkg.Wasm.{Function, Module}
use sea_pkg.Leb128.{read_varint32, read_var_uint32}
use sea_pkg.Operators.{new}
use sea_pkg.Disasm.{
  StackInfo, BlockInfo, new_block_info, Immediate, uint32, sized, Instr, kind, Disassembly,
  stack_underflow, check_max_depth, top, set_top,
}
use sea_pkg.Disasm.Effects.{read_uint32, read_int32, apply_type, check_type}
use sea_pkg.Disasm.Cases.{
  instr_at, block_of, parent_depth, unwound, count_result, open_else, closing_info, note_close,
  disassemble_close, disassemble_open, discarded, branch_info, disassemble_branch,
  disassemble_const,
}
use sea_pkg.Disasm.Body.{
  disassemble_plain, disassemble_kind, is_unreachable, append_instr, disassemble_op,
  disassemble_loop, disassemble,
}
use sea_pkg.Disasm.Invariant.{Post}
use sea_pkg.Disasm.Loop.{NestedCode, disassemble-NestedCode}
use sea_pkg.Compile.{BranchTable}
use sea_pkg.Compile.Body.{compile}
use sea_pkg.Compile.Link.{is_ended, all_ended, disassemble-compile}

abbrev function : List ℕ → Function
function code = record {
  sig = record { param_types = []; return_types = [] };
  body = record { locals = []; code = code };
}

abbrev empty_module : Module
empty_module = record {
  types = none;
  function = none;
  table = none;
  code = none;
  function_index_space = [];
  global_index_space = [];
  global = none;
  memory = none;
  start = none;
  elements = none;
  data_ = none;
  table_index_space = [];
  linear_memory_index_space = [];
  imported_funcs = [];
}

abbrev block_br_if : List ℕ
block_br_if = 0x02 ∷ 0x40 ∷ 0x41 ∷ 0x01 ∷ 0x0d ∷ 0x00 ∷ 0x0b ∷ []

abbrev level : StackInfo
level = record { stack_top_diff = 0; preserve_top = false; is_return = false }

abbrev instr : ℕ → List Immediate → Option StackInfo → Option BlockInfo → Instr
instr op immediates new_stack block = record {
  op = op;
  immediates = immediates;
  new_stack = new_stack;
  block = block;
  unreachable = false;
  is_return = false;
  branches = [];
}

abbrev disassembled : Disassembly
disassembled = record {
  code =
      instr 0x02 (sized 1 0xc0 ∷ []) (some level)
        (some (record (new_block_info true 0xc0) { end_index = 3 }))
      ∷ instr 0x41 (sized 4 1 ∷ []) none none
      ∷ instr 0x0d (uint32 0 ∷ []) (some level) none
      ∷ instr 0x0b [] (some level) (some (new_block_info false 0xc0))
      ∷ [];
  max_depth = 1;
}

disassemble-block_br_if : disassemble (function block_br_if) empty_module ≡ ok disassembled
unfolding disassemble disassemble_loop disassemble_op new is_unreachable check_type apply_type
    check_max_depth top set_top disassemble_kind kind append_instr disassemble_open
    disassemble_close disassemble_branch branch_info discarded parent_depth instr_at block_of
    unwound count_result open_else note_close closing_info read_uint32 read_int32 disassemble_plain
    disassemble_const read_varint32 read_var_uint32
disassemble-block_br_if = refl

all_ended-block_br_if : all_ended disassembled.code ≡ true
unfolding all_ended is_ended kind
all_ended-block_br_if = refl

disassemble-compile_example : (r : List ℕ × List BranchTable) × (compile disassembled.code ≡ ok r)
disassemble-compile_example =
    disassemble-compile (function block_br_if) empty_module disassembled disassemble-block_br_if
      all_ended-block_br_if

disassemble-NestedCode_example :
    Post (λ (d : Disassembly). NestedCode d.code) (disassemble (function block_br_if) empty_module)
disassemble-NestedCode_example = disassemble-NestedCode (function block_br_if) empty_module

-- Two values, and `if; else; end` above them.
abbrev else_above : List ℕ
else_above = 0x41 ∷ 0x07 ∷ 0x41 ∷ 0x07 ∷ 0x41 ∷ 0x01 ∷ 0x04 ∷ 0x40 ∷ 0x05 ∷ 0x0b ∷ 0x1a ∷ 0x1a ∷ []

disassemble-else_above : disassemble (function else_above) empty_module ≡ err stack_underflow
unfolding disassemble disassemble_loop disassemble_op new is_unreachable check_type apply_type
    check_max_depth top set_top disassemble_kind kind append_instr disassemble_open
    disassemble_close disassemble_branch branch_info discarded parent_depth instr_at block_of
    unwound count_result open_else note_close closing_info read_uint32 read_int32 disassemble_plain
    disassemble_const read_varint32 read_var_uint32
disassemble-else_above = refl
