-- ===== src/Compile/Tests.antt =====
-- `block; i32.const 1; br_if 0; end`, and a disassembly without an end for its block.
use sea_pkg.Base.{ℕ, ◌≡◌, refl, List, [], ◌∷◌, some, none, false}
use sea_pkg.Base.Outcome.{ok}
use sea_pkg.Base.Bytes.{le_bytes}
use sea_pkg.Disasm.{StackInfo, Immediate, uint32, Instr, kind}
use sea_pkg.Compile.{
  compile_block, compile_br_if, compile_end, open_block, add_patch, write, write_discard,
  br_if_info, immediate, close_block, patch_else, patch_all, patch_offset, patch_tables, block_end,
}
use sea_pkg.Compile.Body.{
  compile, compile_all, compile_instr, compile_kind, write_op, all_bytes, finish,
}
use sea_pkg.Compile.Safety.{Compiles, compile-Compiles}

abbrev level : StackInfo
level = record { stack_top_diff = 0; preserve_top = false; is_return = false }

abbrev instr : ℕ → List Immediate → Instr
instr op immediates = record {
  op = op;
  immediates = immediates;
  new_stack = some level;
  block = none;
  is_return = false;
  unreachable = false;
  branches = [];
}

abbrev block_br_if : List Instr
block_br_if =
    instr 0x02 [] ∷ instr 0x41 (uint32 1 ∷ []) ∷ instr 0x0d (uint32 0 ∷ []) ∷ instr 0x0b [] ∷ []

compile-block_br_if :
    compile block_br_if
    ≡ ok (
      0x41 ∷ 1 ∷ 0 ∷ 0 ∷ 0 ∷ 0x0d ∷ 23 ∷ 0 ∷ 0 ∷ 0 ∷ 0 ∷ 0 ∷ 0 ∷ 0 ∷ 0 ∷ 0 ∷ 0 ∷ 0 ∷ 0 ∷ 0 ∷ 0 ∷ 0
          ∷ 0 ∷ 0x01 ∷ [],
      [],
    )
unfolding compile compile_all compile_instr compile_kind kind compile_block compile_br_if immediate
    add_patch write write_op open_block compile_end close_block write_discard patch_else patch_all
    patch_offset all_bytes le_bytes block_end br_if_info finish patch_tables
compile-block_br_if = refl

compile-Compiles_example : Compiles (compile block_br_if)
compile-Compiles_example = compile-Compiles block_br_if
