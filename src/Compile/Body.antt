-- ===== src/Compile/Body.antt =====
-- wagon/exec/internal/compile/compile.go: branch tables, the `switch` of `Compile`, and its loop.
use sea_pkg.Base.{ℕ, zero, suc, ◌+◌, ◌-◌, List, [], ◌∷◌, ◌++◌}
use sea_pkg.Base.{if◌then◌else◌, length, get_elem?, map}
use sea_pkg.Base.Outcome.{ok, err, ◌>>=◌}
use sea_pkg.Base.Bytes.{le_bytes}
use sea_pkg.Disasm.{
  Immediate, uint32, sized, Instr, Kind, memory_access, if_, loop, block_, else_, end_, br, br_if,
  br_table, plain, kind,
}
use sea_pkg.Compile.{
  Target, BranchTable, Block, Compiler, Result, found, new_block, patch_all, write, immediate,
  compile_if, compile_loop, compile_block, compile_else, compile_end, compile_br, compile_br_if,
  no_block, no_branch,
}

-- The target of the branch `k`, whose label is the immediate behind it.
unfoldable pub target_of : Instr → ℕ → ℕ → Result Target
target_of i at k = do
  label ← immediate i at
  branch ← found no_branch (get_elem? i.branches k)
  ok (record {
    addr = label;
    discard = branch.stack_top_diff;
    preserve_top = branch.preserve_top;
    return_ = branch.is_return;
  })

unfoldable pub targets_from : Instr → ℕ → ℕ → Result (List Target)
targets_from i k zero = ok []
targets_from i k (suc n) = do t ← target_of i (k + 1) k; ts ← targets_from i (k + 1) n; ok (t ∷ ts)

unfoldable pub add_table : BranchTable → Compiler → Compiler
add_table t c = record c {
  blocks =
      map (λ (b : Block). record b { branch_tables = b.branch_tables ++ length c.tables ∷ [] })
        c.blocks;
  tables = c.tables ++ t ∷ [];
}

-- Where no block is left, the source's `BlocksLen` is -1, which nothing reads.
unfoldable pub compile_br_table : Instr → Compiler → Result Compiler
compile_br_table i c = do
  count ← immediate i 0
  targets ← targets_from i 0 count
  default_target ← target_of i (length i.immediates - 1) count
  let t : BranchTable = record {
    targets = targets;
    default_target = default_target;
    patched_addrs = [];
    blocks_len = length c.blocks - 1;
  }
  ok (write (0x0e ∷ le_bytes 8 (length c.tables)) (add_table t c))

abbrev pub immediate_bytes : Immediate → List ℕ
immediate_bytes (uint32 v) = le_bytes 4 v
immediate_bytes (sized n v) = le_bytes n v

unfoldable pub all_bytes : List Immediate → List ℕ
all_bytes [] = []
all_bytes (i ∷ is') = immediate_bytes i ++ all_bytes is'

-- The operator as it is, with its immediates.
unfoldable pub write_op : ℕ → List Immediate → Compiler → Compiler
write_op op immediates c = write (op ∷ all_bytes immediates) c

-- Of a memory operator the second immediate, the offset, is kept.
unfoldable pub compile_memory : Instr → Compiler → Result Compiler
compile_memory i c = do offset ← immediate i 1; ok (write_op i.op (uint32 offset ∷ []) c)

-- The case of `br_table` goes on to write the operator with its immediates.
unfoldable pub compile_kind : List Instr → Instr → Kind → Compiler → Result Compiler
compile_kind dis i memory_access c = compile_memory i c
compile_kind dis i if_ c = ok (compile_if c)
compile_kind dis i loop c = compile_loop i c
compile_kind dis i block_ c = compile_block i c
compile_kind dis i else_ c = compile_else dis i c
compile_kind dis i end_ c = compile_end i c
compile_kind dis i br c = compile_br i c
compile_kind dis i br_if c = compile_br_if i c
compile_kind dis i br_table c = compile_br_table i c >>= λ c'. ok (write_op i.op i.immediates c')
compile_kind dis i plain c = ok (write_op i.op i.immediates c)

unfoldable pub compile_instr : List Instr → Instr → Compiler → Result Compiler
compile_instr dis i c = compile_kind dis i (kind i.op) c

unfoldable pub compile_all : List Instr → List Instr → Compiler → Result Compiler
compile_all dis [] c = ok c
compile_all dis (i ∷ is') c =
    if i.unreachable then compile_all dis is' c else compile_instr dis i c >>= compile_all dis is'

-- The root block, the last of the list.
abbrev pub root : List Block → Result Block
root [] = err no_block
root (b ∷ []) = ok b
root (b ∷ c ∷ bs) = root (c ∷ bs)

-- The nop at the end, and the branches out of the function.
unfoldable pub finish : Compiler → Result (List ℕ × List BranchTable)
finish c = do
  b ← root c.blocks
  code ← patch_all b.patch_offsets (length c.buffer) (c.buffer ++ 0x01 ∷ [])
  ok (code, map (λ (t : BranchTable). record t { patched_addrs = [] }) c.tables)

unfoldable pub compile : List Instr → Result (List ℕ × List BranchTable)
compile dis =
    compile_all dis dis (record { buffer = []; blocks = new_block ∷ []; tables = [] }) >>= finish
