-- ===== src/Compile.antt =====
-- wagon/exec/internal/compile/compile.go and `BranchTable` of wagon/sea/compile.go: structured
-- control flow as jumps. The map from nesting depths to blocks is a list, the innermost block first
-- and the root block, of depth -1, last: `blocks[curBlockDepth-label]` is its entry `label`. A block
-- holds its tables by their indices. An `int64` that is written is a bit pattern.
pub mod Body
pub mod Patches
pub mod Steps
pub mod Safety
pub mod Ends
pub mod Link
mod Tests
use sea_pkg.Base.{
  ℕ, zero, suc, ◌+◌, ◌-◌, ◌*◌, ◌%◌, ◌^◌, List, [], ◌∷◌, ◌++◌, Bool, true, false, not, ◌&&◌, ◌||◌,
}
use sea_pkg.Base.{
  ◌==◌, leb, ltb, if◌then◌else◌, length, get_elem?, set, take, drop, map, Option, none, some,
}
use sea_pkg.Base.Outcome.{Outcome, ok, err, ◌>>=◌}
use sea_pkg.Disasm.{StackInfo, BlockInfo, Immediate, uint32, sized, Instr}
use sea_pkg.Base.Bytes.{le_bytes}
use sea_pkg.Validate.Body.{one_of}

-- The panics of `Compile`: a write outside the code, `panic("Invalid block value")`, a nil block,
-- stack information or block information, an immediate that is no `uint32`, and an index out of
-- range of the immediates, the branches, the instructions or the tables.
pub data CompileFault : Type 0 where
  bad_patch invalid_block no_block no_stack no_block_info wrong_type : CompileFault
  no_immediate no_branch no_instr no_table : CompileFault

pub record Target : Type 0 where
  pub addr : ℕ
  pub discard : ℕ
  pub preserve_top : Bool
  pub return_ : Bool

pub record BranchTable : Type 0 where
  pub targets : List Target
  pub default_target : Target
  pub patched_addrs : List ℕ
  pub blocks_len : ℕ

-- Without `discard`, which nothing reads.
pub record Block : Type 0 where
  pub offset : ℕ
  pub if_block : Bool
  pub else_addr_offset : ℕ
  pub loop_block : Bool
  pub patch_offsets : List ℕ
  pub branch_tables : List ℕ

pub record Compiler : Type 0 where
  pub buffer : List ℕ
  pub blocks : List Block
  pub tables : List BranchTable

abbrev pub Result : Type 0 → Type 0
Result A = Outcome CompileFault A

abbrev pub found {ℓ} : {A : Type ℓ} → CompileFault → Option A → Outcome CompileFault A
found e none = err e
found e (some a) = ok a

abbrev pub new_block : Block
new_block = record {
  offset = 0;
  if_block = false;
  else_addr_offset = 0;
  loop_block = false;
  patch_offsets = [];
  branch_tables = [];
}

unfoldable pub is_addr : ℕ → List ℕ → Bool
is_addr addr [] = false
is_addr addr (t ∷ ts) = t == addr || is_addr addr ts

unfoldable pub patch_target : BranchTable → ℕ → ℕ → Target → Target
unfolding is_addr
patch_target table block addr t =
    if not (is_addr t.addr table.patched_addrs) && t.addr == block
    then record t { addr = addr }
    else t

-- `PatchTable`, for a block that is not negative.
unfoldable pub patch_table : ℕ → ℕ → BranchTable → BranchTable
unfolding patch_target
patch_table block addr table = record table {
  targets = map (patch_target table block addr) table.targets;
  default_target =
      if table.default_target.addr == block
      then record table.default_target { addr = addr }
      else table.default_target;
  patched_addrs = table.patched_addrs ++ addr ∷ [];
}

unfoldable pub patch_offset : List ℕ → ℕ → ℕ → Result (List ℕ)
patch_offset code start addr =
    if leb (start + 8) (length code)
    then ok (take start code ++ (le_bytes 8 addr ++ drop (start + 8) code))
    else err bad_patch

-- The patches of the offsets, one after the other, with one address.
unfoldable pub patch_all : List ℕ → ℕ → List ℕ → Result (List ℕ)
patch_all [] addr code = ok code
patch_all (o ∷ os) addr code = patch_offset code o addr >>= patch_all os addr

unfoldable pub write : List ℕ → Compiler → Compiler
write bytes c = record c { buffer = c.buffer ++ bytes }

-- `OpDiscardPreserveTop` or `OpDiscard`, and the number of elements, if there are any.
unfoldable pub write_discard : StackInfo → Compiler → Compiler
unfolding write
write_discard info c =
    if info.stack_top_diff == 0
    then c
    else write ((if info.preserve_top then 0x05 else 0x0b) ∷ le_bytes 8 info.stack_top_diff) c

unfoldable pub write_discard_of : Option StackInfo → Compiler → Compiler
write_discard_of none c = c
write_discard_of (some info) c = write_discard info c

abbrev pub as_uint32 : Immediate → Result ℕ
as_uint32 (uint32 v) = ok v
as_uint32 (sized _ _) = err wrong_type

unfoldable pub immediate : Instr → ℕ → Result ℕ
immediate i k = found no_immediate (get_elem? i.immediates k) >>= as_uint32

unfoldable pub open_block : Block → Compiler → Compiler
open_block b c = record c { blocks = b ∷ c.blocks }

unfoldable pub compile_if : Compiler → Compiler
compile_if c =
    let c' = write (0x03 ∷ []) c in
    write (le_bytes 8 0)
      (open_block (record new_block { if_block = true; else_addr_offset = length c'.buffer }) c')

unfoldable pub compile_loop : Instr → Compiler → Result Compiler
compile_loop i c = do
  _ ← found no_stack i.new_stack
  ok (open_block (record new_block { offset = length c.buffer; loop_block = true }) c)

unfoldable pub compile_block : Instr → Compiler → Result Compiler
compile_block i c = do _ ← found no_stack i.new_stack; ok (open_block new_block c)

-- The block that `if` opened, at the `else`: it is no longer an `if` block.
unfoldable pub end_then : ℕ → List Block → Compiler → Result Compiler
end_then end_offset [] c = err no_block
end_then end_offset (b ∷ bs) c = do
  code ← patch_offset c.buffer b.else_addr_offset (length c.buffer)
  let b' = record b { if_block = false; patch_offsets = b.patch_offsets ++ end_offset ∷ [] }
  ok (record c { buffer = code; blocks = b' ∷ bs })

unfoldable pub compile_else : List Instr → Instr → Compiler → Result Compiler
compile_else dis i c = do
  info ← found no_block_info i.block
  if_instr ← found no_instr (get_elem? dis info.else_if_index)
  let c' = write (0x0c ∷ []) (write_discard_of if_instr.new_stack c)
  end_then (length c'.buffer) c'.blocks (write (le_bytes 8 0) c')

-- The continuation of a block: a loop's is its start.
unfoldable pub block_end : Block → Compiler → ℕ
block_end b c = if b.loop_block then b.offset else length c.buffer

unfoldable pub patch_else : Block → Compiler → Result (List ℕ)
patch_else b c =
    if not b.loop_block && b.if_block
    then patch_offset c.buffer b.else_addr_offset (length c.buffer)
    else ok c.buffer

-- The tables of a block with `n` blocks around it.
unfoldable pub patch_tables : ℕ → ℕ → List ℕ → List BranchTable → Result (List BranchTable)
patch_tables n addr [] tables = ok tables
patch_tables n addr (k ∷ ks) tables = do
  t ← found no_table (get_elem? tables k)
  if ltb t.blocks_len n
      then err invalid_block
      else patch_tables n addr ks (set tables k (patch_table (t.blocks_len - n) addr t))

unfoldable pub close_block : List Block → Compiler → Result Compiler
close_block [] c = err no_block
close_block (b ∷ bs) c = do
  code ← patch_else b c
  code' ← patch_all b.patch_offsets (block_end b c) code
  tables ← patch_tables (length bs) (block_end b c) b.branch_tables c.tables
  ok (record { buffer = code'; blocks = bs; tables = tables })

unfoldable pub compile_end : Instr → Compiler → Result Compiler
compile_end i c = do
  info ← found no_stack i.new_stack
  let c' = write_discard info c
  close_block c'.blocks c'

-- A jump to the block `label`, whose address is patched when the block ends.
unfoldable pub add_patch : ℕ → Compiler → Result Compiler
add_patch label c = do
  b ← found no_block (get_elem? c.blocks label)
  let b' = record b { patch_offsets = b.patch_offsets ++ length c.buffer ∷ [] }
  ok (write (le_bytes 8 0) (record c { blocks = set c.blocks label b' }))

unfoldable pub compile_br : Instr → Compiler → Result Compiler
compile_br i c = do
  let c' = write (0x0c ∷ []) (write_discard_of i.new_stack c)
  label ← immediate i 0
  add_patch label c'

-- The flag and the number of elements behind the address of `OpJmpNz`.
unfoldable pub br_if_info : Option StackInfo → List ℕ
br_if_info none = 0 ∷ le_bytes 8 0
br_if_info (some info) =
    if not info.preserve_top || info.stack_top_diff == 0
    then 0 ∷ le_bytes 8 0
    else 1 ∷ le_bytes 8 info.stack_top_diff

unfoldable pub compile_br_if : Instr → Compiler → Result Compiler
compile_br_if i c = do
  label ← immediate i 0
  c' ← add_patch label (write (0x0d ∷ []) c)
  ok (write (br_if_info i.new_stack) c')
