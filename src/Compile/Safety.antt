-- ===== src/Compile/Safety.antt =====
-- `Compile` on any disassembly, well formed or not.
use sea_pkg.Base.{ℕ, zero, suc, ◌+◌, ◌-◌, ◌≤◌, ◌≡◌, refl, arith, List, [], ◌∷◌, ◌++◌, map}
use sea_pkg.Base.{
  length, get_elem?, All, length-append, if_both, get_elem?-append, get_elem?-append_next,
  length-map, ◌⊎◌, inl, inr,
}
use sea_pkg.Base.Outcome.{ok, err, panic, ◌>>=◌}
use sea_pkg.Base.Bytes.{le_bytes, length-le_bytes}
use sea_pkg.Disasm.{
  Instr, Kind, memory_access, if_, loop, block_, else_, end_, br, br_if, br_table, plain, kind,
}
use sea_pkg.Compile.{
  no_block, no_stack, no_block_info, no_branch, no_instr, BranchTable, Block, Compiler, Result,
  found, write, write_discard, immediate, end_then, compile_else, compile_end, add_patch,
  compile_br, br_if_info, compile_br_if,
}
use sea_pkg.Compile.Body.{
  target_of, targets_from, add_table, compile_br_table, write_op, compile_memory, compile_kind,
  compile_instr, compile_all, root, finish, compile,
}
use mathlib.Core.List.{map-append}
use sea_pkg.Compile.Patches.{Fits, lens, Covers, patch_all-ok}
use sea_pkg.Compile.Steps.{
  Fits-mono, SafeBlocks, IsSafe, Allowed, Fine, Reads, write-IsSafe, write_discard-IsSafe,
  write_discard_of-IsSafe, Fine-bind, Reads-bind, Reads-found, Reads-immediate, compile_if-IsSafe,
  compile_loop-Fine, compile_block-Fine, end_then-Fine, add_patch-Fine, close_block-Fine,
}

-- The address of the jump over `else` is the last that was written.
end_then-jump :
    (c : Compiler) → IsSafe c → Fine (end_then (length c.buffer) c.blocks (write (le_bytes 8 0) c))
unfolding write
end_then-jump c s =
    end_then-Fine (length c.buffer) c.blocks (write (le_bytes 8 0) c)
      (omega (arith, length-append {0} c.buffer (le_bytes 8 0), length-le_bytes 8 0))
      (write-IsSafe (le_bytes 8 0) c s)

compile_else-Fine :
    (dis : List Instr) (i : Instr) (c : Compiler) → IsSafe c → Fine (compile_else dis i c)
unfolding compile_else
compile_else-Fine dis i c s =
    Fine-bind (found no_block_info i.block) _ (Reads-found no_block_info i.block tt) λ info.
      Fine-bind (found no_instr (get_elem? dis info.else_if_index)) _ (Reads-found no_instr _ tt)
        λ if_instr.
          end_then-jump _
            (write-IsSafe (0x0c ∷ []) _ (write_discard_of-IsSafe if_instr.new_stack c s))

compile_end-Fine : (i : Instr) (c : Compiler) → IsSafe c → Fine (compile_end i c)
unfolding compile_end
compile_end-Fine i c s =
    Fine-bind (found no_stack i.new_stack) _ (Reads-found no_stack i.new_stack tt)
      λ info. close_block-Fine _ (write_discard info c) (write_discard-IsSafe info c s)

compile_br-Fine : (i : Instr) (c : Compiler) → IsSafe c → Fine (compile_br i c)
unfolding compile_br
compile_br-Fine i c s = Fine-bind (immediate i 0) _ (Reads-immediate i 0) λ label.
    add_patch-Fine label _ (write-IsSafe (0x0c ∷ []) _ (write_discard_of-IsSafe i.new_stack c s))

Fine-then :
    (r : Result Compiler) (f : Compiler → Result Compiler)
    → Fine r
    → ((c : Compiler) → IsSafe c → Fine (f c))
    → Fine (r >>= f)
Fine-then (ok c) f h k = k c h
Fine-then (err e) f h k = h
Fine-then (panic p) f h k = h

compile_br_if-Fine : (i : Instr) (c : Compiler) → IsSafe c → Fine (compile_br_if i c)
unfolding compile_br_if
compile_br_if-Fine i c s = Fine-bind (immediate i 0) _ (Reads-immediate i 0) λ label.
    Fine-then (add_patch label (write (0x0d ∷ []) c)) _
      (add_patch-Fine label _ (write-IsSafe (0x0d ∷ []) c s))
      (write-IsSafe (br_if_info i.new_stack))

Reads-target_of : (i : Instr) (at k : ℕ) → Reads (target_of i at k)
unfolding target_of
Reads-target_of i at k = Reads-bind (immediate i at) _ (Reads-immediate i at) λ label.
    Reads-bind (found no_branch (get_elem? i.branches k)) _ (Reads-found no_branch _ tt) λ _. tt

Reads-targets_from : (i : Instr) (k n : ℕ) → Reads (targets_from i k n)
unfolding targets_from
Reads-targets_from i k zero = tt
Reads-targets_from i k (suc n) =
    Reads-bind (target_of i (k + 1) k) _ (Reads-target_of i (k + 1) k)
      λ t. Reads-bind (targets_from i (k + 1) n) _ (Reads-targets_from i (k + 1) n) λ _. tt

Covers-append :
    (ls : List ℕ) (l n : ℕ) (ks : List ℕ)
    → n ≤ l
    → All (Covers ls n) ks
    → All (Covers (ls ++ l ∷ []) n) (ks ++ length ls ∷ [])
Covers-append ls l n [] h a = ((l, get_elem?-append_next ls l, h), tt)
Covers-append ls l n (k ∷ ks) h ((l', at, le), a) =
    ((l', get_elem?-append ls (l ∷ []) k at, le), Covers-append ls l n ks h a)

-- Every open block gets the new table, which is made inside all of them.
SafeBlocks-add_table :
    (n l : ℕ) (ls : List ℕ) (bs : List Block)
    → length bs ≤ suc l
    → SafeBlocks n ls bs
    → SafeBlocks n
        (ls ++ l ∷ [])
        (map (λ (b : Block). record b { branch_tables = b.branch_tables ++ length ls ∷ [] }) bs)
SafeBlocks-add_table n l ls [] h s = tt
SafeBlocks-add_table n l ls (b ∷ bs) h (own, covers, rest) =
    let size =
      length-map bs
        (λ (b : Block). record b { branch_tables = b.branch_tables ++ length ls ∷ [] }) in
    (
      own,
      rw size (Covers-append ls l (length bs) b.branch_tables (omega arith) covers),
      SafeBlocks-add_table n l ls bs (omega arith) rest,
    )

add_table-IsSafe :
    (t : BranchTable) (c : Compiler)
    → t.blocks_len ≡ length c.blocks - 1
    → IsSafe c
    → IsSafe (add_table t c)
unfolding add_table
add_table-IsSafe t c e s =
    let appended : lens (c.tables ++ t ∷ []) ≡ lens c.tables ++ t.blocks_len ∷ [] =
      map-append _ c.tables (t ∷ []) in
    let size : length (lens c.tables) ≡ length c.tables = length-map c.tables _ in
    rw (appended, ← size)
      (SafeBlocks-add_table (length c.buffer) t.blocks_len (lens c.tables) c.blocks
        (omega (arith, e)) s)

compile_br_table-Fine : (i : Instr) (c : Compiler) → IsSafe c → Fine (compile_br_table i c)
unfolding compile_br_table
compile_br_table-Fine i c s = Fine-bind (immediate i 0) _ (Reads-immediate i 0) λ count.
    Fine-bind (targets_from i 0 count) _ (Reads-targets_from i 0 count) λ targets.
      Fine-bind (target_of i (length i.immediates - 1) count) _ (Reads-target_of i _ count)
        λ default_target.
          write-IsSafe (0x0e ∷ le_bytes 8 (length c.tables)) _ (add_table-IsSafe _ c refl s)

compile_memory-Fine : (i : Instr) (c : Compiler) → IsSafe c → Fine (compile_memory i c)
unfolding compile_memory write_op
compile_memory-Fine i c s =
    Fine-bind (immediate i 1) _ (Reads-immediate i 1) λ offset. write-IsSafe _ c s

compile_kind-Fine :
    (dis : List Instr) (i : Instr) (k : Kind) (c : Compiler)
    → IsSafe c
    → Fine (compile_kind dis i k c)
unfolding compile_kind write_op
compile_kind-Fine dis i memory_access c s = compile_memory-Fine i c s
compile_kind-Fine dis i if_ c s = compile_if-IsSafe c s
compile_kind-Fine dis i loop c s = compile_loop-Fine i c s
compile_kind-Fine dis i block_ c s = compile_block-Fine i c s
compile_kind-Fine dis i else_ c s = compile_else-Fine dis i c s
compile_kind-Fine dis i end_ c s = compile_end-Fine i c s
compile_kind-Fine dis i br c s = compile_br-Fine i c s
compile_kind-Fine dis i br_if c s = compile_br_if-Fine i c s
compile_kind-Fine dis i br_table c s =
    Fine-then (compile_br_table i c) _ (compile_br_table-Fine i c s) (write-IsSafe _)
compile_kind-Fine dis i plain c s = write-IsSafe _ c s

compile_instr-Fine :
    (dis : List Instr) (i : Instr) (c : Compiler) → IsSafe c → Fine (compile_instr dis i c)
unfolding compile_instr
compile_instr-Fine dis i c s = compile_kind-Fine dis i (kind i.op) c s

compile_all-Fine : (dis is' : List Instr) (c : Compiler) → IsSafe c → Fine (compile_all dis is' c)
unfolding compile_all
compile_all-Fine dis [] c s = s
compile_all-Fine dis (i ∷ is') c s = if_both Fine i.unreachable (compile_all-Fine dis is' c s) (
    Fine-then (compile_instr dis i c) (compile_all dis is') (compile_instr-Fine dis i c s)
      (compile_all-Fine dis is'))

abbrev pub Compiles : Result (List ℕ × List BranchTable) → Type 0
Compiles (ok _) = Unit {0}
Compiles (err e) = Allowed e
Compiles (panic p) = ⊥

root-Fits :
    (n : ℕ) (ls : List ℕ) (bs : List Block)
    → SafeBlocks n ls bs
    → (root bs ≡ err no_block) ⊎ ((b : Block) × (root bs ≡ ok b) × All (Fits n) b.patch_offsets)
root-Fits n ls [] s = inl refl
root-Fits n ls (b ∷ []) (own, _, _) = inr (b, refl, own.0)
root-Fits n ls (b ∷ c ∷ bs) (_, _, rest) = root-Fits n ls (c ∷ bs) rest

finish-Compiles : (c : Compiler) → IsSafe c → Compiles (finish c)
unfolding finish
finish-Compiles c s = elim (root-Fits (length c.buffer) (lens c.tables) c.blocks s) [
  | inl none_left ↦ rw none_left tt
  | inr (b, there, fits) ↦
      let longer : length c.buffer ≤ length (c.buffer ++ 0x01 ∷ []) =
        omega (arith, length-append {0} c.buffer (0x01 ∷ [])) in
      let (code, patched, _) =
        patch_all-ok b.patch_offsets (length c.buffer) (c.buffer ++ 0x01 ∷ []) _ refl
          (Fits-mono (length c.buffer) _ b.patch_offsets longer fits) in
      rw (there, patched) tt
]

Compiles-finish : (r : Result Compiler) → Fine r → Compiles (r >>= finish)
Compiles-finish (ok c) s = finish-Compiles c s
Compiles-finish (err e) h = h
Compiles-finish (panic p) h = h

-- The compiler ends on every disassembly, and its own bookkeeping never fails: every address that
-- it patches lies in the code, every table that a block names is there, and no table is patched for
-- a negative block. What remains are panics for a disassembly that is not well formed.
pub compile-Compiles : (dis : List Instr) → Compiles (compile dis)
unfolding compile
compile-Compiles dis =
    Compiles-finish (compile_all dis dis _)
      (compile_all-Fine dis dis _ ((tt, inr (refl, refl)), tt, tt))
