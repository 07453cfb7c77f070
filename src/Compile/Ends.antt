-- ===== src/Compile/Ends.antt =====
-- The blocks that each case of `Compile` leaves open.
use sea_pkg.Base.{
  ℕ, suc, ◌+◌, ◌<◌, ◌≤◌, ◌≡◌, refl, ap, ◌∙◌, arith, List, [], ◌∷◌, Option, some, none, not, ◌&&◌,
}
use sea_pkg.Base.{
  length, length-set, get_elem?, get_elem?-found, Option-cases, if_both, inl, inr, ltb, leb, ◌==◌,
}
use sea_pkg.Base.Outcome.{ok, err, panic, ◌>>=◌}
use sea_pkg.Disasm.{StackInfo, BlockInfo, uint32, Instr}
use sea_pkg.Compile.{
  CompileFault, bad_patch, invalid_block, no_table, BranchTable, Block, Compiler, Result,
  patch_offset, patch_all, write, write_discard, write_discard_of, immediate, end_then,
  compile_else, block_end, patch_else, patch_tables, close_block, compile_end, add_patch,
  compile_br, compile_br_if,
}

-- The faults of the bookkeeping, which no disassembly makes `Compile` meet.
abbrev pub Internal : CompileFault → Type 0
Internal bad_patch = Unit {0}
Internal invalid_block = Unit {0}
Internal no_table = Unit {0}
Internal _ = ⊥

-- No other fault is met.
abbrev pub Inner : {A : Type 0} → Result A → Type 0
Inner (ok a) = Unit {0}
Inner (err e) = Internal e
Inner (panic f) = Unit {0}

-- Nor here, and `n` blocks are open within the root block.
abbrev pub Ends : ℕ → Result Compiler → Type 0
Ends n (ok c) = length c.blocks ≡ suc n
Ends n (err e) = Internal e
Ends n (panic f) = Unit {0}

module _ {A : Type 0} where
  pub Inner-bind :
      {B : Type 0} (r : Result A) (f : A → Result B)
      → Inner r
      → ((a : A) → Inner (f a))
      → Inner (r >>= f)
  Inner-bind (ok a) f h k = k a
  Inner-bind (err e) f h k = h
  Inner-bind (panic p) f h k = tt

  pub Ends-bind :
      (n : ℕ) (r : Result A) (f : A → Result Compiler)
      → Inner r
      → ((a : A) → Ends n (f a))
      → Ends n (r >>= f)
  Ends-bind n (ok a) f h k = k a
  Ends-bind n (err e) f h k = h
  Ends-bind n (panic p) f h k = tt

pub Ends-then :
    (n m : ℕ) (r : Result Compiler) (f : Compiler → Result Compiler)
    → Ends n r
    → ((c : Compiler) → length c.blocks ≡ suc n → Ends m (f c))
    → Ends m (r >>= f)
Ends-then n m (ok c) f h k = k c h
Ends-then n m (err e) f h k = h
Ends-then n m (panic p) f h k = tt

patch_offset-Inner : (code : List ℕ) (start addr : ℕ) → Inner (patch_offset code start addr)
unfolding patch_offset
patch_offset-Inner code start addr = if_both Inner (leb (start + 8) (length code)) tt tt

pub patch_all-Inner : (os : List ℕ) (addr : ℕ) (code : List ℕ) → Inner (patch_all os addr code)
unfolding patch_all
patch_all-Inner [] addr code = tt
patch_all-Inner (o ∷ os) addr code =
    Inner-bind (patch_offset code o addr) (patch_all os addr) (patch_offset-Inner code o addr)
      (patch_all-Inner os addr)

patch_tables-Inner :
    (n addr : ℕ) (ks : List ℕ) (ts : List BranchTable) → Inner (patch_tables n addr ks ts)
unfolding patch_tables
patch_tables-Inner n addr [] ts = tt
patch_tables-Inner n addr (k ∷ ks) ts = elim (Option-cases (get_elem? ts k)) [
  | inl e ↦ rw e tt
  | inr (t, e) ↦ rw e (if_both Inner (ltb t.blocks_len n) tt (patch_tables-Inner n addr ks _))
]

close_block-Ends :
    (n : ℕ) (bs : List Block) (c : Compiler) → length bs ≡ suc (suc n) → Ends n (close_block bs c)
unfolding close_block patch_else
close_block-Ends n [] c h = omega arith
close_block-Ends n (b ∷ bs) c h =
    let n_left : length bs ≡ suc n = omega arith in
    Ends-bind n (patch_else b c) _
      (if_both Inner (not b.loop_block && b.if_block)
        (patch_offset-Inner c.buffer b.else_addr_offset (length c.buffer)) tt)
      λ code.
        Ends-bind n (patch_all b.patch_offsets (block_end b c) code) _
          (patch_all-Inner b.patch_offsets _ code)
          λ code'.
            Ends-bind n (patch_tables (length bs) (block_end b c) b.branch_tables c.tables) _
              (patch_tables-Inner (length bs) _ b.branch_tables c.tables) λ tables. n_left

end_then-Ends :
    (n end_offset : ℕ) (bs : List Block) (c : Compiler)
    → length bs ≡ suc n
    → Ends n (end_then end_offset bs c)
unfolding end_then
end_then-Ends n end_offset [] c h = omega arith
end_then-Ends n end_offset (b ∷ bs) c h =
    Ends-bind n (patch_offset c.buffer b.else_addr_offset (length c.buffer)) _
      (patch_offset-Inner c.buffer _ _) λ code. h

write_discard-blocks : (info : StackInfo) (c : Compiler) → (write_discard info c).blocks ≡ c.blocks
unfolding write_discard write
write_discard-blocks info c =
    if_both (λ (x : Compiler). x.blocks ≡ c.blocks) (info.stack_top_diff == 0) refl refl

write_discard_of-blocks :
    (o : Option StackInfo) (c : Compiler) → (write_discard_of o c).blocks ≡ c.blocks
unfolding write_discard_of
write_discard_of-blocks none c = refl
write_discard_of-blocks (some info) c = write_discard-blocks info c

add_patch-Ends :
    (n label : ℕ) (c : Compiler) → length c.blocks ≡ suc n → label ≤ n → Ends n (add_patch label c)
unfolding add_patch write
add_patch-Ends n label c h l =
    let (b, e) = get_elem?-found c.blocks label (omega arith) in
    rw e (length-set c.blocks label _ ∙ h)

pub compile_else-Ends :
    (dis : List Instr) (i : Instr) (c : Compiler) (n : ℕ) (info : BlockInfo)
    → i.block ≡ some info
    → info.else_if_index < length dis
    → length c.blocks ≡ suc n
    → Ends n (compile_else dis i c)
unfolding compile_else write
compile_else-Ends dis i c n info e l h =
    let (if_instr, g) = get_elem?-found dis info.else_if_index l in
    rw (e, g) (end_then-Ends n _ _ _ (ap length (write_discard_of-blocks if_instr.new_stack c) ∙ h))

pub compile_end-Ends :
    (i : Instr) (c : Compiler) (n : ℕ) (info : StackInfo)
    → i.new_stack ≡ some info
    → length c.blocks ≡ suc (suc n)
    → Ends n (compile_end i c)
unfolding compile_end
compile_end-Ends i c n info e h =
    rw e (close_block-Ends n _ _ (ap length (write_discard-blocks info c) ∙ h))

pub compile_br-Ends :
    (i : Instr) (c : Compiler) (n v : ℕ)
    → i.immediates ≡ uint32 v ∷ []
    → v ≤ n
    → length c.blocks ≡ suc n
    → Ends n (compile_br i c)
unfolding compile_br immediate write
compile_br-Ends i c n v e l h =
    rw e (add_patch-Ends n v _ (ap length (write_discard_of-blocks i.new_stack c) ∙ h) l)

pub compile_br_if-Ends :
    (i : Instr) (c : Compiler) (n v : ℕ)
    → i.immediates ≡ uint32 v ∷ []
    → v ≤ n
    → length c.blocks ≡ suc n
    → Ends n (compile_br_if i c)
unfolding compile_br_if immediate write
compile_br_if-Ends i c n v e l h = rw e (
    Ends-then n n (add_patch v (write (0x0d ∷ []) c)) _
      (add_patch-Ends n v (write (0x0d ∷ []) c) h l) λ c' h'. h')
