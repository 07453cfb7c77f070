-- ===== src/Compile/Steps.antt =====
-- What each case of `Compile` keeps: every recorded offset has its eight bytes in the code.
use sea_pkg.Base.{ℕ, zero, suc, ◌+◌, ◌≤◌, ◌≡◌, refl, arith, List, [], ◌∷◌, ◌++◌}
use sea_pkg.Base.{
  length, get_elem?, set, All, All-append, length-append, length-set, ◌==◌, true, false, not, ◌&&◌,
  Option, none, some, ◌⊎◌, inl, inr, Bool-cases, Option-cases,
}
use sea_pkg.Base.Outcome.{ok, err, panic, ◌>>=◌}
use sea_pkg.Base.Bytes.{le_bytes, length-le_bytes}
use sea_pkg.Disasm.{StackInfo, Immediate, uint32, sized, Instr}
use sea_pkg.Compile.{
  CompileFault, bad_patch, invalid_block, no_table, no_stack, no_immediate, Block, Compiler, Result,
  found, write, write_discard, write_discard_of, as_uint32, immediate, open_block, compile_if,
  compile_loop, compile_block, end_then, block_end, patch_else, close_block, add_patch,
}
use sea_pkg.Compile.Patches.{Fits, lens, Covers, patch_offset-ok, patch_all-ok, patch_tables-ok}

-- The addresses to patch of a block have their place in a code of `n` bytes; a block that `if` did
-- not open has the offset 0 there.
abbrev pub SafeBlock : ℕ → Block → Type 0
SafeBlock n b =
    All (Fits n) b.patch_offsets
    × (Fits n b.else_addr_offset ⊎ ((b.else_addr_offset ≡ 0) × (b.if_block ≡ false)))

abbrev pub SafeBlocks : ℕ → List ℕ → List Block → Type 0
SafeBlocks n ls [] = Unit {0}
SafeBlocks n ls (b ∷ bs) =
    SafeBlock n b × All (Covers ls (length bs)) b.branch_tables × SafeBlocks n ls bs

abbrev pub IsSafe : Compiler → Type 0
IsSafe c = SafeBlocks (length c.buffer) (lens c.tables) c.blocks

-- The faults that no input makes `Compile` meet.
abbrev pub Allowed : CompileFault → Type 0
Allowed bad_patch = ⊥
Allowed invalid_block = ⊥
Allowed no_table = ⊥
Allowed _ = Unit {0}

abbrev pub Fine : Result Compiler → Type 0
Fine (ok c) = IsSafe c
Fine (err e) = Allowed e
Fine (panic p) = ⊥

pub Fits-mono : (m n : ℕ) (os : List ℕ) → m ≤ n → All (Fits m) os → All (Fits n) os
Fits-mono m n [] h a = tt
Fits-mono m n (o ∷ os) h (a, r) = (omega arith, Fits-mono m n os h r)

SafeBlock-mono : (m n : ℕ) (b : Block) → m ≤ n → SafeBlock m b → SafeBlock n b
SafeBlock-mono m n b h (a, inl e) = (Fits-mono m n b.patch_offsets h a, inl (omega arith))
SafeBlock-mono m n b h (a, inr e) = (Fits-mono m n b.patch_offsets h a, inr e)

pub SafeBlocks-mono :
    (m n : ℕ) (ls : List ℕ) (bs : List Block) → m ≤ n → SafeBlocks m ls bs → SafeBlocks n ls bs
SafeBlocks-mono m n ls [] h s = tt
SafeBlocks-mono m n ls (b ∷ bs) h (s, t, r) =
    (SafeBlock-mono m n b h s, t, SafeBlocks-mono m n ls bs h r)

pub write-IsSafe : (bytes : List ℕ) (c : Compiler) → IsSafe c → IsSafe (write bytes c)
unfolding write
write-IsSafe bytes c s =
    SafeBlocks-mono (length c.buffer) (length (c.buffer ++ bytes)) (lens c.tables) c.blocks
      (omega (arith, length-append {0} c.buffer bytes)) s

pub write_discard-IsSafe :
    (info : StackInfo) (c : Compiler) → IsSafe c → IsSafe (write_discard info c)
unfolding write_discard
write_discard-IsSafe info c s = elim (Bool-cases (info.stack_top_diff == 0)) [
  | inl e ↦ rw e s
  | inr e ↦ rw e (write-IsSafe _ c s)
]

pub write_discard_of-IsSafe :
    (o : Option StackInfo) (c : Compiler) → IsSafe c → IsSafe (write_discard_of o c)
unfolding write_discard_of
write_discard_of-IsSafe none c s = s
write_discard_of-IsSafe (some info) c s = write_discard-IsSafe info c s

-- What only reads meets no other fault.
abbrev pub Reads : {A : Type 0} → Result A → Type 0
Reads (ok a) = Unit {0}
Reads (err e) = Allowed e
Reads (panic p) = ⊥

pub Fine-bind :
    {A : Type 0} (r : Result A) (f : A → Result Compiler)
    → Reads r
    → ((a : A) → Fine (f a))
    → Fine (r >>= f)
Fine-bind (ok a) f h k = k a
Fine-bind (err e) f h k = h
Fine-bind (panic p) f h k = h

pub Reads-bind :
    {A B : Type 0} (r : Result A) (f : A → Result B)
    → Reads r
    → ((a : A) → Reads (f a))
    → Reads (r >>= f)
Reads-bind (ok a) f h k = k a
Reads-bind (err e) f h k = h
Reads-bind (panic p) f h k = h

pub Reads-found : {A : Type 0} (e : CompileFault) (o : Option A) → Allowed e → Reads (found e o)
Reads-found e none h = h
Reads-found e (some a) h = tt

Reads-as_uint32 : (i : Immediate) → Reads (as_uint32 i)
Reads-as_uint32 (uint32 v) = tt
Reads-as_uint32 (sized n v) = tt

pub Reads-immediate : (i : Instr) (k : ℕ) → Reads (immediate i k)
unfolding immediate
Reads-immediate i k =
    Reads-bind (found no_immediate (get_elem? i.immediates k)) as_uint32
      (Reads-found no_immediate (get_elem? i.immediates k) tt) Reads-as_uint32

length-address : (xs : List ℕ) (v : ℕ) → length (xs ++ le_bytes 8 v) ≡ length xs + 8
length-address xs v = omega (arith, length-append {0} xs (le_bytes 8 v), length-le_bytes 8 v)

pub compile_if-IsSafe : (c : Compiler) → IsSafe c → IsSafe (compile_if c)
unfolding compile_if open_block write
compile_if-IsSafe c s =
    let n : ℕ = length (c.buffer ++ 0x03 ∷ []) in
    let grown = length-address (c.buffer ++ 0x03 ∷ []) 0 in
    (
      (tt, inl (omega (arith, grown))),
      tt,
      SafeBlocks-mono (length c.buffer) _ (lens c.tables) c.blocks
          (omega (arith, grown, length-append {0} c.buffer (0x03 ∷ []))) s,
    )

pub compile_loop-Fine : (i : Instr) (c : Compiler) → IsSafe c → Fine (compile_loop i c)
unfolding compile_loop open_block
compile_loop-Fine i c s =
    Fine-bind (found no_stack i.new_stack) _ (Reads-found no_stack i.new_stack tt)
      (λ _. ((tt, inr (refl, refl)), tt, s))

pub compile_block-Fine : (i : Instr) (c : Compiler) → IsSafe c → Fine (compile_block i c)
unfolding compile_block open_block
compile_block-Fine i c s =
    Fine-bind (found no_stack i.new_stack) _ (Reads-found no_stack i.new_stack tt)
      (λ _. ((tt, inr (refl, refl)), tt, s))

SafeBlock-else : (n : ℕ) (b : Block) → 8 ≤ n → SafeBlock n b → Fits n b.else_addr_offset
SafeBlock-else n b h (_, inl fits) = fits
SafeBlock-else n b h (_, inr (zero_, _)) = omega arith

-- The address of `else`, where the code has just got a jump.
pub end_then-Fine :
    (o : ℕ) (bs : List Block) (c : Compiler)
    → Fits (length c.buffer) o
    → SafeBlocks (length c.buffer) (lens c.tables) bs
    → Fine (end_then o bs c)
unfolding end_then
end_then-Fine o [] c h s = tt
end_then-Fine o (b ∷ bs) c h (own, covers, rest) =
    let fits = SafeBlock-else (length c.buffer) b (omega arith) own in
    let (code, patched, same) =
      patch_offset-ok c.buffer b.else_addr_offset (length c.buffer) fits in
    let b' : Block = record b { if_block = false; patch_offsets = b.patch_offsets ++ o ∷ [] } in
    rw patched (
      SafeBlocks-mono (length c.buffer) (length code) (lens c.tables) (b' ∷ bs)
        (omega (arith, same))
        (
          (All-append (Fits (length c.buffer)) b.patch_offsets (o ∷ []) own.0 (h, tt), inl fits),
          covers,
          rest,
        ))

-- An offset more to patch, in a block of the list.
SafeBlocks-set :
    (n o : ℕ) (ls : List ℕ) (bs : List Block) (k : ℕ) (b : Block)
    → SafeBlocks n ls bs
    → get_elem? bs k ≡ some b
    → Fits n o
    → SafeBlocks n ls (set bs k (record b { patch_offsets = b.patch_offsets ++ o ∷ [] }))
SafeBlocks-set n o ls [] k b s e h = tt
SafeBlocks-set n o ls (a ∷ bs) zero b ((os, else_), covers, rest) e h =
    let same : a ≡ b = ground arith in
    rw (← same) (((All-append (Fits n) a.patch_offsets (o ∷ []) os (h, tt), else_), covers, rest))
SafeBlocks-set n o ls (a ∷ bs) (suc k) b (own, covers, rest) e h =
    let b' : Block = record b { patch_offsets = b.patch_offsets ++ o ∷ [] } in
    (own, rw (length-set bs k b') covers, SafeBlocks-set n o ls bs k b rest e h)

pub add_patch-Fine : (label : ℕ) (c : Compiler) → IsSafe c → Fine (add_patch label c)
unfolding add_patch write
add_patch-Fine label c s = elim (Option-cases (get_elem? c.blocks label)) [
  | inl missing ↦ rw missing tt
  | inr (b, there) ↦
      let grown = length-address c.buffer 0 in
      let wider =
        SafeBlocks-mono (length c.buffer) (length (c.buffer ++ le_bytes 8 0)) (lens c.tables)
          c.blocks (omega (arith, grown)) s in
      rw there (
        SafeBlocks-set (length (c.buffer ++ le_bytes 8 0)) (length c.buffer) (lens c.tables)
          c.blocks label b wider there (omega (arith, grown)))
]

patch_else-ok :
    (b : Block) (c : Compiler)
    → SafeBlock (length c.buffer) b
    → (code : List ℕ) × (patch_else b c ≡ ok code) × (length code ≡ length c.buffer)
unfolding patch_else
patch_else-ok b c own = elim (Bool-cases (not b.loop_block && b.if_block)) [
  | inl patched ↦
      rw patched
        (patch_offset-ok c.buffer b.else_addr_offset (length c.buffer) (opened own (ground arith)))
  | inr not_patched ↦ rw not_patched (c.buffer, refl, refl)
]
  where
    opened :
        SafeBlock (length c.buffer) b
        → b.if_block ≡ true
        → Fits (length c.buffer) b.else_addr_offset
    opened (_, inl fits) e = fits
    opened (_, inr (_, other)) e = cc

pub close_block-Fine :
    (bs : List Block) (c : Compiler)
    → SafeBlocks (length c.buffer) (lens c.tables) bs
    → Fine (close_block bs c)
unfolding close_block
close_block-Fine [] c s = tt
close_block-Fine (b ∷ bs) c (own, covers, rest) =
    let addr : ℕ = block_end b c in
    let (code, first, same) = patch_else-ok b c own in
    let (code', patched, same') =
      patch_all-ok b.patch_offsets addr code (length c.buffer) same own.0 in
    let (tables, kept, lens_same) =
      patch_tables-ok (length bs) addr b.branch_tables c.tables (lens c.tables) refl covers in
    rw (first, patched, kept, same', lens_same) rest
