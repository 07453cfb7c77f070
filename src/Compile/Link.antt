-- ===== src/Compile/Link.antt =====
-- `Compile` on what `Disassemble` returns.
use sea_pkg.Base.{
  ℕ, zero, suc, ◌+◌, ◌-◌, ◌<◌, ◌≤◌, ◌≡◌, refl, sym, ap, ◌∙◌, arith, List, [], ◌∷◌, ◌++◌, map, Bool,
  true, false, Option, some, none, not, ◌&&◌, ◌||◌,
}
use sea_pkg.Base.{length, length-append, length-map, get_elem?, get_elem?-found, inl, inr}
use sea_pkg.Base.Outcome.{ok, err, panic, ◌>>=◌}
use mathlib.Core.List.{map-append}
use mathlib.Core.Path.{subst}
use mathlib.Core.Bool.{true≢false}
use sea_pkg.Wasm.{Function, Module}
use sea_pkg.Disasm.{
  StackInfo, Immediate, uint32, Instr, Kind, memory_access, if_, loop, block_, else_, end_, br,
  br_if, br_table, plain, kind, Disassembly,
}
use sea_pkg.Disasm.Body.{disassemble}
use sea_pkg.Disasm.Trace.{Step, Nested}
use sea_pkg.Disasm.Invariant.{Post}
use sea_pkg.Disasm.Loop.{NestedCode, disassemble-NestedCode}
use sea_pkg.Compile.{
  bad_patch, invalid_block, no_table, no_immediate, BranchTable, Block, Compiler, Result, found,
  patch_all, write, as_uint32, immediate, open_block, compile_if, compile_loop, compile_block,
}
use sea_pkg.Compile.Body.{
  target_of, targets_from, add_table, compile_br_table, write_op, compile_memory, compile_kind,
  compile_instr, compile_all, root, finish, compile,
}
use sea_pkg.Compile.Safety.{Compiles, compile-Compiles}
use sea_pkg.Compile.Ends.{
  Inner, Ends, Inner-bind, Ends-bind, Ends-then, patch_all-Inner, compile_else-Ends,
  compile_end-Ends, compile_br-Ends, compile_br_if-Ends,
}

-- The labels of a branch table are immediates.
immediate-Inner :
    (i : Instr) (vs : List ℕ) (k : ℕ)
    → i.immediates ≡ map uint32 vs
    → k < length vs
    → Inner (immediate i k)
unfolding immediate
immediate-Inner i vs k e h = rw e (labels vs k h)
  where
    labels :
        (vs : List ℕ) (k : ℕ)
        → k < length vs
        → Inner (found no_immediate (get_elem? (map uint32 vs) k) >>= as_uint32)
    labels [] k h = elim h [ ]
    labels (v ∷ vs) zero h = tt
    labels (v ∷ vs) (suc k) h = labels vs k (omega arith)

target_of-Inner :
    (i : Instr) (vs : List ℕ) (at k : ℕ)
    → i.immediates ≡ map uint32 vs
    → at < length vs
    → k < length i.branches
    → Inner (target_of i at k)
unfolding target_of
target_of-Inner i vs at k e h l =
    let (branch, g) = get_elem?-found i.branches k l in
    Inner-bind (immediate i at) _ (immediate-Inner i vs at e h) λ label. rw g tt

targets_from-Inner :
    (i : Instr) (vs : List ℕ) (k n : ℕ)
    → i.immediates ≡ map uint32 vs
    → k + n < length vs
    → k + n ≤ length i.branches
    → Inner (targets_from i k n)
unfolding targets_from
targets_from-Inner i vs k zero e h l = tt
targets_from-Inner i vs k (suc n) e h l =
    Inner-bind (target_of i (k + 1) k) _
      (target_of-Inner i vs (k + 1) k e (omega arith) (omega arith))
      λ t.
        Inner-bind (targets_from i (k + 1) n) _
          (targets_from-Inner i vs (k + 1) n e (omega arith) (omega arith)) λ ts. tt

immediate-first :
    (i : Instr) (v : ℕ) (rest : List Immediate)
    → i.immediates ≡ uint32 v ∷ rest
    → immediate i 0 ≡ ok v
unfolding immediate
immediate-first i v rest e = rw e refl

compile_br_table-Ends :
    (i : Instr) (c : Compiler) (n : ℕ) (entries : List ℕ) (v : ℕ)
    → i.immediates ≡ uint32 (length entries) ∷ (map uint32 entries ++ uint32 v ∷ [])
    → length i.branches ≡ suc (length entries)
    → length c.blocks ≡ suc n
    → Ends n (compile_br_table i c)
unfolding compile_br_table add_table write
compile_br_table-Ends i c n entries v e l h =
    let vs = length entries ∷ (entries ++ v ∷ []) in
    let labels : i.immediates ≡ map uint32 vs =
      e ∙ ap (◌∷◌ (uint32 (length entries))) (sym (map-append uint32 entries (v ∷ []))) in
    let size : length vs ≡ suc (suc (length entries)) =
      omega (arith, length-append entries (v ∷ [])) in
    let count : immediate i 0 ≡ ok (length entries) = immediate-first i _ _ e in
    let last : length i.immediates ≡ length vs = ap length labels ∙ length-map vs uint32 in
    rw count (
      Ends-bind n (targets_from i 0 (length entries)) _
        (targets_from-Inner i vs 0 (length entries) labels (omega (arith, size)) (omega (arith, l)))
        λ targets.
          Ends-bind n (target_of i (length i.immediates - 1) (length entries)) _
            (target_of-Inner i vs (length i.immediates - 1) (length entries) labels
              (omega (arith, last, size)) (omega (arith, l)))
            λ default_target. length-map c.blocks _ ∙ h)

-- Every reachable block and loop has an end, which notes its stack there.
abbrev is_none : Option StackInfo → Bool
is_none none = true
is_none (some _) = false

unfoldable pub is_ended : Kind → Instr → Bool
is_ended loop i = not (is_none i.new_stack)
is_ended block_ i = not (is_none i.new_stack)
is_ended _ i = true

unfoldable pub all_ended : List Instr → Bool
unfolding is_ended
all_ended [] = true
all_ended (i ∷ is') = (i.unreachable || is_ended (kind i.op) i) && all_ended is'

ended-found : (o : Option StackInfo) → not (is_none o) ≡ true → (a : StackInfo) × (o ≡ some a)
ended-found none h = absurd (true≢false (sym h))
ended-found (some a) h = (a, refl)

compile_kind-Ends :
    (dis : List Instr) (i : Instr) (k : Kind) (c : Compiler) (p n n' : ℕ)
    → p ≤ length dis
    → Step k i p n n'
    → is_ended k i ≡ true
    → length c.blocks ≡ suc n
    → Ends n' (compile_kind dis i k c)
unfolding compile_kind compile_memory immediate write_op write compile_if compile_loop compile_block
    open_block is_ended
compile_kind-Ends dis i memory_access c p n n' l (v, w, e, s) o h = rw e (omega (arith, h, s))
compile_kind-Ends dis i if_ c p n n' l s o h = omega (arith, h, s)
compile_kind-Ends dis i loop c p n n' l s o h =
    let (info, e) = ended-found i.new_stack o in rw e (omega (arith, h, s))
compile_kind-Ends dis i block_ c p n n' l s o h =
    let (info, e) = ended-found i.new_stack o in rw e (omega (arith, h, s))
compile_kind-Ends dis i else_ c p n n' l (info, e, q, _, s) o h =
    rw s (compile_else-Ends dis i c n info e (omega (arith, q, l)) h)
compile_kind-Ends dis i end_ c p n n' l (info, e, s) o h =
    compile_end-Ends i c n' info e (omega (arith, h, s))
compile_kind-Ends dis i br c p n n' l (v, e, q, s) o h = rw s (compile_br-Ends i c n v e q h)
compile_kind-Ends dis i br_if c p n n' l (v, e, q, s) o h = rw s (compile_br_if-Ends i c n v e q h)
compile_kind-Ends dis i br_table c p n n' l (entries, v, e, k, _, _, s) o h = rw s (
    Ends-then n n (compile_br_table i c) _ (compile_br_table-Ends i c n entries v e k h)
      λ c' h'. h')
compile_kind-Ends dis i plain c p n n' l s o h = omega (arith, h, s)

&&-both : (a b : Bool) → (a && b) ≡ true → (a ≡ true) × (b ≡ true)
&&-both true b h = (refl, h)
&&-both false b h = absurd (true≢false (sym h))

||-right : (a b : Bool) → a ≡ false → (a || b) ≡ true → b ≡ true
||-right true b e h = absurd (true≢false e)
||-right false b e h = h

compile_all-Ends :
    (dis is' : List Instr) (c : Compiler) (p n m : ℕ)
    → p + length is' ≤ length dis
    → Nested is' p n m
    → all_ended is' ≡ true
    → length c.blocks ≡ suc n
    → Ends m (compile_all dis is' c)
unfolding compile_all compile_instr all_ended
compile_all-Ends dis [] c p n m l e o h = omega (arith, e, h)
compile_all-Ends dis (i ∷ is') c p n m l (n', inl (u, s), rest) o h = rw u (
    compile_all-Ends dis is' c (suc p) n' m (omega (arith, l)) rest (&&-both _ _ o).1
      (omega (arith, h, s)))
compile_all-Ends dis (i ∷ is') c p n m l (n', inr (u, s), rest) o h =
    let ended = ||-right i.unreachable _ u (&&-both _ _ o).0 in
    simp u (
      Ends-then n' m (compile_kind dis i (kind i.op) c) (compile_all dis is')
        (compile_kind-Ends dis i (kind i.op) c p n n' (omega (arith, l)) s ended h)
        λ c' h'.
          compile_all-Ends dis is' c' (suc p) n' m (omega (arith, l)) rest (&&-both _ _ o).1 h')

root-Inner : (bs : List Block) (n : ℕ) → length bs ≡ suc n → Inner (root bs)
root-Inner [] n h = omega arith
root-Inner (b ∷ []) n h = tt
root-Inner (b ∷ c ∷ bs) n h = root-Inner (c ∷ bs) (length bs) refl

finish-Inner : (n : ℕ) (r : Result Compiler) → Ends n r → Inner (r >>= finish)
unfolding finish
finish-Inner n (ok c) h = Inner-bind (root c.blocks) _ (root-Inner c.blocks n h) λ b.
    Inner-bind (patch_all b.patch_offsets (length c.buffer) (c.buffer ++ 0x01 ∷ [])) _
      (patch_all-Inner _ _ _) λ code. tt
finish-Inner n (err e) h = h
finish-Inner n (panic f) h = tt

settled :
    (r : Result (List ℕ × List BranchTable))
    → Compiles r
    → Inner r
    → (v : List ℕ × List BranchTable) × (r ≡ ok v)
settled (ok v) c i = (v, refl)
settled (err bad_patch) c i = absurd c
settled (err invalid_block) c i = absurd c
settled (err no_table) c i = absurd c
settled (err _) c i = absurd i
settled (panic f) c i = absurd c

-- What `Disassemble` returns for a function `Compile` turns into code, without a panic, where every
-- reachable block and loop of it is ended.
pub disassemble-compile :
    (fn : Function) (m : Module) (d : Disassembly)
    → disassemble fn m ≡ ok d
    → all_ended d.code ≡ true
    → (r : List ℕ × List BranchTable) × (compile d.code ≡ ok r)
unfolding compile
disassemble-compile fn m d e o =
    let (n, t) =
      subst (Post (λ (x : Disassembly). NestedCode x.code)) e (disassemble-NestedCode fn m) in
    settled (compile d.code) (compile-Compiles d.code) (
      finish-Inner n (compile_all d.code d.code _)
        (compile_all-Ends d.code d.code _ 0 0 n (omega arith) t o refl))
