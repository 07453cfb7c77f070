-- ===== src/Disasm/Trace.antt =====
-- How the reachable instructions of a disassembly nest, and what they carry.
use sea_pkg.Base.{
  ℕ, zero, suc, ◌+◌, ◌<◌, ◌≤◌, ◌≡◌, refl, sym, ap, ◌∙◌, ◌⊎◌, inl, inr, arith, List, [], ◌∷◌, ◌++◌,
  map, true, false, some,
}
use sea_pkg.Base.{All, length, get_elem?, set}
use mathlib.Core.Path.{subst}
use mathlib.Core.Option.{some-injective}
use sea_pkg.Disasm.{
  StackInfo, BlockInfo, uint32, Instr, Kind, memory_access, if_, loop, block_, else_, end_, br,
  br_if, br_table, plain, kind,
}

-- What an instruction of a kind carries at the position `p` with `n` blocks around it, and the
-- number of blocks behind it.
abbrev pub Step : Kind → Instr → ℕ → ℕ → ℕ → Type 0
Step memory_access i p n n' =
    (v : ℕ) × (w : ℕ) × (i.immediates ≡ uint32 v ∷ uint32 w ∷ []) × (n' ≡ n)
Step if_ i p n n' = n' ≡ suc n
Step loop i p n n' = n' ≡ suc n
Step block_ i p n n' = n' ≡ suc n
Step else_ i p n n' =
    (info : BlockInfo) × (i.block ≡ some info) × (info.else_if_index < p) × (0 < n) × (n' ≡ n)
Step end_ i p n n' = (info : StackInfo) × (i.new_stack ≡ some info) × (n ≡ suc n')
Step br i p n n' = (v : ℕ) × (i.immediates ≡ uint32 v ∷ []) × (v ≤ n) × (n' ≡ n)
Step br_if i p n n' = (v : ℕ) × (i.immediates ≡ uint32 v ∷ []) × (v ≤ n) × (n' ≡ n)
Step br_table i p n n' =
    (entries : List ℕ) × (v : ℕ) × (i.immediates
      ≡ uint32 (length entries) ∷ (map uint32 entries ++ uint32 v ∷ []))
    × (length i.branches ≡ suc (length entries))
    × All (λ (w : ℕ). w ≤ n) entries
    × (v ≤ n)
    × (n' ≡ n)
Step plain i p n n' = n' ≡ n

-- An unreachable instruction is left out.
abbrev pub Passes : Kind → Instr → ℕ → ℕ → ℕ → Type 0
Passes k i p n n' =
    ((i.unreachable ≡ true) × (n' ≡ n)) ⊎ ((i.unreachable ≡ false) × Step k i p n n')

-- The instructions from the position `p` lead from `n` blocks to `m`.
abbrev pub Nested : List Instr → ℕ → ℕ → ℕ → Type 0
Nested [] p n m = n ≡ m
Nested (i ∷ is') p n m = (n' : ℕ) × Passes (kind i.op) i p n n' × Nested is' (suc p) n' m

pub Nested-append :
    (is' : List Instr) (i : Instr) (p n m m' : ℕ)
    → Nested is' p n m
    → Passes (kind i.op) i (p + length is') m m'
    → Nested (is' ++ i ∷ []) p n m'
Nested-append [] i p n m m' e h =
    let here : p + 0 ≡ p = omega arith in
    (
      m',
      subst (λ x. Passes (kind i.op) i p x m') (sym e)
          (subst (λ x. Passes (kind i.op) i x m m') here h),
      refl,
    )
Nested-append (j ∷ is') i p n m m' (n', own, rest) h =
    let next : p + suc (length is') ≡ suc p + length is' = omega arith in
    (
      n',
      own,
      Nested-append is' i (suc p) n' m m' rest (subst (λ x. Passes (kind i.op) i x m m') next h),
    )

-- What `end` and `else` note at the operator that starts their block.
abbrev pub noted : Instr → BlockInfo → StackInfo → Instr
noted i info stack = record i { block = some info; new_stack = some stack }

Step-noted :
    (k : Kind) (i : Instr) (p n n' : ℕ) (old info : BlockInfo) (stack : StackInfo)
    → i.block ≡ some old
    → info.else_if_index ≡ old.else_if_index
    → Step k i p n n'
    → Step k (noted i info stack) p n n'
Step-noted memory_access i p n n' old info stack e f s = s
Step-noted if_ i p n n' old info stack e f s = s
Step-noted loop i p n n' old info stack e f s = s
Step-noted block_ i p n n' old info stack e f s = s
Step-noted else_ i p n n' old info stack e f (info', e', l, h, c) =
    let same : info' ≡ old = some-injective _ _ (sym e' ∙ e) in
    (info, refl, omega (arith, f, ap (λ (b : BlockInfo). b.else_if_index) same, l), h, c)
Step-noted end_ i p n n' old info stack e f (_, _, c) = (stack, refl, c)
Step-noted br i p n n' old info stack e f s = s
Step-noted br_if i p n n' old info stack e f s = s
Step-noted br_table i p n n' old info stack e f s = s
Step-noted plain i p n n' old info stack e f s = s

Passes-noted :
    (k : Kind) (i : Instr) (p n n' : ℕ) (old info : BlockInfo) (stack : StackInfo)
    → i.block ≡ some old
    → info.else_if_index ≡ old.else_if_index
    → Passes k i p n n'
    → Passes k (noted i info stack) p n n'
Passes-noted k i p n n' old info stack e f (inl h) = inl h
Passes-noted k i p n n' old info stack e f (inr (u, s)) =
    inr (u, Step-noted k i p n n' old info stack e f s)

pub Nested-set :
    (is' : List Instr) (j : ℕ) (i : Instr) (p n m : ℕ) (old info : BlockInfo) (stack : StackInfo)
    → get_elem? is' j ≡ some i
    → i.block ≡ some old
    → info.else_if_index ≡ old.else_if_index
    → Nested is' p n m
    → Nested (set is' j (noted i info stack)) p n m
Nested-set [] j i p n m old info stack g e f h = h
Nested-set (a ∷ is') zero i p n m old info stack g e f (n', own, rest) =
    let same : a ≡ i = some-injective _ _ g in
    let own' =
      Passes-noted (kind a.op) a p n n' old info stack
        (subst (λ (x : Instr). x.block ≡ some old) (sym same) e) f own in
    (n', subst (λ (x : Instr). Passes (kind x.op) (noted x info stack) p n n') same own', rest)
Nested-set (a ∷ is') (suc j) i p n m old info stack g e f (n', own, rest) =
    (n', own, Nested-set is' j i (suc p) n' m old info stack g e f rest)
