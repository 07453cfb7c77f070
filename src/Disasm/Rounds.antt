-- ===== src/Disasm/Rounds.antt =====
-- The rounds of `Disassemble` keep its invariant.
use sea_pkg.Base.{
  ℕ, zero, suc, ◌+◌, ◌<◌, ◌≤◌, ◌≡◌, refl, sym, ap, ◌∙◌, arith, List, [], ◌∷◌, ◌++◌, map, Bool, true,
  false, Option, some, none, not, if◌then◌else◌, ◌||◌,
}
use sea_pkg.Base.{
  All, length, length-append, get_elem?, get_elem?-bound, Bool-cases, if_both, inl, inr, ◌==◌,
  ==_iff,
}
use sea_pkg.Base.Outcome.{ok, negative_index, nil_pointer, ◌>>=◌}
use sea_pkg.Base.Words.{sub, is_neg}
use mathlib.Core.Bool.{true≢false}
use sea_pkg.Wasm.{Function, FunctionSig, Module, get_function}
use sea_pkg.Disasm.{
  StackInfo, Instr, Immediate, uint32, Kind, memory_access, br_table, plain, Result, State, top,
  set_top, found_at, lower_top, push_polymorphic_op, check_max_depth,
}
use sea_pkg.Disasm.Effects.{read_uint32, when}
use sea_pkg.Disasm.Cases.{
  discarded, branch_info, disassemble_branch, parent_depth, instr_at, block_of, table_info,
  read_targets, disassemble_br_table, callee, entry_of, apply_call, disassemble_call,
  apply_variable, disassemble_variable, disassemble_const, disassemble_memory_access,
  disassemble_memory_size, disassemble_return,
}
use sea_pkg.Disasm.Trace.{Step}
use sea_pkg.Disasm.Invariant.{
  Post, Post-bind, Post-weaken, Post-found, Inv, InvOf, top-Any, set_top-Inv, lower_top-Inv,
  when-Inv, read_uint32-Inv, push_polymorphic_op-Inv,
}
use sea_pkg.Disasm.Blocks.{Moved, Post-found-Any}

-- An instruction that neither opens nor closes a block, before it is appended.
abbrev pub Ready : Kind → ℕ → Bool → ℕ → ℕ → ℕ → Instr × State → Type 0
Ready kd op u n p b (i, d) =
    (i.op ≡ op) × (i.unreachable ≡ u) × (u ≡ false → Step kd i p n n) × Inv kd u n p b d

pub Ready-Moved :
    (kd : Kind) (op : ℕ) (u : Bool) (n p b : ℕ) (r : Instr × State)
    → Ready kd op u n p b r
    → Moved kd op n p b r
Ready-Moved kd op true n p b (i, d) (o, v, step, (t, l, s, r, m)) =
    (n, o, l, t, inl (v, refl), s, m)
Ready-Moved kd op false n p b (i, d) (o, v, step, (t, l, s, r, m)) =
    (n, o, l, t, inr (v, step refl), s, m)

all_open :
    (kd : Kind) (u : Bool) (n p b : ℕ) (d : State)
    → Inv kd u n p b d
    → u ≡ false
    → n ≡ length d.block_indices
all_open kd true n p b d i e = absurd (true≢false e)
all_open kd false n p b d (_, _, _, r, _) e = r

instr_at-Any : (index : ℕ) (d : State) → Post (λ _. Unit {0}) (instr_at index d)
unfolding instr_at
instr_at-Any index d = Post-found-Any _ (get_elem? d.code index)

block_of-Any : (i : Instr) → Post (λ _. Unit {0}) (block_of i)
unfolding block_of
block_of-Any i = Post-found-Any _ i.block

abbrev Any {ℓ} : {A : Type ℓ} → A → Type 0
Any a = Unit {0}

discarded-Any : (cur prev : ℕ) → Post Any (discarded cur prev)
unfolding discarded
discarded-Any cur prev = if_both (Post Any) (is_neg 64 (sub 64 cur prev)) tt tt

branch_info-bound : (v : ℕ) (d : State) → Post (λ _. v < length d.block_indices) (branch_info v d)
unfolding branch_info parent_depth
branch_info-bound v d = Post-bind _ _ (top d) _ (top-Any plain true 0 0 0 d) λ cur _.
    Post-bind _ _ (parent_depth v d) _ (Post-found-Any _ (get_elem? d.stack_depths (v + 1)))
      λ prev _. Post-bind _ _ (discarded cur prev) _ (discarded-Any cur prev) λ elems_discard _.
        Post-bind _ _ (found_at negative_index (get_elem? d.block_indices v)) _
          (Post-found negative_index (get_elem? d.block_indices v))
          λ index e. Post-bind _ _ (instr_at index d) _ (instr_at-Any index d) λ target _.
            Post-bind _ _ (block_of target) _ (block_of-Any target)
              λ info _. get_elem?-bound d.block_indices v e

table_info-bound : (v : ℕ) (d : State) → Post (λ _. v ≤ length d.block_indices) (table_info v d)
unfolding table_info
table_info-bound v d = elim (Bool-cases (v == length d.block_indices)) [
  | inl e ↦ rw e (omega (arith, (==_iff v (length d.block_indices)).0 e))
  | inr e ↦ rw e (
      Post-weaken _ (λ _. v ≤ length d.block_indices) (branch_info v d) (branch_info-bound v d)
        (λ _ l. omega arith))
]

entry_of-Any : (index : ℕ) (types : Option (List FunctionSig)) → Post Any (entry_of index types)
entry_of-Any index none = tt
entry_of-Any index (some entries) = Post-found-Any _ (get_elem? entries index)

-- The cases that read and adjust depths.
module _ (n p b : ℕ) (u : Bool) where
  module _ (kd : Kind) where
    abbrev Keeps : Result State → Type 0
    Keeps r = Post (Inv kd u n p b) r

    pub with_instr :
        (op : ℕ) (i : Instr) (r : Result State)
        → i.op ≡ op
        → i.unreachable ≡ u
        → (u ≡ false → Step kd i p n n)
        → Keeps r
        → Post (Ready kd op u n p b) (r >>= λ d. ok (i, d))
    with_instr op i r e f s h = Post-bind _ _ r _ h λ d j. (e, f, s, j)

    -- A branch goes to a block that is open, or out of the function.
    pub disassemble_branch-Ready :
        (instr : Instr) (d : State)
        → instr.unreachable ≡ u
        → ((i : Instr) (v : ℕ) → i.immediates ≡ uint32 v ∷ [] → v ≤ n → Step kd i p n n)
        → Inv kd u n p b d
        → Post (Ready kd instr.op u n p b) (disassemble_branch instr d)
    unfolding disassemble_branch
    disassemble_branch-Ready instr d f step i =
        Post-bind _ _ (read_uint32 d) _ (read_uint32-Inv kd u n p b d i) λ (v, d') i'.
          elim (Bool-cases (v == length d'.block_indices)) [
            | inl e ↦ rw e (
              refl,
              f,
              λ o. step _ v refl (
                  omega
                    (arith, (==_iff v (length d'.block_indices)).0 e, all_open kd u n p b d' i' o)),
              i',
            )
            | inr e ↦ rw e (
                Post-bind _ _ (branch_info v d') _ (branch_info-bound v d') λ info l.
                  (refl, f, λ o. step _ v refl (omega (arith, l, all_open kd u n p b d' i' o)), i'))
          ]

    apply_variable-Inv : (op : ℕ) (d : State) → Inv kd u n p b d → Keeps (apply_variable op d)
    unfolding apply_variable check_max_depth
    apply_variable-Inv op d i =
        if_both Keeps (op == 0x20 || op == 0x23)
          (Post-bind _ _ (top d) _ (top-Any kd u n p b d)
            λ v _. Post-bind _ _ (set_top _ d) _ (set_top-Inv kd u n p b _ d i) λ d' i'. i')
          (if_both Keeps (op == 0x21 || op == 0x24) (lower_top-Inv kd u n p b 1 d i) i)

    pub disassemble_variable-Ready :
        (instr : Instr) (d : State)
        → instr.unreachable ≡ u
        → ((i : Instr) → Step kd i p n n)
        → Inv kd u n p b d
        → Post (Ready kd instr.op u n p b) (disassemble_variable instr d)
    unfolding disassemble_variable
    disassemble_variable-Ready instr d f step i =
        Post-bind _ _ (read_uint32 d) _ (read_uint32-Inv kd u n p b d i) λ (index, d') i'.
          with_instr instr.op _ (when (not instr.unreachable) (apply_variable instr.op) d') refl f
            (λ _. step _)
            (when-Inv kd u n p b (not instr.unreachable) (apply_variable instr.op) d'
              (apply_variable-Inv instr.op) i')

    -- The entries of a table, all of them branches.
    read_targets-Inv :
        (m : ℕ) (d : State)
        → Inv kd u n p b d
        → Post
            (λ (r : List Immediate × List StackInfo × State).
              (entries : List ℕ) × (r.0 ≡ map uint32 entries)
              × (length entries ≡ m)
              × (length r.1 ≡ m)
              × (u ≡ false → All (λ (w : ℕ). w ≤ n) entries)
              × Inv kd u n p b r.2)
            (read_targets m d)
    unfolding read_targets
    read_targets-Inv zero d i = ([], refl, refl, refl, (λ _. tt), i)
    read_targets-Inv (suc m) d i =
        Post-bind _ _ (read_uint32 d) _ (read_uint32-Inv kd u n p b d i) λ (entry, d') i'.
          Post-bind _ _ (table_info entry d') _ (table_info-bound entry d') λ info bound.
            Post-bind _ _ (read_targets m d') _ (read_targets-Inv m d' i')
              λ (found, infos, d'') (entries, e, l, k, open_, i''). (
                entry ∷ entries,
                ap (◌∷◌ (uint32 entry)) e,
                ap suc l,
                ap suc k,
                (λ o. (omega (arith, bound, all_open kd u n p b d' i' o), open_ o)),
                i'',
              )

    pub disassemble_const-Ready :
        (size : ℕ) (r : Result (ℕ × State)) (instr : Instr)
        → instr.unreachable ≡ u
        → ((i : Instr) → Step kd i p n n)
        → Post (InvOf kd u n p b) r
        → Post (Ready kd instr.op u n p b) (disassemble_const size r instr)
    unfolding disassemble_const
    disassemble_const-Ready size r instr f step i =
        Post-bind _ _ r _ i λ (v, d) j. (refl, f, (λ _. step _), j)

    pub disassemble_memory_size-Ready :
        (instr : Instr) (d : State)
        → instr.unreachable ≡ u
        → ((i : Instr) → Step kd i p n n)
        → Inv kd u n p b d
        → Post (Ready kd instr.op u n p b) (disassemble_memory_size instr d)
    unfolding disassemble_memory_size
    disassemble_memory_size-Ready instr d f step i =
        Post-bind _ _ (read_uint32 d) _ (read_uint32-Inv kd u n p b d i)
          λ (v, d') j. (refl, f, (λ _. step _), j)

    callee-Any : (m : Module) (indirect : Bool) (index : ℕ) → Post Any (callee m indirect index)
    unfolding callee
    callee-Any m indirect index = if_both (Post Any) indirect (entry_of-Any index m.types) (
        Post-bind Any Any (found_at nil_pointer (get_function m index)) _
          (Post-found-Any _ (get_function m index)) (λ _ _. tt))

    apply_call-Inv :
        (m : Module) (indirect : Bool) (index : ℕ) (d : State)
        → Inv kd u n p b d
        → Keeps (apply_call m indirect index d)
    unfolding apply_call check_max_depth
    apply_call-Inv m indirect index d i = Post-bind _ _ (top d) _ (top-Any kd u n p b d) λ v _.
        Post-bind Any _ (callee m indirect index) _ (callee-Any m indirect index)
          λ sig _. Post-bind _ _ (set_top _ d) _ (set_top-Inv kd u n p b _ d i) λ d' j. j

    reserved-Inv :
        (indirect : Bool) (d : State)
        → Inv kd u n p b d
        → Post (InvOf kd u n p b) (if indirect then read_uint32 d else ok (0, d))
    reserved-Inv indirect d i =
        if_both (Post (InvOf kd u n p b)) indirect (read_uint32-Inv kd u n p b d i) i

    pub disassemble_call-Ready :
        (m : Module) (indirect : Bool) (instr : Instr) (d : State)
        → instr.unreachable ≡ u
        → ((i : Instr) → Step kd i p n n)
        → Inv kd u n p b d
        → Post (Ready kd instr.op u n p b) (disassemble_call m indirect instr d)
    unfolding disassemble_call
    disassemble_call-Ready m indirect instr d f step i =
        Post-bind _ _ (read_uint32 d) _ (read_uint32-Inv kd u n p b d i) λ (index, d1) i1.
          Post-bind (InvOf kd u n p b) _ (if indirect then read_uint32 d1 else ok (0, d1)) _
            (reserved-Inv indirect d1 i1)
            λ (reserved, d2) i2.
              with_instr instr.op _ _ refl f (λ _. step _)
                (when-Inv kd u n p b (not instr.unreachable) (apply_call m indirect index) d2
                  (apply_call-Inv m indirect index) i2)

    pub disassemble_return-Ready :
        (fn : Function) (instr : Instr) (d : State)
        → instr.unreachable ≡ u
        → ((i : Instr) → Step kd i p n n)
        → Inv kd u n p b d
        → Post (Ready kd instr.op u n p b) (disassemble_return fn instr d)
    unfolding disassemble_return
    disassemble_return-Ready fn instr d f step i =
        Post-bind _ _ (when (not instr.unreachable) (lower_top (length fn.sig.return_types)) d) _
          (when-Inv kd u n p b (not instr.unreachable) _ d (lower_top-Inv kd u n p b _) i)
          λ d' i'.
            with_instr instr.op instr _ refl f (λ _. step _)
              (push_polymorphic_op-Inv kd u n p b d' i')

  pub disassemble_memory_access-Ready :
      (instr : Instr) (d : State)
      → instr.unreachable ≡ u
      → Inv memory_access u n p b d
      → Post (Ready memory_access instr.op u n p b) (disassemble_memory_access instr d)
  unfolding disassemble_memory_access
  disassemble_memory_access-Ready instr d f i =
      Post-bind _ _ (read_uint32 d) _ (read_uint32-Inv memory_access u n p b d i) λ (v, d') i'.
        Post-bind _ _ (read_uint32 d') _ (read_uint32-Inv memory_access u n p b d' i')
          λ (w, d'') j. (refl, f, (λ _. (v, w, refl, refl)), j)

  pub disassemble_br_table-Ready :
      (instr : Instr) (d : State)
      → instr.unreachable ≡ u
      → Inv br_table u n p b d
      → Post (Ready br_table instr.op u n p b) (disassemble_br_table instr d)
  unfolding disassemble_br_table
  disassemble_br_table-Ready instr d f i =
      let rd = read_uint32-Inv br_table u n p b in
      Post-bind _ _ (when (not instr.unreachable) (lower_top 1) d) _
        (when-Inv br_table u n p b (not instr.unreachable) _ d (lower_top-Inv br_table u n p b 1) i)
        λ d1 i1. Post-bind _ _ (read_uint32 d1) _ (rd d1 i1) λ (count, d2) i2.
          Post-bind _ _ (read_targets count d2) _ (read_targets-Inv br_table count d2 i2)
            λ (found, infos, d3) (entries, e, l, k, open_, i3).
              Post-bind _ _ (read_uint32 d3) _ (rd d3 i3) λ (v, d4) i4.
                Post-bind _ _ (table_info v d4) _ (table_info-bound v d4) λ info bound.
                  Post-bind _ _ (push_polymorphic_op d4) _
                    (push_polymorphic_op-Inv br_table u n p b d4 i4)
                    λ d5 i5. (
                      refl,
                      f,
                      (λ o. (
                        entries,
                        v,
                        ap (λ c. uint32 c ∷ (found ++ uint32 v ∷ [])) (sym l)
                            ∙ ap
                                (λ (es : List Immediate).
                                  uint32 (length entries) ∷ (es ++ uint32 v ∷ []))
                                e,
                        omega (arith, k, l, length-append infos (info ∷ [])),
                        open_ o,
                        omega (arith, bound, all_open br_table u n p b d4 i4 o),
                        refl,
                      )),
                      i5,
                    )
