-- ===== src/Disasm/Loop.antt =====
-- The loop of `Disassemble` keeps the invariant, and its fuel is enough.
use sea_pkg.Base.{
  ℕ, zero, suc, ◌+◌, ◌<◌, ◌≤◌, ◌≡◌, ◌≢◌, refl, sym, ap, ◌∙◌, arith, List, [], ◌∷◌, true, false, not,
  ◌&&◌, ◌||◌, leb,
}
use sea_pkg.Base.{length, Bool-cases, Option-cases, if_both, ◌⊎◌, inl, inr, ◌==◌, ==_iff}
use sea_pkg.Base.Outcome.{ok, ◌>>=◌}
use mathlib.Core.Path.{subst}
use mathlib.Core.Bool.{true≢false}
use sea_pkg.Wasm.{Function, Module}
use sea_pkg.Operators.{new}
use sea_pkg.Disasm.{
  Instr, Kind, memory_access, if_, loop, block_, else_, end_, br, br_if, br_table, plain, kind,
  Result, State, Disassembly, lower_top, push_polymorphic_op, is_instr_reachable,
}
use sea_pkg.Disasm.Effects.{check_type}
use sea_pkg.Disasm.Cases.{disassemble_branch}
use sea_pkg.Disasm.Body.{
  disassemble_plain, disassemble_kind, closes, is_unreachable, new_instr, append_instr,
  disassemble_op, disassemble_loop, initial, disassemble,
}
use sea_pkg.Disasm.Trace.{Nested, Nested-append, Passes}
use sea_pkg.Disasm.Invariant.{
  Post, Post-bind, Post-weaken, Busy, Matched, Shape, Reached, Inv, lower_top-Inv, when-Inv,
  read_int32-Inv, read_int64-Inv, read_full-Inv, push_polymorphic_op-Inv, check_type-Inv,
}
use sea_pkg.Disasm.Blocks.{
  Moved, disassemble_open-Moved, disassemble_end-Moved, disassemble_else-Moved,
}
use sea_pkg.Disasm.Rounds.{
  Ready, Ready-Moved, with_instr, disassemble_branch-Ready, disassemble_variable-Ready,
  disassemble_const-Ready, disassemble_memory_size-Ready, disassemble_call-Ready,
  disassemble_return-Ready, disassemble_memory_access-Ready, disassemble_br_table-Ready,
}

disassemble_plain-Ready :
    (fn : Function) (m : Module) (instr : Instr) (n p b : ℕ) (d : State)
    → Inv plain instr.unreachable n p b d
    → Post (Ready plain instr.op instr.unreachable n p b) (disassemble_plain fn m instr d)
unfolding disassemble_plain
disassemble_plain-Ready fn m instr n p b d i =
    let u = instr.unreachable in
    let Goal = Post (Ready plain instr.op u n p b) in
    let keep =
      λ (r : Result State). with_instr n p b u plain instr.op instr r refl refl (λ _. refl) in
    let lowered =
      λ (k : ℕ). when-Inv plain u n p b (not u) (lower_top k) d (lower_top-Inv plain u n p b k) i in
    let const = λ (size : ℕ) (r : Result (ℕ × State)).
      disassemble_const-Ready n p b u plain size r instr refl (λ _. refl) in
    if_both Goal (instr.op == 0x00) (keep _ (push_polymorphic_op-Inv plain u n p b d i)) (
      if_both Goal (instr.op == 0x1a) (keep _ (lowered 1)) (
        if_both Goal (instr.op == 0x1b) (keep _ (lowered 2)) (
          if_both Goal (instr.op == 0x0f)
            (disassemble_return-Ready n p b u plain fn instr d refl (λ _. refl) i)
            (if_both Goal (instr.op == 0x10)
              (disassemble_call-Ready n p b u plain m false instr d refl (λ _. refl) i)
              (if_both Goal (instr.op == 0x11)
                (disassemble_call-Ready n p b u plain m true instr d refl (λ _. refl) i)
                (if_both Goal (leb 0x20 instr.op && leb instr.op 0x24)
                  (disassemble_variable-Ready n p b u plain instr d refl (λ _. refl) i)
                  (if_both Goal (instr.op == 0x41) (const 4 _ (read_int32-Inv plain u n p b d i)) (
                    if_both Goal (instr.op == 0x42) (const 8 _ (read_int64-Inv plain u n p b d i)) (
                      if_both Goal (instr.op == 0x43)
                        (const 4 _ (read_full-Inv plain u n p b 4 d i))
                        (if_both Goal (instr.op == 0x44)
                          (const 8 _ (read_full-Inv plain u n p b 8 d i))
                          (if_both Goal (instr.op == 0x3f || instr.op == 0x40)
                            (disassemble_memory_size-Ready n p b u plain instr d refl (λ _. refl) i)
                            (refl, refl, (λ _. refl), i))))))))))))

moved :
    (kd : Kind) (instr : Instr) (n p b : ℕ) (r : Result (Instr × State))
    → Post (Ready kd instr.op instr.unreachable n p b) r
    → Post (Moved kd instr.op n p b) r
moved kd instr n p b r h =
    Post-weaken (Ready kd instr.op instr.unreachable n p b) (Moved kd instr.op n p b) r h
      (Ready-Moved kd instr.op instr.unreachable n p b)

br-Ready :
    (instr : Instr) (n p b : ℕ) (d : State)
    → Inv br instr.unreachable n p b d
    → Post
        (Ready br instr.op instr.unreachable n p b)
        (disassemble_branch instr d >>= λ r. push_polymorphic_op (r.1) >>= λ d'. ok (r.0, d'))
br-Ready instr n p b d i =
    let u = instr.unreachable in
    Post-bind _ _ (disassemble_branch instr d) _
      (disassemble_branch-Ready n p b u br instr d refl (λ _ v e l. (v, e, l, refl)) i)
      λ (j, d') (e, f, step, i').
        Post-bind _ _ (push_polymorphic_op d') _ (push_polymorphic_op-Inv br u n p b d' i')
          λ d'' i''. (e, f, step, i'')

disassemble_kind-Moved :
    (fn : Function) (m : Module) (kd : Kind) (instr : Instr) (n p b : ℕ) (d : State)
    → Inv kd instr.unreachable n p b d
    → Post (Moved kd instr.op n p b) (disassemble_kind fn m kd instr d)
unfolding disassemble_kind
disassemble_kind-Moved fn m memory_access instr n p b d i =
    moved memory_access instr n p b _
      (disassemble_memory_access-Ready n p b instr.unreachable instr d refl i)
disassemble_kind-Moved fn m if_ instr n p b d i =
    disassemble_open-Moved if_ instr n p b d (λ _. refl) refl i
disassemble_kind-Moved fn m loop instr n p b d i =
    disassemble_open-Moved loop instr n p b d (λ _. refl) refl i
disassemble_kind-Moved fn m block_ instr n p b d i =
    disassemble_open-Moved block_ instr n p b d (λ _. refl) refl i
disassemble_kind-Moved fn m else_ instr n p b d i = disassemble_else-Moved instr n p b d i
disassemble_kind-Moved fn m end_ instr n p b d i = disassemble_end-Moved instr n p b d i
disassemble_kind-Moved fn m br instr n p b d i = moved br instr n p b _ (br-Ready instr n p b d i)
disassemble_kind-Moved fn m br_if instr n p b d i = moved br_if instr n p b _ (
    disassemble_branch-Ready n p b instr.unreachable br_if instr d refl (λ _ v e l. (v, e, l, refl))
      i)
disassemble_kind-Moved fn m br_table instr n p b d i =
    moved br_table instr n p b _ (disassemble_br_table-Ready n p b instr.unreachable instr d refl i)
disassemble_kind-Moved fn m plain instr n p b d i =
    moved plain instr n p b _ (disassemble_plain-Ready fn m instr n p b d i)

-- Between two rounds.
abbrev pub Sound : ℕ → State → Type 0
Sound b d =
    (n : ℕ) × Nested d.code 0 0 n
    × Shape d.block_polymorphic_ops (length d.block_indices) n
    × (length d.reader ≤ b)

append_instr-Sound :
    (op n p b : ℕ) (r : Instr × State) → Moved (kind op) op n p b r → Sound b (append_instr op r)
unfolding append_instr
append_instr-Sound op n p b (i, d) (n', e, l, t, passes, s, m) =
    let behind : p ≡ 0 + length d.code = omega (arith, l) in
    let here = subst (λ x. Passes (kind x) i p n n') (sym e) passes in
    (
      n',
      Nested-append d.code i 0 0 n n' t (subst (λ x. Passes (kind i.op) i x n n') behind here),
      s,
      m,
    )

is_instr_reachable-Reached :
    (kd : Kind) (polys : List (List ℕ)) (k n : ℕ)
    → closes kd ≡ false
    → Matched polys n k
    → Post
        (λ u. Reached kd u polys k n)
        (is_instr_reachable polys >>= λ reachable. ok (not reachable))
is_instr_reachable-Reached kd [] k n c m = tt
is_instr_reachable-Reached kd ([] ∷ polys) k n c m = m
is_instr_reachable-Reached kd ((o ∷ ops) ∷ polys) k n c m = (tt, inl c)

Shape-Busy : (polys : List (List ℕ)) (k n : ℕ) → Shape polys k n → n < k → Busy polys
Shape-Busy ([] ∷ polys) k n (s, l, m) h = absurd (omega (arith, m, h))
Shape-Busy ((o ∷ ops) ∷ polys) k n s h = tt
Shape-Busy [] k n (s, _, _) h = omega (arith, s)

is_unreachable-Reached :
    (kd : Kind) (d : State) (n : ℕ)
    → Shape d.block_polymorphic_ops (length d.block_indices) n
    → Post
        (λ u. Reached kd u d.block_polymorphic_ops (length d.block_indices) n)
        (is_unreachable kd d)
unfolding is_unreachable
is_unreachable-Reached kd d n (s, l, m) =
    let k = length d.block_indices in
    let polys = d.block_polymorphic_ops in
    elim (Bool-cases (closes kd)) [
      | inr c ↦ rw c (is_instr_reachable-Reached kd polys k n c m)
      | inl c ↦ rw c (elim (Bool-cases (k + 1 == length polys)) [
        | inl e ↦ rw e (omega (arith, s, (==_iff (k + 1) (length polys)).0 e))
        | inr e ↦
            let apart : k + 1 ≢ length polys =
              λ o. true≢false (sym ((==_iff (k + 1) (length polys)).1 o) ∙ e) in
            let less : n < k = omega (arith, s, l, apart) in
            rw e (Shape-Busy polys k n (s, l, m) less, inr less)
      ])
    ]

disassemble_op-Sound :
    (fn : Function) (m : Module) (op b : ℕ) (d : State)
    → Sound b d
    → Post (Sound b) (disassemble_op fn m op d)
unfolding disassemble_op
disassemble_op-Sound fn m op b d (n, t, s, l) = elim (Option-cases (new op)) [
  | inl none_there ↦ rw (none_there, disassemble_op) tt
  | inr (op_str, there) ↦
      let p = length d.code in
      let kd = kind op in
      rw (there, disassemble_op)
        (Post-bind _ _ (is_unreachable kd d) _ (is_unreachable-Reached kd d n s) λ u r.
          Post-bind _ _ (check_type op_str u d) _
            (check_type-Inv kd u n p b op_str u d (t, refl, s, r, l))
            λ d' i.
              Post-bind _ _ (disassemble_kind fn m kd (new_instr op u) d') _
                (disassemble_kind-Moved fn m kd (new_instr op u) n p b d' i)
                (append_instr-Sound op n p b))
]

list_cases : (xs : List ℕ) → (xs ≡ []) ⊎ ((x : ℕ) × (rest : List ℕ) × (xs ≡ x ∷ rest))
list_cases [] = inl refl
list_cases (x ∷ rest) = inr (x, rest, refl)

-- What a disassembly is made of.
abbrev pub NestedCode : List Instr → Type 0
NestedCode code = (n : ℕ) × Nested code 0 0 n

disassemble_loop-NestedCode :
    (fn : Function) (m : Module) (fuel b : ℕ) (d : State)
    → b < fuel
    → Sound b d
    → Post (λ d'. NestedCode d'.code) (disassemble_loop fn m fuel d)
unfolding disassemble_loop
disassemble_loop-NestedCode fn m zero b d h s = omega arith
disassemble_loop-NestedCode fn m (suc fuel) b d h (n, t, s, l) = elim (list_cases d.reader) [
  | inl e ↦ rw e (n, t)
  | inr (op, rest, e) ↦
      let size : length d.reader ≡ suc (length rest) = ap length e in
      rw e (
        Post-bind _ _ (disassemble_op fn m op (record d { reader = rest })) _
          (disassemble_op-Sound fn m op (length rest) (record d { reader = rest })
            (n, t, s, omega arith))
          λ d' s'.
            disassemble_loop-NestedCode fn m fuel (length rest) d' (omega (arith, size, h, l)) s')
]

-- On every function the loop of `Disassemble` ends within its fuel, with instructions, an error or
-- a panic. Where it returns instructions, the reachable ones nest. The label of a branch, and every
-- entry and the default of a branch table, is an open block or the function. `else` stands in a block
-- and names an instruction before it; `end` closes a block and carries a stack; a memory access carries
-- two immediates, and a branch table a stack for each entry and the default. Of the stack that a block
-- or a loop carries nothing is stated.
pub disassemble-NestedCode :
    (fn : Function) (m : Module) → Post (λ (d : Disassembly). NestedCode d.code) (disassemble fn m)
unfolding disassemble
disassemble-NestedCode fn m =
    Post-bind _ _ (disassemble_loop fn m (length fn.body.code + 1) (initial fn.body.code)) _
      (disassemble_loop-NestedCode fn m (length fn.body.code + 1) (length fn.body.code)
        (initial fn.body.code) (omega arith) (0, refl, (refl, omega arith, refl), omega arith))
      λ d h. h
