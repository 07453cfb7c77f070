-- ===== src/Validate/Operands.antt =====
-- The operand stack and the block stack: their actions keep the machine sound and never index out
-- of range.
use sea_pkg.Base.{ℕ, zero, suc, ◌+◌, ◌-◌, ◌≤◌, ◌<◌, ◌≡◌, refl, List, [], ◌∷◌, ◌++◌, arith, length}
use sea_pkg.Base.{true, false, ltb, ◌==◌, get_elem?, set, Option, none, some}
use sea_pkg.Base.{inl, inr, length-append, length-set, Bool-cases}
use sea_pkg.Base.Outcome.{ok}
use sea_pkg.Wasm.{Module}
use sea_pkg.Operators.{Op}
use sea_pkg.Validate.{
  MockVm, ◌>>=◌, ◌>>◌, stack_at, top_operand, pop_operand, push_operand, set_stack_top,
  set_polymorphic, pop_expected, pop_all, adjust_stack, check_label, can_branch,
}
use sea_pkg.Validate.Rules.{
  IsSound, Follows, Keeps, Below, Below-mono, Keeps-pure, Keeps-throw, Keeps-gets, Keeps-if,
  Keeps-reject, Keeps-bind, Follows-bind, keeps_rules,
}

-- An entry below the length is there.
get_elem?-some : (xs : List ℕ) (i : ℕ) → i < length xs → (x : ℕ) × (get_elem? xs i ≡ some x)
get_elem?-some [] i h = absurd (omega arith)
get_elem?-some (x ∷ xs) zero h = (x, refl)
get_elem?-some (x ∷ xs) (suc i) h = get_elem?-some xs i (omega arith)

stack_at_top :
    (vm : MockVm)
    → IsSound vm
    → vm.stack_top == 0 ≡ false
    → (t : ℕ) × (stack_at (vm.stack_top - 1) vm ≡ ok (t, vm))
stack_at_top vm s h =
    let (t, e) = get_elem?-some vm.stack (vm.stack_top - 1) (ground (arith, s.top)) in
    (t, rw (e, stack_at) refl)

module _ (m : Module) (n : ℕ) where
  pub Keeps-top_operand : Keeps m n top_operand
  unfolding top_operand
  Keeps-top_operand = record {
    at = λ vm s h. elim (Bool-cases (vm.stack_top == 0)) [
      | inl e ↦ rw e (s, omega arith, omega arith, refl)
      | inr e ↦ let (t, f) = stack_at_top vm s e in rw (e, f) (s, omega arith, omega arith, refl)
    ];
  }

  pub Keeps-pop_operand : Keeps m n pop_operand
  unfolding pop_operand
  Keeps-pop_operand = record {
    at = λ vm s h. elim (Bool-cases (vm.stack_top == 0)) [
      | inl e ↦ rw e (s, omega arith, omega arith, refl)
      | inr e ↦
          let (t, f) = stack_at_top vm s e in
          rw (e, f)
            (record { top = omega (arith, s.top); bases = s.bases }, omega arith, omega arith, refl)
    ];
  }

  pub Keeps-push_operand : (t : ℕ) → Keeps m n (push_operand t)
  unfolding push_operand
  Keeps-push_operand t = record {
    at = λ vm s h. elim (Bool-cases (vm.stack_top == length vm.stack)) [
      | inl e ↦
          let longer : length (vm.stack ++ t ∷ []) ≡ length vm.stack + 1 =
            length-append vm.stack (t ∷ []) in
          rw e (
            record {
              top = omega (arith, longer, s.top);
              bases = Below-mono _ _ vm.blocks (omega (arith, longer)) s.bases;
            },
            omega arith,
            omega (arith, longer),
            refl,
          )
      | inr e ↦
          let same : length (set vm.stack vm.stack_top t) ≡ length vm.stack =
            length-set vm.stack vm.stack_top t in
          let room : ltb vm.stack_top (length vm.stack) ≡ true = ground (arith, s.top) in
          rw (e, room)
            (
              record {
                top = ground (arith, same, s.top);
                bases = Below-mono _ _ vm.blocks (omega (arith, same)) s.bases;
              },
              omega arith,
              omega (arith, same),
              refl,
            )
    ];
  }

  pub Keeps-set_polymorphic : Keeps m n set_polymorphic
  unfolding set_polymorphic
  Keeps-set_polymorphic = record { at = λ vm s h. ground (arith, s.top, s.bases) }

  pub Keeps-set_stack_top : (k : ℕ) → k ≤ n → Keeps m n (set_stack_top k)
  unfolding set_stack_top
  Keeps-set_stack_top k le = record {
    at = λ vm s h. (record { top = omega arith; bases = s.bases }, omega arith, omega arith, refl);
  }

  -- The end of a block that has a type.
  pub Keeps-reset_push :
      (k t : ℕ) → k ≤ n → Keeps m n (set_stack_top k >> (push_operand t >> set_stack_top (k + 1)))
  unfolding set_stack_top ◌>>=◌ push_operand
  Keeps-reset_push k t le = record {
    at = λ vm s h. elim (Bool-cases (k == length vm.stack)) [
      | inl e ↦
          let longer : length (vm.stack ++ t ∷ []) ≡ length vm.stack + 1 =
            length-append vm.stack (t ∷ []) in
          rw e (
            record {
              top = ground (arith, longer);
              bases = Below-mono _ _ vm.blocks (omega (arith, longer)) s.bases;
            },
            omega arith,
            omega (arith, longer),
            refl,
          )
      | inr e ↦
          let same : length (set vm.stack k t) ≡ length vm.stack = length-set vm.stack k t in
          let room : ltb k (length vm.stack) ≡ true = ground arith in
          rw (e, room)
            (
              record {
                top = ground (arith, same);
                bases = Below-mono _ _ vm.blocks (omega (arith, same)) s.bases;
              },
              omega arith,
              omega (arith, same),
              refl,
            )
    ];
  }

pub ruleset operand_rules = (keeps_rules, Keeps-top_operand, Keeps-pop_operand, Keeps-push_operand)

module _ (m : Module) (n : ℕ) where
  pub Keeps-pop_expected : (t : ℕ) → Keeps m n (pop_expected t)
  unfolding pop_expected
  Keeps-pop_expected t = search operand_rules

  pub Keeps-pop_all : (ts : List ℕ) → Keeps m n (pop_all ts)
  unfolding pop_all
  Keeps-pop_all [] = search operand_rules
  Keeps-pop_all (t ∷ ts) = Keeps-bind m n _ _ (Keeps-pop_expected t) (λ _. Keeps-pop_all ts)

  pub Keeps-adjust_stack : (op : Op) → Keeps m n (adjust_stack op)
  unfolding adjust_stack
  Keeps-adjust_stack op = search (operand_rules, Keeps-pop_all)

  Keeps-check_label : (depth : ℕ) (label : Option ℕ) → Keeps m n (check_label depth label)
  unfolding check_label
  Keeps-check_label depth none = search operand_rules
  Keeps-check_label depth (some t) = search operand_rules

  pub Keeps-can_branch : (depth : ℕ) → Keeps m n (can_branch depth)
  unfolding can_branch
  Keeps-can_branch depth = search (operand_rules, Keeps-check_label)
