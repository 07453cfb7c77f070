-- ===== src/Validate/Cases.antt =====
-- Each case of the `switch` keeps the machine sound, and panics only where the source forgets a
-- check.
use sea_pkg.Base.{ℕ, zero, suc, ◌≤◌, ◌≡◌, refl, List, [], ◌∷◌, All, arith, length}
use sea_pkg.Base.{Bool, ◌==◌, get_elem?, Option, none, some, ◌⊎◌, inl, inr}
use sea_pkg.Wasm.{FunctionSig, Function, GlobalEntry, Module}
use sea_pkg.Operators.{Op}
use sea_pkg.Operators
use sea_pkg.Validate.{
  ValidateError, Block, MockVm, continue, ◌>>=◌, gets, pop_block_from, pop_block, top_block,
  is_polymorphic,
}
use sea_pkg.Validate.Body.{
  Case, open_block, otherwise_branch, end_block, branch, branch_table, return_op, local_op,
  global_op, call, call_indirect, drop_op, select_op, verify_open, verify_else_block, else_at,
  verify_else, verify_end_block, end_at, verify_end, target_error, verify_target, verify_branch,
  verify_targets, verify_branch_table, return_with, verify_return, local_at, verify_local,
  global_at, verify_global, push_result, apply_sig, call_at, verify_call, entry_of, type_entry,
  call_table, verify_call_indirect, verify_drop, pop_choice, verify_select_typed, verify_select,
  verify_case, verify_known, verify_op,
}
use sea_pkg.Validate.Rules.{
  IsSound, Follows, Keeps, Below, Keeps-pure, Keeps-bind, Keeps-fail, Keeps-if, Keeps-reject,
  Keeps-fetch_var_uint,
}
use sea_pkg.Validate.Operands.{
  operand_rules, Keeps-pop_operand, Keeps-push_operand, Keeps-set_stack_top, Keeps-reset_push,
  Keeps-pop_expected, Keeps-pop_all, Keeps-adjust_stack, Keeps-can_branch, Keeps-set_polymorphic,
}

ruleset case_rules = (
  operand_rules, Keeps-set_polymorphic, Keeps-pop_expected, Keeps-pop_all, Keeps-adjust_stack,
  Keeps-can_branch,
)

abbrev OptionBelow : ℕ → Option Block → Type 0
OptionBelow n none = Unit {0}
OptionBelow n (some b) = Below n b

top_block-Below : (vm : MockVm) → IsSound vm → OptionBelow (length vm.stack) (top_block vm)
unfolding top_block
top_block-Below vm s = ground (arith, s.bases)

get_elem?-cases :
    (xs : List FunctionSig) (i : ℕ)
    → ((get_elem? xs i ≡ none) × (length xs ≤ i)) ⊎ ((x : FunctionSig) × (get_elem? xs i ≡ some x))
get_elem?-cases [] i = inl (refl, omega arith)
get_elem?-cases (x ∷ xs) zero = inr (x, refl)
get_elem?-cases (x ∷ xs) (suc i) = elim (get_elem?-cases xs i) [
  | inl (missing, beyond) ↦ inl (missing, omega arith)
  | inr found ↦ inr found
]

module _ (m : Module) (n : ℕ) where
  Keeps-open : (op : Op) → Keeps m n (verify_open op)
  unfolding verify_open
  Keeps-open op = search case_rules

  Keeps-else_block : (b : Block) → Below n b → Keeps m n (verify_else_block b)
  unfolding verify_else_block
  Keeps-else_block b h = search (case_rules, Keeps-set_stack_top) depth 9

  Keeps-else_at : (op : Op) (o : Option Block) → OptionBelow n o → Keeps m n (else_at op o)
  unfolding else_at
  Keeps-else_at op none h = search case_rules
  Keeps-else_at op (some b) h = search (case_rules, Keeps-else_block)

  Keeps-end_block : (poly : Bool) (b : Block) → Below n b → Keeps m n (verify_end_block poly b)
  unfolding verify_end_block
  Keeps-end_block poly b h = search (case_rules, Keeps-set_stack_top, Keeps-reset_push) depth 9

  Keeps-end_at :
      (op : Op) (poly : Bool) (o : Option Block) → OptionBelow n o → Keeps m n (end_at op poly o)
  unfolding end_at
  Keeps-end_at op poly none h = search case_rules
  Keeps-end_at op poly (some b) h = Keeps-end_block poly b h

  Keeps-target_error : (poly : Bool) (e : Option ValidateError) → Keeps m n (target_error poly e)
  unfolding target_error
  Keeps-target_error poly none = search case_rules
  Keeps-target_error poly (some e) = search case_rules

  Keeps-target : (depth : ℕ) → Keeps m n (verify_target depth)
  unfolding verify_target
  Keeps-target depth = search (case_rules, Keeps-target_error)

  Keeps-branch : (op : Op) → Keeps m n (verify_branch op)
  unfolding verify_branch
  Keeps-branch op = search (case_rules, Keeps-target)

  Keeps-targets : (k : ℕ) → Keeps m n (verify_targets k)
  unfolding verify_targets
  Keeps-targets zero = search case_rules
  Keeps-targets (suc k) =
      Keeps-bind m n _ _ (Keeps-fetch_var_uint m n)
        (λ entry. Keeps-bind m n _ _ (Keeps-target entry) (λ _. Keeps-targets k))

  Keeps-branch_table : Keeps m n verify_branch_table
  unfolding verify_branch_table
  Keeps-branch_table = search (case_rules, Keeps-target, Keeps-targets) depth 9

  Keeps-return_with : (ts : List ℕ) → Keeps m n (return_with ts)
  unfolding return_with
  Keeps-return_with [] = search case_rules
  Keeps-return_with (t ∷ []) = search case_rules
  Keeps-return_with (_ ∷ _ ∷ _) = Keeps-fail m n _ tt

  Keeps-local_at : (op : Op) (i : ℕ) (o : Option ℕ) → Keeps m n (local_at op i o)
  unfolding local_at
  Keeps-local_at op i none = search case_rules
  Keeps-local_at op i (some t) = search case_rules depth 9

  Keeps-global_at : (op : Op) (i : ℕ) (o : Option GlobalEntry) → Keeps m n (global_at op i o)
  unfolding global_at
  Keeps-global_at op i none = search case_rules
  Keeps-global_at op i (some gv) = search case_rules

  Keeps-push_result : (ts : List ℕ) → Keeps m n (push_result ts)
  unfolding push_result
  Keeps-push_result [] = search case_rules
  Keeps-push_result (t ∷ _) = search case_rules

  Keeps-apply_sig : (sig : FunctionSig) → Keeps m n (apply_sig sig)
  unfolding apply_sig
  Keeps-apply_sig sig = search (case_rules, Keeps-push_result)

  Keeps-call_at : (i : ℕ) (o : Option Function) → Keeps m n (call_at i o)
  unfolding call_at
  Keeps-call_at i none = search case_rules
  Keeps-call_at i (some fn) = Keeps-apply_sig fn.sig

  Keeps-entry_of :
      (index : ℕ) (types : List FunctionSig)
      → m.types ≡ some types
      → Keeps m n (entry_of index types)
  unfolding entry_of
  Keeps-entry_of index types e = elim (get_elem?-cases types index) [
    | inl (missing, beyond) ↦
        rw (missing, entry_of) (Keeps-fail m n _ (inr (types, e, refl, beyond)))
    | inr (sig, found) ↦ rw (found, entry_of) (Keeps-pure m n sig)
  ]

  Keeps-type_entry :
      (index : ℕ) (o : Option (List FunctionSig)) → m.types ≡ o → Keeps m n (type_entry o index)
  unfolding type_entry
  Keeps-type_entry index none e = Keeps-fail m n _ e
  Keeps-type_entry index (some types) e = Keeps-entry_of index types e

  Keeps-call_table : (o : Option ℕ) → Keeps m n (call_table m o)
  unfolding call_table
  Keeps-call_table none = search case_rules
  Keeps-call_table (some k) =
      let entry : (index : ℕ) → Keeps m n (type_entry m.types index) =
        λ index. Keeps-type_entry index m.types refl in
      search (case_rules, entry, Keeps-apply_sig) depth 9

  Keeps-drop : Keeps m n verify_drop
  unfolding verify_drop
  Keeps-drop = search case_rules

  Keeps-pop_choice : Keeps m n pop_choice
  unfolding pop_choice
  Keeps-pop_choice = search case_rules depth 9

  Keeps-select_typed : Keeps m n verify_select_typed
  unfolding verify_select_typed
  Keeps-select_typed = Keeps-bind m n _ _ (Keeps-pop_operand m n) λ c.
      Keeps-bind m n _ _ (Keeps-reject m n _ _) λ _. Keeps-bind m n _ _ Keeps-pop_choice λ a.
        Keeps-bind m n _ _ Keeps-pop_choice λ b.
          Keeps-if m n (a == b) (Keeps-push_operand m n b) (Keeps-fail m n _ (inl (refl, refl)))

  Keeps-select : Keeps m n verify_select
  unfolding verify_select
  Keeps-select = search (case_rules, Keeps-select_typed)

-- `else` and `end` look at the block that they close, whose base lies in the stack.
module _ (m : Module) (n : ℕ) where
  Keeps-else : (op : Op) → Keeps m n (verify_else op)
  unfolding verify_else ◌>>=◌ gets
  Keeps-else op = record {
    at = λ vm s h.
        (Keeps-else_at m (length vm.stack) op (top_block vm) (top_block-Below vm s)).at vm s
          (omega arith);
  }

  end_from :
      (op : Op) (poly : Bool) (vm : MockVm) (bs : List Block)
      → IsSound vm
      → All (Below (length vm.stack)) bs
      → Follows m vm (continue (pop_block_from bs vm) (end_at op poly))
  unfolding pop_block_from
  end_from op poly vm [] s h =
      (Keeps-end_at m (length vm.stack) op poly none tt).at vm s (omega arith)
  end_from op poly vm (b ∷ rest) s (h, t) =
      (Keeps-end_at m (length vm.stack) op poly (some b) h).at (record vm { blocks = rest })
        (record { top = s.top; bases = t }) (omega arith)

  Keeps-end : (op : Op) → Keeps m n (verify_end op)
  unfolding verify_end ◌>>=◌ gets pop_block
  Keeps-end op = record { at = λ vm s h. end_from op (is_polymorphic vm) vm vm.blocks s s.bases }

  Keeps-case :
      (fn : FunctionSig) (locals : List ℕ) (op : Op) (c : Case)
      → Keeps m n (verify_case fn m locals op c)
  unfolding verify_case verify_return verify_local verify_global verify_call verify_call_indirect
  Keeps-case fn locals op open_block = Keeps-open m n op
  Keeps-case fn locals op otherwise_branch = Keeps-else op
  Keeps-case fn locals op end_block = Keeps-end op
  Keeps-case fn locals op branch = Keeps-branch m n op
  Keeps-case fn locals op branch_table = Keeps-branch_table m n
  Keeps-case fn locals op return_op = Keeps-return_with m n fn.return_types
  Keeps-case fn locals op local_op = search (case_rules, Keeps-local_at)
  Keeps-case fn locals op global_op = search (case_rules, Keeps-global_at)
  Keeps-case fn locals op call = search (case_rules, Keeps-call_at)
  Keeps-case fn locals op call_indirect = Keeps-call_table m n m.table
  Keeps-case fn locals op drop_op = Keeps-drop m n
  Keeps-case fn locals op select_op = Keeps-select m n
  Keeps-case fn locals op _ = search case_rules

  Keeps-known :
      (fn : FunctionSig) (locals : List ℕ) (code : ℕ) (o : Option Op)
      → Keeps m n (verify_known fn m locals code o)
  unfolding verify_known
  Keeps-known fn locals code none = search case_rules
  Keeps-known fn locals code (some op) = search (case_rules, Keeps-case)

pub verify_op-Keeps :
    (m : Module) (fn : FunctionSig) (locals : List ℕ) (code : ℕ)
    → Keeps m 0 (verify_op fn m locals code)
unfolding verify_op
verify_op-Keeps m fn locals code = Keeps-known m 0 fn locals code (Operators.new code)
