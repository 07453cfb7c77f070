-- ===== src/Validate/Typing.antt =====
-- The typing rule that `adjustStack` implements, on the list of the live operands.
use sea_pkg.Base.{
  ℕ, zero, suc, ◌+◌, ◌≤◌, ◌<◌, ◌≡◌, refl, ap, ◌∙◌, List, [], ◌∷◌, ◌++◌, arith, length,
}
use sea_pkg.Base.{true, false, if◌then◌else◌, ltb, ◌==◌, get_elem?, get_or, set, Option, none, some}
use sea_pkg.Base.{inl, inr, Bool-cases}
use sea_pkg.Base.Outcome.{ok, err}
use sea_pkg.Wasm.{block_type_empty}
use sea_pkg.Operators.{Op}
use mathlib.Core.Path.{ap₂}
use mathlib.Core.Logic.{◌≢◌}
use native.Mathlib.Numerals.{add-one}
use sea_pkg.Validate.{
  MockVm, Result, ◌>>=◌, pure, push_operand, pop_expected, pop_all, adjust_stack, is_polymorphic,
  pc, ValidateError, invalid_type,
}

-- The first `n` entries of the stack, the last first.
abbrev pub live_from : ℕ → List ℕ → List ℕ
live_from zero stack = []
live_from (suc n) stack = get_or stack n 0 ∷ live_from n stack

-- The operands that count, the top first.
abbrev pub live : MockVm → List ℕ
live vm = live_from vm.stack_top vm.stack

get_or-set_ne : (xs : List ℕ) (i j t : ℕ) → i < j → get_or (set xs j t) i 0 ≡ get_or xs i 0
get_or-set_ne [] i j t h = refl
get_or-set_ne (x ∷ xs) zero zero t h = absurd (omega arith)
get_or-set_ne (x ∷ xs) zero (suc j) t h = refl
get_or-set_ne (x ∷ xs) (suc i) zero t h = absurd (omega arith)
get_or-set_ne (x ∷ xs) (suc i) (suc j) t h = get_or-set_ne xs i j t (omega arith)

get_or-set_self : (xs : List ℕ) (i t : ℕ) → i < length xs → get_or (set xs i t) i 0 ≡ t
get_or-set_self [] i t h = absurd (omega arith)
get_or-set_self (x ∷ xs) zero t h = refl
get_or-set_self (x ∷ xs) (suc i) t h = get_or-set_self xs i t (omega arith)

get_or-append : (xs ys : List ℕ) (i : ℕ) → i < length xs → get_or (xs ++ ys) i 0 ≡ get_or xs i 0
get_or-append [] ys i h = absurd (omega arith)
get_or-append (x ∷ xs) ys zero h = refl
get_or-append (x ∷ xs) ys (suc i) h = get_or-append xs ys i (omega arith)

get_or-append_next : (xs : List ℕ) (t : ℕ) → get_or (xs ++ t ∷ []) (length xs) 0 ≡ t
get_or-append_next [] t = refl
get_or-append_next (x ∷ xs) t = get_or-append_next xs t

pub get_elem?-get_or : (xs : List ℕ) (i : ℕ) → i < length xs → get_elem? xs i ≡ some (get_or xs i 0)
get_elem?-get_or [] i h = absurd (omega arith)
get_elem?-get_or (x ∷ xs) zero h = refl
get_elem?-get_or (x ∷ xs) (suc i) h = get_elem?-get_or xs i (omega arith)

live_from-set :
    (n i t : ℕ) (stack : List ℕ) → n ≤ i → live_from n (set stack i t) ≡ live_from n stack
live_from-set zero i t stack h = refl
live_from-set (suc n) i t stack h =
    ap₂ ◌∷◌ (get_or-set_ne stack n i t (omega arith)) (live_from-set n i t stack (omega arith))

live_from-append :
    (n : ℕ) (stack rest : List ℕ)
    → n ≤ length stack
    → live_from n (stack ++ rest) ≡ live_from n stack
live_from-append zero stack rest h = refl
live_from-append (suc n) stack rest h =
    ap₂ ◌∷◌ (get_or-append stack rest n (omega arith)) (live_from-append n stack rest (omega arith))

live_append_next :
    (n t : ℕ) (stack : List ℕ)
    → n ≡ length stack
    → live_from (n + 1) (stack ++ t ∷ []) ≡ t ∷ live_from n stack
live_append_next n t stack e =
    rw add-one (
      ap₂ ◌∷◌ (rw e (get_or-append_next stack t)) (live_from-append n stack (t ∷ []) (omega arith)))

live_set_next :
    (n t : ℕ) (stack : List ℕ)
    → n < length stack
    → live_from (n + 1) (set stack n t) ≡ t ∷ live_from n stack
live_set_next n t stack h =
    rw add-one (ap₂ ◌∷◌ (get_or-set_self stack n t h) (live_from-set n n t stack (omega arith)))

-- A sound machine that pushes has the operand on top of those it had.
pub live-push_operand :
    (t : ℕ) (vm : MockVm)
    → vm.stack_top ≤ length vm.stack
    → (vm' : MockVm) × (push_operand t vm ≡ ok (tt, vm'))
      × (live vm' ≡ t ∷ live vm)
      × (vm'.blocks ≡ vm.blocks)
      × (vm'.code ≡ vm.code)
unfolding push_operand
live-push_operand t vm s = elim (Bool-cases (vm.stack_top == length vm.stack)) [
  | inl e ↦ (
    record vm { stack = vm.stack ++ t ∷ []; stack_top = vm.stack_top + 1 },
    rw e refl,
    live_append_next vm.stack_top t vm.stack (ground arith),
    refl,
    refl,
  )
  | inr e ↦
      let room : ltb vm.stack_top (length vm.stack) ≡ true = ground arith in
      (
        record vm { stack = set vm.stack vm.stack_top t; stack_top = vm.stack_top + 1 },
        rw (e, room) refl,
        live_set_next vm.stack_top t vm.stack (ground arith),
        refl,
        refl,
      )
]

-- What is left of a list of operands behind those that an operator takes.
unfoldable pub strip : List ℕ → List ℕ → Option (List ℕ)
strip [] operands = some operands
strip (t ∷ ts) [] = none
strip (t ∷ ts) (x ∷ operands) = if x == t then strip ts operands else none

pop_expected_top :
    (t n : ℕ) (vm : MockVm)
    → vm.stack_top ≡ suc n
    → suc n ≤ length vm.stack
    → is_polymorphic vm ≡ false
    → get_or vm.stack n 0 ≡ t
    → pop_expected t vm ≡ ok (tt, record vm { stack_top = n })
unfolding pop_expected
pop_expected_top t n vm e s p x = ground (arith, get_elem?-get_or vm.stack n)

pop_expected_other :
    (t n : ℕ) (vm : MockVm)
    → vm.stack_top ≡ suc n
    → suc n ≤ length vm.stack
    → is_polymorphic vm ≡ false
    → get_or vm.stack n 0 ≢ t
    → (e : ValidateError × ℕ) × (pop_expected t vm ≡ err e)
unfolding pop_expected
pop_expected_other t n vm e s p x = (
  (invalid_type t (get_or vm.stack n 0), pc (record vm { stack_top = n })),
  ground (arith, get_elem?-get_or vm.stack n),
)

pop_expected_empty :
    (t : ℕ) (vm : MockVm)
    → vm.stack_top ≡ 0
    → is_polymorphic vm ≡ false
    → (e : ValidateError × ℕ) × (pop_expected t vm ≡ err e)
unfolding pop_expected
pop_expected_empty t vm e p = ((invalid_type t 0, pc vm), ground arith)

-- An action takes the machine to one with the operands `rest`, its stack and all else the same, or
-- fails.
abbrev Agrees : MockVm → Option (List ℕ) → Result (Unit {0}) → Type 0
Agrees vm none r = (e : ValidateError × ℕ) × (r ≡ err e)
Agrees vm (some rest) r =
    (n : ℕ) × (r ≡ ok (tt, record vm { stack_top = n }))
    × (live_from n vm.stack ≡ rest)
    × (n ≤ length vm.stack)

pop_all-Agrees :
    (ts : List ℕ) (n : ℕ) (vm : MockVm)
    → vm.stack_top ≡ n
    → n ≤ length vm.stack
    → is_polymorphic vm ≡ false
    → Agrees vm (strip ts (live_from n vm.stack)) (pop_all ts vm)
unfolding pop_all strip is_polymorphic
pop_all-Agrees [] n vm e s p = (n, ground arith, refl, s)
pop_all-Agrees (t ∷ ts) zero vm e s p = let (x, f) = pop_expected_empty t vm e p in (x, rw f refl)
pop_all-Agrees (t ∷ ts) (suc n) vm e s p = elim (Bool-cases (get_or vm.stack n 0 == t)) [
  | inl same ↦
      rw (same, pop_expected_top t n vm e s p (ground arith))
        (pop_all-Agrees ts n (record vm { stack_top = n }) refl (omega arith) p)
  | inr other ↦
      let (x, f) = pop_expected_other t n vm e s p (ground arith) in rw (other, f) (x, refl)
]

-- The operands behind an operator: its result, if it has one, on those that it left.
unfoldable pub with_result : ℕ → List ℕ → List ℕ
with_result t rest = if t == block_type_empty then rest else t ∷ rest

abbrev pub Applies : Op → MockVm → Option (List ℕ) → Result (Unit {0}) → Type 0
Applies op vm none r = (e : ValidateError × ℕ) × (r ≡ err e)
Applies op vm (some rest) r =
    (vm' : MockVm) × (r ≡ ok (tt, vm'))
    × (live vm' ≡ with_result op.returns rest)
    × (vm'.blocks ≡ vm.blocks)
    × (vm'.code ≡ vm.code)

adjust_from :
    (op : Op) (vm : MockVm) (o : Option (List ℕ))
    → Agrees vm o (pop_all op.args vm)
    → Applies op vm o (adjust_stack op vm)
unfolding adjust_stack ◌>>=◌ with_result pure
adjust_from op vm none (e, f) = (e, rw f refl)
adjust_from op vm (some rest) (n, f, l, s) = elim (Bool-cases (op.returns == block_type_empty)) [
  | inl none_returned ↦ rw (f, none_returned) (record vm { stack_top = n }, refl, l, refl, refl)
  | inr returned ↦
      let (vm', pushed, top, blocks, code) =
        live-push_operand op.returns (record vm { stack_top = n }) s in
      rw (f, returned) (vm', pushed, top ∙ ap (◌∷◌ op.returns) l, blocks, code)
]

-- In a block that is not polymorphic, `adjustStack` decides and applies an operator's typing rule:
-- if the operands on top are the operator's, in its order, they give way to its result, and the
-- blocks and the code stay; if not, it returns an error.
pub adjust_stack-Applies :
    (op : Op) (vm : MockVm)
    → vm.stack_top ≤ length vm.stack
    → is_polymorphic vm ≡ false
    → Applies op vm (strip op.args (live vm)) (adjust_stack op vm)
adjust_stack-Applies op vm s p =
    adjust_from op vm (strip op.args (live vm)) (pop_all-Agrees op.args vm.stack_top vm refl s p)
