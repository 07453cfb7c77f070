-- ===== src/Validate/Select.antt =====
-- The case of `select` in `verifyBody`.
use sea_pkg.Base.{ℕ, suc, ◌≤◌, ◌≡◌, refl, ◌∷◌, arith, length}
use sea_pkg.Base.{Bool, true, false, if◌then◌else◌, ◌==◌, get_or}
use sea_pkg.Base.Outcome.{ok, panic, index_range}
use sea_pkg.Wasm.{i32}
use sea_pkg.Validate.{
  MockVm, Result, ◌>>=◌, pure, throw, fail, gets, pop_operand, push_operand, is_polymorphic,
}
use sea_pkg.Validate.Body.{pop_choice, verify_select_typed, verify_select}
use sea_pkg.Validate.Typing.{live_from, live, live-push_operand, get_elem?-get_or}

pop_operand_top :
    (n : ℕ) (vm : MockVm)
    → vm.stack_top ≡ suc n
    → suc n ≤ length vm.stack
    → pop_operand vm ≡ ok ((get_or vm.stack n 0, false), record vm { stack_top = n })
unfolding pop_operand
pop_operand_top n vm e s = ground (arith, get_elem?-get_or vm.stack n)

pop_choice_top :
    (n : ℕ) (vm : MockVm)
    → vm.stack_top ≡ suc n
    → suc n ≤ length vm.stack
    → pop_choice vm ≡ ok (get_or vm.stack n 0, record vm { stack_top = n })
unfolding pop_choice ◌>>=◌ gets pure throw
pop_choice_top n vm e s = rw (pop_operand_top n vm e s) (ground arith)

-- `select` on the operands `i32`, `a` and `b`: the result is one of the two values, if their types
-- are the same, and a panic if they are not.
abbrev pub Selects : MockVm → ℕ → Bool → Result (Unit {0}) → Type 0
Selects vm n true r =
    (vm' : MockVm) × (r ≡ ok (tt, vm')) × (live vm' ≡ get_or vm.stack n 0 ∷ live_from n vm.stack)
Selects vm n false r = r ≡ panic (index_range 2 2)

choose :
    (n : ℕ) (vm : MockVm) (b : Bool)
    → n ≤ length vm.stack
    → Selects vm n b (
        (if b then push_operand (get_or vm.stack n 0) else fail (index_range 2 2))
          (record vm { stack_top = n }))
unfolding fail
choose n vm true s =
    let (vm', pushed, top, _, _) =
      live-push_operand (get_or vm.stack n 0) (record vm { stack_top = n }) s in
    (vm', pushed, top)
choose n vm false s = refl

select_typed-Selects :
    (n : ℕ) (vm : MockVm)
    → vm.stack_top ≡ suc (suc (suc n))
    → suc (suc (suc n)) ≤ length vm.stack
    → get_or vm.stack (suc (suc n)) 0 ≡ i32
    → Selects vm n (get_or vm.stack (suc n) 0 == get_or vm.stack n 0) (verify_select_typed vm)
unfolding verify_select_typed ◌>>=◌ pure throw fail
select_typed-Selects n vm e s c =
    let top = pop_operand_top (suc (suc n)) vm e s in
    let first = pop_choice_top (suc n) (record vm { stack_top = suc (suc n) }) refl (omega arith) in
    let second = pop_choice_top n (record vm { stack_top = suc n }) refl (omega arith) in
    rw (top, c, first, second) (choose n vm _ (omega arith))

-- In a block that is not polymorphic, `select` on an `i32` and two values of one type leaves one
-- value of that type; on two values of different types it panics, where the source means to return
-- `InvalidTypeError`: the error reads the third of two operands.
pub verify_select-Selects :
    (n : ℕ) (vm : MockVm)
    → vm.stack_top ≡ suc (suc (suc n))
    → suc (suc (suc n)) ≤ length vm.stack
    → is_polymorphic vm ≡ false
    → get_or vm.stack (suc (suc n)) 0 ≡ i32
    → Selects vm n (get_or vm.stack (suc n) 0 == get_or vm.stack n 0) (verify_select vm)
unfolding verify_select ◌>>=◌ gets
verify_select-Selects n vm e s p c = rw p (select_typed-Selects n vm e s c)
