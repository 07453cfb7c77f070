-- ===== src/Exec/Loop/Calls.antt =====
-- A call of a compiled function and the context of its caller.
use sea_pkg.Base.{
  ℕ, zero, suc, ◌+◌, ◌-◌, ◌≤◌, ◌≡◌, refl, ◌∙◌, List, [], ◌∷◌, ◌++◌, arith, length, set, replicate,
}
use sea_pkg.Base.{
  ltb, true, if◌then◌else◌, get_elem?, length-set, get_elem?-set_self, get_elem?-set_ne,
  length-replicate,
}
use sea_pkg.Base.{inl, inr, Bool-cases, leb, false, ap, ◌<◌}
use mathlib.Core.Path.{subst}
use sea_pkg.Base.Outcome.{panic, index_range, ok}
use sea_pkg.Exec.{fault, Vm, Action, ◌>>=◌, pure, gets, pop_from, pop_uint64, push_uint64}
use sea_pkg.Exec.Loop.{
  CompiledFunction, set_arg, pop_args, enter, leave, returned, depth_by, run_compiled,
}

-- The locals with the operands `xs`, the top first, as the arguments: the last argument on top.
abbrev pub with_args : List ℕ → List ℕ → List ℕ
with_args [] locals = locals
with_args (x ∷ xs) locals = with_args xs (set locals (length xs) x)

pop_args-with_args :
    (xs rest locals : List ℕ) (vm : Vm)
    → vm.stack ≡ xs ++ rest
    → length xs ≤ length locals
    → pop_args (length xs) locals vm ≡ ok (with_args xs locals, record vm { stack = rest })
unfolding pop_args set_arg ◌>>=◌ pure pop_uint64
pop_args-with_args [] rest locals vm e h = ground (arith, e)
pop_args-with_args (x ∷ xs) rest locals vm e h =
    let fits : ltb (length xs) (length locals) ≡ true = ground arith in
    rw (e, pop_from, fits)
      (pop_args-with_args xs rest (set locals (length xs) x) (record vm { stack = xs ++ rest }) refl
        (omega (arith, h, length-set locals (length xs) x)))

-- The machine that a callee starts from.
abbrev pub callee : CompiledFunction → ℕ → List ℕ → List ℕ → Vm → Vm
callee cf index xs rest vm =
    enter cf index (with_args xs (replicate cf.total_local_vars 0))
      (record vm { stack = rest; recursive_call_depth = vm.recursive_call_depth + 1 })

abbrev deeper : Vm → Vm
deeper vm = record vm { recursive_call_depth = vm.recursive_call_depth + 1 }

popped :
    (cf : CompiledFunction) (xs rest : List ℕ) (vm : Vm)
    → length xs ≡ cf.args
    → cf.args ≤ cf.total_local_vars
    → vm.stack ≡ xs ++ rest
    → pop_args cf.args (replicate cf.total_local_vars 0) (deeper vm)
      ≡ ok (with_args xs (replicate cf.total_local_vars 0), record (deeper vm) { stack = rest })
popped cf xs rest vm h fits e =
    let locals : List ℕ = replicate cf.total_local_vars 0 in
    subst
      (λ n.
        pop_args n locals (deeper vm)
        ≡ ok (with_args xs locals, record (deeper vm) { stack = rest }))
      h
      (pop_args-with_args xs rest locals (deeper vm) e
        (omega (arith, h, fits, length-replicate {A = ℕ} cf.total_local_vars 0)))

-- A function with more arguments than locals: the first write of an argument is out of range.
pop_args_past :
    (xs rest locals : List ℕ) (vm : Vm)
    → vm.stack ≡ xs ++ rest
    → length locals < length xs
    → pop_args (length xs) locals vm ≡ panic (index_range (length xs - 1) (length locals))
unfolding pop_args set_arg ◌>>=◌ pop_uint64 fault
pop_args_past [] rest locals vm e h = absurd (omega arith)
pop_args_past (x ∷ xs) rest locals vm e h =
    let outside : ltb (length xs) (length locals) ≡ false = ground arith in
    let last : suc (length xs) - 1 ≡ length xs = omega arith in rw (e, pop_from, outside, last) refl

past :
    (cf : CompiledFunction) (xs rest : List ℕ) (vm : Vm)
    → length xs ≡ cf.args
    → cf.total_local_vars < cf.args
    → vm.stack ≡ xs ++ rest
    → pop_args cf.args (replicate cf.total_local_vars 0) (deeper vm)
      ≡ panic (index_range (cf.args - 1) cf.total_local_vars)
past cf xs rest vm h more e =
    let locals : List ℕ = replicate cf.total_local_vars 0 in
    let size : length locals ≡ cf.total_local_vars = length-replicate cf.total_local_vars 0 in
    subst (λ n. pop_args n locals (deeper vm) ≡ panic (index_range (n - 1) cf.total_local_vars)) h
      (pop_args_past xs rest locals (deeper vm) e (omega (arith, h, more, size))
        ∙ ap (λ n. panic (index_range (length xs - 1) n)) size)

-- Where the callee's loop ends and its result can be read, the call returns: the operands `xs` of
-- the caller have given way to the result, if there is one, the globals and the memory are those
-- that the callee left, and the depth is one less than the callee left it. A function with more
-- arguments than locals, which `NewVM` does not make, panics.
pub run_compiled-returned :
    (loop : Action (Unit {0})) (cf : CompiledFunction) (index : ℕ) (xs rest : List ℕ)
    (vm vm' vm'' : Vm) (r : ℕ)
    → length xs ≡ cf.args
    → vm.stack ≡ xs ++ rest
    → loop (callee cf index xs rest vm) ≡ ok (tt, vm')
    → returned cf vm' ≡ ok (r, vm'')
    → run_compiled loop cf index vm ≡ (
        if leb cf.args cf.total_local_vars
        then ok (
          tt,
          record vm'' {
            stack = if cf.returns then r ∷ rest else rest;
            locals = vm.locals;
            code = vm.code;
            pc = vm.pc;
            cur_func = vm.cur_func;
            recursive_call_depth = vm''.recursive_call_depth - 1;
          },
        )
        else panic (index_range (cf.args - 1) cf.total_local_vars))
unfolding run_compiled ◌>>=◌ depth_by gets push_uint64 pure leave
run_compiled-returned loop cf index xs rest vm vm' vm'' r h e l t =
    elim (Bool-cases (leb cf.args cf.total_local_vars)) [
      | inl room ↦
          let fits : cf.args ≤ cf.total_local_vars = ground arith in
          rw (room, popped cf xs rest vm h fits e, l, t)
            elim (Bool-cases cf.returns) [
              | inl some_result ↦ rw some_result refl
              | inr no_result ↦ rw no_result refl
            ]
      | inr none_left ↦
          let more : cf.total_local_vars < cf.args = ground arith in
          rw (none_left, past cf xs rest vm h more e) refl
    ]

length-with_args : (xs locals : List ℕ) → length (with_args xs locals) ≡ length locals
length-with_args [] locals = refl
length-with_args (x ∷ xs) locals =
    length-with_args xs (set locals (length xs) x) ∙ length-set locals (length xs) x

with_args_above :
    (xs locals : List ℕ) (i : ℕ)
    → length xs ≤ i
    → get_elem? (with_args xs locals) i ≡ get_elem? locals i
with_args_above [] locals i h = refl
with_args_above (x ∷ xs) locals i h =
    with_args_above xs (set locals (length xs) x) i (omega arith)
    ∙ get_elem?-set_ne locals x (omega arith)

with_args_get :
    (xs locals : List ℕ) (i j : ℕ)
    → length xs ≤ length locals
    → i + j + 1 ≡ length xs
    → get_elem? (with_args xs locals) i ≡ get_elem? xs j
with_args_get [] locals i j h e = absurd (omega arith)
with_args_get (x ∷ xs) locals i zero h e =
    let last : i ≡ length xs = omega arith in
    with_args_above xs (set locals (length xs) x) i (omega arith)
    ∙ rw last (get_elem?-set_self locals (length xs) x (omega arith))
with_args_get (x ∷ xs) locals i (suc j) h e =
    with_args_get xs (set locals (length xs) x) i j
      (omega (arith, length-set {0} locals (length xs) x)) (omega arith)

-- The callee finds the operand on top of the caller's stack as its last argument, the one below as
-- the one before, and zeros in its other locals.
pub pop_args-arguments :
    (xs rest : List ℕ) (n : ℕ) (vm : Vm)
    → vm.stack ≡ xs ++ rest
    → length xs ≤ n
    → (ls : List ℕ) × (pop_args (length xs) (replicate n 0) vm
        ≡ ok (ls, record vm { stack = rest }))
      × (length ls ≡ n)
      × ((i j : ℕ) → i + j + 1 ≡ length xs → get_elem? ls i ≡ get_elem? xs j)
      × ((i : ℕ) → length xs ≤ i → get_elem? ls i ≡ get_elem? (replicate n 0) i)
pop_args-arguments xs rest n vm e h = (
  with_args xs (replicate n 0),
  pop_args-with_args xs rest (replicate n 0) vm e (omega (arith, h, length-replicate {A = ℕ} n 0)),
  length-with_args xs (replicate n 0) ∙ length-replicate n 0,
  λ i j s. with_args_get xs (replicate n 0) i j (omega (arith, length-replicate {A = ℕ} n 0)) s,
  λ i le. with_args_above xs (replicate n 0) i le,
)
