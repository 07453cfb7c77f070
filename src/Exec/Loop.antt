-- ===== src/Exec/Loop.antt =====
-- wagon/exec/vm.go, func.go and call.go: the loop of `execCode` and the calls of functions.
-- Float arithmetic and the host functions are parameters of the environment. A count of entries
-- to discard is not negative: the compiler writes the difference of two heights.
pub mod Calls
use sea_pkg.Base.{
  ℕ, zero, suc, ◌+◌, ◌-◌, ◌%◌, ◌^◌, List, [], ◌∷◌, ◌++◌, Bool, true, false, not, ◌&&◌, ◌||◌,
}
use sea_pkg.Base.{
  ◌==◌, leb, ltb, if◌then◌else◌, length, get_elem?, set, drop, replicate, Option, none, some,
}
use sea_pkg.Base.Outcome.{ok, err, panic, index_range, slice_bounds, nil_pointer}
use sea_pkg.Base.Words.{is_neg}
use sea_pkg.Wasm.{FunctionSig}
use sea_pkg.Exec.{
  Vm, Trap, signature_mismatch, undefined_element, call_limit, not_compiled, exhausted, Result,
  Action, continue, ◌>>=◌, ◌>>◌, pure, trap, fault, gets, pop_uint64, pop_uint32, pop_int32,
  push_uint64, fetch_int8, fetch_bool, fetch_uint32, fetch_int64,
}
use sea_pkg.Exec.Variables.{stack_top}
use sea_pkg.Exec.Floats.{Floats}
use sea_pkg.Exec.Table.{operator}

pub record Target : Type 0 where
  pub addr : ℕ
  pub discard : ℕ
  pub preserve_top : Bool
  pub return_ : Bool

pub record BranchTable : Type 0 where
  pub targets : List Target
  pub default_target : Target

pub record CompiledFunction : Type 0 where
  pub code : List ℕ
  pub branch_tables : List BranchTable
  pub max_depth : ℕ
  pub total_local_vars : ℕ
  pub args : ℕ
  pub returns : Bool

-- A `goFunction` is run by the environment.
pub data Function : Type 0 where
  compiled : CompiledFunction → Function
  host : Action (Unit {0}) → Function

-- The functions of the VM; of the module, the types, the tables and the functions' signatures; and
-- float arithmetic.
pub record Env : Type 0 where
  pub funcs : List Function
  pub types : List FunctionSig
  pub tables : List (List ℕ)
  pub signatures : List FunctionSig
  pub floats : Floats

unfoldable pub set_pc : ℕ → Action (Unit {0})
set_pc target vm = ok (tt, record vm { pc = target })

-- `stack[:len(stack)-place]`
unfoldable pub discard_entries : ℕ → Action (Unit {0})
discard_entries place vm =
    if leb place (length vm.stack)
    then ok (tt, record vm { stack = drop place vm.stack })
    else panic (slice_bounds place (length vm.stack))

unfoldable pub unwind : Bool → ℕ → Action (Unit {0})
unfolding discard_entries
unwind preserve place =
    if preserve
    then (stack_top >>= λ top. discard_entries place >> push_uint64 top)
    else discard_entries place

-- What a round of the loop leaves to do: whether the loop goes on.
unfoldable pub jump : Action Bool
jump = do target ← fetch_int64; set_pc target; pure true

unfoldable pub jump_if_zero : Action Bool
jump_if_zero = do
  target ← fetch_int64
  c ← pop_uint32
  if c == 0 then set_pc target >> pure true else pure true

unfoldable pub jump_if_nonzero : Action Bool
jump_if_nonzero = do
  target ← fetch_int64
  preserve ← fetch_bool
  place ← fetch_int64
  c ← pop_uint32
  if c == 0 then pure true else set_pc target >> (unwind preserve place >> pure true)

unfoldable pub branch_to : Target → Action Bool
branch_to t =
    if t.return_
    then pure false
    else set_pc t.addr >> (unwind t.preserve_top t.discard >> pure true)

-- The target of a label, an `int32`: the default is for a label that is negative or too large.
unfoldable pub choose_target : BranchTable → ℕ → Target
choose_target table label = elim (get_elem? table.targets label) [
  | none ↦ table.default_target
  | some t ↦ t
]

unfoldable pub entry : {A : Type 0} → List A → ℕ → Action A
entry xs i = elim (get_elem? xs i) [ none ↦ fault (index_range i (length xs)) | some x ↦ pure x ]

unfoldable pub table_of : Function → ℕ → Action BranchTable
table_of (host _) index = trap not_compiled
table_of (compiled cf) index = entry cf.branch_tables index

unfoldable pub branch_table : Env → Action Bool
branch_table env = do
  index ← fetch_int64
  label ← pop_int32
  cur ← gets (λ vm. vm.cur_func)
  f ← entry env.funcs cur
  table ← table_of f index
  branch_to (choose_target table label)

unfoldable pub discard_op : Action Bool
discard_op = do place ← fetch_int64; discard_entries place; pure true

unfoldable pub discard_preserve_top : Action Bool
discard_preserve_top = do
  top ← stack_top
  place ← fetch_int64
  discard_entries place
  push_uint64 top
  pure true

-- `vm.funcs[index].call(vm, int64(index))`, where `run` runs a compiled function.
unfoldable pub call_function :
    Env → (CompiledFunction → ℕ → Action (Unit {0})) → ℕ → Action (Unit {0})
call_function env run index = elim (get_elem? env.funcs index) [
  | none ↦ fault (index_range index (length env.funcs))
  | some (host act) ↦ act
  | some (compiled cf) ↦ run cf index
]

unfoldable pub call : Env → (CompiledFunction → ℕ → Action (Unit {0})) → Action (Unit {0})
call env run = fetch_uint32 >>= call_function env run

abbrev pub same_types : List ℕ → List ℕ → Bool
same_types [] [] = true
same_types [] (_ ∷ _) = false
same_types (_ ∷ _) [] = false
same_types (a ∷ as') (b ∷ bs) = a == b && same_types as' bs

unfoldable pub check_signature : FunctionSig → FunctionSig → Action (Unit {0})
check_signature expect actual =
    if same_types expect.param_types actual.param_types
      && same_types expect.return_types actual.return_types
    then pure tt
    else trap signature_mismatch

unfoldable pub table_element : Env → ℕ → Action ℕ
table_element env i = do
  table ← entry env.tables 0
  elim (get_elem? table i) [ none ↦ trap undefined_element | some e ↦ pure e ]

unfoldable pub call_indirect : Env → (CompiledFunction → ℕ → Action (Unit {0})) → Action (Unit {0})
call_indirect env run = do
  index ← fetch_uint32
  expect ← entry env.types index
  reserved ← fetch_uint32
  table_index ← pop_uint32
  elem_index ← table_element env table_index
  actual ← entry env.signatures elem_index
  check_signature expect actual
  call_function env run elem_index

-- `vm.funcTable[op]()`
unfoldable pub table_op : Env → (CompiledFunction → ℕ → Action (Unit {0})) → ℕ → Action (Unit {0})
table_op env run op =
    if op == 0x10
    then call env run
    else if op == 0x11
    then call_indirect env run
    else elim (operator env.floats op) [ some act ↦ act | none ↦ fault nil_pointer ]

-- One round of the loop on the opcode `op`.
unfoldable pub exec_op : Env → (CompiledFunction → ℕ → Action (Unit {0})) → ℕ → Action Bool
exec_op env run op =
    if op == 0x0f
    then pure false
    else if op == 0x0c
    then jump
    else if op == 0x03
    then jump_if_zero
    else if op == 0x0d
    then jump_if_nonzero
    else if op == 0x0e
    then branch_table env
    else if op == 0x0b
    then discard_op
    else if op == 0x05
    then discard_preserve_top
    else table_op env run op >> pure true

unfoldable pub step : Env → (CompiledFunction → ℕ → Action (Unit {0})) → Action Bool
step env run = fetch_int8 >>= exec_op env run

-- `int(vm.ctx.pc) < len(vm.ctx.code) && !vm.abort`, for a `pc` that is an `int64`.
unfoldable pub goes_on : Vm → Bool
goes_on vm = (is_neg 64 vm.pc || ltb vm.pc (length vm.code)) && not vm.abort

abbrev pub round : Result Bool → Action (Unit {0}) → Result (Unit {0})
round (ok (true, vm)) again = again vm
round (ok (false, vm)) again = ok (tt, vm)
round (err e) again = err e
round (panic p) again = panic p

-- `locals[i] = v`
unfoldable pub set_arg : ℕ → ℕ → List ℕ → Action (List ℕ)
set_arg i v locals =
    if ltb i (length locals) then pure (set locals i v) else fault (index_range i (length locals))

-- The locals of a callee: the arguments, popped last to first, and zeros.
unfoldable pub pop_args : ℕ → List ℕ → Action (List ℕ)
unfolding set_arg
pop_args zero locals = pure locals
pop_args (suc i) locals = pop_uint64 >>= λ v. set_arg i v locals >>= pop_args i

-- The context of a callee, and that of its caller put back.
unfoldable pub enter : CompiledFunction → ℕ → List ℕ → Vm → Vm
enter cf index locals vm = record vm {
  stack = replicate cf.max_depth 0;
  locals = locals;
  code = cf.code;
  pc = 0;
  cur_func = index;
}

unfoldable pub leave : Vm → Vm → Vm
leave caller vm = record vm {
  stack = caller.stack;
  locals = caller.locals;
  code = caller.code;
  pc = caller.pc;
  cur_func = caller.cur_func;
}

-- The value of `execCode` behind its loop.
unfoldable pub returned : CompiledFunction → Action ℕ
returned cf = if cf.returns then stack_top else pure 0

unfoldable pub depth_by : (ℕ → ℕ) → Action (Unit {0})
depth_by f vm = ok (tt, record vm { recursive_call_depth = f vm.recursive_call_depth })

-- `compiledFunction.call`, where `loop` is the loop of `execCode`.
unfoldable pub run_compiled : Action (Unit {0}) → CompiledFunction → ℕ → Action (Unit {0})
run_compiled loop cf index = do
  depth_by (λ d. d + 1)
  locals ← pop_args cf.args (replicate cf.total_local_vars 0)
  caller ← gets (λ vm. vm)
  (λ vm. ok (tt, enter cf index locals vm))
  loop
  rtrn ← returned cf
  (λ vm. ok (tt, leave caller vm))
  if cf.returns then push_uint64 rtrn else pure tt
  depth_by (λ d. d - 1)

-- The loop of `execCode`, on fuel for the rounds and the calls together.
unfoldable pub exec_loop : Env → ℕ → Action (Unit {0})
exec_loop env zero vm = err exhausted
exec_loop env (suc fuel) vm = elim (goes_on vm) [
  | false ↦ ok (tt, vm)
  | true ↦ elim (ltb 1024 vm.recursive_call_depth) [
    | true ↦ err call_limit
    | false ↦ round (step env (run_compiled (exec_loop env fuel)) vm) (exec_loop env fuel)
  ]
]

unfoldable pub exec_code : Env → ℕ → CompiledFunction → Action ℕ
exec_code env fuel cf = exec_loop env fuel >> returned cf
