-- ===== src/Exec/Start.antt =====
-- wagon/exec/vm.go: `NewVM` and `ExecCode`. Which functions of the module are host functions, and
-- what they do, is a parameter. The VM after an error or a panic is not looked at.
mod Tests
use sea_pkg.Base.{
  ℕ, zero, suc, ◌+◌, ◌-◌, ◌*◌, ◌%◌, ◌^◌, List, [], ◌∷◌, ◌++◌, map, Bool, true, false, not, Option,
  none, some, ◌==◌, leb, ltb, if◌then◌else◌, length, get_elem?, replicate,
}
use sea_pkg.Base.Outcome.{Outcome, ok, err, panic, Fault, index_range, nil_pointer, ◌>>=◌}
use sea_pkg.Base.Words.{extend_s}
use sea_pkg.Wasm.{i32, i64, f32, f64, FunctionSig, LocalEntry, GlobalEntry, Module, get_function}
use sea_pkg.Wasm.Init.{ModuleError, Value, int32, int64, float32, float64, exec_init_expr}
use sea_pkg.Base.Lists.{copy}
use sea_pkg.Wasm.Spaces.{entries_of}
use sea_pkg.Disasm.{DisasmError, Disassembly}
use sea_pkg.Disasm.Body.{disassemble}
use sea_pkg.Compile.{CompileFault}
use sea_pkg.Compile.Body.{compile}
use sea_pkg.Exec.{Vm, Trap, not_compiled, exhausted, Action}
use sea_pkg.Exec.Floats.{Floats}
use sea_pkg.Exec.Loop.{CompiledFunction, Function, compiled, host, Env, exec_code}

-- The errors of both functions, those that `ExecCode` recovers from panics included. `panicked` is
-- a panic of the interpreter, and `of_compile` one of the compiler.
pub data VmError : Type 0 where
  multiple_linear_memories invalid_argument_count : VmError
  invalid_function_index invalid_return_type : ℕ → VmError
  of_disasm : DisasmError → VmError
  of_compile : CompileFault → VmError
  of_init : ModuleError → VmError
  panicked recovered : Trap → VmError
  recovered_fault : Fault → VmError

abbrev pub VmResult {ℓ} : Type ℓ → Type ℓ
VmResult A = Outcome VmError A

abbrev pub with_error : {E A : Type 0} → (E → VmError) → Outcome E A → VmResult A
with_error f (ok a) = ok a
with_error f (err e) = err (f e)
with_error f (panic p) = panic p

abbrev pub count_locals : List LocalEntry → ℕ
count_locals [] = 0
count_locals (e ∷ es) = e.count + count_locals es

-- The tables of the compiler are those of the interpreter.
unfoldable pub compiled_target : sea_pkg.Compile.Target → sea_pkg.Exec.Loop.Target
compiled_target t = record {
  addr = t.addr;
  discard = t.discard;
  preserve_top = t.preserve_top;
  return_ = t.return_;
}

unfoldable pub compiled_table : sea_pkg.Compile.BranchTable → sea_pkg.Exec.Loop.BranchTable
compiled_table t = record {
  targets = map compiled_target t.targets;
  default_target = compiled_target t.default_target;
}

unfoldable pub compiled_function : Module → sea_pkg.Wasm.Function → VmResult CompiledFunction
compiled_function m fn = do
  disassembly ← with_error of_disasm (disassemble fn m)
  (code, tables) ← with_error of_compile (compile disassembly.code)
  ok (record {
    code = code;
    branch_tables = map compiled_table tables;
    max_depth = disassembly.max_depth;
    total_local_vars = length fn.sig.param_types + count_locals fn.body.locals;
    args = length fn.sig.param_types;
    returns = not (length fn.sig.return_types == 0);
  })

-- The functions from the index `i` on.
unfoldable pub new_funcs :
    (ℕ → Option (Action (Unit {0})))
    → Module
    → ℕ
    → List sea_pkg.Wasm.Function
    → VmResult (List Function)
new_funcs hosts m i [] = ok []
new_funcs hosts m i (fn ∷ fns) =
    let rest = new_funcs hosts m (suc i) fns in
    elim (hosts i) [
      | some act ↦ rest >>= λ funcs. ok (host act ∷ funcs)
      | none ↦ compiled_function m fn >>= λ cf. rest >>= λ funcs. ok (compiled cf ∷ funcs)
    ]

-- A global whose expression yields no value stays 0.
abbrev pub global_value : Option Value → ℕ
global_value none = 0
global_value (some (int32 v)) = extend_s 32 64 v
global_value (some (int64 v)) = v
global_value (some (float32 v)) = v
global_value (some (float64 v)) = v

unfoldable pub new_globals : Module → List GlobalEntry → VmResult (List ℕ)
new_globals m [] = ok []
new_globals m (g ∷ gs) = do
  val ← with_error of_init (exec_init_expr m g.init)
  globals ← new_globals m gs
  ok (global_value val ∷ globals)

abbrev pub memory_of : List ℕ → List (List ℕ) → VmResult (List ℕ)
memory_of [] space = ok []
memory_of (initial ∷ []) [] = panic (index_range 0 0)
memory_of (initial ∷ []) (content ∷ _) = ok (copy (replicate (initial * 65536) 0) content)
memory_of (_ ∷ _ ∷ _) space = err multiple_linear_memories

-- `context` at the start of a function: the stack is new where it is too short.
unfoldable pub start_function : CompiledFunction → ℕ → List ℕ → Vm → Vm
start_function cf index locals vm = record vm {
  stack = if ltb (length vm.stack) cf.max_depth then [] else vm.stack;
  locals = locals;
  pc = 0;
  code = cf.code;
  cur_func = index;
}

-- The arguments in new locals.
unfoldable pub with_args : List ℕ → ℕ → VmResult (List ℕ)
with_args args total =
    if leb (length args) total
    then ok (args ++ replicate (total - length args) 0)
    else panic (index_range total total)

abbrev pub found_at {ℓ} : {A : Type ℓ} → Fault → Option A → VmResult A
found_at p none = panic p
found_at p (some a) = ok a

abbrev pub compiled_of : Function → VmResult CompiledFunction
compiled_of (compiled cf) = ok cf
compiled_of (host act) = err (panicked not_compiled)

abbrev pub return_value : List ℕ → ℕ → VmResult Value
return_value [] res = panic (index_range 0 0)
return_value (t ∷ _) res =
    if t == i32
    then ok (int32 (res % 2 ^ 32))
    else if t == i64
    then ok (int64 res)
    else if t == f32
    then ok (float32 (res % 2 ^ 32))
    else if t == f64
    then ok (float64 res)
    else err (invalid_return_type t)

unfoldable pub return_of : FunctionSig → CompiledFunction → ℕ × Vm → VmResult (Option Value × Vm)
return_of sig cf (res, vm) =
    if cf.returns
    then (return_value sig.return_types res >>= λ v. ok (some v, vm))
    else ok (none, vm)

-- `ExecCode` without its deferred function, for an index that is not negative.
unfoldable pub exec_checked : Env → Module → ℕ → ℕ → List ℕ → Vm → VmResult (Option Value × Vm)
exec_checked env m fuel fn_index args vm =
    if ltb (length env.funcs) fn_index
    then err (invalid_function_index fn_index)
    else found_at nil_pointer (get_function m fn_index) >>= λ fn.
        if not (length fn.sig.param_types == length args)
        then err invalid_argument_count
        else found_at (index_range fn_index (length env.funcs)) (get_elem? env.funcs fn_index)
          >>= λ f. compiled_of f >>= λ cf. with_args args cf.total_local_vars >>= λ locals.
              with_error panicked (exec_code env fuel cf (start_function cf fn_index locals vm))
              >>= return_of fn.sig cf

-- The deferred function: `exhausted` is no panic.
abbrev pub recover : {A : Type 0} → Bool → VmResult A → VmResult A
recover false r = r
recover true (ok a) = ok a
recover true (err (panicked exhausted)) = err (panicked exhausted)
recover true (err (panicked t)) = err (recovered t)
recover true (err e) = err e
recover true (panic p) = err (recovered_fault p)

unfoldable pub exec_code_at :
    Env → Module → Bool → ℕ → ℕ → List ℕ → Vm → VmResult (Option Value × Vm)
exec_code_at env m recover_panic fuel fn_index args vm =
    recover recover_panic (exec_checked env m fuel fn_index args vm)

-- What the interpreter reads of the module.
unfoldable pub new_env : Floats → Module → List Function → Env
new_env floats m funcs = record {
  funcs = funcs;
  types = entries_of m.types;
  tables = m.table_index_space;
  signatures = map (λ (fn : sea_pkg.Wasm.Function). fn.sig) m.function_index_space;
  floats = floats;
}

abbrev pub empty_vm : List ℕ → List ℕ → Vm
empty_vm memory globals = record {
  stack = [];
  locals = [];
  code = [];
  pc = 0;
  globals = globals;
  memory = memory;
  cur_func = 0;
  recursive_call_depth = 0;
  abort = false;
}

abbrev pub run_start : Env → Module → ℕ → Option ℕ → Vm → VmResult (Env × Vm)
run_start env m fuel none vm = ok (env, vm)
run_start env m fuel (some index) vm =
    exec_code_at env m false fuel index [] vm >>= λ r. ok (env, r.1)

unfoldable pub new_vm : Floats → (ℕ → Option (Action (Unit {0}))) → ℕ → Module → VmResult (Env × Vm)
new_vm floats hosts fuel m = do
  memory ← memory_of (entries_of m.memory) m.linear_memory_index_space
  funcs ← new_funcs hosts m 0 m.function_index_space
  globals ← new_globals m m.global_index_space
  run_start (new_env floats m funcs) m fuel m.start (empty_vm memory globals)
