-- ===== src/Exec/Start/Tests.antt =====
-- A module with one function, `i32.const 5`, and a memory of four bytes.
use sea_pkg.Base.{ℕ, ◌≡◌, refl, [], ◌∷◌, ◌++◌, none, true, Option, take, drop, arith}
use sea_pkg.Base.Outcome.{ok}
use sea_pkg.Wasm.{i32, Module}
use sea_pkg.Exec.{Vm, Action}
use sea_pkg.Exec.Floats.Stub.{no_floats}
use sea_pkg.Exec.Loop.{CompiledFunction, compiled, Env}
use sea_pkg.Exec.Start.{empty_vm}
use sea_pkg.Exec.Process.{read_at, write_at, read_at-write_at}

abbrev five : sea_pkg.Wasm.Function
five = record {
  sig = record { param_types = i32 ∷ []; return_types = i32 ∷ [] };
  body = record { locals = record { count = 2; value_type = i32 } ∷ []; code = 0x41 ∷ 0x05 ∷ [] };
}

abbrev module_five : Module
module_five = record {
  types = none;
  function = none;
  table = none;
  memory = none;
  start = none;
  code = none;
  function_index_space = five ∷ [];
  global_index_space = [];
  global = none;
  elements = none;
  data_ = none;
  table_index_space = [];
  linear_memory_index_space = [];
  imported_funcs = [];
}

abbrev no_action : ℕ → Option (Action (Unit {0}))
no_action _ = none

abbrev compiled_five : CompiledFunction
compiled_five = record {
  code = 0x41 ∷ 5 ∷ 0 ∷ 0 ∷ 0 ∷ 1 ∷ [];
  branch_tables = [];
  max_depth = 1;
  total_local_vars = 3;
  args = 1;
  returns = true;
}

abbrev env_five : Env
env_five = record {
  funcs = compiled compiled_five ∷ [];
  types = [];
  tables = [];
  signatures = five.sig ∷ [];
  floats = no_floats;
}

abbrev vm_five : Vm
vm_five = empty_vm (1 ∷ 2 ∷ 3 ∷ 4 ∷ []) []

-- Only the first of three bytes has room.
read_at-write_at_example :
    (vm' : Vm) × (vm' ≡ record vm_five {
      memory =
          take 3 (1 ∷ 2 ∷ 3 ∷ 4 ∷ []) ++ (take 1 (7 ∷ 8 ∷ 9 ∷ []) ++ drop 4 (1 ∷ 2 ∷ 3 ∷ 4 ∷ []));
    })
    × (write_at (7 ∷ 8 ∷ 9 ∷ []) 3 vm_five ≡ ok (vm', 1, true))
    × (read_at (0 ∷ 0 ∷ 0 ∷ []) 3 vm' ≡ ok (7 ∷ 0 ∷ 0 ∷ [], 1, true))
read_at-write_at_example =
    read_at-write_at (7 ∷ 8 ∷ 9 ∷ []) (0 ∷ 0 ∷ 0 ∷ []) 3 vm_five (omega arith) refl
