-- ===== src/Exec/Tests.antt =====
-- The interpreter at single machines.
use sea_pkg.Base.{
  ℕ, ◌≡◌, refl, List, [], ◌∷◌, length, arith, true, false, ◌⊎◌, ◌<◌, ◌≤◌, ◌+◌, get_elem?, replicate,
}
use sea_pkg.Base.Outcome.{ok, err}
use sea_pkg.Base.Bytes.{le_value}
use sea_pkg.Operators
use sea_pkg.Exec.{
  Vm, out_of_bounds_memory, ◌>>◌, ◌>>=◌, fetch_int8, fetch_uint32, push_uint64, pop_uint32,
  push_uint32,
}
use sea_pkg.Exec.Variables.{stack_top, get_local, local_at}
use sea_pkg.Exec.I32.{i32_add}
use sea_pkg.Exec.Table.{operator}
use sea_pkg.Exec.Table.Stack.{AgreesWith, operator-AgreesWith}
use sea_pkg.Exec.Linear.{check_bounds, load, store, load_at, store_at, grow_memory}
use sea_pkg.Exec.Linear.RoundTrip.{load_at-store_at}
use sea_pkg.Exec.Linear.Bounds.{guarded_load, guarded_store, grow_memory-pages, past_address}
use sea_pkg.Exec.Floats.Stub.{no_floats}
use sea_pkg.Exec.Loop.{
  Env, CompiledFunction, compiled, exec_loop, goes_on, step, exec_op, table_op, run_compiled,
  pop_args, set_arg, enter, returned,
}
use sea_pkg.Exec.Loop.Calls.{run_compiled-returned, pop_args-arguments}

-- `local.get 0; local.get 1; i32.add`
abbrev add_code : List ℕ
add_code = 0x20 ∷ 0 ∷ 0 ∷ 0 ∷ 0 ∷ 0x20 ∷ 1 ∷ 0 ∷ 0 ∷ 0 ∷ 0x6a ∷ []

abbrev add_function : CompiledFunction
add_function = record {
  code = add_code;
  branch_tables = [];
  max_depth = 2;
  total_local_vars = 2;
  args = 2;
  returns = true;
}

abbrev env : Env
env = record {
  funcs = compiled add_function ∷ [];
  types = [];
  tables = [];
  signatures = [];
  floats = no_floats;
}

-- A machine with four bytes of code, a memory of eight bytes and the operands `xs`, the top first.
abbrev machine : List ℕ → Vm
machine xs = record {
  stack = xs;
  locals = [];
  code = 2 ∷ 0 ∷ 0 ∷ 0 ∷ [];
  pc = 0;
  globals = [];
  memory = 1 ∷ 2 ∷ 3 ∷ 4 ∷ 5 ∷ 6 ∷ 7 ∷ 8 ∷ [];
  cur_func = 0;
  recursive_call_depth = 0;
  abort = false;
}

-- The machine when `add_function` has run.
abbrev callee_end : Vm
callee_end = record (machine (42 ∷ 0 ∷ 0 ∷ [])) {
  code = add_code;
  locals = 30 ∷ 12 ∷ [];
  pc = 11;
  recursive_call_depth = 1;
}

operator-AgreesWith_example : AgreesWith (Operators.new 0x6a) i32_add
unfolding operator
operator-AgreesWith_example = operator-AgreesWith no_floats 0x6a i32_add refl

guarded_load_example :
    (check_bounds 3 >> load 4) (machine (1 ∷ []))
    ≡ ok (0x07060504, past_address (machine (1 ∷ [])) [])
unfolding le_value
guarded_load_example = guarded_load (machine (1 ∷ [])) 1 [] refl (omega arith) 3

guarded_store_example :
    (check_bounds 1 >> store 2 0x1234) (machine (6 ∷ [])) ≡ err out_of_bounds_memory
unfolding le_value
guarded_store_example = guarded_store (machine (6 ∷ [])) 6 [] refl (omega arith) 1 0x1234

load_at-store_at_example :
    (vm' : Vm) × (store_at 2 0x1234 3 (machine []) ≡ ok (tt, vm'))
    × (load_at 2 3 vm' ≡ ok (0x1234, vm'))
    × (length vm'.memory ≡ 8)
    × ((j : ℕ) → (j < 3) ⊎ (3 + 2 ≤ j) → get_elem? vm'.memory j ≡ get_elem? (machine []).memory j)
load_at-store_at_example = load_at-store_at 2 0x1234 3 (machine []) (omega arith) (omega arith)

grow_memory-pages_example :
    grow_memory (machine (65536 ∷ [])) ≡ ok (tt, record (machine (0 ∷ [])) { pc = 1 })
grow_memory-pages_example =
    grow_memory-pages (machine (65536 ∷ [])) 65536 2 [] refl refl (omega arith)

run_compiled-returned_example :
    run_compiled (exec_loop env 4) add_function 0 (machine (12 ∷ 30 ∷ 7 ∷ []))
    ≡ ok (tt, machine (42 ∷ 7 ∷ []))
unfolding exec_loop operator goes_on step ◌>>=◌ fetch_int8 exec_op table_op get_local fetch_uint32
    local_at le_value push_uint64 i32_add pop_uint32 push_uint32 enter returned stack_top set_arg
run_compiled-returned_example =
    run_compiled-returned (exec_loop env 4) add_function 0 (12 ∷ 30 ∷ []) (7 ∷ [])
      (machine (12 ∷ 30 ∷ 7 ∷ [])) callee_end callee_end 42 refl refl refl refl

pop_args-arguments_example :
    (ls : List ℕ) × (pop_args 2 (replicate 3 0) (machine (12 ∷ 30 ∷ 7 ∷ []))
      ≡ ok (ls, machine (7 ∷ [])))
    × (length ls ≡ 3)
    × ((i j : ℕ) → i + j + 1 ≡ 2 → get_elem? ls i ≡ get_elem? (12 ∷ 30 ∷ []) j)
    × ((i : ℕ) → 2 ≤ i → get_elem? ls i ≡ get_elem? (replicate 3 0) i)
pop_args-arguments_example =
    pop_args-arguments (12 ∷ 30 ∷ []) (7 ∷ []) 3 (machine (12 ∷ 30 ∷ 7 ∷ [])) refl (omega arith)
