-- ===== src/Validate/Tests.antt =====
-- The validator on `func (param i32) (result i32) local.get 0; i32.const 2; i32.add`.
use sea_pkg.Base.{ℕ, ◌≡◌, refl, List, [], ◌∷◌, length, arith, some, none, true, false}
use sea_pkg.Base.Outcome.{ok}
use sea_pkg.Wasm.{FunctionSig, FunctionBody, Module, i32, i64}
use sea_pkg.Operators.{Op}
use sea_pkg.Validate.{MockVm, adjust_stack, is_polymorphic}
use sea_pkg.Validate.Body.{verify_select, verify_body, verify_module}
use sea_pkg.Validate.Safety.{Ends, ModuleEnds, verify_body-Ends, verify_module-Ends}
use sea_pkg.Validate.Typing.{live, strip, with_result, adjust_stack-Applies}
use sea_pkg.Validate.Select.{Selects, verify_select-Selects}

abbrev add_two : FunctionSig
add_two = record { param_types = i32 ∷ []; return_types = i32 ∷ [] }

abbrev add_two_body : FunctionBody
add_two_body = record { locals = []; code = 0x20 ∷ 0 ∷ 0x41 ∷ 2 ∷ 0x6a ∷ [] }

abbrev add_module : Module
add_module = record {
  types = some (add_two ∷ []);
  function = some (0 ∷ []);
  table = none;
  code = some (add_two_body ∷ []);
  function_index_space = record { sig = add_two; body = add_two_body } ∷ [];
  global_index_space = [];
  global = none;
  memory = none;
  start = none;
  elements = none;
  data_ = none;
  table_index_space = [];
  linear_memory_index_space = [];
  imported_funcs = [];
}

-- A machine with the operands `xs`, the first at the bottom.
abbrev machine : List ℕ → MockVm
machine xs = record {
  stack = xs;
  stack_top = length xs;
  orig_length = 1;
  code = 0x6a ∷ [];
  polymorphic = false;
  blocks = [];
  cur_func = add_two;
}

abbrev i32_add_op : Op
i32_add_op = record {
  code = 0x6a;
  name = "i32.add";
  polymorphic = false;
  args = i32 ∷ i32 ∷ [];
  returns = i32;
}

verify_body-Ends_example :
    Ends add_module (length add_two_body.code) (verify_body add_two add_two_body add_module)
verify_body-Ends_example = verify_body-Ends add_two add_two_body add_module

verify_module-Ends_example :
    ModuleEnds add_module 0 add_module.function_index_space (verify_module add_module)
verify_module-Ends_example = verify_module-Ends add_module

adjust_stack-Applies_example :
    (vm' : MockVm) × (adjust_stack i32_add_op (machine (i64 ∷ i32 ∷ i32 ∷ [])) ≡ ok (tt, vm'))
    × (live vm' ≡ i32 ∷ i64 ∷ [])
    × (vm'.blocks ≡ [])
    × (vm'.code ≡ 0x6a ∷ [])
unfolding strip with_result is_polymorphic
adjust_stack-Applies_example =
    adjust_stack-Applies i32_add_op (machine (i64 ∷ i32 ∷ i32 ∷ [])) (omega arith) refl

verify_select-Selects_example :
    Selects (machine (i64 ∷ i64 ∷ i32 ∷ [])) 0 true (verify_select (machine (i64 ∷ i64 ∷ i32 ∷ [])))
unfolding is_polymorphic
verify_select-Selects_example =
    verify_select-Selects 0 (machine (i64 ∷ i64 ∷ i32 ∷ [])) refl (omega arith) refl refl
