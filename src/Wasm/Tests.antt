-- ===== src/Wasm/Tests.antt =====
-- An expression, and segments within a table and over its end.
use sea_pkg.Base.{ℕ, ◌≡◌, refl, List, [], ◌∷◌, none}
use sea_pkg.Base.Outcome.{ok}
use sea_pkg.Leb128.{read_var_uint32}
use sea_pkg.Wasm.{i32, Module, get_global}
use sea_pkg.Wasm.Init.{
  read_operand, read_init_expr, type_of, pushed, exec_init_loop, exec_init_expr,
}
use sea_pkg.Wasm.Spaces.{place}
use sea_pkg.Wasm.Segments.{place-segment}
use sea_pkg.Wasm.Accepts.{Accepts, read_init_expr-Accepts}

abbrev empty_module : Module
empty_module = record {
  types = none;
  function = none;
  table = none;
  code = none;
  function_index_space = [];
  global_index_space = [];
  global = none;
  memory = none;
  start = none;
  elements = none;
  data_ = none;
  table_index_space = [];
  linear_memory_index_space = [];
  imported_funcs = [];
}

-- `i32.const 5; end`, and two bytes behind it.
abbrev const_five : List ℕ
const_five = 0x41 ∷ 0x05 ∷ 0x0b ∷ 0x01 ∷ 0x02 ∷ []

read_init_expr-Accepts_example : Accepts empty_module const_five (read_init_expr const_five)
read_init_expr-Accepts_example = read_init_expr-Accepts empty_module const_five

-- The old 3 stays where the segment has 7.
place-segment_example : place 1 (7 ∷ 8 ∷ []) (5 ∷ 3 ∷ []) ≡ ok (5 ∷ 3 ∷ 8 ∷ [])
place-segment_example = place-segment 1 (7 ∷ 8 ∷ []) (5 ∷ 3 ∷ []) refl

-- `get_global 0; end` yields no value, though the module has the global.
abbrev one_global : Module
one_global = record empty_module {
  global_index_space = record { value_type = i32; init = 0x41 ∷ 0x05 ∷ 0x0b ∷ [] } ∷ [];
}

exec_init_expr-one_global : exec_init_expr one_global (0x23 ∷ 0x00 ∷ 0x0b ∷ []) ≡ ok none
unfolding exec_init_expr exec_init_loop read_operand type_of pushed get_global read_var_uint32
exec_init_expr-one_global = refl
