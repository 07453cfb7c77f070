-- ===== src/Exec/Table/Stack.antt =====
-- The interpreter's operators and the validator's table of operators agree on the stack.
use sea_pkg.Base.{
  ℕ, ◌≡◌, ap, List, [], ◌∷◌, ◌++◌, length, ◌==◌, if◌then◌else◌, Option, none, some, All, All-append,
  Bool-cases, inl, inr, arith,
}
use mathlib.Core.Path.{subst}
use sea_pkg.Wasm.{block_type_empty}
use sea_pkg.Operators
use sea_pkg.Operators.{Op}
use sea_pkg.Exec.{Action}
use sea_pkg.Exec.Table.{
  Row, i32_rows, i64_rows, memory_rows, variable_rows, float_rows, float_conversion_rows,
  func_table, find_row, operator,
}
use sea_pkg.Exec.Table.Effect.{Effect}
use sea_pkg.Exec.Table.Fetch.{operator_rules}
use sea_pkg.Exec.I32.{
  i32_add, i32_and, i32_clz, i32_ctz, i32_div_s, i32_div_u, i32_eq, i32_eqz, i32_ge_s, i32_ge_u,
  i32_gt_s, i32_gt_u, i32_le_s, i32_le_u, i32_lt_s, i32_lt_u, i32_mul, i32_ne, i32_or, i32_popcnt,
  i32_rem_s, i32_rem_u, i32_rotl, i32_rotr, i32_shl, i32_shr_s, i32_shr_u, i32_sub, i32_xor,
}
use sea_pkg.Exec.I64.{
  i64_add, i64_and, i64_clz, i64_ctz, i64_div_s, i64_div_u, i64_eq, i64_eqz, i64_ge_s, i64_ge_u,
  i64_gt_s, i64_gt_u, i64_le_s, i64_le_u, i64_lt_s, i64_lt_u, i64_mul, i64_ne, i64_or, i64_popcnt,
  i64_rem_s, i64_rem_u, i64_rotl, i64_rotr, i64_shl, i64_shr_s, i64_shr_u, i64_sub, i64_xor,
}
use sea_pkg.Exec.Linear.{
  current_memory, f32_load, f32_store, f64_load, f64_store, grow_memory, i32_load, i32_load16_s,
  i32_load16_u, i32_load8_s, i32_load8_u, i32_store, i32_store16, i32_store8, i64_load,
  i64_load16_s, i64_load16_u, i64_load32_s, i64_load32_u, i64_load8_s, i64_load8_u, i64_store,
  i64_store16, i64_store32, i64_store8,
}
use sea_pkg.Exec.Floats.{
  Floats, f32_eq, f32_ne, f32_lt, f32_gt, f32_le, f32_ge, f32_abs, f32_neg, f32_ceil, f32_floor,
  f32_trunc, f32_nearest, f32_sqrt, f32_add, f32_sub, f32_mul, f32_div, f32_min, f32_max,
  f32_copysign, f64_eq, f64_ne, f64_lt, f64_gt, f64_le, f64_ge, f64_abs, f64_neg, f64_ceil,
  f64_floor, f64_trunc, f64_nearest, f64_sqrt, f64_add, f64_sub, f64_mul, f64_div, f64_min, f64_max,
  f64_copysign,
}
use sea_pkg.Exec.Floats.Convert.{
  i32_trunc_s_f32, i32_trunc_u_f32, i32_trunc_s_f64, i32_trunc_u_f64, i64_trunc_s_f32,
  i64_trunc_u_f32, i64_trunc_s_f64, i64_trunc_u_f64, f32_convert_s_i32, f32_convert_u_i32,
  f32_convert_s_i64, f32_convert_u_i64, f64_convert_s_i32, f64_convert_u_i32, f64_convert_s_i64,
  f64_convert_u_i64, f32_demote_f64, f64_promote_f32,
}
use sea_pkg.Exec.Variables.{
  drop_op, f32_const, f32_reinterpret_i32, f64_const, f64_reinterpret_i64, get_global, get_local,
  i32_const, i32_reinterpret_f32, i32_wrap_i64, i64_const, i64_extend_s_i32, i64_extend_u_i32,
  i64_reinterpret_f64, nop, select_op, set_global, set_local, tee_local, unreachable_op,
}

-- The entries that an operator pushes.
abbrev pub results : Op → ℕ
results op = if op.returns == block_type_empty then 0 else 1

-- The operators of the table whose arity is not in their entry.
abbrev pub HasInstructionEffect : ℕ → Action (Unit {0}) → Type 0
HasInstructionEffect code act =
    if code == 0x1a
    then Effect 1 0 act
    else if code == 0x1b
    then Effect 3 1 act
    else if code == 0x20
    then Effect 0 1 act
    else if code == 0x21
    then Effect 1 0 act
    else if code == 0x22
    then Effect 1 1 act
    else if code == 0x23
    then Effect 0 1 act
    else if code == 0x24
    then Effect 1 0 act
    else ⊥

-- An operator takes from the stack what its entry in the table of operators names, and leaves what
-- the entry returns.
abbrev pub AgreesWith : Option Op → Action (Unit {0}) → Type 0
AgreesWith none act = ⊥
AgreesWith (some op) act =
    if op.polymorphic
    then HasInstructionEffect op.code act
    else Effect (length op.args) (results op) act

infixr 20 ◌&◌
◌&◌ : {A B : Type 0} → A → B → A × B
a & b = (a, b)

abbrev RowAgrees : Row → Type 0
RowAgrees (code, act) = AgreesWith (Operators.new code) act

i32_rows-All : All RowAgrees i32_rows
unfolding Operators.new i32_rows i32_add i32_and i32_clz i32_ctz i32_div_s i32_div_u i32_eq i32_eqz
    i32_ge_s i32_ge_u i32_gt_s i32_gt_u i32_le_s i32_le_u i32_lt_s i32_lt_u i32_mul i32_ne i32_or
    i32_popcnt i32_rem_s i32_rem_u i32_rotl i32_rotr i32_shl i32_shr_s i32_shr_u i32_sub i32_xor
i32_rows-All =
    (search operator_rules depth 9)
    & (search operator_rules depth 9)
    & (search operator_rules depth 9)
    & (search operator_rules depth 9)
    & (search operator_rules depth 9)
    & (search operator_rules depth 9)
    & (search operator_rules depth 9)
    & (search operator_rules depth 9)
    & (search operator_rules depth 9)
    & (search operator_rules depth 9)
    & (search operator_rules depth 9)
    & (search operator_rules depth 9)
    & (search operator_rules depth 9)
    & (search operator_rules depth 9)
    & (search operator_rules depth 9)
    & (search operator_rules depth 9)
    & (search operator_rules depth 9)
    & (search operator_rules depth 9)
    & (search operator_rules depth 9)
    & (search operator_rules depth 9)
    & (search operator_rules depth 9)
    & (search operator_rules depth 9)
    & (search operator_rules depth 9)
    & (search operator_rules depth 9)
    & (search operator_rules depth 9)
    & (search operator_rules depth 9)
    & (search operator_rules depth 9)
    & (search operator_rules depth 9)
    & (search operator_rules depth 9)
    & tt

i64_rows-All : All RowAgrees i64_rows
unfolding Operators.new i64_rows i64_add i64_and i64_clz i64_ctz i64_div_s i64_div_u i64_eq i64_eqz
    i64_ge_s i64_ge_u i64_gt_s i64_gt_u i64_le_s i64_le_u i64_lt_s i64_lt_u i64_mul i64_ne i64_or
    i64_popcnt i64_rem_s i64_rem_u i64_rotl i64_rotr i64_shl i64_shr_s i64_shr_u i64_sub i64_xor
i64_rows-All =
    (search operator_rules depth 9)
    & (search operator_rules depth 9)
    & (search operator_rules depth 9)
    & (search operator_rules depth 9)
    & (search operator_rules depth 9)
    & (search operator_rules depth 9)
    & (search operator_rules depth 9)
    & (search operator_rules depth 9)
    & (search operator_rules depth 9)
    & (search operator_rules depth 9)
    & (search operator_rules depth 9)
    & (search operator_rules depth 9)
    & (search operator_rules depth 9)
    & (search operator_rules depth 9)
    & (search operator_rules depth 9)
    & (search operator_rules depth 9)
    & (search operator_rules depth 9)
    & (search operator_rules depth 9)
    & (search operator_rules depth 9)
    & (search operator_rules depth 9)
    & (search operator_rules depth 9)
    & (search operator_rules depth 9)
    & (search operator_rules depth 9)
    & (search operator_rules depth 9)
    & (search operator_rules depth 9)
    & (search operator_rules depth 9)
    & (search operator_rules depth 9)
    & (search operator_rules depth 9)
    & (search operator_rules depth 9)
    & tt

memory_rows-All : All RowAgrees memory_rows
unfolding Operators.new memory_rows current_memory f32_load f32_store f64_load f64_store grow_memory
    i32_load i32_load16_s i32_load16_u i32_load8_s i32_load8_u i32_store i32_store16 i32_store8
    i64_load i64_load16_s i64_load16_u i64_load32_s i64_load32_u i64_load8_s i64_load8_u i64_store
    i64_store16 i64_store32 i64_store8
memory_rows-All =
    (search operator_rules depth 9)
    & (search operator_rules depth 9)
    & (search operator_rules depth 9)
    & (search operator_rules depth 9)
    & (search operator_rules depth 9)
    & (search operator_rules depth 9)
    & (search operator_rules depth 9)
    & (search operator_rules depth 9)
    & (search operator_rules depth 9)
    & (search operator_rules depth 9)
    & (search operator_rules depth 9)
    & (search operator_rules depth 9)
    & (search operator_rules depth 9)
    & (search operator_rules depth 9)
    & (search operator_rules depth 9)
    & (search operator_rules depth 9)
    & (search operator_rules depth 9)
    & (search operator_rules depth 9)
    & (search operator_rules depth 9)
    & (search operator_rules depth 9)
    & (search operator_rules depth 9)
    & (search operator_rules depth 9)
    & (search operator_rules depth 9)
    & (search operator_rules depth 9)
    & (search operator_rules depth 9)
    & tt

variable_rows-All : All RowAgrees variable_rows
unfolding Operators.new variable_rows drop_op f32_const f32_reinterpret_i32 f64_const
    f64_reinterpret_i64 get_global get_local i32_const i32_reinterpret_f32 i32_wrap_i64 i64_const
    i64_extend_s_i32 i64_extend_u_i32 i64_reinterpret_f64 nop select_op set_global set_local
    tee_local unreachable_op
variable_rows-All =
    (search operator_rules depth 9)
    & (search operator_rules depth 9)
    & (search operator_rules depth 9)
    & (search operator_rules depth 9)
    & (search operator_rules depth 9)
    & (search operator_rules depth 9)
    & (search operator_rules depth 9)
    & (search operator_rules depth 9)
    & (search operator_rules depth 9)
    & (search operator_rules depth 9)
    & (search operator_rules depth 9)
    & (search operator_rules depth 9)
    & (search operator_rules depth 9)
    & (search operator_rules depth 9)
    & (search operator_rules depth 9)
    & (search operator_rules depth 9)
    & (search operator_rules depth 9)
    & (search operator_rules depth 9)
    & (search operator_rules depth 9)
    & (search operator_rules depth 9)
    & tt

float_rows-All : (fl : Floats) → All RowAgrees (float_rows fl)
unfolding Operators.new float_rows f32_eq f32_ne f32_lt f32_gt f32_le f32_ge f32_abs f32_neg
    f32_ceil f32_floor f32_trunc f32_nearest f32_sqrt f32_add f32_sub f32_mul f32_div f32_min
    f32_max f32_copysign f64_eq f64_ne f64_lt f64_gt f64_le f64_ge f64_abs f64_neg f64_ceil
    f64_floor f64_trunc f64_nearest f64_sqrt f64_add f64_sub f64_mul f64_div f64_min f64_max
    f64_copysign
float_rows-All fl =
    (search operator_rules depth 9)
    & (search operator_rules depth 9)
    & (search operator_rules depth 9)
    & (search operator_rules depth 9)
    & (search operator_rules depth 9)
    & (search operator_rules depth 9)
    & (search operator_rules depth 9)
    & (search operator_rules depth 9)
    & (search operator_rules depth 9)
    & (search operator_rules depth 9)
    & (search operator_rules depth 9)
    & (search operator_rules depth 9)
    & (search operator_rules depth 9)
    & (search operator_rules depth 9)
    & (search operator_rules depth 9)
    & (search operator_rules depth 9)
    & (search operator_rules depth 9)
    & (search operator_rules depth 9)
    & (search operator_rules depth 9)
    & (search operator_rules depth 9)
    & (search operator_rules depth 9)
    & (search operator_rules depth 9)
    & (search operator_rules depth 9)
    & (search operator_rules depth 9)
    & (search operator_rules depth 9)
    & (search operator_rules depth 9)
    & (search operator_rules depth 9)
    & (search operator_rules depth 9)
    & (search operator_rules depth 9)
    & (search operator_rules depth 9)
    & (search operator_rules depth 9)
    & (search operator_rules depth 9)
    & (search operator_rules depth 9)
    & (search operator_rules depth 9)
    & (search operator_rules depth 9)
    & (search operator_rules depth 9)
    & (search operator_rules depth 9)
    & (search operator_rules depth 9)
    & (search operator_rules depth 9)
    & (search operator_rules depth 9)
    & tt

float_conversion_rows-All : (fl : Floats) → All RowAgrees (float_conversion_rows fl)
unfolding Operators.new float_conversion_rows i32_trunc_s_f32 i32_trunc_u_f32 i32_trunc_s_f64
    i32_trunc_u_f64 i64_trunc_s_f32 i64_trunc_u_f32 i64_trunc_s_f64 i64_trunc_u_f64
    f32_convert_s_i32 f32_convert_u_i32 f32_convert_s_i64 f32_convert_u_i64 f64_convert_s_i32
    f64_convert_u_i32 f64_convert_s_i64 f64_convert_u_i64 f32_demote_f64 f64_promote_f32
float_conversion_rows-All fl =
    (search operator_rules depth 9)
    & (search operator_rules depth 9)
    & (search operator_rules depth 9)
    & (search operator_rules depth 9)
    & (search operator_rules depth 9)
    & (search operator_rules depth 9)
    & (search operator_rules depth 9)
    & (search operator_rules depth 9)
    & (search operator_rules depth 9)
    & (search operator_rules depth 9)
    & (search operator_rules depth 9)
    & (search operator_rules depth 9)
    & (search operator_rules depth 9)
    & (search operator_rules depth 9)
    & (search operator_rules depth 9)
    & (search operator_rules depth 9)
    & (search operator_rules depth 9)
    & (search operator_rules depth 9)
    & tt

find_row-All :
    (op : ℕ) (rows : List Row) (act : Action (Unit {0}))
    → All RowAgrees rows
    → find_row op rows ≡ some act
    → AgreesWith (Operators.new op) act
unfolding find_row
find_row-All op [] act h e = absurd (ground arith)
find_row-All op ((code, x) ∷ rest) act (h, t) e = elim (Bool-cases (code == op)) [
  | inl same ↦
      let found : code ≡ op = ground arith in
      let first : x ≡ act = cc (e, ap (λ b. if b then some x else find_row op rest) same) in
      subst (λ c. AgreesWith (Operators.new c) act) found
        (subst (λ a. AgreesWith (Operators.new code) a) first h)
  | inr other ↦ find_row-All op rest act t (rw other at e)
]

-- Every operator of the interpreter's table but the two calls has an entry in the table of operators,
-- whatever float arithmetic is. On any stack that holds the operands of that entry, one for each, it
-- leaves the rest of the stack and the entry's results, or it traps or panics, but never for an
-- empty stack. For the seven whose entry names no operands (`drop`, `select`, and those on locals and
-- globals) they are those of the instruction in WebAssembly.
pub operator-AgreesWith :
    (fl : Floats) (code : ℕ) (act : Action (Unit {0}))
    → operator fl code ≡ some act
    → AgreesWith (Operators.new code) act
unfolding operator func_table
operator-AgreesWith fl code act e =
    let floats = float_rows fl ++ float_conversion_rows fl in
    let others = memory_rows ++ (variable_rows ++ floats) in
    let floats-All =
      All-append RowAgrees (float_rows fl) (float_conversion_rows fl) (float_rows-All fl)
        (float_conversion_rows-All fl) in
    let others-All =
      All-append RowAgrees memory_rows (variable_rows ++ floats) memory_rows-All
        (All-append RowAgrees variable_rows floats variable_rows-All floats-All) in
    find_row-All code (i32_rows ++ (i64_rows ++ others)) act
      (All-append RowAgrees i32_rows (i64_rows ++ others) i32_rows-All
        (All-append RowAgrees i64_rows others i64_rows-All others-All))
      e
