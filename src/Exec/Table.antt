-- ===== src/Exec/Table.antt =====
-- wagon/exec/func_table.go: `newFuncTable`, from opcodes to operators.
-- The rows stand in the groups of the files that define the operators. The rows of
-- the two calls are not here: the loop has them.
pub mod Effect
pub mod Fetch
pub mod Stack
use sea_pkg.Base.{ℕ, List, [], ◌∷◌, ◌++◌, Option, none, some, ◌==◌, if◌then◌else◌}
use sea_pkg.Exec.{Action}
use sea_pkg.Exec.I32.{
  i32_add, i32_and, i32_clz, i32_ctz, i32_div_s, i32_div_u, i32_eq, i32_eqz, i32_ge_s, i32_ge_u,
  i32_gt_s, i32_gt_u, i32_le_s, i32_le_u, i32_lt_s, i32_lt_u, i32_mul, i32_ne, i32_or, i32_popcnt,
  i32_rem_s, i32_rem_u, i32_rotl, i32_rotr, i32_shl, i32_shr_s, i32_shr_u, i32_sub, i32_xor,
}
use sea_pkg.Exec.I64.{
  i64_add, i64_and, i64_clz, i64_ctz, i64_div_s, i64_div_u, i64_eq, i64_eqz, i64_ge_s, i64_ge_u,
  i64_gt_s, i64_gt_u, i64_le_s, i64_le_u, i64_lt_s, i64_lt_u, i64_mul, i64_ne, i64_or, i64_popcnt,
  i64_rem_s, i64_rem_u, i64_rotl, i64_rotr, i64_shl, i64_shr_s, i64_shr_u, i64_sub, i64_xor,
}
use sea_pkg.Exec.Linear.{
  current_memory, f32_load, f32_store, f64_load, f64_store, grow_memory, i32_load, i32_load16_s,
  i32_load16_u, i32_load8_s, i32_load8_u, i32_store, i32_store16, i32_store8, i64_load,
  i64_load16_s, i64_load16_u, i64_load32_s, i64_load32_u, i64_load8_s, i64_load8_u, i64_store,
  i64_store16, i64_store32, i64_store8,
}
use sea_pkg.Exec.Floats.{
  Floats, f32_eq, f32_ne, f32_lt, f32_gt, f32_le, f32_ge, f32_abs, f32_neg, f32_ceil, f32_floor,
  f32_trunc, f32_nearest, f32_sqrt, f32_add, f32_sub, f32_mul, f32_div, f32_min, f32_max,
  f32_copysign, f64_eq, f64_ne, f64_lt, f64_gt, f64_le, f64_ge, f64_abs, f64_neg, f64_ceil,
  f64_floor, f64_trunc, f64_nearest, f64_sqrt, f64_add, f64_sub, f64_mul, f64_div, f64_min, f64_max,
  f64_copysign,
}
use sea_pkg.Exec.Floats.Convert.{
  i32_trunc_s_f32, i32_trunc_u_f32, i32_trunc_s_f64, i32_trunc_u_f64, i64_trunc_s_f32,
  i64_trunc_u_f32, i64_trunc_s_f64, i64_trunc_u_f64, f32_convert_s_i32, f32_convert_u_i32,
  f32_convert_s_i64, f32_convert_u_i64, f64_convert_s_i32, f64_convert_u_i32, f64_convert_s_i64,
  f64_convert_u_i64, f32_demote_f64, f64_promote_f32,
}
use sea_pkg.Exec.Variables.{
  drop_op, f32_const, f32_reinterpret_i32, f64_const, f64_reinterpret_i64, get_global, get_local,
  i32_const, i32_reinterpret_f32, i32_wrap_i64, i64_const, i64_extend_s_i32, i64_extend_u_i32,
  i64_reinterpret_f64, nop, select_op, set_global, set_local, tee_local, unreachable_op,
}

abbrev pub Row : Type 0
Row = ℕ × Action (Unit {0})

unfoldable pub i32_rows : List Row
i32_rows =
    (0x67, i32_clz)
    ∷ (0x68, i32_ctz)
    ∷ (0x69, i32_popcnt)
    ∷ (0x6a, i32_add)
    ∷ (0x6b, i32_sub)
    ∷ (0x6c, i32_mul)
    ∷ (0x6d, i32_div_s)
    ∷ (0x6e, i32_div_u)
    ∷ (0x6f, i32_rem_s)
    ∷ (0x70, i32_rem_u)
    ∷ (0x71, i32_and)
    ∷ (0x72, i32_or)
    ∷ (0x73, i32_xor)
    ∷ (0x74, i32_shl)
    ∷ (0x75, i32_shr_s)
    ∷ (0x76, i32_shr_u)
    ∷ (0x77, i32_rotl)
    ∷ (0x78, i32_rotr)
    ∷ (0x45, i32_eqz)
    ∷ (0x46, i32_eq)
    ∷ (0x47, i32_ne)
    ∷ (0x48, i32_lt_s)
    ∷ (0x49, i32_lt_u)
    ∷ (0x4a, i32_gt_s)
    ∷ (0x4b, i32_gt_u)
    ∷ (0x4c, i32_le_s)
    ∷ (0x4d, i32_le_u)
    ∷ (0x4e, i32_ge_s)
    ∷ (0x4f, i32_ge_u)
    ∷ []

unfoldable pub i64_rows : List Row
i64_rows =
    (0x79, i64_clz)
    ∷ (0x7a, i64_ctz)
    ∷ (0x7b, i64_popcnt)
    ∷ (0x7c, i64_add)
    ∷ (0x7d, i64_sub)
    ∷ (0x7e, i64_mul)
    ∷ (0x7f, i64_div_s)
    ∷ (0x80, i64_div_u)
    ∷ (0x81, i64_rem_s)
    ∷ (0x82, i64_rem_u)
    ∷ (0x83, i64_and)
    ∷ (0x84, i64_or)
    ∷ (0x85, i64_xor)
    ∷ (0x86, i64_shl)
    ∷ (0x87, i64_shr_s)
    ∷ (0x88, i64_shr_u)
    ∷ (0x89, i64_rotl)
    ∷ (0x8a, i64_rotr)
    ∷ (0x50, i64_eqz)
    ∷ (0x51, i64_eq)
    ∷ (0x52, i64_ne)
    ∷ (0x53, i64_lt_s)
    ∷ (0x54, i64_lt_u)
    ∷ (0x55, i64_gt_s)
    ∷ (0x56, i64_gt_u)
    ∷ (0x57, i64_le_s)
    ∷ (0x58, i64_le_u)
    ∷ (0x59, i64_ge_s)
    ∷ (0x5a, i64_ge_u)
    ∷ []

unfoldable pub memory_rows : List Row
memory_rows =
    (0x28, i32_load)
    ∷ (0x29, i64_load)
    ∷ (0x2a, f32_load)
    ∷ (0x2b, f64_load)
    ∷ (0x2c, i32_load8_s)
    ∷ (0x2d, i32_load8_u)
    ∷ (0x2e, i32_load16_s)
    ∷ (0x2f, i32_load16_u)
    ∷ (0x30, i64_load8_s)
    ∷ (0x31, i64_load8_u)
    ∷ (0x32, i64_load16_s)
    ∷ (0x33, i64_load16_u)
    ∷ (0x34, i64_load32_s)
    ∷ (0x35, i64_load32_u)
    ∷ (0x36, i32_store)
    ∷ (0x37, i64_store)
    ∷ (0x38, f32_store)
    ∷ (0x39, f64_store)
    ∷ (0x3a, i32_store8)
    ∷ (0x3b, i32_store16)
    ∷ (0x3c, i64_store8)
    ∷ (0x3d, i64_store16)
    ∷ (0x3e, i64_store32)
    ∷ (0x3f, current_memory)
    ∷ (0x40, grow_memory)
    ∷ []

unfoldable pub variable_rows : List Row
variable_rows =
    (0x41, i32_const)
    ∷ (0x42, i64_const)
    ∷ (0x43, f32_const)
    ∷ (0x44, f64_const)
    ∷ (0xbc, i32_reinterpret_f32)
    ∷ (0xbd, i64_reinterpret_f64)
    ∷ (0xbe, f32_reinterpret_i32)
    ∷ (0xbf, f64_reinterpret_i64)
    ∷ (0xa7, i32_wrap_i64)
    ∷ (0xac, i64_extend_s_i32)
    ∷ (0xad, i64_extend_u_i32)
    ∷ (0x1a, drop_op)
    ∷ (0x1b, select_op)
    ∷ (0x20, get_local)
    ∷ (0x21, set_local)
    ∷ (0x22, tee_local)
    ∷ (0x23, get_global)
    ∷ (0x24, set_global)
    ∷ (0x00, unreachable_op)
    ∷ (0x01, nop)
    ∷ []

unfoldable pub float_rows : Floats → List Row
float_rows fl =
    (0x5b, f32_eq fl)
    ∷ (0x5c, f32_ne fl)
    ∷ (0x5d, f32_lt fl)
    ∷ (0x5e, f32_gt fl)
    ∷ (0x5f, f32_le fl)
    ∷ (0x60, f32_ge fl)
    ∷ (0x8b, f32_abs fl)
    ∷ (0x8c, f32_neg fl)
    ∷ (0x8d, f32_ceil fl)
    ∷ (0x8e, f32_floor fl)
    ∷ (0x8f, f32_trunc fl)
    ∷ (0x90, f32_nearest fl)
    ∷ (0x91, f32_sqrt fl)
    ∷ (0x92, f32_add fl)
    ∷ (0x93, f32_sub fl)
    ∷ (0x94, f32_mul fl)
    ∷ (0x95, f32_div fl)
    ∷ (0x96, f32_min fl)
    ∷ (0x97, f32_max fl)
    ∷ (0x98, f32_copysign fl)
    ∷ (0x61, f64_eq fl)
    ∷ (0x62, f64_ne fl)
    ∷ (0x63, f64_lt fl)
    ∷ (0x64, f64_gt fl)
    ∷ (0x65, f64_le fl)
    ∷ (0x66, f64_ge fl)
    ∷ (0x99, f64_abs fl)
    ∷ (0x9a, f64_neg fl)
    ∷ (0x9b, f64_ceil fl)
    ∷ (0x9c, f64_floor fl)
    ∷ (0x9d, f64_trunc fl)
    ∷ (0x9e, f64_nearest fl)
    ∷ (0x9f, f64_sqrt fl)
    ∷ (0xa0, f64_add fl)
    ∷ (0xa1, f64_sub fl)
    ∷ (0xa2, f64_mul fl)
    ∷ (0xa3, f64_div fl)
    ∷ (0xa4, f64_min fl)
    ∷ (0xa5, f64_max fl)
    ∷ (0xa6, f64_copysign fl)
    ∷ []

unfoldable pub float_conversion_rows : Floats → List Row
float_conversion_rows fl =
    (0xa8, i32_trunc_s_f32 fl)
    ∷ (0xa9, i32_trunc_u_f32 fl)
    ∷ (0xaa, i32_trunc_s_f64 fl)
    ∷ (0xab, i32_trunc_u_f64 fl)
    ∷ (0xae, i64_trunc_s_f32 fl)
    ∷ (0xaf, i64_trunc_u_f32 fl)
    ∷ (0xb0, i64_trunc_s_f64 fl)
    ∷ (0xb1, i64_trunc_u_f64 fl)
    ∷ (0xb2, f32_convert_s_i32 fl)
    ∷ (0xb3, f32_convert_u_i32 fl)
    ∷ (0xb4, f32_convert_s_i64 fl)
    ∷ (0xb5, f32_convert_u_i64 fl)
    ∷ (0xb7, f64_convert_s_i32 fl)
    ∷ (0xb8, f64_convert_u_i32 fl)
    ∷ (0xb9, f64_convert_s_i64 fl)
    ∷ (0xba, f64_convert_u_i64 fl)
    ∷ (0xb6, f32_demote_f64 fl)
    ∷ (0xbb, f64_promote_f32 fl)
    ∷ []

unfoldable pub func_table : Floats → List Row
unfolding i32_rows i64_rows memory_rows variable_rows float_rows float_conversion_rows
func_table fl =
    i32_rows
    ++ (i64_rows ++ (memory_rows ++ (variable_rows ++ (float_rows fl ++ float_conversion_rows fl))))

unfoldable pub find_row : ℕ → List Row → Option (Action (Unit {0}))
find_row op [] = none
find_row op ((code, act) ∷ rest) = if code == op then some act else find_row op rest

-- `vm.funcTable[op]`: `none` is nil.
unfoldable pub operator : Floats → ℕ → Option (Action (Unit {0}))
unfolding func_table find_row
operator fl op = find_row op (func_table fl)
