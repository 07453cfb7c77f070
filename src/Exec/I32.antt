-- ===== src/Exec/I32.antt =====
-- wagon/exec/num.go: the operators on 32-bit integers, in the order of the source.
use sea_pkg.Base.{◌-◌, ◌/◌, ◌%◌, ◌^◌, not, ◌==◌, ltb, leb, bit_and, bit_or, bit_xor}
use sea_pkg.Base.Words.{
  add, sub, mul, div_s, rem_s, lt_s, shl, shr_u, shr_s, rotate_left, leading_zeros, trailing_zeros,
  ones_count,
}
use sea_pkg.Exec.{
  Action, ◌>>=◌, ◌>>◌, nonzero, pop_uint32, pop_int32, push_uint64, push_uint32, push_int32,
  push_bool,
}

unfoldable pub i32_clz : Action (Unit {0})
i32_clz = pop_uint32 >>= λ v. push_uint64 (leading_zeros 32 v)

unfoldable pub i32_ctz : Action (Unit {0})
i32_ctz = pop_uint32 >>= λ v. push_uint64 (trailing_zeros 32 v)

unfoldable pub i32_popcnt : Action (Unit {0})
i32_popcnt = pop_uint32 >>= λ v. push_uint64 (ones_count 32 v)

unfoldable pub i32_add : Action (Unit {0})
i32_add = do a ← pop_uint32; b ← pop_uint32; push_uint32 (add 32 a b)

unfoldable pub i32_mul : Action (Unit {0})
i32_mul = do a ← pop_uint32; b ← pop_uint32; push_uint32 (mul 32 a b)

unfoldable pub i32_div_s : Action (Unit {0})
i32_div_s = do v2 ← pop_int32; v1 ← pop_int32; nonzero v2; push_int32 (div_s 32 v1 v2)

unfoldable pub i32_div_u : Action (Unit {0})
i32_div_u = do v2 ← pop_uint32; v1 ← pop_uint32; nonzero v2; push_uint32 (v1 / v2)

unfoldable pub i32_rem_s : Action (Unit {0})
i32_rem_s = do v2 ← pop_int32; v1 ← pop_int32; nonzero v2; push_int32 (rem_s 32 v1 v2)

unfoldable pub i32_rem_u : Action (Unit {0})
i32_rem_u = do v2 ← pop_uint32; v1 ← pop_uint32; nonzero v2; push_uint32 (v1 % v2)

unfoldable pub i32_sub : Action (Unit {0})
i32_sub = do v2 ← pop_uint32; v1 ← pop_uint32; push_uint32 (sub 32 v1 v2)

unfoldable pub i32_and : Action (Unit {0})
i32_and = do a ← pop_uint32; b ← pop_uint32; push_uint32 (bit_and a b)

unfoldable pub i32_or : Action (Unit {0})
i32_or = do a ← pop_uint32; b ← pop_uint32; push_uint32 (bit_or a b)

unfoldable pub i32_xor : Action (Unit {0})
i32_xor = do a ← pop_uint32; b ← pop_uint32; push_uint32 (bit_xor a b)

unfoldable pub i32_shl : Action (Unit {0})
i32_shl = do v2 ← pop_uint32; v1 ← pop_uint32; push_uint32 (shl 32 v1 v2)

unfoldable pub i32_shr_u : Action (Unit {0})
i32_shr_u = do v2 ← pop_uint32; v1 ← pop_uint32; push_uint32 (shr_u 32 v1 v2)

unfoldable pub i32_shr_s : Action (Unit {0})
i32_shr_s = do v2 ← pop_uint32; v1 ← pop_int32; push_int32 (shr_s 32 v1 v2)

unfoldable pub i32_rotl : Action (Unit {0})
i32_rotl = do v2 ← pop_uint32; v1 ← pop_uint32; push_uint32 (rotate_left 32 v1 v2)

unfoldable pub i32_rotr : Action (Unit {0})
i32_rotr = do v2 ← pop_uint32; v1 ← pop_uint32; push_uint32 (rotate_left 32 v1 (2 ^ 64 - v2))

unfoldable pub i32_le_s : Action (Unit {0})
i32_le_s = do v2 ← pop_int32; v1 ← pop_int32; push_bool (not (lt_s 32 v2 v1))

unfoldable pub i32_le_u : Action (Unit {0})
i32_le_u = do v2 ← pop_uint32; v1 ← pop_uint32; push_bool (leb v1 v2)

unfoldable pub i32_lt_s : Action (Unit {0})
i32_lt_s = do v2 ← pop_int32; v1 ← pop_int32; push_bool (lt_s 32 v1 v2)

unfoldable pub i32_lt_u : Action (Unit {0})
i32_lt_u = do v2 ← pop_uint32; v1 ← pop_uint32; push_bool (ltb v1 v2)

unfoldable pub i32_gt_s : Action (Unit {0})
i32_gt_s = do v2 ← pop_int32; v1 ← pop_int32; push_bool (lt_s 32 v2 v1)

unfoldable pub i32_ge_s : Action (Unit {0})
i32_ge_s = do v2 ← pop_int32; v1 ← pop_int32; push_bool (not (lt_s 32 v1 v2))

unfoldable pub i32_gt_u : Action (Unit {0})
i32_gt_u = do v2 ← pop_uint32; v1 ← pop_uint32; push_bool (ltb v2 v1)

unfoldable pub i32_ge_u : Action (Unit {0})
i32_ge_u = do v2 ← pop_uint32; v1 ← pop_uint32; push_bool (leb v2 v1)

unfoldable pub i32_eqz : Action (Unit {0})
i32_eqz = pop_uint32 >>= λ v. push_bool (v == 0)

unfoldable pub i32_eq : Action (Unit {0})
i32_eq = do a ← pop_uint32; b ← pop_uint32; push_bool (a == b)

unfoldable pub i32_ne : Action (Unit {0})
i32_ne = do a ← pop_uint32; b ← pop_uint32; push_bool (not (a == b))
