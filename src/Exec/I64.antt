-- ===== src/Exec/I64.antt =====
-- wagon/exec/num.go: the operators on 64-bit integers, in the order of the source.
use sea_pkg.Base.{◌-◌, ◌/◌, ◌%◌, ◌^◌, not, ◌==◌, ltb, leb, bit_and, bit_or, bit_xor}
use sea_pkg.Base.Words.{
  add, sub, mul, div_s, rem_s, lt_s, shl, shr_u, shr_s, rotate_left, leading_zeros, trailing_zeros,
  ones_count,
}
use sea_pkg.Exec.{
  Action, ◌>>=◌, ◌>>◌, nonzero, pop_uint64, pop_int64, push_uint64, push_int64, push_bool,
}

unfoldable pub i64_clz : Action (Unit {0})
i64_clz = pop_uint64 >>= λ v. push_uint64 (leading_zeros 64 v)

unfoldable pub i64_ctz : Action (Unit {0})
i64_ctz = pop_uint64 >>= λ v. push_uint64 (trailing_zeros 64 v)

unfoldable pub i64_popcnt : Action (Unit {0})
i64_popcnt = pop_uint64 >>= λ v. push_uint64 (ones_count 64 v)

unfoldable pub i64_add : Action (Unit {0})
i64_add = do a ← pop_uint64; b ← pop_uint64; push_uint64 (add 64 a b)

unfoldable pub i64_sub : Action (Unit {0})
i64_sub = do v2 ← pop_uint64; v1 ← pop_uint64; push_uint64 (sub 64 v1 v2)

unfoldable pub i64_mul : Action (Unit {0})
i64_mul = do a ← pop_uint64; b ← pop_uint64; push_uint64 (mul 64 a b)

unfoldable pub i64_div_s : Action (Unit {0})
i64_div_s = do v2 ← pop_int64; v1 ← pop_int64; nonzero v2; push_int64 (div_s 64 v1 v2)

unfoldable pub i64_div_u : Action (Unit {0})
i64_div_u = do v2 ← pop_uint64; v1 ← pop_uint64; nonzero v2; push_uint64 (v1 / v2)

unfoldable pub i64_rem_s : Action (Unit {0})
i64_rem_s = do v2 ← pop_int64; v1 ← pop_int64; nonzero v2; push_int64 (rem_s 64 v1 v2)

unfoldable pub i64_rem_u : Action (Unit {0})
i64_rem_u = do v2 ← pop_uint64; v1 ← pop_uint64; nonzero v2; push_uint64 (v1 % v2)

unfoldable pub i64_and : Action (Unit {0})
i64_and = do a ← pop_uint64; b ← pop_uint64; push_uint64 (bit_and a b)

unfoldable pub i64_or : Action (Unit {0})
i64_or = do a ← pop_uint64; b ← pop_uint64; push_uint64 (bit_or a b)

unfoldable pub i64_xor : Action (Unit {0})
i64_xor = do a ← pop_uint64; b ← pop_uint64; push_uint64 (bit_xor a b)

unfoldable pub i64_shl : Action (Unit {0})
i64_shl = do v2 ← pop_uint64; v1 ← pop_uint64; push_uint64 (shl 64 v1 v2)

unfoldable pub i64_shr_s : Action (Unit {0})
i64_shr_s = do v2 ← pop_uint64; v1 ← pop_int64; push_int64 (shr_s 64 v1 v2)

unfoldable pub i64_shr_u : Action (Unit {0})
i64_shr_u = do v2 ← pop_uint64; v1 ← pop_uint64; push_uint64 (shr_u 64 v1 v2)

unfoldable pub i64_rotl : Action (Unit {0})
i64_rotl = do v2 ← pop_int64; v1 ← pop_uint64; push_uint64 (rotate_left 64 v1 v2)

unfoldable pub i64_rotr : Action (Unit {0})
i64_rotr = do v2 ← pop_int64; v1 ← pop_uint64; push_uint64 (rotate_left 64 v1 (2 ^ 64 - v2))

unfoldable pub i64_eq : Action (Unit {0})
i64_eq = do a ← pop_uint64; b ← pop_uint64; push_bool (a == b)

unfoldable pub i64_eqz : Action (Unit {0})
i64_eqz = pop_uint64 >>= λ v. push_bool (v == 0)

unfoldable pub i64_ne : Action (Unit {0})
i64_ne = do a ← pop_uint64; b ← pop_uint64; push_bool (not (a == b))

unfoldable pub i64_lt_s : Action (Unit {0})
i64_lt_s = do v2 ← pop_int64; v1 ← pop_int64; push_bool (lt_s 64 v1 v2)

unfoldable pub i64_lt_u : Action (Unit {0})
i64_lt_u = do v2 ← pop_uint64; v1 ← pop_uint64; push_bool (ltb v1 v2)

unfoldable pub i64_gt_s : Action (Unit {0})
i64_gt_s = do v2 ← pop_int64; v1 ← pop_int64; push_bool (lt_s 64 v2 v1)

unfoldable pub i64_gt_u : Action (Unit {0})
i64_gt_u = do v2 ← pop_uint64; v1 ← pop_uint64; push_bool (ltb v2 v1)

unfoldable pub i64_le_u : Action (Unit {0})
i64_le_u = do v2 ← pop_uint64; v1 ← pop_uint64; push_bool (leb v1 v2)

unfoldable pub i64_le_s : Action (Unit {0})
i64_le_s = do v2 ← pop_int64; v1 ← pop_int64; push_bool (not (lt_s 64 v2 v1))

unfoldable pub i64_ge_s : Action (Unit {0})
i64_ge_s = do v2 ← pop_int64; v1 ← pop_int64; push_bool (not (lt_s 64 v1 v2))

unfoldable pub i64_ge_u : Action (Unit {0})
i64_ge_u = do v2 ← pop_uint64; v1 ← pop_uint64; push_bool (leb v2 v1)
