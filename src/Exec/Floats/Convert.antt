-- ===== src/Exec/Floats/Convert.antt =====
-- wagon/exec/conv.go: the conversions between floats and integers.
use sea_pkg.Exec.{
  Action, ◌>>=◌, pop_uint64, pop_int64, pop_uint32, pop_int32, push_uint64, push_int64, push_uint32,
  push_int32,
}
use sea_pkg.Exec.Floats.{Floats}

unfoldable pub i32_trunc_s_f32 : Floats → Action (Unit {0})
i32_trunc_s_f32 fl = do a ← pop_uint32; push_int32 (fl.to_int32 64 (fl.trunc (fl.widen a)))

unfoldable pub i32_trunc_u_f32 : Floats → Action (Unit {0})
i32_trunc_u_f32 fl = do a ← pop_uint32; push_uint32 (fl.to_uint32 64 (fl.trunc (fl.widen a)))

unfoldable pub i32_trunc_s_f64 : Floats → Action (Unit {0})
i32_trunc_s_f64 fl = do a ← pop_uint64; push_int32 (fl.to_int32 64 (fl.trunc a))

unfoldable pub i32_trunc_u_f64 : Floats → Action (Unit {0})
i32_trunc_u_f64 fl = do a ← pop_uint64; push_uint32 (fl.to_uint32 64 (fl.trunc a))

unfoldable pub i64_trunc_s_f32 : Floats → Action (Unit {0})
i64_trunc_s_f32 fl = do a ← pop_uint32; push_int64 (fl.to_int64 64 (fl.trunc (fl.widen a)))

unfoldable pub i64_trunc_u_f32 : Floats → Action (Unit {0})
i64_trunc_u_f32 fl = do a ← pop_uint32; push_uint64 (fl.to_uint64 64 (fl.trunc (fl.widen a)))

unfoldable pub i64_trunc_s_f64 : Floats → Action (Unit {0})
i64_trunc_s_f64 fl = do a ← pop_uint64; push_int64 (fl.to_int64 64 (fl.trunc a))

unfoldable pub i64_trunc_u_f64 : Floats → Action (Unit {0})
i64_trunc_u_f64 fl = do a ← pop_uint64; push_uint64 (fl.to_uint64 64 (fl.trunc a))

unfoldable pub f32_convert_s_i32 : Floats → Action (Unit {0})
f32_convert_s_i32 fl = do a ← pop_int32; push_uint32 (fl.from_int32 32 a)

unfoldable pub f32_convert_u_i32 : Floats → Action (Unit {0})
f32_convert_u_i32 fl = do a ← pop_uint32; push_uint32 (fl.from_uint32 32 a)

unfoldable pub f32_convert_s_i64 : Floats → Action (Unit {0})
f32_convert_s_i64 fl = do a ← pop_int64; push_uint32 (fl.from_int64 32 a)

unfoldable pub f32_convert_u_i64 : Floats → Action (Unit {0})
f32_convert_u_i64 fl = do a ← pop_uint64; push_uint32 (fl.from_uint64 32 a)

unfoldable pub f64_convert_s_i32 : Floats → Action (Unit {0})
f64_convert_s_i32 fl = do a ← pop_int32; push_uint64 (fl.from_int32 64 a)

unfoldable pub f64_convert_u_i32 : Floats → Action (Unit {0})
f64_convert_u_i32 fl = do a ← pop_uint32; push_uint64 (fl.from_uint32 64 a)

unfoldable pub f64_convert_s_i64 : Floats → Action (Unit {0})
f64_convert_s_i64 fl = do a ← pop_int64; push_uint64 (fl.from_int64 64 a)

unfoldable pub f64_convert_u_i64 : Floats → Action (Unit {0})
f64_convert_u_i64 fl = do a ← pop_uint64; push_uint64 (fl.from_uint64 64 a)

unfoldable pub f32_demote_f64 : Floats → Action (Unit {0})
f32_demote_f64 fl = do a ← pop_uint64; push_uint32 (fl.narrow a)

unfoldable pub f64_promote_f32 : Floats → Action (Unit {0})
f64_promote_f32 fl = do a ← pop_uint32; push_uint64 (fl.widen a)
