-- ===== src/Exec/Floats.antt =====
-- wagon/exec/num.go: the operators on floats, whose values are bit patterns. The arithmetic of Go's
-- `float32` and `float64` and the functions of its package `math` are a parameter.
pub mod Convert
pub mod Stub
use sea_pkg.Base.{ℕ, Bool, not}
use sea_pkg.Exec.{
  Action, ◌>>=◌, pop_uint64, pop_int64, pop_uint32, pop_int32, push_uint64, push_int64, push_uint32,
  push_int32, push_bool,
}

-- A first argument of 32 or 64 is the width of the floats. The functions of `math` are on `float64`;
-- `widen` and `narrow` convert between the two widths, and `to_int32`, `from_int32` and their kin between
-- floats of a width and integers. `a > b` is `b < a`, and `a != b` the negation of `a == b`.
pub record Floats : Type 0 where
  pub add : ℕ → ℕ → ℕ → ℕ
  pub sub : ℕ → ℕ → ℕ → ℕ
  pub mul : ℕ → ℕ → ℕ → ℕ
  pub div : ℕ → ℕ → ℕ → ℕ
  pub neg : ℕ → ℕ → ℕ
  pub equal : ℕ → ℕ → ℕ → Bool
  pub less : ℕ → ℕ → ℕ → Bool
  pub less_equal : ℕ → ℕ → ℕ → Bool
  pub abs : ℕ → ℕ
  pub ceil : ℕ → ℕ
  pub floor : ℕ → ℕ
  pub trunc : ℕ → ℕ
  pub sqrt : ℕ → ℕ
  pub min : ℕ → ℕ → ℕ
  pub max : ℕ → ℕ → ℕ
  pub copysign : ℕ → ℕ → ℕ
  pub widen : ℕ → ℕ
  pub narrow : ℕ → ℕ
  pub to_int32 : ℕ → ℕ → ℕ
  pub to_uint32 : ℕ → ℕ → ℕ
  pub to_int64 : ℕ → ℕ → ℕ
  pub to_uint64 : ℕ → ℕ → ℕ
  pub from_int32 : ℕ → ℕ → ℕ
  pub from_uint32 : ℕ → ℕ → ℕ
  pub from_int64 : ℕ → ℕ → ℕ
  pub from_uint64 : ℕ → ℕ → ℕ

-- 0.5, as a `float64`.
abbrev half : ℕ
half = 0x3fe0000000000000

unfoldable pub f32_eq : Floats → Action (Unit {0})
f32_eq fl = do v2 ← pop_uint32; v1 ← pop_uint32; push_bool (fl.equal 32 v2 v1)

unfoldable pub f32_ne : Floats → Action (Unit {0})
f32_ne fl = do v2 ← pop_uint32; v1 ← pop_uint32; push_bool (not (fl.equal 32 v2 v1))

unfoldable pub f32_lt : Floats → Action (Unit {0})
f32_lt fl = do v2 ← pop_uint32; v1 ← pop_uint32; push_bool (fl.less 32 v1 v2)

unfoldable pub f32_gt : Floats → Action (Unit {0})
f32_gt fl = do v2 ← pop_uint32; v1 ← pop_uint32; push_bool (fl.less 32 v2 v1)

unfoldable pub f32_le : Floats → Action (Unit {0})
f32_le fl = do v2 ← pop_uint32; v1 ← pop_uint32; push_bool (fl.less_equal 32 v1 v2)

unfoldable pub f32_ge : Floats → Action (Unit {0})
f32_ge fl = do v2 ← pop_uint32; v1 ← pop_uint32; push_bool (fl.less_equal 32 v2 v1)

unfoldable pub f32_abs : Floats → Action (Unit {0})
f32_abs fl = do a ← pop_uint32; push_uint32 (fl.narrow (fl.abs (fl.widen a)))

unfoldable pub f32_neg : Floats → Action (Unit {0})
f32_neg fl = do a ← pop_uint32; push_uint32 (fl.neg 32 a)

unfoldable pub f32_ceil : Floats → Action (Unit {0})
f32_ceil fl = do a ← pop_uint32; push_uint32 (fl.narrow (fl.ceil (fl.widen a)))

unfoldable pub f32_floor : Floats → Action (Unit {0})
f32_floor fl = do a ← pop_uint32; push_uint32 (fl.narrow (fl.floor (fl.widen a)))

unfoldable pub f32_trunc : Floats → Action (Unit {0})
f32_trunc fl = do a ← pop_uint32; push_uint32 (fl.narrow (fl.trunc (fl.widen a)))

unfoldable pub f32_nearest : Floats → Action (Unit {0})
f32_nearest fl = do
  a ← pop_uint32
  push_uint32
      (fl.from_int32 32 (fl.to_int32 32 (fl.add 32 a (fl.narrow (fl.copysign half (fl.widen a))))))

unfoldable pub f32_sqrt : Floats → Action (Unit {0})
f32_sqrt fl = do a ← pop_uint32; push_uint32 (fl.narrow (fl.sqrt (fl.widen a)))

unfoldable pub f32_add : Floats → Action (Unit {0})
f32_add fl = do v2 ← pop_uint32; v1 ← pop_uint32; push_uint32 (fl.add 32 v2 v1)

unfoldable pub f32_sub : Floats → Action (Unit {0})
f32_sub fl = do v2 ← pop_uint32; v1 ← pop_uint32; push_uint32 (fl.sub 32 v1 v2)

unfoldable pub f32_mul : Floats → Action (Unit {0})
f32_mul fl = do v2 ← pop_uint32; v1 ← pop_uint32; push_uint32 (fl.mul 32 v2 v1)

unfoldable pub f32_div : Floats → Action (Unit {0})
f32_div fl = do v2 ← pop_uint32; v1 ← pop_uint32; push_uint32 (fl.div 32 v1 v2)

unfoldable pub f32_min : Floats → Action (Unit {0})
f32_min fl = do
  v2 ← pop_uint32
  v1 ← pop_uint32
  push_uint32 (fl.narrow (fl.min (fl.widen v2) (fl.widen v1)))

unfoldable pub f32_max : Floats → Action (Unit {0})
f32_max fl = do
  v2 ← pop_uint32
  v1 ← pop_uint32
  push_uint32 (fl.narrow (fl.max (fl.widen v2) (fl.widen v1)))

unfoldable pub f32_copysign : Floats → Action (Unit {0})
f32_copysign fl = do
  v2 ← pop_uint32
  v1 ← pop_uint32
  push_uint32 (fl.narrow (fl.copysign (fl.widen v2) (fl.widen v1)))

unfoldable pub f64_eq : Floats → Action (Unit {0})
f64_eq fl = do v2 ← pop_uint64; v1 ← pop_uint64; push_bool (fl.equal 64 v2 v1)

unfoldable pub f64_ne : Floats → Action (Unit {0})
f64_ne fl = do v2 ← pop_uint64; v1 ← pop_uint64; push_bool (not (fl.equal 64 v2 v1))

unfoldable pub f64_lt : Floats → Action (Unit {0})
f64_lt fl = do v2 ← pop_uint64; v1 ← pop_uint64; push_bool (fl.less 64 v1 v2)

unfoldable pub f64_gt : Floats → Action (Unit {0})
f64_gt fl = do v2 ← pop_uint64; v1 ← pop_uint64; push_bool (fl.less 64 v2 v1)

unfoldable pub f64_le : Floats → Action (Unit {0})
f64_le fl = do v2 ← pop_uint64; v1 ← pop_uint64; push_bool (fl.less_equal 64 v1 v2)

unfoldable pub f64_ge : Floats → Action (Unit {0})
f64_ge fl = do v2 ← pop_uint64; v1 ← pop_uint64; push_bool (fl.less_equal 64 v2 v1)

unfoldable pub f64_abs : Floats → Action (Unit {0})
f64_abs fl = do a ← pop_uint64; push_uint64 (fl.abs a)

unfoldable pub f64_neg : Floats → Action (Unit {0})
f64_neg fl = do a ← pop_uint64; push_uint64 (fl.neg 64 a)

unfoldable pub f64_ceil : Floats → Action (Unit {0})
f64_ceil fl = do a ← pop_uint64; push_uint64 (fl.ceil a)

unfoldable pub f64_floor : Floats → Action (Unit {0})
f64_floor fl = do a ← pop_uint64; push_uint64 (fl.floor a)

unfoldable pub f64_trunc : Floats → Action (Unit {0})
f64_trunc fl = do a ← pop_uint64; push_uint64 (fl.trunc a)

unfoldable pub f64_nearest : Floats → Action (Unit {0})
f64_nearest fl = do
  a ← pop_uint64
  push_uint64 (fl.from_int64 64 (fl.to_int64 64 (fl.add 64 a (fl.copysign half a))))

unfoldable pub f64_sqrt : Floats → Action (Unit {0})
f64_sqrt fl = do a ← pop_uint64; push_uint64 (fl.sqrt a)

unfoldable pub f64_add : Floats → Action (Unit {0})
f64_add fl = do v2 ← pop_uint64; v1 ← pop_uint64; push_uint64 (fl.add 64 v2 v1)

unfoldable pub f64_sub : Floats → Action (Unit {0})
f64_sub fl = do v2 ← pop_uint64; v1 ← pop_uint64; push_uint64 (fl.sub 64 v1 v2)

unfoldable pub f64_mul : Floats → Action (Unit {0})
f64_mul fl = do v2 ← pop_uint64; v1 ← pop_uint64; push_uint64 (fl.mul 64 v2 v1)

unfoldable pub f64_div : Floats → Action (Unit {0})
f64_div fl = do v2 ← pop_uint64; v1 ← pop_uint64; push_uint64 (fl.div 64 v1 v2)

unfoldable pub f64_min : Floats → Action (Unit {0})
f64_min fl = do v2 ← pop_uint64; v1 ← pop_uint64; push_uint64 (fl.min v2 v1)

unfoldable pub f64_max : Floats → Action (Unit {0})
f64_max fl = do v2 ← pop_uint64; v1 ← pop_uint64; push_uint64 (fl.max v2 v1)

unfoldable pub f64_copysign : Floats → Action (Unit {0})
f64_copysign fl = do v2 ← pop_uint64; v1 ← pop_uint64; push_uint64 (fl.copysign v2 v1)
