-- ===== src/Exec/Floats/Stub.antt =====
-- Float arithmetic for tests that use none.
use sea_pkg.Base.{false}
use sea_pkg.Exec.Floats.{Floats}

abbrev pub no_floats : Floats
no_floats = record {
  add = λ _ _ _. 0;
  sub = λ _ _ _. 0;
  mul = λ _ _ _. 0;
  div = λ _ _ _. 0;
  neg = λ _ _. 0;
  equal = λ _ _ _. false;
  less = λ _ _ _. false;
  less_equal = λ _ _ _. false;
  abs = λ _. 0;
  ceil = λ _. 0;
  floor = λ _. 0;
  trunc = λ _. 0;
  sqrt = λ _. 0;
  min = λ _ _. 0;
  max = λ _ _. 0;
  copysign = λ _ _. 0;
  widen = λ _. 0;
  narrow = λ _. 0;
  to_int32 = λ _ _. 0;
  to_uint32 = λ _ _. 0;
  to_int64 = λ _ _. 0;
  to_uint64 = λ _ _. 0;
  from_int32 = λ _ _. 0;
  from_uint32 = λ _ _. 0;
  from_int64 = λ _ _. 0;
  from_uint64 = λ _ _. 0;
}
