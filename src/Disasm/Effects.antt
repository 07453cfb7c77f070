-- ===== src/Disasm/Effects.antt =====
-- wagon/disasm/disasm.go: how `Disassemble` reads immediates, and the types of an operator on the
-- stack.
use sea_pkg.Base.{ℕ, ◌-◌, ◌^◌, List, Bool, not, ◌&&◌, ◌||◌}
use sea_pkg.Base.{◌==◌, leb, if◌then◌else◌, length, drop}
use sea_pkg.Base.Outcome.{Outcome, ok, err, panic, ◌>>=◌}
use sea_pkg.Base.Words.{add, sub, is_neg}
use sea_pkg.Base.Bytes.{le_value}
use sea_pkg.Leb128.{ReadError, eof, read_var_uint32, read_varint32, read_varint64}
use sea_pkg.Wasm.{block_type_empty}
use sea_pkg.Operators.{Op}
use sea_pkg.Disasm.{
  end_of_input, unexpected_end, stack_underflow, Result, State, check_max_depth, top, set_top,
}

abbrev pub with_reader : State → Outcome ReadError (ℕ × List ℕ) → Result (ℕ × State)
with_reader d (ok (v, rest)) = ok (v, record d { reader = rest })
with_reader d (err eof) = err end_of_input
with_reader d (panic p) = panic p

unfoldable pub read_uint32 : State → Result (ℕ × State)
read_uint32 d = with_reader d (read_var_uint32 d.reader)

unfoldable pub read_int32 : State → Result (ℕ × State)
read_int32 d = with_reader d (read_varint32 d.reader)

unfoldable pub read_int64 : State → Result (ℕ × State)
read_int64 d = with_reader d (read_varint64 d.reader)

-- `io.ReadFull` of `n` bytes, as a little-endian number.
unfoldable pub read_full : ℕ → State → Result (ℕ × State)
read_full n d =
    if leb n (length d.reader)
    then ok (le_value n d.reader, record d { reader = drop n d.reader })
    else if length d.reader == 0
    then err end_of_input
    else err unexpected_end

-- `int(v) < -1`, and `v < 0`.
abbrev pub below_minus_one : ℕ → Bool
below_minus_one v = is_neg 64 v && not (v == 2 ^ 64 - 1)

-- The operands and the result of an operator that is not polymorphic.
unfoldable pub apply_type : Op → State → Result State
apply_type op d = do
  v ← top d
  let t = sub 64 v (length op.args)
  d' ← set_top t d
  let t' = if op.returns == block_type_empty then t else add 64 t 1
  d'' ← set_top t' d'
  if below_minus_one t then err stack_underflow else ok (check_max_depth t' d'')

unfoldable pub check_type : Op → Bool → State → Result State
check_type op unreachable d = if op.polymorphic || unreachable then ok d else apply_type op d

-- What is done where the instruction is reachable.
abbrev pub when : Bool → (State → Result State) → State → Result State
when b f d = if b then f d else ok d
