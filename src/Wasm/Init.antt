-- ===== src/Wasm/Init.antt =====
-- wagon/wasm/init_expr.go, with `readU32` and `readU64` of read.go: initializer expressions. A
-- value is the bit pattern of its type.
use sea_pkg.Base.{
  ℕ, zero, suc, ◌+◌, ◌-◌, ◌%◌, ◌^◌, List, [], ◌∷◌, Option, none, some, ◌==◌, leb, if◌then◌else◌,
  length, take, drop,
}
use sea_pkg.Base.Outcome.{Outcome, ok, err, panic, invalid_type, ◌>>=◌}
use sea_pkg.Base.Bytes.{le_value}
use sea_pkg.Base.Words.{extend_s}
use sea_pkg.Leb128.{ReadError, eof, read_var_uint32, read_varint32, read_varint64}
use sea_pkg.Wasm.{i32, i64, f32, f64, Module, get_global}

-- The errors of initializer expressions and of the index spaces; the first two are those of the
-- reader. `exhausted` is no Go value: the fuel of the model ran out.
pub data ModuleError : Type 0 where
  end_of_input unexpected_end empty_init_expr not_int32 exhausted : ModuleError
  invalid_init_expr_op invalid_global_index invalid_function_index invalid_table_index :
      ℕ → ModuleError
  invalid_linear_memory_index : ℕ → ModuleError

abbrev pub Result {ℓ} : Type ℓ → Type ℓ
Result A = Outcome ModuleError A

pub data Value : Type 0 where
  int32 int64 float32 float64 : ℕ → Value

abbrev pub read_leb : Outcome ReadError (ℕ × List ℕ) → Result (ℕ × List ℕ)
read_leb (ok r) = ok r
read_leb (err eof) = err end_of_input
read_leb (panic p) = panic p

-- `readU32` and `readU64`, for 4 and 8 bytes.
unfoldable pub read_fixed : ℕ → List ℕ → Result (ℕ × List ℕ)
read_fixed n r =
    if leb n (length r)
    then ok (le_value n r, drop n r)
    else if length r == 0
    then err end_of_input
    else err unexpected_end

-- The operand of an operator of initializer expressions, `end` apart.
unfoldable pub read_operand : ℕ → List ℕ → Result (ℕ × List ℕ)
read_operand op r =
    if op == 0x41
    then read_leb (read_varint32 r)
    else if op == 0x42
    then read_leb (read_varint64 r)
    else if op == 0x43
    then read_fixed 4 r
    else if op == 0x44
    then read_fixed 8 r
    else if op == 0x23
    then read_leb (read_var_uint32 r)
    else err (invalid_init_expr_op op)

-- The loop of `readInitExpr`, on fuel: what is left behind `end`.
unfoldable pub read_init_loop : ℕ → List ℕ → Result (List ℕ)
read_init_loop zero r = err exhausted
read_init_loop (suc fuel) r = elim r [
  | [] ↦ err end_of_input
  | op ∷ rest ↦
      if op == 0x0b
      then ok rest
      else read_operand op rest >>= λ operand. read_init_loop fuel (operand.1)
]

-- The bytes that were read, with what is left.
unfoldable pub read_init_expr : List ℕ → Result (List ℕ × List ℕ)
read_init_expr r = do
  rest ← read_init_loop (length r + 1) r
  let expr = take (length r - length rest) r
  if length expr == 0 then err empty_init_expr else ok (expr, rest)

-- The type of the value that an operator leaves; `get_global` leaves the stack as it is.
unfoldable pub type_of : Module → ℕ → ℕ → Result ℕ
type_of m op operand =
    if op == 0x41
    then ok i32
    else if op == 0x42
    then ok i64
    else if op == 0x43
    then ok f32
    else if op == 0x44
    then ok f64
    else elim (get_global m operand) [
      | none ↦ err (invalid_global_index operand)
      | some g ↦ ok g.value_type
    ]

-- An operand as a `uint64`: the sign of an `int32` is extended.
unfoldable pub pushed : ℕ → ℕ → List ℕ → List ℕ
pushed op operand stack =
    if op == 0x23 then stack else (if op == 0x41 then extend_s 32 64 operand else operand) ∷ stack

-- The loop of `ExecInitExpr`, on fuel: the stack from its top, and `lastVal`. The `break` of `end`
-- leaves the `switch` and not the loop.
unfoldable pub exec_init_loop : Module → ℕ → List ℕ → List ℕ → ℕ → Result (List ℕ × ℕ)
exec_init_loop m zero r stack last_val = err exhausted
exec_init_loop m (suc fuel) r stack last_val = elim r [
  | [] ↦ ok (stack, last_val)
  | op ∷ rest ↦
      if op == 0x0b
      then exec_init_loop m fuel rest stack last_val
      else read_operand op rest >>= λ operand. type_of m op (operand.0) >>= λ val.
          exec_init_loop m fuel (operand.1) (pushed op (operand.0) stack) val
]

-- The panic is the source's own, for a value type that is none.
unfoldable pub to_value : ℕ → ℕ → Result Value
to_value val v =
    if val == i32
    then ok (int32 (v % 2 ^ 32))
    else if val == i64
    then ok (int64 v)
    else if val == f32
    then ok (float32 (v % 2 ^ 32))
    else if val == f64
    then ok (float64 v)
    else panic invalid_type

abbrev pub value_on : List ℕ → ℕ → Result (Option Value)
value_on [] val = ok none
value_on (v ∷ _) val = to_value val v >>= λ value. ok (some value)

-- A nil value is `none`.
unfoldable pub exec_init_expr : Module → List ℕ → Result (Option Value)
exec_init_expr m expr =
    if length expr == 0
    then err empty_init_expr
    else exec_init_loop m (length expr + 1) expr [] 0 >>= λ r. value_on (r.0) (r.1)
