-- ===== src/Exec/Variables.antt =====
-- wagon/exec/var.go, const.go, parametric.go and control.go, and the conversions of conv.go and
-- reinterp.go that are between integers or only move bits. `math.Float32bits` and
-- `math.Float32frombits` move bits, so a float on the stack is its bit pattern.
use sea_pkg.Base.{
  ℕ, ◌%◌, ◌^◌, List, [], ◌∷◌, length, get_elem?, set, Option, none, some, ltb, ◌==◌, if◌then◌else◌,
}
use sea_pkg.Base.Outcome.{ok, panic, index_range, empty_stack}
use sea_pkg.Base.Words.{extend_s}
use sea_pkg.Exec.{
  unreachable, Action, ◌>>=◌, pure, trap, pop_uint64, pop_uint32, pop_int32, push_uint64,
  push_uint32, push_int64, fetch_uint32, fetch_uint64,
}

abbrev pub read_slot : Option ℕ → ℕ → ℕ → Action ℕ
read_slot none i n vm = panic (index_range i n)
read_slot (some v) i n vm = ok (v, vm)

-- `vm.ctx.locals[i]` and `vm.globals[i]`, read and written.
unfoldable pub local_at : ℕ → Action ℕ
local_at i vm = read_slot (get_elem? vm.locals i) i (length vm.locals) vm

unfoldable pub set_local_at : ℕ → ℕ → Action (Unit {0})
set_local_at i v vm =
    if ltb i (length vm.locals)
    then ok (tt, record vm { locals = set vm.locals i v })
    else panic (index_range i (length vm.locals))

unfoldable pub global_at : ℕ → Action ℕ
global_at i vm = read_slot (get_elem? vm.globals i) i (length vm.globals) vm

unfoldable pub set_global_at : ℕ → ℕ → Action (Unit {0})
set_global_at i v vm =
    if ltb i (length vm.globals)
    then ok (tt, record vm { globals = set vm.globals i v })
    else panic (index_range i (length vm.globals))

abbrev pub top_of : List ℕ → Action ℕ
top_of [] vm = panic empty_stack
top_of (v ∷ rest) vm = ok (v, vm)

-- `vm.ctx.stack[len(vm.ctx.stack)-1]`
unfoldable pub stack_top : Action ℕ
stack_top vm = top_of vm.stack vm

unfoldable pub get_local : Action (Unit {0})
get_local = do index ← fetch_uint32; v ← local_at index; push_uint64 v

unfoldable pub set_local : Action (Unit {0})
set_local = do index ← fetch_uint32; v ← pop_uint64; set_local_at index v

unfoldable pub tee_local : Action (Unit {0})
tee_local = do index ← fetch_uint32; val ← stack_top; set_local_at index val

unfoldable pub get_global : Action (Unit {0})
get_global = do index ← fetch_uint32; v ← global_at index; push_uint64 v

unfoldable pub set_global : Action (Unit {0})
set_global = do index ← fetch_uint32; v ← pop_uint64; set_global_at index v

unfoldable pub i32_const : Action (Unit {0})
i32_const = fetch_uint32 >>= push_uint32

unfoldable pub i64_const : Action (Unit {0})
i64_const = fetch_uint64 >>= push_uint64

unfoldable pub f32_const : Action (Unit {0})
f32_const = fetch_uint32 >>= push_uint32

unfoldable pub f64_const : Action (Unit {0})
f64_const = fetch_uint64 >>= push_uint64

unfoldable pub drop_op : Action (Unit {0})
drop_op = pop_uint64 >>= λ _. pure tt

unfoldable pub select_op : Action (Unit {0})
select_op = do
  c ← pop_uint32
  val2 ← pop_uint64
  val1 ← pop_uint64
  push_uint64 (if c == 0 then val2 else val1)

unfoldable pub unreachable_op : Action (Unit {0})
unreachable_op = trap unreachable

unfoldable pub nop : Action (Unit {0})
nop = pure tt

unfoldable pub i32_wrap_i64 : Action (Unit {0})
i32_wrap_i64 = pop_uint64 >>= λ v. push_uint32 (v % 2 ^ 32)

unfoldable pub i64_extend_s_i32 : Action (Unit {0})
i64_extend_s_i32 = pop_int32 >>= λ v. push_int64 (extend_s 32 64 v)

unfoldable pub i64_extend_u_i32 : Action (Unit {0})
i64_extend_u_i32 = pop_uint32 >>= push_uint64

unfoldable pub i32_reinterpret_f32 : Action (Unit {0})
i32_reinterpret_f32 = pop_uint32 >>= push_uint32

unfoldable pub i64_reinterpret_f64 : Action (Unit {0})
i64_reinterpret_f64 = pop_uint64 >>= push_uint64

unfoldable pub f32_reinterpret_i32 : Action (Unit {0})
f32_reinterpret_i32 = pop_uint32 >>= push_uint32

unfoldable pub f64_reinterpret_i64 : Action (Unit {0})
f64_reinterpret_i64 = pop_uint64 >>= push_uint64
