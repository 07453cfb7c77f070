-- ===== src/Exec/Linear.antt =====
-- wagon/exec/memory.go: loads and stores of the linear memory, and its growth.
-- An operator first tests its bounds on the address that it has not fetched yet, then fetches it.
pub mod RoundTrip
pub mod Bounds
use sea_pkg.Base.{ℕ, ◌+◌, ◌-◌, ◌*◌, ◌/◌, ◌%◌, ◌^◌, List, [], ◌∷◌, ◌++◌, Bool, true, false}
use sea_pkg.Base.{◌==◌, leb, ltb, if◌then◌else◌, length, take, drop, replicate, get_elem?, set}
use sea_pkg.Base.Outcome.{Outcome, ok, err, panic, index_range, slice_bounds, make_length}
use sea_pkg.Base.Bytes.{le_value, le_bytes}
use sea_pkg.Base.Words.{extend_s, is_neg, mul}
use sea_pkg.Exec.{
  Vm, Trap, out_of_bounds_memory, Result, Action, continue, ◌>>=◌, ◌>>◌, pure, trap, fault, gets,
  pop_uint64, pop_uint32, pop_int32, push_uint64, push_uint32, push_int32, push_int64, code_at,
  fetch_uint32, fetch_int8,
}
use sea_pkg.Exec.Variables.{stack_top}

-- `wasmPageSize`
abbrev pub wasm_page_size : ℕ
wasm_page_size = 65536

-- The sum is a `uint32`.
unfoldable pub fetch_base_addr : Action ℕ
fetch_base_addr = do a ← fetch_uint32; b ← pop_int32; pure ((a + b) % 2 ^ 32)

unfoldable pub in_bounds : ℕ → Action Bool
in_bounds offset = do
  a ← code_at 4
  b ← stack_top
  size ← gets (λ vm. length vm.memory)
  pure (ltb ((a + b % 2 ^ 32) % 2 ^ 32 + offset) size)

unfoldable pub check_bounds : ℕ → Action (Unit {0})
check_bounds offset =
    in_bounds offset >>= λ inside. if inside then pure tt else trap out_of_bounds_memory

-- `memory[addr:]` and then the bytes up to the offset `n - 1` in it.
abbrev pub reach : {A : Type 0} → ℕ → ℕ → Result A → Vm → Result A
reach addr n r vm =
    if leb (addr + n) (length vm.memory)
    then r
    else if leb addr (length vm.memory)
    then panic (index_range (n - 1) (length vm.memory - addr))
    else panic (slice_bounds addr (length vm.memory))

-- `endianess.Uint32(vm.curMem())` and its kin, for `n` bytes; one byte is `vm.memory[addr]`, whose
-- panic carries the address. Behind `check_bounds` none of them panics.
unfoldable pub load_at : ℕ → ℕ → Action ℕ
load_at n addr vm = reach addr n (ok (le_value n (drop addr vm.memory), vm)) vm

unfoldable pub load : ℕ → Action ℕ
load n = fetch_base_addr >>= load_at n

abbrev pub overwrite : List ℕ → ℕ → List ℕ → List ℕ
overwrite memory addr bytes = take addr memory ++ (bytes ++ drop (addr + length bytes) memory)

-- `endianess.PutUint32(vm.curMem(), v)` and its kin.
unfoldable pub store_at : ℕ → ℕ → ℕ → Action (Unit {0})
store_at n v addr vm =
    reach addr n (ok (tt, record vm { memory = overwrite vm.memory addr (le_bytes n v) })) vm

unfoldable pub store : ℕ → ℕ → Action (Unit {0})
store n v = fetch_base_addr >>= store_at n v

unfoldable pub i32_load : Action (Unit {0})
i32_load = check_bounds 3 >> (load 4 >>= push_uint32)

unfoldable pub i32_load8_s : Action (Unit {0})
i32_load8_s = check_bounds 0 >> (load 1 >>= λ v. push_int32 (extend_s 8 32 v))

unfoldable pub i32_load8_u : Action (Unit {0})
i32_load8_u = check_bounds 0 >> (load 1 >>= push_uint32)

unfoldable pub i32_load16_s : Action (Unit {0})
i32_load16_s = check_bounds 1 >> (load 2 >>= λ v. push_int32 (extend_s 16 32 v))

unfoldable pub i32_load16_u : Action (Unit {0})
i32_load16_u = check_bounds 1 >> (load 2 >>= push_uint32)

unfoldable pub i64_load : Action (Unit {0})
i64_load = check_bounds 7 >> (load 8 >>= push_uint64)

unfoldable pub i64_load8_s : Action (Unit {0})
i64_load8_s = check_bounds 0 >> (load 1 >>= λ v. push_int64 (extend_s 8 64 v))

unfoldable pub i64_load8_u : Action (Unit {0})
i64_load8_u = check_bounds 0 >> (load 1 >>= push_uint64)

unfoldable pub i64_load16_s : Action (Unit {0})
i64_load16_s = check_bounds 1 >> (load 2 >>= λ v. push_int64 (extend_s 16 64 v))

unfoldable pub i64_load16_u : Action (Unit {0})
i64_load16_u = check_bounds 1 >> (load 2 >>= push_uint64)

unfoldable pub i64_load32_s : Action (Unit {0})
i64_load32_s = check_bounds 3 >> (load 4 >>= λ v. push_int64 (extend_s 32 64 v))

unfoldable pub i64_load32_u : Action (Unit {0})
i64_load32_u = check_bounds 3 >> (load 4 >>= push_uint64)

unfoldable pub f32_load : Action (Unit {0})
f32_load = check_bounds 3 >> (load 4 >>= push_uint32)

unfoldable pub f64_load : Action (Unit {0})
f64_load = check_bounds 7 >> (load 8 >>= push_uint64)

unfoldable pub f32_store : Action (Unit {0})
f32_store = pop_uint32 >>= λ v. check_bounds 3 >> store 4 v

unfoldable pub f64_store : Action (Unit {0})
f64_store = pop_uint64 >>= λ v. check_bounds 7 >> store 8 v

unfoldable pub i32_store : Action (Unit {0})
i32_store = pop_uint32 >>= λ v. check_bounds 3 >> store 4 v

unfoldable pub i32_store8 : Action (Unit {0})
i32_store8 = pop_uint32 >>= λ v. check_bounds 0 >> store 1 (v % 2 ^ 8)

unfoldable pub i32_store16 : Action (Unit {0})
i32_store16 = pop_uint32 >>= λ v. check_bounds 1 >> store 2 (v % 2 ^ 16)

unfoldable pub i64_store : Action (Unit {0})
i64_store = pop_uint64 >>= λ v. check_bounds 7 >> store 8 v

unfoldable pub i64_store8 : Action (Unit {0})
i64_store8 = pop_uint64 >>= λ v. check_bounds 0 >> store 1 (v % 2 ^ 8)

unfoldable pub i64_store16 : Action (Unit {0})
i64_store16 = pop_uint64 >>= λ v. check_bounds 1 >> store 2 (v % 2 ^ 16)

unfoldable pub i64_store32 : Action (Unit {0})
i64_store32 = pop_uint64 >>= λ v. check_bounds 3 >> store 4 (v % 2 ^ 32)

-- `int32(len(vm.memory) / wasmPageSize)`
abbrev pub page_count : Vm → ℕ
page_count vm = length vm.memory / wasm_page_size % 2 ^ 32

unfoldable pub current_memory : Action (Unit {0})
current_memory = fetch_int8 >> (gets page_count >>= push_int32)

-- `append(vm.memory, make([]byte, n*wasmPageSize)...)`: the product is an `int32`.
unfoldable pub grow_by : ℕ → Action (Unit {0})
grow_by n vm =
    let size = mul 32 n wasm_page_size in
    if is_neg 32 size
    then panic make_length
    else ok (tt, record vm { memory = vm.memory ++ replicate size 0 })

unfoldable pub grow_memory : Action (Unit {0})
grow_memory = do
  reserved ← fetch_int8
  cur_len ← gets page_count
  n ← pop_int32
  grow_by n
  push_int32 cur_len
