-- ===== src/Exec/Linear/Bounds.antt =====
-- The bounds test that guards every load and store, and the growth of the memory.
use sea_pkg.Base.{ℕ, suc, ◌+◌, ◌*◌, ◌%◌, ◌^◌, ◌≤◌, ◌<◌, ◌≡◌, refl, List, ◌∷◌, ◌++◌, arith}
use sea_pkg.Base.{
  true, false, ltb, leb, if◌then◌else◌, length, drop, replicate, inl, inr, Bool-cases,
}
use sea_pkg.Base.{get_elem?, some}
use sea_pkg.Base.Outcome.{ok, err, panic, make_length}
use sea_pkg.Base.Bytes.{le_value, le_bytes}
use sea_pkg.Base.Words.{extend_s}
use sea_pkg.Exec.{
  Vm, out_of_bounds_memory, ◌>>=◌, ◌>>◌, pure, trap, gets, code_at, fetch_uint32, pop_int32,
  push_int32, fetch_int8,
}
use sea_pkg.Exec.Variables.{stack_top}
use sea_pkg.Exec.Linear.{
  fetch_base_addr, in_bounds, check_bounds, load_at, load, store_at, store, overwrite, grow_by,
  grow_memory, page_count,
}

-- The effective address of an operator whose immediate is at `pc` and whose operand is `a`.
abbrev pub address : Vm → ℕ → ℕ
address vm a = (le_value 4 (drop vm.pc vm.code) + a % 2 ^ 32) % 2 ^ 32

-- The machine behind the fetch of the address.
abbrev pub past_address : Vm → List ℕ → Vm
past_address vm rest = record vm { stack = rest; pc = vm.pc + 4 }

module _ (vm : Vm) (a : ℕ) (rest : List ℕ) (top : vm.stack ≡ a ∷ rest)
    (imm : vm.pc + 4 ≤ length vm.code) where
  in_bounds-address : (k : ℕ) → in_bounds k vm ≡ ok (ltb (address vm a + k) (length vm.memory), vm)
  unfolding in_bounds code_at stack_top ◌>>=◌ pure gets
  in_bounds-address k = ground arith

  fetch_base_addr-address : fetch_base_addr vm ≡ ok (address vm a, past_address vm rest)
  unfolding fetch_base_addr fetch_uint32 pop_int32 ◌>>=◌ pure
  fetch_base_addr-address = ground arith

  -- A guarded load of `suc k` bytes returns those at the effective address, if the last of them
  -- lies in the memory, and traps if not; either way no slice is out of range.
  pub guarded_load :
      (k : ℕ)
      → (check_bounds k >> load (suc k)) vm ≡ (
          if ltb (address vm a + k) (length vm.memory)
          then ok (le_value (suc k) (drop (address vm a) vm.memory), past_address vm rest)
          else err out_of_bounds_memory)
  unfolding check_bounds load load_at ◌>>=◌ pure trap
  guarded_load k = elim (Bool-cases (ltb (address vm a + k) (length vm.memory))) [
    | inl inside ↦
        let fits : leb (address vm a + suc k) (length vm.memory) ≡ true = ground arith in
        rw (in_bounds-address k, inside, fetch_base_addr-address, fits) refl
    | inr outside ↦ rw (in_bounds-address k, outside) refl
  ]

  -- A guarded store of `suc k` bytes writes those of `v` at the effective address, if the last of
  -- them lies in the memory, and traps if not.
  pub guarded_store :
      (k v : ℕ)
      → (check_bounds k >> store (suc k) v) vm ≡ (
          if ltb (address vm a + k) (length vm.memory)
          then ok (
            tt,
            record (past_address vm rest) {
              memory = overwrite vm.memory (address vm a) (le_bytes (suc k) v);
            },
          )
          else err out_of_bounds_memory)
  unfolding check_bounds store store_at ◌>>=◌ pure trap
  guarded_store k v = elim (Bool-cases (ltb (address vm a + k) (length vm.memory))) [
    | inl inside ↦
        let fits : leb (address vm a + suc k) (length vm.memory) ≡ true = ground arith in
        rw (in_bounds-address k, inside, fetch_base_addr-address, fits) refl
    | inr outside ↦ rw (in_bounds-address k, outside) refl
  ]

grow_by_pages :
    (n : ℕ) (vm : Vm)
    → grow_by n vm ≡ (
        if ltb (n % 65536) 32768
        then ok (tt, record vm { memory = vm.memory ++ replicate (n % 65536 * 65536) 0 })
        else panic make_length)
unfolding grow_by
grow_by_pages n vm =
    let size : n * 65536 % 2 ^ 32 ≡ n % 65536 * 65536 = omega arith in
    rw size (elim (Bool-cases (ltb (n % 65536) 32768)) [
      | inl few ↦
          let small : leb (2 ^ 31) (n % 65536 * 65536) ≡ false = ground arith in
          rw (few, small) refl
      | inr many ↦
          let big : leb (2 ^ 31) (n % 65536 * 65536) ≡ true = ground arith in rw (many, big) refl
    ])

-- `grow_memory` on a request of `n` pages, a `uint32`: the number of bytes is `n * 65536` as an
-- `int32`. So the memory grows by `n % 65536` pages of zeros and the old number of pages is pushed,
-- if `n % 65536` is below 32768; if not, the call panics.
pub grow_memory-pages :
    (vm : Vm) (n b : ℕ) (rest : List ℕ)
    → vm.stack ≡ n ∷ rest
    → get_elem? vm.code vm.pc ≡ some b
    → n < 2 ^ 32
    → grow_memory vm ≡ (
        if ltb (n % 65536) 32768
        then ok (
          tt,
          record vm {
            stack = extend_s 32 64 (page_count vm) ∷ rest;
            pc = vm.pc + 1;
            memory = vm.memory ++ replicate (n % 65536 * 65536) 0;
          },
        )
        else panic make_length)
unfolding grow_memory fetch_int8 pop_int32 gets push_int32 ◌>>=◌
grow_memory-pages vm n b rest s c h =
    let low : n % 2 ^ 32 ≡ n = omega arith in
    ground (arith, low, grow_by_pages n (record vm { stack = rest; pc = vm.pc + 1 }))
