-- ===== src/Exec/Table/Fetch.antt =====
-- The effects of fetching, of variables and of the linear memory.
use sea_pkg.Base.{ℕ, suc, ◌≡◌, List, [], ◌∷◌, ◌++◌, arith, length, if_both, leb, ltb}
use sea_pkg.Base.{◌+◌, Option, none, some, get_elem?}
use sea_pkg.Base.Outcome.{ok, panic, index_range}
use sea_pkg.Base.Words.{is_neg, mul}
use sea_pkg.Exec.{Vm, gets, code_at, advance, fetch_int8, fetch_uint32, fetch_uint64}
use sea_pkg.Exec.Variables.{
  stack_top, top_of, read_slot, local_at, set_local_at, global_at, set_global_at,
}
use sea_pkg.Exec.Linear.{
  fetch_base_addr, in_bounds, check_bounds, load_at, load, store_at, store, grow_by, wasm_page_size,
}
use sea_pkg.Exec.Table.Effect.{
  Leaves, Effect, Effect-pure, Effect-trap, Effect-gets, Effect-if, Pops, Peeks, Neutral, bind-Pops,
  bind-Peeks, bind-Neutral, pop_int32-Pops, effect_rules,
}

code_at-Neutral : (n : ℕ) → Neutral (code_at n)
unfolding code_at
code_at-Neutral n = record {
  at = λ k. record {
    at = λ vm xs rest h e.
        if_both (Leaves k rest) (leb (vm.pc + n) (length vm.code)) (xs, h, e)
          (if_both (Leaves k rest) (leb vm.pc (length vm.code)) tt tt);
  };
}

advance-Neutral : (n : ℕ) → Neutral (advance n)
unfolding advance
advance-Neutral n = record { at = λ k. record { at = λ vm xs rest h e. (xs, h, e) } }

ruleset fetch_rules = (effect_rules, code_at-Neutral, advance-Neutral)

pub fetch_uint32-Neutral : Neutral fetch_uint32
unfolding fetch_uint32
fetch_uint32-Neutral = record { at = λ k. search fetch_rules }

pub fetch_uint64-Neutral : Neutral fetch_uint64
unfolding fetch_uint64
fetch_uint64-Neutral = record { at = λ k. search fetch_rules }

pub fetch_int8-Neutral : Neutral fetch_int8
unfolding fetch_int8
fetch_int8-Neutral = record {
  at = λ k. record { at = λ vm xs rest h e. slot (get_elem? vm.code vm.pc) vm xs rest k h e };
}
  where
    slot :
        (o : Option ℕ) (vm : Vm) (xs rest : List ℕ) (k : ℕ)
        → length xs ≡ k
        → vm.stack ≡ xs ++ rest
        → Leaves k rest (elim o [
          | none ↦ panic (index_range vm.pc (length vm.code))
          | some b ↦ ok (b, record vm { pc = vm.pc + 1 })
        ])
    slot none vm xs rest k h e = tt
    slot (some b) vm xs rest k h e = (xs, h, e)

pub gets-Neutral : {A : Type 0} (f : Vm → A) → Neutral (gets f)
gets-Neutral f = record { at = λ k. Effect-gets k f }

slot_Leaves :
    (o : Option ℕ) (i n k : ℕ) (vm : Vm) (xs rest : List ℕ)
    → length xs ≡ k
    → vm.stack ≡ xs ++ rest
    → Leaves k rest (read_slot o i n vm)
slot_Leaves none i n k vm xs rest h e = tt
slot_Leaves (some v) i n k vm xs rest h e = (xs, h, e)

pub local_at-Neutral : (i : ℕ) → Neutral (local_at i)
unfolding local_at
local_at-Neutral i = record {
  at = λ k. record { at = λ vm xs rest h e. slot_Leaves _ i _ k vm xs rest h e };
}

pub global_at-Neutral : (i : ℕ) → Neutral (global_at i)
unfolding global_at
global_at-Neutral i = record {
  at = λ k. record { at = λ vm xs rest h e. slot_Leaves _ i _ k vm xs rest h e };
}

pub Effect-set_local_at : (k i v : ℕ) → Effect k k (set_local_at i v)
unfolding set_local_at
Effect-set_local_at k i v = record {
  at = λ vm xs rest h e. if_both (Leaves k rest) (ltb i (length vm.locals)) (xs, h, e) tt;
}

pub Effect-set_global_at : (k i v : ℕ) → Effect k k (set_global_at i v)
unfolding set_global_at
Effect-set_global_at k i v = record {
  at = λ vm xs rest h e. if_both (Leaves k rest) (ltb i (length vm.globals)) (xs, h, e) tt;
}

top_Leaves :
    (k : ℕ) (vm : Vm) (s xs rest : List ℕ)
    → length xs ≡ suc k
    → s ≡ xs ++ rest
    → vm.stack ≡ xs ++ rest
    → Leaves (suc k) rest (top_of s vm)
top_Leaves k vm s [] rest h e f = absurd (omega arith)
top_Leaves k vm s (x ∷ xs) rest h e f = rw (e, top_of) (x ∷ xs, h, f)

pub stack_top-Peeks : Peeks stack_top
unfolding stack_top
stack_top-Peeks = record {
  at = λ k. record { at = λ vm xs rest h e. top_Leaves k vm vm.stack xs rest h e e };
}

ruleset memory_effects = (fetch_rules, gets-Neutral, stack_top-Peeks, fetch_uint32-Neutral)

in_bounds-Peeks : (k : ℕ) → Peeks (in_bounds k)
unfolding in_bounds
in_bounds-Peeks k = record { at = λ n. search memory_effects depth 9 }

pub check_bounds-Peeks : (k : ℕ) → Peeks (check_bounds k)
unfolding check_bounds
check_bounds-Peeks k = record {
  at = λ n.
      bind-Peeks n (suc n) _ _ (in_bounds-Peeks k)
        (λ b. Effect-if (suc n) (suc n) b (Effect-pure (suc n) tt) (Effect-trap (suc n) (suc n) _));
}

fetch_base_addr-Pops : Pops fetch_base_addr
unfolding fetch_base_addr
fetch_base_addr-Pops = record { at = λ n. search memory_effects depth 9 }

load_at-Neutral : (n addr : ℕ) → Neutral (load_at n addr)
unfolding load_at
load_at-Neutral n addr = record {
  at = λ k. record {
    at = λ vm xs rest h e.
        if_both (Leaves k rest) (leb (addr + n) (length vm.memory)) (xs, h, e)
          (if_both (Leaves k rest) (leb addr (length vm.memory)) tt tt);
  };
}

store_at-Effect : (n v addr k : ℕ) → Effect k k (store_at n v addr)
unfolding store_at
store_at-Effect n v addr k = record {
  at = λ vm xs rest h e.
      if_both (Leaves k rest) (leb (addr + n) (length vm.memory)) (xs, h, e)
        (if_both (Leaves k rest) (leb addr (length vm.memory)) tt tt);
}

pub load-Pops : (n : ℕ) → Pops (load n)
unfolding load
load-Pops n = record {
  at = λ k. bind-Pops k k _ _ fetch_base_addr-Pops (λ addr. (load_at-Neutral n addr).at k);
}

pub Effect-store : (n v k : ℕ) → Effect (suc k) k (store n v)
unfolding store
Effect-store n v k = bind-Pops k k _ _ fetch_base_addr-Pops (λ addr. store_at-Effect n v addr k)

pub grow_by-Neutral : (n : ℕ) → Neutral (grow_by n)
unfolding grow_by
grow_by-Neutral n = record {
  at = λ k. record {
    at = λ vm xs rest h e.
        if_both (Leaves k rest) (is_neg 32 (mul 32 n wasm_page_size)) tt (xs, h, e);
  };
}

pub ruleset operator_rules = (
  effect_rules, Effect-trap, fetch_uint32-Neutral, fetch_uint64-Neutral, fetch_int8-Neutral,
  gets-Neutral, local_at-Neutral, global_at-Neutral, Effect-set_local_at, Effect-set_global_at,
  stack_top-Peeks, check_bounds-Peeks, load-Pops, Effect-store, grow_by-Neutral,
)
