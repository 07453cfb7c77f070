-- ===== src/Compile/Patches.antt =====
-- The patches of addresses in the code and in the tables.
use sea_pkg.Base.{ℕ, zero, suc, ◌+◌, ◌-◌, ◌≤◌, ◌≡◌, refl, ap, ◌∙◌, arith, List, [], ◌∷◌, ◌++◌, map}
use sea_pkg.Base.{
  length, get_elem?, set, take, drop, All, length-append, length-take, length-drop, ltb, false,
  some,
}
use sea_pkg.Base.Outcome.{ok}
use sea_pkg.Base.Bytes.{le_bytes, length-le_bytes}
use sea_pkg.Compile.{BranchTable, patch_offset, patch_all, patch_table, patch_tables}

pub patch_offset-ok :
    (code : List ℕ) (start addr : ℕ)
    → start + 8 ≤ length code
    → (code' : List ℕ) × (patch_offset code start addr ≡ ok code') × (length code' ≡ length code)
unfolding patch_offset
patch_offset-ok code start addr h = (
  take start code ++ (le_bytes 8 addr ++ drop (start + 8) code),
  ground arith,
  omega (
    arith,
    length-append {0} (take start code) (le_bytes 8 addr ++ drop (start + 8) code),
    length-append {0} (le_bytes 8 addr) (drop (start + 8) code),
    length-take {0} start code,
    length-drop {0} (start + 8) code,
    length-le_bytes 8 addr,
  ),
)

-- A patch fits a code of `n` bytes.
abbrev pub Fits : ℕ → ℕ → Type 0
Fits n o = o + 8 ≤ n

pub patch_all-ok :
    (os : List ℕ) (addr : ℕ) (code : List ℕ) (n : ℕ)
    → length code ≡ n
    → All (Fits n) os
    → (code' : List ℕ) × (patch_all os addr code ≡ ok code') × (length code' ≡ n)
unfolding patch_all
patch_all-ok [] addr code n e h = (code, refl, e)
patch_all-ok (o ∷ os) addr code n e (h, t) =
    let (code', patched, same) = patch_offset-ok code o addr (omega arith) in
    rw patched (patch_all-ok os addr code' n (same ∙ e) t)

abbrev pub lens : List BranchTable → List ℕ
lens = map (λ (t : BranchTable). t.blocks_len)

-- The table `k` is there, and was made inside `n` blocks at least.
abbrev pub Covers : List ℕ → ℕ → ℕ → Type 0
Covers ls n k = (l : ℕ) × (get_elem? ls k ≡ some l) × (n ≤ l)

lens_get :
    (tables : List BranchTable) (k l : ℕ)
    → get_elem? (lens tables) k ≡ some l
    → (t : BranchTable) × (get_elem? tables k ≡ some t) × (t.blocks_len ≡ l)
lens_get [] k l h = cc
lens_get (t ∷ ts) zero l h = (t, refl, ground arith)
lens_get (t ∷ ts) (suc k) l h = lens_get ts k l h

lens-set :
    (tables : List BranchTable) (k : ℕ) (t t' : BranchTable)
    → get_elem? tables k ≡ some t
    → t'.blocks_len ≡ t.blocks_len
    → lens (set tables k t') ≡ lens tables
lens-set [] k t t' h e = refl
lens-set (s ∷ ts) zero t t' h e = ground arith
lens-set (s ∷ ts) (suc k) t t' h e = ap (◌∷◌ s.blocks_len) (lens-set ts k t t' h e)

pub patch_tables-ok :
    (n addr : ℕ) (ks : List ℕ) (tables : List BranchTable) (ls : List ℕ)
    → lens tables ≡ ls
    → All (Covers ls n) ks
    → (tables' : List BranchTable) × (patch_tables n addr ks tables ≡ ok tables')
      × (lens tables' ≡ ls)
unfolding patch_tables patch_table
patch_tables-ok n addr [] tables ls e h = (tables, refl, e)
patch_tables-ok n addr (k ∷ ks) tables ls e ((l, at, le), t) =
    let (tb, has, same) = lens_get tables k l (ap (λ xs. get_elem? xs k) e ∙ at) in
    let inside : ltb tb.blocks_len n ≡ false = ground arith in
    let tables' : List BranchTable = set tables k (patch_table (tb.blocks_len - n) addr tb) in
    rw (has, inside) (patch_tables-ok n addr ks tables' ls (lens-set tables k tb _ has refl ∙ e) t)
