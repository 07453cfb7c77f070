-- ===== src/Db/Order.antt =====
-- The keys that `GetAllKey` lists, and the order in which `StackPool` gives back what was pushed.
use sea_pkg.Base.{
  ap, get_elem?, take, ℕ, zero, suc, ◌+◌, ◌-◌, List, [], ◌∷◌, ◌++◌, map, true, Option, none, some,
  ◌≡◌, refl, ◌∙◌, inl, inr,
}
use sea_pkg.Base.{
  if◌then◌else◌, ltb, lt→ltb, Bool-cases, arith, length, length-append, get_elem?-append_next,
  take-append,
}
use sea_pkg.Base.Outcome.{Outcome, ok, ◌>>=◌}
use mathlib.Core.Path.{subst}
use sea_pkg.Db.{
  Bytes, bytes_eq, lookup, has, is_some, get_all_key, pool_push, pool_pop, stack_pool_push,
  stack_pool_pop,
}
use sea_pkg.Db.Refines.{IsMap, Call, run, run-IsMap, bytes_eq_path}

-- How often a key is in a list of keys.
abbrev pub count : Bytes → List Bytes → ℕ
count key [] = 0
count key (k ∷ ks) = (if bytes_eq k key then 1 else 0) + count key ks

count-keys :
    (es : List (Bytes × Bytes)) (key : Bytes)
    → IsMap es
    → count key (map (λ (e : Bytes × Bytes). e.0) es) ≡ (if is_some (lookup key es) then 1 else 0)
unfolding lookup
count-keys [] key h = refl
count-keys ((k, v) ∷ rest) key (new, h) = elim (Bool-cases (bytes_eq k key)) [
  | inl same ↦
      let gone : lookup key rest ≡ none =
        subst (λ x. lookup x rest ≡ none) (bytes_eq_path k key same) new in
      rw (same, count-keys rest key h, gone) (omega arith)
  | inr other ↦ rw (other, count-keys rest key h) (omega arith)
]

-- Whatever order a `range` takes the keys in, `GetAllKey` lists each key that the database has
-- once, and no other, after any calls of `Put` and `Del` on a new database.
pub get_all_key-count :
    (order : List Bytes → List Bytes)
    → ((keys : List Bytes) (key : Bytes) → count key (order keys) ≡ count key keys)
    → (calls : List Call) (key : Bytes)
    → count key (get_all_key order (run calls)) ≡ (if has key (run calls) then 1 else 0)
unfolding get_all_key has
get_all_key-count order permutes calls key =
    permutes _ key ∙ count-keys (run calls).entries key (run-IsMap calls)

module _ {ℓ} {A : Type ℓ} where
  -- A pool after the pushes, the latest first.
  pub pushed : List A → List A → List A
  pushed [] s = s
  pushed (x ∷ xs) s = stack_pool_push x (pushed xs s)

  -- As many calls of `Pop`, and what they return.
  pub pops : ℕ → List A → Outcome ⊥ (List (Option A) × List A)
  pops zero s = ok ([], s)
  pops (suc n) s = do (x, s') ← stack_pool_pop s; (xs, s'') ← pops n s'; ok (x ∷ xs, s'')

  not_empty : (x : A) (p : List A) → ltb 0 (length (pool_push x p)) ≡ true
  unfolding pool_push
  not_empty x p = lt→ltb 0 _ (omega (arith, length-append p (x ∷ [])))

  pub pool_pop-pool_push : (x : A) (p : List A) → pool_pop (pool_push x p) ≡ ok (x, p)
  unfolding pool_push pool_pop
  pool_pop-pool_push x p =
      let size : length (p ++ x ∷ []) - 1 ≡ length p = omega (arith, length-append p (x ∷ [])) in
      let last : get_elem? (p ++ x ∷ []) (length (p ++ x ∷ []) - 1) ≡ some x =
        ap (get_elem? (p ++ x ∷ [])) size ∙ get_elem?-append_next p x in
      let before : take (length (p ++ x ∷ []) - 1) (p ++ x ∷ []) ≡ p =
        ap (λ n. take n (p ++ x ∷ [])) size ∙ take-append p (x ∷ []) in
      rw (last, before, pool_pop) refl

  pub stack_pool_pop-stack_pool_push :
      (x : A) (s : List A) → stack_pool_pop (stack_pool_push x s) ≡ ok (some x, s)
  unfolding stack_pool_pop stack_pool_push
  stack_pool_pop-stack_pool_push x s = rw (not_empty x s, pool_pop-pool_push x s) refl

  -- `Pop` gives back what was pushed, the latest first, and leaves what was there before.
  pub pops-pushed : (xs s : List A) → pops (length xs) (pushed xs s) ≡ ok (map some xs, s)
  unfolding pops pushed
  pops-pushed [] s = refl
  pops-pushed (x ∷ xs) s =
      rw (stack_pool_pop-stack_pool_push x (pushed xs s), pops-pushed xs s) refl
