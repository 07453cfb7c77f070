-- ===== src/Stack/Pool.antt =====
-- The pool of integers.
use sea_pkg.Base.{◌+◌, ◌-◌, ◌≤◌, List, [], ◌∷◌, ◌++◌, ◌≡◌, refl, ap, ◌∙◌, some, true, false, arith}
use sea_pkg.Base.{
  ltb, lt→ltb, length, length-append, get_elem?, get_elem?-append_next, take, take-append,
}
use sea_pkg.Base.Outcome.{ok}
use sea_pkg.Stack.{from_top, push, pop, get, put, put_all, pool_limit}

module _ {ℓ} {A : Type ℓ} where
  pub pop-push : (d : A) (st : List A) → pop (push d st) ≡ ok (d, st)
  unfolding push pop from_top
  pop-push d st =
      let size : length (st ++ d ∷ []) - 1 ≡ length st = omega (arith, length-append st (d ∷ [])) in
      let last : get_elem? (st ++ d ∷ []) (length (st ++ d ∷ []) - 1) ≡ some d =
        ap (get_elem? (st ++ d ∷ [])) size ∙ get_elem?-append_next st d in
      let before : take (length (st ++ d ∷ []) - 1) (st ++ d ∷ []) ≡ st =
        ap (λ n. take n (st ++ d ∷ [])) size ∙ take-append st (d ∷ []) in
      let enough : ltb (length (st ++ d ∷ [])) 1 ≡ false =
        ground (arith, length-append st (d ∷ [])) in
      rw (enough, last, before) refl

  length-put_all : (is' pool : List A) → length (put_all is' pool) ≡ length pool + length is'
  unfolding put_all push
  length-put_all [] pool = omega arith
  length-put_all (i ∷ is') pool =
      omega (arith, length-put_all is' (pool ++ i ∷ []), length-append pool (i ∷ []))

  length-push : (d : A) (st : List A) → length (push d st) ≡ length st + 1
  unfolding push
  length-push d st = length-append st (d ∷ [])

  put_all-last :
      (is' : List A) (i : A) (pool : List A)
      → put_all (is' ++ i ∷ []) pool ≡ push i (put_all is' pool)
  unfolding put_all
  put_all-last [] i pool = refl
  put_all-last (j ∷ is') i pool = put_all-last is' i (push j pool)

  -- A pool of at most 256 integers takes every integer that `Put` is given, however many, and `Get`
  -- then returns the last of them and leaves the others.
  pub get-put :
      (new_int : A) (is' : List A) (i : A) (pool : List A)
      → length pool ≤ pool_limit
      → (length (put (is' ++ i ∷ []) pool) ≡ length pool + length is' + 1)
        × (get new_int (put (is' ++ i ∷ []) pool) ≡ ok (i, put is' pool))
  unfolding get put
  get-put new_int is' i pool h =
      let room : ltb pool_limit (length pool) ≡ false = ground arith in
      let size : length (push i (put_all is' pool)) ≡ length pool + length is' + 1 =
        omega (arith, length-push i (put_all is' pool), length-put_all is' pool) in
      let some_left : ltb 0 (length (push i (put_all is' pool))) ≡ true =
        lt→ltb 0 _ (omega (arith, size)) in
      rw (room, put_all-last is' i pool) (size, rw (some_left, pop-push i (put_all is' pool)) refl)
