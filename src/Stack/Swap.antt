-- ===== src/Stack/Swap.antt =====
-- What a stack of enough elements allows.
use sea_pkg.Base.{
  ◌≢◌, get_elem?, ℕ, zero, suc, ◌-◌, ◌≤◌, ◌<◌, List, [], ◌∷◌, false, some, ◌≡◌, refl, ap, sym, ◌∙◌,
}
use sea_pkg.Base.{ltb, arith, length, set, length-set, get_elem?-set_self, get_elem?-set_ne}
use sea_pkg.Base.Outcome.{ok}
use native.Mathlib.Decide.{dec_lt}
use sea_pkg.Stack.{from_top, swap, peek}

module _ {ℓ} {A : Type ℓ} where
  get_elem?-lt : (xs : List A) (i : ℕ) → i < length xs → (a : A) × (get_elem? xs i ≡ some a)
  get_elem?-lt [] i h = absurd (omega arith)
  get_elem?-lt (x ∷ xs) zero h = (x, refl)
  get_elem?-lt (x ∷ xs) (suc i) h = get_elem?-lt xs i (omega arith)

  -- Two lists with the same elements at all positions are equal.
  list_ext : (xs ys : List A) → ((i : ℕ) → get_elem? xs i ≡ get_elem? ys i) → xs ≡ ys
  list_ext [] [] h = refl
  list_ext [] (y ∷ ys) h = let clash : get_elem? {A = A} [] 0 ≡ some y = h 0 in cc
  list_ext (x ∷ xs) [] h = let clash : some x ≡ get_elem? {A = A} [] 0 = h 0 in cc
  list_ext (x ∷ xs) (y ∷ ys) h =
      let heads : some x ≡ some y = h 0 in
      let first : x ≡ y = cc in
      ap (λ k. k ∷ xs) first ∙ ap (◌∷◌ y) (list_ext xs ys (λ i. h (suc i)))

  from_top-ok :
      (n : ℕ) (st : List A) (a : A)
      → n ≤ length st
      → get_elem? st (length st - n) ≡ some a
      → from_top n st ≡ ok a
  unfolding from_top
  from_top-ok n st a h e =
      let enough : ltb (length st) n ≡ false = ground arith in rw (enough, e) refl

  -- The list with the elements at `i` and `j` exchanged, at each position.
  module _ (st : List A) (i j : ℕ) (a b : A) where
    exchange : List A
    exchange = set (set st i a) j b

    exchange-second : j < length st → get_elem? exchange j ≡ some b
    unfolding exchange
    exchange-second h = get_elem?-set_self (set st i a) j b (omega (arith, h, length-set st i a))

    exchange-first :
        i ≤ j
        → j < length st
        → get_elem? st j ≡ some a
        → get_elem? st i ≡ some b
        → get_elem? exchange i ≡ some a
    unfolding exchange
    exchange-first h k e f = elim (dec_lt i j) [
      | yes less ↦
          let apart : j ≢ i = λ s. absurd (omega (arith, s, less)) in
          get_elem?-set_ne (set st i a) b apart ∙ get_elem?-set_self st i a (omega arith)
      | no more ↦
          let same : i ≡ j = omega arith in
          ap (get_elem? exchange) same ∙ exchange-second k ∙ sym f ∙ ap (get_elem? st) same ∙ e
    ]

    exchange-other : (k : ℕ) → i ≢ k → j ≢ k → get_elem? exchange k ≡ get_elem? st k
    unfolding exchange
    exchange-other k h l = get_elem?-set_ne (set st i a) b l ∙ get_elem?-set_ne st a h

    length-exchange : length exchange ≡ length st
    unfolding exchange
    length-exchange = length-set (set st i a) j b ∙ length-set st i a

  others :
      (st : List A) (i j : ℕ) (a b : A) (p : ℕ)
      → i ≢ p
      → j ≢ p
      → get_elem? (exchange (exchange st i j a b) i j b a) p ≡ get_elem? st p
  others st i j a b p h k =
      exchange-other (exchange st i j a b) i j b a p h k ∙ exchange-other st i j a b p h k

  -- Exchanging the same positions again gives back the list.
  exchange_twice :
      (st : List A) (i j : ℕ) (a b : A)
      → i ≤ j
      → j < length st
      → get_elem? st j ≡ some a
      → get_elem? st i ≡ some b
      → exchange (exchange st i j a b) i j b a ≡ st
  exchange_twice st i j a b h k e f =
      let once = exchange st i j a b in
      let inside : j < length once = omega (arith, k, length-exchange st i j a b) in
      let first = exchange-first st i j a b h k e f in
      let second = exchange-second st i j a b k in
      list_ext _ st λ p. elim (dec_lt p j) [
        | yes below ↦ elim (dec_lt p i) [
          | yes left ↦
              others st i j a b p (λ s. absurd (omega (arith, s))) (λ s. absurd (omega (arith, s)))
          | no right ↦ elim (dec_lt i p) [
            | yes between ↦
                others st i j a b p (λ s. absurd (omega (arith, s)))
                  (λ s. absurd (omega (arith, s)))
            | no at ↦
                let here : p ≡ i = omega arith in
                ap (get_elem? (exchange once i j b a)) here
                ∙ exchange-first once i j b a h inside second first
                ∙ sym f
                ∙ ap (get_elem? st) (sym here)
          ]
        ]
        | no above ↦ elim (dec_lt j p) [
          | yes beyond ↦
              others st i j a b p (λ s. absurd (omega (arith, s))) (λ s. absurd (omega (arith, s)))
          | no at ↦
              let here : p ≡ j = omega arith in
              ap (get_elem? (exchange once i j b a)) here
              ∙ exchange-second once i j b a inside
              ∙ sym e
              ∙ ap (get_elem? st) (sym here)
        ]
      ]

  swap-exchange :
      (n : ℕ) (st : List A) (a b : A)
      → 0 < n
      → n ≤ length st
      → get_elem? st (length st - 1) ≡ some a
      → get_elem? st (length st - n) ≡ some b
      → swap n st ≡ ok (exchange st (length st - n) (length st - 1) a b)
  unfolding swap exchange
  swap-exchange n st a b h k e f =
      rw (from_top-ok 1 st a (omega arith) e, from_top-ok n st b k f) refl

  -- `Swap` with 1 to as many as there are elements exchanges the top with the element `n` from it:
  -- the top is then that element, and the same `Swap` takes it back.
  pub swap-swap :
      (n : ℕ) (st : List A)
      → 0 < n
      → n ≤ length st
      → (st' : List A) × (swap n st ≡ ok st') × (peek st' ≡ from_top n st) × (swap n st' ≡ ok st)
  unfolding peek
  swap-swap n st h k =
      let i = length st - n in
      let j = length st - 1 in
      let (a, e) = get_elem?-lt st j (omega arith) in
      let (b, f) = get_elem?-lt st i (omega arith) in
      let once = exchange st i j a b in
      let len : length once ≡ length st = length-exchange st i j a b in
      let top : get_elem? once (length once - 1) ≡ some b =
        ap (λ l. get_elem? once (l - 1)) len ∙ exchange-second st i j a b (omega arith) in
      let inner : get_elem? once (length once - n) ≡ some a =
        ap (λ l. get_elem? once (l - n)) len
        ∙ exchange-first st i j a b (omega arith) (omega arith) e f in
      (
        once,
        swap-exchange n st a b h k e f,
        from_top-ok 1 once b (omega (arith, len)) top ∙ sym (from_top-ok n st b k f),
        swap-exchange n once b a h (omega (arith, len)) top inner
            ∙ ap (λ l. ok (exchange once (l - n) (l - 1) b a)) len
            ∙ ap ok (exchange_twice st i j a b (omega arith) (omega arith) e f),
      )
