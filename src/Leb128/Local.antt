-- ===== src/Leb128/Local.antt =====
-- A reader looks at no byte behind those that it takes.
use sea_pkg.Base.{ℕ, ◌+◌, ◌-◌, ◌*◌, ◌%◌, ◌^◌, ◌≡◌, refl, ap, ◌∙◌}
use sea_pkg.Base.{
  List, [], ◌∷◌, ◌++◌, ◌==◌, bit_and, bit_or, Bool, true, false, Bool-cases, inl, inr,
  if◌then◌else◌,
}
use sea_pkg.Base.Outcome.{Outcome, ok, err, panic, ◌>>=◌}
use sea_pkg.Leb128.{
  read_varint64_loop, read_varint64_size, read_varint64, read_varint32_size, read_varint32,
  read_var_uint32_loop, read_var_uint32_size, read_var_uint32,
}

-- What a reader takes from the front it takes whatever follows.
abbrev pub AtFront :
    {E A : Type 0} → (List ℕ → Outcome E (A × List ℕ)) → List ℕ → Outcome E (A × List ℕ) → Type 0
AtFront f r (ok (a, rest)) =
    (used : List ℕ) × (r ≡ used ++ rest) × ((s : List ℕ) → f (used ++ s) ≡ ok (a, s))
AtFront f r (err e) = Unit {0}
AtFront f r (panic p) = Unit {0}

module _ {E A : Type 0} where
  AtFront-longer :
      (c : ℕ) (f g : List ℕ → Outcome E (A × List ℕ)) (r : List ℕ) (o : Outcome E (A × List ℕ))
      → ((s : List ℕ) → g (c ∷ s) ≡ f s)
      → AtFront f r o
      → AtFront g (c ∷ r) o
  AtFront-longer c f g r (ok (a, rest)) h (used, e, k) =
      (c ∷ used, ap (◌∷◌ c) e, λ s. h (used ++ s) ∙ k s)
  AtFront-longer c f g r (err e) h k = tt
  AtFront-longer c f g r (panic p) h k = tt

  AtFront-map :
      {B : Type 0} (f : List ℕ → Outcome E (A × List ℕ)) (φ : A → B) (r : List ℕ)
      (o : Outcome E (A × List ℕ))
      → AtFront f r o
      → AtFront (λ s. f s >>= λ p. ok (φ p.0, p.1)) r (o >>= λ p. ok (φ p.0, p.1))
  AtFront-map f φ r (ok (a, rest)) (used, e, k) =
      (used, e, λ s. ap (λ (o : Outcome E (A × List ℕ)). o >>= λ p. ok (φ p.0, p.1)) (k s))
  AtFront-map f φ r (err e) h = tt
  AtFront-map f φ r (panic p) h = tt

  pub AtFront-if :
      (b : Bool) (f g : List ℕ → Outcome E (A × List ℕ)) (r : List ℕ)
      → AtFront f r (f r)
      → AtFront g r (g r)
      → AtFront (λ s. if b then f s else g s) r (if b then f r else g r)
  AtFront-if true f g r h k = h
  AtFront-if false f g r h k = k

uint32_loop-AtFront :
    (r : List ℕ) (res size shift : ℕ)
    → AtFront (λ s. read_var_uint32_loop s res size shift) r (read_var_uint32_loop r res size shift)
unfolding read_var_uint32_loop
uint32_loop-AtFront [] res size shift = tt
uint32_loop-AtFront (cur ∷ r) res size shift =
    let res' = bit_or res (bit_and cur 0x7f * 2 ^ shift % 2 ^ 32) in
    elim (Bool-cases (bit_and cur 0x80 == 0)) [
      | inl e ↦ rw e (cur ∷ [], refl, λ s. rw e refl)
      | inr e ↦ rw e (
          AtFront-longer cur (λ s. read_var_uint32_loop s res' (size + 1) (shift + 7))
            (λ s. read_var_uint32_loop s res size shift) r _ (λ s. rw e refl)
            (uint32_loop-AtFront r res' (size + 1) (shift + 7)))
    ]

varint64_loop-AtFront :
    (r : List ℕ) (res size shift sign : ℕ)
    → AtFront
        (λ s. read_varint64_loop s res size shift sign)
        r
        (read_varint64_loop r res size shift sign)
unfolding read_varint64_loop
varint64_loop-AtFront [] res size shift sign = tt
varint64_loop-AtFront (cur ∷ r) res size shift sign =
    let res' = bit_or res (bit_and cur 0x7f * 2 ^ shift % 2 ^ 64) in
    let sign' = sign * 128 % 2 ^ 64 in
    elim (Bool-cases (bit_and cur 0x80 == 0)) [
      | inl e ↦ rw e (cur ∷ [], refl, λ s. rw e refl)
      | inr e ↦ rw e (
          AtFront-longer cur (λ s. read_varint64_loop s res' (size + 1) (shift + 7) sign')
            (λ s. read_varint64_loop s res size shift sign) r _ (λ s. rw e refl)
            (varint64_loop-AtFront r res' (size + 1) (shift + 7) sign'))
    ]

pub read_var_uint32-AtFront : (r : List ℕ) → AtFront read_var_uint32 r (read_var_uint32 r)
unfolding read_var_uint32 read_var_uint32_size
read_var_uint32-AtFront r =
    AtFront-map (λ s. read_var_uint32_loop s 0 0 0) (λ p. p.0) r _ (uint32_loop-AtFront r 0 0 0)

pub read_varint64-AtFront : (r : List ℕ) → AtFront read_varint64 r (read_varint64 r)
unfolding read_varint64 read_varint64_size
read_varint64-AtFront r =
    AtFront-map (λ s. read_varint64_loop s 0 0 0 (2 ^ 64 - 1)) (λ p. p.0) r _
      (varint64_loop-AtFront r 0 0 0 (2 ^ 64 - 1))

pub read_varint32-AtFront : (r : List ℕ) → AtFront read_varint32 r (read_varint32 r)
unfolding read_varint32 read_varint32_size read_varint64_size
read_varint32-AtFront r =
    AtFront-map read_varint32_size (λ p. p.0) r _
      (AtFront-map (λ s. read_varint64_loop s 0 0 0 (2 ^ 64 - 1)) (λ p. (p.0 % 2 ^ 32, p.1)) r _
        (varint64_loop-AtFront r 0 0 0 (2 ^ 64 - 1)))
