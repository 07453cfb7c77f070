-- ===== src/Disasm/Invariant.antt =====
-- The invariant of `Disassemble` within a round, and the helpers that keep it.
use sea_pkg.Base.{
  ℕ, suc, ◌<◌, ◌≤◌, ◌≡◌, refl, arith, List, [], ◌∷◌, ◌++◌, Bool, true, false, Option, some, none,
  leb, if_both, ◌||◌,
}
use sea_pkg.Base.{length, drop, length-drop, Bool-cases, ◌⊎◌, inl, inr, ◌==◌}
use sea_pkg.Base.Outcome.{Outcome, ok, err, panic, Fault, ◌>>=◌}
use sea_pkg.Base.Words.{sub}
use sea_pkg.Leb128.{ReadError, eof}
use sea_pkg.Leb128.Reader.{Takes, read_var_uint32-Takes, read_varint32-Takes, read_varint64-Takes}
use sea_pkg.Disasm.{
  Instr, Kind, DisasmError, exhausted, Result, State, found_at, check_max_depth,
  push_polymorphic_op, push_to, top, top_of, set_top, set_top_of, lower_top,
}
use sea_pkg.Disasm.Effects.{
  with_reader, read_uint32, read_int32, read_int64, read_full, when, apply_type, check_type,
  below_minus_one,
}
use sea_pkg.Disasm.Body.{closes}
use sea_pkg.Disasm.Trace.{Nested}
use sea_pkg.Operators.{Op}

-- The value of a result, if there is one, satisfies `P`, and the fuel did not run out.
abbrev pub IsError : DisasmError → Type 0
IsError exhausted = ⊥
IsError _ = Unit {0}

abbrev pub Post {ℓ} : {A : Type ℓ} → (A → Type 0) → Result A → Type 0
Post P (ok a) = P a
Post P (err e) = IsError e
Post P (panic f) = Unit {0}

module _ {ℓ κ} {A : Type ℓ} {B : Type κ} where
  pub Post-bind :
      (P : A → Type 0) (Q : B → Type 0) (r : Result A) (f : A → Result B)
      → Post P r
      → ((a : A) → P a → Post Q (f a))
      → Post Q (r >>= f)
  Post-bind P Q (ok a) f h k = k a h
  Post-bind P Q (err e) f h k = h
  Post-bind P Q (panic p) f h k = tt

pub Post-weaken {ℓ} :
    {A : Type ℓ} (P Q : A → Type 0) (r : Result A) → Post P r → ((a : A) → P a → Q a) → Post Q r
Post-weaken P Q (ok a) h k = k a h
Post-weaken P Q (err e) h k = h
Post-weaken P Q (panic f) h k = tt

module _ {A : Type 0} where
  pub Post-found : (p : Fault) (o : Option A) → Post (λ a. o ≡ some a) (found_at p o)
  Post-found p none = tt
  Post-found p (some a) = refl

abbrev pub Busy : List (List ℕ) → Type 0
Busy [] = ⊥
Busy ([] ∷ rest) = ⊥
Busy ((_ ∷ _) ∷ rest) = Unit {0}

-- Where no operator of the innermost block is polymorphic, no unreachable block is open.
abbrev pub Matched : List (List ℕ) → ℕ → ℕ → Type 0
Matched ([] ∷ rest) n k = n ≡ k
Matched _ n k = Unit {0}

-- The lists of polymorphic operators, `k` open blocks in all, and `n` of them reachable.
abbrev pub Shape : List (List ℕ) → ℕ → ℕ → Type 0
Shape polys k n = (length polys ≡ suc n) × (n ≤ k) × Matched polys n k

pub Matched-eq : (polys : List (List ℕ)) (n k : ℕ) → n ≡ k → Matched polys n k
Matched-eq [] n k h = tt
Matched-eq ([] ∷ rest) n k h = h
Matched-eq ((_ ∷ _) ∷ rest) n k h = tt

pub Matched-Busy : (polys : List (List ℕ)) (n k : ℕ) → Busy polys → Matched polys n k
Matched-Busy [] n k h = tt
Matched-Busy ([] ∷ rest) n k h = absurd h
Matched-Busy ((_ ∷ _) ∷ rest) n k h = tt

-- What the test for reachability says of the blocks.
abbrev pub Reached : Kind → Bool → List (List ℕ) → ℕ → ℕ → Type 0
Reached kd false polys k n = n ≡ k
Reached kd true polys k n = Busy polys × ((closes kd ≡ false) ⊎ (n < k))

Busy-pushed : (ops : List ℕ) (x : ℕ) (rest : List (List ℕ)) → Busy ((ops ++ x ∷ []) ∷ rest)
Busy-pushed [] x rest = tt
Busy-pushed (o ∷ ops) x rest = tt

Reached-pushed :
    (kd : Kind) (u : Bool) (polys polys' : List (List ℕ)) (k n : ℕ)
    → Busy polys'
    → Reached kd u polys k n
    → Reached kd u polys' k n
Reached-pushed kd false polys polys' k n h r = r
Reached-pushed kd true polys polys' k n h (_, r) = (h, r)

module _ (kd : Kind) (unreachable : Bool) (n p b : ℕ) where
  -- Within a round: `p` instructions with `n` reachable blocks open, and at most `b` bytes to read.
  abbrev pub InvWith : List Instr → List (List ℕ) → ℕ → List ℕ → Type 0
  InvWith code polys k reader =
      Nested code 0 0 n
      × (length code ≡ p)
      × Shape polys k n
      × Reached kd unreachable polys k n
      × (length reader ≤ b)

  abbrev pub Inv : State → Type 0
  Inv d = InvWith d.code d.block_polymorphic_ops (length d.block_indices) d.reader

  abbrev pub InvOf {ℓ} : {A : Type ℓ} → A × State → Type 0
  InvOf r = Inv r.1

  set_reader :
      (d : State) (rest : List ℕ)
      → Inv d
      → length rest ≤ length d.reader
      → Inv (record d { reader = rest })
  set_reader d rest (t, l, s, r, m) h = (t, l, s, r, omega arith)

  with_reader-Inv :
      (d : State) (o : Outcome ReadError (ℕ × List ℕ))
      → Takes d.reader o
      → Inv d
      → Post InvOf (with_reader d o)
  with_reader-Inv d (ok (v, rest)) h i = set_reader d rest i (omega arith)
  with_reader-Inv d (err eof) h i = tt
  with_reader-Inv d (panic f) h i = tt

  pub read_uint32-Inv : (d : State) → Inv d → Post InvOf (read_uint32 d)
  unfolding read_uint32
  read_uint32-Inv d i = with_reader-Inv d _ (read_var_uint32-Takes d.reader) i

  pub read_int32-Inv : (d : State) → Inv d → Post InvOf (read_int32 d)
  unfolding read_int32
  read_int32-Inv d i = with_reader-Inv d _ (read_varint32-Takes d.reader) i

  pub read_int64-Inv : (d : State) → Inv d → Post InvOf (read_int64 d)
  unfolding read_int64
  read_int64-Inv d i = with_reader-Inv d _ (read_varint64-Takes d.reader) i

  pub read_full-Inv : (m : ℕ) (d : State) → Inv d → Post InvOf (read_full m d)
  unfolding read_full
  read_full-Inv m d i = elim (Bool-cases (leb m (length d.reader))) [
    | inl e ↦ rw e (set_reader d (drop m d.reader) i (omega (arith, length-drop {0} m d.reader)))
    | inr e ↦ rw e (elim (Bool-cases (length d.reader == 0)) [ inl f ↦ rw f tt | inr f ↦ rw f tt ])
  ]

  top_of-Any : (s : List ℕ) → Post (λ _. Unit {0}) (top_of s)
  top_of-Any [] = tt
  top_of-Any (v ∷ s) = tt

  set_top_of-Any : (v : ℕ) (s : List ℕ) → Post (λ _. Unit {0}) (set_top_of v s)
  set_top_of-Any v [] = tt
  set_top_of-Any v (_ ∷ s) = tt

  pub top-Any : (d : State) → Post (λ _. Unit {0}) (top d)
  unfolding top
  top-Any d = top_of-Any d.stack_depths

  pub set_top-Inv : (v : ℕ) (d : State) → Inv d → Post Inv (set_top v d)
  unfolding set_top
  set_top-Inv v d i =
      Post-bind (λ _. Unit {0}) Inv (set_top_of v d.stack_depths) _
        (set_top_of-Any v d.stack_depths) (λ _ _. i)

  pub lower_top-Inv : (m : ℕ) (d : State) → Inv d → Post Inv (lower_top m d)
  unfolding lower_top
  lower_top-Inv m d i = Post-bind _ Inv (top d) _ (top-Any d) (λ v _. set_top-Inv (sub 64 v m) d i)

  pub check_max_depth-Inv : (v : ℕ) (d : State) → Inv d → Inv (check_max_depth v d)
  unfolding check_max_depth
  check_max_depth-Inv v d i = i

  pub when-Inv :
      (c : Bool) (f : State → Result State) (d : State)
      → ((s : State) → Inv s → Post Inv (f s))
      → Inv d
      → Post Inv (when c f d)
  when-Inv true f d h i = h d i
  when-Inv false f d h i = i

  push_to-InvWith :
      (index : ℕ) (code : List Instr) (polys : List (List ℕ)) (k : ℕ) (reader : List ℕ)
      → InvWith code polys k reader
      → Post (λ polys'. InvWith code polys' k reader) (push_to index polys)
  push_to-InvWith index code [] k reader i = tt
  push_to-InvWith index code (ops ∷ polys) k reader (t, l, (s, u, m), r, e) =
      let busy = Busy-pushed ops index polys in
      (
        t,
        l,
        (s, u, Matched-Busy ((ops ++ index ∷ []) ∷ polys) n k busy),
        Reached-pushed kd unreachable (ops ∷ polys) ((ops ++ index ∷ []) ∷ polys) k n busy r,
        e,
      )

  -- Another polymorphic operator of the innermost block.
  pub push_polymorphic_op-Inv : (d : State) → Inv d → Post Inv (push_polymorphic_op d)
  unfolding push_polymorphic_op
  push_polymorphic_op-Inv d i =
      Post-bind _ Inv (push_to (length d.code) d.block_polymorphic_ops) _
        (push_to-InvWith (length d.code) d.code d.block_polymorphic_ops (length d.block_indices)
          d.reader i)
        (λ _ j. j)

  apply_type-Inv : (op : Op) (d : State) → Inv d → Post Inv (apply_type op d)
  unfolding apply_type check_max_depth
  apply_type-Inv op d i = Post-bind _ Inv (top d) _ (top-Any d) λ v _.
      Post-bind Inv Inv (set_top _ d) _ (set_top-Inv _ d i) λ d1 i1.
        Post-bind Inv Inv (set_top _ d1) _ (set_top-Inv _ d1 i1)
          λ d2 i2. if_both (Post Inv) (below_minus_one (sub 64 v (length op.args))) tt i2

  pub check_type-Inv : (op : Op) (c : Bool) (d : State) → Inv d → Post Inv (check_type op c d)
  unfolding check_type
  check_type-Inv op c d i = if_both (Post Inv) (op.polymorphic || c) i (apply_type-Inv op d i)
