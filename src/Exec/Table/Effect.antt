-- ===== src/Exec/Table/Effect.antt =====
-- The effect of an operator on the stack.
use sea_pkg.Base.{
  ℕ, suc, ◌≡◌, refl, ap, List, [], ◌∷◌, ◌++◌, arith, length, Bool, true, false, if◌then◌else◌,
}
use sea_pkg.Base.{◌==◌, ◌%◌, ◌^◌}
use sea_pkg.Base.Outcome.{ok, err, panic, Fault, empty_stack}
use sea_pkg.Exec.{
  Vm, Trap, Result, Action, continue, ◌>>=◌, pure, trap, fault, gets, pop_from, pop_uint64,
  pop_int64, pop_uint32, pop_int32, push_uint64, push_int64, push_uint32, push_int32, push_bool,
  nonzero,
}

abbrev pub NoUnderflow : Fault → Type 0
NoUnderflow empty_stack = ⊥
NoUnderflow _ = Unit {0}

-- The action leaves `j` entries on `rest`, or it traps or panics, but not for want of entries.
abbrev pub Leaves : {A : Type 0} → ℕ → List ℕ → Result A → Type 0
Leaves j rest (ok (_, vm')) = (ys : List ℕ) × (length ys ≡ j) × (vm'.stack ≡ ys ++ rest)
Leaves j rest (err e) = Unit {0}
Leaves j rest (panic p) = NoUnderflow p

-- On `k` entries above any others the action leaves `j` entries above the others.
pub record Effect {A : Type 0} (k j : ℕ) (act : Action A) : Type 0 where
  pub at :
      (vm : Vm) (xs rest : List ℕ) → length xs ≡ k → vm.stack ≡ xs ++ rest → Leaves j rest (act vm)

pub Effect-pure : {A : Type 0} (k : ℕ) (a : A) → Effect k k (pure a)
unfolding pure
Effect-pure k a = record { at = λ vm xs rest h e. (xs, h, e) }

pub Effect-trap : {A : Type 0} (k j : ℕ) (e : Trap) → Effect k j (trap {A = A} e)
unfolding trap
Effect-trap k j x = record { at = λ vm xs rest h e. tt }

pub Effect-gets : {A : Type 0} (k : ℕ) (f : Vm → A) → Effect k k (gets f)
unfolding gets
Effect-gets k f = record { at = λ vm xs rest h e. (xs, h, e) }

Leaves-bind :
    {A B : Type 0} (k j : ℕ) (rest : List ℕ) (r : Result A) (f : A → Action B)
    → Leaves k rest r
    → ((a : A) → Effect k j (f a))
    → Leaves j rest (continue r f)
Leaves-bind k j rest (ok (a, vm')) f (ys, h, e) l = (l a).at vm' ys rest h e
Leaves-bind k j rest (err e) f h l = tt
Leaves-bind k j rest (panic p) f h l = h

pub Effect-bind :
    {A B : Type 0} (k l j : ℕ) (act : Action A) (f : A → Action B)
    → Effect k l act
    → ((a : A) → Effect l j (f a))
    → Effect k j (act >>= f)
unfolding ◌>>=◌
Effect-bind k l j act f m h = record {
  at = λ vm xs rest p e. Leaves-bind l j rest (act vm) f (m.at vm xs rest p e) h;
}

pub Effect-if :
    {A : Type 0} (k j : ℕ) (b : Bool) {x y : Action A}
    → Effect k j x
    → Effect k j y
    → Effect k j (if b then x else y)
Effect-if k j true h l = h
Effect-if k j false h l = l

-- Actions that take one entry, that need one and keep it, and that need none.
pub record Pops {A : Type 0} (act : Action A) : Type 0 where
  pub at : (k : ℕ) → Effect (suc k) k act

pub record Peeks {A : Type 0} (act : Action A) : Type 0 where
  pub at : (k : ℕ) → Effect (suc k) (suc k) act

pub record Neutral {A : Type 0} (act : Action A) : Type 0 where
  pub at : (k : ℕ) → Effect k k act

module _ {A B : Type 0} (k j : ℕ) (act : Action A) (f : A → Action B) where
  pub bind-Pops : Pops act → ((a : A) → Effect k j (f a)) → Effect (suc k) j (act >>= f)
  bind-Pops p h = Effect-bind (suc k) k j act f (p.at k) h

  pub bind-Peeks : Peeks act → ((a : A) → Effect (suc k) j (f a)) → Effect (suc k) j (act >>= f)
  bind-Peeks p h = Effect-bind (suc k) (suc k) j act f (p.at k) h

  pub bind-Neutral : Neutral act → ((a : A) → Effect k j (f a)) → Effect k j (act >>= f)
  bind-Neutral p h = Effect-bind k k j act f (p.at k) h

pop_Leaves :
    (k : ℕ) (vm : Vm) (s xs rest : List ℕ)
    → length xs ≡ suc k
    → s ≡ xs ++ rest
    → Leaves k rest (pop_from s vm)
pop_Leaves k vm s [] rest h e = absurd (omega arith)
pop_Leaves k vm s (x ∷ xs) rest h e = rw (e, pop_from) (xs, omega arith, refl)

pub pop_uint64-Pops : Pops pop_uint64
unfolding pop_uint64
pop_uint64-Pops = record {
  at = λ k. record { at = λ vm xs rest h e. pop_Leaves k vm vm.stack xs rest h e };
}

pub pop_int64-Pops : Pops pop_int64
unfolding pop_int64
pop_int64-Pops = pop_uint64-Pops

pub pop_uint32-Pops : Pops pop_uint32
unfolding pop_uint32
pop_uint32-Pops = record {
  at = λ k. bind-Pops k k _ _ pop_uint64-Pops (λ i. Effect-pure k (i % 2 ^ 32));
}

pub pop_int32-Pops : Pops pop_int32
unfolding pop_int32
pop_int32-Pops = pop_uint32-Pops

pub Effect-push_uint64 : (k v : ℕ) → Effect k (suc k) (push_uint64 v)
unfolding push_uint64
Effect-push_uint64 k v = record { at = λ vm xs rest h e. (v ∷ xs, ap suc h, ap (◌∷◌ v) e) }

pub Effect-push_int64 : (k v : ℕ) → Effect k (suc k) (push_int64 v)
unfolding push_int64
Effect-push_int64 k v = Effect-push_uint64 k v

pub Effect-push_uint32 : (k v : ℕ) → Effect k (suc k) (push_uint32 v)
unfolding push_uint32
Effect-push_uint32 k v = Effect-push_uint64 k v

pub Effect-push_int32 : (k v : ℕ) → Effect k (suc k) (push_int32 v)
unfolding push_int32
Effect-push_int32 k v = Effect-push_uint64 k _

pub Effect-push_bool : (k : ℕ) (b : Bool) → Effect k (suc k) (push_bool b)
unfolding push_bool
Effect-push_bool k b = Effect-push_uint64 k _

pub nonzero-Neutral : (v : ℕ) → Neutral (nonzero v)
unfolding nonzero fault
nonzero-Neutral v = record {
  at = λ k. Effect-if k k (v == 0) (record { at = λ vm xs rest h e. tt }) (Effect-pure k tt);
}

pub ruleset effect_rules = (
  bind-Pops, bind-Peeks, bind-Neutral, pop_uint64-Pops, pop_int64-Pops, pop_uint32-Pops,
  pop_int32-Pops, Effect-push_uint64, Effect-push_int64, Effect-push_uint32, Effect-push_int32,
  Effect-push_bool, Effect-pure, nonzero-Neutral,
)
