-- ===== src/Wasm/Accepts.antt =====
-- Initializer expressions that `readInitExpr` reads, in `ExecInitExpr`.
use sea_pkg.Base.{
  ℕ, zero, suc, ◌+◌, ◌-◌, ◌≤◌, ◌<◌, ◌≡◌, refl, sym, ap, ◌∙◌, arith, List, [], ◌∷◌, ◌++◌, true,
  false, Option, none, some, if◌then◌else◌, if_both, Bool-cases, Option-cases, inl, inr,
}
use sea_pkg.Base.{length, take, length-append, take-append, ◌==◌}
use mathlib.Core.Path.{subst}
use mathlib.Core.List.{append_assoc}
use sea_pkg.Base.Outcome.{ok, err, panic, invalid_type, ◌>>=◌}
use sea_pkg.Leb128.Local.{AtFront}
use sea_pkg.Wasm.{i32, i64, f32, f64, Module, get_global}
use sea_pkg.Wasm.Operands.{IsError, Errors, read_operand-AtFront, read_operand-Errors}
use sea_pkg.Wasm.Init.{
  empty_init_expr, invalid_global_index, Result, Value, read_operand, read_init_loop,
  read_init_expr, type_of, exec_init_loop, to_value, value_on, exec_init_expr,
}

-- What the loop of `ExecInitExpr` returns: only a global that is not there is an error.
abbrev Evaluates : Module → {A : Type 0} → Result A → Type 0
Evaluates m (ok a) = Unit {0}
Evaluates m (err (invalid_global_index i)) = get_global m i ≡ none
Evaluates m (err e) = ⊥
Evaluates m (panic f) = ⊥

Evaluates-bind :
    (m : Module) {A B : Type 0} (r : Result A) (f : A → Result B)
    → Evaluates m r
    → ((a : A) → Evaluates m (f a))
    → Evaluates m (r >>= f)
Evaluates-bind m (ok a) f h k = k a
Evaluates-bind m (err (invalid_global_index i)) f h k = h
Evaluates-bind m (err e) f h k = absurd h
Evaluates-bind m (panic p) f h k = absurd h

type_of-Evaluates : (m : Module) (op operand : ℕ) → Evaluates m (type_of m op operand)
unfolding type_of
type_of-Evaluates m op operand = if_both (Evaluates m) (op == 0x41) tt (
    if_both (Evaluates m) (op == 0x42) tt (
      if_both (Evaluates m) (op == 0x43) tt (
        if_both (Evaluates m) (op == 0x44) tt
          (elim (Option-cases (get_global m operand)) [ inl e ↦ rw e e | inr (g, e) ↦ rw e tt ]))))

-- What the loop of `readInitExpr` took the loop of `ExecInitExpr` evaluates.
abbrev Reads : List ℕ → Result (List ℕ) → Type 0
Reads r (ok rest) =
    (used : List ℕ) × (r ≡ used ++ rest)
    × (0 < length used)
    × ((m : Module) (fuel : ℕ) (stack : List ℕ) (val : ℕ)
        → length used < fuel
        → Evaluates m (exec_init_loop m fuel used stack val))
Reads r (err e) = IsError e
Reads r (panic f) = Unit {0}

exec_init_loop-end :
    (m : Module) (op : ℕ) (fuel : ℕ) (stack : List ℕ) (val : ℕ)
    → (op == 0x0b) ≡ true
    → length (op ∷ []) < fuel
    → Evaluates m (exec_init_loop m fuel (op ∷ []) stack val)
unfolding exec_init_loop
exec_init_loop-end m op zero stack val e h = elim h [ ]
exec_init_loop-end m op (suc zero) stack val e h = absurd (omega (arith, h))
exec_init_loop-end m op (suc (suc fuel)) stack val e h = rw e tt

exec_init_loop-operand :
    (m : Module) (op v : ℕ) (front used : List ℕ) (fuel : ℕ) (stack : List ℕ) (val : ℕ)
    → (op == 0x0b) ≡ false
    → read_operand op (front ++ used) ≡ ok (v, used)
    → ((stack' : List ℕ) (val' : ℕ) (fuel' : ℕ)
        → length used < fuel'
        → Evaluates m (exec_init_loop m fuel' used stack' val'))
    → length (op ∷ (front ++ used)) < fuel
    → Evaluates m (exec_init_loop m fuel (op ∷ (front ++ used)) stack val)
unfolding exec_init_loop
exec_init_loop-operand m op v front used zero stack val e k ih h = elim h [ ]
exec_init_loop-operand m op v front used (suc fuel) stack val e k ih h =
    rw (e, k)
      (Evaluates-bind m (type_of m op v) _ (type_of-Evaluates m op v)
        λ val'. ih _ val' fuel (omega (arith, h, length-append front used)))

Reads-longer :
    (op v : ℕ) (rest front s : List ℕ) (o : Result (List ℕ))
    → (op == 0x0b) ≡ false
    → rest ≡ front ++ s
    → ((t : List ℕ) → read_operand op (front ++ t) ≡ ok (v, t))
    → Reads s o
    → Reads (op ∷ rest) o
Reads-longer op v rest front s (ok tail) e eq k (used, eq', pos, ev) = (
  op ∷ (front ++ used),
  ap (◌∷◌ op) (eq ∙ ap (◌++◌ front) eq' ∙ sym (append_assoc front used tail)),
  omega arith,
  λ m fuel stack val h.
      exec_init_loop-operand m op v front used fuel stack val e (k used)
        (λ stack' val' fuel' h'. ev m fuel' stack' val' h') h,
)
Reads-longer op v rest front s (err x) e eq k h = h
Reads-longer op v rest front s (panic f) e eq k h = h

Reads-operand :
    (op : ℕ) (rest : List ℕ) (f : List ℕ → Result (List ℕ)) (o : Result (ℕ × List ℕ))
    → (op == 0x0b) ≡ false
    → AtFront (read_operand op) rest o
    → Errors o
    → ((s : List ℕ) → length s ≤ length rest → Reads s (f s))
    → Reads (op ∷ rest) (o >>= λ operand. f (operand.1))
Reads-operand op rest f (ok (v, s)) e (front, eq, k) h ih =
    let size : length rest ≡ length front + length s = ap length eq ∙ length-append front s in
    Reads-longer op v rest front s (f s) e eq k (ih s (omega (arith, size)))
Reads-operand op rest f (err x) e a h ih = h
Reads-operand op rest f (panic p) e a h ih = tt

read_init_loop-Reads : (fuel : ℕ) (r : List ℕ) → length r < fuel → Reads r (read_init_loop fuel r)
unfolding read_init_loop
read_init_loop-Reads zero r h = elim h [ ]
read_init_loop-Reads (suc fuel) [] h = tt
read_init_loop-Reads (suc fuel) (op ∷ rest) h = elim (Bool-cases (op == 0x0b)) [
  | inl e ↦ rw e (
    op ∷ [],
    refl,
    omega arith,
    λ m fuel' stack val l. exec_init_loop-end m op fuel' stack val e l,
  )
  | inr e ↦ rw e (
      Reads-operand op rest (read_init_loop fuel) (read_operand op rest) e
        (read_operand-AtFront op rest) (read_operand-Errors op rest)
        (λ s l. read_init_loop-Reads fuel s (omega (arith, h, l))))
]

-- What `ExecInitExpr` returns: only a global that is not there is an error, and only its type a
-- panic.
abbrev pub Accepted : Module → Result (Option Value) → Type 0
Accepted m (ok v) = Unit {0}
Accepted m (err (invalid_global_index i)) = get_global m i ≡ none
Accepted m (err e) = ⊥
Accepted m (panic invalid_type) = Unit {0}
Accepted m (panic f) = ⊥

to_value-Accepted :
    (m : Module) (val v : ℕ) → Accepted m (to_value val v >>= λ value. ok (some value))
unfolding to_value
to_value-Accepted m val v =
    let Goal = λ (r : Result Value). Accepted m (r >>= λ value. ok (some value)) in
    if_both Goal (val == i32) tt (
      if_both Goal (val == i64) tt (if_both Goal (val == f32) tt (if_both Goal (val == f64) tt tt)))

value_on-Accepted :
    (m : Module) (r : Result (List ℕ × ℕ))
    → Evaluates m r
    → Accepted m (r >>= λ p. value_on (p.0) (p.1))
value_on-Accepted m (ok ([], val)) h = tt
value_on-Accepted m (ok (v ∷ stack, val)) h = to_value-Accepted m val v
value_on-Accepted m (err (invalid_global_index i)) h = h
value_on-Accepted m (err e) h = absurd h
value_on-Accepted m (panic p) h = absurd h

abbrev pub Accepts : Module → List ℕ → Result (List ℕ × List ℕ) → Type 0
Accepts m r (ok (expr, rest)) = (r ≡ expr ++ rest) × Accepted m (exec_init_expr m expr)
Accepts m r (err e) = IsError e
Accepts m r (panic f) = Unit {0}

front_of : (used rest : List ℕ) → take (length (used ++ rest) - length rest) (used ++ rest) ≡ used
front_of used rest =
    let size : length (used ++ rest) - length rest ≡ length used =
      omega (arith, length-append used rest) in
    rw size (take-append used rest)

loop-Accepts :
    (m : Module) (r : List ℕ) (o : Result (List ℕ))
    → Reads r o
    → Accepts m r (
        o >>= λ rest.
        if length (take (length r - length rest) r) == 0
        then err empty_init_expr
        else ok (take (length r - length rest) r, rest))
unfolding exec_init_expr
loop-Accepts m r (ok rest) (used, e, pos, ev) =
    let same : take (length r - length rest) r ≡ used =
      subst (λ x. take (length x - length rest) x ≡ used) (sym e) (front_of used rest) in
    let some_ : (length used == 0) ≡ false = ground arith in
    rw (same, some_)
      (e, rw some_ (value_on-Accepted m _ (ev m (length used + 1) [] 0 (omega arith))))
loop-Accepts m r (err x) h = h
loop-Accepts m r (panic f) h = tt

-- On every input `readInitExpr` ends within its fuel. What it returns are the bytes that it read,
-- with those that are left, and `ExecInitExpr` evaluates them within its own: it returns a value or
-- nil, or an error for the index of a global that is not there, or panics for the type of a global
-- that is no value type.
pub read_init_expr-Accepts : (m : Module) (r : List ℕ) → Accepts m r (read_init_expr r)
unfolding read_init_expr
read_init_expr-Accepts m r =
    loop-Accepts m r _ (read_init_loop-Reads (length r + 1) r (omega arith))
