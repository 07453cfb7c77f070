-- ===== src/Wasm/Operands.antt =====
-- What initializer expressions read behind an operator.
use sea_pkg.Base.{
  ℕ, zero, suc, ◌+◌, ◌*◌, ◌≤◌, ◌≡◌, refl, sym, ap, arith, List, [], ◌∷◌, ◌++◌, true, if◌then◌else◌,
  if_both, Bool-cases, inl, inr,
}
use sea_pkg.Base.{drop-front, length, take, length-append, length-take, take-append-drop, leb, ◌==◌}
use sea_pkg.Base.Outcome.{Outcome, ok, err, panic}
use sea_pkg.Base.Bytes.{le_value}
use sea_pkg.Leb128.{ReadError, eof, read_varint32, read_varint64, read_var_uint32}
use sea_pkg.Leb128.Local.{
  AtFront, AtFront-if, read_varint32-AtFront, read_varint64-AtFront, read_var_uint32-AtFront,
}
use sea_pkg.Wasm.Init.{
  ModuleError, exhausted, invalid_init_expr_op, Result, read_leb, read_fixed, read_operand,
}

AtFront-read_leb :
    (f : List ℕ → Outcome ReadError (ℕ × List ℕ)) (r : List ℕ) (o : Outcome ReadError (ℕ × List ℕ))
    → AtFront f r o
    → AtFront (λ s. read_leb (f s)) r (read_leb o)
AtFront-read_leb f r (ok (v, rest)) (used, e, k) = (used, e, λ s. ap read_leb (k s))
AtFront-read_leb f r (err eof) h = tt
AtFront-read_leb f r (panic p) h = tt

le_value-front : (n : ℕ) (r s : List ℕ) → n ≤ length r → le_value n (take n r ++ s) ≡ le_value n r
unfolding le_value
le_value-front zero r s h = refl
le_value-front (suc n) [] s h = elim h [ ]
le_value-front (suc n) (b ∷ r) s h = ap (λ v. b + 256 * v) (le_value-front n r s (omega arith))

read_fixed-AtFront : (n : ℕ) (r : List ℕ) → AtFront (read_fixed n) r (read_fixed n r)
unfolding read_fixed
read_fixed-AtFront n r = elim (Bool-cases (leb n (length r))) [
  | inl e ↦
      let enough : n ≤ length r = ground arith in
      rw e (
        take n r,
        sym (take-append-drop n r),
        λ s.
            let still : leb n (length (take n r ++ s)) ≡ true = longer s enough in
            rw (still, le_value-front n r s enough, drop-front n r s enough) refl,
      )
  | inr e ↦ rw e (if_both (AtFront (read_fixed n) r) (length r == 0) tt tt)
]
  where
    longer : (s : List ℕ) → n ≤ length r → leb n (length (take n r ++ s)) ≡ true
    longer s h =
        let size : length (take n r ++ s) ≡ length (take n r) + length s =
          length-append (take n r) s in
        let front : n ≤ length (take n r) = omega (arith, length-take n r, h) in ground arith

pub read_operand-AtFront : (op : ℕ) (r : List ℕ) → AtFront (read_operand op) r (read_operand op r)
unfolding read_operand
read_operand-AtFront op r =
    let int32_ : List ℕ → Result (ℕ × List ℕ) = λ s. read_leb (read_varint32 s) in
    let int64_ : List ℕ → Result (ℕ × List ℕ) = λ s. read_leb (read_varint64 s) in
    let index : List ℕ → Result (ℕ × List ℕ) = λ s. read_leb (read_var_uint32 s) in
    let none_ : List ℕ → Result (ℕ × List ℕ) = λ s. err (invalid_init_expr_op op) in
    let at_global : List ℕ → Result (ℕ × List ℕ) = λ s. if op == 0x23 then index s else none_ s in
    let at_f64 : List ℕ → Result (ℕ × List ℕ) =
      λ s. if op == 0x44 then read_fixed 8 s else at_global s in
    let at_f32 : List ℕ → Result (ℕ × List ℕ) =
      λ s. if op == 0x43 then read_fixed 4 s else at_f64 s in
    let at_i64 : List ℕ → Result (ℕ × List ℕ) = λ s. if op == 0x42 then int64_ s else at_f32 s in
    AtFront-if (op == 0x41) int32_ at_i64 r
      (AtFront-read_leb read_varint32 r _ (read_varint32-AtFront r))
      (AtFront-if (op == 0x42) int64_ at_f32 r
        (AtFront-read_leb read_varint64 r _ (read_varint64-AtFront r))
        (AtFront-if (op == 0x43) (read_fixed 4) at_f64 r (read_fixed-AtFront 4 r) (
          AtFront-if (op == 0x44) (read_fixed 8) at_global r (read_fixed-AtFront 8 r) (
            AtFront-if (op == 0x23) index none_ r
              (AtFront-read_leb read_var_uint32 r _ (read_var_uint32-AtFront r)) tt))))

-- The fuel does not run out.
abbrev pub IsError : ModuleError → Type 0
IsError exhausted = ⊥
IsError _ = Unit {0}

abbrev pub Errors : {A : Type 0} → Result A → Type 0
Errors (err e) = IsError e
Errors _ = Unit {0}

read_leb-Errors : (o : Outcome ReadError (ℕ × List ℕ)) → Errors (read_leb o)
read_leb-Errors (ok r) = tt
read_leb-Errors (err eof) = tt
read_leb-Errors (panic p) = tt

read_fixed-Errors : (n : ℕ) (r : List ℕ) → Errors (read_fixed n r)
unfolding read_fixed
read_fixed-Errors n r = if_both Errors (leb n (length r)) tt (if_both Errors (length r == 0) tt tt)

pub read_operand-Errors : (op : ℕ) (r : List ℕ) → Errors (read_operand op r)
unfolding read_operand
read_operand-Errors op r = if_both Errors (op == 0x41) (read_leb-Errors (read_varint32 r)) (
    if_both Errors (op == 0x42) (read_leb-Errors (read_varint64 r)) (
      if_both Errors (op == 0x43) (read_fixed-Errors 4 r) (
        if_both Errors (op == 0x44) (read_fixed-Errors 8 r)
          (if_both Errors (op == 0x23) (read_leb-Errors (read_var_uint32 r)) tt))))
