-- ===== src/Conv/Fixed.antt =====
-- `Hex2BytesFixed` keeps the lowest bytes of a number.
use sea_pkg.Base.{
  ℕ, zero, suc, [], ◌∷◌, ◌==◌, ltb, true, false, lt→ltb, ◌+◌, ◌-◌, ◌*◌, ◌%◌, ◌^◌, ◌<◌, ◌≤◌, ◌≡◌,
  sym, ap, ◌∙◌, List, ◌++◌, arith,
}
use sea_pkg.Base.{
  length, length-append, length-replicate, length-drop, take, drop, take-append-drop, replicate,
  All,
}
use sea_pkg.Base.Bytes.{IsByte}
use sea_pkg.Conv.{be_value, hex2bytes_fixed}
use sea_pkg.Conv.Digits.{be_value-zeros, be_value-append, be_value-lt}
use mathlib.Core.Path.{subst}
use native.Mathlib.Decide.{dec_lt}
use native.Mathlib.Nat.{pow-le-pow_right, add-mul-mod_self_right, mod-eq_of_lt, add_comm}

pub All-drop {ℓ κ} :
    {A : Type ℓ} (P : A → Type κ) (n : ℕ) (xs : List A) → All P xs → All P (drop n xs)
All-drop P zero xs h = h
All-drop P (suc n) [] h = h
All-drop P (suc n) (x ∷ xs) (_, t) = All-drop P n xs t

-- The last bytes of a number are its remainder.
be_value-drop :
    (n : ℕ) (bs : List ℕ)
    → All IsByte bs
    → be_value 0 (drop n bs) ≡ be_value 0 bs % 256 ^ length (drop n bs)
be_value-drop n bs h =
    let rest = drop n bs in
    let whole : be_value 0 bs ≡ be_value 0 rest + be_value 0 (take n bs) * 256 ^ length rest =
      ap (be_value 0) (sym (take-append-drop n bs))
      ∙ be_value-append (take n bs) rest
      ∙ add_comm (be_value 0 (take n bs) * 256 ^ length rest) (be_value 0 rest) in
    sym (
      ap (λ v. v % 256 ^ length rest) whole
      ∙ add-mul-mod_self_right (be_value 0 rest) (be_value 0 (take n bs)) (256 ^ length rest)
      ∙ mod-eq_of_lt (be_value-lt rest (All-drop IsByte n bs h)))

-- `flen` bytes for the number that `h` stands for, modulo as many bytes.
abbrev pub IsFixed : List ℕ → ℕ → List ℕ → Type 0
IsFixed h flen bs = (length bs ≡ flen) × (be_value 0 bs ≡ be_value 0 h % 256 ^ flen)

drop-IsFixed :
    (h : List ℕ) (flen : ℕ)
    → All IsByte h
    → flen ≤ length h
    → IsFixed h flen (drop (length h - flen) h)
drop-IsFixed h flen bytes l =
    let size : length (drop (length h - flen) h) ≡ flen =
      omega (arith, length-drop (length h - flen) h) in
    (size, be_value-drop (length h - flen) h bytes ∙ ap (λ k. be_value 0 h % 256 ^ k) size)

zeros-IsFixed :
    (h : List ℕ) (flen : ℕ)
    → All IsByte h
    → length h ≤ flen
    → IsFixed h flen (replicate (flen - length h) 0 ++ h)
zeros-IsFixed h flen bytes l =
    let below : be_value 0 h < 256 ^ flen = omega (
      arith,
      be_value-lt h bytes,
      pow-le-pow_right {n = 256} (omega arith) {i = length h} {j = flen} l,
    ) in
    (
      omega (
        arith,
        length-append {0} (replicate (flen - length h) 0) h,
        length-replicate {0} (flen - length h) zero,
      ),
      be_value-zeros (flen - length h) h ∙ sym (mod-eq_of_lt below),
    )

-- The result has the length that was asked for, and is the number that the digits stand for, modulo
-- as many bytes.
pub hex2bytes_fixed-IsFixed {ℓ} :
    {S : Type ℓ} (decode : S → List ℕ) (str : S) (flen : ℕ)
    → All IsByte (decode str)
    → IsFixed (decode str) flen (hex2bytes_fixed decode str flen)
unfolding hex2bytes_fixed
hex2bytes_fixed-IsFixed decode str flen bytes =
    let h = decode str in
    elim (dec_lt flen (length h)) [
      | yes long ↦
          let other : (length h == flen) ≡ false = ground arith in
          rw (other, lt→ltb flen (length h) long) (drop-IsFixed h flen bytes (omega arith))
      | no short ↦ elim (dec_lt (length h) flen) [
        | yes less ↦
            let other : (length h == flen) ≡ false = ground arith in
            let test : ltb flen (length h) ≡ false = ground arith in
            rw (other, test) (zeros-IsFixed h flen bytes (omega arith))
        | no more ↦
            let same : length h ≡ flen = omega arith in
            let test : (length h == flen) ≡ true = ground arith in
            rw test (
              same,
              sym (mod-eq_of_lt (subst (λ k. be_value 0 h < 256 ^ k) same (be_value-lt h bytes))),
            )
      ]
    ]
