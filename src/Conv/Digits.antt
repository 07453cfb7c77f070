-- ===== src/Conv/Digits.antt =====
-- Numbers written in bytes, the highest first.
use sea_pkg.Base.{
  ℕ, zero, suc, ◌+◌, ◌*◌, ◌/◌, ◌%◌, ◌^◌, ◌≤◌, ◌<◌, ◌≡◌, ◌∙◌, refl, sym, ap, List, [], ◌∷◌, ◌++◌,
  arith,
}
use sea_pkg.Base.{length, length-append, replicate, All}
use sea_pkg.Base.Bytes.{IsByte}
use sea_pkg.Base.Modular.{last_digit}
use native.Mathlib.Nat.{pow-suc, mul_assoc, mul_comm, add-mul, mul-le-mul_right}
use sea_pkg.Conv.{be_bytes, be_value}

pub length-be_bytes : (n v : ℕ) → length (be_bytes n v) ≡ n
unfolding be_bytes
length-be_bytes zero v = refl
length-be_bytes (suc n) v =
    omega
      (arith, length-be_bytes n (v / 256), length-append {0} (be_bytes n (v / 256)) (v % 256 ∷ []))

pub be_value-next : (a b : ℕ) (bs : List ℕ) → be_value a (bs ++ b ∷ []) ≡ be_value a bs * 256 + b
unfolding be_value
be_value-next a b [] = refl
be_value-next a b (c ∷ bs) = be_value-next (a * 256 + c) b bs

pow_pos : (n : ℕ) → 0 < 256 ^ n
pow_pos zero = omega arith
pow_pos (suc n) = omega (arith, pow-suc 256 n, pow_pos n)

pub be_value-be_bytes : (n v : ℕ) → be_value 0 (be_bytes n v) ≡ v % 256 ^ n
unfolding be_bytes be_value
be_value-be_bytes zero v = omega arith
be_value-be_bytes (suc n) v =
    be_value-next 0 (v % 256) (be_bytes n (v / 256))
    ∙ ap (λ k. k * 256 + v % 256) (be_value-be_bytes n (v / 256))
    ∙ last_digit 256 (256 ^ n) v (omega arith) (pow_pos n)
    ∙ ap (◌%◌ v) (sym (pow-suc 256 n))

pub be_value-zeros : (n : ℕ) (bs : List ℕ) → be_value 0 (replicate n 0 ++ bs) ≡ be_value 0 bs
unfolding be_value
be_value-zeros zero bs = refl
be_value-zeros (suc n) bs = be_value-zeros n bs

be_value-first : (b : ℕ) (bs : List ℕ) → be_value 0 (b ∷ bs) ≡ be_value b bs
unfolding be_value
be_value-first b bs = ap (λ k. be_value k bs) (omega arith)

a_block : (a p : ℕ) → a * 256 * p ≡ a * (p * 256)
a_block a p = rw (mul_assoc a 256 p, mul_comm 256 p)

-- What was read before counts for all bytes behind it.
pub be_value_from : (a : ℕ) (bs : List ℕ) → be_value a bs ≡ a * 256 ^ length bs + be_value 0 bs
unfolding be_value
be_value_from a [] = omega arith
be_value_from a (b ∷ bs) =
    let from_a : be_value a (b ∷ bs) ≡ (a * 256 + b) * 256 ^ length bs + be_value 0 bs =
      be_value_from (a * 256 + b) bs in
    let from_0 : be_value 0 (b ∷ bs) ≡ b * 256 ^ length bs + be_value 0 bs =
      be_value-first b bs ∙ be_value_from b bs in
    let split : (a * 256 + b) * 256 ^ length bs ≡ a * 256 ^ length (b ∷ bs) + b * 256 ^ length bs =
      add-mul (a * 256) b (256 ^ length bs)
      ∙ ap (λ n. n + b * 256 ^ length bs)
          (a_block a (256 ^ length bs) ∙ ap (◌*◌ a) (sym (pow-suc 256 (length bs)))) in
    omega (arith, from_a, from_0, split)

be_value-append_from :
    (a : ℕ) (xs ys : List ℕ) → be_value a (xs ++ ys) ≡ be_value (be_value a xs) ys
unfolding be_value
be_value-append_from a [] ys = refl
be_value-append_from a (x ∷ xs) ys = be_value-append_from (a * 256 + x) xs ys

pub be_value-append :
    (xs ys : List ℕ) → be_value 0 (xs ++ ys) ≡ be_value 0 xs * 256 ^ length ys + be_value 0 ys
be_value-append xs ys = be_value-append_from 0 xs ys ∙ be_value_from (be_value 0 xs) ys

pub be_value-lt : (bs : List ℕ) → All IsByte bs → be_value 0 bs < 256 ^ length bs
unfolding be_value
be_value-lt [] h = omega arith
be_value-lt (b ∷ bs) (h, t) =
    let first : be_value 0 (b ∷ bs) ≡ b * 256 ^ length bs + be_value 0 bs =
      be_value-first b bs ∙ be_value_from b bs in
    let power : 256 ^ length (b ∷ bs) ≡ 256 ^ length bs * 256 = pow-suc 256 (length bs) in
    let below : b * 256 ^ length bs ≤ 255 * 256 ^ length bs =
      mul-le-mul_right (256 ^ length bs) (omega arith) in
    omega (arith, first, power, below, be_value-lt bs t)
