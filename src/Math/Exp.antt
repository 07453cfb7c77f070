-- ===== src/Math/Exp.antt =====
-- `Exp` against the power, and what it leaves in its base.
use sea_pkg.Base.{
  ℕ, zero, suc, ◌+◌, ◌*◌, ◌/◌, ◌%◌, ◌^◌, ◌<◌, ◌≡◌, ap, sym, ◌∙◌, List, [], ◌∷◌, arith,
}
use sea_pkg.Base.{◌==◌, if◌then◌else◌, length, All, if_both}
use sea_pkg.Base.Modular.{pow_add, pow_two-pos, mod_mul, mul_mod, mod_pow, last_digit}
use native.Mathlib.Nat.{
  pow-suc, pow-zero, mul_comm, mul_assoc, mod-lt, mod-eq_of_lt, mul-one, one-mul, mul-zero, mul-suc,
}
use mathlib.Core.Path.{subst}
use sea_pkg.Math.{exp_word, exp_words, exp}

square_pow : (b k : ℕ) → (b * b) ^ k ≡ b ^ (k * 2)
square_pow b zero = pow-zero (b * b) ∙ sym (pow-zero b)
square_pow b (suc k) =
    pow-suc (b * b) k
    ∙ ap (λ p. p * (b * b)) (square_pow b k)
    ∙ sym (mul_assoc (b ^ (k * 2)) b b)
    ∙ ap (λ p. p * b) (sym (pow-suc b (k * 2)))
    ∙ sym (pow-suc b (suc (k * 2)))
    ∙ ap (◌^◌ b) (omega arith)

pow_one : (b : ℕ) → b ^ 1 ≡ b
pow_one b = pow-suc b 0 ∙ ap (λ p. p * b) (pow-zero b) ∙ one-mul b

pub pow_pow : (b m n : ℕ) → (b ^ m) ^ n ≡ b ^ (m * n)
pow_pow b m zero = pow-zero (b ^ m) ∙ sym (pow-zero b) ∙ ap (◌^◌ b) (sym (mul-zero m))
pow_pow b m (suc n) =
    pow-suc (b ^ m) n
    ∙ ap (λ p. p * b ^ m) (pow_pow b m n)
    ∙ sym (pow_add b (m * n) m)
    ∙ ap (◌^◌ b) (sym (mul-suc m n))

-- A square is a power of the base that was squared modulo `m`.
square_step : (r b k m : ℕ) → r * (b * b % m) ^ k % m ≡ r * b ^ (k * 2) % m
square_step r b k m =
    sym (mul_mod ((b * b % m) ^ k) m r)
    ∙ ap (λ p. r * p % m) (mod_pow (b * b) m k)
    ∙ mul_mod ((b * b) ^ k) m r
    ∙ ap (λ p. r * p % m) (square_pow b k)

-- What is multiplied in when a bit is set.
odd_step : (r b k m : ℕ) → r * b % m * b ^ k % m ≡ r * b ^ suc k % m
odd_step r b k m =
    mod_mul (r * b) m (b ^ k)
    ∙ ap (λ p. p % m) (mul_assoc r b (b ^ k))
    ∙ ap (λ p. r * p % m) (mul_comm b (b ^ k) ∙ sym (pow-suc b k))

bit_step :
    (r b k m bit : ℕ)
    → bit < 2
    → (if bit == 1 then r * b % m else r) * (b * b % m) ^ k % m ≡ r * b ^ (k * 2 + bit) % m
bit_step r b k m zero h = square_step r b k m ∙ ap (λ n. r * b ^ n % m) (omega arith)
bit_step r b k m (suc zero) h =
    square_step (r * b % m) b k m ∙ odd_step r b (k * 2) m ∙ ap (λ n. r * b ^ n % m) (omega arith)
bit_step r b k m (suc (suc bit)) h = absurd (omega arith)

next_word : (r : ℕ) (m : ℕ) → r < m → (b : ℕ) → r ≡ r * b ^ 0 % m
next_word r m h b =
    sym (ap (λ p. r * p % m) (pow-zero b) ∙ ap (λ p. p % m) (mul-one r) ∙ mod-eq_of_lt h)

reduced : (n m : ℕ) → 0 < m → n % m < m
reduced n m h = mod-lt n h

bit_reduced : (r b bit m : ℕ) → 0 < m → r < m → (if bit == 1 then r * b % m else r) < m
bit_reduced r b bit m h k = if_both (λ v. v < m) (bit == 1) (mod-lt (r * b) h) k

-- The result after `n` bits of the exponent.
exp_word-power :
    (n word r b : ℕ) → r < 2 ^ 256 → (exp_word n word (r, b)).0 ≡ r * b ^ (word % 2 ^ n) % 2 ^ 256
unfolding exp_word
exp_word-power zero word r b h =
    next_word r (2 ^ 256) h b ∙ ap (λ k. r * b ^ k % 2 ^ 256) (omega arith)
exp_word-power (suc n) word r b h =
    let rest = word / 2 % 2 ^ n in
    let exponent : rest * 2 + word % 2 ≡ word % 2 ^ suc n =
      last_digit 2 (2 ^ n) word (omega arith) (pow_two-pos n) ∙ ap (◌%◌ word) (sym (pow-suc 2 n)) in
    exp_word-power n (word / 2) _ _ (bit_reduced r b (word % 2) (2 ^ 256) (omega arith) h)
    ∙ bit_step r b rest (2 ^ 256) (word % 2) (omega arith)
    ∙ ap (λ k. r * b ^ k % 2 ^ 256) exponent

-- The base after `n` bits.
exp_word-base : (n word r b : ℕ) → (exp_word n word (r, b)).1 % 2 ^ 256 ≡ b ^ 2 ^ n % 2 ^ 256
unfolding exp_word
exp_word-base zero word r b = ap (λ p. p % 2 ^ 256) (sym (pow_one b))
exp_word-base (suc n) word r b =
    exp_word-base n (word / 2) _ (b * b % 2 ^ 256)
    ∙ mod_pow (b * b) (2 ^ 256) (2 ^ n)
    ∙ ap (λ p. p % 2 ^ 256) (square_pow b (2 ^ n) ∙ ap (◌^◌ b) (sym (pow-suc 2 n)))

-- The number that words stand for, the lowest first.
unfoldable pub words_value : List ℕ → ℕ
words_value [] = 0
words_value (w ∷ ws) = w + 2 ^ 64 * words_value ws

-- A word and the words behind it multiply as their exponents add.
word_step :
    (m r b w p v x y : ℕ)
    → x ≡ r * b ^ w % m
    → y % m ≡ b ^ p % m
    → x * y ^ v % m ≡ r * b ^ (w + p * v) % m
word_step m r b w p v x y h k =
    ap (λ n. n * y ^ v % m) h
    ∙ mod_mul (r * b ^ w) m (y ^ v)
    ∙ sym (mul_mod (y ^ v) m (r * b ^ w))
    ∙ ap (λ n. r * b ^ w * n % m)
        (sym (mod_pow y m v) ∙ ap (λ n. n ^ v % m) k ∙ mod_pow (b ^ p) m v)
    ∙ mul_mod ((b ^ p) ^ v) m (r * b ^ w)
    ∙ ap (λ n. n % m)
        (mul_assoc r (b ^ w) ((b ^ p) ^ v)
          ∙ ap (◌*◌ r) (ap (◌*◌ (b ^ w)) (pow_pow b p v) ∙ sym (pow_add b w (p * v))))

exp_words-power :
    (words : List ℕ) (s : ℕ × ℕ)
    → All (λ w. w < 2 ^ 64) words
    → s.0 < 2 ^ 256
    → (exp_words words s).0 ≡ s.0 * s.1 ^ words_value words % 2 ^ 256
unfolding exp_words words_value
exp_words-power [] s h k = next_word (s.0) (2 ^ 256) k (s.1)
exp_words-power (w ∷ ws) s (small, rest) k =
    let s' = exp_word 64 w s in
    let result : s'.0 ≡ s.0 * s.1 ^ w % 2 ^ 256 =
      exp_word-power 64 w (s.0) (s.1) k ∙ ap (λ n. s.0 * s.1 ^ n % 2 ^ 256) (mod-eq_of_lt small) in
    exp_words-power ws s' rest
      (subst (λ n. n < 2 ^ 256) (sym result) (mod-lt (s.0 * s.1 ^ w) (omega arith)))
    ∙ word_step (2 ^ 256) (s.0) (s.1) w (2 ^ 64) (words_value ws) (s'.0) (s'.1) result
        (exp_word-base 64 w (s.0) (s.1))

-- On an exponent of 64-bit words `Exp` returns the power modulo 2^256.
pub exp-power :
    (base : ℕ) (words : List ℕ)
    → All (λ w. w < 2 ^ 64) words
    → (exp base words).0 ≡ base ^ words_value words % 2 ^ 256
unfolding exp
exp-power base words h =
    exp_words-power words (1, base) h (omega arith)
    ∙ ap (λ n. n % 2 ^ 256) (one-mul (base ^ words_value words))

next_exponent : (n : ℕ) → 2 ^ 64 * 2 ^ (64 * n) ≡ 2 ^ (64 * suc n)
next_exponent n = sym (pow_add 2 64 (64 * n)) ∙ ap (◌^◌ 2) (omega arith)

exp_words-base :
    (words : List ℕ) (s : ℕ × ℕ)
    → (exp_words words s).1 % 2 ^ 256 ≡ s.1 ^ 2 ^ (64 * length words) % 2 ^ 256
unfolding exp_words
exp_words-base [] s = ap (λ p. p % 2 ^ 256) (sym (pow_one (s.1)))
exp_words-base (w ∷ ws) s =
    let s' = exp_word 64 w s in
    let k = 2 ^ (64 * length ws) in
    exp_words-base ws s'
    ∙ sym (mod_pow (s'.1) (2 ^ 256) k)
    ∙ ap (λ n. n ^ k % 2 ^ 256) (exp_word-base 64 w (s.0) (s.1))
    ∙ mod_pow (s.1 ^ 2 ^ 64) (2 ^ 256) k
    ∙ ap (λ n. n % 2 ^ 256) (pow_pow (s.1) (2 ^ 64) k ∙ ap (◌^◌ (s.1)) (next_exponent (length ws)))

-- `Exp` leaves in its base the base squared 64 times for each word of the exponent, modulo 2^256.
exp-base :
    (base : ℕ) (words : List ℕ)
    → (exp base words).1 % 2 ^ 256 ≡ base ^ 2 ^ (64 * length words) % 2 ^ 256
unfolding exp
exp-base base words = exp_words-base words (1, base)
