-- ===== src/Math/Bytes.antt =====
-- The bytes of a big integer, and the data it points at.
use sea_pkg.Base.{
  ℕ, zero, suc, ◌+◌, ◌-◌, ◌*◌, ◌/◌, ◌%◌, ◌^◌, ◌<◌, ◌≡◌, ap, sym, ◌∙◌, List, [], ◌∷◌, false, arith,
}
use sea_pkg.Base.{length, All, get_or, leb, ltb, lt→ltb, if◌then◌else◌, slice}
use native.Mathlib.Decide.{dec_lt}
use native.Mathlib.Nat.{
  add-mul-div_left, mul_assoc, mul_comm, pow-suc, zero-div, div-div-eq-div-mul,
  add-mul-mod_self_left,
}
use sea_pkg.Conv.{right_pad_bytes, clamp}
use sea_pkg.Conv.Window.{
  window, right_pad_bytes-IsWindow, IsWindow-window, IsWindow-clamp, clamp-ends, clamp-le,
}
use sea_pkg.Math.{big_endian_byte_at, byte, get_data_big, big_min}
use sea_pkg.Math.Exp.{words_value, pow_pow}
use sea_pkg.Base.Modular.{pow_add}

-- `GetDataBig` on a size below 2^63 returns the window of the data, with zeros behind, wherever it
-- starts.
get_data_big-window :
    (bs : List ℕ) (start size : ℕ)
    → size < 2 ^ 63
    → get_data_big bs start size ≡ window bs start size
unfolding get_data_big big_min clamp
get_data_big-window bs start size h =
    let s = clamp start (length bs) in
    let e = clamp (s + size) (length bs) in
    let exact : size % 2 ^ 64 ≡ size = omega arith in
    let ends = clamp-ends s size bs (clamp-le start (length bs)) in
    let found = right_pad_bytes-IsWindow bs s e size ends.0 ends.1 ends.2 ends.3 h in
    ap (right_pad_bytes (slice bs s e)) exact
    ∙ IsWindow-window bs start size _ (IsWindow-clamp bs start size _ found)

pow_256-pos : (n : ℕ) → 0 < 256 ^ n
pow_256-pos zero = omega arith
pow_256-pos (suc n) = omega (arith, pow-suc 256 n, pow_256-pos n)

word_split : (n v : ℕ) → n < 8 → 2 ^ 64 * v ≡ 256 ^ n * (256 * (256 ^ (7 - n) * v))
word_split n v h =
    let q = 256 ^ (7 - n) in
    let eight : 8 ≡ n + suc (7 - n) = omega arith in
    let power : 256 ^ 8 ≡ 256 ^ n * (q * 256) =
      ap (λ k. 256 ^ k) eight
      ∙ pow_add 256 n (suc (7 - n))
      ∙ ap (◌*◌ (256 ^ n)) (pow-suc 256 (7 - n)) in
    ap (λ k. k * v) power
    ∙ mul_assoc (256 ^ n) (q * 256) v
    ∙ ap (◌*◌ (256 ^ n)) (ap (λ k. k * v) (mul_comm q 256) ∙ mul_assoc 256 q v)

-- A byte of the lowest word is not touched by the words above.
byte_of_word : (n w v : ℕ) → n < 8 → w / 2 ^ (8 * n) % 256 ≡ (w + 2 ^ 64 * v) / 256 ^ n % 256
byte_of_word n w v h =
    let above = 256 ^ (7 - n) * v in
    ap (λ p. w / p % 256) (sym (pow_pow 2 8 n))
    ∙ sym (
        ap (λ k. (w + k) / 256 ^ n % 256) (word_split n v h)
        ∙ ap (λ k. k % 256) (add-mul-div_left w (256 * above) (pow_256-pos n))
        ∙ add-mul-mod_self_left (w / 256 ^ n) 256 above)

next_words : (m w v : ℕ) → w < 2 ^ 64 → v / 256 ^ m ≡ (w + 2 ^ 64 * v) / 256 ^ (8 + m)
next_words m w v h =
    ap (λ k. k / 256 ^ m) (omega arith)
    ∙ div-div-eq-div-mul (w + 2 ^ 64 * v) (2 ^ 64) (256 ^ m)
    ∙ ap (λ p. (w + 2 ^ 64 * v) / p) (sym (pow_add 256 8 m))

-- The byte at a position is the digit of the number to the base 256.
big_endian_byte_at-digit :
    (words : List ℕ) (n : ℕ)
    → All (λ w. w < 2 ^ 64) words
    → big_endian_byte_at words n ≡ words_value words / 256 ^ n % 256
unfolding big_endian_byte_at words_value
big_endian_byte_at-digit [] n h =
    ap (λ k. k % 256) (zero-div (2 ^ (8 * (n % 8))) ∙ sym (zero-div (256 ^ n)))
big_endian_byte_at-digit (w ∷ ws) n (small, rest) = elim (dec_lt n 8) [
  | yes low ↦
      let at : n / 8 ≡ 0 = omega arith in
      let shift : n % 8 ≡ n = omega arith in
      ap (λ k. get_or (w ∷ ws) k 0 / 2 ^ (8 * (n % 8)) % 256) at
      ∙ ap (λ k. w / 2 ^ (8 * k) % 256) shift
      ∙ byte_of_word n w (words_value ws) low
  | no high ↦
      let m = n - 8 in
      let at : n / 8 ≡ suc (m / 8) = omega arith in
      let shift : n % 8 ≡ m % 8 = omega arith in
      let back : 8 + m ≡ n = omega arith in
      ap (λ k. get_or (w ∷ ws) k 0 / 2 ^ (8 * (n % 8)) % 256) at
      ∙ ap (λ k. get_or ws (m / 8) 0 / 2 ^ (8 * k) % 256) shift
      ∙ big_endian_byte_at-digit ws m rest
      ∙ ap (λ k. k % 256) (next_words m w (words_value ws) small)
      ∙ ap (λ k. (w + 2 ^ 64 * words_value ws) / 256 ^ k % 256) back
]

-- `Byte` is the digit to the base 256 at the position `n`, counted from the highest of `padlength`
-- digits, and 0 behind the last.
byte-digit :
    (words : List ℕ) (padlength n : ℕ)
    → All (λ w. w < 2 ^ 64) words
    → byte words padlength n
      ≡ (if ltb n padlength then words_value words / 256 ^ (padlength - 1 - n) % 256 else 0)
unfolding byte
byte-digit words padlength n h = elim (dec_lt n padlength) [
  | yes inside ↦
      let not_behind : leb padlength n ≡ false = ground arith in
      rw (not_behind, lt→ltb n padlength inside)
        (big_endian_byte_at-digit words (padlength - 1 - n) h)
  | no behind ↦ ground arith
]
