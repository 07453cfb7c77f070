-- ===== src/Leb128/Decode.antt =====
-- `ReadVarUint32Size` against the format's definition of an unsigned number.
use sea_pkg.Base.{ℕ, ◌+◌, ◌-◌, ◌*◌, ◌/◌, ◌%◌, ◌^◌, ◌≤◌, ◌<◌, ◌≡◌, refl, sym, ap, ◌∙◌, arith}
use sea_pkg.Base.{
  List, [], ◌∷◌, All, ◌==◌, ltb, if◌then◌else◌, bit_and, bit_or, inl, inr, Bool-cases, true, false,
}
use sea_pkg.Base.Bits.{bit_and_7f, bit_and_80, bit_or-disjoint}
use sea_pkg.Base.Bytes.{IsByte}
use sea_pkg.Base.Outcome.{ok, err, panic, ◌>>=◌}
use sea_pkg.Leb128.{Read, eof, read_var_uint32_loop, read_var_uint32_size}
use sea_pkg.Leb128.Unsigned.{shift_seven, low_next}
use native.Mathlib.Nat.{add-mul, mul_assoc, mod-lt, mul-mod_left, mul-le-mul_right}
use sea_pkg.Base.Modular.{last_digit, pow_add, pow_two-pos}

-- The value of the number at the front of the bytes, of any size, and the number of its bytes: a
-- byte below 128 is the last, any other adds its seven lowest bits below the value of what follows.
unfoldable pub uleb_decode : List ℕ → Read (ℕ × ℕ)
uleb_decode [] = err eof
uleb_decode (b ∷ r) =
    let above = uleb_decode r in
    if ltb b 128
    then ok ((b, 1), r)
    else do ((v, n), rest) ← above; ok ((b % 128 + 128 * v, n + 1), rest)

-- The low 32 bits of a group at `s` are a multiple of 2^s, so `or` adds them to the lower bits.
group_or :
    (c g res s : ℕ)
    → 2 ^ 32 ≡ c * 2 ^ s
    → 0 < c
    → res < 2 ^ s
    → bit_or res (g * 2 ^ s % 2 ^ 32) ≡ (res + g * 2 ^ s) % 2 ^ 32
group_or c g res s e pos low =
    let t = 2 ^ s in
    let q = g * t / t % c in
    let group : g * t % 2 ^ 32 ≡ q * t =
      ap (λ m. g * t % m) e
      ∙ omega (arith, last_digit t c (g * t) (pow_two-pos s) pos, mul-mod_left g t) in
    let room : (q + 1) * t ≤ c * t = mul-le-mul_right t (omega (arith, mod-lt (g * t / t) pos)) in
    rw group (bit_or-disjoint s res q low ∙ omega (arith, group, room, add-mul q 1 t, e, low))

or_sum :
    (g res s : ℕ)
    → res < 2 ^ s
    → res < 2 ^ 32
    → bit_or res (g * 2 ^ s % 2 ^ 32) ≡ (res + g * 2 ^ s) % 2 ^ 32
or_sum g res s low small = elim (Bool-cases (ltb s 32)) [
  | inl e ↦
      let h : s < 32 = ground arith in
      let width : 2 ^ 32 ≡ 2 ^ (32 - s) * 2 ^ s =
        ap (λ n. 2 ^ n) {x = 32} (omega (arith, h)) ∙ pow_add 2 (32 - s) s in
      group_or (2 ^ (32 - s)) g res s width (pow_two-pos (32 - s)) low
  | inr e ↦
      let h : 32 ≤ s = ground arith in
      let above : 2 ^ s ≡ 2 ^ (s - 32) * 2 ^ 32 =
        ap (λ n. 2 ^ n) (omega (arith, h)) ∙ pow_add 2 (s - 32) 32 in
      let none_left : g * 2 ^ s % 2 ^ 32 ≡ 0 =
        ap (λ t. g * t % 2 ^ 32) above
        ∙ ap (λ n. n % 2 ^ 32) (sym (mul_assoc g (2 ^ (s - 32)) (2 ^ 32)))
        ∙ mul-mod_left (g * 2 ^ (s - 32)) (2 ^ 32) in
      rw none_left (bit_or-disjoint 32 res 0 small ∙ omega (arith, none_left, small))
]

spread : (g v t : ℕ) → (g + 128 * v) * t ≡ g * t + v * (128 * t)
spread g v t = grind arith

-- What a round leaves of the sum, and the groups above it.
sum_groups :
    (res g v s : ℕ)
    → ((res + g * 2 ^ s) % 2 ^ 32 + v * 2 ^ (s + 7)) % 2 ^ 32
      ≡ (res + (g + 128 * v) * 2 ^ s) % 2 ^ 32
sum_groups res g v s = omega (arith, spread g v (2 ^ s), ap (λ (t : ℕ). v * t) (shift_seven s))

-- The low 32 bits of a number on `res` at a shift.
abbrev onto : ℕ → ℕ → ℕ → (ℕ × ℕ) × List ℕ → Read (ℕ × ℕ)
onto res size shift ((v, n), rest) = ok (((res + v * 2 ^ shift) % 2 ^ 32, size + n), rest)

onto_next :
    (res g size shift : ℕ) (o : Read (ℕ × ℕ))
    → (o >>= onto ((res + g * 2 ^ shift) % 2 ^ 32) (size + 1) (shift + 7))
      ≡ ((do ((v, n), rest) ← o; ok ((g + 128 * v, n + 1), rest)) >>= onto res size shift)
onto_next res g size shift (ok ((v, n), rest)) =
    let next : size + 1 + n ≡ size + (n + 1) = omega arith in
    rw (sum_groups res g v shift, next) refl
onto_next res g size shift (err e) = refl
onto_next res g size shift (panic p) = refl

read_var_uint32_loop-uleb_decode :
    (r : List ℕ) (res size shift : ℕ)
    → All IsByte r
    → res < 2 ^ shift
    → res < 2 ^ 32
    → read_var_uint32_loop r res size shift ≡ (uleb_decode r >>= onto res size shift)
unfolding read_var_uint32_loop uleb_decode
read_var_uint32_loop-uleb_decode [] res size shift h low small = refl
read_var_uint32_loop-uleb_decode (b ∷ r) res size shift (byte, h) low small =
    let g = b % 128 in
    let sum : bit_or res (bit_and b 0x7f * 2 ^ shift % 2 ^ 32) ≡ (res + g * 2 ^ shift) % 2 ^ 32 =
      ap (λ (x : ℕ). bit_or res (x * 2 ^ shift % 2 ^ 32)) (bit_and_7f b)
      ∙ or_sum g res shift low small in
    elim (Bool-cases (ltb b 128)) [
      | inl e ↦
          let last : (bit_and b 0x80 == 0) ≡ true = ground (arith, bit_and_80 b) in
          let whole : g ≡ b = ground arith in rw (e, last, sum, whole) refl
      | inr e ↦
          let inner : (bit_and b 0x80 == 0) ≡ false = ground (arith, bit_and_80 b) in
          rw (e, inner, sum)
            (read_var_uint32_loop-uleb_decode r ((res + g * 2 ^ shift) % 2 ^ 32) (size + 1)
                (shift + 7) h (omega (arith, low_next g res shift (omega arith) low)) (omega arith)
              ∙ onto_next res g size shift (uleb_decode r))
    ]

-- On bytes of any length `ReadVarUint32Size` is the definition of the format, with the value's low 32
-- bits: it reads the same bytes, counts them, and fails with `io.EOF` on the same inputs. It does not
-- reject a number above 32 bits or one with more than five bytes.
pub read_var_uint32_size-uleb_decode :
    (r : List ℕ)
    → All IsByte r
    → read_var_uint32_size r ≡ (do ((v, n), rest) ← uleb_decode r; ok ((v % 2 ^ 32, n), rest))
unfolding read_var_uint32_size
read_var_uint32_size-uleb_decode r h =
    read_var_uint32_loop-uleb_decode r 0 0 0 h (omega arith) (omega arith)
    ∙ from_zero (uleb_decode r)
  where
    from_zero :
        (o : Read (ℕ × ℕ))
        → (o >>= onto 0 0 0) ≡ (do ((v, n), rest) ← o; ok ((v % 2 ^ 32, n), rest))
    from_zero (ok ((v, n), rest)) = ground arith
    from_zero (err e) = refl
    from_zero (panic p) = refl
