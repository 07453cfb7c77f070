-- ===== src/Leb128/Reader.antt =====
-- The readers on any input, well formed or not.
use sea_pkg.Base.{ℕ, ◌+◌, ◌-◌, ◌*◌, ◌%◌, ◌^◌, ◌<◌, arith}
use sea_pkg.Base.{List, [], ◌∷◌, length, ◌==◌, bit_and, bit_or, if_both}
use sea_pkg.Base.Outcome.{Outcome, ok, err, panic, ◌>>=◌}
use sea_pkg.Leb128.{ReadError, eof, read_varint64_loop, read_varint64_size, read_varint32_size}
use sea_pkg.Leb128.{read_var_uint32_loop, read_var_uint32_size, read_var_uint32, read_varint32}
use sea_pkg.Leb128.{read_varint64}

-- A reader either takes at least one byte from the front, or fails at the end of the input.
abbrev pub Takes {ℓ} : {A : Type ℓ} → List ℕ → Outcome ReadError (A × List ℕ) → Type 0
Takes r (ok (_, rest)) = length rest < length r
Takes r (err eof) = Unit {0}
Takes r (panic _) = ⊥

module _ {ℓ} {A : Type ℓ} where
  Takes-longer :
      (c : ℕ) (s : List ℕ) (o : Outcome ReadError (A × List ℕ)) → Takes s o → Takes (c ∷ s) o
  Takes-longer c s (ok (a, rest)) h = omega arith
  Takes-longer c s (err eof) h = tt
  Takes-longer c s (panic p) h = h

  Takes-map {κ} :
      {B : Type κ} (s : List ℕ) (f : A → B) (o : Outcome ReadError (A × List ℕ))
      → Takes s o
      → Takes s (o >>= λ p. ok (f p.0, p.1))
  Takes-map s f (ok (a, rest)) h = h
  Takes-map s f (err eof) h = tt
  Takes-map s f (panic p) h = h

uint32_loop-Takes :
    (r : List ℕ) (res size shift : ℕ) → Takes r (read_var_uint32_loop r res size shift)
unfolding read_var_uint32_loop
uint32_loop-Takes [] res size shift = tt
uint32_loop-Takes (cur ∷ r) res size shift =
    let res' = bit_or res (bit_and cur 0x7f * 2 ^ shift % 2 ^ 32) in
    if_both (Takes (cur ∷ r)) (bit_and cur 0x80 == 0) (omega arith)
      (Takes-longer cur r _ (uint32_loop-Takes r res' (size + 1) (shift + 7)))

varint64_loop-Takes :
    (r : List ℕ) (res size shift sign : ℕ) → Takes r (read_varint64_loop r res size shift sign)
unfolding read_varint64_loop
varint64_loop-Takes [] res size shift sign = tt
varint64_loop-Takes (cur ∷ r) res size shift sign =
    let res' = bit_or res (bit_and cur 0x7f * 2 ^ shift % 2 ^ 64) in
    if_both (Takes (cur ∷ r)) (bit_and cur 0x80 == 0) (omega arith) (
      Takes-longer cur r _
        (varint64_loop-Takes r res' (size + 1) (shift + 7) (sign * 128 % 2 ^ 64)))

pub read_var_uint32-Takes : (r : List ℕ) → Takes r (read_var_uint32 r)
unfolding read_var_uint32 read_var_uint32_size
read_var_uint32-Takes r =
    Takes-map r (λ p. p.0) (read_var_uint32_loop r 0 0 0) (uint32_loop-Takes r 0 0 0)

pub read_varint64-Takes : (r : List ℕ) → Takes r (read_varint64 r)
unfolding read_varint64 read_varint64_size
read_varint64-Takes r = Takes-map r (λ p. p.0) _ (varint64_loop-Takes r 0 0 0 (2 ^ 64 - 1))

pub read_varint32-Takes : (r : List ℕ) → Takes r (read_varint32 r)
unfolding read_varint32 read_varint32_size read_varint64_size
read_varint32-Takes r =
    Takes-map r (λ p. p.0) _
      (Takes-map r (λ p. (p.0 % 2 ^ 32, p.1)) _ (varint64_loop-Takes r 0 0 0 (2 ^ 64 - 1)))
