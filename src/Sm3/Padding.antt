-- ===== src/Sm3/Padding.antt =====
-- `pad` and `Sum`, against the hash of a whole message.
use sea_pkg.Base.{ℕ, zero, suc, ◌+◌, ◌-◌, ◌*◌, ◌%◌, ◌^◌, ◌<◌, ◌≡◌, refl, ◌∙◌, arith}
use sea_pkg.Base.{
  List, [], ◌∷◌, ◌++◌, length, concat, replicate, length-append, length-replicate, ◌==◌, true,
}
use sea_pkg.Base.Outcome.{ok}
use sea_pkg.Sm3.{Sm3, update, write, reset, pad_zeros, length_bytes, pad, digest_bytes, sum}
use sea_pkg.Sm3.Chunks.{
  left_over, update-append, length-left_over, write-nil, write-IsValid, reset-IsValid, IsValid,
  write_all, write_all-concat,
}
use mathlib.Core.List.{append_assoc, append-nil}

pad_zeros-replicate :
    (k fuel : ℕ) (msg : List ℕ)
    → k < fuel
    → k < 64
    → (length msg + k) % 64 ≡ 56
    → pad_zeros fuel msg ≡ ok (msg ++ replicate k 0)
unfolding pad_zeros
pad_zeros-replicate k zero msg h l e = absurd (omega arith)
pad_zeros-replicate zero (suc fuel) msg h l e = ground (arith, append-nil msg)
pad_zeros-replicate (suc k) (suc fuel) msg h l e = ground (
  arith,
  length-append {0} msg (0 ∷ []),
  append_assoc msg (0 ∷ []) (replicate k 0),
  pad_zeros-replicate k fuel (msg ++ 0 ∷ []),
)

-- The zeros behind a message of `n` bytes and the byte 0x80.
abbrev pub zeros : ℕ → List ℕ
zeros n = replicate ((119 - n % 64) % 64) 0

-- What the standard appends to a message of `n` bytes.
abbrev pub padding : ℕ → List ℕ
padding n = 0x80 ∷ (zeros n ++ length_bytes (n * 8 % 2 ^ 64))

-- The hash of the standard: the compression of all blocks of the padded message.
pub hash : List ℕ → List ℕ
hash msg = digest_bytes (update reset.digest (msg ++ padding (length msg)))

padded-blocks :
    (u : List ℕ) (n : ℕ)
    → (length (u ++ 0x80 ∷ (zeros (length u) ++ length_bytes n)) % 64 == 0) ≡ true
unfolding length_bytes
padded-blocks u n = ground (
  arith,
  length-append {0} u (0x80 ∷ (zeros (length u) ++ length_bytes n)),
  length-append {0} (zeros (length u)) (length_bytes n),
  length-replicate {A = ℕ} ((119 - length u % 64) % 64) 0,
)

-- `pad` ends and does not panic: it appends the byte 0x80, zeros and the length.
pub pad_lem :
    (s : Sm3)
    → IsValid s
    → pad s
      ≡ ok (s.unhandle_msg ++ 0x80 ∷ (zeros (length s.unhandle_msg) ++ length_bytes s.length_))
unfolding pad
pad_lem s v =
    let u : List ℕ = s.unhandle_msg in
    let k : ℕ = (119 - length u % 64) % 64 in
    let z : List ℕ = zeros (length u) in
    let tail : List ℕ = length_bytes s.length_ in
    let filled : pad_zeros 64 (u ++ 0x80 ∷ []) ≡ ok ((u ++ 0x80 ∷ []) ++ z) =
      pad_zeros-replicate k 64 (u ++ 0x80 ∷ []) (omega arith) (omega arith)
        (omega (arith, length-append {0} u (0x80 ∷ []))) in
    let shape : ((u ++ 0x80 ∷ []) ++ z) ++ tail ≡ u ++ 0x80 ∷ (z ++ tail) =
      append_assoc (u ++ 0x80 ∷ []) z tail ∙ append_assoc u (0x80 ∷ []) (z ++ tail) in
    let whole : (length (u ++ 0x80 ∷ (z ++ tail)) % 64 == 0) ≡ true = padded-blocks u s.length_ in
    rw (filled, shape, whole) refl

-- The blocks behind the writes are the blocks of the padded message behind those that are done.
padded_message :
    (msg : List ℕ)
    → update (write reset msg).digest (
        (write reset msg).unhandle_msg
        ++ 0x80
          ∷ (zeros (length (write reset msg).unhandle_msg)
              ++ length_bytes (write reset msg).length_))
      ≡ update reset.digest (msg ++ padding (length msg))
unfolding write reset
padded_message msg =
    let n : length (left_over msg) % 64 ≡ length msg % 64 = omega (arith, length-left_over msg) in
    let size : (0 + length msg * 8) % 2 ^ 64 ≡ length msg * 8 % 2 ^ 64 = omega arith in
    rw (n, size) (update-append reset.digest msg (padding (length msg)))

-- The digest of a message is its hash by the standard, the compression of all blocks of the padded
-- message, in whatever pieces the message was written: `Sum` ends and does not panic.
pub sum-hash :
    (chunks : List (List ℕ))
    → (s : Sm3) × (sum (write_all reset chunks) [] ≡ ok (hash (concat chunks), s))
unfolding sum hash
sum-hash chunks =
    let msg : List ℕ = concat chunks in
    let s : Sm3 = write reset msg in
    let v : IsValid s = write-IsValid reset msg in
    (
      record s { digest = update reset.digest (msg ++ padding (length msg)) },
      rw
          (
            write_all-concat reset chunks reset-IsValid,
            write-nil s v,
            pad_lem s v,
            padded_message msg,
          )
          refl,
    )

-- `Sum` on an argument returns what a write of the argument and then `Sum` on no bytes would, and
-- leaves the same state.
pub sum-argument : (s : Sm3) (input : List ℕ) → sum s input ≡ sum (write s input) []
unfolding sum
sum-argument s input = rw (write-nil (write s input) (write-IsValid s input)) refl
