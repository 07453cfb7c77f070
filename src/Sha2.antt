-- ===== src/Sha2.antt =====
-- crypto/sha2/sha256.go: hashes as arrays of bytes, and the Merkle root. `sha256` is what a hasher of
-- the standard library returns for the bytes written to it, and `decode` is `hex.DecodeString`.
-- A call takes a hasher from the channel and puts it back, so the channel is a parameter: `none` is
-- the nil channel, which is what the package has, since it makes none, and `some n` a channel that
-- holds `n` hashers.
pub mod Power
pub mod Tree
mod Tests
use sea_pkg.Base.{ℕ, zero, suc, ◌+◌, ◌-◌, ◌*◌, ◌%◌, ◌^◌, List, [], ◌∷◌, ◌++◌, Bool, bit_xor}
use sea_pkg.Base.{◌==◌, ltb, if◌then◌else◌, length, replicate, Option, none, some}
use Prim.Native.String.{String}
use sea_pkg.Base.Outcome.{Outcome, ok, err, panic, index_range, ◌>>=◌}

-- What `log.Panic` and the errors tell apart; a receive that waits for ever; and `exhausted`, no Go
-- value: the fuel of the model ran out.
pub data HashFault : Type 0 where
  invalid_length invalid_hex blocked exhausted : HashFault

-- `Ripemd160.Set` and `SHA256.Set`, for `n` bytes.
unfoldable pub set_hash : ℕ → List ℕ → Outcome HashFault (List ℕ)
set_hash n b = if length b == n then ok b else err invalid_length

-- `Xor`, on two arrays of one length.
pub xor : List ℕ → List ℕ → List ℕ
xor [] _ = []
xor (a ∷ as') [] = []
xor (a ∷ as') (b ∷ bs) = bit_xor a b ∷ xor as' bs

-- A receive from the channel.
unfoldable pub receive : Option ℕ → Outcome HashFault (Unit {0})
receive none = err blocked
receive (some zero) = err blocked
receive (some (suc n)) = ok tt

-- `HashRipemd160`, with the third-party hash and the number of hashers in its channel.
pub hash_ripemd160 : (List ℕ → List ℕ) → Option ℕ → List ℕ → Outcome HashFault (List ℕ)
hash_ripemd160 ripemd160 hashers b = receive hashers >>= λ _. set_hash 20 (ripemd160 b)

pub sha256_from_hex : (String → Option (List ℕ)) → String → Outcome HashFault (List ℕ)
sha256_from_hex decode hs = elim (decode hs) [ none ↦ err invalid_hex | some b ↦ set_hash 32 b ]

-- The loop of `nextPowerOfTwo`, on fuel: `none` means that it ran out. `k` is a `uint64`.
unfoldable pub next_power_loop : ℕ → ℕ → ℕ → Option ℕ
next_power_loop zero n k = none
next_power_loop (suc fuel) n k =
    let more = next_power_loop fuel n (k * 2 % 2 ^ 64) in if ltb k n then more else some k

-- A power of two doubles 63 times within 64 bits.
unfoldable pub next_power_of_two : ℕ → Option ℕ
next_power_of_two n = next_power_loop 64 n 1

-- `h1[0]`
abbrev pub first : List (List ℕ) → Outcome HashFault (List ℕ)
first [] = panic (index_range 0 0)
first (h ∷ _) = ok h

module _ (sha256 : List ℕ → List ℕ) (hashers : Option ℕ) where
  unfoldable pub sum_sha256 : List ℕ → Outcome HashFault (List ℕ)
  sum_sha256 b = receive hashers >>= λ _. set_hash 32 (sha256 b)

  pub must_sum_sha256 : List ℕ → ℕ → Outcome HashFault (List ℕ)
  must_sum_sha256 b n = if length b == n then sum_sha256 b else err invalid_length

  pub double_sha256 : List ℕ → Outcome HashFault (List ℕ)
  double_sha256 b = do h1 ← sum_sha256 b; sum_sha256 h1

  unfoldable pub add_sha256 : List ℕ → List ℕ → Outcome HashFault (List ℕ)
  add_sha256 a b = sum_sha256 (a ++ b)

  -- The hashes of the pairs; a last one without a partner is left out.
  unfoldable pub merkle_level : List (List ℕ) → Outcome HashFault (List (List ℕ))
  merkle_level [] = ok []
  merkle_level (a ∷ []) = ok []
  merkle_level (a ∷ b ∷ rest) = do c ← add_sha256 a b; cs ← merkle_level rest; ok (c ∷ cs)

  -- The loop of `Merkle`, on fuel.
  unfoldable pub merkle_loop : ℕ → List (List ℕ) → Outcome HashFault (List ℕ)
  merkle_loop zero h1 = err exhausted
  merkle_loop (suc fuel) h1 =
      let more = merkle_level h1 >>= merkle_loop fuel in if length h1 == 1 then first h1 else more

  -- A level is half as long as the one below, so 64 levels and one more round are enough.
  unfoldable pub merkle : List (List ℕ) → Outcome HashFault (List ℕ)
  merkle h0 = elim (next_power_of_two (length h0)) [
    | none ↦ err exhausted
    | some np ↦ merkle_loop 65 (h0 ++ replicate (np - length h0) (replicate 32 0))
  ]
