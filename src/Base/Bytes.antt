-- ===== src/Base/Bytes.antt =====
-- Bytes and the little-endian numbers of `encoding/binary`.
use Prim.Native.Nat.{ℕ, zero, suc, ◌+◌, ◌*◌, ◌/◌, ◌%◌, ◌^◌, ◌<◌}
use mathlib.Core.Path.{◌≡◌, refl, ap}
use mathlib.Core.List.{List, [], ◌∷◌, ◌++◌}
use native.Mathlib.Omega.{arith}
use native.Mathlib.Nat.{pow-suc}
use sea_pkg.Base.Lists.{All, length}

abbrev pub IsByte : ℕ → Type 0
IsByte b = b < 256

-- The first `n` bytes as a number, the lowest byte first; what is missing counts as 0.
unfoldable pub le_value : ℕ → List ℕ → ℕ
le_value zero bs = 0
le_value (suc n) [] = 0
le_value (suc n) (b ∷ bs) = b + 256 * le_value n bs

-- The `n` bytes of a number.
unfoldable pub le_bytes : ℕ → ℕ → List ℕ
le_bytes zero v = []
le_bytes (suc n) v = v % 256 ∷ le_bytes n (v / 256)

pub length-le_bytes : (n v : ℕ) → length (le_bytes n v) ≡ n
unfolding le_bytes
length-le_bytes zero v = refl
length-le_bytes (suc n) v = ap suc (length-le_bytes n (v / 256))

pub le_value-le_bytes :
    (n v : ℕ) (rest : List ℕ) → v < 256 ^ n → le_value n (le_bytes n v ++ rest) ≡ v
unfolding le_value le_bytes
le_value-le_bytes zero v rest h = omega arith
le_value-le_bytes (suc n) v rest h =
    omega (arith, le_value-le_bytes n (v / 256) rest (omega (arith, pow-suc 256 n)))

pub le_value-lt : (n : ℕ) (bs : List ℕ) → All IsByte bs → le_value n bs < 256 ^ n
unfolding le_value
le_value-lt zero bs h = omega arith
le_value-lt (suc n) [] h = omega (arith, pow-suc 256 n, le_value-lt n [] tt)
le_value-lt (suc n) (b ∷ bs) (h, t) = omega (arith, pow-suc 256 n, le_value-lt n bs t)

pub le_bytes-IsByte : (n v : ℕ) → All IsByte (le_bytes n v)
unfolding le_bytes
le_bytes-IsByte zero v = tt
le_bytes-IsByte (suc n) v = (omega arith, le_bytes-IsByte n (v / 256))
