-- ===== src/Conv.antt =====
-- util/conv/bytes.go: conversions between bytes and integers, booleans and hexadecimals. An integer of
-- w bits, signed or not, is its bit pattern. `decode` is `hex.DecodeString`: the bytes it returns, also
-- next to an error. An allocation succeeds.
pub mod Digits
pub mod RoundTrip
pub mod Window
pub mod Fixed
mod Tests
use sea_pkg.Base.{
  ℕ, zero, suc, ◌+◌, ◌-◌, ◌*◌, ◌/◌, ◌%◌, ◌^◌, List, [], ◌∷◌, ◌++◌, Bool, true, false, ◌||◌,
}
use sea_pkg.Base.{◌==◌, leb, ltb, if◌then◌else◌, length, slice, take, drop, replicate}
use sea_pkg.Base.Outcome.{Outcome, ok, panic, index_range, slice_bounds, ◌>>=◌}
use sea_pkg.Base.Words.{is_neg, extend_s}

-- Nothing here returns an error.
abbrev pub Panics : Type 0 → Type 0
Panics A = Outcome ⊥ A

-- `binary.BigEndian`: the `n` bytes of a number, the highest first, and the number of bytes behind
-- a number that was read.
unfoldable pub be_bytes : ℕ → ℕ → List ℕ
be_bytes zero v = []
be_bytes (suc n) v = be_bytes n (v / 256) ++ v % 256 ∷ []

unfoldable pub be_value : ℕ → List ℕ → ℕ
be_value v [] = v
be_value v (b ∷ bs) = be_value (v * 256 + b) bs

-- `BigEndian.Uint16` and its like read the first `n` bytes, and panic on less.
unfoldable pub be_read : ℕ → List ℕ → Panics ℕ
be_read n bs =
    if leb n (length bs)
    then ok (be_value 0 (take n bs))
    else panic (index_range (n - 1) (length bs))

unfoldable pub int2bytes : ℕ → List ℕ
int2bytes i = be_bytes 8 i

unfoldable pub int642bytes : ℕ → List ℕ
int642bytes i = be_bytes 8 i

unfoldable pub uint2bytes : ℕ → List ℕ
uint2bytes u = be_bytes 8 u

unfoldable pub uint642bytes : ℕ → List ℕ
uint642bytes u = be_bytes 8 u

unfoldable pub bytes2int : List ℕ → Panics ℕ
bytes2int b = be_read 8 b

unfoldable pub bytes2int64 : List ℕ → Panics ℕ
bytes2int64 b = be_read 8 b

unfoldable pub bytes2uint : List ℕ → Panics ℕ
bytes2uint b = be_read 8 b

unfoldable pub bytes2uint64 : List ℕ → Panics ℕ
bytes2uint64 b = be_read 8 b

unfoldable pub int322bytes : ℕ → List ℕ
int322bytes i = be_bytes 4 i

unfoldable pub uint322bytes : ℕ → List ℕ
uint322bytes u = be_bytes 4 u

unfoldable pub bytes2int32 : List ℕ → Panics ℕ
bytes2int32 b = be_read 4 b

unfoldable pub bytes2uint32 : List ℕ → Panics ℕ
bytes2uint32 b = be_read 4 b

unfoldable pub int162bytes : ℕ → List ℕ
int162bytes i = be_bytes 2 i

unfoldable pub uint162bytes : ℕ → List ℕ
uint162bytes u = be_bytes 2 u

unfoldable pub bytes2int16 : List ℕ → Panics ℕ
bytes2int16 b = be_read 2 b

unfoldable pub bytes2uint16 : List ℕ → Panics ℕ
bytes2uint16 b = be_read 2 b

-- Eight bits take two bytes; a signed integer is extended by its sign.
unfoldable pub int82bytes : ℕ → List ℕ
int82bytes i = be_bytes 2 (extend_s 8 16 i)

unfoldable pub uint82bytes : ℕ → List ℕ
uint82bytes u = be_bytes 2 u

unfoldable pub bytes2int8 : List ℕ → Panics ℕ
bytes2int8 b = be_read 2 b >>= λ v. ok (v % 256)

unfoldable pub bytes2uint8 : List ℕ → Panics ℕ
bytes2uint8 b = be_read 2 b >>= λ v. ok (v % 256)

unfoldable pub bool2bytes : Bool → List ℕ
bool2bytes b = if b then 1 ∷ [] else 0 ∷ []

unfoldable pub bytes2bool : List ℕ → Bool
bytes2bool [] = false
bytes2bool (b ∷ _) = b == 1

-- `l` is an `int`.
unfoldable pub right_pad_bytes : List ℕ → ℕ → List ℕ
right_pad_bytes bs l =
    if is_neg 64 l || leb l (length bs) then bs else bs ++ replicate (l - length bs) 0

unfoldable pub left_pad_bytes : List ℕ → ℕ → List ℕ
left_pad_bytes bs l =
    if is_neg 64 l || leb l (length bs) then bs else replicate (l - length bs) 0 ++ bs

-- `start` where it is not behind the end of the data.
unfoldable pub clamp : ℕ → ℕ → ℕ
clamp start len = if ltb len start then len else start

-- `start`, `size` and their sum are `uint64`s.
unfoldable pub get_data : List ℕ → ℕ → ℕ → Panics (List ℕ)
get_data data' start size =
    let s = clamp start (length data') in
    let e = clamp ((s + size) % 2 ^ 64) (length data') in
    if leb s e then ok (right_pad_bytes (slice data' s e) size) else panic (slice_bounds s e)

-- `Hex2BytesFixed`, for a length that is not negative.
unfoldable pub hex2bytes_fixed {ℓ} : {S : Type ℓ} → (S → List ℕ) → S → ℕ → List ℕ
hex2bytes_fixed decode str flen =
    let h = decode str in
    if length h == flen
    then h
    else if ltb flen (length h)
    then drop (length h - flen) h
    else replicate (flen - length h) 0 ++ h
