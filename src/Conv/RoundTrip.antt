-- ===== src/Conv/RoundTrip.antt =====
-- Integers and booleans come back from the bytes they were written to.
use sea_pkg.Base.{ℕ, ◌%◌, ◌^◌, ◌≡◌, sym, ap, ◌∙◌, List, ◌++◌, true, arith}
use sea_pkg.Base.{length, length-append, take, take-append, leb}
use sea_pkg.Base.Outcome.{ok}
use sea_pkg.Base.Words.{extend_s}
use sea_pkg.Conv.{
  Panics, be_bytes, be_read, int2bytes, int642bytes, uint2bytes, uint642bytes, bytes2int,
  bytes2int64, bytes2uint, bytes2uint64, int322bytes, uint322bytes, bytes2int32, bytes2uint32,
  int162bytes, uint162bytes, bytes2int16, bytes2uint16, int82bytes, uint82bytes, bytes2int8,
  bytes2uint8,
}
use sea_pkg.Conv.Digits.{length-be_bytes, be_value-be_bytes}

be_read-be_bytes : (n v : ℕ) (rest : List ℕ) → be_read n (be_bytes n v ++ rest) ≡ ok (v % 256 ^ n)
unfolding be_read
be_read-be_bytes n v rest =
    let size : length (be_bytes n v) ≡ n = length-be_bytes n v in
    let bytes : take n (be_bytes n v ++ rest) ≡ be_bytes n v =
      ap (λ k. take k (be_bytes n v ++ rest)) (sym size) ∙ take-append (be_bytes n v) rest in
    let enough : leb n (length (be_bytes n v ++ rest)) ≡ true =
      ground (arith, length-append {0} (be_bytes n v) rest) in
    rw (enough, bytes, be_value-be_bytes n v)

-- The conversions give back the lowest `w` bits of `v`, whatever bytes follow.
abbrev pub Restores : ℕ → (ℕ → List ℕ) → (List ℕ → Panics ℕ) → ℕ → List ℕ → Type 0
Restores w write read v rest = read (write v ++ rest) ≡ ok (v % 2 ^ w)

-- An integer of every type comes back from its bytes, whatever bytes follow: `int` and `uint` with
-- 64 bits, and those of 64, 32, 16 and 8 bits.
pub bytes2int-int2bytes :
    (v : ℕ) (rest : List ℕ)
    → Restores 64 int2bytes bytes2int v rest
      × Restores 64 uint2bytes bytes2uint v rest
      × Restores 64 int642bytes bytes2int64 v rest
      × Restores 64 uint642bytes bytes2uint64 v rest
      × Restores 32 int322bytes bytes2int32 v rest
      × Restores 32 uint322bytes bytes2uint32 v rest
      × Restores 16 int162bytes bytes2int16 v rest
      × Restores 16 uint162bytes bytes2uint16 v rest
      × Restores 8 int82bytes bytes2int8 v rest
      × Restores 8 uint82bytes bytes2uint8 v rest
unfolding int2bytes uint2bytes int642bytes uint642bytes int322bytes uint322bytes int162bytes
    uint162bytes int82bytes uint82bytes bytes2int bytes2uint bytes2int64 bytes2uint64 bytes2int32
    bytes2uint32 bytes2int16 bytes2uint16 bytes2int8 bytes2uint8
bytes2int-int2bytes v rest = (
  be_read-be_bytes 8 v rest,
  be_read-be_bytes 8 v rest,
  be_read-be_bytes 8 v rest,
  be_read-be_bytes 8 v rest,
  be_read-be_bytes 4 v rest,
  be_read-be_bytes 4 v rest,
  be_read-be_bytes 2 v rest,
  be_read-be_bytes 2 v rest,
  rw (be_read-be_bytes 2 (extend_s 8 16 v) rest) (ground arith),
  rw (be_read-be_bytes 2 v rest) (ground arith),
)
