-- ===== src/Conv/Tests.antt =====
-- Conversions of small integers, windows of three bytes, and one that wraps round.
use sea_pkg.Base.{ℕ, ◌+◌, ◌-◌, ◌^◌, ◌<◌, ◌≤◌, ◌≡◌, refl, List, [], ◌∷◌, arith}
use sea_pkg.Base.Outcome.{ok, panic, slice_bounds}
use sea_pkg.Conv.{
  int82bytes, bytes2int8, get_data, hex2bytes_fixed, be_bytes, right_pad_bytes, clamp,
}
use sea_pkg.Conv.{
  int2bytes, int642bytes, uint2bytes, uint642bytes, bytes2int, bytes2int64, bytes2uint,
  bytes2uint64, int322bytes, uint322bytes, bytes2int32, bytes2uint32, int162bytes, uint162bytes,
  bytes2int16, bytes2uint16, uint82bytes, bytes2uint8,
}
use sea_pkg.Conv.RoundTrip.{Restores, bytes2int-int2bytes}
use sea_pkg.Conv.Window.{window, get_data-window, get_data-overflow}
use sea_pkg.Conv.Fixed.{IsFixed, hex2bytes_fixed-IsFixed}

abbrev three_bytes : List ℕ
three_bytes = 7 ∷ 8 ∷ 9 ∷ []

window_padded : get_data three_bytes 1 4 ≡ ok (8 ∷ 9 ∷ 0 ∷ 0 ∷ [])
unfolding get_data right_pad_bytes clamp
window_padded = refl

int82bytes_negative : int82bytes 0xfe ≡ 0xff ∷ 0xfe ∷ []
unfolding int82bytes be_bytes
int82bytes_negative = refl

start_fits : clamp 1 3 + 4 < 2 ^ 64
unfolding clamp
start_fits = omega arith

start_overflows : 2 ^ 64 ≤ clamp 1 3 + (2 ^ 64 - 1)
unfolding clamp
start_overflows = omega arith

get_data-window_example : get_data three_bytes 1 4 ≡ ok (window three_bytes 1 4)
get_data-window_example = get_data-window three_bytes 1 4 (omega arith) start_fits

bytes2int-int2bytes_example :
    Restores 64 int2bytes bytes2int 258 three_bytes
    × Restores 64 uint2bytes bytes2uint 258 three_bytes
    × Restores 64 int642bytes bytes2int64 258 three_bytes
    × Restores 64 uint642bytes bytes2uint64 258 three_bytes
    × Restores 32 int322bytes bytes2int32 258 three_bytes
    × Restores 32 uint322bytes bytes2uint32 258 three_bytes
    × Restores 16 int162bytes bytes2int16 258 three_bytes
    × Restores 16 uint162bytes bytes2uint16 258 three_bytes
    × Restores 8 int82bytes bytes2int8 258 three_bytes
    × Restores 8 uint82bytes bytes2uint8 258 three_bytes
bytes2int-int2bytes_example = bytes2int-int2bytes 258 three_bytes

get_data-overflow_example :
    get_data three_bytes 1 (2 ^ 64 - 1)
    ≡ panic (slice_bounds (clamp 1 3) (clamp 1 3 + (2 ^ 64 - 1) - 2 ^ 64))
get_data-overflow_example =
    get_data-overflow three_bytes 1 (2 ^ 64 - 1) (omega arith) (omega arith) start_overflows

hex2bytes_fixed-IsFixed_example :
    IsFixed three_bytes 2 (hex2bytes_fixed (λ (s : List ℕ). s) three_bytes 2)
hex2bytes_fixed-IsFixed_example =
    hex2bytes_fixed-IsFixed (λ (s : List ℕ). s) three_bytes 2
      (omega arith, (omega arith, (omega arith, tt)))
