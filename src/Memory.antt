-- ===== src/Memory.antt =====
-- util/memory/memory.go: the memory of a virtual machine. Its slice is the backing array, the bytes
-- up to the capacity, with a length: a slice of it may reach up to the capacity. Offsets and sizes
-- are not negative, and sizes can be allocated. The bytes that `append` allocates behind the new
-- length are a parameter.
pub mod Window
mod Tests
use sea_pkg.Base.{
  ℕ, ◌+◌, ◌-◌, ◌%◌, ◌^◌, List, [], ◌++◌, Bool, ◌&&◌, ◌==◌, leb, ltb, if◌then◌else◌, length, set,
  take, drop, slice, replicate,
}
use sea_pkg.Base.Lists.{copy}
use sea_pkg.Base.Outcome.{Outcome, ok, err, panic, index_range, slice_bounds}

-- The panic of the package itself.
pub data MemoryError : Type 0 where
  store_empty : MemoryError

abbrev pub Result : Type 0 → Type 0
Result A = Outcome MemoryError A

pub record Memory : Type 0 where
  pub backing : List ℕ
  pub len : ℕ

abbrev pub new_memory : Memory
new_memory = record { backing = []; len = 0 }

-- `m.store[lo:hi]` is in bounds.
unfoldable pub in_capacity : ℕ → ℕ → Memory → Bool
in_capacity lo hi m = leb lo hi && leb hi (length m.backing)

-- `offset + size` is a `uint64`.
unfoldable pub set_value : ℕ → ℕ → List ℕ → Memory → Result Memory
set_value offset size value m =
    let hi = (offset + size) % 2 ^ 64 in
    if ltb m.len size
    then err store_empty
    else if size == 0
    then ok m
    else if in_capacity offset hi m
    then ok (record m {
      backing =
          take offset m.backing ++ (copy (slice m.backing offset hi) value ++ drop hi m.backing);
    })
    else panic (slice_bounds hi (length m.backing))

unfoldable pub set_byte : ℕ → ℕ → Memory → Result Memory
set_byte offset value m =
    if ltb offset m.len
    then ok (record m { backing = set m.backing offset value })
    else panic (index_range offset m.len)

-- The zeros are appended where the capacity has room, and to a new array where not.
unfoldable pub resize : (ℕ → ℕ → List ℕ) → ℕ → Memory → Memory
resize spare size m =
    let zeros = replicate (size - m.len) 0 in
    if ltb m.len size
    then record {
      backing =
          take m.len m.backing
          ++ (zeros
              ++ (if leb size (length m.backing)
                  then drop size m.backing
                  else spare (length m.backing) size));
      len = size;
    }
    else m

-- A nil slice is the empty one. A sum of offset and size that leaves an `int64` is negative there and
-- above every capacity here, and the slice panics either way. `GetPtr` returns the same bytes without a copy.
unfoldable pub get : ℕ → ℕ → Memory → Result (List ℕ)
get offset size m =
    if size == 0
    then ok []
    else if ltb offset m.len
    then (if in_capacity offset (offset + size) m
        then ok (slice m.backing offset (offset + size))
        else panic (slice_bounds (offset + size) (length m.backing)))
    else ok []

unfoldable pub get_ptr : ℕ → ℕ → Memory → Result (List ℕ)
unfolding get
get_ptr = get

unfoldable pub data_of : Memory → List ℕ
data_of m = take m.len m.backing
