-- ===== src/Leb128/Unsigned.antt =====
-- The unsigned encoding: what `append_uleb128` writes, and that the reader returns it.
use sea_pkg.Base.{ℕ, zero, suc, ◌+◌, ◌*◌, ◌/◌, ◌%◌, ◌^◌, ◌≤◌, ◌<◌, ◌≡◌, arith}
use sea_pkg.Base.{List, [], ◌∷◌, ◌++◌, length, ◌==◌, if◌then◌else◌, bit_and, bit_or, some}
use sea_pkg.Base.{ap}
use sea_pkg.Base.Bits.{bit_and_7f, bit_and_80, bit_or-disjoint}
use sea_pkg.Base.Outcome.{ok}
use sea_pkg.Leb128.{append_uleb128_loop, append_uleb128, write_var_uint32}
use sea_pkg.Leb128.{read_var_uint32_loop, read_var_uint32_size}
use mathlib.Core.List.{append_assoc}
use native.Mathlib.Numerals.{towards_suc}

-- Seven bits a byte, the lowest first, and the top bit on every byte but the last.
unfoldable pub uleb_bytes : ℕ → ℕ → List ℕ
uleb_bytes zero v = v % 128 ∷ []
uleb_bytes (suc k) v =
    let rest = uleb_bytes k (v / 128) in
    if v / 128 == 0 then v % 128 ∷ [] else (v % 128 + 128) ∷ rest

high_group : (v : ℕ) → bit_or (bit_and v 0x7f) 0x80 ≡ v % 128 + 128
high_group v = rw bit_and_7f (bit_or-disjoint 7 (v % 128) 1 (omega arith))

append_uleb128_loop_lem :
    (k : ℕ) (b : List ℕ) (v : ℕ)
    → v < 128 ^ suc k
    → append_uleb128_loop (suc k) b v ≡ some (b ++ uleb_bytes k v)
unfolding append_uleb128_loop uleb_bytes
append_uleb128_loop_lem zero b v h = ground (arith, bit_and_7f v, bit_and_80 (v % 128))
append_uleb128_loop_lem (suc k) b v h = ground (
  arith,
  bit_and_7f v,
  high_group v,
  bit_and_80 (v % 128),
  bit_and_80 (v % 128 + 128),
  append_uleb128_loop_lem k (b ++ (v % 128 + 128) ∷ []) (v / 128),
  append_assoc b ((v % 128 + 128) ∷ []) (uleb_bytes k (v / 128)),
)

pub shift_seven : (s : ℕ) → 2 ^ (s + 7) ≡ 128 * 2 ^ s
shift_seven s = simp towards_suc (omega arith)

-- A group of `v` at `shift`, and the groups above it.
group_split : (v s : ℕ) → v % 128 * 2 ^ s + v / 128 * 2 ^ (s + 7) ≡ v * 2 ^ s
group_split v s =
    omega (arith, ap (λ (t : ℕ). v / 128 * t) (shift_seven s), ap (λ (t : ℕ). t * 2 ^ s) (parts v))
  where
    parts : (n : ℕ) → n % 128 + n / 128 * 128 ≡ n
    parts n = omega arith

-- Where the group's value fits 32 bits, the `or` of a round adds it.
or_group :
    (cur g res shift : ℕ)
    → bit_and cur 0x7f ≡ g
    → res < 2 ^ shift
    → g * 2 ^ shift < 2 ^ 32
    → bit_or res (bit_and cur 0x7f * 2 ^ shift % 2 ^ 32) ≡ res + g * 2 ^ shift
or_group cur g res shift e low fits =
    let whole : g * 2 ^ shift % 2 ^ 32 ≡ g * 2 ^ shift = omega arith in
    rw (e, whole) (bit_or-disjoint shift res g low)

last_byte :
    (w res size shift : ℕ) (rest : List ℕ)
    → w < 128
    → res < 2 ^ shift
    → res + w * 2 ^ shift < 2 ^ 32
    → read_var_uint32_loop (w ∷ rest) res size shift ≡ ok ((res + w * 2 ^ shift, size + 1), rest)
unfolding read_var_uint32_loop
last_byte w res size shift rest h low fits =
    ground (arith, bit_and_7f w, bit_and_80 w, or_group w w res shift)

inner_byte :
    (g res size shift : ℕ) (rest : List ℕ)
    → g < 128
    → res < 2 ^ shift
    → res + g * 2 ^ shift < 2 ^ 32
    → read_var_uint32_loop ((g + 128) ∷ rest) res size shift
      ≡ read_var_uint32_loop rest (res + g * 2 ^ shift) (size + 1) (shift + 7)
unfolding read_var_uint32_loop
inner_byte g res size shift rest h low fits =
    ground (arith, bit_and_7f (g + 128), bit_and_80 (g + 128), or_group (g + 128) g res shift)

-- A group below 128 at `shift` stays below the next shift.
pub low_next : (g res shift : ℕ) → g < 128 → res < 2 ^ shift → res + g * 2 ^ shift < 2 ^ (shift + 7)
low_next g res shift h low = rw (shift_seven shift) (grind arith)

read_var_uint32_loop_lem :
    (k v res size shift : ℕ) (rest : List ℕ)
    → v < 128 ^ suc k
    → res < 2 ^ shift
    → res + v * 2 ^ shift < 2 ^ 32
    → read_var_uint32_loop (uleb_bytes k v ++ rest) res size shift
      ≡ ok ((res + v * 2 ^ shift, size + length (uleb_bytes k v)), rest)
unfolding uleb_bytes
read_var_uint32_loop_lem zero v res size shift rest h low fits =
    ground (arith, last_byte (v % 128) res size shift rest)
read_var_uint32_loop_lem (suc k) v res size shift rest h low fits = ground (
  arith,
  group_split v shift,
  last_byte (v % 128) res size shift rest,
  inner_byte (v % 128) res size shift (uleb_bytes k (v / 128) ++ rest),
  low_next (v % 128) res shift,
  read_var_uint32_loop_lem k (v / 128) (res + v % 128 * 2 ^ shift) (size + 1) (shift + 7) rest,
)

length-uleb_bytes : (k j v : ℕ) → v < 128 ^ suc j → j ≤ k → length (uleb_bytes k v) ≤ suc j
unfolding uleb_bytes
length-uleb_bytes zero j v h le = omega arith
length-uleb_bytes (suc k) zero v h le = ground arith
length-uleb_bytes (suc k) (suc j) v h le = ground (arith, length-uleb_bytes k j (v / 128))

-- The reader returns the `uint32` that the writer wrote, with the number of bytes written, and
-- leaves what follows.
pub read_var_uint32_size-write_var_uint32 :
    (v : ℕ) (rest : List ℕ)
    → v < 2 ^ 32
    → (bs : List ℕ) × (write_var_uint32 v ≡ some bs)
      × (read_var_uint32_size (bs ++ rest) ≡ ok ((v, length bs), rest))
      × (length bs ≤ 5)
unfolding write_var_uint32 append_uleb128 read_var_uint32_size
read_var_uint32_size-write_var_uint32 v rest h = (
  uleb_bytes 9 v,
  append_uleb128_loop_lem 9 [] v (omega arith),
  ground (arith, read_var_uint32_loop_lem 9 v 0 0 0 rest),
  length-uleb_bytes 9 4 v (omega arith) (omega arith),
)
