-- ===== src/Exec/Linear/RoundTrip.antt =====
-- What a store leaves in the memory, and a load finds there.
use sea_pkg.Base.{ℕ, zero, suc, ◌+◌, ◌^◌, ◌≤◌, ◌<◌, ◌≡◌, refl, List, [], ◌∷◌, ◌++◌, arith}
use sea_pkg.Base.{leb, length, take, drop, get_elem?, ◌⊎◌, length-append, length-take, length-drop}
use sea_pkg.Base.{true}
use sea_pkg.Base.Outcome.{ok}
use sea_pkg.Base.Bytes.{le_value, le_bytes, length-le_bytes, le_value-le_bytes}
use sea_pkg.Exec.{Vm}
use Prim.Native.Nat.add
use sea_pkg.Exec.Linear.{load_at, store_at, overwrite}

drop-overwrite :
    (m : List ℕ) (addr : ℕ) (bs : List ℕ)
    → addr ≤ length m
    → drop addr (overwrite m addr bs) ≡ bs ++ drop (addr + length bs) m
drop-overwrite m zero bs h = refl
drop-overwrite [] (suc a) bs h = absurd (omega arith)
drop-overwrite (x ∷ m) (suc a) bs h = rw add.suc (drop-overwrite m a bs (omega arith))

length-overwrite :
    (m : List ℕ) (addr : ℕ) (bs : List ℕ)
    → addr + length bs ≤ length m
    → length (overwrite m addr bs) ≡ length m
length-overwrite m addr bs h = omega (
  arith,
  length-append (take addr m) (bs ++ drop (addr + length bs) m),
  length-append bs (drop (addr + length bs) m),
  length-take addr m,
  length-drop (addr + length bs) m,
)

get_elem?-past :
    (bs m : List ℕ) (j : ℕ)
    → length bs ≤ length m
    → length bs ≤ j
    → get_elem? (bs ++ drop (length bs) m) j ≡ get_elem? m j
get_elem?-past [] m j h k = refl
get_elem?-past (b ∷ bs) [] j h k = absurd (omega arith)
get_elem?-past (b ∷ bs) (x ∷ m) zero h k = absurd (omega arith)
get_elem?-past (b ∷ bs) (x ∷ m) (suc j) h k = get_elem?-past bs m j (omega arith) (omega arith)

get_elem?-overwrite :
    (m : List ℕ) (addr : ℕ) (bs : List ℕ) (j : ℕ)
    → addr + length bs ≤ length m
    → (j < addr) ⊎ (addr + length bs ≤ j)
    → get_elem? (overwrite m addr bs) j ≡ get_elem? m j
get_elem?-overwrite m zero bs j h o =
    rw add.zero (get_elem?-past bs m j (omega arith) (omega arith))
get_elem?-overwrite [] (suc a) bs j h o = absurd (omega arith)
get_elem?-overwrite (x ∷ m) (suc a) bs zero h o = refl
get_elem?-overwrite (x ∷ m) (suc a) bs (suc j) h o =
    rw add.suc (get_elem?-overwrite m a bs j (omega arith) (omega arith))

-- A store of `n` bytes that lies in the memory succeeds and keeps the memory's length; a load at
-- the same address returns the value that was stored, and every byte outside is as it was.
pub load_at-store_at :
    (n v addr : ℕ) (vm : Vm)
    → v < 256 ^ n
    → addr + n ≤ length vm.memory
    → (vm' : Vm) × (store_at n v addr vm ≡ ok (tt, vm'))
      × (load_at n addr vm' ≡ ok (v, vm'))
      × (length vm'.memory ≡ length vm.memory)
      × ((j : ℕ) → (j < addr) ⊎ (addr + n ≤ j) → get_elem? vm'.memory j ≡ get_elem? vm.memory j)
unfolding load_at store_at
load_at-store_at n v addr vm h fits =
    let size : length (le_bytes n v) ≡ n = length-le_bytes n v in
    let after : List ℕ = overwrite vm.memory addr (le_bytes n v) in
    let same : length after ≡ length vm.memory =
      length-overwrite vm.memory addr (le_bytes n v) (omega arith) in
    let room : leb (addr + n) (length vm.memory) ≡ true = ground arith in
    let room' : leb (addr + n) (length after) ≡ true = ground arith in
    let value : le_value n (drop addr after) ≡ v =
      rw (drop-overwrite vm.memory addr (le_bytes n v) (omega arith)) (le_value-le_bytes n v _ h) in
    (
      record vm { memory = after },
      rw room refl,
      rw (room', value) refl,
      same,
      λ j o. get_elem?-overwrite vm.memory addr (le_bytes n v) j (omega arith) (omega arith),
    )
