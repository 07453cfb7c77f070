-- ===== src/Exec/Process.antt =====
-- wagon/exec/vm.go: how a host function reads and writes the memory, `Process.ReadAt` and
-- `WriteAt`, at an offset that is not negative. The flag tells whether the error for a short buffer
-- or write is returned.
use sea_pkg.Base.{
  ℕ, ◌+◌, ◌-◌, ◌≤◌, ◌<◌, ◌≡◌, refl, ◌∙◌, arith, List, ◌++◌, Bool, false, ltb, if◌then◌else◌, length,
  take, drop, slice, drop-front, take-front, length-append, length-take, length-drop, Bool-cases,
  inl, inr,
}
use Prim.Native.Nat.{min}
use sea_pkg.Base.Outcome.{Outcome, ok, panic, slice_bounds}
use sea_pkg.Exec.{Vm}

abbrev pub ProcResult : Type 0 → Type 0
ProcResult A = Outcome ⊥ A

-- The number of the bytes that lie in the memory.
unfoldable pub length_at : List ℕ → ℕ → ℕ → ℕ
length_at mem n off = if ltb (length mem) (n + off) then length mem - off else n

-- Into a buffer `p`: what it holds then, and the number of bytes read. Where the offset lies behind
-- the memory, the slice is out of bounds.
unfoldable pub read_at : List ℕ → ℕ → Vm → ProcResult (List ℕ × ℕ × Bool)
read_at p off vm =
    if ltb (length vm.memory) off
    then panic (slice_bounds off (length vm.memory))
    else let n = length_at vm.memory (length p) off in
      ok (slice vm.memory off (off + n) ++ drop n p, n, ltb n (length p))

unfoldable pub write_at : List ℕ → ℕ → Vm → ProcResult (Vm × ℕ × Bool)
write_at p off vm =
    if ltb (length vm.memory) off
    then panic (slice_bounds off (length vm.memory))
    else let n = length_at vm.memory (length p) off in
      ok (
        record vm { memory = take off vm.memory ++ (take n p ++ drop (off + n) vm.memory) },
        n,
        ltb n (length p),
      )

-- The bytes of `p` that have room in the memory from the offset on.
abbrev pub room : List ℕ → ℕ → Vm → ℕ
room p off vm = min (length p) (length vm.memory - off)

length_at-room :
    (p : List ℕ) (off : ℕ) (vm : Vm)
    → off ≤ length vm.memory
    → length_at vm.memory (length p) off ≡ room p off vm
unfolding length_at
length_at-room p off vm h = elim (Bool-cases (ltb (length vm.memory) (length p + off))) [
  | inl e ↦
      let short : length vm.memory < length p + off = ground arith in rw e (omega (arith, h, short))
  | inr e ↦
      let long : length p + off ≤ length vm.memory = ground arith in rw e (omega (arith, long))
]

length-written :
    (mem p : List ℕ) (n off : ℕ)
    → n ≤ length p
    → off + n ≤ length mem
    → length (take off mem ++ (take n p ++ drop (off + n) mem)) ≡ length mem
length-written mem p n off h k = omega (
  arith,
  length-append (take off mem) (take n p ++ drop (off + n) mem),
  length-append (take n p) (drop (off + n) mem),
  length-take off mem,
  length-take n p,
  length-drop (off + n) mem,
)

-- At an offset within the memory `WriteAt` writes the bytes that have room, all of them if there is
-- room for all, and leaves the bytes before and behind; it returns their number, and an error where
-- that is less than the length. `ReadAt` at that offset, into a buffer of the same length, then reads just
-- those bytes and leaves the rest of the buffer, with the same number and error.
pub read_at-write_at :
    (p q : List ℕ) (off : ℕ) (vm : Vm)
    → off ≤ length vm.memory
    → length q ≡ length p
    → (vm' : Vm) × (vm' ≡ record vm {
      memory =
          take off vm.memory ++ (take (room p off vm) p ++ drop (off + room p off vm) vm.memory);
    })
      × (write_at p off vm ≡ ok (vm', room p off vm, ltb (room p off vm) (length p)))
      × (read_at q off vm'
          ≡ ok (
            take (room p off vm) p ++ drop (room p off vm) q,
            room p off vm,
            ltb (room p off vm) (length p),
          ))
unfolding read_at write_at
read_at-write_at p q off vm h e =
    let mem = vm.memory in
    let n = room p off vm in
    let vm' : Vm = record vm { memory = take off mem ++ (take n p ++ drop (off + n) mem) } in
    let size : length vm'.memory ≡ length mem =
      length-written mem p n off (omega arith) (omega (arith, h)) in
    let inside : ltb (length mem) off ≡ false = ground arith in
    let same : length_at mem (length p) off ≡ n = length_at-room p off vm h in
    let again : length_at vm'.memory (length q) off ≡ n =
      length_at-room q off vm' (omega (arith, size, h)) ∙ omega (arith, size, e) in
    let n_again : (off + n) - off ≡ n = omega arith in
    (
      vm',
      refl,
      rw (inside, same) refl,
      rw
          (
            again,
            size,
            e,
            inside,
            n_again,
            drop-front off mem (take n p ++ drop (off + n) mem) h,
            take-front n p (drop (off + n) mem) (omega arith),
          )
          refl,
    )
