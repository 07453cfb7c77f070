-- ===== src/Memory/Window.antt =====
-- What `Get` finds after `Resize` and `Set`.
use sea_pkg.Base.{
  ℕ, zero, suc, ◌+◌, ◌-◌, ◌%◌, ◌^◌, ◌≤◌, ◌<◌, ◌≡◌, refl, sym, ap, ◌∙◌, arith, List, [], ◌∷◌, ◌++◌,
  true, false, ◌==◌, leb, ltb, if◌then◌else◌, length, take, drop, slice, replicate, length-append,
  length-take, length-drop, length-replicate, drop-front, take-front, take-append, drop-append,
  drop-drop, Bool-cases, inl, inr,
}
use mathlib.Core.Path.{subst}
use mathlib.Core.List.{append_assoc, append-nil}
use sea_pkg.Base.Lists.{copy, copy-shorter, drop_all}
use sea_pkg.Base.Outcome.{ok}
use sea_pkg.Memory.{Memory, in_capacity, set_value, resize, get, data_of}

abbrev pub IsValid : Memory → Type 0
IsValid m = m.len ≤ length m.backing

resize-len : (spare : ℕ → ℕ → List ℕ) (size : ℕ) (m : Memory) → size ≤ (resize spare size m).len
unfolding resize
resize-len spare size m = elim (Bool-cases (ltb m.len size)) [
  | inl e ↦ rw e (omega arith)
  | inr e ↦ let long : size ≤ m.len = ground arith in rw e long
]

resize-IsValid :
    (spare : ℕ → ℕ → List ℕ) (size : ℕ) (m : Memory) → IsValid m → IsValid (resize spare size m)
unfolding resize
resize-IsValid spare size m v = elim (Bool-cases (ltb m.len size)) [
  | inl e ↦
      let shorter : m.len < size = ground arith in
      let zeros : List ℕ = replicate (size - m.len) 0 in
      let rest =
        if leb size (length m.backing)
        then drop size m.backing
        else spare (length m.backing) size in
      rw e (
        omega (
          arith,
          v,
          shorter,
          length-append (take m.len m.backing) (zeros ++ rest),
          length-append zeros rest,
          length-take m.len m.backing,
          length-replicate {A = ℕ} (size - m.len) 0,
        ))
  | inr e ↦ rw e v
]

-- The bytes stay, and zeros follow them.
resize-data_of :
    (spare : ℕ → ℕ → List ℕ) (size : ℕ) (m : Memory)
    → IsValid m
    → data_of (resize spare size m) ≡ data_of m ++ replicate (size - m.len) 0
unfolding resize data_of
resize-data_of spare size m v = elim (Bool-cases (ltb m.len size)) [
  | inl e ↦
      let shorter : m.len < size = ground arith in
      let zeros : List ℕ = replicate (size - m.len) 0 in
      let rest =
        if leb size (length m.backing)
        then drop size m.backing
        else spare (length m.backing) size in
      let front = take m.len m.backing in
      let whole : length (front ++ zeros) ≡ size = omega (
        arith,
        v,
        shorter,
        length-append front zeros,
        length-take m.len m.backing,
        length-replicate {A = ℕ} (size - m.len) 0,
      ) in
      rw e (
        ap (take size) (sym (append_assoc front zeros rest))
        ∙ subst (λ k. take k ((front ++ zeros) ++ rest) ≡ front ++ zeros) whole
            (take-append (front ++ zeros) rest))
  | inr e ↦
      let longer : size - m.len ≡ 0 = ground arith in
      rw (e, longer) (sym (append-nil (take m.len m.backing)))
]

-- The bytes with a value written over them.
abbrev written : ℕ → ℕ → List ℕ → List ℕ → List ℕ
written offset size value bytes = take offset bytes ++ (value ++ drop (offset + size) bytes)

copy-slice :
    (offset size : ℕ) (value bytes : List ℕ)
    → length value ≡ size
    → offset + size ≤ length bytes
    → copy (slice bytes offset (offset + size)) value ≡ value
copy-slice offset size value bytes h k =
    let window = slice bytes offset (offset + size) in
    let whole : length window ≡ length value = omega (
      arith,
      h,
      k,
      length-take (offset + size - offset) (drop offset bytes),
      length-drop offset bytes,
    ) in
    copy-shorter window value (omega (arith, whole))
    ∙ ap (◌++◌ value) (drop_all (length value) window (omega (arith, whole)))
    ∙ append-nil value

module _ (offset size : ℕ) (value bytes : List ℕ) (h : length value ≡ size)
    (k : offset + size ≤ length bytes) where
  length-written : length (written offset size value bytes) ≡ length bytes
  length-written = omega (
    arith,
    h,
    k,
    length-append (take offset bytes) (value ++ drop (offset + size) bytes),
    length-append value (drop (offset + size) bytes),
    length-take offset bytes,
    length-drop (offset + size) bytes,
  )

  drop-written : drop offset (written offset size value bytes) ≡ value ++ drop (offset + size) bytes
  drop-written = drop-front offset bytes (value ++ drop (offset + size) bytes) (omega (arith, k))

  slice-written : slice (written offset size value bytes) offset (offset + size) ≡ value
  slice-written =
      let there : offset + size - offset ≡ length value = omega (arith, h) in
      rw (drop-written, there) (take-append value (drop (offset + size) bytes))

  take-written : take offset (written offset size value bytes) ≡ take offset bytes
  take-written = take-front offset bytes (value ++ drop (offset + size) bytes) (omega (arith, k))

  behind-written :
      drop (offset + size) (written offset size value bytes) ≡ drop (offset + size) bytes
  behind-written =
      sym (drop-drop offset size (written offset size value bytes))
      ∙ ap (drop size) drop-written
      ∙ subst (λ n. drop n (value ++ drop (offset + size) bytes) ≡ drop (offset + size) bytes) h
          (drop-append value (drop (offset + size) bytes))

set_value-then :
    (offset size : ℕ) (value : List ℕ) (r : Memory)
    → IsValid r
    → offset + size ≤ r.len
    → offset + size < 2 ^ 64
    → length value ≡ size
    → (m' : Memory) × (set_value offset size value r ≡ ok m')
      × (get offset size m' ≡ ok value)
      × (take offset m'.backing ≡ take offset r.backing)
      × (drop (offset + size) m'.backing ≡ drop (offset + size) r.backing)
      × (m'.len ≡ r.len)
unfolding set_value get in_capacity
set_value-then offset zero [] r v l fits h = (r, ground arith, refl, refl, refl, refl)
set_value-then offset zero (b ∷ value) r v l fits h = absurd (omega (arith, h))
set_value-then offset (suc s) value r v l fits h =
    let size = suc s in
    let bytes = r.backing in
    let room : offset + size ≤ length bytes = omega (arith, v, l) in
    let low : (offset + size) % 2 ^ 64 ≡ offset + size = omega (arith, fits) in
    let positive : (size == 0) ≡ false = ground arith in
    let enough : ltb r.len size ≡ false = ground arith in
    let ordered : leb offset (offset + size) ≡ true = ground arith in
    let bounded : leb (offset + size) (length bytes) ≡ true = ground arith in
    let starts : ltb offset r.len ≡ true = ground arith in
    let same : length (written offset size value bytes) ≡ length bytes =
      length-written offset size value bytes h room in
    (
      record r { backing = written offset size value bytes },
      rw (low, enough, positive, ordered, bounded, copy-slice offset size value bytes h room) refl,
      rw (positive, starts, ordered, same, bounded)
          (ap ok (slice-written offset size value bytes h room)),
      take-written offset size value bytes h room,
      behind-written offset size value bytes h room,
      refl,
    )

-- After `Resize` to hold them, which keeps the bytes and adds zeros behind, `Set` of as many bytes
-- as its size says succeeds, `Get` finds them, and all other bytes are as before. Whatever capacity
-- the slice has, where the end of the window is below 2^64.
pub get-set_value :
    (spare : ℕ → ℕ → List ℕ) (offset size : ℕ) (value : List ℕ) (m : Memory)
    → IsValid m
    → offset + size < 2 ^ 64
    → length value ≡ size
    → (data_of (resize spare (offset + size) m) ≡ data_of m ++ replicate (offset + size - m.len) 0)
      × (m' : Memory) × (set_value offset size value (resize spare (offset + size) m) ≡ ok m')
      × (get offset size m' ≡ ok value)
      × (take offset m'.backing ≡ take offset (resize spare (offset + size) m).backing)
      × (drop (offset + size) m'.backing
          ≡ drop (offset + size) (resize spare (offset + size) m).backing)
      × (m'.len ≡ (resize spare (offset + size) m).len)
get-set_value spare offset size value m v fits h =
    let r = resize spare (offset + size) m in
    let (m', written_, found, front, behind, same) =
      set_value-then offset size value r (resize-IsValid spare (offset + size) m v)
        (resize-len spare (offset + size) m) fits h in
    (resize-data_of spare (offset + size) m v, m', written_, found, front, behind, same)
