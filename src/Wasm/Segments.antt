-- ===== src/Wasm/Segments.antt =====
-- Where a segment lies in its table or memory, and that initializer expressions end.
use sea_pkg.Base.{
  ℕ, zero, suc, ◌+◌, ◌≤◌, ◌<◌, ◌≡◌, refl, ap, ◌∙◌, arith, List, ◌∷◌, ◌++◌, false, if◌then◌else◌,
}
use sea_pkg.Base.{
  length, take, drop, replicate, length-append, length-replicate, length-drop, drop-drop, ltb,
  Bool-cases, inl, inr,
}
use Prim.Native.Nat.add
use mathlib.Core.List.{append-nil}
use sea_pkg.Base.Outcome.{ok}
use sea_pkg.Base.Words.{is_neg}
use sea_pkg.Base.Lists.{copy, copy-shorter, drop_all}
use sea_pkg.Wasm.Spaces.{copy_at, place}

module _ {A : Type 0} where
  take-replicate : (m n : ℕ) (a : A) → take m (replicate (m + n) a) ≡ replicate m a
  take-replicate zero n a = refl
  take-replicate (suc m) n a = rw add.suc (ap (◌∷◌ a) (take-replicate m n a))

  drop-replicate : (m n : ℕ) (a : A) → drop m (replicate (m + n) a) ≡ replicate n a
  drop-replicate zero n a = rw add.zero refl
  drop-replicate (suc m) n a = rw add.suc (drop-replicate m n a)

copy_at-fits :
    (offset : ℕ) (dst src : List ℕ)
    → offset + length src ≤ length dst
    → copy_at offset dst src ≡ take offset dst ++ (src ++ drop (offset + length src) dst)
unfolding copy_at
copy_at-fits offset dst src h = ap (◌++◌ (take offset dst)) (
    copy-shorter (drop offset dst) src (omega (arith, length-drop offset dst, h))
    ∙ ap (◌++◌ src) (drop-drop offset (length src) dst))

-- New memory with a segment at its end.
copy_at-fresh :
    (offset : ℕ) (src : List ℕ)
    → copy_at offset (replicate (offset + length src) 0) src ≡ replicate offset 0 ++ src
copy_at-fresh offset src =
    let fresh : List ℕ = replicate (offset + length src) 0 in
    let size : length fresh ≡ offset + length src = length-replicate (offset + length src) _ in
    copy_at-fits offset fresh src (omega (arith, size))
    ∙ rw
        (
          take-replicate {A = ℕ} offset (length src) 0,
          drop_all (offset + length src) fresh (omega (arith, size)),
          append-nil src,
        )
        refl

-- Where a segment with an offset that is not negative fits, its elements replace the old ones
-- there. Where it reaches behind the end, the old elements all stay, also where the segment lies
-- over them, and what follows is zeros and the rest of the segment.
pub place-segment :
    (offset : ℕ) (elems table : List ℕ)
    → is_neg 32 offset ≡ false
    → place offset elems table
      ≡ ok (
          if ltb (length table) (offset + length elems)
          then table ++ drop (length table) (replicate offset 0 ++ elems)
          else take offset table ++ (elems ++ drop (offset + length elems) table))
unfolding place copy_at
place-segment offset elems table h =
    let size : length (replicate offset 0 ++ elems) ≡ offset + length elems = omega (
      arith,
      length-append {A = ℕ} (replicate offset 0) elems,
      length-replicate {A = ℕ} offset 0,
    ) in
    elim (Bool-cases (ltb (length table) (offset + length elems))) [
      | inl e ↦
          let longer : length table < offset + length elems = ground arith in
          rw (h, e)
            (ap ok (
              ap (λ xs. copy xs table) (copy_at-fresh offset elems)
              ∙ copy-shorter (replicate offset 0 ++ elems) table (omega (arith, size, longer))))
      | inr e ↦
          let within : offset + length elems ≤ length table = ground arith in
          rw (h, e) (ap ok (copy_at-fits offset table elems within))
    ]
