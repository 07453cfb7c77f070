-- ===== src/Sm3/Chunks.antt =====
-- `Write` in pieces.
use sea_pkg.Base.{ℕ, zero, suc, ◌+◌, ◌*◌, ◌/◌, ◌%◌, ◌^◌, ◌≤◌, ◌<◌, ◌≡◌, refl, sym, ap, ◌∙◌, arith}
use sea_pkg.Base.{
  List, [], ◌∷◌, ◌++◌, length, take, drop, concat, drop-drop, take-append-le, drop-append-le,
  length-append, length-drop,
}
use sea_pkg.Sm3.{Registers, Sm3, compress, update_blocks, update, write, reset}
use mathlib.Core.List.{append_assoc, append-nil}
use Prim.Native.Nat.add

update_blocks_add :
    (m n : ℕ) (r : Registers) (xs : List ℕ)
    → update_blocks (m + n) r xs ≡ update_blocks n (update_blocks m r xs) (drop (m * 64) xs)
unfolding update_blocks
update_blocks_add zero n r xs = rw add.zero refl
update_blocks_add (suc m) n r xs =
    let e : 64 + m * 64 ≡ suc m * 64 = omega arith in
    rw add.suc (
      update_blocks_add m n (compress r (take 64 xs)) (drop 64 xs)
      ∙ ap (update_blocks n (update_blocks m (compress r (take 64 xs)) (drop 64 xs)))
          (drop-drop 64 (m * 64) xs ∙ ap (λ k. drop k xs) e))

update_blocks-append :
    (k : ℕ) (r : Registers) (xs ys : List ℕ)
    → k * 64 ≤ length xs
    → update_blocks k r (xs ++ ys) ≡ update_blocks k r xs
unfolding update_blocks
update_blocks-append zero r xs ys h = refl
update_blocks-append (suc k) r xs ys h =
    rw (take-append-le 64 xs ys (omega arith), drop-append-le 64 xs ys (omega arith))
      (update_blocks-append k (compress r (take 64 xs)) (drop 64 xs) ys
        (omega (arith, length-drop 64 xs)))

-- What is left of the bytes `xs` behind the whole blocks.
abbrev pub left_over : List ℕ → List ℕ
left_over xs = drop (length xs / 64 * 64) xs

left_over_lem : (xs ys : List ℕ) → drop (length xs / 64 * 64) (xs ++ ys) ≡ left_over xs ++ ys
left_over_lem xs ys = drop-append-le (length xs / 64 * 64) xs ys (omega arith)

-- The blocks of `xs ++ ys` are those of `xs`, and those behind them.
blocks-append :
    (xs ys : List ℕ) → length (xs ++ ys) / 64 ≡ length xs / 64 + length (left_over xs ++ ys) / 64
blocks-append xs ys = omega (
  arith,
  length-append {0} xs ys,
  length-append {0} (left_over xs) ys,
  length-drop {0} (length xs / 64 * 64) xs,
)

pub update-append :
    (r : Registers) (xs ys : List ℕ)
    → update (update r xs) (left_over xs ++ ys) ≡ update r (xs ++ ys)
unfolding update
update-append r xs ys =
    let m : ℕ = length xs / 64 in
    let n : ℕ = length (left_over xs ++ ys) / 64 in
    sym (
      ap (λ k. update_blocks k r (xs ++ ys)) (blocks-append xs ys)
      ∙ (update_blocks_add m n r (xs ++ ys)
          ∙ (ap (λ r'. update_blocks n r' (drop (m * 64) (xs ++ ys)))
                (update_blocks-append m r xs ys (omega arith))
              ∙ ap (update_blocks n (update_blocks m r xs)) (left_over_lem xs ys))))

pub left_over-append : (xs ys : List ℕ) → left_over (left_over xs ++ ys) ≡ left_over (xs ++ ys)
left_over-append xs ys =
    let m : ℕ = length xs / 64 in
    let n : ℕ = length (left_over xs ++ ys) / 64 in
    let e : m * 64 + n * 64 ≡ length (xs ++ ys) / 64 * 64 = omega (arith, blocks-append xs ys) in
    ap (drop (n * 64)) (sym (left_over_lem xs ys))
    ∙ (drop-drop (m * 64) (n * 64) (xs ++ ys) ∙ ap (λ k. drop k (xs ++ ys)) e)

pub length-left_over : (xs : List ℕ) → length (left_over xs) ≡ length xs % 64
length-left_over xs = omega (arith, length-drop {0} (length xs / 64 * 64) xs)

-- Two writes are one write of their bytes together, from every state.
pub write-write : (s : Sm3) (p q : List ℕ) → write (write s p) q ≡ write s (p ++ q)
unfolding write
write-write s p q =
    let whole : (s.unhandle_msg ++ p) ++ q ≡ s.unhandle_msg ++ (p ++ q) =
      append_assoc s.unhandle_msg p q in
    let digests = update-append s.digest (s.unhandle_msg ++ p) q in
    let rests = left_over-append (s.unhandle_msg ++ p) q in
    let sizes : ((s.length_ + length p * 8) % 2 ^ 64 + length q * 8) % 2 ^ 64
        ≡ (s.length_ + length (p ++ q) * 8) % 2 ^ 64 =
      omega (arith, length-append {0} p q) in
    rw (digests, rests, sizes, whole) refl

-- A state that writes from `reset` reach.
pub record IsValid (s : Sm3) : Type 0 where
  pub counted : s.length_ < 2 ^ 64
  pub partial : length s.unhandle_msg < 64

pub reset-IsValid : IsValid reset
unfolding reset
reset-IsValid = omega arith

pub write-IsValid : (s : Sm3) (p : List ℕ) → IsValid (write s p)
unfolding write
write-IsValid s p = record {
  counted = omega arith;
  partial = omega (arith, length-left_over (s.unhandle_msg ++ p));
}

pub write-nil : (s : Sm3) → IsValid s → write s [] ≡ s
unfolding write update update_blocks
write-nil s v =
    let no_blocks : length s.unhandle_msg / 64 ≡ 0 = omega (arith, v.partial) in
    let same : (s.length_ + 0) % 2 ^ 64 ≡ s.length_ = omega (arith, v.counted) in
    rw (append-nil, no_blocks, same) refl

abbrev pub write_all : Sm3 → List (List ℕ) → Sm3
write_all s [] = s
write_all s (p ∷ ps) = write_all (write s p) ps

-- Any division of the bytes into writes leaves the same state as one write of all of them.
pub write_all-concat :
    (s : Sm3) (ps : List (List ℕ)) → IsValid s → write_all s ps ≡ write s (concat ps)
write_all-concat s [] v = sym (write-nil s v)
write_all-concat s (p ∷ ps) v =
    write_all-concat (write s p) ps (write-IsValid s p) ∙ write-write s p (concat ps)
