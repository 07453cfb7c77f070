-- ===== src/Conv/Window.antt =====
-- The padded window of a list of bytes that `GetData` reads.
use sea_pkg.Base.{
  ℕ, zero, suc, ◌+◌, ◌-◌, ◌%◌, ◌^◌, ◌<◌, ◌≤◌, ◌≡◌, ◌⊎◌, inl, inr, refl, sym, ap, ◌∙◌, List, [], ◌∷◌,
  ◌++◌, arith,
}
use sea_pkg.Base.{
  length, length-append, length-replicate, length-take, length-drop, get_or, take, drop, slice,
  replicate,
}
use sea_pkg.Base.Outcome.{ok, panic, slice_bounds}
use sea_pkg.Base.{leb, if_both, true, ◌||◌}
use native.Mathlib.Decide.{dec_lt}
use sea_pkg.Base.Words.{is_neg}
use sea_pkg.Conv.{right_pad_bytes, clamp, get_data}

pub get_or-replicate : (n i : ℕ) → get_or (replicate {A = ℕ} n 0) i 0 ≡ 0
get_or-replicate zero i = refl
get_or-replicate (suc n) zero = refl
get_or-replicate (suc n) (suc i) = get_or-replicate n i

pub get_or-padded : (bs : List ℕ) (n i : ℕ) → get_or (bs ++ replicate n 0) i 0 ≡ get_or bs i 0
get_or-padded [] n i = get_or-replicate n i
get_or-padded (b ∷ bs) n zero = refl
get_or-padded (b ∷ bs) n (suc i) = get_or-padded bs n i

pub get_or-take : (n : ℕ) (bs : List ℕ) (i : ℕ) → i < n → get_or (take n bs) i 0 ≡ get_or bs i 0
get_or-take zero bs i h = absurd (omega arith)
get_or-take (suc n) [] i h = refl
get_or-take (suc n) (b ∷ bs) zero h = refl
get_or-take (suc n) (b ∷ bs) (suc i) h = get_or-take n bs i (omega arith)

suc_add : (n i : ℕ) → suc (n + i) ≡ suc n + i
suc_add n i = omega arith

pub get_or-drop : (n : ℕ) (bs : List ℕ) (i : ℕ) → get_or (drop n bs) i 0 ≡ get_or bs (n + i) 0
get_or-drop zero bs i = ap (λ k. get_or bs k 0) (omega arith)
get_or-drop (suc n) [] i = refl
get_or-drop (suc n) (b ∷ bs) i = get_or-drop n bs i ∙ ap (λ k. get_or (b ∷ bs) k 0) (suc_add n i)

get_or-end : (bs : List ℕ) (i : ℕ) → length bs ≤ i → get_or bs i 0 ≡ 0
get_or-end [] i h = refl
get_or-end (b ∷ bs) zero h = absurd (omega arith)
get_or-end (b ∷ bs) (suc i) h = get_or-end bs i (omega arith)

-- The `size` bytes from `start` on, with zeros behind the end of the data.
pub window : List ℕ → ℕ → ℕ → List ℕ
window bs start zero = []
window bs start (suc size) = get_or bs start 0 ∷ window bs (start + 1) size

-- The same by its positions.
abbrev pub IsWindow : List ℕ → ℕ → ℕ → List ℕ → Type 0
IsWindow bs start size ws =
    (length ws ≡ size) × ((i : ℕ) → i < size → get_or ws i 0 ≡ get_or bs (start + i) 0)

pub IsWindow-window :
    (bs : List ℕ) (start size : ℕ) (ws : List ℕ)
    → IsWindow bs start size ws
    → ws ≡ window bs start size
unfolding window
IsWindow-window bs start zero [] w = refl
IsWindow-window bs start zero (v ∷ ws) (n, _) = absurd (omega (arith, n))
IsWindow-window bs start (suc size) [] (n, _) = absurd (omega (arith, n))
IsWindow-window bs start (suc size) (v ∷ ws) (n, at) =
    let head : v ≡ get_or bs start 0 = at 0 (omega arith) ∙ ap (λ k. get_or bs k 0) (omega arith) in
    let rest : ws ≡ window bs (start + 1) size =
      IsWindow-window bs (start + 1) size ws (
        omega (arith, n),
        λ i l. at (suc i) (omega arith) ∙ ap (λ k. get_or bs k 0) (omega arith),
      ) in
    ap (λ k. k ∷ ws) head ∙ ap (◌∷◌ (get_or bs start 0)) rest

slice_len : (bs : List ℕ) (s e : ℕ) → e ≤ length bs → length (slice bs s e) ≡ e - s
slice_len bs s e h = omega (arith, length-take (e - s) (drop s bs), length-drop s bs)

get_or-right_pad_bytes : (bs : List ℕ) (l i : ℕ) → get_or (right_pad_bytes bs l) i 0 ≡ get_or bs i 0
unfolding right_pad_bytes
get_or-right_pad_bytes bs l i =
    if_both (λ ws. get_or ws i 0 ≡ get_or bs i 0) (is_neg 64 l || leb l (length bs)) refl
      (get_or-padded bs (l - length bs) i)

length-right_pad_bytes :
    (bs : List ℕ) (l : ℕ) → l < 2 ^ 63 → length bs ≤ l → length (right_pad_bytes bs l) ≡ l
unfolding right_pad_bytes
length-right_pad_bytes bs l h k = ground (
  arith,
  length-append {0} bs (replicate (l - length bs) 0),
  length-replicate {0} (l - length bs) (zero),
)

-- The window of `size` bytes ends where it may, or where the data ends.
slice_window :
    (bs : List ℕ) (s e size i : ℕ)
    → s ≤ e
    → e ≤ length bs
    → (e ≡ s + size) ⊎ (e ≡ length bs)
    → i < size
    → get_or (slice bs s e) i 0 ≡ get_or bs (s + i) 0
slice_window bs s e size i h k c l = elim (dec_lt i (e - s)) [
  | yes inside ↦ get_or-take (e - s) (drop s bs) i inside ∙ get_or-drop s bs i
  | no outside ↦
      get_or-end (slice bs s e) i (omega (arith, slice_len bs s e k))
      ∙ sym (get_or-end bs (s + i) (omega arith))
]

pub right_pad_bytes-IsWindow :
    (bs : List ℕ) (s e size : ℕ)
    → s ≤ e
    → e ≤ length bs
    → e ≤ s + size
    → (e ≡ s + size) ⊎ (e ≡ length bs)
    → size < 2 ^ 63
    → IsWindow bs s size (right_pad_bytes (slice bs s e) size)
right_pad_bytes-IsWindow bs s e size h k m c l = (
  length-right_pad_bytes (slice bs s e) size l (omega (arith, slice_len bs s e k)),
  λ i below. get_or-right_pad_bytes (slice bs s e) size i ∙ slice_window bs s e size i h k c below,
)

clamp-cases :
    (start len : ℕ)
    → ((clamp start len ≡ start) × (start ≤ len)) ⊎ ((clamp start len ≡ len) × (len < start))
unfolding clamp
clamp-cases start len = elim (dec_lt len start) [
  | yes behind ↦ inr (ground arith, behind)
  | no before ↦ inl (ground arith, omega arith)
]

-- A start behind the end of the data is as good as the end.
pub IsWindow-clamp :
    (bs : List ℕ) (start size : ℕ) (ws : List ℕ)
    → IsWindow bs (clamp start (length bs)) size ws
    → IsWindow bs start size ws
IsWindow-clamp bs start size ws w = elim (clamp-cases start (length bs)) [
  | inl (same, _) ↦ rw same at w
  | inr (last, behind) ↦ (
    w.0,
    λ i l.
        w.1 i l
        ∙ get_or-end bs (clamp start (length bs) + i) (omega (arith, last))
        ∙ sym (get_or-end bs (start + i) (omega arith)),
  )
]

pub clamp-le : (start len : ℕ) → clamp start len ≤ len
unfolding clamp
clamp-le start len = ground arith

le→leb : (a b : ℕ) → a ≤ b → leb a b ≡ true
le→leb a b h = ground arith

pub clamp-ends :
    (s size : ℕ) (bs : List ℕ)
    → s ≤ length bs
    → (s ≤ clamp (s + size) (length bs))
      × (clamp (s + size) (length bs) ≤ length bs)
      × (clamp (s + size) (length bs) ≤ s + size)
      × ((clamp (s + size) (length bs) ≡ s + size) ⊎ (clamp (s + size) (length bs) ≡ length bs))
clamp-ends s size bs h = elim (clamp-cases (s + size) (length bs)) [
  | inl (e, l) ↦ (omega (arith, e), omega (arith, e), omega (arith, e), inl e)
  | inr (e, l) ↦ (omega (arith, e), omega (arith, e), omega (arith, e), inr e)
]

clamp-small : (start len : ℕ) → start ≤ len → clamp start len ≡ start
unfolding clamp
clamp-small start len h = ground arith

-- Where the size and the start, or the length of the data if that is less, have a sum of 64 bits,
-- `GetData` on a size below 2^63 returns the window of the data with zeros behind.
pub get_data-window :
    (bs : List ℕ) (start size : ℕ)
    → size < 2 ^ 63
    → clamp start (length bs) + size < 2 ^ 64
    → get_data bs start size ≡ ok (window bs start size)
unfolding get_data
get_data-window bs start size h k =
    let s = clamp start (length bs) in
    let e = clamp (s + size) (length bs) in
    let exact : (s + size) % 2 ^ 64 ≡ s + size = omega arith in
    let ends = clamp-ends s size bs (clamp-le start (length bs)) in
    let found = right_pad_bytes-IsWindow bs s e size ends.0 ends.1 ends.2 ends.3 h in
    rw (exact, le→leb s e ends.0)
      (ap ok (IsWindow-window bs start size _ (IsWindow-clamp bs start size _ found)))

-- Where the sum needs more than 64 bits, `GetData` panics.
pub get_data-overflow :
    (bs : List ℕ) (start size : ℕ)
    → length bs < 2 ^ 63
    → size < 2 ^ 64
    → 2 ^ 64 ≤ clamp start (length bs) + size
    → get_data bs start size
      ≡ panic (slice_bounds (clamp start (length bs)) (clamp start (length bs) + size - 2 ^ 64))
unfolding get_data
get_data-overflow bs start size h k l =
    let s = clamp start (length bs) in
    let inside : s ≤ length bs = clamp-le start (length bs) in
    let wraps : (s + size) % 2 ^ 64 ≡ s + size - 2 ^ 64 = omega arith in
    rw (wraps, clamp-small (s + size - 2 ^ 64) (length bs) (omega arith)) (ground arith)
