-- ===== src/Db/Refines.antt =====
-- The database against a function from keys to values.
use sea_pkg.Base.{
  List, [], ◌∷◌, Bool, true, false, Option, none, some, ◌≡◌, refl, ap, sym, ◌∙◌, inl, inr,
}
use sea_pkg.Base.{if◌then◌else◌, Bool-cases, arith}
use mathlib.Core.Path.{subst}
use sea_pkg.Db.{
  Bytes, bytes_eq, assign, lookup, delete, MemDb, new_mem_db, put, get, has, del, answer, is_some,
}

pub bytes_eq_self : (a : Bytes) → bytes_eq a a ≡ true
unfolding bytes_eq
bytes_eq_self [] = refl
bytes_eq_self (a ∷ as') = rw (bytes_eq_self as') (ground arith)

pub bytes_eq_path : (a b : Bytes) → bytes_eq a b ≡ true → a ≡ b
unfolding bytes_eq
bytes_eq_path [] [] h = refl
bytes_eq_path [] (b ∷ bs) h = cc
bytes_eq_path (a ∷ as') [] h = cc
bytes_eq_path (a ∷ as') (b ∷ bs) h = elim (Bool-cases (bytes_eq as' bs)) [
  | inl same ↦
      let first : a ≡ b = ground arith in
      ap (λ k. k ∷ as') first ∙ ap (◌∷◌ b) (bytes_eq_path as' bs same)
  | inr other ↦ ground arith
]

eq_true : (a b c : Bytes) → bytes_eq a c ≡ true → bytes_eq b c ≡ true → bytes_eq a b ≡ true
eq_true a b c h k =
    ap (λ x. bytes_eq x b) (bytes_eq_path a c h)
    ∙ ap (λ x. bytes_eq x b) (sym (bytes_eq_path b c k))
    ∙ bytes_eq_self b

-- Two keys that differ are not equal to one key.
apart : (a b c : Bytes) → bytes_eq a b ≡ false → bytes_eq a c ≡ true → bytes_eq b c ≡ true → ⊥
apart a b c h k l = let both : bytes_eq a b ≡ true = eq_true a b c k l in cc

bytes_eq_swap : (a b : Bytes) → bytes_eq a b ≡ false → bytes_eq b a ≡ false
bytes_eq_swap a b h = elim (Bool-cases (bytes_eq b a)) [
  | inl same ↦ absurd (apart a b a h (bytes_eq_self a) same)
  | inr other ↦ other
]

if_again {ℓ} :
    {A : Type ℓ} (b : Bool) (x y z : A)
    → (if b then x else y) ≡ (if b then x else (if b then z else y))
if_again true x y z = refl
if_again false x y z = refl

if_swap {ℓ} :
    {A : Type ℓ} (b c : Bool) (x y z : A)
    → (b ≡ true → c ≡ true → ⊥)
    → (if b then x else (if c then y else z)) ≡ (if c then y else (if b then x else z))
if_swap true true x y z h = absurd (h refl refl)
if_swap true false x y z h = refl
if_swap false true x y z h = refl
if_swap false false x y z h = refl

-- What a read finds after an assignment to a key.
pub lookup-assign :
    (key value : Bytes) (es : List (Bytes × Bytes)) (k : Bytes)
    → lookup k (assign key value es) ≡ (if bytes_eq key k then some value else lookup k es)
unfolding lookup assign
lookup-assign key value [] k = refl
lookup-assign key value ((k1, v1) ∷ rest) k = elim (Bool-cases (bytes_eq k1 key)) [
  | inl same ↦ rw (same, bytes_eq_path k1 key same) (if_again (bytes_eq key k) _ _ _)
  | inr other ↦
      rw (other, lookup-assign key value rest k)
        (if_swap (bytes_eq k1 k) (bytes_eq key k) _ _ _ (apart k1 key k other))
]

-- No key has two entries.
abbrev pub IsMap : List (Bytes × Bytes) → Type 0
IsMap [] = Unit {0}
IsMap ((k, v) ∷ rest) = (lookup k rest ≡ none) × IsMap rest

absent :
    (key k : Bytes) (es : List (Bytes × Bytes))
    → lookup key es ≡ none
    → bytes_eq key k ≡ true
    → lookup k es ≡ none
absent key k es h e = subst (λ x. lookup x es ≡ none) (bytes_eq_path key k e) h

if_none :
    (b : Bool) (x z : Option Bytes)
    → (b ≡ true → x ≡ none)
    → x ≡ (if b then none else (if b then z else x))
if_none true x z h = h refl
if_none false x z h = refl

if_same : (b : Bool) (o : Option Bytes) → o ≡ (if b then o else o)
if_same true o = refl
if_same false o = refl

-- What a read finds after a deletion.
pub lookup-delete :
    (key : Bytes) (es : List (Bytes × Bytes)) (k : Bytes)
    → IsMap es
    → lookup k (delete key es) ≡ (if bytes_eq key k then none else lookup k es)
unfolding lookup delete
lookup-delete key [] k h = if_same (bytes_eq key k) none
lookup-delete key ((k1, v1) ∷ rest) k (new, h) = elim (Bool-cases (bytes_eq k1 key)) [
  | inl same ↦
      let gone : lookup key rest ≡ none =
        subst (λ x. lookup x rest ≡ none) (bytes_eq_path k1 key same) new in
      rw (same, bytes_eq_path k1 key same) (if_none (bytes_eq key k) _ _ (absent key k rest gone))
  | inr other ↦
      rw (other, lookup-delete key rest k h)
        (if_swap (bytes_eq k1 k) (bytes_eq key k) _ _ _ (apart k1 key k other))
]

assign-IsMap :
    (key value : Bytes) (es : List (Bytes × Bytes)) → IsMap es → IsMap (assign key value es)
unfolding assign lookup
assign-IsMap key value [] h = (refl, tt)
assign-IsMap key value ((k1, v1) ∷ rest) (new, h) = elim (Bool-cases (bytes_eq k1 key)) [
  | inl same ↦ rw same (new, h)
  | inr other ↦ rw other (
    lookup-assign key value rest k1
        ∙ ap (λ b. if b then some value else lookup k1 rest) (bytes_eq_swap k1 key other)
        ∙ new,
    assign-IsMap key value rest h,
  )
]

delete-IsMap : (key : Bytes) (es : List (Bytes × Bytes)) → IsMap es → IsMap (delete key es)
unfolding delete lookup
delete-IsMap key [] h = tt
delete-IsMap key ((k1, v1) ∷ rest) (new, h) = elim (Bool-cases (bytes_eq k1 key)) [
  | inl same ↦ rw same h
  | inr other ↦ rw other (
    lookup-delete key rest k1 h
        ∙ ap (λ b. if b then none else lookup k1 rest) (bytes_eq_swap k1 key other)
        ∙ new,
    delete-IsMap key rest h,
  )
]

-- The calls that change the database, the latest first.
pub data Call : Type 0 where
  call_put : Bytes → Bytes → Call
  call_del : Bytes → Call

pub run : List Call → MemDb
run [] = new_mem_db
run (call_put k v ∷ earlier) = put k v (run earlier)
run (call_del k ∷ earlier) = del k (run earlier)

-- The value of a key after the calls: what the latest call on that key made of it.
pub recall : Bytes → List Call → Option Bytes
recall key [] = none
recall key (call_put k v ∷ earlier) = if bytes_eq k key then some v else recall key earlier
recall key (call_del k ∷ earlier) = if bytes_eq k key then none else recall key earlier

pub run-IsMap : (calls : List Call) → IsMap (run calls).entries
unfolding run put del
run-IsMap [] = tt
run-IsMap (call_put k v ∷ earlier) = assign-IsMap k v (run earlier).entries (run-IsMap earlier)
run-IsMap (call_del k ∷ earlier) = delete-IsMap k (run earlier).entries (run-IsMap earlier)

pub lookup-run :
    (calls : List Call) (key : Bytes) → lookup key (run calls).entries ≡ recall key calls
unfolding run recall put del lookup
lookup-run [] key = refl
lookup-run (call_put k v ∷ earlier) key =
    lookup-assign k v (run earlier).entries key
    ∙ ap (λ o. if bytes_eq k key then some v else o) (lookup-run earlier key)
lookup-run (call_del k ∷ earlier) key =
    lookup-delete k (run earlier).entries key (run-IsMap earlier)
    ∙ ap (λ o. if bytes_eq k key then none else o) (lookup-run earlier key)

-- After any calls of `Put` and `Del` on a new database, `Get` and `Has` answer with what the latest
-- call on the key made of it.
pub get-recall :
    (calls : List Call) (key : Bytes)
    → (get key (run calls) ≡ answer (recall key calls))
      × (has key (run calls) ≡ is_some (recall key calls))
unfolding get has
get-recall calls key = (ap answer (lookup-run calls key), ap is_some (lookup-run calls key))
