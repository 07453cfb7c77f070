-- ===== src/Db/Tests.antt =====
-- A database with one key written twice and one deleted, and a pool with three elements.
use sea_pkg.Base.{ℕ, List, [], ◌∷◌, map, none, some, ◌≡◌, refl, length, if◌then◌else◌}
use sea_pkg.Base.Outcome.{ok}
use sea_pkg.Db.{
  Bytes, get, has, get_all_key, put, assign, lookup, bytes_eq, answer, is_some, stack_pool_pop,
}
use sea_pkg.Db.Refines.{Call, call_put, call_del, run, recall, get-recall}
use sea_pkg.Db.Order.{count, get_all_key-count, pushed, pops, pops-pushed}

abbrev first_key : Bytes
first_key = 1 ∷ []

abbrev second_key : Bytes
second_key = 1 ∷ 2 ∷ []

abbrev four_calls : List Call
four_calls =
    call_del second_key
    ∷ call_put first_key (9 ∷ [])
    ∷ call_put second_key (8 ∷ [])
    ∷ call_put first_key (7 ∷ [])
    ∷ []

get_first :
    get first_key (put first_key (9 ∷ []) (put first_key (7 ∷ []) (record { entries = [] })))
    ≡ ok (9 ∷ [])
unfolding get put assign lookup bytes_eq
get_first = refl

empty_pool : stack_pool_pop {A = ℕ} [] ≡ ok (none, [])
unfolding stack_pool_pop
empty_pool = refl

get-recall_example :
    (get first_key (run four_calls) ≡ answer (recall first_key four_calls))
    × (has first_key (run four_calls) ≡ is_some (recall first_key four_calls))
get-recall_example = get-recall four_calls first_key

get_all_key-count_example :
    count second_key (get_all_key (λ ks. ks) (run four_calls))
    ≡ (if has second_key (run four_calls) then 1 else 0)
get_all_key-count_example = get_all_key-count (λ ks. ks) (λ ks key. refl) four_calls second_key

abbrev three_elements : List ℕ
three_elements = 3 ∷ 4 ∷ 5 ∷ []

pops-pushed_example :
    pops (length three_elements) (pushed three_elements []) ≡ ok (map some three_elements, [])
pops-pushed_example = pops-pushed three_elements []
