-- ===== src/Wasm/Spaces.antt =====
-- wagon/wasm/index.go: how the index spaces of a module are filled. After an error the module is
-- not looked at. Indices that are arguments are not negative.
use sea_pkg.Base.Lists.{copy}
use sea_pkg.Base.{
  ℕ, suc, ◌+◌, ◌%◌, ◌^◌, List, [], ◌∷◌, ◌++◌, Bool, false, Option, none, some, leb, ltb, ◌==◌, not,
  if◌then◌else◌, length, get_elem?, set, take, drop, replicate,
}
use sea_pkg.Base.Outcome.{ok, err, panic, index_range, slice_bounds, nil_pointer, ◌>>=◌}
use sea_pkg.Base.Words.{is_neg}
use sea_pkg.Wasm.{FunctionSig, FunctionBody, Function, ElementSegment, DataSegment, Module}
use sea_pkg.Wasm.Init.{
  not_int32, invalid_function_index, invalid_table_index, invalid_linear_memory_index, Result,
  Value, int32, exec_init_expr,
}

abbrev pub found_at {ℓ} : {A : Type ℓ} → ℕ → List A → Result A
found_at i xs = elim (get_elem? xs i) [ none ↦ panic (index_range i (length xs)) | some a ↦ ok a ]

-- The body of a function, of the code section that may be nil.
abbrev pub body_at : ℕ → Option (List FunctionBody) → Result FunctionBody
body_at i none = panic nil_pointer
body_at i (some bodies) = found_at i bodies

-- The functions of the type indices, from the code index `i` on.
unfoldable pub populate_from :
    List FunctionSig → Option (List FunctionBody) → ℕ → List ℕ → Result (List Function)
populate_from entries code i [] = ok []
populate_from entries code i (t ∷ ts) =
    let rest = populate_from entries code (suc i) ts in
    if leb (length entries) t
    then err (invalid_function_index t)
    else found_at t entries >>= λ sig.
        body_at i code >>= λ body. rest >>= λ fns. ok (record { sig = sig; body = body } ∷ fns)

abbrev pub populate_types : Option (List FunctionSig) → Option (List ℕ) → Module → Result Module
populate_types none _ m = ok m
populate_types (some entries) none m = ok m
populate_types (some entries) (some types) m = do
  fns ← populate_from entries m.code 0 types
  ok (record m {
    function_index_space = m.function_index_space ++ fns;
    function = some (m.imported_funcs ++ types);
  })

unfoldable pub populate_functions : Module → Result Module
populate_functions m = populate_types m.types m.function m

unfoldable pub populate_globals : Module → Module
populate_globals m = elim m.global [
  | none ↦ m
  | some globals ↦ record m { global_index_space = m.global_index_space ++ globals }
]

-- `copy(dst[offset:], src)` for an offset within `dst`.
unfoldable pub copy_at : ℕ → List ℕ → List ℕ → List ℕ
copy_at offset dst src = take offset dst ++ copy (drop offset dst) src

-- The elements of a segment in a table, or its data in a memory. A negative offset is out of the
-- bounds of either slice.
unfoldable pub place : ℕ → List ℕ → List ℕ → Result (List ℕ)
place offset elems table =
    if is_neg 32 offset
    then panic (slice_bounds offset (length table))
    else if ltb (length table) (offset + length elems)
    then ok (copy (copy_at offset (replicate (offset + length elems) 0) elems) table)
    else ok (copy_at offset table elems)

abbrev pub as_int32 : Option Value → Result ℕ
as_int32 (some (int32 v)) = ok v
as_int32 _ = err not_int32

unfoldable pub populate_elements :
    Module → List ElementSegment → List (List ℕ) → Result (List (List ℕ))
populate_elements m [] space = ok space
populate_elements m (elem ∷ elems) space =
    if leb (length space) elem.index
    then err (invalid_table_index elem.index)
    else exec_init_expr m elem.offset >>= λ val. as_int32 val >>= λ offset.
        found_at elem.index space >>= λ table. place offset elem.elems table >>= λ table'.
        populate_elements m elems (set space elem.index table')

abbrev pub entries_of {ℓ} : {A : Type ℓ} → Option (List A) → List A
entries_of none = []
entries_of (some xs) = xs

abbrev pub has_entries : Option ℕ → Bool
has_entries none = false
has_entries (some n) = not (n == 0)

-- Without segments the loop does nothing.
unfoldable pub populate_tables : Module → Result Module
populate_tables m =
    if not (has_entries m.table)
    then ok m
    else populate_elements m (entries_of m.elements) m.table_index_space >>= λ space.
        ok (record m { table_index_space = space })

unfoldable pub populate_data : Module → List DataSegment → List (List ℕ) → Result (List (List ℕ))
populate_data m [] space = ok space
populate_data m (segment ∷ segments) space =
    if not (segment.index == 0)
    then err (invalid_linear_memory_index segment.index)
    else exec_init_expr m segment.offset >>= λ val. as_int32 val >>= λ offset.
        found_at segment.index space >>= λ memory. place offset segment.data_ memory >>= λ memory'.
        populate_data m segments (set space segment.index memory')

unfoldable pub populate_linear_memory : Module → Result Module
populate_linear_memory m =
    populate_data m (entries_of m.data_) m.linear_memory_index_space >>= λ space.
    ok (record m { linear_memory_index_space = space })

unfoldable pub get_table_element : Module → ℕ → Result ℕ
get_table_element m index = found_at 0 m.table_index_space >>= λ table.
    if leb (length table) index then err (invalid_table_index index) else found_at index table

unfoldable pub get_linear_memory_data : Module → ℕ → Result ℕ
get_linear_memory_data m index = found_at 0 m.linear_memory_index_space >>= λ memory.
    if leb (length memory) index
    then err (invalid_linear_memory_index (index % 2 ^ 32))
    else found_at index memory
