-- ===== src/Wasm.antt =====
-- wagon/wasm/types.go, module.go and index.go: value types, signatures and the index spaces of a
-- decoded module, as far as validation and execution read them. A nil section is `none`, and an
-- `int8` is its bit pattern. `table` counts the entries of its section, `memory` has the initial
-- sizes of its section's, and `start` is the index of the start function.
pub mod Init
pub mod Spaces
pub mod Segments
pub mod Operands
pub mod Accepts
mod Tests
use sea_pkg.Base.{ℕ, List, Option, get_elem?}

-- The `ValueType` constants -1 to -4, and `BlockTypeEmpty`, -0x40.
abbrev pub i32 : ℕ
i32 = 0xff

abbrev pub i64 : ℕ
i64 = 0xfe

abbrev pub f32 : ℕ
f32 = 0xfd

abbrev pub f64 : ℕ
f64 = 0xfc

abbrev pub block_type_empty : ℕ
block_type_empty = 0xc0

pub record FunctionSig : Type 0 where
  pub param_types : List ℕ
  pub return_types : List ℕ

pub record LocalEntry : Type 0 where
  pub count : ℕ
  pub value_type : ℕ

pub record FunctionBody : Type 0 where
  pub locals : List LocalEntry
  pub code : List ℕ

-- A function of the module, with its signature and body: a host function of an imported module,
-- which has no body of bytecode, is not one.
pub record Function : Type 0 where
  pub sig : FunctionSig
  pub body : FunctionBody

pub record GlobalEntry : Type 0 where
  pub value_type : ℕ
  pub init : List ℕ

pub record ElementSegment : Type 0 where
  pub index : ℕ
  pub offset : List ℕ
  pub elems : List ℕ

pub record DataSegment : Type 0 where
  pub index : ℕ
  pub offset : List ℕ
  pub data_ : List ℕ

pub record Module : Type 0 where
  pub types : Option (List FunctionSig)
  pub function : Option (List ℕ)
  pub table : Option ℕ
  pub memory : Option (List ℕ)
  pub start : Option ℕ
  pub code : Option (List FunctionBody)
  pub function_index_space : List Function
  pub global_index_space : List GlobalEntry
  pub global : Option (List GlobalEntry)
  pub elements : Option (List ElementSegment)
  pub data_ : Option (List DataSegment)
  pub table_index_space : List (List ℕ)
  pub linear_memory_index_space : List (List ℕ)
  pub imported_funcs : List ℕ

-- `GetFunction(i)` and `GetGlobal(i)`, for an index that is not negative: nil out of range.
unfoldable pub get_function : Module → ℕ → Option Function
get_function m i = get_elem? m.function_index_space i

unfoldable pub get_global : Module → ℕ → Option GlobalEntry
get_global m i = get_elem? m.global_index_space i
