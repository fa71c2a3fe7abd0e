-- ===== src/Debug/AddressTransform.antt =====
-- wasmtime-debug/src/transform/address_transform.rs: its data, and the ordered map it builds. The
-- inputs are the address maps of wasmtime-environ/src/address_map.rs.
pub mod Ordered
pub mod Build
pub mod Iterators
pub mod Translate
pub mod Ranges
pub mod Loop
pub mod Index
pub mod Functions
pub mod Found
pub mod Iterating
pub mod Translated
pub mod Endless
pub mod Returning
mod Examples
use wasmtime.Base.{ℕ, ◌+◌, ◌-◌, ◌%◌, List, [], ◌∷◌, ltb, ◌==◌, if◌then◌else◌, u32_mod}

pub record InstructionAddressMap : Type 0 where
  pub srcloc : ℕ
  pub code_offset : ℕ
  pub code_len : ℕ

pub record FunctionAddressMap : Type 0 where
  pub instructions : List InstructionAddressMap
  pub start_srcloc : ℕ
  pub end_srcloc : ℕ
  pub body_offset : ℕ
  pub body_len : ℕ

-- `ir::SourceLoc::is_default`
abbrev pub default_srcloc : ℕ
default_srcloc = 4294967295

pub record AddressMap : Type 0 where
  pub generated : ℕ
  pub wasm : ℕ

pub record FunctionMap : Type 0 where
  pub offset : ℕ
  pub len : ℕ
  pub wasm_start : ℕ
  pub wasm_end : ℕ
  pub addresses : List AddressMap

pub record Position : Type 0 where
  pub wasm_pos : ℕ
  pub gen_start : ℕ
  pub gen_end : ℕ

pub record Range : Type 0 where
  pub wasm_start : ℕ
  pub wasm_end : ℕ
  pub gen_start : ℕ
  pub gen_end : ℕ
  pub positions : List Position

pub record FuncLookup : Type 0 where
  pub index : List (ℕ × List ℕ)
  pub ranges : List Range

pub record FuncTransform : Type 0 where
  pub start : ℕ
  pub end : ℕ
  pub index : ℕ
  pub lookup : FuncLookup

pub record AddressTransform : Type 0 where
  pub map : List FunctionMap
  pub func : List (ℕ × FuncTransform)

-- `u32::wrapping_sub` of the truncated section offset.
unfoldable pub get_wasm_code_offset : ℕ → ℕ → ℕ
get_wasm_code_offset loc code_section_offset =
    (loc + u32_mod - code_section_offset % u32_mod) % u32_mod

-- `BTreeMap::insert`: the entries in the order of their keys; an equal key loses its value.
unfoldable pub btree_insert {ℓ} : {A : Type ℓ} → ℕ → A → List (ℕ × A) → List (ℕ × A)
btree_insert key value [] = (key, value) ∷ []
btree_insert key value ((k, v) ∷ entries) =
    let rest = btree_insert key value entries in
    if ltb key k
    then (key, value) ∷ ((k, v) ∷ entries)
    else (if key == k then (key, value) ∷ entries else (k, v) ∷ rest)

-- The keys of an ordered map.
abbrev pub keys {ℓ} : {A : Type ℓ} → List (ℕ × A) → List ℕ
keys [] = []
keys ((k, v) ∷ entries) = k ∷ keys entries
