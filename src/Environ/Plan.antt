-- ===== src/Environ/Plan.antt =====
-- wasmtime-environ/src/tunables.rs and the plans of wasmtime-environ/src/module.rs.
use wasmtime.Base.{Bool, ℕ, Option, none, some, leb, if◌then◌else◌}

-- `WASM_PAGE_SIZE` and `WASM_MAX_PAGES`.
abbrev pub wasm_page_size : ℕ
wasm_page_size = 0x1_0000

abbrev pub wasm_max_pages : ℕ
wasm_max_pages = 0x1_0000

-- Limits of a table in elements, and the type of a memory in wasm pages, as cranelift-wasm decodes
-- them.
pub record Limits : Type 0 where
  pub minimum : ℕ
  pub maximum : Option ℕ

pub record MemoryType : Type 0 where
  pub minimum : ℕ
  pub maximum : Option ℕ
  pub shared : Bool

pub record Tunables : Type 0 where
  pub static_memory_bound : ℕ
  pub static_memory_offset_guard_size : ℕ
  pub dynamic_memory_offset_guard_size : ℕ

-- The defaults of a 64-bit host.
abbrev pub default_tunables : Tunables
default_tunables = record {
  static_memory_bound = 0x1_0000;
  static_memory_offset_guard_size = 0x8000_0000;
  dynamic_memory_offset_guard_size = 0x1_0000;
}

pub data MemoryStyle : Type 0 where
  dynamic : MemoryStyle
  static : ℕ → MemoryStyle

pub record MemoryPlan : Type 0 where
  pub memory : MemoryType
  pub style : MemoryStyle
  pub offset_guard_size : ℕ

-- `MemoryStyle::for_memory`: the style and the guard size; `none` where the assertion fails.
abbrev bounded_style : ℕ → ℕ → Tunables → Option (MemoryStyle × ℕ)
bounded_style minimum maximum t =
    if leb maximum t.static_memory_bound
    then if leb minimum t.static_memory_bound
      then some (static t.static_memory_bound, t.static_memory_offset_guard_size)
      else none
    else some (dynamic, t.dynamic_memory_offset_guard_size)

unfoldable pub for_memory_style : MemoryType → Tunables → Option (MemoryStyle × ℕ)
for_memory_style m t = elim m.maximum [
  | none ↦ some (dynamic, t.dynamic_memory_offset_guard_size)
  | some maximum ↦ bounded_style m.minimum maximum t
]

-- `MemoryPlan::for_memory`
unfoldable pub for_memory : MemoryType → Tunables → Option MemoryPlan
unfolding for_memory_style
for_memory m t = elim (for_memory_style m t) [
  | none ↦ none
  | some (s, g) ↦ some (record { memory = m; style = s; offset_guard_size = g })
]

-- A table's element type, of which this version supports function references alone.
pub data TableElementType : Type 0 where
  func : TableElementType
  val : ℕ → TableElementType

pub data TableStyle : Type 0 where
  caller_checks_signature : TableStyle

pub record TablePlan : Type 0 where
  pub ty : TableElementType
  pub limits : Limits
  pub style : TableStyle

-- `TablePlan::for_table`
unfoldable pub for_table : TableElementType → Limits → TablePlan
for_table ty l = record { ty = ty; limits = l; style = caller_checks_signature }
