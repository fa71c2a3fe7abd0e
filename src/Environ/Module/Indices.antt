-- ===== src/Environ/Module/Indices.antt =====
-- wasmtime-environ/src/module.rs: the four index spaces.
use wasmtime.Base.{ℕ, ◌≡◌, ◌↔◌, true, some, none, length, try_u32, arith}
use wasmtime.Environ.Module.{Module}
use wasmtime.Environ.Module
use wasmtime.Environ.VmOffsets
use wasmtime.Environ.VmOffsets.{VmOffsets}

module _ (m : Module) (i d : ℕ) where
  -- `defined_func_index` gives `d` at exactly the index `func_index d`, and gives nothing at exactly
  -- the imported indices; so for tables, memories and globals.
  pub defined_index_iff :
      ((Module.defined_func_index m i ≡ some d) ↔ (i ≡ Module.func_index m d))
      × ((Module.defined_func_index m i ≡ none) ↔ (Module.is_imported_function m i ≡ true))
      × ((Module.defined_table_index m i ≡ some d) ↔ (i ≡ Module.table_index m d))
      × ((Module.defined_table_index m i ≡ none) ↔ (Module.is_imported_table m i ≡ true))
      × ((Module.defined_memory_index m i ≡ some d) ↔ (i ≡ Module.memory_index m d))
      × ((Module.defined_memory_index m i ≡ none) ↔ (Module.is_imported_memory m i ≡ true))
      × ((Module.defined_global_index m i ≡ some d) ↔ (i ≡ Module.global_index m d))
      × ((Module.defined_global_index m i ≡ none) ↔ (Module.is_imported_global m i ≡ true))
  unfolding Module.defined_func_index Module.func_index Module.is_imported_function
      Module.defined_table_index Module.table_index Module.is_imported_table
      Module.defined_memory_index Module.memory_index Module.is_imported_memory
      Module.defined_global_index Module.global_index Module.is_imported_global
  defined_index_iff = (
    (λ h. ground arith, λ h. ground arith),
    (λ h. ground arith, λ h. ground arith),
    (λ h. ground arith, λ h. ground arith),
    (λ h. ground arith, λ h. ground arith),
    (λ h. ground arith, λ h. ground arith),
    (λ h. ground arith, λ h. ground arith),
    (λ h. ground arith, λ h. ground arith),
    (λ h. ground arith, λ h. ground arith),
  )

-- The pointer size of a 64-bit host, and the counts of a module.
abbrev pub Counts : Module → VmOffsets → Type 0
Counts m o =
    (o.pointer_size ≡ 8)
    × (o.num_signature_ids ≡ length m.signatures)
    × (o.num_imported_functions ≡ length m.imported_funcs)
    × (o.num_imported_tables ≡ length m.imported_tables)
    × (o.num_imported_memories ≡ length m.imported_memories)
    × (o.num_imported_globals ≡ length m.imported_globals)
    × (o.num_defined_tables ≡ length m.table_plans)
    × (o.num_defined_memories ≡ length m.memory_plans)
    × (o.num_defined_globals ≡ length m.globals)

pub new_lem : (m : Module) (o : VmOffsets) → VmOffsets.new 8 m ≡ some o → Counts m o
unfolding VmOffsets.new try_u32
new_lem m o h = ground arith
