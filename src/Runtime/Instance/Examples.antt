-- ===== src/Runtime/Instance/Examples.antt =====
-- wasmtime-runtime/src/instance.rs: an instance with a memory and a table, and one that imports the
-- memory.
use wasmtime.Base.{
  false, ℕ, zero, suc, ◌≡◌, ◌≢◌, refl, ap, none, some, [], ◌∷◌, get_elem?, arith, true, checked_add,
  checked_mul, try_u32,
}
use wasmtime.Environ.Module
use wasmtime.Environ.Module.{defined_memory_index, Module}
use wasmtime.Environ.Plan.{MemoryPlan, dynamic}
use wasmtime.Environ.VmOffsets
use wasmtime.Environ.VmOffsets.{VmOffsets}
use wasmtime.Environ.VmOffsets.Fields
use wasmtime.Environ.VmOffsets.Layout.{total, Fits, start, extent}
use wasmtime.Runtime.Mmap.{Host, make_accessible, protect_range, fresh}
use wasmtime.Runtime.Memory
use wasmtime.Runtime.Memory.{LinearMemory, vmmemory}
use wasmtime.Runtime.Table.{Table, default_anyfunc, vmtable}
use wasmtime.Runtime.VmContext
use wasmtime.Runtime.VmContext.{
  VmContext, write, unwritten, memory_definition, table_definition, memory_import,
}
use wasmtime.Runtime.Instance.{
  Instance, Store, put_instance, memory_index, memory_grow, imported_memory_grow,
}
use wasmtime.Base.Outcomes.{ok}
use wasmtime.Runtime.Instance.Segments.{
  DataInitializer, check_memory_init_bounds, initialize_memories, locate,
}
use wasmtime.Runtime.Instance.Segments.Kept.{Addressed, Kept}
use wasmtime.Runtime.Instance.Segments.Written.{byte_at, overlaid, under}
use wasmtime.Runtime.Instance.Segments.Checked.{
  SameTables, initialize_memories-Kept, put_instance-Addressed,
}
use wasmtime.Runtime.Instance.Growth.{Synced, memory_grow-Synced, some_injective}
use wasmtime.Runtime.Instance.Imports.{Linked, imported_memory_grow_lem}
use wasmtime.Runtime.Instance.Calls.{lookup_by_declaration}

abbrev host : Host
host = record { page_size = 4096; mapped = none; protected = true }

abbrev offsets : VmOffsets
offsets = record {
  pointer_size = 8;
  num_signature_ids = 0;
  num_imported_functions = 0;
  num_imported_tables = 0;
  num_imported_memories = 0;
  num_imported_globals = 0;
  num_defined_tables = 1;
  num_defined_memories = 1;
  num_defined_globals = 0;
}

abbrev one_page : LinearMemory
one_page = record {
  mmap = fresh 4096 196608 true;
  current = 1;
  maximum = some 2;
  offset_guard_size = 65536;
  needs_signal_handlers = true;
}

abbrev two_pages : LinearMemory
two_pages = record one_page {
  mmap = protect_range (fresh 4096 196608 true) 65536 65536;
  current = 2;
}

abbrev empty_table : Table
empty_table = record { vec = []; address = 64; maximum = none }

abbrev grown_table : Table
grown_table = record { vec = default_anyfunc ∷ []; address = 128; maximum = none }

abbrev plan : MemoryPlan
plan = record {
  memory = record { minimum = 1; maximum = some 2; shared = false };
  style = dynamic;
  offset_guard_size = 65536;
}

abbrev context : VmContext
context =
    write (write (λ i. unwritten) 16 (memory_definition (vmmemory one_page))) 0
      (table_definition (record { base = 64; current_elements = 0 }))

abbrev exporter : Instance
exporter = record {
  id = 7;
  refcount = 3;
  dependencies = [];
  module_ = record Module.new { memory_plans = plan ∷ [] };
  offsets = offsets;
  memories = one_page ∷ [];
  tables = empty_table ∷ [];
  finished_functions = [];
  vmctx = context;
}

fits : Fits offsets
unfolding total start extent
fits = omega arith

synced : Synced exporter
unfolding Fields.vmctx_vmmemory_definition VmOffsets.vmctx_memories_begin
    VmOffsets.vmctx_tables_begin VmOffsets.vmctx_imported_globals_begin
    VmOffsets.vmctx_imported_memories_begin VmOffsets.vmctx_imported_tables_begin
    VmOffsets.vmctx_imported_functions_begin VmOffsets.vmctx_signature_ids_begin checked_mul
    checked_add write Fields.vmctx_vmtable_definition vmtable try_u32
synced = record {
  fits = fits;
  eight = refl;
  memory_slots = omega arith;
  table_slots = omega arith;
  memory_read = memories_read;
  table_read = tables_read;
}
  where
    memories_read :
        (k : ℕ) (m : LinearMemory)
        → get_elem? exporter.memories k ≡ some m
        → VmContext.memory offsets context k ≡ some (vmmemory m)
    memories_read zero m e = ap (λ x. some (vmmemory x)) (some_injective e)
    memories_read (suc k) m e = cc

    tables_read :
        (k : ℕ) (t : Table)
        → get_elem? exporter.tables k ≡ some t
        → VmContext.table offsets context k ≡ vmtable t
    tables_read zero t e = ap vmtable (some_injective e)
    tables_read (suc k) t e = cc

abbrev memory_grown : Instance
memory_grown = record exporter {
  memories = two_pages ∷ [];
  vmctx = write context 16 (memory_definition (vmmemory two_pages));
}

memory_grow-Synced_example : Synced memory_grown
unfolding memory_grow Memory.grow make_accessible Fields.vmctx_vmmemory_definition checked_add
    VmOffsets.vmctx_memories_begin VmOffsets.vmctx_tables_begin
    VmOffsets.vmctx_imported_globals_begin VmOffsets.vmctx_imported_memories_begin
    VmOffsets.vmctx_imported_tables_begin VmOffsets.vmctx_imported_functions_begin
    VmOffsets.vmctx_signature_ids_begin checked_mul
memory_grow-Synced_example = memory_grow-Synced host exporter memory_grown 0 1 (some 1) synced refl

abbrev table_grown : Instance
table_grown = record exporter {
  tables = grown_table ∷ [];
  vmctx = write context 0 (table_definition (record { base = 128; current_elements = 1 }));
}

-- An instance whose only import is the memory of `exporter`.
abbrev importer : Instance
importer = record {
  id = 9;
  refcount = 1;
  dependencies = 7 ∷ [];
  module_ = record Module.new {
    imported_memories = ("env", "memory") ∷ [];
    memory_plans = plan ∷ [];
  };
  offsets = record offsets { num_imported_memories = 1; num_defined_tables = 0 };
  memories = [];
  tables = [];
  finished_functions = [];
  vmctx =
      write (λ i. unwritten) 0
        (memory_import (record { from = record { context = 7; offset = 16 }; vmctx = 7 }));
}

abbrev store : Store
store = put_instance (put_instance (λ k. none) importer) exporter

linked : Linked store importer exporter 0 0
unfolding Fields.vmctx_vmmemory_import VmOffsets.vmctx_imported_memories_begin
    VmOffsets.vmctx_imported_tables_begin VmOffsets.vmctx_imported_functions_begin
    VmOffsets.vmctx_signature_ids_begin checked_mul checked_add write lookup_by_declaration
    defined_memory_index Fields.vmctx_vmmemory_definition VmOffsets.vmctx_memories_begin
    VmOffsets.vmctx_tables_begin VmOffsets.vmctx_imported_globals_begin put_instance
linked = record {
  import = record { from = record { context = 7; offset = 16 }; vmctx = 7 };
  plan = plan;
  held = refl;
  found = refl;
  stored = refl;
}

imported_memory_grow_lem_example :
    (foreign' : Instance) × (memory_grow host exporter 0 1 ≡ some (some 1, foreign'))
    × (put_instance store memory_grown 7 ≡ some foreign')
    × Synced foreign'
    × ((k : ℕ) → k ≢ 7 → put_instance store memory_grown k ≡ store k)
unfolding defined_memory_index imported_memory_grow Fields.vmctx_vmmemory_import
    VmOffsets.vmctx_imported_memories_begin VmOffsets.vmctx_imported_tables_begin
    VmOffsets.vmctx_imported_functions_begin VmOffsets.vmctx_signature_ids_begin checked_mul
    checked_add write put_instance memory_index VmOffsets.vmctx_memories_begin
    VmOffsets.vmctx_tables_begin VmOffsets.vmctx_imported_globals_begin memory_grow Memory.grow
    Fields.vmctx_vmmemory_definition make_accessible
imported_memory_grow_lem_example =
    imported_memory_grow_lem host store (put_instance store memory_grown) importer exporter 0 0 0 1
      (some 1) linked synced refl (omega arith) refl

abbrev with_main : Module
with_main = record Module.new {
  signatures = record { name = 0; params = 1; returns = 0 } ∷ [];
  functions = 0 ∷ [];
  exports = ("memory", Module.memory 0) ∷ ("main", Module.function 0) ∷ [];
}

store-Addressed : Addressed store
store-Addressed =
    put_instance-Addressed (put_instance (λ k. none) importer) exporter
      (put_instance-Addressed (λ k. none) importer (λ j a e. cc))

-- Two bytes for the imported memory.
abbrev segment : DataInitializer
segment = record { memory_index = 0; base = none; offset = 3; contents = 17 ∷ 18 ∷ [] }

initialize_memories-Kept_example :
    (s' : Store) × (initialize_memories store 9 (segment ∷ []) ≡ ok s')
    × Kept store s'
    × SameTables store s'
    × ((o j i : ℕ)
        → byte_at s' o j i ≡ under (overlaid store 9 (segment ∷ []) o j i) (byte_at store o j i))
unfolding check_memory_init_bounds locate defined_memory_index Fields.vmctx_vmmemory_import
    VmOffsets.vmctx_imported_memories_begin VmOffsets.vmctx_imported_tables_begin
    VmOffsets.vmctx_imported_functions_begin VmOffsets.vmctx_signature_ids_begin checked_mul
    checked_add write put_instance memory_index VmOffsets.vmctx_memories_begin
    VmOffsets.vmctx_tables_begin VmOffsets.vmctx_imported_globals_begin
    Fields.vmctx_vmmemory_definition
initialize_memories-Kept_example =
    initialize_memories-Kept store 9 (segment ∷ []) store-Addressed refl
