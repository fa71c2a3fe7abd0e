-- ===== src/Runtime/VmContext/Examples.antt =====
-- wasmtime-runtime/src/instance.rs: a context with two memories, one of them read.
use wasmtime.Base.{ℕ, ◌≡◌, ◌≤◌, refl, some, [], ◌∷◌, length, arith}
use wasmtime.Environ.VmOffsets.{VmOffsets}
use wasmtime.Environ.VmOffsets.Layout.{
  Region, signature_ids, imported_functions, imported_tables, imported_memories, imported_globals,
  tables, memories, globals, builtin_functions, count, slot, total, Fits, start, extent,
}
use wasmtime.Runtime.VmContext.{
  VmContext, Arrays, contents, fill_context, unwritten, memory_definition,
}
use wasmtime.Runtime.VmContext.Slots.{fill_context-slot}

abbrev offsets : VmOffsets
offsets = record {
  pointer_size = 8;
  num_signature_ids = 3;
  num_imported_functions = 0;
  num_imported_tables = 0;
  num_imported_memories = 0;
  num_imported_globals = 0;
  num_defined_tables = 1;
  num_defined_memories = 2;
  num_defined_globals = 1;
}

abbrev arrays : Arrays
arrays = record {
  vmshared_signatures = 5 ∷ 6 ∷ 7 ∷ [];
  functions = [];
  table_imports = [];
  memory_imports = [];
  global_imports = [];
  vmctx_tables = record { base = 64; current_elements = 3 } ∷ [];
  vmctx_memories =
      record { base = 4096; current_length = 65536 }
      ∷ record { base = 8192; current_length = 0 }
      ∷ [];
  vmctx_globals = 42 ∷ [];
  builtins = 1 ∷ 2 ∷ 3 ∷ 4 ∷ [];
}

fits : Fits offsets
unfolding total start extent
fits = omega arith

room : (q : Region) → length (contents arrays q) ≤ count offsets q
room signature_ids = omega arith
room imported_functions = omega arith
room imported_tables = omega arith
room imported_memories = omega arith
room imported_globals = omega arith
room tables = omega arith
room memories = omega arith
room globals = omega arith
room builtin_functions = omega arith

fill_context-slot_example :
    (v' : VmContext) × (at : ℕ) × (fill_context offsets arrays (λ i. unwritten) ≡ some v')
    × (slot offsets memories 1 ≡ some at)
    × (v' at ≡ memory_definition (record { base = 8192; current_length = 0 }))
fill_context-slot_example =
    fill_context-slot offsets arrays (λ i. unwritten) memories 1
      (memory_definition (record { base = 8192; current_length = 0 })) fits refl room refl
