-- ===== src/Environ/VmOffsets/Examples.antt =====
-- wasmtime-environ/src/vmoffsets.rs: the theorems at a small context of a 64-bit host.
use wasmtime.Base.{ℕ, ◌+◌, ◌*◌, ◌%◌, ◌≤◌, ◌≡◌, inr, refl, some, arith, checked_add, checked_mul}
use wasmtime.Environ.VmOffsets
use wasmtime.Environ.VmOffsets.{VmOffsets, align}
use wasmtime.Environ.VmOffsets.Fields
use wasmtime.Environ.VmOffsets.Layout.{memories, size, slot, total, Fits, start, extent}
use wasmtime.Environ.VmOffsets.Slots.{slot_in_context, slots-Apart, Apart}
use wasmtime.Environ.VmOffsets.Alignment.{function_imports_begin_aligned, globals_begin_wraps}

abbrev offsets : VmOffsets
offsets = record {
  pointer_size = 8;
  num_signature_ids = 3;
  num_imported_functions = 2;
  num_imported_tables = 0;
  num_imported_memories = 1;
  num_imported_globals = 1;
  num_defined_tables = 1;
  num_defined_memories = 2;
  num_defined_globals = 2;
}

-- The source's own test of `align`.
alignment_test :
    (align 0 16 % 16 ≡ 0) × (align 32 16 % 16 ≡ 0) × (align 33 16 % 16 ≡ 0) × (align 31 16 % 16 ≡ 0)
unfolding align
alignment_test = (refl, refl, refl, refl)

offsets-Fits : Fits offsets
unfolding total start extent
offsets-Fits = omega arith

slot_in_context_example :
    (a : ℕ) × (s : ℕ) × (slot offsets memories 1 ≡ some a)
    × (VmOffsets.size_of_vmctx offsets ≡ some s)
    × (a + size offsets memories ≤ s)
slot_in_context_example = slot_in_context offsets memories 1 offsets-Fits (omega arith)

slots-Apart_example : Apart 84 16 100 16
unfolding Fields.vmctx_vmtable_definition Fields.vmctx_vmmemory_definition
    VmOffsets.vmctx_tables_begin VmOffsets.vmctx_memories_begin
    VmOffsets.vmctx_imported_globals_begin VmOffsets.vmctx_imported_memories_begin
    VmOffsets.vmctx_imported_tables_begin VmOffsets.vmctx_imported_functions_begin
    VmOffsets.vmctx_signature_ids_begin checked_add checked_mul
slots-Apart_example =
    slots-Apart offsets memories memories 0 1 84 100 offsets-Fits (omega arith) (omega arith)
      (inr (omega arith)) refl refl

function_imports_begin_aligned_example : 12 % 8 ≡ 4 * (3 % 2)
unfolding VmOffsets.vmctx_imported_functions_begin VmOffsets.vmctx_signature_ids_begin checked_add
    checked_mul
function_imports_begin_aligned_example = function_imports_begin_aligned offsets 12 refl refl

-- Signatures alone, up to the last four bytes that a `u32` can address.
abbrev crowded : VmOffsets
crowded = record {
  pointer_size = 8;
  num_signature_ids = 0x3fff_ffff;
  num_imported_functions = 0;
  num_imported_tables = 0;
  num_imported_memories = 0;
  num_imported_globals = 0;
  num_defined_tables = 0;
  num_defined_memories = 0;
  num_defined_globals = 0;
}

globals_begin_wraps_example : VmOffsets.vmctx_globals_begin crowded ≡ some 0
unfolding VmOffsets.vmctx_tables_begin VmOffsets.vmctx_memories_begin
    VmOffsets.vmctx_imported_globals_begin VmOffsets.vmctx_imported_memories_begin
    VmOffsets.vmctx_imported_tables_begin VmOffsets.vmctx_imported_functions_begin
    VmOffsets.vmctx_signature_ids_begin checked_add checked_mul
globals_begin_wraps_example =
    globals_begin_wraps crowded 0xffff_fffc refl (omega arith) (omega arith)
