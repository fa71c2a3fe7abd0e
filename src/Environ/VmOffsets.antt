-- ===== src/Environ/VmOffsets.antt =====
-- wasmtime-environ/src/vmoffsets.rs: the offsets of the fields of a `VMContext` and of the
-- structs in it. `none` is a panic: a failed `unwrap`, cast or
-- assertion. Unchecked operations wrap, as in a release build.
pub mod Fields
pub mod Layout
pub mod Bounds
pub mod Slots
pub mod Alignment
mod Examples
use wasmtime.Base.{
  ℕ, ◌+◌, ◌-◌, ◌*◌, ◌/◌, ◌%◌, Option, none, some, length, checked_add, checked_mul, try_u32,
  u32_mod, ◌>>=◌, ◌>>◌, ltb, if◌then◌else◌,
}
use wasmtime.Environ.Module.{Module}

-- Rounding up to a multiple of the width; the sum is an unchecked `u32` addition.
unfoldable pub align : ℕ → ℕ → ℕ
align offset width = (offset + (width - 1)) % u32_mod / width * width

pub record VmOffsets : Type 0 where
  pub pointer_size : ℕ
  pub num_signature_ids : ℕ
  pub num_imported_functions : ℕ
  pub num_imported_tables : ℕ
  pub num_imported_memories : ℕ
  pub num_imported_globals : ℕ
  pub num_defined_tables : ℕ
  pub num_defined_memories : ℕ
  pub num_defined_globals : ℕ

-- `VMOffsets::new`
unfoldable pub new : ℕ → Module → Option VmOffsets
new pointer_size m = do
  signatures ← try_u32 (length m.signatures)
  functions ← try_u32 (length m.imported_funcs)
  tables ← try_u32 (length m.imported_tables)
  memories ← try_u32 (length m.imported_memories)
  globals ← try_u32 (length m.imported_globals)
  table_plans ← try_u32 (length m.table_plans)
  memory_plans ← try_u32 (length m.memory_plans)
  all_globals ← try_u32 (length m.globals)
  some (record {
    pointer_size = pointer_size;
    num_signature_ids = signatures;
    num_imported_functions = functions;
    num_imported_tables = tables;
    num_imported_memories = memories;
    num_imported_globals = globals;
    num_defined_tables = table_plans;
    num_defined_memories = memory_plans;
    num_defined_globals = all_globals;
  })

-- `BuiltinFunctionIndex::builtin_functions_total_number`
abbrev pub builtin_functions_total_number : ℕ
builtin_functions_total_number = 4

abbrev u8_mod : ℕ
u8_mod = 256

-- Sizes of the structs, and the offsets of their fields, in `u8`.
module _ (o : VmOffsets) where
  abbrev pub vmfunction_import_body : ℕ
  vmfunction_import_body = 0 * o.pointer_size % u8_mod

  abbrev pub vmfunction_import_vmctx : ℕ
  vmfunction_import_vmctx = 1 * o.pointer_size % u8_mod

  abbrev pub size_of_vmfunction_import : ℕ
  size_of_vmfunction_import = 2 * o.pointer_size % u8_mod

  abbrev pub size_of_vmfunction_body_ptr : ℕ
  size_of_vmfunction_body_ptr = 1 * o.pointer_size % u8_mod

  abbrev pub vmtable_import_from : ℕ
  vmtable_import_from = 0 * o.pointer_size % u8_mod

  abbrev pub vmtable_import_vmctx : ℕ
  vmtable_import_vmctx = 1 * o.pointer_size % u8_mod

  abbrev pub size_of_vmtable_import : ℕ
  size_of_vmtable_import = 2 * o.pointer_size % u8_mod

  abbrev pub vmtable_definition_base : ℕ
  vmtable_definition_base = 0 * o.pointer_size % u8_mod

  abbrev pub vmtable_definition_current_elements : ℕ
  vmtable_definition_current_elements = 1 * o.pointer_size % u8_mod

  abbrev pub size_of_vmtable_definition_current_elements : ℕ
  size_of_vmtable_definition_current_elements = 4

  abbrev pub size_of_vmtable_definition : ℕ
  size_of_vmtable_definition = 2 * o.pointer_size % u8_mod

  abbrev pub vmmemory_import_from : ℕ
  vmmemory_import_from = 0 * o.pointer_size % u8_mod

  abbrev pub vmmemory_import_vmctx : ℕ
  vmmemory_import_vmctx = 1 * o.pointer_size % u8_mod

  abbrev pub size_of_vmmemory_import : ℕ
  size_of_vmmemory_import = 2 * o.pointer_size % u8_mod

  abbrev pub vmmemory_definition_base : ℕ
  vmmemory_definition_base = 0 * o.pointer_size % u8_mod

  abbrev pub vmmemory_definition_current_length : ℕ
  vmmemory_definition_current_length = 1 * o.pointer_size % u8_mod

  abbrev pub size_of_vmmemory_definition_current_length : ℕ
  size_of_vmmemory_definition_current_length = 4

  abbrev pub size_of_vmmemory_definition : ℕ
  size_of_vmmemory_definition = 2 * o.pointer_size % u8_mod

  abbrev pub vmglobal_import_from : ℕ
  vmglobal_import_from = 0 * o.pointer_size % u8_mod

  abbrev pub size_of_vmglobal_import : ℕ
  size_of_vmglobal_import = 1 * o.pointer_size % u8_mod

  abbrev pub size_of_vmglobal_definition : ℕ
  size_of_vmglobal_definition = 16

  abbrev pub size_of_vmshared_signature_index : ℕ
  size_of_vmshared_signature_index = 4

  abbrev pub vmcaller_checked_anyfunc_func_ptr : ℕ
  vmcaller_checked_anyfunc_func_ptr = 0 * o.pointer_size % u8_mod

  abbrev pub vmcaller_checked_anyfunc_type_index : ℕ
  vmcaller_checked_anyfunc_type_index = 1 * o.pointer_size % u8_mod

  abbrev pub vmcaller_checked_anyfunc_vmctx : ℕ
  vmcaller_checked_anyfunc_vmctx = 2 * o.pointer_size % u8_mod

  abbrev pub size_of_vmcaller_checked_anyfunc : ℕ
  size_of_vmcaller_checked_anyfunc = 3 * o.pointer_size % u8_mod

-- Where each array of the `VMContext` begins.
module _ (o : VmOffsets) where
  unfoldable pub vmctx_signature_ids_begin : Option ℕ
  vmctx_signature_ids_begin = some 0

  unfoldable pub vmctx_imported_functions_begin : Option ℕ
  vmctx_imported_functions_begin = do
    b ← vmctx_signature_ids_begin
    n ← checked_mul o.num_signature_ids (size_of_vmshared_signature_index o)
    checked_add b n

  unfoldable pub vmctx_imported_tables_begin : Option ℕ
  vmctx_imported_tables_begin = do
    b ← vmctx_imported_functions_begin
    n ← checked_mul o.num_imported_functions (size_of_vmfunction_import o)
    checked_add b n

  unfoldable pub vmctx_imported_memories_begin : Option ℕ
  vmctx_imported_memories_begin = do
    b ← vmctx_imported_tables_begin
    n ← checked_mul o.num_imported_tables (size_of_vmtable_import o)
    checked_add b n

  unfoldable pub vmctx_imported_globals_begin : Option ℕ
  vmctx_imported_globals_begin = do
    b ← vmctx_imported_memories_begin
    n ← checked_mul o.num_imported_memories (size_of_vmmemory_import o)
    checked_add b n

  unfoldable pub vmctx_tables_begin : Option ℕ
  vmctx_tables_begin = do
    b ← vmctx_imported_globals_begin
    n ← checked_mul o.num_imported_globals (size_of_vmglobal_import o)
    checked_add b n

  unfoldable pub vmctx_memories_begin : Option ℕ
  vmctx_memories_begin = do
    b ← vmctx_tables_begin
    n ← checked_mul o.num_defined_tables (size_of_vmtable_definition o)
    checked_add b n

  unfoldable pub vmctx_globals_begin : Option ℕ
  vmctx_globals_begin = do
    b ← vmctx_memories_begin
    n ← checked_mul o.num_defined_memories (size_of_vmmemory_definition o)
    offset ← checked_add b n
    some (align offset 16)

  unfoldable pub vmctx_builtin_functions_begin : Option ℕ
  vmctx_builtin_functions_begin = do
    b ← vmctx_globals_begin
    n ← checked_mul o.num_defined_globals (size_of_vmglobal_definition o)
    checked_add b n

  unfoldable pub size_of_vmctx : Option ℕ
  size_of_vmctx = do
    b ← vmctx_builtin_functions_begin
    n ← checked_mul builtin_functions_total_number o.pointer_size
    checked_add b n

-- The element of an array, at an index that the function asserts to be in range.
abbrev pub element : Option ℕ → ℕ → ℕ → ℕ → Option ℕ
element begin num size i = do
  b ← if ltb i num then begin else none
  n ← checked_mul i size
  checked_add b n

abbrev pub field : Option ℕ → ℕ → Option ℕ
field base offset = base >>= λ b. checked_add b offset
