-- ===== src/Environ/VmOffsets/Fields.antt =====
-- wasmtime-environ/src/vmoffsets.rs: the offsets of single elements of the arrays, and of their
-- fields.
use wasmtime.Base.{ℕ, Option, checked_add, checked_mul, ◌>>=◌}
use wasmtime.Environ.VmOffsets.{
  VmOffsets, element, field, size_of_vmshared_signature_index, size_of_vmfunction_import,
  size_of_vmtable_import, size_of_vmmemory_import, size_of_vmglobal_import,
  size_of_vmtable_definition, size_of_vmmemory_definition, size_of_vmglobal_definition,
  vmctx_signature_ids_begin, vmctx_imported_functions_begin, vmctx_imported_tables_begin,
  vmctx_imported_memories_begin, vmctx_imported_globals_begin, vmctx_tables_begin,
  vmctx_memories_begin, vmctx_globals_begin, vmctx_builtin_functions_begin, vmfunction_import_body,
  vmfunction_import_vmctx, vmtable_import_from, vmtable_definition_base,
  vmtable_definition_current_elements, vmmemory_import_from, vmmemory_import_vmctx,
  vmmemory_definition_base, vmmemory_definition_current_length, vmglobal_import_from,
}

module _ (o : VmOffsets) where
  unfoldable pub vmctx_vmshared_signature_id : ℕ → Option ℕ
  vmctx_vmshared_signature_id =
      element (vmctx_signature_ids_begin o) o.num_signature_ids (size_of_vmshared_signature_index o)

  unfoldable pub vmctx_vmfunction_import : ℕ → Option ℕ
  vmctx_vmfunction_import =
      element (vmctx_imported_functions_begin o) o.num_imported_functions
        (size_of_vmfunction_import o)

  unfoldable pub vmctx_vmtable_import : ℕ → Option ℕ
  vmctx_vmtable_import =
      element (vmctx_imported_tables_begin o) o.num_imported_tables (size_of_vmtable_import o)

  unfoldable pub vmctx_vmmemory_import : ℕ → Option ℕ
  vmctx_vmmemory_import =
      element (vmctx_imported_memories_begin o) o.num_imported_memories (size_of_vmmemory_import o)

  unfoldable pub vmctx_vmglobal_import : ℕ → Option ℕ
  vmctx_vmglobal_import =
      element (vmctx_imported_globals_begin o) o.num_imported_globals (size_of_vmglobal_import o)

  unfoldable pub vmctx_vmtable_definition : ℕ → Option ℕ
  vmctx_vmtable_definition =
      element (vmctx_tables_begin o) o.num_defined_tables (size_of_vmtable_definition o)

  unfoldable pub vmctx_vmmemory_definition : ℕ → Option ℕ
  vmctx_vmmemory_definition =
      element (vmctx_memories_begin o) o.num_defined_memories (size_of_vmmemory_definition o)

  unfoldable pub vmctx_vmglobal_definition : ℕ → Option ℕ
  vmctx_vmglobal_definition =
      element (vmctx_globals_begin o) o.num_defined_globals (size_of_vmglobal_definition o)

  unfoldable pub vmctx_vmfunction_import_body : ℕ → Option ℕ
  vmctx_vmfunction_import_body i = field (vmctx_vmfunction_import i) (vmfunction_import_body o)

  unfoldable pub vmctx_vmfunction_import_vmctx : ℕ → Option ℕ
  vmctx_vmfunction_import_vmctx i = field (vmctx_vmfunction_import i) (vmfunction_import_vmctx o)

  unfoldable pub vmctx_vmtable_import_from : ℕ → Option ℕ
  vmctx_vmtable_import_from i = field (vmctx_vmtable_import i) (vmtable_import_from o)

  unfoldable pub vmctx_vmtable_definition_base : ℕ → Option ℕ
  vmctx_vmtable_definition_base i = field (vmctx_vmtable_definition i) (vmtable_definition_base o)

  unfoldable pub vmctx_vmtable_definition_current_elements : ℕ → Option ℕ
  vmctx_vmtable_definition_current_elements i =
      field (vmctx_vmtable_definition i) (vmtable_definition_current_elements o)

  unfoldable pub vmctx_vmmemory_import_from : ℕ → Option ℕ
  vmctx_vmmemory_import_from i = field (vmctx_vmmemory_import i) (vmmemory_import_from o)

  unfoldable pub vmctx_vmmemory_import_vmctx : ℕ → Option ℕ
  vmctx_vmmemory_import_vmctx i = field (vmctx_vmmemory_import i) (vmmemory_import_vmctx o)

  unfoldable pub vmctx_vmmemory_definition_base : ℕ → Option ℕ
  vmctx_vmmemory_definition_base i =
      field (vmctx_vmmemory_definition i) (vmmemory_definition_base o)

  unfoldable pub vmctx_vmmemory_definition_current_length : ℕ → Option ℕ
  vmctx_vmmemory_definition_current_length i =
      field (vmctx_vmmemory_definition i) (vmmemory_definition_current_length o)

  unfoldable pub vmctx_vmglobal_import_from : ℕ → Option ℕ
  vmctx_vmglobal_import_from i = field (vmctx_vmglobal_import i) (vmglobal_import_from o)

  -- A builtin function's index is not asserted to be in range.
  unfoldable pub vmctx_builtin_function : ℕ → Option ℕ
  vmctx_builtin_function i = do
    b ← vmctx_builtin_functions_begin o
    n ← checked_mul i o.pointer_size
    checked_add b n
