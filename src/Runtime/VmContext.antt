-- ===== src/Runtime/VmContext.antt =====
-- wasmtime-runtime/src/vmcontext.rs: the structs that compiled code reads through its `vmctx`
-- pointer, on a 64-bit host, and instance.rs: the accessors of their slots.
pub mod Sizes
pub mod Slots
mod Examples
use wasmtime.Base.{map, ℕ, ◌+◌, Option, none, some, List, [], ◌∷◌, ◌==◌, if◌then◌else◌, ◌>>=◌}
use wasmtime.Environ.VmOffsets.{
  VmOffsets, vmctx_signature_ids_begin, vmctx_imported_functions_begin, vmctx_imported_tables_begin,
  vmctx_imported_memories_begin, vmctx_imported_globals_begin, vmctx_tables_begin,
  vmctx_memories_begin, vmctx_globals_begin, vmctx_builtin_functions_begin,
}
use wasmtime.Environ.VmOffsets.Fields
use wasmtime.Environ.VmOffsets.Layout.{
  Region, signature_ids, imported_functions, imported_tables, imported_memories, imported_globals,
  tables, memories, globals, builtin_functions,
}
use wasmtime.Runtime.Memory.{VmMemoryDefinition}
use wasmtime.Runtime.Table.{VmTableDefinition}

-- A pointer into a context: whose context, and the offset in bytes.
pub record ContextPtr : Type 0 where
  pub context : ℕ
  pub offset : ℕ

-- A `*mut VMContext` is known by the instance that holds the context.
pub record VmFunctionImport : Type 0 where
  pub body : ℕ
  pub vmctx : ℕ

pub record VmTableImport : Type 0 where
  pub from : ContextPtr
  pub vmctx : ℕ

pub record VmMemoryImport : Type 0 where
  pub from : ContextPtr
  pub vmctx : ℕ

pub record VmGlobalImport : Type 0 where
  pub from : ContextPtr

-- `Imports` of wasmtime-runtime/src/imports.rs; a dependency is the address of an instance.
pub record Imports : Type 0 where
  pub dependencies : List ℕ
  pub functions : List VmFunctionImport
  pub tables : List VmTableImport
  pub memories : List VmMemoryImport
  pub globals : List VmGlobalImport

-- The structs by the offset they start at; a global is its 16 bytes as a number.
pub data Cell : Type 0 where
  unwritten : Cell
  signature_id global_definition builtin_function : ℕ → Cell
  function_import : VmFunctionImport → Cell
  table_import : VmTableImport → Cell
  memory_import : VmMemoryImport → Cell
  global_import : VmGlobalImport → Cell
  table_definition : VmTableDefinition → Cell
  memory_definition : VmMemoryDefinition → Cell

abbrev pub VmContext : Type 0
VmContext = ℕ → Cell

unfoldable pub write : VmContext → ℕ → Cell → VmContext
write v at c i = if i == at then c else v i

-- `mem::size_of` of the structs, by their fields: two words, one word or four bytes; a `u32`
-- behind a pointer is padded; a global is 16 bytes.
abbrev pub size_of : Region → ℕ
size_of signature_ids = 4
size_of imported_functions = 8 + 8
size_of imported_tables = 8 + 8
size_of imported_memories = 8 + 8
size_of imported_globals = 8
size_of tables = 8 + (4 + 4)
size_of memories = 8 + 8
size_of globals = 16
size_of builtin_functions = 8

-- `ptr::copy` of an array of structs.
unfoldable pub copy_array : VmContext → ℕ → ℕ → List Cell → VmContext
copy_array v at width [] = v
copy_array v at width (c ∷ cs) = copy_array (write v at c) (at + width) width cs

-- A read at another type than the one written has no result.
abbrev pub as_signature_id : Cell → Option ℕ
as_signature_id (signature_id n) = some n
as_signature_id _ = none

abbrev pub as_function_import : Cell → Option VmFunctionImport
as_function_import (function_import x) = some x
as_function_import _ = none

abbrev pub as_table_import : Cell → Option VmTableImport
as_table_import (table_import x) = some x
as_table_import _ = none

abbrev pub as_memory_import : Cell → Option VmMemoryImport
as_memory_import (memory_import x) = some x
as_memory_import _ = none

abbrev pub as_global_import : Cell → Option VmGlobalImport
as_global_import (global_import x) = some x
as_global_import _ = none

abbrev pub as_table_definition : Cell → Option VmTableDefinition
as_table_definition (table_definition x) = some x
as_table_definition _ = none

abbrev pub as_memory_definition : Cell → Option VmMemoryDefinition
as_memory_definition (memory_definition x) = some x
as_memory_definition _ = none

abbrev pub as_global_definition : Cell → Option ℕ
as_global_definition (global_definition x) = some x
as_global_definition _ = none

-- The accessors; `none` is the panic of the offset.
module _ (o : VmOffsets) (v : VmContext) (index : ℕ) where
  abbrev pub get_signature_id : Option ℕ
  get_signature_id = Fields.vmctx_vmshared_signature_id o index >>= λ at. as_signature_id (v at)

  abbrev pub imported_function : Option VmFunctionImport
  imported_function = Fields.vmctx_vmfunction_import o index >>= λ at. as_function_import (v at)

  abbrev pub imported_table : Option VmTableImport
  imported_table = Fields.vmctx_vmtable_import o index >>= λ at. as_table_import (v at)

  abbrev pub imported_memory : Option VmMemoryImport
  imported_memory = Fields.vmctx_vmmemory_import o index >>= λ at. as_memory_import (v at)

  abbrev pub imported_global : Option VmGlobalImport
  imported_global = Fields.vmctx_vmglobal_import o index >>= λ at. as_global_import (v at)

  abbrev pub table : Option VmTableDefinition
  table = Fields.vmctx_vmtable_definition o index >>= λ at. as_table_definition (v at)

  abbrev pub memory : Option VmMemoryDefinition
  memory = Fields.vmctx_vmmemory_definition o index >>= λ at. as_memory_definition (v at)

  abbrev pub global : Option ℕ
  global = Fields.vmctx_vmglobal_definition o index >>= λ at. as_global_definition (v at)

  -- Writes through `table_mut`, `memory_mut` and `global_mut`.
  abbrev pub table_mut : VmTableDefinition → Option VmContext
  table_mut d =
      Fields.vmctx_vmtable_definition o index >>= λ at. some (write v at (table_definition d))

  abbrev pub memory_mut : VmMemoryDefinition → Option VmContext
  memory_mut d =
      Fields.vmctx_vmmemory_definition o index >>= λ at. some (write v at (memory_definition d))

  abbrev pub global_mut : ℕ → Option VmContext
  global_mut d =
      Fields.vmctx_vmglobal_definition o index >>= λ at. some (write v at (global_definition d))

-- The arrays that `InstanceHandle::new` copies.
pub record Arrays : Type 0 where
  pub vmshared_signatures : List ℕ
  pub functions : List VmFunctionImport
  pub table_imports : List VmTableImport
  pub memory_imports : List VmMemoryImport
  pub global_imports : List VmGlobalImport
  pub vmctx_tables : List VmTableDefinition
  pub vmctx_memories : List VmMemoryDefinition
  pub vmctx_globals : List ℕ
  pub builtins : List ℕ

abbrev pub contents : Arrays → Region → List Cell
contents a signature_ids = map signature_id a.vmshared_signatures
contents a imported_functions = map function_import a.functions
contents a imported_tables = map table_import a.table_imports
contents a imported_memories = map memory_import a.memory_imports
contents a imported_globals = map global_import a.global_imports
contents a tables = map table_definition a.vmctx_tables
contents a memories = map memory_definition a.vmctx_memories
contents a globals = map global_definition a.vmctx_globals
contents a builtin_functions = map builtin_function a.builtins

-- One `ptr::copy` of `InstanceHandle::new`, to where its array begins.
abbrev pub copy_to : Option ℕ → Arrays → Region → VmContext → Option VmContext
copy_to begin a r v = begin >>= λ at. some (copy_array v at (size_of r) (contents a r))

-- The nine copies, in the order of the code.
unfoldable pub fill_context : VmOffsets → Arrays → VmContext → Option VmContext
fill_context o a v =
    copy_to (vmctx_signature_ids_begin o) a signature_ids v
    >>= copy_to (vmctx_imported_functions_begin o) a imported_functions
    >>= copy_to (vmctx_imported_tables_begin o) a imported_tables
    >>= copy_to (vmctx_imported_memories_begin o) a imported_memories
    >>= copy_to (vmctx_imported_globals_begin o) a imported_globals
    >>= copy_to (vmctx_tables_begin o) a tables
    >>= copy_to (vmctx_memories_begin o) a memories
    >>= copy_to (vmctx_globals_begin o) a globals
    >>= copy_to (vmctx_builtin_functions_begin o) a builtin_functions
