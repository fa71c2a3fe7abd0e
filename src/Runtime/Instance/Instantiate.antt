-- ===== src/Runtime/Instance/Instantiate.antt =====
-- wasmtime-runtime/src/instance.rs: `InstanceHandle::new`, from the creation of an instance to the call
-- of its start function, and the map of global exports.
pub mod Fresh
pub mod Making
pub mod Segmented
mod Examples
use Prim.Native.String.{String}
use text.Mathlib.Text.{◌==◌ as str_eq}
use wasmtime.Base.{ℕ, Option, none, some, List, [], ◌∷◌, map, if◌then◌else◌, checked_add_usize}
use wasmtime.Base
use wasmtime.Base.Outcomes.{Outcome, ok, err, panic, ◌>>=◌, unwrap}
use wasmtime.Environ.Module
use wasmtime.Environ.Module.{Module}
use wasmtime.Environ.VmOffsets
use wasmtime.Environ.VmOffsets.{VmOffsets}
use wasmtime.Runtime.Mmap.{Host, Mmap, OsError, with_at_least}
use wasmtime.Runtime.Memory.{LinearMemory, vmmemory}
use wasmtime.Runtime.Table.{Table, VmTableDefinition, vmtable}
use wasmtime.Runtime.VmContext.{Imports, VmContext, Arrays, fill_context, unwritten}
use wasmtime.Runtime.Instance.{
  Instance, Store, put_instance, create_tables, create_memories, create_globals,
}
use wasmtime.Runtime.Instance.Calls.{Export, Target, lookup_by_declaration, invoke_start_function}
use wasmtime.Runtime.Instance.Segments.{
  DataInitializer, check_memory_init_bounds, initialize_memories,
}
use wasmtime.Runtime.Instance.Elements.{check_table_init_bounds, initialize_tables}
use wasmtime.Runtime.Instance.Globals.{initialize_globals}

-- What an instance is made of.
pub record Parts : Type 0 where
  pub module_ : Module
  pub finished_functions : List ℕ
  pub imports : Imports
  pub data_initializers : List DataInitializer
  pub vmshared_signatures : List ℕ

-- What the system and the runtime give: the addresses of new tables, the system's answers for each
-- memory and for the mapping of the instance, the size of the `Instance` struct, and the built-in
-- functions that compiled code calls.
pub record Machine : Type 0 where
  pub addresses : ℕ → ℕ
  pub hosts : ℕ → Host
  pub host : Host
  pub size_of_instance : ℕ
  pub builtins : List ℕ

pub data InstantiationError : Type 0 where
  resource : OsError → InstantiationError
  elements_do_not_fit data_does_not_fit : InstantiationError
  start_trap : ℕ → InstantiationError

abbrev pub map_err {ℓ} : {E F : Type 0} {A : Type ℓ} → (E → F) → Outcome E A → Outcome F A
map_err f panic = panic
map_err f (err e) = err (f e)
map_err f (ok a) = ok a

abbrev pub vmtables : List Table → Option (List VmTableDefinition)
vmtables [] = some []
vmtables (t ∷ ts) = Base.◌>>=◌ (vmtable t) (λ d. Base.◌>>=◌ (vmtables ts) (λ ds. some (d ∷ ds)))

abbrev pub arrays_of :
    Machine → Parts → List VmTableDefinition → List LinearMemory → List ℕ → Arrays
arrays_of machine parts vmctx_tables memories vmctx_globals = record {
  vmshared_signatures = parts.vmshared_signatures;
  functions = parts.imports.functions;
  table_imports = parts.imports.tables;
  memory_imports = parts.imports.memories;
  global_imports = parts.imports.globals;
  vmctx_tables = vmctx_tables;
  vmctx_memories = map vmmemory memories;
  vmctx_globals = vmctx_globals;
  builtins = machine.builtins;
}

-- The bytes that the mapping of an instance needs.
abbrev pub instance_bytes : Machine → VmOffsets → Option ℕ
instance_bytes machine offsets =
    Base.◌>>=◌ (VmOffsets.size_of_vmctx offsets) (checked_add_usize machine.size_of_instance)

-- What is made before the instance itself.
pub record Made : Type 0 where
  pub tables : List Table
  pub memories : List LinearMemory
  pub vmctx_tables : List VmTableDefinition
  pub vmctx_globals : List ℕ
  pub offsets : VmOffsets

abbrev pub make : Machine → Module → Outcome InstantiationError Made
make machine m = unwrap (create_tables machine.addresses m) >>= λ tables.
    map_err resource (create_memories machine.hosts m) >>= λ memories.
    unwrap (vmtables tables) >>= λ vmctx_tables. unwrap (create_globals m) >>= λ vmctx_globals.
    unwrap (VmOffsets.new 8 m) >>= λ offsets. ok (record {
      tables = tables;
      memories = memories;
      vmctx_tables = vmctx_tables;
      vmctx_globals = vmctx_globals;
      offsets = offsets;
    })

abbrev pub instance_of : Parts → Made → ℕ → VmContext → Instance
instance_of parts made id vmctx = record {
  id = id;
  refcount = 1;
  dependencies = parts.imports.dependencies;
  module_ = parts.module_;
  offsets = made.offsets;
  memories = made.memories;
  tables = made.tables;
  finished_functions = parts.finished_functions;
  vmctx = vmctx;
}

-- The mapping of the instance, and the copies into its context.
abbrev pub fill : Machine → Parts → Made → Outcome InstantiationError Instance
fill machine parts made = unwrap (instance_bytes machine made.offsets) >>= λ size.
    map_err resource (with_at_least machine.host size) >>= λ mmap.
    unwrap (
      fill_context made.offsets
        (arrays_of machine parts made.vmctx_tables made.memories made.vmctx_globals)
        (λ i. unwritten))
    >>= λ vmctx. ok (instance_of parts made mmap.ptr vmctx)

-- The first part of `InstanceHandle::new`: the instance with its context filled. It is named by the
-- address of its mapping.
unfoldable pub new_instance : Machine → Parts → Outcome InstantiationError Instance
new_instance machine parts = make machine parts.module_ >>= fill machine parts

-- The segments, both kinds checked before any is written. An error comes with the store that it
-- leaves, as the segments may be for tables and memories of other instances.
unfoldable pub initialize_segments : Store → ℕ → Parts → Outcome (InstantiationError × Store) Store
initialize_segments s k parts =
    map_err (λ why. (elements_do_not_fit, s))
      (check_table_init_bounds s k parts.module_.table_elements)
    >>= λ tables_fit.
        map_err (λ why. (data_does_not_fit, s))
          (check_memory_init_bounds s k parts.data_initializers)
        >>= λ memories_fit.
            unwrap (initialize_tables s k parts.module_.table_elements) >>= λ with_tables.
            map_err (λ why. (data_does_not_fit, with_tables))
              (initialize_memories with_tables k parts.data_initializers)

-- `initialize_globals` of the instance at an address.
unfoldable pub globals_at : Store → ℕ → Option Store
globals_at s k =
    Base.◌>>=◌ (s k)
      (λ inst. Base.◌>>=◌ (initialize_globals s inst) (λ inst'. some (put_instance s inst')))

-- The global export map: a name that is exported twice has no export.
abbrev pub GlobalExports : Type 0
GlobalExports = List (String × Option Export)

unfoldable pub insert_export : GlobalExports → String → Export → GlobalExports
insert_export [] field export = (field, some export) ∷ []
insert_export ((n, x) ∷ exports) field export =
    let rest = insert_export exports field export in
    if str_eq n field then (n, none) ∷ exports else (n, x) ∷ rest

unfoldable pub lookup_global_export : GlobalExports → String → Option Export
lookup_global_export [] field = none
lookup_global_export ((n, x) ∷ exports) field =
    if str_eq n field then x else lookup_global_export exports field

unfoldable pub collect_exports :
    Instance → List (String × Module.Export) → GlobalExports → Option GlobalExports
collect_exports inst [] exports = some exports
collect_exports inst ((field, decl) ∷ decls) exports =
    Base.◌>>=◌ (lookup_by_declaration inst decl)
      (λ export. collect_exports inst decls (insert_export exports field export))

-- The last part: exports and the start function, which `call` runs. The exports stay if it traps.
unfoldable pub start_instance :
    (Target → Option ℕ)
    → Store
    → ℕ
    → GlobalExports
    → Outcome (InstantiationError × GlobalExports) GlobalExports
start_instance call s k exports = unwrap (s k) >>= λ inst.
    unwrap (collect_exports inst inst.module_.exports exports) >>= λ exports'.
    map_err (λ trap. (start_trap trap, exports')) (invoke_start_function call inst) >>= λ started.
    ok exports'

-- `InstanceHandle::new`: the address of the instance, the store and the map of exports. An error
-- comes with the store and the map that it leaves.
unfoldable pub new :
    Machine
    → (Target → Option ℕ)
    → Store
    → GlobalExports
    → Parts
    → Outcome (InstantiationError × (Store × GlobalExports)) (ℕ × (Store × GlobalExports))
new machine call s exports parts =
    map_err (λ why. (why, (s, exports))) (new_instance machine parts) >>= λ inst.
    map_err (λ e. (e.0, (e.1, exports))) (initialize_segments (put_instance s inst) inst.id parts)
    >>= λ written. unwrap (globals_at written inst.id) >>= λ ready.
        map_err (λ e. (e.0, (ready, e.1))) (start_instance call ready inst.id exports)
        >>= λ exports'. ok (inst.id, (ready, exports'))
