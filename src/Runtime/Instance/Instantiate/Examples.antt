-- ===== src/Runtime/Instance/Instantiate/Examples.antt =====
-- wasmtime-runtime/src/instance.rs: a module with a table, a memory and two functions, instantiated.
use wasmtime.Base.{subst, ℕ, ◌≡◌, refl, none, some, [], ◌∷◌, List, false, true, arith, sym, ◌∙◌}
use wasmtime.Base.Outcomes.{Outcome, ok, err, panic}
use wasmtime.Environ.Module
use wasmtime.Environ.Module.{Module, Signature, TableElements}
use wasmtime.Environ.VmOffsets.{VmOffsets}
use wasmtime.Environ.VmOffsets.Layout.{Fits, total, start, extent}
use wasmtime.Environ.Plan.{dynamic, func, caller_checks_signature}
use wasmtime.Runtime.Mmap.{Host}
use wasmtime.Runtime.VmContext.{Imports}
use wasmtime.Runtime.Instance.{Instance, Store}
use wasmtime.Runtime.Instance.Growth.{Synced}
use wasmtime.Runtime.Instance.Instantiate.{unwritten, Parts, Machine, new_instance}
use wasmtime.Runtime.Instance.Instantiate.Making.{GivenRoom}
use wasmtime.Runtime.Instance.Instantiate.Fresh.{new_instance-Synced}

abbrev host : ℕ → Host
host address = record { page_size = 4096; mapped = some address; protected = true }

abbrev machine : Machine
machine = record {
  addresses = λ k. 64;
  hosts = λ k. host 65536;
  host = host 4096;
  size_of_instance = 256;
  builtins = 1 ∷ (2 ∷ (3 ∷ (4 ∷ [])));
}

abbrev module_ : Module
module_ = record Module.new {
  signatures = record { name = 0; params = 1; returns = 0 } ∷ [];
  functions = 0 ∷ (0 ∷ []);
  table_plans =
      record {
        ty = func;
        limits = record { minimum = 2; maximum = none };
        style = caller_checks_signature;
      }
      ∷ [];
  memory_plans =
      record {
        memory = record { minimum = 1; maximum = some 2; shared = false };
        style = dynamic;
        offset_guard_size = 65536;
      }
      ∷ [];
}

abbrev parts : Parts
parts = record {
  module_ = module_;
  finished_functions = 4096 ∷ (8192 ∷ []);
  imports = record { dependencies = []; functions = []; tables = []; memories = []; globals = [] };
  data_initializers = [];
  vmshared_signatures = 5 ∷ [];
}

abbrev nothing : Instance
nothing = record {
  id = 0;
  refcount = 0;
  dependencies = [];
  module_ = Module.new;
  offsets = record {
    pointer_size = 8;
    num_signature_ids = 0;
    num_imported_functions = 0;
    num_imported_tables = 0;
    num_imported_memories = 0;
    num_imported_globals = 0;
    num_defined_tables = 0;
    num_defined_memories = 0;
    num_defined_globals = 0;
  };
  memories = [];
  tables = [];
  finished_functions = [];
  vmctx = λ i. unwritten;
}

abbrev instance_or_nothing : {E : Type 0} → Outcome E Instance → Instance
instance_or_nothing panic = nothing
instance_or_nothing (err e) = nothing
instance_or_nothing (ok inst) = inst

instantiated : Instance
instantiated = instance_or_nothing (new_instance machine parts)

created : new_instance machine parts ≡ ok instantiated
unfolding instantiated new_instance wasmtime.Runtime.Instance.create_tables
    wasmtime.Runtime.Table.new wasmtime.Runtime.Instance.create_memories wasmtime.Runtime.Memory.new
    wasmtime.Base.checked_mul_usize wasmtime.Base.checked_add_usize
    wasmtime.Runtime.Mmap.accessible_reserved wasmtime.Runtime.Mmap.make_accessible
    wasmtime.Runtime.Table.vmtable wasmtime.Base.try_u32 wasmtime.Runtime.Instance.create_globals
    wasmtime.Environ.VmOffsets.new wasmtime.Environ.VmOffsets.size_of_vmctx
    wasmtime.Environ.VmOffsets.vmctx_builtin_functions_begin
    wasmtime.Environ.VmOffsets.vmctx_globals_begin wasmtime.Environ.VmOffsets.vmctx_memories_begin
    wasmtime.Environ.VmOffsets.vmctx_tables_begin wasmtime.Base.checked_add
    wasmtime.Base.checked_mul wasmtime.Environ.VmOffsets.align
    wasmtime.Environ.VmOffsets.vmctx_imported_functions_begin
    wasmtime.Environ.VmOffsets.vmctx_imported_globals_begin
    wasmtime.Environ.VmOffsets.vmctx_imported_memories_begin
    wasmtime.Environ.VmOffsets.vmctx_imported_tables_begin
    wasmtime.Environ.VmOffsets.vmctx_signature_ids_begin wasmtime.Runtime.Mmap.round_up_to_page_size
    wasmtime.Runtime.Mmap.with_at_least wasmtime.Runtime.VmContext.copy_array
    wasmtime.Runtime.VmContext.fill_context wasmtime.Runtime.VmContext.write
created = refl

abbrev offsets : VmOffsets
offsets = record {
  pointer_size = 8;
  num_signature_ids = 1;
  num_imported_functions = 0;
  num_imported_tables = 0;
  num_imported_memories = 0;
  num_imported_globals = 0;
  num_defined_tables = 1;
  num_defined_memories = 1;
  num_defined_globals = 0;
}

its_offsets : instantiated.offsets ≡ offsets
unfolding instantiated new_instance wasmtime.Runtime.Instance.create_tables
    wasmtime.Runtime.Table.new wasmtime.Runtime.Instance.create_memories wasmtime.Runtime.Memory.new
    wasmtime.Base.checked_mul_usize wasmtime.Base.checked_add_usize
    wasmtime.Runtime.Mmap.accessible_reserved wasmtime.Runtime.Mmap.make_accessible
    wasmtime.Runtime.Table.vmtable wasmtime.Base.try_u32 wasmtime.Runtime.Instance.create_globals
    wasmtime.Environ.VmOffsets.new wasmtime.Environ.VmOffsets.size_of_vmctx
    wasmtime.Environ.VmOffsets.vmctx_builtin_functions_begin
    wasmtime.Environ.VmOffsets.vmctx_globals_begin wasmtime.Environ.VmOffsets.vmctx_memories_begin
    wasmtime.Environ.VmOffsets.vmctx_tables_begin wasmtime.Base.checked_add
    wasmtime.Base.checked_mul wasmtime.Environ.VmOffsets.align
    wasmtime.Environ.VmOffsets.vmctx_imported_functions_begin
    wasmtime.Environ.VmOffsets.vmctx_imported_globals_begin
    wasmtime.Environ.VmOffsets.vmctx_imported_memories_begin
    wasmtime.Environ.VmOffsets.vmctx_imported_tables_begin
    wasmtime.Environ.VmOffsets.vmctx_signature_ids_begin wasmtime.Runtime.Mmap.round_up_to_page_size
    wasmtime.Runtime.Mmap.with_at_least wasmtime.Runtime.VmContext.copy_array
    wasmtime.Runtime.VmContext.fill_context wasmtime.Runtime.VmContext.write
its_offsets = refl

offsets_fit : Fits offsets
unfolding total start extent
offsets_fit = omega arith

fits : Fits instantiated.offsets
fits = subst Fits (sym its_offsets) offsets_fit

room : GivenRoom machine parts
room = record {
  signatures = omega arith;
  functions = omega arith;
  tables = omega arith;
  memories = omega arith;
  globals = omega arith;
  builtins = omega arith;
}

new_instance-Synced_example : Synced instantiated
new_instance-Synced_example = new_instance-Synced machine parts instantiated room created fits
