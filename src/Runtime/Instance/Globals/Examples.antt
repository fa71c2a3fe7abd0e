-- ===== src/Runtime/Instance/Globals/Examples.antt =====
-- wasmtime-runtime/src/instance.rs: an instance with an `i32` and an `f64` global.
use wasmtime.Base.{false, [], ◌∷◌, arith}
use wasmtime.Environ.Module
use wasmtime.Environ.Module.{Global, GlobalInit, i32_const, f64_const}
use wasmtime.Environ.VmOffsets.{VmOffsets}
use wasmtime.Environ.VmOffsets.Layout.{total, Fits, start, extent}
use wasmtime.Runtime.VmContext.{VmContext, write, global_definition}
use wasmtime.Runtime.Instance.{Instance}

abbrev constant : GlobalInit → Global
constant g = record { ty = 0; mutability = false; initializer = g }

abbrev offsets : VmOffsets
offsets = record {
  pointer_size = 8;
  num_signature_ids = 0;
  num_imported_functions = 0;
  num_imported_tables = 0;
  num_imported_memories = 0;
  num_imported_globals = 0;
  num_defined_tables = 0;
  num_defined_memories = 0;
  num_defined_globals = 2;
}

fits : Fits offsets
unfolding total start extent
fits = omega arith

abbrev zeroed : VmContext
zeroed = λ i. global_definition 0

abbrev fresh : Instance
fresh = record {
  id = 7;
  refcount = 1;
  dependencies = [];
  module_ = record Module.new { globals = constant (i32_const 7) ∷ constant (f64_const 9) ∷ [] };
  offsets = offsets;
  memories = [];
  tables = [];
  finished_functions = [];
  vmctx = zeroed;
}

abbrev initialized : Instance
initialized = record fresh {
  vmctx = write (write zeroed 0 (global_definition 7)) 16 (global_definition 9);
}
