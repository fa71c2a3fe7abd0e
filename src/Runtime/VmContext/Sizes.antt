-- ===== src/Runtime/VmContext/Sizes.antt =====
-- wasmtime-runtime/src/vmcontext.rs: the structs have the sizes that wasmtime-environ/src/vmoffsets.rs
-- computes for a 64-bit host.
use wasmtime.Base.{◌≡◌, ◌≢◌, refl, arith}
use wasmtime.Environ.VmOffsets.{VmOffsets}
use wasmtime.Environ.VmOffsets.Layout.{
  Region, signature_ids, imported_functions, imported_tables, imported_memories, imported_globals,
  tables, memories, globals, builtin_functions, size,
}
use wasmtime.Runtime.VmContext.{size_of}

-- With pointers of eight bytes, every struct has the size that the offsets are computed with.
pub size_of-eq-size : (o : VmOffsets) (r : Region) → o.pointer_size ≡ 8 → size o r ≡ size_of r
size_of-eq-size o signature_ids e = refl
size_of-eq-size o imported_functions e = rw e refl
size_of-eq-size o imported_tables e = rw e refl
size_of-eq-size o imported_memories e = rw e refl
size_of-eq-size o imported_globals e = rw e refl
size_of-eq-size o tables e = rw e refl
size_of-eq-size o memories e = rw e refl
size_of-eq-size o globals e = refl
size_of-eq-size o builtin_functions e = e

pub size_of-ne-0 : (r : Region) → size_of r ≢ 0
size_of-ne-0 signature_ids = λ e. omega arith
size_of-ne-0 imported_functions = λ e. omega arith
size_of-ne-0 imported_tables = λ e. omega arith
size_of-ne-0 imported_memories = λ e. omega arith
size_of-ne-0 imported_globals = λ e. omega arith
size_of-ne-0 tables = λ e. omega arith
size_of-ne-0 memories = λ e. omega arith
size_of-ne-0 globals = λ e. omega arith
size_of-ne-0 builtin_functions = λ e. omega arith
