-- ===== src/Lib.antt =====
-- A model of the core of the wasmtime runtime, and what is proved of it.
--
-- The program compiles a WebAssembly module and runs it. Compiled code gets a pointer to a
-- `VMContext`, a block of bytes behind an `Instance`, and reads at fixed offsets of it the imports,
-- the tables, the memories and the globals. The library follows that path:
--
-- - Environ.Module and Environ.Plan: wasmtime-environ/src/module.rs and tunables.rs. The module with
--   its index spaces, `MemoryPlan`, `TablePlan`, `Tunables`.
-- - Environ.Translation: wasmtime-environ/src/module_environ.rs. The calls by which the reader of a
--   module fills its `ModuleTranslation`; the sequence of calls is an argument.
-- - Environ.VmOffsets: wasmtime-environ/src/vmoffsets.rs. `VMOffsets` and all its functions; Fields
--   has the functions that take an index. Layout describes the same layout in unbounded numbers, and
--   Bounds shows that the code agrees with it where the context fits `u32` offsets.
-- - Environ.Cache: wasmtime-environ/src/cache. Config has the settings of the code cache and their
--   validation (config.rs), Cleanup the choice of the files that a cleanup removes (worker.rs).
-- - Runtime.Mmap: wasmtime-runtime/src/mmap.rs, the Unix code. `Mmap` with the rights and the
--   contents of its bytes.
-- - Runtime.Memory: wasmtime-runtime/src/memory.rs. `LinearMemory::{new, size, grow, vmmemory}` over a
--   mapping; Valid has the invariant.
-- - Runtime.Table: wasmtime-runtime/src/table.rs. `Table` as a list of elements.
-- - Runtime.SignatureRegistry and Runtime.TrapRegistry: wasmtime-runtime/src/sig_registry.rs and
--   trap_registry.rs, with the hash maps as association lists.
-- - Runtime.VmContext: wasmtime-runtime/src/vmcontext.rs and the accessors of instance.rs. A context
--   maps the offset at which a struct starts to the struct; that no two structs overlap is a theorem
--   about the offsets and the sizes.
-- - Runtime.Instance: wasmtime-runtime/src/instance.rs. `Instance`, and the store of all instances by
--   address, as memory imports point into the context of another one. Instance/Calls has exports, the
--   start function and reference counts; Instance/Elements has the table segments, Instance/Segments
--   the data segments, and Instance/Globals the initial values of globals. Instance/Instantiate puts
--   them together as `InstanceHandle::new`, with the map of global exports.
-- - Jit.CodeMemory: wasmtime-jit/src/code_memory.rs. Memory for compiled code; a block is named by the
--   mapping it lies in, its start and its length.
-- - Jit.Namespace: wasmtime-jit/src/namespace.rs. Names to instances, the resolver of imports.
-- - Jit.Link: wasmtime-jit/src/link.rs. `link_module` takes a resolver and gives the imports that
--   Instance/Instantiate copies into the context; Link/Fits says what an import asks of an export.
--   Link/Relocate patches the code that CodeMemory holds, and Link/Places says where and with what.
-- - Debug.AddressTransform: wasmtime-debug/src/transform/address_transform.rs. Build makes the ranges
--   of source positions and their index, Iterators and Translate look addresses up in it.
--   Debug.Search is the binary search of Rust's slices, with its contract.
-- - Base: shared names, lists on native numbers, words, and results that may be errors or panics.
--
-- Conventions. A panic is a value: `none` of an option or `panic` of an `Outcome`, which also has
-- the errors. Arithmetic is that of a release build on a 64-bit host: checked operations as
-- written, unchecked ones modulo 2 ^ 32 or 2 ^ 64, written out where they can wrap. Loops are
-- structural recursion over lists, but for two. The binary search runs on as much fuel as the list
-- is long. The loop of `TransformRangeEndIter::next` may not end: its fuel is an argument, and a
-- run that is out of fuel is a result of its own.
--
-- Parameters. What the operating system answers (`Host`: page size, address, success) and the
-- address of a vector after an operation are arguments. The equality of signatures is an argument.
-- A call of compiled code is an argument of `invoke_function`, and what it does to the store is not
-- modelled. The linker takes the answers of its resolver and the addresses of the runtime's
-- functions, the translation of ranges the order in which a hash map is drained. The configuration
-- of the cache takes what the file system says of its directory, and the cleanup the sorted list of
-- files. `Machine` collects what an instantiation gets from the system. A theorem about pages asks
-- for a page size that is a power of two, and one about memories for a whole number of host pages
-- to a wasm page.
--
-- Not modelled: the code generators and their glue, the files of the code cache, the rewriting of
-- DWARF, WASI, the embedding interface, signal handlers, Windows mappings and relocations, the
-- global locks, and the reference counts that linking changes.
pub mod Base
pub mod Environ
pub mod Runtime
pub mod Jit
pub mod Debug
