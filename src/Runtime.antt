-- ===== src/Runtime.antt =====
-- wasmtime-runtime/src: mappings, linear memories, tables, registries, and the instances that own
-- them.
pub mod Mmap
pub mod Memory
pub mod Table
pub mod SignatureRegistry
pub mod TrapRegistry
pub mod VmContext
pub mod Instance
