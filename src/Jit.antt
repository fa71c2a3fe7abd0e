-- ===== src/Jit.antt =====
-- wasmtime-jit: the memory that holds compiled code.
pub mod CodeMemory
pub mod Namespace
pub mod Link
