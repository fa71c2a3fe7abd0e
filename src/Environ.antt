-- ===== src/Environ.antt =====
-- wasmtime-environ/src: the translated module, the plans for its memories and tables, and the
-- layout of the `VMContext` that compiled code reads.
pub mod Module
pub mod Plan
pub mod VmOffsets
pub mod Cache
pub mod Translation
