-- ===== src/Environ/Cache.antt =====
-- wasmtime-environ/src/cache: the settings of the code cache, and the choice of the files that the
-- cleanup deletes. Reading and writing the files is not modelled.
pub mod Config
pub mod Cleanup
