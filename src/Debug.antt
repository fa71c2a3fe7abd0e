-- ===== src/Debug.antt =====
-- wasmtime-debug/src/transform: the translation of source addresses to addresses of compiled code.
pub mod Search
pub mod AddressTransform
