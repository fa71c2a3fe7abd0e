-- ===== src/Runtime/Instance/Globals.antt =====
-- wasmtime-runtime/src/instance.rs: the initial values of the globals that a module defines; the
-- typed views of a global's 16 bytes are those of vmcontext.rs.
pub mod Initial
mod Examples
use wasmtime.Base.{
  ℕ, ◌+◌, ◌*◌, ◌/◌, ◌%◌, ◌^◌, Option, none, some, List, [], ◌∷◌, length, drop, ◌>>=◌,
}
use wasmtime.Environ.Module.{
  defined_global_index, Global, GlobalInit, i32_const, i64_const, f32_const, f64_const, v128_const,
  get_global, import,
}
use wasmtime.Runtime.VmContext
use wasmtime.Runtime.Instance.{Instance, Store, put_instance}
use wasmtime.Runtime.Instance.Segments.{global_bits}

-- A write through `as_i32_mut` and its like: the low bytes are replaced, the others stay.
abbrev pub store_low : ℕ → ℕ → ℕ → ℕ
store_low modulus bits x = bits / modulus * modulus + x % modulus

-- The bytes of a global after its initializer ran; an import among the defined globals is a panic.
abbrev pub init_bits : Store → Instance → ℕ → GlobalInit → Option ℕ
init_bits s inst bits (i32_const x) = some (store_low (2 ^ 32) bits x)
init_bits s inst bits (i64_const x) = some (store_low (2 ^ 64) bits x)
init_bits s inst bits (f32_const x) = some (store_low (2 ^ 32) bits x)
init_bits s inst bits (f64_const x) = some (store_low (2 ^ 64) bits x)
init_bits s inst bits (v128_const x) = some (store_low (2 ^ 128) bits x)
init_bits s inst bits (get_global x) = global_bits s inst x
init_bits s inst bits import = none

-- One turn of the loop of `initialize_globals`, for the global at an index.
abbrev pub initialize_global : Store → Instance → ℕ → GlobalInit → Option Instance
initialize_global s inst index g = do
  defined ← defined_global_index inst.module_ index
  bits ← VmContext.global inst.offsets inst.vmctx defined
  new ← init_bits (put_instance s inst) inst bits g
  vmctx ← VmContext.global_mut inst.offsets inst.vmctx defined new
  some (record inst { vmctx = vmctx })

unfoldable pub initialize_from : Store → Instance → ℕ → List GlobalInit → Option Instance
initialize_from s inst index [] = some inst
initialize_from s inst index (g ∷ gs) =
    initialize_global s inst index g >>= λ next. initialize_from s next (index + 1) gs

abbrev pub initializers : List Global → List GlobalInit
initializers [] = []
initializers (g ∷ gs) = g.initializer ∷ initializers gs

-- `initialize_globals`; the store holds the other instances.
unfoldable pub initialize_globals : Store → Instance → Option Instance
initialize_globals s inst =
    initialize_from s inst (length inst.module_.imported_globals)
      (initializers (drop (length inst.module_.imported_globals) inst.module_.globals))
