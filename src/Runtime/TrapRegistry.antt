-- ===== src/Runtime/TrapRegistry.antt =====
-- wasmtime-runtime/src/trap_registry.rs: descriptions of traps by code address. The hash map is an
-- association list whose first entry for an address counts; `none` is a panic.
pub mod Lookup
mod Examples
use wasmtime.Base.{ℕ, Option, none, some, Bool, List, [], ◌∷◌, ◌==◌, if◌then◌else◌}

pub record TrapDescription : Type 0 where
  pub source_loc : ℕ
  pub trap_code : ℕ

abbrev pub TrapRegistry : Type 0
TrapRegistry = List (ℕ × TrapDescription)

-- `TrapRegistry::get_trap`
pub get_trap : TrapRegistry → ℕ → Option TrapDescription
get_trap [] address = none
get_trap ((a, d) ∷ traps) address = if a == address then some d else get_trap traps address

pub remove : TrapRegistry → ℕ → TrapRegistry
remove [] address = []
remove ((a, d) ∷ traps) address =
    let rest = remove traps address in if a == address then rest else (a, d) ∷ rest

abbrev pub describe : ℕ → ℕ → TrapDescription
describe source_loc trap_code = record { source_loc = source_loc; trap_code = trap_code }

-- `TrapRegistry::register_trap`; the guard that it returns is the address.
pub register_trap : TrapRegistry → ℕ → ℕ → ℕ → Option (ℕ × TrapRegistry)
register_trap traps address source_loc trap_code = elim (get_trap traps address) [
  | none ↦ some (address, (address, describe source_loc trap_code) ∷ traps)
  | some previous ↦ none
]

-- `TrapRegistry::deregister_trap`
pub deregister_trap : TrapRegistry → ℕ → Option TrapRegistry
deregister_trap traps address = elim (get_trap traps address) [
  | none ↦ none
  | some removed ↦ some (remove traps address)
]

-- Dropping a guard.
pub drop_guard : TrapRegistry → ℕ → Option TrapRegistry
unfolding deregister_trap
drop_guard traps guard = deregister_trap traps guard
