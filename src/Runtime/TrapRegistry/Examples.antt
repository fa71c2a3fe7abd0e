-- ===== src/Runtime/TrapRegistry/Examples.antt =====
-- wasmtime-runtime/src/trap_registry.rs: two traps, one of them dropped again.
use wasmtime.Base.{ℕ, ◌≡◌, refl, some, [], ◌∷◌}
use wasmtime.Runtime.TrapRegistry.{TrapRegistry, get_trap, describe, register_trap, drop_guard}
use wasmtime.Runtime.TrapRegistry.Lookup.{guard_restores}

abbrev one_trap : TrapRegistry
one_trap = (64, describe 3 1) ∷ []

abbrev two_traps : TrapRegistry
two_traps = (80, describe 9 2) ∷ one_trap

guard_restores_example :
    (traps : TrapRegistry) × (get_trap two_traps 80 ≡ some (describe 9 2))
    × (drop_guard two_traps 80 ≡ some traps)
    × ((b : ℕ) → get_trap traps b ≡ get_trap one_trap b)
unfolding register_trap get_trap
guard_restores_example = guard_restores one_trap two_traps 80 9 2 80 refl
