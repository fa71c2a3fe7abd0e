-- ===== src/Runtime/TrapRegistry/Lookup.antt =====
-- wasmtime-runtime/src/trap_registry.rs: what `get_trap` finds after each operation.
use wasmtime.Base.{ℕ, ◌≡◌, ◌≢◌, ◌↔◌, none, some, [], ◌∷◌, arith, ◌==◌, if◌then◌else◌}
use wasmtime.Runtime.TrapRegistry.{
  TrapRegistry, get_trap, remove, describe, register_trap, drop_guard,
}

pub get_trap-remove :
    (traps : TrapRegistry) (a b : ℕ)
    → get_trap (remove traps a) b ≡ (if a == b then none else get_trap traps b)
unfolding get_trap remove
get_trap-remove [] a b = ground arith
get_trap-remove ((c, d) ∷ traps) a b = ground (arith, get_trap-remove traps a b)

-- After a registration that succeeds, the address has the new description, and every other address
-- has the one that it had; the guard is the address.
pub get_trap-register_trap :
    (traps traps' : TrapRegistry) (a b loc code guard : ℕ)
    → register_trap traps a loc code ≡ some (guard, traps')
    → (guard ≡ a)
      × (get_trap traps' b ≡ (if a == b then some (describe loc code) else get_trap traps b))
unfolding register_trap get_trap
get_trap-register_trap traps traps' a b loc code guard e = ground arith

-- A registration panics exactly where the address has a trap already.
pub register_trap-none_iff :
    (traps : TrapRegistry) (a loc code : ℕ)
    → (register_trap traps a loc code ≡ none) ↔ (get_trap traps a ≢ none)
unfolding register_trap
register_trap-none_iff traps a loc code = (λ e. ground arith, λ n. ground arith)

register_trap_free :
    (traps traps' : TrapRegistry) (a loc code guard : ℕ)
    → register_trap traps a loc code ≡ some (guard, traps')
    → get_trap traps a ≡ none
unfolding register_trap
register_trap_free traps traps' a loc code guard e = ground arith

-- Between a registration and the drop of its guard the trap is there; the drop does not panic, and
-- after it every address has the description that it had before the registration.
pub guard_restores :
    (traps traps' : TrapRegistry) (a loc code guard : ℕ)
    → register_trap traps a loc code ≡ some (guard, traps')
    → (traps'' : TrapRegistry) × (get_trap traps' a ≡ some (describe loc code))
      × (drop_guard traps' guard ≡ some traps'')
      × ((b : ℕ) → get_trap traps'' b ≡ get_trap traps b)
unfolding drop_guard
guard_restores traps traps' a loc code guard e =
    let (same, there) = get_trap-register_trap traps traps' a a loc code guard e in
    let found : get_trap traps' a ≡ some (describe loc code) = ground (arith, there) in
    (
      remove traps' a,
      found,
      ground (arith, same, found),
      λ b. ground (
        arith,
        get_trap-remove traps' a b,
        get_trap-register_trap traps traps' a b loc code guard e,
        register_trap_free traps traps' a loc code guard e,
      ),
    )
