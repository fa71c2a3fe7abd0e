-- ===== src/Runtime/Instance/Stores.antt =====
-- wasmtime-runtime/src/instance.rs: reading the store after an instance is written to it.
use wasmtime.Base.{ℕ, ◌≡◌, ◌≢◌, refl, some, ==_iff, ==-eq-false}
use wasmtime.Runtime.Instance.{Instance, Store, put_instance}

pub put_own :
    (s : Store) (inst : Instance) (k : ℕ) → inst.id ≡ k → put_instance s inst k ≡ some inst
unfolding put_instance
put_own s inst k e = rw (put_instance, e, (==_iff k k).1 refl) refl

pub put_other : (s : Store) (inst : Instance) (k : ℕ) → k ≢ inst.id → put_instance s inst k ≡ s k
unfolding put_instance
put_other s inst k n = rw (put_instance, ==-eq-false k inst.id n) refl
