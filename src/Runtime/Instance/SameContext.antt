-- ===== src/Runtime/Instance/SameContext.antt =====
-- wasmtime-runtime/src/instance.rs: what an instance reads through its context does not depend on its
-- memories and tables.
use wasmtime.Base.{ℕ, ◌≡◌, refl, Option, none, some, ◌>>=◌, Option-cases, inl, inr, arith}
use wasmtime.Environ.Module.{defined_global_index}
use wasmtime.Runtime.VmContext
use wasmtime.Runtime.Instance.{Instance, Store}
use wasmtime.Runtime.Instance.Segments.{owner_bits, global_bits}

-- Two instances of one module with the same context.
pub record SameContext (a b : Instance) : Type 0 where
  pub id : b.id ≡ a.id
  pub module_ : b.module_ ≡ a.module_
  pub offsets : b.offsets ≡ a.offsets
  pub vmctx : b.vmctx ≡ a.vmctx

-- Every instance of a store is in the other, with the same context.
abbrev pub SameContexts : Store → Store → Type 0
SameContexts s s' =
    (j : ℕ) (a : Instance) → s j ≡ some a → (b : Instance) × (s' j ≡ some b) × SameContext a b

-- A chain that succeeds is two steps that succeed.
pub bind-some {ℓ κ} :
    {A : Type ℓ} {B : Type κ} (o : Option A) (f : A → Option B) {b : B}
    → (o >>= f) ≡ some b
    → (a : A) × (o ≡ some a) × (f a ≡ some b)
bind-some none f e = cc
bind-some (some a) f e = (a, refl, e)

pub global_bits-SameContexts :
    (s s' : Store) (a b : Instance) (i n : ℕ)
    → SameContexts s s'
    → SameContext a b
    → global_bits s a i ≡ some n
    → global_bits s' b i ≡ some n
global_bits-SameContexts s s' a b i n kept alike e =
    elim (Option-cases (defined_global_index a.module_ i)) [
      | inr (d, p) ↦
          let read : VmContext.global a.offsets a.vmctx d ≡ some n = ground arith in
          rw (global_bits, alike.module_, p, alike.offsets, alike.vmctx) read
      | inl p ↦
          let (import, q, r) =
            bind-some (VmContext.imported_global a.offsets a.vmctx i) (owner_bits s) {b = n}
              (ground arith) in
          let (owner, u, v) = bind-some (s import.from.context) _ r in
          let (owner', u', al) = kept import.from.context owner u in
          rw (global_bits, alike.module_, p, alike.offsets, alike.vmctx, q, u', al.vmctx) v
    ]
