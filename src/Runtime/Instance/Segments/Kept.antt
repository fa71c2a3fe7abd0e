-- ===== src/Runtime/Instance/Segments/Kept.antt =====
-- wasmtime-runtime/src/instance.rs: where a data segment goes does not depend on the contents of
-- memories.
use wasmtime.Base.{
  ℕ, ◌≡◌, refl, ap, ◌∙◌, subst, some, List, length, length-set, get_elem?, Option-cases, inl, inr,
  arith,
}
use wasmtime.Environ.Module.{defined_memory_index}
use wasmtime.Runtime.Memory.{LinearMemory}
use wasmtime.Runtime.VmContext
use wasmtime.Runtime.VmContext.{VmContext}
use wasmtime.Runtime.Instance.{Instance, Store, foreign_memory, memory_index}
use wasmtime.Runtime.Instance.Growth.{some_injective}
use wasmtime.Runtime.Instance.SameContext.{
  SameContext, SameContexts, bind-some, global_bits-SameContexts,
}
use wasmtime.Runtime.Instance.Segments.{
  start_from, slice_of, DataInitializer, Target, global_bits, get_memory_init_start,
  get_memory_slice, locate, locate_in, fill, fill_nth,
}

-- Two instances that differ in the contents of their memories at most.
pub record Alike (a b : Instance) : Type 0 where
  pub id : b.id ≡ a.id
  pub module_ : b.module_ ≡ a.module_
  pub offsets : b.offsets ≡ a.offsets
  pub vmctx : b.vmctx ≡ a.vmctx
  pub count : length b.memories ≡ length a.memories

pub Alike-refl : (a : Instance) → Alike a a
Alike-refl a = record { id = refl; module_ = refl; offsets = refl; vmctx = refl; count = refl }

-- A store in which every instance is at its own address.
abbrev pub Addressed : Store → Type 0
Addressed s = (j : ℕ) (a : Instance) → s j ≡ some a → a.id ≡ j

-- Every instance of a store is in the other, alike.
abbrev pub Kept : Store → Store → Type 0
Kept s s' = (j : ℕ) (a : Instance) → s j ≡ some a → (b : Instance) × (s' j ≡ some b) × Alike a b

pub Alike-SameContext : (a b : Instance) → Alike a b → SameContext a b
Alike-SameContext a b alike = record {
  id = alike.id;
  module_ = alike.module_;
  offsets = alike.offsets;
  vmctx = alike.vmctx;
}

Kept-SameContexts : (s s' : Store) → Kept s s' → SameContexts s s'
Kept-SameContexts s s' kept j a e =
    let (b, p, alike) = kept j a e in (b, p, Alike-SameContext a b alike)

index-kept : (a b : Instance) → Alike a b → (at : ℕ) → memory_index b at ≡ memory_index a at
unfolding memory_index
index-kept a b alike at = rw (alike.offsets, alike.count) refl

slice_of-kept : (a b : Instance) → Alike a b → (k : ℕ) → slice_of b k ≡ slice_of a k
slice_of-kept a b alike k = rw (alike.offsets, alike.vmctx, alike.id) refl

module _ (s s' : Store) (kept : Kept s s') (a b : Instance) (alike : Alike a b) where
  bits-kept : (i n : ℕ) → global_bits s a i ≡ some n → global_bits s' b i ≡ some n
  bits-kept i n e =
      global_bits-SameContexts s s' a b i n (Kept-SameContexts s s' kept)
        (Alike-SameContext a b alike) e

  start-kept :
      (init : DataInitializer) (n : ℕ)
      → get_memory_init_start s a init ≡ some n
      → get_memory_init_start s' b init ≡ some n
  start-kept init n e = elim (Option-cases init.base) [
    | inl p ↦ rw (get_memory_init_start, p) (ground arith)
    | inr (base, p) ↦
        let (bits, q, r) =
          bind-some (global_bits s a base) (start_from init) {b = n} (ground arith) in
        rw (get_memory_init_start, p, bits-kept base bits q) r
  ]

  foreign-kept :
      (i k : ℕ) (f : Instance)
      → foreign_memory s a i ≡ some (f, k)
      → (f' : Instance) × (foreign_memory s' b i ≡ some (f', k)) × Alike f f'
  foreign-kept i k f e =
      let (import, q, r) = bind-some (VmContext.imported_memory a.offsets a.vmctx i) _ e in
      let (g, u, v) = bind-some (s import.vmctx) _ r in
      let (at, w, z) = bind-some (memory_index g import.from.offset) _ v in
      let (g', u', al) = kept import.vmctx g u in
      let same : (g, at) ≡ (f, k) = some_injective z in
      (
        g',
        rw (alike.offsets, alike.vmctx, q, u', index-kept g g' al import.from.offset, w)
            (ap (λ x. some (g', x.1)) same),
        subst (λ x. Alike x g') (ap (λ x. x.0) same) al,
      )

  slice-kept :
      (init : DataInitializer) (m : ℕ × (ℕ × ℕ))
      → get_memory_slice s a init ≡ some m
      → get_memory_slice s' b init ≡ some m
  slice-kept init m e = elim (Option-cases (defined_memory_index a.module_ init.memory_index)) [
    | inr (d, p) ↦
        let own : slice_of a d ≡ some m = ground arith in
        rw (get_memory_slice, alike.module_, p) (slice_of-kept a b alike d ∙ own)
    | inl p ↦
        let (f, q, r) =
          bind-some (foreign_memory s a init.memory_index) (λ f. slice_of f.0 f.1) {b = m}
            (ground arith) in
        let (f', u, al) = foreign-kept init.memory_index f.1 f.0 q in
        rw (get_memory_slice, alike.module_, p, u) (slice_of-kept f.0 f' al f.1 ∙ r)
  ]

  locate_in-kept :
      (init : DataInitializer) (t : Target)
      → locate_in s init a ≡ some t
      → locate_in s' init b ≡ some t
  locate_in-kept init t e =
      let (start, p, q) = bind-some (get_memory_init_start s a init) _ e in
      let (m, u, v) = bind-some (get_memory_slice s a init) _ q in
      rw (start-kept init start p, slice-kept init m u) v

-- A store with the same instances, up to the contents of memories, has the same targets.
pub locate-Kept :
    (s s' : Store) (k : ℕ) (init : DataInitializer) (t : Target)
    → Kept s s'
    → locate s k init ≡ some t
    → locate s' k init ≡ some t
unfolding locate
locate-Kept s s' k init t kept e =
    let (a, p, q) = bind-some (s k) (locate_in s init) e in
    let (b, u, al) = kept k a p in rw u (locate_in-kept s s' kept a b al init t q)

pub fill_nth-length :
    (ms : List LinearMemory) (k start : ℕ) (bytes : List ℕ)
    → length (fill_nth ms k start bytes) ≡ length ms
fill_nth-length ms k start bytes = elim (Option-cases (get_elem? ms k)) [
  | inl p ↦ rw (fill_nth, p) refl
  | inr (m, p) ↦ rw (fill_nth, p) (length-set ms k (fill m start bytes))
]
