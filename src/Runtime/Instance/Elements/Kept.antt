-- ===== src/Runtime/Instance/Elements/Kept.antt =====
-- wasmtime-runtime/src/instance.rs: where an element segment goes, and what its functions are written
-- as, does not depend on the contents of tables.
use wasmtime.Base.{
  ℕ, ◌≡◌, refl, ap, ◌∙◌, subst, Option, some, length, get_elem?, ◌>>=◌, Option-cases, inl, inr,
  arith,
}
use wasmtime.Environ.Module.{TableElements, defined_table_index, defined_func_index}
use wasmtime.Runtime.Table.{Anyfunc}
use wasmtime.Runtime.VmContext
use wasmtime.Runtime.Instance.{Instance, Store, table_index}
use wasmtime.Runtime.Instance.Growth.{some_injective}
use wasmtime.Runtime.Instance.SameContext.{
  SameContext, SameContexts, bind-some, global_bits-SameContexts,
}
use wasmtime.Runtime.Instance.Segments.{Target, global_bits}
use wasmtime.Runtime.Instance.Calls
use wasmtime.Runtime.Instance.Elements.{
  start_from, slice_of, foreign_table, get_table_init_start, get_table_slice, locate, locate_in,
  anyfunc, anyfunc_in,
}

abbrev pub table_size : Instance → ℕ → Option ℕ
table_size inst i = get_elem? inst.tables i >>= λ t. some (length t.vec)

-- Two instances that differ in the contents of their tables at most.
pub record Alike (a b : Instance) : Type 0 where
  pub same : SameContext a b
  pub memories : b.memories ≡ a.memories
  pub finished : b.finished_functions ≡ a.finished_functions
  pub count : length b.tables ≡ length a.tables
  pub sizes : (i : ℕ) → table_size b i ≡ table_size a i

pub Alike-refl : (a : Instance) → Alike a a
Alike-refl a = record {
  same = record { id = refl; module_ = refl; offsets = refl; vmctx = refl };
  memories = refl;
  finished = refl;
  count = refl;
  sizes = λ i. refl;
}

pub Alike-trans : (a b c : Instance) → Alike a b → Alike b c → Alike a c
Alike-trans a b c p q = record {
  same = record {
    id = q.same.id ∙ p.same.id;
    module_ = q.same.module_ ∙ p.same.module_;
    offsets = q.same.offsets ∙ p.same.offsets;
    vmctx = q.same.vmctx ∙ p.same.vmctx;
  };
  memories = q.memories ∙ p.memories;
  finished = q.finished ∙ p.finished;
  count = q.count ∙ p.count;
  sizes = λ i. q.sizes i ∙ p.sizes i;
}

-- Every instance of a store is in the other, alike.
abbrev pub Kept : Store → Store → Type 0
Kept s s' = (j : ℕ) (a : Instance) → s j ≡ some a → (b : Instance) × (s' j ≡ some b) × Alike a b

pub Kept-trans : (s s' s'' : Store) → Kept s s' → Kept s' s'' → Kept s s''
Kept-trans s s' s'' p q j a e =
    let (b, u, al) = p j a e in let (c, v, bl) = q j b u in (c, v, Alike-trans a b c al bl)

Kept-SameContexts : (s s' : Store) → Kept s s' → SameContexts s s'
Kept-SameContexts s s' kept j a e = let (b, p, alike) = kept j a e in (b, p, alike.same)

index-kept : (a b : Instance) → Alike a b → (at : ℕ) → table_index b at ≡ table_index a at
unfolding table_index
index-kept a b alike at = rw (alike.same.offsets, alike.count) refl

slice_of-kept :
    (a b : Instance)
    → Alike a b
    → (k : ℕ) (m : ℕ × (ℕ × ℕ)) → slice_of a k ≡ some m
    → slice_of b k ≡ some m
slice_of-kept a b alike k m e =
    let (t, p, q) = bind-some (get_elem? a.tables k) _ e in
    let size : table_size b k ≡ some (length t.vec) = alike.sizes k ∙ rw p refl in
    let (u, v, w) = bind-some (get_elem? b.tables k) _ size in
    rw (v, alike.same.id, some_injective w) q

module _ (s s' : Store) (kept : Kept s s') (a b : Instance) (alike : Alike a b) where
  start-kept :
      (init : TableElements) (n : ℕ)
      → get_table_init_start s a init ≡ some n
      → get_table_init_start s' b init ≡ some n
  start-kept init n e = elim (Option-cases init.base) [
    | inl p ↦ rw (get_table_init_start, p) (ground arith)
    | inr (base, p) ↦
        let (bits, q, r) =
          bind-some (global_bits s a base) (start_from init) {b = n} (ground arith) in
        rw
          (
            get_table_init_start,
            p,
            global_bits-SameContexts s s' a b base bits (Kept-SameContexts s s' kept) alike.same q,
          )
          r
  ]

  foreign-kept :
      (i k : ℕ) (f : Instance)
      → foreign_table s a i ≡ some (f, k)
      → (f' : Instance) × (foreign_table s' b i ≡ some (f', k)) × Alike f f'
  foreign-kept i k f e =
      let (import, q, r) = bind-some (VmContext.imported_table a.offsets a.vmctx i) _ e in
      let (g, u, v) = bind-some (s import.vmctx) _ r in
      let (at, w, z) = bind-some (table_index g import.from.offset) _ v in
      let (g', u', al) = kept import.vmctx g u in
      let same : (g, at) ≡ (f, k) = some_injective z in
      (
        g',
        rw (alike.same.offsets, alike.same.vmctx, q, u', index-kept g g' al import.from.offset, w)
            (ap (λ x. some (g', x.1)) same),
        subst (λ x. Alike x g') (ap (λ x. x.0) same) al,
      )

  slice-kept :
      (init : TableElements) (m : ℕ × (ℕ × ℕ))
      → get_table_slice s a init ≡ some m
      → get_table_slice s' b init ≡ some m
  slice-kept init m e = elim (Option-cases (defined_table_index a.module_ init.table_index)) [
    | inr (d, p) ↦
        let own : slice_of a d ≡ some m = ground arith in
        rw (get_table_slice, alike.same.module_, p) (slice_of-kept a b alike d m own)
    | inl p ↦
        let (f, q, r) =
          bind-some (foreign_table s a init.table_index) (λ f. slice_of f.0 f.1) {b = m}
            (ground arith) in
        let (f', u, al) = foreign-kept init.table_index f.1 f.0 q in
        rw (get_table_slice, alike.same.module_, p, u) (slice_of-kept f.0 f' al f.1 m r)
  ]

  locate_in-kept :
      (init : TableElements) (t : Target)
      → locate_in s init a ≡ some t
      → locate_in s' init b ≡ some t
  locate_in-kept init t e =
      let (start, p, q) = bind-some (get_table_init_start s a init) _ e in
      let (m, u, v) = bind-some (get_table_slice s a init) _ q in
      rw (start-kept init start p, slice-kept init m u) v

-- A store with the same instances, up to the contents of tables, has the same targets and functions.
pub locate-Kept :
    (s s' : Store) (k : ℕ) (init : TableElements) (t : Target)
    → Kept s s'
    → locate s k init ≡ some t
    → locate s' k init ≡ some t
unfolding locate
locate-Kept s s' k init t kept e =
    let (a, p, q) = bind-some (s k) (locate_in s init) e in
    let (b, u, al) = kept k a p in rw u (locate_in-kept s s' kept a b al init t q)

resolve-kept : (a b : Instance) → Alike a b → (i : ℕ) → Calls.resolve b i ≡ Calls.resolve a i
resolve-kept a b alike i = elim (Option-cases (defined_func_index a.module_ i)) [
  | inl p ↦ rw (Calls.resolve, alike.same.module_, p, alike.same.offsets, alike.same.vmctx) refl
  | inr (d, p) ↦ rw (Calls.resolve, alike.same.module_, p, alike.finished, alike.same.id) refl
]

anyfunc_in-kept : (a b : Instance) → Alike a b → (f : ℕ) → anyfunc_in f b ≡ anyfunc_in f a
anyfunc_in-kept a b alike f =
    rw
      (
        anyfunc_in,
        resolve-kept a b alike f,
        alike.same.module_,
        alike.same.offsets,
        alike.same.vmctx,
      )
      refl

pub anyfunc-Kept :
    (s s' : Store) (k f : ℕ) (x : Anyfunc)
    → Kept s s'
    → anyfunc s k f ≡ some x
    → anyfunc s' k f ≡ some x
unfolding anyfunc
anyfunc-Kept s s' k f x kept e =
    let (a, p, q) = bind-some (s k) (anyfunc_in f) e in
    let (b, u, al) = kept k a p in rw u (anyfunc_in-kept a b al f ∙ q)
