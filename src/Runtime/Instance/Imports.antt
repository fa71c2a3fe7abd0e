-- ===== src/Runtime/Instance/Imports.antt =====
-- wasmtime-runtime/src/instance.rs: memories that another instance exports and this one imports.
use wasmtime.Base.{
  ℕ, ◌<◌, ◌≡◌, ◌≢◌, inl, inr, refl, sym, ap, ◌∙◌, Option, none, some, length, get_elem?, arith,
  ◌>>=◌, Option-cases,
}
use wasmtime.Environ.VmOffsets.Layout.{memories, slot}
use wasmtime.Runtime.Mmap.{Host}
use wasmtime.Runtime.VmContext
use wasmtime.Runtime.VmContext.{
  Cell, VmContext, write, size_of, memory_definition, table_definition,
}
use wasmtime.Runtime.Instance.{Instance, memory_grow}
use wasmtime.Environ.Module
use wasmtime.Environ.Module.{defined_memory_index}
use wasmtime.Environ.Plan.{MemoryPlan}
use wasmtime.Runtime.VmContext.{ContextPtr, VmMemoryImport, memory_import}
use wasmtime.Runtime.Instance.{
  Store, foreign_memory, put_instance, imported_memory_grow, imported_memory_size, memory_size,
}
use wasmtime.Runtime.Instance.Pointers.{memory_index-slot}
use wasmtime.Runtime.Instance.Stores.{put_own, put_other}
use wasmtime.Runtime.Instance.Growth.{Synced, memory_grow-Synced, memory_grow-steps, some_injective}
use wasmtime.Runtime.Instance.Calls.{memory, lookup_by_declaration}

-- An import that holds what a lookup of an exported memory returned.
pub record Linked (s : Store) (inst foreign : Instance) (index exported : ℕ) : Type 0 where
  pub import : VmMemoryImport
  pub plan : MemoryPlan
  pub held : VmContext.imported_memory inst.offsets inst.vmctx index ≡ some import
  pub found :
      lookup_by_declaration foreign (Module.memory exported)
      ≡ some (memory import.from import.vmctx plan)
  pub stored : s foreign.id ≡ some foreign

-- What a lookup returns for a memory that the instance defines.
exported_memory :
    (foreign : Instance) (exported defined : ℕ) (from : ContextPtr) (vmctx : ℕ) (plan : MemoryPlan)
    → defined_memory_index foreign.module_ exported ≡ some defined
    → lookup_by_declaration foreign (Module.memory exported) ≡ some (memory from vmctx plan)
    → (vmctx ≡ foreign.id) × (slot foreign.offsets memories defined ≡ some from.offset)
unfolding lookup_by_declaration
exported_memory foreign exported defined from vmctx plan d e =
    elim (Option-cases (get_elem? foreign.module_.memory_plans exported)) [
      | inl n ↦ absurd (ground arith)
      | inr (q, p) ↦ elim (Option-cases (slot foreign.offsets memories defined)) [
        | inl n ↦ absurd (ground arith)
        | inr (at, w) ↦
            let same : memory (record { context = foreign.id; offset = at }) foreign.id q
                ≡ memory from vmctx plan =
              ground arith in
            (ground arith, ground arith)
      ]
    ]

-- A linked import leads back to the memory that was exported.
Linked-memory :
    (s : Store) (inst foreign : Instance) (index exported defined : ℕ)
    → Linked s inst foreign index exported
    → Synced foreign
    → defined_memory_index foreign.module_ exported ≡ some defined
    → defined < length foreign.memories
    → foreign_memory s inst index ≡ some (foreign, defined)
Linked-memory s inst foreign index exported defined l v d k =
    let (own, at) =
      exported_memory foreign exported defined l.import.from l.import.vmctx l.plan d l.found in
    let known : s l.import.vmctx ≡ some foreign = ap s own ∙ l.stored in
    rw
      (
        l.held,
        known,
        memory_index-slot foreign defined l.import.from.offset v.fits v.eight v.memory_slots k at,
      )
      refl

-- Through an import that was linked to a memory which another instance, kept in step, defines and
-- exports, that memory's size is read.
pub imported_memory_size_lem :
    (s : Store) (inst foreign : Instance) (index exported defined : ℕ)
    → Linked s inst foreign index exported
    → Synced foreign
    → defined_memory_index foreign.module_ exported ≡ some defined
    → defined < length foreign.memories
    → imported_memory_size s inst index ≡ memory_size foreign defined
unfolding imported_memory_size
imported_memory_size_lem s inst foreign index exported defined l v d k =
    ap (λ r. r >>= λ f. memory_size f.0 f.1)
      (Linked-memory s inst foreign index exported defined l v d k)

abbrev stored_growth : Store → Option ℕ × Instance → Option (Option ℕ × Store)
stored_growth s r = some (r.0, put_instance s r.1)

-- A growth whose instance is put in the store.
put_back :
    (s s' : Store) (o : Option (Option ℕ × Instance)) (result : Option ℕ)
    → (o >>= stored_growth s) ≡ some (result, s')
    → (inst : Instance) × (o ≡ some (result, inst)) × (s' ≡ put_instance s inst)
put_back s s' none result e = cc
put_back s s' (some (r, inst)) result e =
    let p : (r, put_instance s inst) ≡ (result, s') = some_injective e in
    (inst, ap (λ x. some (x.0, inst)) p, sym (ap (λ x. x.1) p))

-- Take an import that holds what a lookup of another instance's export returned, for a memory which
-- that instance, in step with its context, defines. An `imported_memory_grow` through it that
-- returns is a `memory_grow` of that memory in that instance, which is put back in the store and is
-- still in step; no other instance of the store changes.
pub imported_memory_grow_lem :
    (h : Host) (s s' : Store) (inst foreign : Instance) (index exported defined delta : ℕ)
    (result : Option ℕ)
    → Linked s inst foreign index exported
    → Synced foreign
    → defined_memory_index foreign.module_ exported ≡ some defined
    → defined < length foreign.memories
    → imported_memory_grow h s inst index delta ≡ some (result, s')
    → (foreign' : Instance) × (memory_grow h foreign defined delta ≡ some (result, foreign'))
      × (s' foreign.id ≡ some foreign')
      × Synced foreign'
      × ((k : ℕ) → k ≢ foreign.id → s' k ≡ s k)
unfolding imported_memory_grow
imported_memory_grow_lem h s s' inst foreign index exported defined delta result l v d k e =
    let through = Linked-memory s inst foreign index exported defined l v d k in
    let (foreign', g, at) =
      put_back s s' (memory_grow h foreign defined delta) result
        (sym (ap (λ r. r >>= λ f. memory_grow h f.0 f.1 delta >>= stored_growth s) through) ∙ e) in
    let (_, _, _, _, _, _, shape) = memory_grow-steps h foreign foreign' defined delta result g in
    let same : foreign'.id ≡ foreign.id = ap (λ x. x.id) shape in
    (
      foreign',
      g,
      ap (λ x. x foreign.id) at ∙ put_own s foreign' foreign.id same,
      memory_grow-Synced h foreign foreign' defined delta result v g,
      λ j n. ap (λ x. x j) at ∙ put_other s foreign' j (λ c. n (c ∙ same)),
    )
