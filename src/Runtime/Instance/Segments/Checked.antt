-- ===== src/Runtime/Instance/Segments/Checked.antt =====
-- wasmtime-runtime/src/instance.rs: data segments that passed the check are written without a panic.
use wasmtime.Base.{
  ℕ, ◌≡◌, refl, sym, ap, ◌∙◌, subst, true, some, List, [], ◌∷◌, length, Option-cases, Bool-cases,
  inl, inr, ℕ_discrete, arith,
}
use wasmtime.Base.Outcomes.{ok}
use wasmtime.Runtime.Instance.{Instance, Store, put_instance}
use wasmtime.Runtime.Instance.Growth.{some_injective}
use wasmtime.Runtime.Instance.Stores.{put_own, put_other}
use wasmtime.Runtime.Instance.Segments.{
  DataInitializer, Target, in_range, locate, check_memory_init_bounds, initialize_memories,
  write_segment,
}
use wasmtime.Runtime.Instance.Segments.Written.{
  byte_at, in_memory, in_segment, overlaid, under, under-none, under-over, filled, filled-Alike,
  write_segment-none, write_segment-some, write_segment-in_memory,
}
use wasmtime.Runtime.Instance.Segments.Kept.{Alike, Alike-refl, Addressed, Kept, locate-Kept}

-- Writing a segment keeps the instances, up to the contents of memories.
write_segment-Kept :
    (s : Store) (t : Target) (bytes : List ℕ) → Addressed s → Kept s (write_segment s t bytes)
write_segment-Kept s t bytes at j a e = elim (Option-cases (s t.owner)) [
  | inl p ↦ (a, ap (λ (x : Store). x j) (write_segment-none s t bytes p) ∙ e, Alike-refl a)
  | inr (o, p) ↦
      let written = ap (λ (x : Store). x j) (write_segment-some s t bytes o p) in
      elim (ℕ_discrete j o.id) [
        | yes own ↦
            let same : o ≡ a = some_injective (sym p ∙ ap s (sym (own ∙ at t.owner o p)) ∙ e) in
            (
              filled o t bytes,
              written ∙ put_own s (filled o t bytes) j (sym own),
              subst (λ x. Alike x (filled o t bytes)) same (filled-Alike o t bytes),
            )
        | no other ↦ (a, written ∙ put_other s (filled o t bytes) j other ∙ e, Alike-refl a)
      ]
]

pub put_instance-Addressed :
    (s : Store) (inst : Instance) → Addressed s → Addressed (put_instance s inst)
put_instance-Addressed s inst at j a e = elim (ℕ_discrete j inst.id) [
  | yes own ↦
      let same : inst ≡ a = some_injective (sym (put_own s inst j (sym own)) ∙ e) in
      sym (ap (λ x. x.id) same) ∙ sym own
  | no other ↦ at j a (sym (put_other s inst j other) ∙ e)
]

write_segment-Addressed :
    (s : Store) (t : Target) (bytes : List ℕ) → Addressed s → Addressed (write_segment s t bytes)
write_segment-Addressed s t bytes at = elim (Option-cases (s t.owner)) [
  | inl p ↦ subst Addressed (sym (write_segment-none s t bytes p)) at
  | inr (o, p) ↦
      subst Addressed (sym (write_segment-some s t bytes o p))
        (put_instance-Addressed s (filled o t bytes) at)
]

Kept-trans : (s s' s'' : Store) → Kept s s' → Kept s' s'' → Kept s s''
Kept-trans s s' s'' p q j a e =
    let (b, u, al) = p j a e in
    let (c, v, bl) = q j b u in
    (
      c,
      v,
      record {
        id = bl.id ∙ al.id;
        module_ = bl.module_ ∙ al.module_;
        offsets = bl.offsets ∙ al.offsets;
        vmctx = bl.vmctx ∙ al.vmctx;
        count = bl.count ∙ al.count;
      },
    )

-- A check that passes, by its first segment and the others.
checked_once :
    (s : Store) (k : ℕ) (init : DataInitializer) (inits : List DataInitializer)
    → check_memory_init_bounds s k (init ∷ inits) ≡ ok tt
    → (t : Target) × (locate s k init ≡ some t)
      × (in_range t.start (length init.contents) t.size ≡ true)
      × (check_memory_init_bounds s k inits ≡ ok tt)
unfolding check_memory_init_bounds
checked_once s k init inits e = elim (Option-cases (locate s k init)) [
  | inl p ↦ absurd (ground arith)
  | inr (t, p) ↦ elim (Bool-cases (in_range t.start (length init.contents) t.size)) [
    | inl r ↦ (t, p, r, ground arith)
    | inr r ↦ absurd (ground arith)
  ]
]

-- Every instance of a store is in the other, with the same tables.
abbrev pub SameTables : Store → Store → Type 0
SameTables s s' =
    (j : ℕ) (a : Instance) → s j ≡ some a → (b : Instance) × (s' j ≡ some b) × (b.tables ≡ a.tables)

write_segment-SameTables :
    (s : Store) (t : Target) (bytes : List ℕ) → Addressed s → SameTables s (write_segment s t bytes)
write_segment-SameTables s t bytes at j a e = elim (Option-cases (s t.owner)) [
  | inl p ↦ (a, ap (λ (x : Store). x j) (write_segment-none s t bytes p) ∙ e, refl)
  | inr (o, p) ↦
      let written = ap (λ (x : Store). x j) (write_segment-some s t bytes o p) in
      elim (ℕ_discrete j o.id) [
        | yes own ↦
            let same : o ≡ a = some_injective (sym p ∙ ap s (sym (own ∙ at t.owner o p)) ∙ e) in
            (
              filled o t bytes,
              written ∙ put_own s (filled o t bytes) j (sym own),
              ap (λ (x : Instance). x.tables) same,
            )
        | no other ↦ (a, written ∙ put_other s (filled o t bytes) j other ∙ e, refl)
      ]
]

SameTables-trans : (s s' s'' : Store) → SameTables s s' → SameTables s' s'' → SameTables s s''
SameTables-trans s s' s'' p q j a e =
    let (b, u, x) = p j a e in let (c, v, y) = q j b u in (c, v, y ∙ x)

pub initialize_from :
    (s0 s : Store) (k : ℕ) (inits : List DataInitializer)
    → Kept s0 s
    → Addressed s
    → check_memory_init_bounds s0 k inits ≡ ok tt
    → (s' : Store) × (initialize_memories s k inits ≡ ok s')
      × Kept s0 s'
      × SameTables s s'
      × ((o j i : ℕ) → byte_at s' o j i ≡ under (overlaid s0 k inits o j i) (byte_at s o j i))
unfolding initialize_memories
initialize_from s0 s k [] kept at e =
    (s, refl, kept, (λ j a h. (a, h, refl)), (λ o j i. sym (under-none (byte_at s o j i))))
initialize_from s0 s k (init ∷ inits) kept at e =
    let (t, p, r, c) = checked_once s0 k init inits e in
    let s1 = write_segment s t init.contents in
    let (s', q, u, tables, bytes) =
      initialize_from s0 s1 k inits
        (Kept-trans s0 s s1 kept (write_segment-Kept s t init.contents at))
        (write_segment-Addressed s t init.contents at) c in
    (
      s',
      rw (initialize_memories, locate-Kept s0 s k init t kept p, r) q,
      u,
      SameTables-trans s s1 s' (write_segment-SameTables s t init.contents at) tables,
      λ o j i.
          bytes o j i
          ∙ ap (under (overlaid s0 k inits o j i))
              (write_segment-in_memory s t init.contents o j i at)
          ∙ under-over (overlaid s0 k inits o j i)
              (in_memory t.owner t.index init.contents t.start o j i) (byte_at s o j i)
          ∙ rw (in_segment, p) refl,
    )

-- In a store that has every instance at its own address, data segments that passed the check of
-- their bounds are all written without a panic. Every byte of every memory is then what the last
-- segment that covers it put there, and a byte that none covers is as before. Every instance is
-- still there, with the same tables, module, offsets, context and number of memories.
pub initialize_memories-Kept :
    (s : Store) (k : ℕ) (inits : List DataInitializer)
    → Addressed s
    → check_memory_init_bounds s k inits ≡ ok tt
    → (s' : Store) × (initialize_memories s k inits ≡ ok s')
      × Kept s s'
      × SameTables s s'
      × ((o j i : ℕ) → byte_at s' o j i ≡ under (overlaid s k inits o j i) (byte_at s o j i))
initialize_memories-Kept s k inits at e =
    initialize_from s s k inits (λ j a h. (a, h, Alike-refl a)) at e
