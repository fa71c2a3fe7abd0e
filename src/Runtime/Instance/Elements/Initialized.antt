-- ===== src/Runtime/Instance/Elements/Initialized.antt =====
-- wasmtime-runtime/src/instance.rs: `initialize_tables` after the check of the bounds.
use wasmtime.Base.{
  ℕ, ◌≡◌, ◌<◌, ◌≤◌, ◌+◌, refl, ap, ◌∙◌, subst, true, some, List, [], ◌∷◌, length, get_elem?,
  Option-cases, Bool-cases, inl, inr, arith, usize_mod, over, over_assoc,
}
use wasmtime.Base.Outcomes.{ok}
use wasmtime.Environ.Module.{TableElements, defined_table_index}
use wasmtime.Runtime.Instance.{Instance, Store, table_index}
use wasmtime.Runtime.Instance.SameContext.{bind-some}
use wasmtime.Runtime.Instance.Growth.{some_injective}
use wasmtime.Runtime.VmContext
use wasmtime.Runtime.Instance.Segments.{Target, in_range}
use wasmtime.Runtime.Instance.Segments.Kept.{Addressed}
use wasmtime.Runtime.Instance.Elements.{
  locate, locate_in, slice_of, foreign_table, get_table_slice, get_table_init_start,
  check_table_init_bounds, initialize_tables,
}
use wasmtime.Runtime.Instance.Elements.Kept.{Alike-refl, Kept, locate-Kept}
use wasmtime.Runtime.Instance.Elements.Written.{element_at, Place, Place-Kept}
use wasmtime.Runtime.Instance.Elements.Overlaid.{
  in_table, in_segment, overlaid, AreSegments, write_elements-in_table,
}

-- A slice is a table of an instance of the store.
slice_of-Place :
    (s : Store) (j k : ℕ) (inst : Instance) (m : ℕ × (ℕ × ℕ))
    → Addressed s
    → s j ≡ some inst
    → slice_of inst k ≡ some m
    → Place s m.0 m.1.0 m.1.1
slice_of-Place s j k inst m addressed there e =
    let (t, p, q) = bind-some (get_elem? inst.tables k) _ e in
    subst (λ (n : ℕ × (ℕ × ℕ)). Place s n.0 n.1.0 n.1.1) (some_injective q)
      (record {
        inst = inst;
        table = t;
        there = ap s (addressed j inst there) ∙ there;
        holds = p;
        length_ = refl;
      })

slice-Place :
    (s : Store) (k : ℕ) (inst : Instance) (init : TableElements) (m : ℕ × (ℕ × ℕ))
    → Addressed s
    → s k ≡ some inst
    → get_table_slice s inst init ≡ some m
    → Place s m.0 m.1.0 m.1.1
slice-Place s k inst init m addressed there e =
    elim (Option-cases (defined_table_index inst.module_ init.table_index)) [
      | inr (d, p) ↦ slice_of-Place s k d inst m addressed there (ground (arith, p, e))
      | inl p ↦
          let (f, q, r) =
            bind-some (foreign_table s inst init.table_index) (λ f. slice_of f.0 f.1) {b = m}
              (ground (arith, p, e)) in
          let (import, u, v) =
            bind-some (VmContext.imported_table inst.offsets inst.vmctx init.table_index) _ q in
          let (g, w, x) = bind-some (s import.vmctx) _ v in
          let (at, y, z) = bind-some (table_index g import.from.offset) _ x in
          slice_of-Place s import.vmctx f.1 f.0 m addressed
            (w ∙ ap (λ (h : Instance × ℕ). some h.0) (some_injective z)) r
    ]

locate-Place :
    (s : Store) (k : ℕ) (init : TableElements) (t : Target)
    → Addressed s
    → locate s k init ≡ some t
    → Place s t.owner t.index t.size
unfolding locate
locate-Place s k init t addressed e =
    let (inst, p, q) = bind-some (s k) (locate_in s init) e in
    let (start, u, v) = bind-some (get_table_init_start s inst init) _ q in
    let (m, w, x) = bind-some (get_table_slice s inst init) _ v in
    subst (λ (y : Target). Place s y.owner y.index y.size) (some_injective x)
      (slice-Place s k inst init m addressed p w)

-- A check that passes, by its first segment and the others.
checked_once :
    (s : Store) (k : ℕ) (init : TableElements) (inits : List TableElements)
    → check_table_init_bounds s k (init ∷ inits) ≡ ok tt
    → (t : Target) × (locate s k init ≡ some t)
      × (in_range t.start (length init.elements) t.size ≡ true)
      × (check_table_init_bounds s k inits ≡ ok tt)
unfolding check_table_init_bounds
checked_once s k init inits e = elim (Option-cases (locate s k init)) [
  | inl p ↦ absurd (ground arith)
  | inr (t, p) ↦ elim (Bool-cases (in_range t.start (length init.elements) t.size)) [
    | inl r ↦ (t, p, r, ground arith)
    | inr r ↦ absurd (ground arith)
  ]
]

in_range-le :
    (start len size : ℕ) → len < usize_mod → in_range start len size ≡ true → start + len ≤ size
in_range-le start len size h e = ground (arith, e)

pub initialize_from :
    (s c : Store) (k : ℕ) (inits : List TableElements)
    → Kept s c
    → Addressed s
    → Addressed c
    → check_table_init_bounds s k inits ≡ ok tt
    → AreSegments s k inits
    → (s' : Store) × (initialize_tables c k inits ≡ some s')
      × Kept s s'
      × Addressed s'
      × ((o j i : ℕ) → element_at s' o j i ≡ over (overlaid s k inits o j i) (element_at c o j i))
unfolding initialize_tables
initialize_from s c k [] kept at at' e segments = (c, refl, kept, at', λ o j i. refl)
initialize_from s c k (init ∷ inits) kept at at' e segments =
    let (t, p, r, rest_checked) = checked_once s k init inits e in
    let one =
      write_elements-in_table s k init.elements c t.owner t.index t.size t.start kept at'
        (Place-Kept s c t.owner t.index t.size kept (locate-Place s k init t at p))
        (in_range-le t.start (length init.elements) t.size segments.0.1 r) segments.0.0 in
    let rest = initialize_from s one.0 k inits one.2 at one.3 rest_checked segments.1 in
    (
      rest.0,
      rw (locate-Kept s c k init t kept p, r, one.1) (rest.1),
      rest.2,
      rest.3,
      λ o j i.
          rest.4 o j i
          ∙ ap (over (overlaid s k inits o j i)) (one.4 o j i)
          ∙ over_assoc (overlaid s k inits o j i)
              (in_table s k t.owner t.index init.elements t.start o j i) (element_at c o j i)
          ∙ rw (in_segment, p) refl,
    )

-- In a store that has every instance at its own address, element segments that passed the check of
-- their bounds are all written without a panic, if their functions are there and each has fewer than
-- 2 ^ 64 of them. Every element of every table is then what the last segment that covers it put
-- there, the function's code, the number of its signature and its context, and an element that none
-- covers is as before. Every instance is still there, with the same module, context and table sizes.
pub initialize_tables-overlaid :
    (s : Store) (k : ℕ) (inits : List TableElements)
    → Addressed s
    → check_table_init_bounds s k inits ≡ ok tt
    → AreSegments s k inits
    → (s' : Store) × (initialize_tables s k inits ≡ some s')
      × Kept s s'
      × ((o j i : ℕ) → element_at s' o j i ≡ over (overlaid s k inits o j i) (element_at s o j i))
initialize_tables-overlaid s k inits at e segments =
    let (s', p, kept, at', written) =
      initialize_from s s k inits (λ j a h. (a, h, Alike-refl a)) at at e segments in
    (s', p, kept, written)
