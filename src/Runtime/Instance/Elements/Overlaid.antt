-- ===== src/Runtime/Instance/Elements/Overlaid.antt =====
-- wasmtime-runtime/src/instance.rs: element segments that passed the check, written one after another.
use wasmtime.Base.{
  ℕ, suc, ◌≡◌, ◌<◌, ◌≤◌, ◌+◌, refl, sym, ap, ◌∙◌, subst, ◌&&◌, Option, none, some, List, [], ◌∷◌,
  length, Bool-cases, inl, inr, arith, ℕ_discrete, ◌==◌, ==-eq-false, ==_iff, if◌then◌else◌,
  usize_mod, over,
}
use wasmtime.Environ.Module.{TableElements}
use wasmtime.Runtime.Table.{Anyfunc}
use wasmtime.Runtime.Instance.{Store}
use wasmtime.Runtime.Instance.Segments.Kept.{Addressed}
use wasmtime.Runtime.Instance.Elements.{locate, anyfunc, write_element, write_elements}
use wasmtime.Runtime.Instance.Elements.Kept.{Kept, Kept-trans, anyfunc-Kept}
use wasmtime.Runtime.Instance.Elements.Written.{
  element_at, Place, Place-Kept, write_element-Kept, write_element-Addressed, write_element-own,
  write_element-at, write_element-index, write_element-owner,
}

module _ (s : Store) (k : ℕ) where
  -- What functions that are laid out from an index on put at an index.
  abbrev pub covered_by : List ℕ → ℕ → ℕ → Option Anyfunc
  covered_by [] at i = none
  covered_by (f ∷ fs) at i =
      let rest = covered_by fs (suc at) i in if i == at then anyfunc s k f else rest

  abbrev pub in_table : ℕ → ℕ → List ℕ → ℕ → ℕ → ℕ → ℕ → Option Anyfunc
  in_table owner index fs at o j i = if owner == o && index == j then covered_by fs at i else none

  abbrev pub in_segment : TableElements → ℕ → ℕ → ℕ → Option Anyfunc
  in_segment init o j i = elim (locate s k init) [
    | none ↦ none
    | some t ↦ in_table t.owner t.index init.elements t.start o j i
  ]

  -- What the segments put at an element of a table: the last one counts.
  abbrev pub overlaid : List TableElements → ℕ → ℕ → ℕ → Option Anyfunc
  overlaid [] o j i = none
  overlaid (init ∷ inits) o j i = over (overlaid inits o j i) (in_segment init o j i)

  abbrev pub AllThere : List ℕ → Type 0
  AllThere [] = Unit {0}
  AllThere (f ∷ fs) = ((x : Anyfunc) × (anyfunc s k f ≡ some x)) × AllThere fs

  -- The functions of every segment are there, and no segment is as long as the address space.
  abbrev pub AreSegments : List TableElements → Type 0
  AreSegments [] = Unit {0}
  AreSegments (init ∷ inits) =
      (AllThere init.elements × (length init.elements < usize_mod)) × AreSegments inits

  covered_by-none : (fs : List ℕ) (at i : ℕ) → i < at → covered_by fs at i ≡ none
  covered_by-none [] at i h = refl
  covered_by-none (f ∷ fs) at i h =
      rw (==-eq-false i at (λ e. absurd (omega (arith, e))))
        (covered_by-none fs (suc at) i (omega arith))

  -- One assignment, then the others.
  one_more :
      (c : Store) (owner index size at : ℕ) (f : ℕ) (fs : List ℕ) (x : Anyfunc) (o j i : ℕ)
      → Addressed c
      → Place c owner index size
      → at < size
      → anyfunc s k f ≡ some x
      → over
          (in_table owner index fs (suc at) o j i)
          (element_at (write_element c owner index at x) o j i)
        ≡ over (in_table owner index (f ∷ fs) at o j i) (element_at c o j i)
  one_more c owner index size at f fs x o j i addressed place h there = elim (ℕ_discrete owner o) [
    | no other ↦
        rw (==-eq-false owner o other)
          (write_element-owner c owner index size at x addressed place o j i (λ e. other (sym e)))
    | yes same ↦ elim (ℕ_discrete index j) [
      | no other ↦
          rw ((==_iff owner o).1 same, ==-eq-false index j other)
            (subst (λ n. element_at (write_element c owner index at x) n j i ≡ element_at c n j i)
              same
              (write_element-index c owner index size at x addressed place j i
                (λ e. other (sym e))))
      | yes same_index ↦ elim (ℕ_discrete i at) [
        | yes here ↦
            rw
              (
                (==_iff owner o).1 same,
                (==_iff index j).1 same_index,
                (==_iff i at).1 here,
                covered_by-none fs (suc at) i (omega (arith, here)),
                there,
              )
              (subst (λ n. element_at (write_element c owner index at x) o j n ≡ some x) (sym here)
                (subst (λ n. element_at (write_element c owner index at x) n j at ≡ some x) same
                  (subst (λ n. element_at (write_element c owner index at x) owner n at ≡ some x)
                    same_index (write_element-own c owner index size at x addressed place h))))
        | no elsewhere ↦
            rw ((==_iff owner o).1 same, (==_iff index j).1 same_index, ==-eq-false i at elsewhere)
              (ap (over (covered_by fs (suc at) i)) (
                subst
                  (λ n. element_at (write_element c owner index at x) n j i ≡ element_at c n j i)
                  same
                  (subst
                    (λ n.
                      element_at (write_element c owner index at x) owner n i
                      ≡ element_at c owner n i)
                    same_index
                    (write_element-at c owner index size at x addressed place i elsewhere))))
      ]
    ]
  ]

  -- A segment is written without a panic.
  pub write_elements-in_table :
      (fs : List ℕ) (c : Store) (owner index size at : ℕ)
      → Kept s c
      → Addressed c
      → Place c owner index size
      → at + length fs ≤ size
      → AllThere fs
      → (c' : Store) × (write_elements c k owner index at fs ≡ some c')
        × Kept s c'
        × Addressed c'
        × ((o j i : ℕ)
            → element_at c' o j i ≡ over (in_table owner index fs at o j i) (element_at c o j i))
  unfolding write_elements
  write_elements-in_table [] c owner index size at kept addressed place h there = (
    c,
    refl,
    kept,
    addressed,
    λ o j i. elim (Bool-cases (owner == o && index == j)) [ inl e ↦ rw e refl | inr e ↦ rw e refl ],
  )
  write_elements-in_table (f ∷ fs) c owner index size at kept addressed place h there =
      let x = there.0.0 in
      let c1 = write_element c owner index at x in
      let kept1 = write_element-Kept c owner index size at x addressed place in
      let rest =
        write_elements-in_table fs c1 owner index size (suc at) (Kept-trans s c c1 kept kept1)
          (write_element-Addressed c owner index size at x addressed place)
          (Place-Kept c c1 owner index size kept1 place) (omega arith) there.1 in
      (
        rest.0,
        rw (anyfunc-Kept s c k f x kept there.0.1) (rest.1),
        rest.2,
        rest.3,
        λ o j i.
            rest.4 o j i
            ∙ one_more c owner index size at f fs x o j i addressed place (omega arith) there.0.1,
      )
