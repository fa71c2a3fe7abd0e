-- ===== src/Runtime/VmContext/Slots.antt =====
-- wasmtime-runtime/src/instance.rs: the nine copies into a fresh `VMContext` do not overwrite each
-- other.
use native.Mathlib.Nat.{mul-le-mul_right}
use wasmtime.Base.{
  none, subst, ℕ, zero, suc, ◌+◌, ◌*◌, ◌≤◌, ◌<◌, ◌≡◌, ◌≢◌, ◌⊎◌, inl, inr, refl, sym, ap, ◌∙◌,
  Option, some, List, [], ◌∷◌, length, get_elem?, get_elem?-lt, ==_iff, ==-eq-false, ℕ_discrete,
  dec_lt, arith,
}
use wasmtime.Environ.VmOffsets.{VmOffsets}
use wasmtime.Environ.VmOffsets.Layout.{
  Region, signature_ids, imported_functions, imported_tables, imported_memories, imported_globals,
  tables, memories, globals, builtin_functions, count, size, slot, start, Fits, rank,
  rank-injective, extent_lem, end-le-start,
}
use wasmtime.Environ.VmOffsets.Bounds.{begin-eq-start}
use wasmtime.Environ.VmOffsets.Slots.{mul-le-mul, slot-eq}
use wasmtime.Runtime.VmContext.{
  Cell, unwritten, VmContext, write, size_of, copy_array, Arrays, contents, fill_context, copy_to,
}
use wasmtime.Runtime.VmContext.Sizes.{size_of-eq-size, size_of-ne-0}

pub write_self : (v : VmContext) (at : ℕ) (c : Cell) → write v at c at ≡ c
unfolding write
write_self v at c = rw ((==_iff at at).1 refl) refl

pub write_other : (v : VmContext) (at i : ℕ) (c : Cell) → i ≢ at → write v at c i ≡ v i
unfolding write
write_other v at i c n = rw (==-eq-false i at n) refl

-- A copy leaves what lies before and behind it.
copy_before : (v : VmContext) (at w i : ℕ) (cs : List Cell) → i < at → copy_array v at w cs i ≡ v i
unfolding copy_array
copy_before v at w i [] l = refl
copy_before v at w i (c ∷ cs) l =
    copy_before (write v at c) (at + w) w i cs (omega arith)
    ∙ write_other v at i c (λ e. omega arith)

copy_behind :
    (v : VmContext) (at w i : ℕ) (cs : List Cell)
    → w ≢ 0
    → at + length cs * w ≤ i
    → copy_array v at w cs i ≡ v i
unfolding copy_array
copy_behind v at w i [] n l = refl
copy_behind v at w i (c ∷ cs) n l =
    copy_behind (write v at c) (at + w) w i cs n (grind arith)
    ∙ write_other v at i c (λ e. grind arith)

copy_at :
    (v : VmContext) (at w k : ℕ) (cs : List Cell) (c : Cell)
    → w ≢ 0
    → get_elem? cs k ≡ some c
    → copy_array v at w cs (at + k * w) ≡ c
unfolding copy_array
copy_at v at w k [] c n e = cc
copy_at v at w zero (d ∷ cs) c n e =
    ap (copy_array (write v at d) (at + w) w cs) (omega arith)
    ∙ copy_before (write v at d) (at + w) w at cs (omega arith)
    ∙ write_self v at d
    ∙ cc
copy_at v at w (suc k) (d ∷ cs) c n e =
    ap (copy_array (write v at d) (at + w) w cs) (grind arith)
    ∙ copy_at (write v at d) (at + w) w k cs c n e

-- The copies without the panics.
abbrev copy_region : VmOffsets → Arrays → VmContext → Region → VmContext
copy_region o a v r = copy_array v (start o r) (size_of r) (contents a r)

copy_regions : VmOffsets → Arrays → VmContext → List Region → VmContext
copy_regions o a v [] = v
copy_regions o a v (r ∷ rs) = copy_regions o a (copy_region o a v r) rs

abbrev all_regions : List Region
all_regions =
    signature_ids ∷ imported_functions ∷ imported_tables ∷ imported_memories ∷ imported_globals
    ∷ tables ∷ memories ∷ globals ∷ builtin_functions ∷ []

abbrev Among : Region → List Region → Type 0
Among r [] = ⊥
Among r (q ∷ qs) = (q ≡ r) ⊎ Among r qs

Among-all : (r : Region) → Among r all_regions
Among-all signature_ids = inl refl
Among-all imported_functions = inr (inl refl)
Among-all imported_tables = inr (inr (inl refl))
Among-all imported_memories = inr (inr (inr (inl refl)))
Among-all imported_globals = inr (inr (inr (inr (inl refl))))
Among-all tables = inr (inr (inr (inr (inr (inl refl)))))
Among-all memories = inr (inr (inr (inr (inr (inr (inl refl))))))
Among-all globals = inr (inr (inr (inr (inr (inr (inr (inl refl)))))))
Among-all builtin_functions = inr (inr (inr (inr (inr (inr (inr (inr (inl refl))))))))

copy_to-start :
    (o : VmOffsets) (a : Arrays) (r : Region) (v : VmContext) (b : Option ℕ)
    → b ≡ some (start o r)
    → copy_to b a r v ≡ some (copy_region o a v r)
copy_to-start o a r v b e = rw e refl

fill_context-regions :
    (o : VmOffsets) (a : Arrays) (v : VmContext)
    → Fits o
    → fill_context o a v ≡ some (copy_regions o a v all_regions)
unfolding fill_context copy_regions
fill_context-regions o a v f =
    rw
      (
        fill_context,
        begin-eq-start o f signature_ids,
        begin-eq-start o f imported_functions,
        begin-eq-start o f imported_tables,
        begin-eq-start o f imported_memories,
        begin-eq-start o f imported_globals,
        begin-eq-start o f tables,
        begin-eq-start o f memories,
        begin-eq-start o f globals,
        begin-eq-start o f builtin_functions,
      )
      refl

module _ (o : VmOffsets) (a : Arrays) (eight : o.pointer_size ≡ 8)
    (room : (q : Region) → length (contents a q) ≤ count o q) where
  -- A copy for another array leaves an element alone.
  copy_region_other :
      (v : VmContext) (q r : Region) (i : ℕ)
      → q ≢ r
      → i < count o r
      → copy_region o a v q (start o r + i * size_of r) ≡ v (start o r + i * size_of r)
  copy_region_other v q r i n l =
      let wq : size o q ≡ size_of q = size_of-eq-size o q eight in
      let wr : size o r ≡ size_of r = size_of-eq-size o r eight in
      let behind : rank r < rank q → start o r + i * size_of r < start o q = λ b. omega (
        arith,
        end-le-start o r q b,
        extent_lem o r,
        ap (λ w. count o r * w) wr,
        mul-le-mul i (count o r) (size_of r) l,
        size_of-ne-0 r,
      ) in
      elim (dec_lt (rank q) (rank r)) [
        | yes before ↦ copy_behind v (start o q) (size_of q) _ (contents a q) (size_of-ne-0 q) (
            omega (
              arith,
              end-le-start o q r before,
              extent_lem o q,
              ap (λ w. count o q * w) wq,
              mul-le-mul_right (size_of q) (room q),
            ))
        | no after ↦ copy_before v (start o q) (size_of q) _ (contents a q) (
            behind (elim (dec_lt (rank r) (rank q)) [
              | yes b ↦ b
              | no b ↦ absurd (n (rank-injective q r (omega arith)))
            ]))
      ]

  -- The copies leave an element with what its own array has for it.
  copy_regions_settle :
      (v : VmContext) (rs : List Region) (r : Region) (i : ℕ) (c : Cell)
      → get_elem? (contents a r) i ≡ some c
      → Among r rs ⊎ (v (start o r + i * size_of r) ≡ c)
      → copy_regions o a v rs (start o r + i * size_of r) ≡ c
  unfolding copy_regions
  copy_regions_settle v [] r i c e (inl outside) = absurd outside
  copy_regions_settle v [] r i c e (inr done) = done
  copy_regions_settle v (q ∷ qs) r i c e h = elim (ℕ_discrete (rank q) (rank r)) [
    | yes same ↦ copy_regions_settle (copy_region o a v q) qs r i c e (
        inr (
          subst (λ x. copy_region o a v x (start o r + i * size_of r) ≡ c)
            (sym (rank-injective q r same))
            (copy_at v (start o r) (size_of r) i (contents a r) c (size_of-ne-0 r) e)))
    | no other ↦ copy_regions_settle (copy_region o a v q) qs r i c e (elim h [
      | inl (inl same) ↦ absurd (other (ap rank same))
      | inl (inr later) ↦ inl later
      | inr done ↦ inr (
          copy_region_other v q r i (λ s. other (ap rank s))
            (omega (arith, room r, get_elem?-lt (contents a r) i c e))
          ∙ done)
    ])
  ]

-- Where the context fits `u32` offsets, pointers have eight bytes and no array is longer than the
-- context provides for, the nine copies succeed, and afterwards every element of every array is
-- at the offset that the slot function of its array returns.
pub fill_context-slot :
    (o : VmOffsets) (a : Arrays) (v : VmContext) (r : Region) (i : ℕ) (c : Cell)
    → Fits o
    → o.pointer_size ≡ 8
    → ((q : Region) → length (contents a q) ≤ count o q)
    → get_elem? (contents a r) i ≡ some c
    → (v' : VmContext) × (at : ℕ) × (fill_context o a v ≡ some v')
      × (slot o r i ≡ some at)
      × (v' at ≡ c)
fill_context-slot o a v r i c f eight room e = (
  copy_regions o a v all_regions,
  start o r + i * size_of r,
  fill_context-regions o a v f,
  slot-eq o f r i (omega (arith, room r, get_elem?-lt (contents a r) i c e))
      ∙ ap (λ w. some (start o r + i * w)) (size_of-eq-size o r eight),
  copy_regions_settle o a eight room v all_regions r i c e (inl (Among-all r)),
)

-- The same context for all arrays and elements.
pub fill_context-all :
    (o : VmOffsets) (a : Arrays) (v : VmContext)
    → Fits o
    → o.pointer_size ≡ 8
    → ((q : Region) → length (contents a q) ≤ count o q)
    → (v' : VmContext) × (fill_context o a v ≡ some v')
      × ((r : Region) (i : ℕ) (c : Cell)
          → get_elem? (contents a r) i ≡ some c
          → (at : ℕ) × (slot o r i ≡ some at) × (v' at ≡ c))
fill_context-all o a v f eight room = (
  copy_regions o a v all_regions,
  fill_context-regions o a v f,
  (λ r i c e.
      let one = fill_context-slot o a v r i c f eight room e in
      (
        one.1,
        one.3,
        ap (λ (w : Option VmContext). elim w [ none ↦ unwritten | some x ↦ x one.1 ])
              (sym (fill_context-regions o a v f) ∙ one.2)
            ∙ one.4,
      )),
)
