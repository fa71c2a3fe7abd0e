-- ===== src/Environ/VmOffsets/Slots.antt =====
-- wasmtime-environ/src/vmoffsets.rs: the slots of a `VMContext` lie inside it and apart.
use wasmtime.Base.{
  ℕ, ◌+◌, ◌*◌, ◌≤◌, ◌<◌, ◌≡◌, ◌≢◌, dec_lt, ℕ_discrete, Option, some, none, arith, u32_mod,
  checked_array_total, ◌⊎◌, inl, inr, lt→ltb, ltb-eq-false, subst,
}
use wasmtime.Environ.VmOffsets
use wasmtime.Environ.VmOffsets.{VmOffsets, element}
use wasmtime.Environ.VmOffsets.Fields
use wasmtime.Environ.VmOffsets.Layout.{
  Region, signature_ids, imported_functions, imported_tables, imported_memories, imported_globals,
  tables, memories, globals, builtin_functions, count, size, slot, start, total, Fits, end-le-total,
  extent_lem, rank, rank-injective, end-le-start,
}
use wasmtime.Environ.VmOffsets.Bounds.{begin-eq-start, size_of_vmctx-eq-total}

-- An element ends before a later one starts, and within the array.
pub mul-le-mul : (i j s : ℕ) → i < j → i * s + s ≤ j * s
mul-le-mul i j s h = grind arith

element-eq :
    (b : Option ℕ) (x n s i : ℕ)
    → b ≡ some x
    → i < n
    → x + i * s < u32_mod
    → element b n s i ≡ some (x + i * s)
element-eq b x n s i e h l = rw (lt→ltb i n h, e) (checked_array_total x i s l)

element-none : (b : Option ℕ) (n s i : ℕ) → n ≤ i → element b n s i ≡ none
element-none b n s i h = rw (ltb-eq-false i n h)

-- Every function that gives a slot gives the same as the description.
module _ (o : VmOffsets) (fits : Fits o) where
  slot_end : (r : Region) (i : ℕ) → i < count o r → start o r + i * size o r + size o r ≤ total o
  slot_end r i h =
      omega (arith, end-le-total o r, extent_lem o r, mul-le-mul i (count o r) (size o r) h)

  slot_fits : (r : Region) (i : ℕ) → i < count o r → start o r + i * size o r < u32_mod
  slot_fits r i h = omega (arith, slot_end r i h)

  pub slot-eq : (r : Region) (i : ℕ) → i < count o r → slot o r i ≡ some (start o r + i * size o r)
  unfolding Fields.vmctx_vmshared_signature_id Fields.vmctx_vmfunction_import
      Fields.vmctx_vmtable_import Fields.vmctx_vmmemory_import Fields.vmctx_vmglobal_import
      Fields.vmctx_vmtable_definition Fields.vmctx_vmmemory_definition
      Fields.vmctx_vmglobal_definition Fields.vmctx_builtin_function
  slot-eq signature_ids i h =
      element-eq _ _ _ _ i (begin-eq-start o fits signature_ids) h (slot_fits signature_ids i h)
  slot-eq imported_functions i h =
      element-eq _ _ _ _ i (begin-eq-start o fits imported_functions) h
        (slot_fits imported_functions i h)
  slot-eq imported_tables i h =
      element-eq _ _ _ _ i (begin-eq-start o fits imported_tables) h (slot_fits imported_tables i h)
  slot-eq imported_memories i h =
      element-eq _ _ _ _ i (begin-eq-start o fits imported_memories) h
        (slot_fits imported_memories i h)
  slot-eq imported_globals i h =
      element-eq _ _ _ _ i (begin-eq-start o fits imported_globals) h
        (slot_fits imported_globals i h)
  slot-eq tables i h = element-eq _ _ _ _ i (begin-eq-start o fits tables) h (slot_fits tables i h)
  slot-eq memories i h =
      element-eq _ _ _ _ i (begin-eq-start o fits memories) h (slot_fits memories i h)
  slot-eq globals i h =
      element-eq _ _ _ _ i (begin-eq-start o fits globals) h (slot_fits globals i h)
  slot-eq builtin_functions i h =
      rw (begin-eq-start o fits builtin_functions)
        (checked_array_total _ i (size o builtin_functions) (slot_fits builtin_functions i h))

-- Where the context fits `u32` offsets, each slot function returns, for an index in range, an
-- offset at which the whole slot lies inside the `size_of_vmctx` bytes.
pub slot_in_context :
    (o : VmOffsets) (r : Region) (i : ℕ)
    → Fits o
    → i < count o r
    → (a : ℕ) × (s : ℕ) × (slot o r i ≡ some a)
      × (VmOffsets.size_of_vmctx o ≡ some s)
      × (a + size o r ≤ s)
slot_in_context o r i fits h = (
  start o r + i * size o r,
  total o,
  slot-eq o fits r i h,
  size_of_vmctx-eq-total o fits,
  slot_end o fits r i h,
)

abbrev pub Apart : ℕ → ℕ → ℕ → ℕ → Type 0
Apart a m b n = (a + m ≤ b) ⊎ (b + n ≤ a)

-- Two slots of different arrays.
apart_regions :
    (o : VmOffsets) (r r' : Region) (i j : ℕ)
    → rank r < rank r'
    → i < count o r
    → start o r + i * size o r + size o r ≤ start o r' + j * size o r'
apart_regions o r r' i j h hi =
    omega (arith, end-le-start o r r' h, extent_lem o r, mul-le-mul i (count o r) (size o r) hi)

Apart-elements : (x i j s : ℕ) → i ≢ j → Apart (x + i * s) s (x + j * s) s
Apart-elements x i j s h = elim (dec_lt i j) [
  | yes p ↦ inl (omega (arith, mul-le-mul i j s p))
  | no p ↦ inr (omega (arith, mul-le-mul j i s (omega arith)))
]

-- Where the context fits `u32` offsets, the slots that the slot functions return for two arrays, or
-- for two indices of one array, indices in range, never overlap.
pub slots-Apart :
    (o : VmOffsets) (r r' : Region) (i j a b : ℕ)
    → Fits o
    → i < count o r
    → j < count o r'
    → (r ≢ r') ⊎ (i ≢ j)
    → slot o r i ≡ some a
    → slot o r' j ≡ some b
    → Apart a (size o r) b (size o r')
slots-Apart o r r' i j a b fits hi hj d ea eb =
    rw (found r i a hi ea, found r' j b hj eb) (compared (ℕ_discrete (rank r) (rank r')))
  where
    found :
        (q : Region) (k c : ℕ) → k < count o q → slot o q k ≡ some c → c ≡ start o q + k * size o q
    found q k c hk e = cc (slot-eq o fits q k hk)

    compared :
        Dec (rank r ≡ rank r')
        → Apart (start o r + i * size o r) (size o r) (start o r' + j * size o r') (size o r')
    compared (yes e) =
        let same : r ≡ r' = rank-injective r r' e in
        let differ : i ≢ j = elim d [ inl n ↦ absurd (n same) | inr n ↦ n ] in
        subst
          (λ q. Apart (start o r + i * size o r) (size o r) (start o q + j * size o q) (size o q))
          same (Apart-elements (start o r) i j (size o r) differ)
    compared (no n) = elim (dec_lt (rank r) (rank r')) [
      | yes p ↦ inl (apart_regions o r r' i j p hi)
      | no p ↦ inr (apart_regions o r' r j i (omega arith) hj)
    ]
