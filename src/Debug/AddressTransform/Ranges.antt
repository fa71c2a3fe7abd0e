-- ===== src/Debug/AddressTransform/Ranges.antt =====
-- `build_function_lookup` of wasmtime-debug/src/transform/address_transform.rs: what its first loop
-- keeps of the ranges.
use wasmtime.Base.{
  ◌∙◌, ap, subst, ℕ, ◌≤◌, ◌≡◌, ◌⊎◌, inl, inr, refl, some, List, [], ◌∷◌, ◌++◌, length, ltb, arith,
  get_elem?, get_elem?-append, get_elem?-lt, Bool-cases,
}
use wasmtime.Debug.AddressTransform.{InstructionAddressMap, Position, Range, btree_insert, keys}
use wasmtime.Debug.AddressTransform.Ordered.{
  All, All-btree_insert, Ascending, Climb, Has, Climb-append, Climb-widen, btree_insert-Ascending,
  btree_insert-Has, btree_insert-kept,
}
use wasmtime.Debug.AddressTransform.Build.{
  Building, close_range, start_range, push_position, add_at,
}
use wasmtime.Debug.AddressTransform.Iterators.{wasm_positions}

-- The positions of a range never go down, from its start to its end.
abbrev pub IsRange : Range → Type 0
IsRange range = Climb range.wasm_start (wasm_positions range.positions) range.wasm_end

-- The number of a range that starts at an address.
abbrev pub IsEntry : List Range → ℕ → ℕ → Type 0
IsEntry ranges w r =
    (range : Range) × (get_elem? ranges r ≡ some range) × (range.wasm_start ≡ w) × IsRange range

abbrev pub AreEntries : List Range → List (ℕ × ℕ) → Type 0
AreEntries ranges entries = All (IsEntry ranges) entries

pub record IsBuilding (fn_start : ℕ) (b : Building) : Type 0 where
  pub climb : Climb b.range_wasm_start (wasm_positions b.current_range) b.last_wasm_pos
  pub ascending : Ascending (keys b.ranges_index)
  pub entries : AreEntries b.ranges b.ranges_index
  pub first : (b.range_wasm_start ≡ fn_start) ⊎ Has fn_start (keys b.ranges_index)

wasm_positions-append :
    (ps : List Position) (p : Position)
    → wasm_positions (ps ++ (p ∷ [])) ≡ wasm_positions ps ++ (p.wasm_pos ∷ [])
wasm_positions-append [] p = refl
wasm_positions-append (q ∷ ps) p =
    ap (λ (xs : List ℕ). q.wasm_pos ∷ xs) (wasm_positions-append ps p)

get_elem?-last : (xs : List Range) (x : Range) → get_elem? (xs ++ (x ∷ [])) (length xs) ≡ some x
get_elem?-last [] x = refl
get_elem?-last (y ∷ xs) x = get_elem?-last xs x

IsEntry-append :
    (ranges : List Range) (x : Range) (w r : ℕ)
    → IsEntry ranges w r
    → IsEntry (ranges ++ (x ∷ [])) w r
IsEntry-append ranges x w r (range, at, e, p) =
    (range, get_elem?-append ranges (x ∷ []) r (get_elem?-lt ranges r range at) ∙ at, e, p)

AreEntries-append :
    (entries : List (ℕ × ℕ)) (ranges : List Range) (x : Range)
    → AreEntries ranges entries
    → AreEntries (ranges ++ (x ∷ [])) entries
AreEntries-append [] ranges x h = tt
AreEntries-append ((w, r) ∷ entries) ranges x h =
    (IsEntry-append ranges x w r h.0, AreEntries-append entries ranges x h.1)

module _ (fn_start : ℕ) (b : Building) (valid : IsBuilding fn_start b) where
  closing : (wasm_end gen_end : ℕ) → Range
  closing wasm_end gen_end = record {
    wasm_start = b.range_wasm_start;
    wasm_end = wasm_end;
    gen_start = b.range_gen_start;
    gen_end = gen_end;
    positions = b.current_range;
  }

  pub close_range-AreEntries :
      (wasm_end gen_end : ℕ)
      → b.last_wasm_pos ≤ wasm_end
      → AreEntries
          (close_range b wasm_end gen_end).ranges
          (close_range b wasm_end gen_end).ranges_index
  unfolding closing
  close_range-AreEntries wasm_end gen_end h =
      All-btree_insert (IsEntry _) b.ranges_index b.range_wasm_start (length b.ranges)
        (
          closing wasm_end gen_end,
          get_elem?-last b.ranges _,
          refl,
          Climb-widen (wasm_positions b.current_range) b.range_wasm_start b.last_wasm_pos wasm_end
              valid.climb h,
        )
        (AreEntries-append b.ranges_index b.ranges _ valid.entries)

  pub close_range-Ascending :
      (wasm_end gen_end : ℕ) → Ascending (keys (close_range b wasm_end gen_end).ranges_index)
  close_range-Ascending wasm_end gen_end = btree_insert-Ascending b.ranges_index _ _ valid.ascending

  pub close_range-Has :
      (wasm_end gen_end : ℕ) → Has fn_start (keys (close_range b wasm_end gen_end).ranges_index)
  close_range-Has wasm_end gen_end = elim valid.first [
    | inl e ↦
        subst (λ k. Has k (keys (btree_insert b.range_wasm_start (length b.ranges) b.ranges_index)))
          e (btree_insert-Has b.ranges_index b.range_wasm_start (length b.ranges))
    | inr h ↦ btree_insert-kept b.ranges_index b.range_wasm_start (length b.ranges) fn_start h
  ]

  start_range-IsBuilding :
      (t : InstructionAddressMap) (offset : ℕ)
      → IsBuilding fn_start (push_position t offset (start_range b offset t.code_offset))
  start_range-IsBuilding t offset = record {
    climb = (omega arith, omega arith);
    ascending = btree_insert-Ascending b.ranges_index _ _ valid.ascending;
    entries = close_range-AreEntries b.last_wasm_pos t.code_offset (omega arith);
    first = inr (close_range-Has b.last_wasm_pos t.code_offset);
  }

  push_position-IsBuilding :
      (t : InstructionAddressMap) (offset : ℕ)
      → b.last_wasm_pos ≤ offset
      → IsBuilding fn_start (push_position t offset b)
  push_position-IsBuilding t offset h = record {
    climb =
        rw (wasm_positions-append b.current_range _)
          (Climb-append (wasm_positions b.current_range) _ b.last_wasm_pos offset valid.climb h);
    ascending = valid.ascending;
    entries = valid.entries;
    first = valid.first;
  }

  pub add_at-IsBuilding :
      (t : InstructionAddressMap) (offset : ℕ) → IsBuilding fn_start (add_at t offset b)
  unfolding add_at
  add_at-IsBuilding t offset = elim (Bool-cases (ltb offset b.last_wasm_pos)) [
    | inl e ↦ rw e (start_range-IsBuilding t offset)
    | inr e ↦ rw e (push_position-IsBuilding t offset (ground (arith, e)))
  ]
