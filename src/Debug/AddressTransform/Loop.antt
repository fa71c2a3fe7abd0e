-- ===== src/Debug/AddressTransform/Loop.antt =====
-- `build_function_lookup` of wasmtime-debug/src/transform/address_transform.rs: its first loop runs
-- through exactly when every instruction lies in the function, and its ranges are then well formed.
use wasmtime.Base.{
  Option-cases, ℕ, ◌≤◌, ◌≡◌, ◌⊎◌, inl, inr, refl, some, List, [], ◌∷◌, ◌==◌, arith, Bool-cases,
  le→leb,
}
use wasmtime.Debug.AddressTransform.{
  InstructionAddressMap, keys, get_wasm_code_offset, default_srcloc, Range,
}
use wasmtime.Debug.AddressTransform.Ordered.{Ascending, Has}
use wasmtime.Debug.AddressTransform.Build.{
  Building, close_range, add_at, add_instruction, add_instructions, no_ranges,
}
use wasmtime.Debug.AddressTransform.Ranges.{
  AreEntries, IsBuilding, add_at-IsBuilding, close_range-AreEntries, close_range-Has,
  close_range-Ascending,
}

-- An instruction without a source location, or with one in the function.
abbrev pub IsInside : ℕ → ℕ → ℕ → InstructionAddressMap → Type 0
IsInside fn_start fn_end section t =
    (t.srcloc ≡ default_srcloc)
    ⊎ ((fn_start ≤ get_wasm_code_offset t.srcloc section)
        × (get_wasm_code_offset t.srcloc section ≤ fn_end))

abbrev pub AreInside : ℕ → ℕ → ℕ → List InstructionAddressMap → Type 0
AreInside fn_start fn_end section [] = Unit {0}
AreInside fn_start fn_end section (t ∷ ts) =
    IsInside fn_start fn_end section t × AreInside fn_start fn_end section ts

-- The ranges so far are well formed, and end in the function.
abbrev pub IsBuilt : ℕ → ℕ → Building → Type 0
IsBuilt fn_start fn_end b = IsBuilding fn_start b × (b.last_wasm_pos ≤ fn_end)

module _ (fn_start fn_end section : ℕ) where
  add_instruction-IsBuilt :
      (t : InstructionAddressMap) (b : Building)
      → IsInside fn_start fn_end section t
      → IsBuilt fn_start fn_end b
      → (after : Building) × (add_instruction fn_start fn_end section t b ≡ some after)
        × IsBuilt fn_start fn_end after
  unfolding add_instruction add_at
  add_instruction-IsBuilt t b inside valid = elim (Bool-cases (t.srcloc == default_srcloc)) [
    | inl e ↦ rw e (b, refl, valid)
    | inr e ↦ elim inside [
      | inl d ↦ absurd (ground (arith, e, d))
      | inr i ↦
          rw (e, le→leb _ _ i.0, le→leb _ _ i.1)
            (
              add_at t (get_wasm_code_offset t.srcloc section) b,
              refl,
              (add_at-IsBuilding fn_start b valid.0 t _, i.1),
            )
    ]
  ]

  -- The loop runs through.
  add_instructions-IsBuilt :
      (ts : List InstructionAddressMap) (b : Building)
      → AreInside fn_start fn_end section ts
      → IsBuilt fn_start fn_end b
      → (after : Building) × (add_instructions fn_start fn_end section ts b ≡ some after)
        × IsBuilt fn_start fn_end after
  unfolding add_instructions
  add_instructions-IsBuilt [] b inside valid = (b, refl, valid)
  add_instructions-IsBuilt (t ∷ ts) b inside valid =
      let step = add_instruction-IsBuilt t b inside.0 valid in
      rw (step.1) (add_instructions-IsBuilt ts step.0 inside.1 step.2)

  add_instruction-IsInside :
      (t : InstructionAddressMap) (b : Building) {after : Building}
      → add_instruction fn_start fn_end section t b ≡ some after
      → IsInside fn_start fn_end section t
  unfolding add_instruction
  add_instruction-IsInside t b e = elim (Bool-cases (t.srcloc == default_srcloc)) [
    | inl d ↦ inl (ground (arith, d))
    | inr d ↦ inr (ground (arith, d, e))
  ]

  -- Only instructions in the function let it run through.
  pub add_instructions-AreInside :
      (ts : List InstructionAddressMap) (b : Building) {after : Building}
      → add_instructions fn_start fn_end section ts b ≡ some after
      → AreInside fn_start fn_end section ts
  unfolding add_instructions
  add_instructions-AreInside [] b e = tt
  add_instructions-AreInside (t ∷ ts) b e =
      elim (Option-cases (add_instruction fn_start fn_end section t b)) [
        | inl d ↦ absurd (ground (arith, d, e))
        | inr (c, d) ↦ (add_instruction-IsInside t b d, add_instructions-AreInside ts c (rw d at e))
      ]

-- The ranges of a function, when the loop is done.
pub record IsRanges (fn_start : ℕ) (ranges : List Range) (ranges_index : List (ℕ × ℕ))
    : Type 0 where
  pub ascending : Ascending (keys ranges_index)
  pub entries : AreEntries ranges ranges_index
  pub first : Has fn_start (keys ranges_index)

abbrev pub finished : Building → ℕ → ℕ → Building
finished b fn_end gen_end = close_range b fn_end gen_end

pub add_instructions-IsRanges :
    (fn_start fn_end section body_offset gen_end : ℕ) (ts : List InstructionAddressMap)
    → fn_start ≤ fn_end
    → AreInside fn_start fn_end section ts
    → (b : Building) × (add_instructions fn_start fn_end section ts (no_ranges fn_start body_offset)
        ≡ some b)
      × IsRanges fn_start
          (close_range b fn_end gen_end).ranges
          (close_range b fn_end gen_end).ranges_index
add_instructions-IsRanges fn_start fn_end section body_offset gen_end ts h inside =
    let run =
      add_instructions-IsBuilt fn_start fn_end section ts (no_ranges fn_start body_offset) inside
        (record { climb = omega arith; ascending = tt; entries = tt; first = inl refl }, h) in
    (
      run.0,
      run.1,
      record {
        ascending = close_range-Ascending fn_start run.0 run.2.0 fn_end gen_end;
        entries = close_range-AreEntries fn_start run.0 run.2.0 fn_end gen_end run.2.1;
        first = close_range-Has fn_start run.0 run.2.0 fn_end gen_end;
      },
    )
