-- ===== src/Debug/AddressTransform/Functions.antt =====
-- wasmtime-debug/src/transform/address_transform.rs: when `build_function_lookup` and
-- `AddressTransform::new` succeed, and what they then return.
use wasmtime.Base.{
  ◌↔◌, subst, ap, ℕ, suc, ◌+◌, ◌%◌, ◌≤◌, ◌<◌, ◌≡◌, inl, inr, refl, some, List, [], ◌∷◌, length, leb,
  arith, Bool-cases, leb→le, le→leb, usize_mod, Option-cases,
}
use wasmtime.Debug.AddressTransform.{
  FunctionAddressMap, get_wasm_code_offset, Range, FuncLookup, FuncTransform, AddressTransform,
  btree_insert, keys,
}
use wasmtime.Debug.AddressTransform.Ordered.{
  All, Ascending, All-btree_insert, btree_insert-Ascending,
}
use wasmtime.Debug.AddressTransform.Build.{
  close_range, no_ranges, add_instructions, build_index, lookup_between, build_function_lookup,
  build_funcs, transform_of, new, build_function_addr_map,
}
use wasmtime.Debug.AddressTransform.Loop.{
  AreInside, IsRanges, add_instructions-IsRanges, add_instructions-AreInside,
}
use wasmtime.Debug.AddressTransform.Index.{index_of, build_index-index_of}

-- A function that lies in the code section, with its instructions in it.
pub record IsFunction (section : ℕ) (ft : FunctionAddressMap) : Type 0 where
  pub after_section : section ≤ ft.start_srcloc
  pub ordered :
      get_wasm_code_offset ft.start_srcloc section ≤ get_wasm_code_offset ft.end_srcloc section
  pub inside :
      AreInside
        (get_wasm_code_offset ft.start_srcloc section)
        (get_wasm_code_offset ft.end_srcloc section)
        section
        ft.instructions

-- The lookup data of a function: ranges entered by their starts, and the index of them.
pub record IsLookup (start : ℕ) (lookup : FuncLookup) : Type 0 where
  pub entered : List (ℕ × ℕ)
  pub ranges_valid : IsRanges start lookup.ranges entered
  pub indexed : lookup.index ≡ index_of lookup.ranges entered entered

build_index-IsRanges :
    (start : ℕ) (ranges : List Range) (entries : List (ℕ × ℕ))
    → IsRanges start ranges entries
    → build_index ranges entries ≡ some (index_of ranges entries entries)
build_index-IsRanges start ranges [] valid = absurd (omega (arith, valid.first.1))
build_index-IsRanges start ranges ((w, r) ∷ entries) valid =
    build_index-index_of ranges w r entries valid.ascending valid.entries

-- The lookup data of a function lies between the offsets of its start and its end.
abbrev pub Built : ℕ → FunctionAddressMap → ℕ × (ℕ × FuncLookup) → Type 0
Built section ft built =
    (built.0 ≡ get_wasm_code_offset ft.start_srcloc section)
    × (built.1.0 ≡ get_wasm_code_offset ft.end_srcloc section)
    × IsLookup built.0 built.1.1

build_function_lookup-Built :
    (section : ℕ) (ft : FunctionAddressMap)
    → IsFunction section ft
    → (built : ℕ × (ℕ × FuncLookup)) × (build_function_lookup ft section ≡ some built)
      × Built section ft built
unfolding build_function_lookup
build_function_lookup-Built section ft valid =
    let fn_start = get_wasm_code_offset ft.start_srcloc section in
    let fn_end = get_wasm_code_offset ft.end_srcloc section in
    let gen_end = (ft.body_offset + ft.body_len) % usize_mod in
    let run =
      add_instructions-IsRanges fn_start fn_end section ft.body_offset gen_end ft.instructions
        valid.ordered valid.inside in
    let closed = close_range run.0 fn_end gen_end in
    rw
      (
        le→leb _ _ valid.after_section,
        le→leb _ _ valid.ordered,
        run.1,
        build_index-IsRanges fn_start closed.ranges closed.ranges_index run.2,
      )
      (
        _,
        refl,
        (
          refl,
          refl,
          record { entered = closed.ranges_index; ranges_valid = run.2; indexed = refl },
        ),
      )

lookup_between-AreInside :
    (ft : FunctionAddressMap) (section fn_start fn_end : ℕ) {built : ℕ × (ℕ × FuncLookup)}
    → lookup_between ft section fn_start fn_end ≡ some built
    → AreInside fn_start fn_end section ft.instructions
lookup_between-AreInside ft section fn_start fn_end e =
    elim (Option-cases (
      add_instructions fn_start fn_end section ft.instructions
        (no_ranges fn_start ft.body_offset))) [
          | inl d ↦ absurd (ground (arith, d, e))
          | inr (b, d) ↦ add_instructions-AreInside fn_start fn_end section ft.instructions _ d
        ]

build_function_lookup-IsFunction :
    (section : ℕ) (ft : FunctionAddressMap) {built : ℕ × (ℕ × FuncLookup)}
    → build_function_lookup ft section ≡ some built
    → IsFunction section ft
unfolding build_function_lookup
build_function_lookup-IsFunction section ft e =
    let fn_start = get_wasm_code_offset ft.start_srcloc section in
    let fn_end = get_wasm_code_offset ft.end_srcloc section in
    elim (Bool-cases (leb section ft.start_srcloc)) [
      | inr f ↦ absurd (ground (arith, f, e))
      | inl f ↦ elim (Bool-cases (leb fn_start fn_end)) [
        | inr g ↦ absurd (ground (arith, f, g, e))
        | inl g ↦ record {
          after_section = leb→le _ _ f;
          ordered = leb→le _ _ g;
          inside = lookup_between-AreInside ft section fn_start fn_end (rw (f, g) at e);
        }
      ]
    ]

abbrev pub AreFunctions : ℕ → List FunctionAddressMap → Type 0
AreFunctions section [] = Unit {0}
AreFunctions section (ft ∷ fts) = IsFunction section ft × AreFunctions section fts

-- An entry of the table of functions, of a module with `n` functions.
abbrev pub IsTransform : ℕ → ℕ → FuncTransform → Type 0
IsTransform n key func = (func.start ≡ key) × (func.index < n) × IsLookup key func.lookup

pub record IsAddressTransform (t : AddressTransform) : Type 0 where
  pub ascending : Ascending (keys t.func)
  pub transforms : All (IsTransform (length t.map)) t.func

abbrev AreTransforms : ℕ → List (ℕ × FuncTransform) → Type 0
AreTransforms n func = Ascending (keys func) × All (IsTransform n) func

build_funcs-AreTransforms :
    (section n i : ℕ) (fts : List FunctionAddressMap) (func : List (ℕ × FuncTransform))
    → i + length fts ≤ n
    → AreFunctions section fts
    → AreTransforms n func
    → (built : List (ℕ × FuncTransform)) × (build_funcs i fts section func ≡ some built)
      × AreTransforms n built
unfolding build_funcs
build_funcs-AreTransforms section n i [] func h valid p = (func, refl, p)
build_funcs-AreTransforms section n i (ft ∷ fts) func h valid p =
    let one = build_function_lookup-Built section ft valid.0 in
    rw (one.1) (
      build_funcs-AreTransforms section n (suc i) fts
        (btree_insert one.0.0 (transform_of i one.0) func) (omega arith) valid.1
        (
          btree_insert-Ascending func one.0.0 (transform_of i one.0) p.0,
          All-btree_insert (IsTransform n) func one.0.0 (transform_of i one.0)
              (refl, omega arith, one.2.2) p.1,
        ))

build_funcs-AreFunctions :
    (section i : ℕ) (fts : List FunctionAddressMap) (func : List (ℕ × FuncTransform))
    {built : List (ℕ × FuncTransform)}
    → build_funcs i fts section func ≡ some built
    → AreFunctions section fts
unfolding build_funcs
build_funcs-AreFunctions section i [] func e = tt
build_funcs-AreFunctions section i (ft ∷ fts) func e =
    elim (Option-cases (build_function_lookup ft section)) [
      | inl d ↦ absurd (ground (arith, d, e))
      | inr (one, d) ↦ (
        build_function_lookup-IsFunction section ft d,
        build_funcs-AreFunctions section (suc i) fts (btree_insert one.0 (transform_of i one) func)
            (rw d at e),
      )
    ]

length-build_function_addr_map :
    (fts : List FunctionAddressMap) (section : ℕ)
    → length (build_function_addr_map fts section) ≡ length fts
unfolding build_function_addr_map
length-build_function_addr_map [] section = refl
length-build_function_addr_map (ft ∷ fts) section =
    ap suc (length-build_function_addr_map fts section)

-- An address transform is built without a panic exactly when each function starts in the code
-- section, does not end before it starts, and has all its located instructions between the two. The
-- functions are then in ascending order of their starts, each with the number of a function of the
-- module and with an index of its ranges.
pub new_iff :
    (at : List FunctionAddressMap) (section : ℕ)
    → ((t : AddressTransform) × (new at section ≡ some t) × IsAddressTransform t)
      ↔ AreFunctions section at
unfolding new
new_iff at section = (
  (λ h. elim (Option-cases (build_funcs 0 at section [])) [
    | inl d ↦ absurd (ground (arith, d, h.1))
    | inr (func, d) ↦ build_funcs-AreFunctions section 0 at [] d
  ]),
  (λ valid.
      let run =
        build_funcs-AreTransforms section (length at) 0 at [] (omega arith) valid (tt, tt) in
      rw (run.1) (
        _,
        refl,
        record {
          ascending = run.2.0;
          transforms = rw (length-build_function_addr_map at section) run.2.1;
        },
      )),
)

pub new-IsAddressTransform :
    (at : List FunctionAddressMap) (section : ℕ) {t : AddressTransform}
    → new at section ≡ some t
    → IsAddressTransform t
unfolding new
new-IsAddressTransform at section {t} e = elim (Option-cases (build_funcs 0 at section [])) [
  | inl d ↦ absurd (ground (arith, d, e))
  | inr (func, d) ↦
      let made = (new_iff at section).1 (build_funcs-AreFunctions section 0 at [] d) in
      subst IsAddressTransform (cc) made.2
]
