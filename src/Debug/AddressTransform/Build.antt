-- ===== src/Debug/AddressTransform/Build.antt =====
-- wasmtime-debug/src/transform/address_transform.rs: `build_function_lookup`,
-- `build_function_addr_map` and `AddressTransform::new`. `none` is a panic.
use wasmtime.Base.{
  ℕ, suc, ◌+◌, ◌%◌, Bool, false, ◌&&◌, Option, none, some, List, [], ◌∷◌, ◌++◌, length, get_elem?,
  ltb, leb, ◌==◌, if◌then◌else◌, ◌>>=◌, usize_mod,
}
use wasmtime.Debug.AddressTransform.{
  InstructionAddressMap, FunctionAddressMap, default_srcloc, AddressMap, FunctionMap, Position,
  Range, FuncLookup, FuncTransform, AddressTransform, get_wasm_code_offset, btree_insert,
}

-- The variables of the first loop of `build_function_lookup`.
pub record Building : Type 0 where
  pub range_wasm_start : ℕ
  pub range_gen_start : ℕ
  pub last_wasm_pos : ℕ
  pub ranges : List Range
  pub ranges_index : List (ℕ × ℕ)
  pub current_range : List Position

-- The current range ends: it is entered in the index by its start, and stored.
abbrev pub close_range : Building → ℕ → ℕ → Building
close_range b wasm_end gen_end = record b {
  ranges_index = btree_insert b.range_wasm_start (length b.ranges) b.ranges_index;
  ranges =
      b.ranges
      ++ (record {
        wasm_start = b.range_wasm_start;
        wasm_end = wasm_end;
        gen_start = b.range_gen_start;
        gen_end = gen_end;
        positions = b.current_range;
      }
          ∷ []);
}

abbrev pub start_range : Building → ℕ → ℕ → Building
start_range b offset gen = record (close_range b b.last_wasm_pos gen) {
  range_wasm_start = offset;
  range_gen_start = gen;
  current_range = [];
}

abbrev pub push_position : InstructionAddressMap → ℕ → Building → Building
push_position t offset b = record b {
  current_range =
      b.current_range
      ++ (record {
        wasm_pos = offset;
        gen_start = t.code_offset;
        gen_end = (t.code_offset + t.code_len) % usize_mod;
      }
          ∷ []);
  last_wasm_pos = offset;
}

-- One instruction at a source offset: a step back in the source starts a new range.
unfoldable pub add_at : InstructionAddressMap → ℕ → Building → Building
add_at t offset b =
    push_position t offset
      (if ltb offset b.last_wasm_pos then start_range b offset t.code_offset else b)

-- The body of the first loop, with its assertion on the offset.
unfoldable pub add_instruction : ℕ → ℕ → ℕ → InstructionAddressMap → Building → Option Building
add_instruction fn_start fn_end code_section_offset t b =
    let offset = get_wasm_code_offset t.srcloc code_section_offset in
    if t.srcloc == default_srcloc
    then some b
    else (if leb fn_start offset && leb offset fn_end then some (add_at t offset b) else none)

unfoldable pub add_instructions :
    ℕ → ℕ → ℕ → List InstructionAddressMap → Building → Option Building
add_instructions fn_start fn_end offset [] b = some b
add_instructions fn_start fn_end offset (t ∷ ts) b =
    add_instruction fn_start fn_end offset t b >>= add_instructions fn_start fn_end offset ts

abbrev pub no_ranges : ℕ → ℕ → Building
no_ranges fn_start body_offset = record {
  range_wasm_start = fn_start;
  range_gen_start = body_offset;
  last_wasm_pos = fn_start;
  ranges = [];
  ranges_index = [];
  current_range = [];
}

-- The variables of the second loop.
pub record Indexing : Type 0 where
  pub active_ranges : List ℕ
  pub index : List (ℕ × List ℕ)
  pub last_wasm_pos : Option ℕ

-- `active_ranges.retain(..)`: the ranges that do not end before an address.
unfoldable pub retain : List Range → ℕ → List ℕ → Option (List ℕ)
retain ranges wasm_start [] = some []
retain ranges wasm_start (r ∷ rs) =
    let rest = retain ranges wasm_start rs in
    get_elem? ranges r >>= λ range.
    rest >>= λ kept. some (if ltb range.wasm_end wasm_start then kept else r ∷ kept)

abbrev pub is_last : ℕ → Option ℕ → Bool
is_last wasm_start none = false
is_last wasm_start (some last) = wasm_start == last

abbrev pub flush : Indexing → List (ℕ × List ℕ)
flush s = elim s.last_wasm_pos [
  | none ↦ s.index
  | some last ↦ btree_insert last s.active_ranges s.index
]

-- The body of the second loop.
unfoldable pub index_range : List Range → ℕ → ℕ → Indexing → Option Indexing
index_range ranges wasm_start range_index s =
    if is_last wasm_start s.last_wasm_pos
    then some (record s { active_ranges = s.active_ranges ++ (range_index ∷ []) })
    else retain ranges wasm_start s.active_ranges >>= λ kept. some (record {
      active_ranges = kept ++ (range_index ∷ []);
      index = flush s;
      last_wasm_pos = some wasm_start;
    })

unfoldable pub index_ranges : List Range → List (ℕ × ℕ) → Indexing → Option Indexing
index_ranges ranges [] s = some s
index_ranges ranges ((wasm_start, range_index) ∷ entries) s =
    index_range ranges wasm_start range_index s >>= index_ranges ranges entries

-- `last_wasm_pos.unwrap()` after the loop.
abbrev pub finish_index : Indexing → Option (List (ℕ × List ℕ))
finish_index s = s.last_wasm_pos >>= λ last. some (btree_insert last s.active_ranges s.index)

abbrev pub no_index : Indexing
no_index = record { active_ranges = []; index = []; last_wasm_pos = none }

unfoldable pub build_index : List Range → List (ℕ × ℕ) → Option (List (ℕ × List ℕ))
build_index ranges ranges_index = index_ranges ranges ranges_index no_index >>= finish_index

abbrev pub lookup_of : ℕ → ℕ → Building → Option (ℕ × (ℕ × FuncLookup))
lookup_of fn_start fn_end b = build_index b.ranges b.ranges_index >>= λ index.
    some (fn_start, (fn_end, record { index = index; ranges = b.ranges }))

-- The two loops, after the assertions of the function.
abbrev pub lookup_between : FunctionAddressMap → ℕ → ℕ → ℕ → Option (ℕ × (ℕ × FuncLookup))
lookup_between ft offset fn_start fn_end =
    add_instructions fn_start fn_end offset ft.instructions (no_ranges fn_start ft.body_offset)
    >>= λ b.
        lookup_of fn_start fn_end
          (close_range b fn_end ((ft.body_offset + ft.body_len) % usize_mod))

unfoldable pub build_function_lookup : FunctionAddressMap → ℕ → Option (ℕ × (ℕ × FuncLookup))
build_function_lookup ft offset =
    let fn_start = get_wasm_code_offset ft.start_srcloc offset in
    let fn_end = get_wasm_code_offset ft.end_srcloc offset in
    if leb offset ft.start_srcloc && leb fn_start fn_end
    then lookup_between ft offset fn_start fn_end
    else none

unfoldable pub build_addresses : List InstructionAddressMap → ℕ → List AddressMap
build_addresses [] offset = []
build_addresses (t ∷ ts) offset =
    let rest = build_addresses ts offset in
    if t.srcloc == default_srcloc
    then rest
    else record { generated = t.code_offset; wasm = get_wasm_code_offset t.srcloc offset } ∷ rest

-- The check under `cfg!(debug)` is not compiled, as nothing sets that option.
unfoldable pub build_function_addr_map : List FunctionAddressMap → ℕ → List FunctionMap
build_function_addr_map [] offset = []
build_function_addr_map (ft ∷ fts) offset =
    record {
      offset = ft.body_offset;
      len = ft.body_len;
      wasm_start = get_wasm_code_offset ft.start_srcloc offset;
      wasm_end = get_wasm_code_offset ft.end_srcloc offset;
      addresses = build_addresses ft.instructions offset;
    }
    ∷ build_function_addr_map fts offset

abbrev pub transform_of : ℕ → ℕ × (ℕ × FuncLookup) → FuncTransform
transform_of i built = record { start = built.0; end = built.1.0; index = i; lookup = built.1.1 }

-- The loop of `AddressTransform::new`, from function `i` on.
unfoldable pub build_funcs :
    ℕ → List FunctionAddressMap → ℕ → List (ℕ × FuncTransform) → Option (List (ℕ × FuncTransform))
build_funcs i [] offset func = some func
build_funcs i (ft ∷ fts) offset func = build_function_lookup ft offset >>= λ built.
    build_funcs (suc i) fts offset (btree_insert built.0 (transform_of i built) func)

unfoldable pub new : List FunctionAddressMap → ℕ → Option AddressTransform
new at offset = build_funcs 0 at offset [] >>= λ func.
    some (record { map = build_function_addr_map at offset; func = func })
