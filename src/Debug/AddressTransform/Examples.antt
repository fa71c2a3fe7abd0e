-- ===== src/Debug/AddressTransform/Examples.antt =====
-- wasmtime-debug/src/transform/address_transform.rs: a function with a loop, whose instructions step
-- back in the source.
use mathlib.Core.List.Permᴰ.{refl as refl_perm}
use mathlib.Core.List.{Permᴰ}
use wasmtime.Base.{◌↔◌, ◌<◌, ◌⊎◌, length, ℕ, zero, suc, ◌≡◌, refl, none, some, List, [], ◌∷◌, arith}
use wasmtime.Debug.AddressTransform.{
  Range, keys, InstructionAddressMap, FunctionAddressMap, AddressTransform, FuncTransform,
  FunctionMap,
}
use wasmtime.Debug.Search.{key_at}
use wasmtime.Debug.AddressTransform.Ordered.{Has}
use wasmtime.Debug.AddressTransform.Build.{new, build_index}
use wasmtime.Debug.AddressTransform.Translate.{find_func, translate_raw, translate_ranges_raw}
use wasmtime.Debug.AddressTransform.Iterators.{running, done}
use wasmtime.Debug.AddressTransform.Ranges.{AreEntries}
use wasmtime.Debug.AddressTransform.Index.{index_of, build_index-index_of}
use wasmtime.Debug.AddressTransform.Functions.{AreFunctions, IsAddressTransform, new_iff}
use wasmtime.Debug.AddressTransform.Translated.{IsNearest, IsTranslated, translate_raw_lem}
use wasmtime.Debug.AddressTransform.Endless.{translate_ranges_raw-running}
use wasmtime.Debug.AddressTransform.Returning.{translate_ranges_raw-done}

abbrev at_source : ℕ → ℕ → InstructionAddressMap
at_source srcloc code_offset = record { srcloc = srcloc; code_offset = code_offset; code_len = 4 }

abbrev looping : FunctionAddressMap
looping = record {
  instructions = at_source 112 0 ∷ (at_source 120 4 ∷ (at_source 115 8 ∷ (at_source 130 12 ∷ [])));
  start_srcloc = 110;
  end_srcloc = 140;
  body_offset = 0;
  body_len = 20;
}

abbrev two_ranges : List Range
two_ranges =
    record {
      wasm_start = 10;
      wasm_end = 20;
      gen_start = 0;
      gen_end = 8;
      positions =
          record { wasm_pos = 12; gen_start = 0; gen_end = 4 }
          ∷ (record { wasm_pos = 20; gen_start = 4; gen_end = 8 } ∷ []);
    }
    ∷ (record {
      wasm_start = 15;
      wasm_end = 40;
      gen_start = 8;
      gen_end = 20;
      positions =
          record { wasm_pos = 15; gen_start = 8; gen_end = 12 }
          ∷ (record { wasm_pos = 30; gen_start = 12; gen_end = 16 } ∷ []);
    }
        ∷ [])

abbrev loop_transform : FuncTransform
loop_transform = record {
  start = 10;
  end = 40;
  index = 0;
  lookup = record { index = (10, 0 ∷ []) ∷ ((15, 0 ∷ (1 ∷ [])) ∷ []); ranges = two_ranges };
}

abbrev loop_map : FunctionMap
loop_map = record {
  offset = 0;
  len = 20;
  wasm_start = 10;
  wasm_end = 40;
  addresses =
      record { generated = 0; wasm = 12 }
      ∷ (record { generated = 4; wasm = 20 }
          ∷ (record { generated = 8; wasm = 15 } ∷ (record { generated = 12; wasm = 30 } ∷ [])));
}

abbrev one_function : AddressTransform
one_function = record { map = loop_map ∷ []; func = (10, loop_transform) ∷ [] }

one_function_built : new (looping ∷ []) 100 ≡ some one_function
unfolding new wasmtime.Debug.AddressTransform.Build.build_funcs
    wasmtime.Debug.AddressTransform.Build.build_function_lookup
    wasmtime.Debug.AddressTransform.get_wasm_code_offset
    wasmtime.Debug.AddressTransform.Build.add_instructions
    wasmtime.Debug.AddressTransform.Build.add_instruction build_index
    wasmtime.Debug.AddressTransform.Build.index_ranges wasmtime.Debug.AddressTransform.btree_insert
    wasmtime.Debug.AddressTransform.Build.add_at wasmtime.Debug.AddressTransform.Build.index_range
    wasmtime.Debug.AddressTransform.Build.retain
    wasmtime.Debug.AddressTransform.Build.build_function_addr_map
    wasmtime.Debug.AddressTransform.Build.build_addresses
one_function_built = refl

loop_found : (addr : ℕ) → addr ≡ 12 → find_func one_function addr ≡ some (some loop_transform)
unfolding find_func wasmtime.Debug.Search.binary_search wasmtime.Debug.Search.halve
loop_found addr e = rw e refl

same_order : (m : List (ℕ × ℕ)) → Permᴰ m m
same_order m = refl_perm m

abbrev range_entries : List (ℕ × ℕ)
range_entries = (10, 0) ∷ ((15, 1) ∷ [])

two_ranges-AreEntries : AreEntries two_ranges range_entries
two_ranges-AreEntries = ((_, refl, refl, omega arith), ((_, refl, refl, omega arith), tt))

build_index-index_of_example :
    build_index two_ranges range_entries ≡ some (index_of two_ranges range_entries range_entries)
build_index-index_of_example =
    build_index-index_of two_ranges 10 0 ((15, 1) ∷ []) (omega arith) two_ranges-AreEntries

new_iff_example :
    ((t : AddressTransform) × (new (looping ∷ []) 100 ≡ some t) × IsAddressTransform t)
    ↔ AreFunctions 100 (looping ∷ [])
new_iff_example = new_iff (looping ∷ []) 100

translate_raw_lem_example :
    ((translate_raw one_function 17 ≡ some none)
      × ((j : ℕ) → j < length (keys one_function.func) → 17 < key_at (keys one_function.func) j))
    ⊎ ((func : FuncTransform) × (a : ℕ) × (translate_raw one_function 17
          ≡ some (some (func.index, a)))
        × IsNearest one_function 17 func
        × IsTranslated one_function func 17 a)
translate_raw_lem_example =
    translate_raw_lem (looping ∷ []) 100 17 one_function one_function_built
      (λ e. absurd (omega (arith, e)))

not_a_start : ¬ Has 18 (10 ∷ (15 ∷ []))
not_a_start (zero, h, e) = omega (arith, e)
not_a_start (suc zero, h, e) = omega (arith, e)
not_a_start (suc (suc i), h, e) = omega (arith, h)

translate_ranges_raw-running_example :
    translate_ranges_raw 1000 (λ m. m) one_function 12 15 ≡ running
translate_ranges_raw-running_example =
    translate_ranges_raw-running (looping ∷ []) 100 one_function loop_transform 12 15 1000 (λ m. m)
      one_function_built (λ e. absurd (omega (arith, e))) (loop_found 12 refl) (omega arith)
      (1, omega arith, refl)

translate_ranges_raw-done_example :
    (pairs : List (ℕ × ℕ)) × (translate_ranges_raw 1 (λ m. m) one_function 12 18
      ≡ done (some (0, pairs)))
translate_ranges_raw-done_example =
    translate_ranges_raw-done (λ m. m) same_order (looping ∷ []) 100 one_function loop_transform 12
      18 0 one_function_built (λ e. absurd (omega (arith, e))) (loop_found 12 refl) (omega arith)
      not_a_start
