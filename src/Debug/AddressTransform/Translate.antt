-- ===== src/Debug/AddressTransform/Translate.antt =====
-- wasmtime-debug/src/transform/address_transform.rs: the operations of `AddressTransform`. `none`
-- outside is a panic, `none` inside an address that was not found.
use wasmtime.Base.{
  ℕ, ◌+◌, ◌-◌, ◌%◌, Bool, true, false, Option, none, some, List, [], ◌∷◌, ◌++◌, get_elem?, leb,
  ◌==◌, if◌then◌else◌, ◌>>=◌, usize_mod,
}
use wasmtime.Debug.Search.{binary_search}
use wasmtime.Debug.AddressTransform.{Range, FuncTransform, AddressTransform, keys}
use wasmtime.Debug.AddressTransform.Iterators.{
  Run, done, ◌>>>◌, run_of, entry_before, iter_new, next, starts, ends,
}

abbrev pub if_inside : FuncTransform → ℕ → Option FuncTransform
if_inside func addr = if leb func.start addr then some func else none

-- `find_func`
unfoldable pub find_func : AddressTransform → ℕ → Option (Option FuncTransform)
find_func t addr = elim (entry_before (binary_search (keys t.func) addr)) [
  | none ↦ some none
  | some i ↦ get_elem? t.func i >>= λ entry. some (if_inside entry.1 addr)
]

unfoldable pub find_func_index : AddressTransform → ℕ → Option (Option ℕ)
find_func_index t addr =
    find_func t addr >>= λ f. elim f [ none ↦ some none | some func ↦ some (some func.index) ]

abbrev pub first_address : FuncTransform → Option (ℕ × ℕ) → Option (ℕ × ℕ)
first_address func none = none
first_address func (some item) = some (func.index, item.0)

-- The address in a function: its end is mapped to the end of its code.
unfoldable pub translate_in : AddressTransform → FuncTransform → ℕ → Option (Option (ℕ × ℕ))
translate_in t func addr =
    if addr == func.end
    then (get_elem? t.map func.index >>= λ m. some (some (func.index, m.len)))
    else (iter_new func addr >>= next >>= λ r. some (first_address func r.0))

unfoldable pub translate_raw : AddressTransform → ℕ → Option (Option (ℕ × ℕ))
translate_raw t addr =
    if addr == 0
    then some none
    else (find_func t addr >>= λ f. elim f [
      | none ↦ some none
      | some func ↦ translate_in t func addr
    ])

-- `write::Address::Symbol`; the addend is kept as the word that it is cast from.
pub record Symbol : Type 0 where
  pub symbol : ℕ
  pub addend : ℕ

abbrev pub symbol_of : ℕ → ℕ → Symbol
symbol_of func_index address = record { symbol = func_index; addend = address }

unfoldable pub translate : AddressTransform → ℕ → Option (Option Symbol)
translate t addr = translate_raw t addr >>= λ r. elim r [
  | none ↦ some none
  | some (func_index, address) ↦ some (some (symbol_of func_index address))
]

unfoldable pub can_translate_address : AddressTransform → ℕ → Option Bool
can_translate_address t addr =
    translate t addr >>= λ r. elim r [ none ↦ some false | some address ↦ some true ]

-- The hash map `starts`, from range to address: the last entry of a range counts.
abbrev pub insert_start : ℕ → ℕ → List (ℕ × ℕ) → List (ℕ × ℕ)
insert_start r address [] = (r, address) ∷ []
insert_start r address ((k, v) ∷ m) =
    let rest = insert_start r address m in if r == k then (r, address) ∷ m else (k, v) ∷ rest

abbrev pub insert_starts : List (ℕ × ℕ) → List (ℕ × ℕ) → List (ℕ × ℕ)
insert_starts [] m = m
insert_starts ((address, r) ∷ items) m = insert_starts items (insert_start r address m)

abbrev pub get_start : ℕ → List (ℕ × ℕ) → Option ℕ
get_start r [] = none
get_start r ((k, v) ∷ m) = if r == k then some v else get_start r m

abbrev pub remove_start : ℕ → List (ℕ × ℕ) → List (ℕ × ℕ)
remove_start r [] = []
remove_start r ((k, v) ∷ m) = let rest = remove_start r m in if r == k then rest else (k, v) ∷ rest

-- `for_each` over the ends: each takes the start of its range, or else the start of the range.
unfoldable pub pair_ends :
    List Range → List (ℕ × ℕ) → List (ℕ × ℕ) → Option (List (ℕ × ℕ) × List (ℕ × ℕ))
pair_ends ranges [] m = some ([], m)
pair_ends ranges ((a, r) ∷ items) m = elim (get_start r m) [
  | none ↦ get_elem? ranges r >>= λ range.
      pair_ends ranges items m >>= λ p. some ((range.gen_start, a) ∷ p.0, p.1)
  | some start ↦ pair_ends ranges items (remove_start r m) >>= λ p. some ((start, a) ∷ p.0, p.1)
]

-- The starts that no end took, up to the ends of their ranges.
unfoldable pub pair_starts : List Range → List (ℕ × ℕ) → Option (List (ℕ × ℕ))
pair_starts ranges [] = some []
pair_starts ranges ((r, start) ∷ m) = get_elem? ranges r >>= λ range.
    pair_starts ranges m >>= λ rest. some ((start, range.gen_end) ∷ rest)

-- `drain` puts the rest of the hash map in the order in which it is iterated.
abbrev pub pair_all :
    (List (ℕ × ℕ) → List (ℕ × ℕ)) → List Range → List (ℕ × ℕ) → List (ℕ × ℕ) → Option (List (ℕ × ℕ))
pair_all drain ranges first last = pair_ends ranges last (insert_starts first []) >>= λ p.
    pair_starts ranges (drain p.1) >>= λ rest. some (p.0 ++ rest)

unfoldable pub ranges_in :
    ℕ → (List (ℕ × ℕ) → List (ℕ × ℕ)) → FuncTransform → ℕ → ℕ → Run (List (ℕ × ℕ))
ranges_in fuel drain func start end =
    run_of (iter_new func start >>= λ it. starts it.ranges it.addr it.indicies) >>> λ first.
    run_of (iter_new func end) >>> λ it. ends fuel it.ranges it.addr it.indicies >>> λ last.
    run_of (pair_all drain func.lookup.ranges first last)

unfoldable pub translate_ranges_raw :
    ℕ → (List (ℕ × ℕ) → List (ℕ × ℕ)) → AddressTransform → ℕ → ℕ → Run (Option (ℕ × List (ℕ × ℕ)))
translate_ranges_raw fuel drain t start end =
    if start == 0
    then done none
    else (run_of (find_func t start) >>> λ f. elim f [
      | none ↦ done none
      | some func ↦
          ranges_in fuel drain func start end >>> λ result. done (some (func.index, result))
    ])

-- An address and a length; the subtraction is that of `usize`.
abbrev pub sized : ℕ → List (ℕ × ℕ) → List (Symbol × ℕ)
sized func_index [] = []
sized func_index ((start, end) ∷ ranges) =
    (symbol_of func_index start, (end + usize_mod - start) % usize_mod) ∷ sized func_index ranges

unfoldable pub translate_ranges :
    ℕ → (List (ℕ × ℕ) → List (ℕ × ℕ)) → AddressTransform → ℕ → ℕ → Run (List (Symbol × ℕ))
translate_ranges fuel drain t start end = translate_ranges_raw fuel drain t start end >>> λ r.
    elim r [ none ↦ done [] | some (func_index, ranges) ↦ done (sized func_index ranges) ]

unfoldable pub func_range : AddressTransform → ℕ → Option (ℕ × ℕ)
func_range t index = get_elem? t.map index >>= λ m. some (m.offset, (m.offset + m.len) % usize_mod)

unfoldable pub func_source_range : AddressTransform → ℕ → Option (ℕ × ℕ)
func_source_range t index = get_elem? t.map index >>= λ m. some (m.wasm_start, m.wasm_end)

-- `convert_to_code_range` of a symbol.
unfoldable pub convert_to_code_range : Symbol → ℕ → ℕ × ℕ
convert_to_code_range address len = (address.addend, (address.addend + len) % usize_mod)
