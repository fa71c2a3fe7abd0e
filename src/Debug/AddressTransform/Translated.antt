-- ===== src/Debug/AddressTransform/Translated.antt =====
-- wasmtime-debug/src/transform/address_transform.rs: what `translate_raw` finds.
use wasmtime.Base.{
  ℕ, zero, suc, ◌≤◌, ◌<◌, ◌≡◌, ◌≢◌, ◌⊎◌, inl, inr, refl, none, some, List, [], ◌∷◌, length, ◌==◌,
  arith, get_elem?, Bool-cases, le→leb, ==-eq-false,
}
use wasmtime.Debug.Search.{key_at}
use wasmtime.Debug.AddressTransform.{
  FunctionAddressMap, FunctionMap, Range, FuncTransform, AddressTransform, keys,
}
use wasmtime.Debug.AddressTransform.Ordered.{All-get_elem?}
use wasmtime.Debug.AddressTransform.Build.{new}
use wasmtime.Debug.AddressTransform.Translate.{find_func, translate_in, translate_raw}
use wasmtime.Debug.AddressTransform.Functions.{
  IsTransform, IsLookup, IsAddressTransform, new-IsAddressTransform,
}
use wasmtime.Debug.AddressTransform.Found.{Nearest, StartsAt, search-Nearest}
use wasmtime.Debug.AddressTransform.Iterating.{
  iter_at, iter_new-Nearest, active_at-AreNumbers, active_at-ne-nil, next-StartsAt,
}

-- The function whose start is the greatest up to an address.
abbrev pub IsNearest : AddressTransform → ℕ → FuncTransform → Type 0
IsNearest t addr func =
    (i : ℕ) × (get_elem? t.func i ≡ some (func.start, func)) × Nearest (keys t.func) addr i

pub find_func-IsNearest :
    (t : AddressTransform) (addr : ℕ)
    → IsAddressTransform t
    → ((find_func t addr ≡ some none)
        × ((j : ℕ) → j < length (keys t.func) → addr < key_at (keys t.func) j))
      ⊎ ((func : FuncTransform) × (find_func t addr ≡ some (some func))
          × IsNearest t addr func
          × (func.index < length t.map)
          × IsLookup func.start func.lookup
          × (func.start ≤ addr))
unfolding find_func
find_func-IsNearest t addr valid = elim (search-Nearest (keys t.func) addr valid.ascending) [
  | inl (e, greater) ↦ inl (rw (find_func, e) refl, greater)
  | inr (i, e, near) ↦
      let entry = All-get_elem? (IsTransform (length t.map)) t.func i valid.transforms near.0 in
      let starts : entry.0.start ≤ addr = omega (arith, entry.2.0, near.1) in
      inr (
        entry.0,
        rw (find_func, e, entry.1, le→leb _ _ starts) refl,
        (i, rw (entry.2.0) (entry.1), near),
        entry.2.1,
        rw (entry.2.0) (entry.2.2),
        starts,
      )
]

-- The address in a function: the length of its code at its end, and else what starts at the address
-- in a range of it.
abbrev pub IsTranslated : AddressTransform → FuncTransform → ℕ → ℕ → Type 0
IsTranslated t func addr a =
    ((addr ≡ func.end) × (m : FunctionMap) × (get_elem? t.map func.index ≡ some m) × (a ≡ m.len))
    ⊎ ((addr ≢ func.end)
        × (r : ℕ) × (range : Range) × (get_elem? func.lookup.ranges r ≡ some range)
        × StartsAt range addr a)

get_elem?-total :
    (xs : List FunctionMap) (i : ℕ) → i < length xs → (x : FunctionMap) × (get_elem? xs i ≡ some x)
get_elem?-total [] i h = elim h [ ]
get_elem?-total (x ∷ xs) zero h = (x, refl)
get_elem?-total (x ∷ xs) (suc i) h = get_elem?-total xs i (omega arith)

translate_in-IsTranslated :
    (t : AddressTransform) (func : FuncTransform) (addr : ℕ)
    → func.index < length t.map
    → IsLookup func.start func.lookup
    → func.start ≤ addr
    → (a : ℕ) × (translate_in t func addr ≡ some (some (func.index, a)))
      × IsTranslated t func addr a
unfolding translate_in
translate_in-IsTranslated t func addr h valid starts = elim (Bool-cases (addr == func.end)) [
  | inl e ↦
      let m = get_elem?-total t.map func.index h in
      (m.0.len, rw (e, m.1) refl, inl (ground (arith, e), m.0, m.1, refl))
  | inr e ↦
      let new_iter = iter_new-Nearest func addr valid starts in
      let w = key_at (keys valid.entered) new_iter.0 in
      let head =
        active_at-ne-nil func.lookup.ranges valid.entered new_iter.0 valid.ranges_valid.entries
          new_iter.1.0 in
      let item = next-StartsAt (iter_at func addr valid.entered w) head.0 head.1 head.2 (
        rw head.2 at
          (active_at-AreNumbers func.lookup.ranges w valid.entered valid.ranges_valid.entries)) in
      (
        item.2,
        rw (e, new_iter.2, item.4) refl,
        inr (ground (arith, e), head.0, item.0, item.1, item.3),
      )
]

-- A transform that was built translates an address other than 0 without a panic. It finds nothing
-- exactly where every function starts after the address. Otherwise it gives the number of the
-- function with the greatest start up to the address, and the length of that function's code if the
-- address is the function's end. Before and after the end it gives, in a range of that function, the
-- start of an instruction at the address, or where there is none the end of the last instruction
-- before it, or the start of the range.
pub translate_raw_lem :
    (at : List FunctionAddressMap) (section addr : ℕ) (t : AddressTransform)
    → new at section ≡ some t
    → addr ≢ 0
    → ((translate_raw t addr ≡ some none)
        × ((j : ℕ) → j < length (keys t.func) → addr < key_at (keys t.func) j))
      ⊎ ((func : FuncTransform) × (a : ℕ) × (translate_raw t addr ≡ some (some (func.index, a)))
          × IsNearest t addr func
          × IsTranslated t func addr a)
unfolding translate_raw
translate_raw_lem at section addr t e h =
    elim (find_func-IsNearest t addr (new-IsAddressTransform at section e)) [
      | inl (d, greater) ↦ inl (rw (==-eq-false addr 0 h, d) refl, greater)
      | inr (func, d, near, index_valid, lookup_valid, starts) ↦
          let found = translate_in-IsTranslated t func addr index_valid lookup_valid starts in
          inr (func, found.0, rw (==-eq-false addr 0 h, d) (found.1), near, found.2)
    ]
