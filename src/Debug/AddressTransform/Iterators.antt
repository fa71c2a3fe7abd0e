-- ===== src/Debug/AddressTransform/Iterators.antt =====
-- wasmtime-debug/src/transform/address_transform.rs: `TransformRangeIter` and
-- `TransformRangeEndIter`. The loop of the second runs on fuel.
use wasmtime.Base.{
  ℕ, zero, suc, ◌-◌, Option, none, some, List, [], ◌∷◌, length, get_elem?, leb, ◌==◌, if◌then◌else◌,
  ◌>>=◌,
}
use wasmtime.Debug.Search.{Found, found, missing, binary_search}
use wasmtime.Debug.AddressTransform.{Position, Range, FuncTransform, keys}

-- The result of code that may loop for ever: `running` is out of fuel.
pub data Run {ℓ} (A : Type ℓ) : Type ℓ where
  running : Run A
  panicked : Run A
  done : A → Run A

infixl 5 ◌>>>◌
abbrev pub ◌>>>◌ {ℓ κ} : {A : Type ℓ} {B : Type κ} → Run A → (A → Run B) → Run B
running >>> rest = running
panicked >>> rest = panicked
done a >>> rest = rest a

abbrev pub run_of {ℓ} : {A : Type ℓ} → Option A → Run A
run_of none = panicked
run_of (some a) = done a

-- The entry that a search finds, or the one before the place where it would be.
abbrev pub entry_before : Found → Option ℕ
entry_before (found i) = some i
entry_before (missing i) = if i == 0 then none else some (i - 1)

abbrev pub wasm_positions : List Position → List ℕ
wasm_positions [] = []
wasm_positions (p ∷ ps) = p.wasm_pos ∷ wasm_positions ps

-- The fields of both iterators.
pub record RangeIter : Type 0 where
  pub addr : ℕ
  pub indicies : List ℕ
  pub ranges : List Range

-- `TransformRangeIter::new` and `TransformRangeEndIter::new`: an address before the first key of
-- the index is a panic.
unfoldable pub iter_new : FuncTransform → ℕ → Option RangeIter
iter_new func addr = entry_before (binary_search (keys func.lookup.index) addr) >>= λ i.
    get_elem? func.lookup.index i >>= λ entry.
    some (record { addr = addr; indicies = entry.1; ranges = func.lookup.ranges })

-- Where code for an address starts in a range.
abbrev pub start_at : Range → Found → Option ℕ
start_at range (found i) = get_elem? range.positions i >>= λ p. some p.gen_start
start_at range (missing i) =
    if i == 0
    then some range.gen_start
    else (get_elem? range.positions (i - 1) >>= λ p. some p.gen_end)

unfoldable pub start_address : Range → ℕ → Option ℕ
start_address range addr = start_at range (binary_search (wasm_positions range.positions) addr)

-- `TransformRangeIter::next`: the item, and the iterator after it.
unfoldable pub next : RangeIter → Option (Option (ℕ × ℕ) × RangeIter)
next it = elim it.indicies [
  | [] ↦ some (none, it)
  | first ∷ tail ↦ get_elem? it.ranges first >>= λ range. start_address range it.addr >>= λ address.
      some (some (address, first), record it { indicies = tail })
]

-- All the items of the iterator.
unfoldable pub starts : List Range → ℕ → List ℕ → Option (List (ℕ × ℕ))
starts ranges addr [] = some []
starts ranges addr (first ∷ tail) = get_elem? ranges first >>= λ range.
    start_address range addr >>= λ address.
    starts ranges addr tail >>= λ rest. some ((address, first) ∷ rest)

-- Where code up to an address ends in a range.
abbrev pub end_at : Range → Found → Option ℕ
end_at range (found i) = get_elem? range.positions i >>= λ p. some p.gen_end
end_at range (missing i) =
    if i == length range.positions
    then some range.gen_end
    else (get_elem? range.positions i >>= λ p. some p.gen_start)

unfoldable pub end_address : Range → ℕ → Option ℕ
end_address range addr = end_at range (binary_search (wasm_positions range.positions) addr)

abbrev pub end_item : RangeIter → ℕ → List ℕ → Range → Run (Option (ℕ × ℕ) × RangeIter)
end_item it first tail range = run_of (
    end_address range it.addr >>= λ address.
    some (some (address, first), record it { indicies = tail }))

-- `TransformRangeEndIter::next`: a range that starts at or after the address is passed over by a
-- `continue` that leaves the iterator as it is.
unfoldable pub end_next : ℕ → RangeIter → Run (Option (ℕ × ℕ) × RangeIter)
end_next zero it = running
end_next (suc fuel) it =
    let again = end_next fuel it in
    elim it.indicies [
      | [] ↦ done (none, it)
      | first ∷ tail ↦ run_of (get_elem? it.ranges first) >>> λ range.
          if leb it.addr range.wasm_start then again else end_item it first tail range
    ]

-- All the items of the iterator: a call of `next` for each index, and one more.
unfoldable pub ends : ℕ → List Range → ℕ → List ℕ → Run (List (ℕ × ℕ))
ends fuel ranges addr [] = done []
ends fuel ranges addr (first ∷ tail) =
    let rest = ends fuel ranges addr tail in
    end_next fuel (record { addr = addr; indicies = first ∷ tail; ranges = ranges }) >>> λ r.
    elim r.0 [ none ↦ done [] | some item ↦ rest >>> λ items. done (item ∷ items) ]
