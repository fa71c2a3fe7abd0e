-- ===== src/Debug/AddressTransform/Endless.antt =====
-- wasmtime-debug/src/transform/address_transform.rs: when the loop of `TransformRangeEndIter::next`
-- ends, and with it `translate_ranges_raw`.
use wasmtime.Base.{
  ltb, ltb→lt, subst, ℕ, zero, suc, ◌≤◌, ◌<◌, ◌≡◌, ◌≢◌, ◌⊎◌, inl, inr, refl, none, some, List, [],
  ◌∷◌, length, leb, ◌&&◌, arith, get_elem?, Bool-cases, leb→le, le→leb, leb-eq-false, ==-eq-false,
}
use wasmtime.Debug.Search.{key_at}
use wasmtime.Debug.AddressTransform.{
  FunctionAddressMap, Range, FuncTransform, AddressTransform, keys,
}
use wasmtime.Debug.AddressTransform.Ordered.{Ascending, Has, Ascending-lt}
use wasmtime.Debug.AddressTransform.Iterators.{running, done, RangeIter, end_next, ends, starts}
use wasmtime.Debug.AddressTransform.Translate.{find_func, ranges_in, translate_ranges_raw}
use wasmtime.Debug.AddressTransform.Build.{new}
use wasmtime.Debug.AddressTransform.Ranges.{IsRange, AreEntries}
use wasmtime.Debug.AddressTransform.Index.{end_of, active_at, IsEntry-end_of}
use wasmtime.Debug.AddressTransform.Functions.{IsLookup, IsAddressTransform, new-IsAddressTransform}
use wasmtime.Debug.AddressTransform.Found.{start_address-StartsAt, Nearest, end_address-EndsAt}
use wasmtime.Debug.AddressTransform.Iterating.{
  AreNumbers, active_at-AreNumbers, iter_new-Nearest, keys-index_of,
}
use wasmtime.Debug.AddressTransform.Translated.{find_func-IsNearest}

abbrev pub start_of : List Range → ℕ → ℕ
start_of ranges r = elim (get_elem? ranges r) [ none ↦ 0 | some range ↦ range.wasm_start ]

-- Some range starts at or after an address.
abbrev Late : List Range → ℕ → List ℕ → Type 0
Late ranges addr [] = ⊥
Late ranges addr (r ∷ rs) = (addr ≤ start_of ranges r) ⊎ Late ranges addr rs

-- Every range starts before an address.
abbrev pub Early : List Range → ℕ → List ℕ → Type 0
Early ranges addr [] = Unit {0}
Early ranges addr (r ∷ rs) = (start_of ranges r < addr) × Early ranges addr rs

abbrev end_iter : List Range → ℕ → List ℕ → RangeIter
end_iter ranges addr rs = record { addr = addr; indicies = rs; ranges = ranges }

start_of-eq :
    (ranges : List Range) (r : ℕ) {range : Range}
    → get_elem? ranges r ≡ some range
    → start_of ranges r ≡ range.wasm_start
start_of-eq ranges r at = rw (start_of, at) refl

-- The `continue` leaves the iterator as it is.
end_next-running :
    (fuel : ℕ) (ranges : List Range) (addr r : ℕ) (rs : List ℕ) {range : Range}
    → get_elem? ranges r ≡ some range
    → addr ≤ range.wasm_start
    → end_next fuel (end_iter ranges addr (r ∷ rs)) ≡ running
unfolding end_next
end_next-running zero ranges addr r rs at h = refl
end_next-running (suc fuel) ranges addr r rs {range} at h =
    rw (at, le→leb addr range.wasm_start h, end_next-running fuel ranges addr r rs at h) refl

end_next-done :
    (fuel : ℕ) (ranges : List Range) (addr r : ℕ) (rs : List ℕ) {range : Range}
    → get_elem? ranges r ≡ some range
    → IsRange range
    → range.wasm_start < addr
    → (a : ℕ) × (end_next (suc fuel) (end_iter ranges addr (r ∷ rs))
        ≡ done (some (a, r), end_iter ranges addr rs))
unfolding end_next
end_next-done fuel ranges addr r rs {range} at valid h =
    let found = end_address-EndsAt range addr valid in
    (found.0, rw (at, leb-eq-false addr range.wasm_start h, found.1) refl)

ends-running :
    (fuel : ℕ) (ranges : List Range) (addr : ℕ) (rs : List ℕ)
    → AreNumbers ranges rs
    → Late ranges addr rs
    → ends fuel ranges addr rs ≡ running
unfolding ends end_next
ends-running fuel ranges addr [] valid late = absurd late
ends-running zero ranges addr (r ∷ rs) valid late = refl
ends-running (suc fuel) ranges addr (r ∷ rs) ((range, at, p), valid) late =
    elim (Bool-cases (leb addr range.wasm_start)) [
      | inl e ↦ rw (end_next-running (suc fuel) ranges addr r rs at (leb→le _ _ e)) refl
      | inr e ↦
          let item = end_next-done fuel ranges addr r rs at p (ground (arith, e)) in
          elim late [
            | inl h ↦ absurd (ground (arith, h, e, start_of-eq ranges r at))
            | inr later ↦ rw (item.1, ends-running (suc fuel) ranges addr rs valid later) refl
          ]
    ]

-- The ranges of the items.
abbrev pub HaveRanges : List Range → List (ℕ × ℕ) → Type 0
HaveRanges ranges [] = Unit {0}
HaveRanges ranges ((a, r) ∷ items) =
    ((range : Range) × (get_elem? ranges r ≡ some range)) × HaveRanges ranges items

pub starts-HaveRanges :
    (ranges : List Range) (addr : ℕ) (rs : List ℕ)
    → AreNumbers ranges rs
    → (items : List (ℕ × ℕ)) × (starts ranges addr rs ≡ some items) × HaveRanges ranges items
unfolding starts
starts-HaveRanges ranges addr [] valid = ([], refl, tt)
starts-HaveRanges ranges addr (r ∷ rs) ((range, at, p), valid) =
    let a = start_address-StartsAt range addr p in
    let rest = starts-HaveRanges ranges addr rs valid in
    ((a.0, r) ∷ rest.0, rw (at, a.1, rest.1) refl, ((range, at), rest.2))

pub ends-done :
    (fuel : ℕ) (ranges : List Range) (addr : ℕ) (rs : List ℕ)
    → AreNumbers ranges rs
    → Early ranges addr rs
    → (items : List (ℕ × ℕ)) × (ends (suc fuel) ranges addr rs ≡ done items)
      × HaveRanges ranges items
unfolding ends
ends-done fuel ranges addr [] valid early = ([], refl, tt)
ends-done fuel ranges addr (r ∷ rs) ((range, at, p), valid) early =
    let item =
      end_next-done fuel ranges addr r rs at p (omega (arith, early.0, start_of-eq ranges r at)) in
    let rest = ends-done fuel ranges addr rs valid early.1 in
    ((item.0, r) ∷ rest.0, rw (item.1, rest.1) refl, ((range, at), rest.2))

active_at-Late :
    (ranges : List Range) (entries : List (ℕ × ℕ)) (i : ℕ)
    → AreEntries ranges entries
    → i < length (keys entries)
    → Late ranges (key_at (keys entries) i) (active_at ranges (key_at (keys entries) i) entries)
active_at-Late ranges [] i valid h = elim h [ ]
active_at-Late ranges ((w, r) ∷ entries) zero (e, valid) h =
    rw (le→leb w w (omega arith), le→leb w (end_of ranges r) (IsEntry-end_of ranges w r e))
      (inl (omega (arith, e.2, start_of-eq ranges r e.1)))
active_at-Late ranges ((w, r) ∷ entries) (suc i) (e, valid) h =
    let later = active_at-Late ranges entries i valid (omega arith) in
    elim (Bool-cases
      (leb w (key_at (keys entries) i) && leb (key_at (keys entries) i) (end_of ranges r))) [
        | inl f ↦ rw f (inr later)
        | inr f ↦ rw f later
      ]

pub active_at-Early :
    (ranges : List Range) (entries : List (ℕ × ℕ)) (w addr : ℕ)
    → AreEntries ranges entries
    → w < addr
    → Early ranges addr (active_at ranges w entries)
active_at-Early ranges [] w addr valid h = tt
active_at-Early ranges ((start, r) ∷ entries) w addr (e, valid) h =
    let rest = active_at-Early ranges entries w addr valid h in
    elim (Bool-cases (leb start w && leb w (end_of ranges r))) [
      | inl f ↦ rw f (ground (arith, f, e.2, start_of-eq ranges r e.1), rest)
      | inr f ↦ rw f rest
    ]

-- A function that `find_func` finds.
pub find_func-IsLookup :
    (t : AddressTransform) (addr : ℕ) (func : FuncTransform)
    → IsAddressTransform t
    → find_func t addr ≡ some (some func)
    → IsLookup func.start func.lookup × (func.start ≤ addr)
find_func-IsLookup t addr func valid e = elim (find_func-IsNearest t addr valid) [
  | inl (d, greater) ↦ absurd (cc)
  | inr (other, d, near, index_valid, lookup_valid, below) ↦
      let same : other ≡ func = cc in
      subst (λ (f : FuncTransform). IsLookup f.start f.lookup × (f.start ≤ addr)) same
        (lookup_valid, below)
]

-- The starts of the ranges in the index of a function.
abbrev pub range_starts : FuncTransform → List ℕ
range_starts func = keys func.lookup.index

-- The address at which the range of the greatest start up to it begins.
Nearest-unique :
    (xs : List ℕ) (addr i j : ℕ)
    → Ascending xs
    → Nearest xs addr i
    → j < length xs
    → key_at xs j ≡ addr
    → key_at xs i ≡ addr
Nearest-unique xs addr i j up near h e = elim (Bool-cases (ltb i j)) [
  | inl l ↦ absurd (omega (arith, near.2 j (ltb→lt i j l) h, e))
  | inr l ↦ elim (Bool-cases (ltb j i)) [
    | inl g ↦ absurd (omega (arith, near.1, Ascending-lt xs j i up (ltb→lt j i g) near.0, e))
    | inr g ↦ subst (λ k. key_at xs k ≡ addr) (ground (arith, l, g)) e
  ]
]

module _ (func : FuncTransform) (valid : IsLookup func.start func.lookup) where
  pub entered_starts : range_starts func ≡ keys valid.entered
  entered_starts = rw (valid.indexed) (keys-index_of func.lookup.ranges valid.entered valid.entered)

  ranges_in-running :
      (fuel : ℕ) (drain : List (ℕ × ℕ) → List (ℕ × ℕ)) (start end : ℕ)
      → func.start ≤ start
      → func.start ≤ end
      → Has end (range_starts func)
      → ranges_in fuel drain func start end ≡ running
  unfolding ranges_in
  ranges_in-running fuel drain start end h g (j, inside, same) =
      let first = iter_new-Nearest func start valid h in
      let last = iter_new-Nearest func end valid g in
      let firsts = starts-HaveRanges func.lookup.ranges start _ (
        active_at-AreNumbers func.lookup.ranges (key_at (keys valid.entered) first.0) valid.entered
          valid.ranges_valid.entries) in
      let w = key_at (keys valid.entered) last.0 in
      let here : w ≡ end =
        Nearest-unique (keys valid.entered) end last.0 j valid.ranges_valid.ascending last.1
          (subst (λ xs. j < length xs) entered_starts inside)
          (subst (λ xs. key_at xs j ≡ end) entered_starts same) in
      let stuck =
        ends-running fuel func.lookup.ranges end (active_at func.lookup.ranges w valid.entered)
          (active_at-AreNumbers func.lookup.ranges w valid.entered valid.ranges_valid.entries)
          (subst (λ n. Late func.lookup.ranges n (active_at func.lookup.ranges w valid.entered))
            here
            (active_at-Late func.lookup.ranges valid.entered last.0 valid.ranges_valid.entries
              last.1.0)) in
      rw (first.2, firsts.1, last.2, stuck) refl

-- The translation of source addresses to ranges of code does not return if the end is the start of
-- one of the ranges of the function that contains the start: the last iterator then comes to a range
-- that starts at the end address, and neither leaves it out nor goes on. It runs for ever, whatever
-- number of rounds it is given.
pub translate_ranges_raw-running :
    (at : List FunctionAddressMap) (section : ℕ) (t : AddressTransform) (func : FuncTransform)
    (start end fuel : ℕ) (drain : List (ℕ × ℕ) → List (ℕ × ℕ))
    → new at section ≡ some t
    → start ≢ 0
    → find_func t start ≡ some (some func)
    → func.start ≤ end
    → Has end (range_starts func)
    → translate_ranges_raw fuel drain t start end ≡ running
unfolding translate_ranges_raw
translate_ranges_raw-running at section t func start end fuel drain made h e g has =
    let valid = find_func-IsLookup t start func (new-IsAddressTransform at section made) e in
    rw (==-eq-false start 0 h, e, ranges_in-running func valid.0 fuel drain start end valid.1 g has)
      refl
