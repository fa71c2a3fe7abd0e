-- ===== src/Debug/AddressTransform/Returning.antt =====
-- wasmtime-debug/src/transform/address_transform.rs: when `translate_ranges_raw` returns.
use mathlib.Core.List.{Permᴰ}
use wasmtime.Base.{
  sym, subst, ℕ, suc, ◌≤◌, ◌<◌, ◌≡◌, ◌≢◌, inl, inr, refl, some, List, [], ◌∷◌, ◌++◌, length, ◌==◌,
  arith, get_elem?, Bool-cases, Option-cases, ==-eq-false,
}
use wasmtime.Debug.Search.{key_at}
use wasmtime.Debug.AddressTransform.{
  FunctionAddressMap, Range, FuncTransform, AddressTransform, keys,
}
use wasmtime.Debug.AddressTransform.Ordered.{Has}
use wasmtime.Debug.AddressTransform.Iterators.{done}
use wasmtime.Debug.AddressTransform.Translate.{
  find_func, ranges_in, translate_ranges_raw, insert_start, insert_starts, get_start, remove_start,
  pair_ends, pair_starts, pair_all,
}
use wasmtime.Debug.AddressTransform.Build.{new}
use wasmtime.Debug.AddressTransform.Index.{active_at}
use wasmtime.Debug.AddressTransform.Functions.{IsLookup, new-IsAddressTransform}
use wasmtime.Debug.AddressTransform.Iterating.{active_at-AreNumbers, iter_new-Nearest}
use wasmtime.Debug.AddressTransform.Endless.{
  HaveRanges, ends-done, active_at-Early, find_func-IsLookup, range_starts, entered_starts,
  starts-HaveRanges,
}

-- A number of a range.
abbrev IsThere : List Range → ℕ → Type 0
IsThere ranges r = (range : Range) × (get_elem? ranges r ≡ some range)

-- The keys of the hash map are numbers of ranges.
abbrev Keyed : List Range → List (ℕ × ℕ) → Type 0
Keyed ranges [] = Unit {0}
Keyed ranges ((r, v) ∷ m) = IsThere ranges r × Keyed ranges m

insert_start-Keyed :
    (ranges : List Range) (r a : ℕ) (m : List (ℕ × ℕ))
    → IsThere ranges r
    → Keyed ranges m
    → Keyed ranges (insert_start r a m)
insert_start-Keyed ranges r a [] there p = (there, tt)
insert_start-Keyed ranges r a ((k, v) ∷ m) there p =
    let rest = insert_start-Keyed ranges r a m there p.1 in
    elim (Bool-cases (r == k)) [ inl e ↦ rw e (there, p.1) | inr e ↦ rw e (p.0, rest) ]

insert_starts-Keyed :
    (ranges : List Range) (items m : List (ℕ × ℕ))
    → HaveRanges ranges items
    → Keyed ranges m
    → Keyed ranges (insert_starts items m)
insert_starts-Keyed ranges [] m have p = p
insert_starts-Keyed ranges ((a, r) ∷ items) m have p =
    insert_starts-Keyed ranges items (insert_start r a m) have.1
      (insert_start-Keyed ranges r a m have.0 p)

remove_start-Keyed :
    (ranges : List Range) (r : ℕ) (m : List (ℕ × ℕ))
    → Keyed ranges m
    → Keyed ranges (remove_start r m)
remove_start-Keyed ranges r [] p = tt
remove_start-Keyed ranges r ((k, v) ∷ m) p =
    let rest = remove_start-Keyed ranges r m p.1 in
    elim (Bool-cases (r == k)) [ inl e ↦ rw e rest | inr e ↦ rw e (p.0, rest) ]

Keyed-reordered :
    (ranges : List Range) {m n : List (ℕ × ℕ)} → Permᴰ m n → Keyed ranges m → Keyed ranges n
Keyed-reordered ranges Permᴰ.nil p = tt
Keyed-reordered ranges (Permᴰ.cons e d) p =
    (subst (λ (x : ℕ × ℕ). IsThere ranges x.0) e p.0, Keyed-reordered ranges d p.1)
Keyed-reordered ranges (Permᴰ.swap e f) p = (
  subst (λ (x : ℕ × ℕ). IsThere ranges x.0) f p.1.0,
  (subst (λ (x : ℕ × ℕ). IsThere ranges x.0) e p.0, p.1.1),
)
Keyed-reordered ranges (Permᴰ.trans d e) p = Keyed-reordered ranges e (Keyed-reordered ranges d p)

pair_ends-total :
    (ranges : List Range) (items m : List (ℕ × ℕ))
    → HaveRanges ranges items
    → Keyed ranges m
    → (pairs : List (ℕ × ℕ)) × (left : List (ℕ × ℕ)) × (pair_ends ranges items m
        ≡ some (pairs, left))
      × Keyed ranges left
unfolding pair_ends
pair_ends-total ranges [] m have p = ([], m, refl, p)
pair_ends-total ranges ((a, r) ∷ items) m have p = elim (Option-cases (get_start r m)) [
  | inl e ↦
      let rest = pair_ends-total ranges items m have.1 p in
      ((have.0.0.gen_start, a) ∷ rest.0, rest.1, rw (pair_ends, e, have.0.1, rest.2) refl, rest.3)
  | inr (start, e) ↦
      let rest =
        pair_ends-total ranges items (remove_start r m) have.1 (remove_start-Keyed ranges r m p) in
      ((start, a) ∷ rest.0, rest.1, rw (pair_ends, e, rest.2) refl, rest.3)
]

pair_starts-total :
    (ranges : List Range) (m : List (ℕ × ℕ))
    → Keyed ranges m
    → (pairs : List (ℕ × ℕ)) × (pair_starts ranges m ≡ some pairs)
unfolding pair_starts
pair_starts-total ranges [] p = ([], refl)
pair_starts-total ranges ((r, start) ∷ m) p =
    let rest = pair_starts-total ranges m p.1 in
    ((start, p.0.0.gen_end) ∷ rest.0, rw (p.0.1, rest.1) refl)

module _ (drain : List (ℕ × ℕ) → List (ℕ × ℕ))
    (reorders : (m : List (ℕ × ℕ)) → Permᴰ m (drain m)) where
  pair_all-total :
      (ranges : List Range) (first last : List (ℕ × ℕ))
      → HaveRanges ranges first
      → HaveRanges ranges last
      → (pairs : List (ℕ × ℕ)) × (pair_all drain ranges first last ≡ some pairs)
  pair_all-total ranges first last p q =
      let paired =
        pair_ends-total ranges last (insert_starts first []) q
          (insert_starts-Keyed ranges first [] p tt) in
      let rest =
        pair_starts-total ranges (drain paired.1)
          (Keyed-reordered ranges (reorders paired.1) paired.3) in
      (paired.0 ++ rest.0, rw (paired.2, rest.1) refl)

  ranges_in-done :
      (func : FuncTransform) (valid : IsLookup func.start func.lookup) (fuel start end : ℕ)
      → func.start ≤ start
      → func.start ≤ end
      → ¬ Has end (range_starts func)
      → (pairs : List (ℕ × ℕ)) × (ranges_in (suc fuel) drain func start end ≡ done pairs)
  unfolding ranges_in
  ranges_in-done func valid fuel start end h g apart =
      let first = iter_new-Nearest func start valid h in
      let last = iter_new-Nearest func end valid g in
      let there = λ (w : ℕ).
        active_at-AreNumbers func.lookup.ranges w valid.entered valid.ranges_valid.entries in
      let firsts =
        starts-HaveRanges func.lookup.ranges start _
          (there (key_at (keys valid.entered) first.0)) in
      let w = key_at (keys valid.entered) last.0 in
      let before : w < end = omega (
        arith,
        last.1.1,
        λ (e : w ≡ end). apart (
          last.0,
          subst (λ xs. last.0 < length xs) (sym (entered_starts func valid)) last.1.0,
          subst (λ xs. key_at xs last.0 ≡ end) (sym (entered_starts func valid)) e,
        ),
      ) in
      let lasts =
        ends-done fuel func.lookup.ranges end (active_at func.lookup.ranges w valid.entered)
          (there w)
          (active_at-Early func.lookup.ranges valid.entered w end valid.ranges_valid.entries
            before) in
      let pairs = pair_all-total func.lookup.ranges firsts.0 lasts.0 firsts.2 lasts.2 in
      (pairs.0, rw (first.2, firsts.1, last.2, lasts.1, pairs.1) refl)

  -- The translation of source addresses to ranges of code returns a result for the function that
  -- contains the start, if the end is not before that function and is not the start of one of its
  -- ranges: each call of `next` needs one round. The order in which the hash map gives up its rest
  -- may be any.
  pub translate_ranges_raw-done :
      (at : List FunctionAddressMap) (section : ℕ) (t : AddressTransform) (func : FuncTransform)
      (start end fuel : ℕ)
      → new at section ≡ some t
      → start ≢ 0
      → find_func t start ≡ some (some func)
      → func.start ≤ end
      → ¬ Has end (range_starts func)
      → (pairs : List (ℕ × ℕ)) × (translate_ranges_raw (suc fuel) drain t start end
          ≡ done (some (func.index, pairs)))
  unfolding translate_ranges_raw
  translate_ranges_raw-done at section t func start end fuel made h e g apart =
      let valid = find_func-IsLookup t start func (new-IsAddressTransform at section made) e in
      let result = ranges_in-done func valid.0 fuel start end valid.1 g apart in
      (result.0, rw (==-eq-false start 0 h, e, result.1) refl)
