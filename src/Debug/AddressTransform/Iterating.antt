-- ===== src/Debug/AddressTransform/Iterating.antt =====
-- wasmtime-debug/src/transform/address_transform.rs: what the iterators over the ranges of an address
-- start with, and that they read no range or position out of bounds.
use wasmtime.Base.{
  ap, ℕ, zero, suc, ◌≤◌, ◌<◌, ◌≡◌, inl, inr, refl, some, List, [], ◌∷◌, length, leb, ◌&&◌, arith,
  get_elem?, Bool-cases, le→leb,
}
use wasmtime.Debug.Search.{key_at}
use wasmtime.Debug.AddressTransform.{Range, FuncTransform, keys}
use wasmtime.Debug.AddressTransform.Iterators.{RangeIter, iter_new, next}
use wasmtime.Debug.AddressTransform.Ranges.{IsRange, AreEntries}
use wasmtime.Debug.AddressTransform.Index.{IsEntry-end_of, end_of, active_at, index_of}
use wasmtime.Debug.AddressTransform.Functions.{IsLookup}
use wasmtime.Debug.AddressTransform.Found.{
  StartsAt, Nearest, search-Nearest, start_address-StartsAt,
}

-- The numbers of ranges that are there.
abbrev pub AreNumbers : List Range → List ℕ → Type 0
AreNumbers ranges [] = Unit {0}
AreNumbers ranges (r ∷ rs) =
    ((range : Range) × (get_elem? ranges r ≡ some range) × IsRange range) × AreNumbers ranges rs

pub active_at-AreNumbers :
    (ranges : List Range) (w : ℕ) (entries : List (ℕ × ℕ))
    → AreEntries ranges entries
    → AreNumbers ranges (active_at ranges w entries)
active_at-AreNumbers ranges w [] valid = tt
active_at-AreNumbers ranges w ((start, r) ∷ entries) ((range, at, same, p), valid) =
    let rest = active_at-AreNumbers ranges w entries valid in
    elim (Bool-cases (leb start w && leb w (end_of ranges r))) [
      | inl e ↦ rw e ((range, at, p), rest)
      | inr e ↦ rw e rest
    ]

pub keys-index_of :
    (ranges : List Range) (all entries : List (ℕ × ℕ))
    → keys (index_of ranges all entries) ≡ keys entries
keys-index_of ranges all [] = refl
keys-index_of ranges all ((w, r) ∷ entries) =
    ap (λ (ks : List ℕ). w ∷ ks) (keys-index_of ranges all entries)

get_elem?-index_of :
    (ranges : List Range) (all entries : List (ℕ × ℕ)) (i : ℕ)
    → i < length (keys entries)
    → get_elem? (index_of ranges all entries) i
      ≡ some (key_at (keys entries) i, active_at ranges (key_at (keys entries) i) all)
get_elem?-index_of ranges all [] i h = elim h [ ]
get_elem?-index_of ranges all ((w, r) ∷ entries) zero h = refl
get_elem?-index_of ranges all ((w, r) ∷ entries) (suc i) h =
    get_elem?-index_of ranges all entries i (omega arith)

abbrev pub iter_at : FuncTransform → ℕ → List (ℕ × ℕ) → ℕ → RangeIter
iter_at func addr entered w = record {
  addr = addr;
  indicies = active_at func.lookup.ranges w entered;
  ranges = func.lookup.ranges;
}

-- From the start of a function on, both iterators start with the ranges that contain the greatest
-- range start up to the address.
pub iter_new-Nearest :
    (func : FuncTransform) (addr : ℕ) (valid : IsLookup func.start func.lookup)
    → func.start ≤ addr
    → (i : ℕ) × Nearest (keys valid.entered) addr i
      × (iter_new func addr
          ≡ some (iter_at func addr valid.entered (key_at (keys valid.entered) i)))
unfolding iter_new
iter_new-Nearest func addr valid h =
    elim (search-Nearest (keys valid.entered) addr valid.ranges_valid.ascending) [
      | inl (e, greater) ↦ absurd (
          omega (
            arith,
            h,
            valid.ranges_valid.first.2,
            greater valid.ranges_valid.first.0 valid.ranges_valid.first.1,
          ))
      | inr (i, e, near) ↦ (
        i,
        near,
        rw
            (
              valid.indexed,
              keys-index_of func.lookup.ranges valid.entered valid.entered,
              e,
              get_elem?-index_of func.lookup.ranges valid.entered valid.entered i near.0,
            )
            refl,
      )
    ]

-- `next` returns the address in the first range that is left.
pub next-StartsAt :
    (it : RangeIter) (r : ℕ) (rs : List ℕ)
    → it.indicies ≡ r ∷ rs
    → AreNumbers it.ranges (r ∷ rs)
    → (range : Range) × (get_elem? it.ranges r ≡ some range)
      × (a : ℕ) × StartsAt range it.addr a
      × (next it ≡ some (some (a, r), record it { indicies = rs }))
unfolding next
next-StartsAt it r rs e valid =
    let found = start_address-StartsAt valid.0.0 it.addr valid.0.2 in
    (valid.0.0, valid.0.1, found.0, found.2, rw (next, e, valid.0.1, found.1) refl)

-- A range that starts at an address is among those that contain it.
pub active_at-ne-nil :
    (ranges : List Range) (entries : List (ℕ × ℕ)) (i : ℕ)
    → AreEntries ranges entries
    → i < length (keys entries)
    → (r : ℕ) × (rs : List ℕ) × (active_at ranges (key_at (keys entries) i) entries ≡ r ∷ rs)
active_at-ne-nil ranges [] i valid h = elim h [ ]
active_at-ne-nil ranges ((w, r) ∷ entries) zero valid h = (
  r,
  active_at ranges w entries,
  rw (le→leb w w (omega arith), le→leb w (end_of ranges r) (IsEntry-end_of ranges w r valid.0))
      refl,
)
active_at-ne-nil ranges ((w, r) ∷ entries) (suc i) valid h =
    let rest = active_at-ne-nil ranges entries i valid.1 (omega arith) in
    elim (Bool-cases
      (leb w (key_at (keys entries) i) && leb (key_at (keys entries) i) (end_of ranges r))) [
        | inl e ↦ (r, active_at ranges (key_at (keys entries) i) entries, rw e refl)
        | inr e ↦ (rest.0, rest.1, rw e (rest.2))
      ]
