-- ===== src/Debug/AddressTransform/Found.antt =====
-- wasmtime-debug/src/transform/address_transform.rs: what the searches of `find_func`, of the two
-- iterators' `new` and of their `next` find.
use wasmtime.Base.{
  ◌∙◌, subst, ap, ℕ, zero, suc, ◌-◌, ◌≤◌, ◌<◌, ◌≡◌, ◌≢◌, ◌⊎◌, inl, inr, refl, none, some, List, [],
  ◌∷◌, length, ◌==◌, false, arith, get_elem?, Bool-cases, ==-eq-false,
}
use wasmtime.Debug.Search.{Found, found, missing, key_at, binary_search, Searched}
use wasmtime.Debug.Search.Contract.{binary_search-Searched}
use wasmtime.Debug.AddressTransform.{Position, Range}
use wasmtime.Debug.AddressTransform.Ordered.{
  Ascending, Ascending-IsSorted, Ascending-lt, Climb-IsSorted,
}
use wasmtime.Debug.AddressTransform.Iterators.{
  entry_before, wasm_positions, start_at, start_address, end_at, end_address,
}
use wasmtime.Debug.AddressTransform.Ranges.{IsRange}

-- The index of the greatest key that is not greater than an address.
abbrev pub Nearest : List ℕ → ℕ → ℕ → Type 0
Nearest xs addr i =
    (i < length xs) × (key_at xs i ≤ addr) × ((j : ℕ) → i < j → j < length xs → addr < key_at xs j)

entry_before-Nearest :
    (xs : List ℕ) (addr : ℕ)
    → Ascending xs
    → (r : Found) → Searched xs addr r
    → ((entry_before r ≡ none) × ((j : ℕ) → j < length xs → addr < key_at xs j))
      ⊎ ((i : ℕ) × (entry_before r ≡ some i) × Nearest xs addr i)
entry_before-Nearest xs addr up (found i) p =
    inr
      (i, refl, (p.0, omega (arith, p.1), λ j h q. omega (arith, p.1, Ascending-lt xs i j up h q)))
entry_before-Nearest xs addr up (missing zero) p = inl (refl, λ j q. p.2 j (omega arith) q)
entry_before-Nearest xs addr up (missing (suc i)) p = inr (
  i,
  ground arith,
  (omega (arith, p.0), omega (arith, p.1 i (omega arith)), λ j h q. p.2 j (omega arith) q),
)

-- On ascending keys, the entry that is found is the one with the greatest key up to the address;
-- none is found where every key is greater.
pub search-Nearest :
    (xs : List ℕ) (addr : ℕ)
    → Ascending xs
    → ((entry_before (binary_search xs addr) ≡ none)
        × ((j : ℕ) → j < length xs → addr < key_at xs j))
      ⊎ ((i : ℕ) × (entry_before (binary_search xs addr) ≡ some i) × Nearest xs addr i)
search-Nearest xs addr up =
    entry_before-Nearest xs addr up _ (binary_search-Searched xs addr (Ascending-IsSorted xs up))

length-wasm_positions : (ps : List Position) → length (wasm_positions ps) ≡ length ps
length-wasm_positions [] = refl
length-wasm_positions (p ∷ ps) = ap suc (length-wasm_positions ps)

position_at :
    (ps : List Position) (i : ℕ)
    → i < length (wasm_positions ps)
    → (p : Position) × (get_elem? ps i ≡ some p) × (p.wasm_pos ≡ key_at (wasm_positions ps) i)
position_at [] i h = elim h [ ]
position_at (p ∷ ps) zero h = (p, refl, refl)
position_at (p ∷ ps) (suc i) h = position_at ps i (omega arith)

-- The positions before an index lie before an address, and the others after it.
abbrev pub Gap : List Position → ℕ → ℕ → Type 0
Gap ps addr i =
    (i ≤ length ps)
    × ((j : ℕ) (p : Position) → j < i → get_elem? ps j ≡ some p → p.wasm_pos < addr)
    × ((j : ℕ) (p : Position) → i ≤ j → get_elem? ps j ≡ some p → addr < p.wasm_pos)

==-ne : (a b : ℕ) → (a == b) ≡ false → a ≢ b
==-ne a b h = ground arith

-- What starts at an address: the code of an instruction there, or else the code right after the
-- last instruction before it, or else the range.
abbrev pub StartsAt : Range → ℕ → ℕ → Type 0
StartsAt range addr a =
    ((i : ℕ) × (p : Position) × (get_elem? range.positions i ≡ some p)
      × (p.wasm_pos ≡ addr)
      × (a ≡ p.gen_start))
    ⊎ ((Gap range.positions addr 0 × (a ≡ range.gen_start))
        ⊎ ((i : ℕ) × (p : Position) × (get_elem? range.positions i ≡ some p)
            × Gap range.positions addr (suc i)
            × (a ≡ p.gen_end)))

-- What ends at an address: the code of an instruction there, or else the code right before the first
-- instruction after it, or else the range.
abbrev pub EndsAt : Range → ℕ → ℕ → Type 0
EndsAt range addr a =
    ((i : ℕ) × (p : Position) × (get_elem? range.positions i ≡ some p)
      × (p.wasm_pos ≡ addr)
      × (a ≡ p.gen_end))
    ⊎ ((Gap range.positions addr (length range.positions) × (a ≡ range.gen_end))
        ⊎ ((i : ℕ) × (p : Position) × (get_elem? range.positions i ≡ some p)
            × Gap range.positions addr i
            × (a ≡ p.gen_start)))

at_key :
    (ps : List Position) (j : ℕ) (p : Position)
    → get_elem? ps j ≡ some p
    → (j < length (wasm_positions ps)) × (key_at (wasm_positions ps) j ≡ p.wasm_pos)
at_key [] j p e = absurd (cc)
at_key (q ∷ ps) zero p e = (omega arith, cc)
at_key (q ∷ ps) (suc j) p e = let r = at_key ps j p e in (omega (arith, r.0), r.1)

Searched-Gap :
    (ps : List Position) (addr i : ℕ)
    → Searched (wasm_positions ps) addr (missing i)
    → Gap ps addr i
Searched-Gap ps addr i s = (
  omega (arith, s.0, length-wasm_positions ps),
  (λ j p h e. omega (arith, at_key ps j p e, s.1 j h)),
  (λ j p h e. omega (arith, at_key ps j p e, s.2 j h (at_key ps j p e).0)),
)

start_at-StartsAt :
    (range : Range) (addr : ℕ) (r : Found)
    → Searched (wasm_positions range.positions) addr r
    → (a : ℕ) × (start_at range r ≡ some a) × StartsAt range addr a
start_at-StartsAt range addr (found i) s =
    let at = position_at range.positions i s.0 in
    (at.0.gen_start, rw (at.1) refl, inl (i, at.0, at.1, at.2 ∙ s.1, refl))
start_at-StartsAt range addr (missing zero) s =
    (range.gen_start, refl, inr (inl (Searched-Gap range.positions addr 0 s, refl)))
start_at-StartsAt range addr (missing (suc i)) s =
    let at = position_at range.positions i (omega (arith, s.0)) in
    let back : suc i - 1 ≡ i = omega arith in
    (
      at.0.gen_end,
      rw (==-eq-false (suc i) 0 (λ e. absurd (omega (arith, e))), back, at.1) refl,
      inr (inr (i, at.0, at.1, Searched-Gap range.positions addr (suc i) s, refl)),
    )

-- In a range the start of the code for an address is found without a panic, and as described.
pub start_address-StartsAt :
    (range : Range) (addr : ℕ)
    → IsRange range
    → (a : ℕ) × (start_address range addr ≡ some a) × StartsAt range addr a
unfolding start_address
start_address-StartsAt range addr valid = start_at-StartsAt range addr _ (
    binary_search-Searched (wasm_positions range.positions) addr
      (Climb-IsSorted (wasm_positions range.positions) range.wasm_start range.wasm_end valid))

end_at-EndsAt :
    (range : Range) (addr : ℕ) (r : Found)
    → Searched (wasm_positions range.positions) addr r
    → (a : ℕ) × (end_at range r ≡ some a) × EndsAt range addr a
end_at-EndsAt range addr (found i) s =
    let at = position_at range.positions i s.0 in
    (at.0.gen_end, rw (at.1) refl, inl (i, at.0, at.1, at.2 ∙ s.1, refl))
end_at-EndsAt range addr (missing i) s = elim (Bool-cases (i == length range.positions)) [
  | inl e ↦ rw e (
    range.gen_end,
    refl,
    inr (
        inl (
          subst (Gap range.positions addr) (ground (arith, e))
              (Searched-Gap range.positions addr i s),
          refl,
        )),
  )
  | inr e ↦
      let at =
        position_at range.positions i
          (omega (arith, s.0, length-wasm_positions range.positions, ==-ne i _ e)) in
      rw (e, at.1)
        (
          at.0.gen_start,
          refl,
          inr (inr (i, at.0, at.1, Searched-Gap range.positions addr i s, refl)),
        )
]

-- In a range the end of the code for an address is found without a panic, and as described.
pub end_address-EndsAt :
    (range : Range) (addr : ℕ)
    → IsRange range
    → (a : ℕ) × (end_address range addr ≡ some a) × EndsAt range addr a
unfolding end_address
end_address-EndsAt range addr valid = end_at-EndsAt range addr _ (
    binary_search-Searched (wasm_positions range.positions) addr
      (Climb-IsSorted (wasm_positions range.positions) range.wasm_start range.wasm_end valid))
