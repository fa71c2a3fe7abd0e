-- ===== src/Debug/Search.antt =====
-- `binary_search_by` of Rust's slices, on the keys of a sorted slice: the loop of the standard
-- library, and the contract that its documentation states.
pub mod Contract
use wasmtime.Base.{
  ℕ, zero, suc, ◌+◌, ◌-◌, ◌/◌, ◌≤◌, ◌<◌, ◌≡◌, Option, none, some, List, length, get_elem?, leb, ltb,
  ◌==◌, if◌then◌else◌,
}

pub data Found : Type 0 where
  found : ℕ → Found
  missing : ℕ → Found

-- A read past the slice does not occur; it would give 0.
abbrev pub key_at : List ℕ → ℕ → ℕ
key_at keys i = elim (get_elem? keys i) [ none ↦ 0 | some k ↦ k ]

-- One halving: the upper half, unless its first key is greater than the one sought.
abbrev pub next_base : List ℕ → ℕ → ℕ → ℕ → ℕ
next_base keys addr base size =
    if leb (key_at keys (base + size / 2)) addr then base + size / 2 else base

-- `while size > 1`, on fuel: each round makes `size` smaller.
unfoldable pub halve : ℕ → List ℕ → ℕ → ℕ → ℕ → ℕ
halve zero keys addr base size = base
halve (suc fuel) keys addr base size =
    let rest = halve fuel keys addr (next_base keys addr base size) (size - size / 2) in
    if ltb 1 size then rest else base

abbrev pub last_test : List ℕ → ℕ → ℕ → Found
last_test keys addr base =
    if key_at keys base == addr
    then found base
    else missing (if ltb (key_at keys base) addr then base + 1 else base)

unfoldable pub binary_search : List ℕ → ℕ → Found
binary_search keys addr =
    if length keys == 0
    then missing 0
    else last_test keys addr (halve (length keys) keys addr 0 (length keys))

-- The keys ascend, and may repeat.
abbrev pub IsSorted : List ℕ → Type 0
IsSorted keys = (i j : ℕ) → i ≤ j → j < length keys → key_at keys i ≤ key_at keys j

-- What the documentation promises of a search: an index of the key, or the one index that has the
-- lesser keys before it and the greater ones from it on.
abbrev pub Searched : List ℕ → ℕ → Found → Type 0
Searched keys addr (found i) = (i < length keys) × (key_at keys i ≡ addr)
Searched keys addr (missing i) =
    (i ≤ length keys)
    × ((j : ℕ) → j < i → key_at keys j < addr)
    × ((j : ℕ) → i ≤ j → j < length keys → addr < key_at keys j)
