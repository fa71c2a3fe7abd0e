-- ===== src/Debug/Search/Contract.antt =====
-- `binary_search_by`: the loop meets the contract on every sorted slice.
use wasmtime.Base.{
  ltb→lt, leb→le, subst, Bool-cases, ◌∷◌, ℕ, zero, suc, ◌+◌, ◌-◌, ◌/◌, ◌≤◌, ◌<◌, ◌≡◌, refl, inl,
  inr, some, List, length, get_elem?, leb, ltb, ◌==◌, arith, [],
}
use wasmtime.Debug.Search.{key_at, next_base, halve, last_test, binary_search, IsSorted, Searched}

-- An index in bounds holds a key.
pub get_elem?-key_at :
    (keys : List ℕ) (i : ℕ) → i < length keys → get_elem? keys i ≡ some (key_at keys i)
get_elem?-key_at [] i h = elim h [ ]
get_elem?-key_at (x ∷ keys) zero h = refl
get_elem?-key_at (x ∷ keys) (suc i) h = get_elem?-key_at keys i (omega arith)

-- What the loop keeps: the window is in bounds, and the keys on its two sides are decided.
record Window (keys : List ℕ) (addr base size : ℕ) : Type 0 where
  inside : base + size ≤ length keys
  nonempty : 0 < size
  low : 0 < base → key_at keys base ≤ addr
  above : (j : ℕ) → base + size ≤ j → j < length keys → addr < key_at keys j

module _ (keys : List ℕ) (addr : ℕ) (sorted : IsSorted keys) where
  next_base-Window :
      (base size : ℕ)
      → 1 < size
      → Window keys addr base size
      → Window keys addr (next_base keys addr base size) (size - size / 2)
  next_base-Window base size h w = elim (Bool-cases (leb (key_at keys (base + size / 2)) addr)) [
    | inl e ↦ rw e (record {
      inside = omega (arith, w.inside);
      nonempty = omega arith;
      low = λ _. leb→le _ _ e;
      above = λ j p q. w.above j (omega arith) q;
    })
    | inr e ↦ rw e (record {
      inside = omega (arith, w.inside);
      nonempty = omega arith;
      low = w.low;
      above = λ j p q. ground (arith, sorted (base + size / 2) j (omega arith) q, e);
    })
  ]

  halve-Window :
      (fuel base size : ℕ)
      → size ≤ suc fuel
      → Window keys addr base size
      → Window keys addr (halve fuel keys addr base size) 1
  unfolding halve
  halve-Window zero base size h w =
      subst (λ n. Window keys addr base n) (omega (arith, w.nonempty)) w
  halve-Window (suc fuel) base size h w = elim (Bool-cases (ltb 1 size)) [
    | inl e ↦ rw e (
        halve-Window fuel (next_base keys addr base size) (size - size / 2)
          (omega (arith, ltb→lt 1 size e)) (next_base-Window base size (ltb→lt 1 size e) w))
    | inr e ↦ rw e (subst (λ n. Window keys addr base n) (ground (arith, w.nonempty, e)) w)
  ]

  last_test-Searched :
      (base : ℕ) → Window keys addr base 1 → Searched keys addr (last_test keys addr base)
  last_test-Searched base w = elim (Bool-cases (key_at keys base == addr)) [
    | inl e ↦ rw e (omega (arith, w.inside), ground (arith, e))
    | inr e ↦ elim (Bool-cases (ltb (key_at keys base) addr)) [
      | inl l ↦
          rw (e, l)
            (
              omega (arith, w.inside),
              λ j p. ground (arith, sorted j base (omega arith) (omega (arith, w.inside)), l),
              λ j p q. w.above j p q,
            )
      | inr l ↦
          rw (e, l)
            (
              omega (arith, w.inside),
              λ j p. ground (arith, w.low, e, l),
              λ j p q. ground (arith, sorted base j p q, e, l),
            )
    ]
  ]

  -- On ascending keys the search of the standard library keeps its documented promise: an index at
  -- which the key stands, or else the index that has exactly the lesser keys before it.
  pub binary_search-Searched : Searched keys addr (binary_search keys addr)
  unfolding binary_search
  binary_search-Searched = elim (Bool-cases (length keys == 0)) [
    | inl e ↦ rw e (omega arith, λ j p. absurd (omega arith), λ j p q. absurd (ground (arith, e)))
    | inr e ↦ rw e (
        last_test-Searched _ (
          halve-Window (length keys) 0 (length keys) (omega arith) (record {
            inside = omega arith;
            nonempty = ground (arith, e);
            low = λ p. absurd (omega arith);
            above = λ j p q. absurd (omega arith);
          })))
  ]
