-- ===== src/Debug/AddressTransform/Index.antt =====
-- `build_function_lookup` of wasmtime-debug/src/transform/address_transform.rs: its second loop
-- against a description of the index.
use mathlib.Core.List.{append-nil, append_assoc}
use wasmtime.Base.{
  lt→ltb, ◌∙◌, ℕ, suc, ◌≤◌, ◌<◌, ◌≡◌, inl, inr, refl, none, some, List, [], ◌∷◌, ◌++◌, ltb, leb,
  if◌then◌else◌, ◌&&◌, arith, get_elem?, Bool-cases, leb→le, le→leb, leb-eq-false, ltb-eq-false,
  ==-eq-false, ◌>>=◌, ap,
}
use wasmtime.Debug.AddressTransform.{Range, keys}
use wasmtime.Debug.AddressTransform.Ordered.{
  All-append, Above, Below, Ascending, Climb-le, btree_insert-append,
}
use wasmtime.Debug.AddressTransform.Build.{
  Indexing, retain, index_range, index_ranges, finish_index, build_index,
}
use wasmtime.Debug.AddressTransform.Ranges.{IsEntry, AreEntries}
use wasmtime.Debug.AddressTransform.Iterators.{wasm_positions}

abbrev pub end_of : List Range → ℕ → ℕ
end_of ranges r = elim (get_elem? ranges r) [ none ↦ 0 | some range ↦ range.wasm_end ]

-- The ranges, of those entered by their starts, that contain an address.
abbrev pub active_at : List Range → ℕ → List (ℕ × ℕ) → List ℕ
active_at ranges w [] = []
active_at ranges w ((start, r) ∷ entries) =
    let rest = active_at ranges w entries in
    if leb start w && leb w (end_of ranges r) then r ∷ rest else rest

-- The index, by its description: each start with the ranges of `all` that contain it.
abbrev pub index_of : List Range → List (ℕ × ℕ) → List (ℕ × ℕ) → List (ℕ × List ℕ)
index_of ranges all [] = []
index_of ranges all ((w, r) ∷ entries) = (w, active_at ranges w all) ∷ index_of ranges all entries

end_of-eq :
    (ranges : List Range) (r : ℕ) {range : Range}
    → get_elem? ranges r ≡ some range
    → end_of ranges r ≡ range.wasm_end
end_of-eq ranges r at = rw (end_of, at) refl

pub IsEntry-end_of : (ranges : List Range) (w r : ℕ) → IsEntry ranges w r → w ≤ end_of ranges r
IsEntry-end_of ranges w r (range, at, e, p) = omega (
  arith,
  e,
  end_of-eq ranges r at,
  Climb-le (wasm_positions range.positions) range.wasm_start range.wasm_end p,
)

active_at-append :
    (ranges : List Range) (w : ℕ) (xs ys : List (ℕ × ℕ))
    → active_at ranges w (xs ++ ys) ≡ active_at ranges w xs ++ active_at ranges w ys
active_at-append ranges w [] ys = refl
active_at-append ranges w ((start, r) ∷ xs) ys =
    elim (Bool-cases (leb start w && leb w (end_of ranges r))) [
      | inl e ↦ rw (e, active_at-append ranges w xs ys) refl
      | inr e ↦ rw (e, active_at-append ranges w xs ys) refl
    ]

active_at-Above :
    (ranges : List Range) (w : ℕ) (ys : List (ℕ × ℕ))
    → Above w (keys ys)
    → active_at ranges w ys ≡ []
active_at-Above ranges w [] p = refl
active_at-Above ranges w ((start, r) ∷ ys) p =
    rw (leb-eq-false start w p.0) (active_at-Above ranges w ys p.1)

retain-cons :
    (ranges : List Range) (w r : ℕ) (rs : List ℕ) {start : ℕ} {kept : List ℕ}
    → IsEntry ranges start r
    → retain ranges w rs ≡ some kept
    → retain ranges w (r ∷ rs) ≡ some (if ltb (end_of ranges r) w then kept else r ∷ kept)
unfolding retain
retain-cons ranges w r rs (range, at, same, p) ih = rw (at, ih, end_of-eq ranges r at) refl

-- What is retained of the ranges active at one address are those active at a later one, of the
-- ranges that start by the first.
retain-active_at :
    (ranges : List Range) (w later : ℕ) (seen : List (ℕ × ℕ))
    → w < later
    → Below (suc w) (keys seen)
    → AreEntries ranges seen
    → retain ranges later (active_at ranges w seen) ≡ some (active_at ranges later seen)
unfolding retain
retain-active_at ranges w later [] h below valid = refl
retain-active_at ranges w later ((start, r) ∷ seen) h below valid =
    let ih = retain-active_at ranges w later seen h below.1 valid.1 in
    let first = le→leb start w (omega (arith, below.0)) in
    let second = le→leb start later (omega (arith, below.0)) in
    elim (Bool-cases (leb w (end_of ranges r))) [
      | inl e ↦ elim (Bool-cases (leb later (end_of ranges r))) [
        | inl f ↦
            rw (first, second, e, f)
              (retain-cons ranges later r _ valid.0 ih
                ∙ (rw (ltb-eq-false (end_of ranges r) later (leb→le _ _ f)) refl))
        | inr f ↦
            rw (first, second, e, f)
              (retain-cons ranges later r _ valid.0 ih
                ∙ (rw (lt→ltb (end_of ranges r) later (ground (arith, f))) refl))
      ]
      | inr e ↦ rw (first, second, e, leb-eq-false later (end_of ranges r) (ground (arith, e))) ih
    ]

Below-append :
    (xs : List (ℕ × ℕ)) (k w r : ℕ)
    → Below k (keys xs)
    → w < k
    → Below k (keys (xs ++ ((w, r) ∷ [])))
Below-append [] k w r p h = (h, tt)
Below-append ((x, q) ∷ xs) k w r p h = (p.0, Below-append xs k w r p.1 h)

Below-extend :
    (m : List (ℕ × List ℕ)) (k w : ℕ) (rs : List ℕ)
    → Below k (keys m)
    → w < k
    → Below k (keys (m ++ ((w, rs) ∷ [])))
Below-extend [] k w rs p h = (h, tt)
Below-extend ((x, q) ∷ m) k w rs p h = (p.0, Below-extend m k w rs p.1 h)

Below-le : (xs : List ℕ) (a b : ℕ) → a ≤ b → Below a xs → Below b xs
Below-le [] a b h p = p
Below-le (x ∷ xs) a b h p = (omega (arith, p.0), Below-le xs a b h p.1)

module _ (ranges : List Range) where
  -- The new range is active at its own start.
  active_at-snoc :
      (seen : List (ℕ × ℕ)) (w r : ℕ)
      → IsEntry ranges w r
      → active_at ranges w seen ++ (r ∷ []) ≡ active_at ranges w (seen ++ ((w, r) ∷ []))
  active_at-snoc seen w r e =
      rw
        (
          active_at-append ranges w seen ((w, r) ∷ []),
          le→leb w w (omega arith),
          le→leb w (end_of ranges r) (IsEntry-end_of ranges w r e),
        )
        refl

  active_at-later :
      (seen rest : List (ℕ × ℕ)) (w : ℕ)
      → Above w (keys rest)
      → active_at ranges w (seen ++ rest) ≡ active_at ranges w seen
  active_at-later seen rest w above =
      rw (active_at-append ranges w seen rest, active_at-Above ranges w rest above)
        (append-nil (active_at ranges w seen))

  abbrev state_at : List (ℕ × ℕ) → ℕ → List (ℕ × List ℕ) → Indexing
  state_at seen w m = record {
    active_ranges = active_at ranges w seen;
    index = m;
    last_wasm_pos = some w;
  }

  step-state_at :
      (seen : List (ℕ × ℕ)) (w later r : ℕ) (m : List (ℕ × List ℕ))
      → w < later
      → Below w (keys m)
      → Below (suc w) (keys seen)
      → AreEntries ranges seen
      → IsEntry ranges later r
      → index_range ranges later r (state_at seen w m)
        ≡ some
            (state_at (seen ++ ((later, r) ∷ [])) later (m ++ ((w, active_at ranges w seen) ∷ [])))
  unfolding index_range
  step-state_at seen w later r m h below seen_below valid e =
      rw
        (
          ==-eq-false later w (λ same. absurd (omega (arith, same))),
          retain-active_at ranges w later seen h seen_below valid,
          btree_insert-append m w (active_at ranges w seen) below,
          active_at-snoc seen later r e,
        )
        refl

  loop-index_of :
      (rest seen : List (ℕ × ℕ)) (w : ℕ) (m : List (ℕ × List ℕ))
      → Below w (keys m)
      → Below (suc w) (keys seen)
      → Above w (keys rest)
      → Ascending (keys rest)
      → AreEntries ranges seen
      → AreEntries ranges rest
      → (index_ranges ranges rest (state_at seen w m) >>= finish_index)
        ≡ some (m ++ ((w, active_at ranges w (seen ++ rest)) ∷ index_of ranges (seen ++ rest) rest))
  unfolding index_ranges
  loop-index_of [] seen w m below seen_below above up valid later =
      rw (btree_insert-append m w (active_at ranges w seen) below, append-nil seen) refl
  loop-index_of ((x, r) ∷ rest) seen w m below seen_below above up valid later =
      rw (step-state_at seen w x r m above.0 below seen_below valid later.0) (
        loop-index_of rest (seen ++ ((x, r) ∷ [])) x (m ++ ((w, active_at ranges w seen) ∷ []))
          (Below-extend m x w _ (Below-le (keys m) w x (omega (arith, above.0)) below) above.0)
          (Below-append seen (suc x) x r
            (Below-le (keys seen) (suc w) (suc x) (omega (arith, above.0)) seen_below)
            (omega arith))
          up.0 up.1 (All-append (IsEntry ranges) seen x r valid later.0) later.1
        ∙ rw
            (
              append_assoc seen ((x, r) ∷ []) rest,
              append_assoc m ((w, active_at ranges w seen) ∷ []) (
                  (x, active_at ranges x (seen ++ ((x, r) ∷ rest)))
                  ∷ index_of ranges (seen ++ ((x, r) ∷ rest)) rest),
              active_at-later seen ((x, r) ∷ rest) w above,
            )
            refl)

-- For ranges that are entered in ascending order of their starts, each with a start that is its own
-- and is not after its end, and at least one of them, the second loop ends without a panic. The
-- index it builds lists under each start the numbers of exactly the entered ranges that contain it.
pub build_index-index_of :
    (ranges : List Range) (w r : ℕ) (entries : List (ℕ × ℕ))
    → Ascending (keys ((w, r) ∷ entries))
    → AreEntries ranges ((w, r) ∷ entries)
    → build_index ranges ((w, r) ∷ entries)
      ≡ some (index_of ranges ((w, r) ∷ entries) ((w, r) ∷ entries))
unfolding build_index index_ranges index_range retain
build_index-index_of ranges w r entries up valid =
    ap
      (λ a.
        index_ranges ranges entries
          (record { active_ranges = a; index = []; last_wasm_pos = some w })
        >>= finish_index)
      (active_at-snoc ranges [] w r valid.0)
    ∙ loop-index_of ranges entries ((w, r) ∷ []) w [] tt (omega arith, tt) up.0 up.1 (valid.0, tt)
        valid.1
