-- ===== src/Jit/Link/Each.antt =====
-- wasmtime-jit/src/link.rs: one of the loops of `link_module`, for any body.
use wasmtime.Base.{
  ℕ, zero, suc, ◌+◌, ◌≡◌, refl, subst, ap, Option, some, List, [], ◌∷◌, length, get_elem?, arith,
}
use wasmtime.Base.Outcomes.{Outcome, ok, >>=-eq-ok}
use wasmtime.Runtime.Instance.Calls.{Export}
use wasmtime.Jit.Link.{Name, LinkError, Body, link_each, insert_dependency}

module _ {I : Type 0} (P : ℕ → Option Export → I → Type 0) (resolve : Name → Option Export) where
  -- Every name, counted from an index on, has an import in its place.
  abbrev pub EachLinked : ℕ → List Name → List I → Type 0
  EachLinked index [] [] = Unit {0}
  EachLinked index [] (x ∷ xs) = ⊥
  EachLinked index (name ∷ names) [] = ⊥
  EachLinked index (name ∷ names) (x ∷ xs) =
      P index (resolve name) x × EachLinked (suc index) names xs

  abbrev pub EachLinkable : ℕ → List Name → Type 0
  EachLinkable index [] = Unit {0}
  EachLinkable index (name ∷ names) =
      ((x : I) × P index (resolve name) x) × EachLinkable (suc index) names

  pub length-EachLinked :
      (index : ℕ) (names : List Name) (xs : List I)
      → EachLinked index names xs
      → length xs ≡ length names
  length-EachLinked index [] [] p = refl
  length-EachLinked index [] (x ∷ xs) p = absurd p
  length-EachLinked index (name ∷ names) [] p = absurd p
  length-EachLinked index (name ∷ names) (x ∷ xs) p =
      ap suc (length-EachLinked (suc index) names xs p.1)

  pub get_elem?-EachLinked :
      (index : ℕ) (names : List Name) (xs : List I) (i : ℕ) (name : Name)
      → EachLinked index names xs
      → get_elem? names i ≡ some name
      → (x : I) × (get_elem? xs i ≡ some x) × P (index + i) (resolve name) x
  get_elem?-EachLinked index [] xs i name p e = absurd (cc)
  get_elem?-EachLinked index (n ∷ names) [] i name p e = absurd p
  get_elem?-EachLinked index (n ∷ names) (x ∷ xs) zero name p e =
      let same : n ≡ name = cc in
      (
        x,
        refl,
        subst (λ k. P k (resolve name) x) (omega arith)
            (subst (λ y. P index (resolve y) x) same p.0),
      )
  get_elem?-EachLinked index (n ∷ names) (x ∷ xs) (suc i) name p e =
      let found = get_elem?-EachLinked (suc index) names xs i name p.1 e in
      (found.0, found.1, subst (λ k. P k (resolve name) found.0) (omega arith) found.2)

  module _ (body : Body I) where
    pub link_each-EachLinked :
        ((index : ℕ) (name : Name) (e : Option Export) (linked : ℕ × I)
          → body index name e ≡ ok linked
          → P index e linked.1)
        → (index : ℕ) (names : List Name) (dependencies : List ℕ) (r : List I × List ℕ)
        → link_each body resolve index names dependencies ≡ ok r
        → EachLinked index names r.0
    unfolding link_each
    link_each-EachLinked sound index [] dependencies r e =
        subst
          (λ (q : Outcome LinkError (List I × List ℕ)). elim q [
            | ok p ↦ EachLinked index [] p.0
            | other ↦ Unit {0}
          ])
          e tt
    link_each-EachLinked sound index (name ∷ names) dependencies r e =
        let first = >>=-eq-ok (body index name (resolve name)) _ e in
        let second =
          >>=-eq-ok
            (link_each body resolve (suc index) names (insert_dependency first.0.0 dependencies)) _
            first.2 in
        subst
          (λ (q : Outcome LinkError (List I × List ℕ)). elim q [
            | ok p ↦ EachLinked index (name ∷ names) p.0
            | other ↦ Unit {0}
          ])
          second.2
          (
            sound index name (resolve name) first.0 first.1,
            link_each-EachLinked sound (suc index) names (insert_dependency first.0.0 dependencies)
                second.0 second.1,
          )

    pub link_each-total :
        ((index : ℕ) (name : Name) (e : Option Export) (x : I)
          → P index e x
          → (linked : ℕ × I) × (body index name e ≡ ok linked))
        → (index : ℕ) (names : List Name) (dependencies : List ℕ) → EachLinkable index names
        → (r : List I × List ℕ) × (link_each body resolve index names dependencies ≡ ok r)
    unfolding link_each
    link_each-total complete index [] dependencies p = (([], dependencies), refl)
    link_each-total complete index (name ∷ names) dependencies p =
        let first = complete index name (resolve name) p.0.0 p.0.1 in
        let rest =
          link_each-total complete (suc index) names (insert_dependency first.0.0 dependencies)
            p.1 in
        ((first.0.1 ∷ rest.0.0, rest.0.1), rw (first.1, rest.1) refl)

  pub EachLinked-EachLinkable :
      (index : ℕ) (names : List Name) (xs : List I)
      → EachLinked index names xs
      → EachLinkable index names
  EachLinked-EachLinkable index [] xs p = tt
  EachLinked-EachLinkable index (name ∷ names) [] p = absurd p
  EachLinked-EachLinkable index (name ∷ names) (x ∷ xs) p =
      ((x, p.0), EachLinked-EachLinkable (suc index) names xs p.1)

  -- From the first index on.
  pub get_elem?-EachLinked_zero :
      (names : List Name) (xs : List I) (i : ℕ) (name : Name)
      → EachLinked 0 names xs
      → get_elem? names i ≡ some name
      → (x : I) × (get_elem? xs i ≡ some x) × P i (resolve name) x
  get_elem?-EachLinked_zero names xs i name p e =
      let found = get_elem?-EachLinked 0 names xs i name p e in
      (found.0, found.1, subst (λ k. P k (resolve name) found.0) (omega arith) found.2)
