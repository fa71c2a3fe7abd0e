-- ===== src/Runtime/SignatureRegistry/Unique.antt =====
-- wasmtime-runtime/src/sig_registry.rs: equal indices mean equal signatures.
use wasmtime.Base.{
  subst, ℕ, ◌<◌, ◌≡◌, ◌↔◌, inl, inr, refl, sym, ap, ◌∙◌, none, some, List, [], ◌∷◌, length, try_u32,
  arith, Option-cases,
}
use mathlib.Core.Logic.{if_pos, if_neg}
use wasmtime.Runtime.SignatureRegistry.{find, register, register_all}

module _ {S : Type 0} (same : Discrete S) where
  -- Indices fall along the list, from the number of entries.
  abbrev pub Numbered : List (S × ℕ) → Type 0
  Numbered [] = Unit {0}
  Numbered ((s, i) ∷ map) = (i ≡ length map) × Numbered map

  find-lt :
      (map : List (S × ℕ)) (s : S) (i : ℕ)
      → Numbered map
      → find same map s ≡ some i
      → i < length map
  unfolding find
  find-lt [] s i v e = cc
  find-lt ((t, j) ∷ map) s i (vj, v) e = elim (same t s) [
    | yes p ↦ let h = rw (if_pos _ p) at e in ground arith
    | no n ↦ let h = find-lt map s i v (rw (if_neg _ n) at e) in omega arith
  ]

  -- In a numbered registry an index belongs to one signature.
  pub find-injective :
      (map : List (S × ℕ)) (s t : S) (i : ℕ)
      → Numbered map
      → find same map s ≡ some i
      → find same map t ≡ some i
      → s ≡ t
  unfolding find
  find-injective [] s t i v es et = cc
  find-injective ((u, j) ∷ map) s t i (vj, v) es et = elim (same u s) [
    | yes p ↦ elim (same u t) [
      | yes q ↦ sym p ∙ q
      | no nq ↦ absurd (later t s (rw (if_neg _ nq) at et) (rw (if_pos _ p) at es))
    ]
    | no np ↦ elim (same u t) [
      | yes q ↦ absurd (later s t (rw (if_neg _ np) at es) (rw (if_pos _ q) at et))
      | no nq ↦ find-injective map s t i v (rw (if_neg _ np) at es) (rw (if_neg _ nq) at et)
    ]
  ]
    where
      later : (x y : S) → find same map x ≡ some i → some j ≡ some i → ⊥
      later x y ex ej = ground (arith, find-lt map x i v ex, vj)

  fresh_entry :
      (map : List (S × ℕ)) (s : S) (i : ℕ) (map' : List (S × ℕ))
      → find same map s ≡ none
      → register same map s ≡ some (i, map')
      → (map' ≡ (s, i) ∷ map) × (i ≡ length map)
  unfolding register try_u32
  fresh_entry map s i map' missing e = (ground arith, ground arith)

  -- Once registered, a signature keeps its index.
  register-find :
      (map : List (S × ℕ)) (s : S) (i : ℕ) (map' : List (S × ℕ))
      → Numbered map
      → register same map s ≡ some (i, map')
      → Numbered map' × (find same map' s ≡ some i)
  unfolding register find
  register-find map s i map' v e = elim (Option-cases (find same map s)) [
    | inr (k, found) ↦ (subst Numbered (ground arith) v, ground arith)
    | inl missing ↦
        let (shape, number) = fresh_entry map s i map' missing e in
        rw shape ((number, v), if_pos (same s s) refl (some i) (find same map s))
  ]

  register_keeps :
      (map : List (S × ℕ)) (s t : S) (i k : ℕ) (map' : List (S × ℕ))
      → register same map s ≡ some (i, map')
      → find same map t ≡ some k
      → find same map' t ≡ some k
  unfolding register find
  register_keeps map s t i k map' e h = elim (Option-cases (find same map s)) [
    | inr (j, found) ↦ ground arith
    | inl missing ↦
        let (shape, number) = fresh_entry map s i map' missing e in
        rw shape (elim (same s t) [
          | yes p ↦ absurd (ground (arith, ap (find same map) p))
          | no n ↦ rw (if_neg _ n) h
        ])
  ]

  register_all-Numbered :
      (map map' : List (S × ℕ)) (ss : List S)
      → Numbered map
      → register_all same map ss ≡ some map'
      → Numbered map'
  unfolding register_all
  register_all-Numbered map map' [] v e = subst Numbered (ground arith) v
  register_all-Numbered map map' (s ∷ ss) v e = elim (Option-cases (register same map s)) [
    | inl full ↦ absurd (ground arith)
    | inr ((i, map₁), er) ↦
        register_all-Numbered map₁ map' ss (register-find map s i map₁ v er).0 (ground arith)
  ]

  register_all_keeps :
      (map map' : List (S × ℕ)) (ss : List S) (t : S) (k : ℕ)
      → register_all same map ss ≡ some map'
      → find same map t ≡ some k
      → find same map' t ≡ some k
  unfolding register_all
  register_all_keeps map map' [] t k e h = ground arith
  register_all_keeps map map' (s ∷ ss) t k e h = elim (Option-cases (register same map s)) [
    | inl full ↦ absurd (ground arith)
    | inr ((i, map₁), er) ↦
        register_all_keeps map₁ map' ss t k (ground arith) (register_keeps map s t i k map₁ er h)
  ]

  -- Take a registry that began empty; register `s`, then any signatures `ts`, then `t`. The
  -- indices that the two calls return are equal exactly where `s` and `t` are equal.
  pub index_iff_signature :
      (ss ts : List S) (s t : S) (i j : ℕ) (map₀ map₁ map₂ map₃ : List (S × ℕ))
      → register_all same [] ss ≡ some map₀
      → register same map₀ s ≡ some (i, map₁)
      → register_all same map₁ ts ≡ some map₂
      → register same map₂ t ≡ some (j, map₃)
      → (i ≡ j) ↔ (s ≡ t)
  index_iff_signature ss ts s t i j map₀ map₁ map₂ map₃ e₀ es ets et =
      let v₀ = register_all-Numbered [] map₀ ss tt e₀ in
      let (v₁, found_s) = register-find map₀ s i map₁ v₀ es in
      let v₂ = register_all-Numbered map₁ map₂ ts v₁ ets in
      let (v₃, found_t) = register-find map₂ t j map₃ v₂ et in
      let kept =
        register_keeps map₂ t s j i map₃ et (register_all_keeps map₁ map₂ ts s i ets found_s) in
      (
        λ p. find-injective map₃ s t i v₃ kept (rw p found_t),
        λ q. ground (arith, ap (find same map₃) q, kept, found_t),
      )
