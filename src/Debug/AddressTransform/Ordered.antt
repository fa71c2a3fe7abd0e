-- ===== src/Debug/AddressTransform/Ordered.antt =====
-- `BTreeMap` as used by wasmtime-debug/src/transform/address_transform.rs: ascending keys, and what an
-- insertion keeps.
use wasmtime.Base.{
  some, get_elem?, ltb-eq-false, ==-eq-false, ℕ, zero, suc, ◌≤◌, ◌<◌, ◌≡◌, inl, inr, refl, List, [],
  ◌∷◌, ◌++◌, length, ltb, ◌==◌, arith, Bool-cases, ltb→lt,
}
use wasmtime.Debug.Search.{key_at, IsSorted}
use wasmtime.Debug.AddressTransform.{btree_insert, keys}

-- Every key is greater.
abbrev pub Above : ℕ → List ℕ → Type 0
Above k [] = Unit {0}
Above k (x ∷ xs) = (k < x) × Above k xs

abbrev pub Ascending : List ℕ → Type 0
Ascending [] = Unit {0}
Ascending (x ∷ xs) = Above x xs × Ascending xs

-- Every key is less.
abbrev pub Below : ℕ → List ℕ → Type 0
Below k [] = Unit {0}
Below k (x ∷ xs) = (x < k) × Below k xs

-- A walk from one number to another that never goes down.
abbrev pub Climb : ℕ → List ℕ → ℕ → Type 0
Climb lo [] hi = lo ≤ hi
Climb lo (x ∷ xs) hi = (lo ≤ x) × Climb x xs hi

-- A property of every entry.
abbrev pub All {ℓ} : {A : Type ℓ} → (ℕ → A → Type 0) → List (ℕ × A) → Type 0
All P [] = Unit {0}
All P ((k, v) ∷ entries) = P k v × All P entries

-- An index at which a number stands.
abbrev pub Has : ℕ → List ℕ → Type 0
Has k xs = (i : ℕ) × (i < length xs) × (key_at xs i ≡ k)

pub Above-le : (xs : List ℕ) (a b : ℕ) → a ≤ b → Above b xs → Above a xs
Above-le [] a b h p = p
Above-le (x ∷ xs) a b h p = (omega (arith, p.0), Above-le xs a b h p.1)

pub Above-lt : (xs : List ℕ) (k i : ℕ) → Above k xs → i < length xs → k < key_at xs i
Above-lt [] k i p h = elim h [ ]
Above-lt (x ∷ xs) k zero p h = p.0
Above-lt (x ∷ xs) k (suc i) p h = Above-lt xs k i p.1 (omega arith)

pub Below-lt : (xs : List ℕ) (k i : ℕ) → Below k xs → i < length xs → key_at xs i < k
Below-lt [] k i p h = elim h [ ]
Below-lt (x ∷ xs) k zero p h = p.0
Below-lt (x ∷ xs) k (suc i) p h = Below-lt xs k i p.1 (omega arith)

pub Ascending-IsSorted : (xs : List ℕ) → Ascending xs → IsSorted xs
Ascending-IsSorted [] p i j h q = elim q [ ]
Ascending-IsSorted (x ∷ xs) p zero zero h q = omega arith
Ascending-IsSorted (x ∷ xs) p zero (suc j) h q = omega (arith, Above-lt xs x j p.0 (omega arith))
Ascending-IsSorted (x ∷ xs) p (suc i) zero h q = absurd (omega arith)
Ascending-IsSorted (x ∷ xs) p (suc i) (suc j) h q =
    Ascending-IsSorted xs p.1 i j (omega arith) (omega arith)

pub Climb-le : (xs : List ℕ) (lo hi : ℕ) → Climb lo xs hi → lo ≤ hi
Climb-le [] lo hi p = p
Climb-le (x ∷ xs) lo hi p = omega (arith, p.0, Climb-le xs x hi p.1)

Climb-key_at : (xs : List ℕ) (lo hi i : ℕ) → Climb lo xs hi → i < length xs → lo ≤ key_at xs i
Climb-key_at [] lo hi i p h = elim h [ ]
Climb-key_at (x ∷ xs) lo hi zero p h = p.0
Climb-key_at (x ∷ xs) lo hi (suc i) p h =
    omega (arith, p.0, Climb-key_at xs x hi i p.1 (omega arith))

pub Climb-IsSorted : (xs : List ℕ) (lo hi : ℕ) → Climb lo xs hi → IsSorted xs
Climb-IsSorted [] lo hi p i j h q = elim q [ ]
Climb-IsSorted (x ∷ xs) lo hi p zero zero h q = omega arith
Climb-IsSorted (x ∷ xs) lo hi p zero (suc j) h q = Climb-key_at xs x hi j p.1 (omega arith)
Climb-IsSorted (x ∷ xs) lo hi p (suc i) zero h q = absurd (omega arith)
Climb-IsSorted (x ∷ xs) lo hi p (suc i) (suc j) h q =
    Climb-IsSorted xs x hi p.1 i j (omega arith) (omega arith)

pub Climb-append :
    (xs : List ℕ) (lo hi y : ℕ) → Climb lo xs hi → hi ≤ y → Climb lo (xs ++ (y ∷ [])) y
Climb-append [] lo hi y p h = (omega (arith, p), omega arith)
Climb-append (x ∷ xs) lo hi y p h = (p.0, Climb-append xs x hi y p.1 h)

pub Climb-widen : (xs : List ℕ) (lo hi top : ℕ) → Climb lo xs hi → hi ≤ top → Climb lo xs top
Climb-widen [] lo hi top p h = omega (arith, p)
Climb-widen (x ∷ xs) lo hi top p h = (p.0, Climb-widen xs x hi top p.1 h)

pub Has-cons : (x k : ℕ) (xs : List ℕ) → Has k xs → Has k (x ∷ xs)
Has-cons x k xs (i, p, e) = (suc i, omega arith, e)

module _ {ℓ} {A : Type ℓ} where
  btree_insert-Above :
      (m : List (ℕ × A)) (a k : ℕ) (v : A)
      → a < k
      → Above a (keys m)
      → Above a (keys (btree_insert k v m))
  unfolding btree_insert
  btree_insert-Above [] a k v h p = (h, tt)
  btree_insert-Above ((x, u) ∷ m) a k v h p = elim (Bool-cases (ltb k x)) [
    | inl e ↦ rw e (h, p)
    | inr e ↦ elim (Bool-cases (k == x)) [
      | inl q ↦ rw (e, q) (h, p.1)
      | inr q ↦ rw (e, q) (p.0, btree_insert-Above m a k v h p.1)
    ]
  ]

  pub btree_insert-Ascending :
      (m : List (ℕ × A)) (k : ℕ) (v : A)
      → Ascending (keys m)
      → Ascending (keys (btree_insert k v m))
  unfolding btree_insert
  btree_insert-Ascending [] k v p = (tt, tt)
  btree_insert-Ascending ((x, u) ∷ m) k v p = elim (Bool-cases (ltb k x)) [
    | inl e ↦ rw e ((ltb→lt k x e, Above-le (keys m) k x (omega (arith, ltb→lt k x e)) p.0), p)
    | inr e ↦ elim (Bool-cases (k == x)) [
      | inl q ↦ rw (e, q) (Above-le (keys m) k x (ground (arith, q)) p.0, p.1)
      | inr q ↦
          rw (e, q)
            (
              btree_insert-Above m x k v (ground (arith, e, q)) p.0,
              btree_insert-Ascending m k v p.1,
            )
    ]
  ]

  pub btree_insert-Has : (m : List (ℕ × A)) (k : ℕ) (v : A) → Has k (keys (btree_insert k v m))
  unfolding btree_insert
  btree_insert-Has [] k v = (0, omega arith, refl)
  btree_insert-Has ((x, u) ∷ m) k v = elim (Bool-cases (ltb k x)) [
    | inl e ↦ rw e (0, omega arith, refl)
    | inr e ↦ elim (Bool-cases (k == x)) [
      | inl q ↦ rw (e, q) (0, omega arith, refl)
      | inr q ↦ rw (e, q) (Has-cons x k _ (btree_insert-Has m k v))
    ]
  ]

  -- The other keys stay.
  pub btree_insert-kept :
      (m : List (ℕ × A)) (k : ℕ) (v : A) (j : ℕ)
      → Has j (keys m)
      → Has j (keys (btree_insert k v m))
  unfolding btree_insert
  btree_insert-kept [] k v j (i, p, e) = elim p [ ]
  btree_insert-kept ((x, u) ∷ m) k v j (i, p, e) = elim (Bool-cases (ltb k x)) [
    | inl l ↦ rw l (suc i, omega arith, e)
    | inr l ↦ elim (Bool-cases (k == x)) [
      | inl q ↦
          rw (l, q)
            (elim i
                as (λ n. n < length (x ∷ keys m) → key_at (x ∷ keys m) n ≡ j → Has j (k ∷ keys m)) [
                  | zero ↦ λ p f. (0, omega arith, ground (arith, q, f))
                  | suc n ↦ λ p f. (suc n, omega arith, f)
                ]
              p e)
      | inr q ↦
          rw (l, q)
            (elim i
                as (λ n.
                  n < length (x ∷ keys m)
                  → key_at (x ∷ keys m) n ≡ j
                  → Has j (x ∷ keys (btree_insert k v m))) [
                    | zero ↦ λ p f. (0, omega arith, f)
                    | suc n ↦ λ p f. Has-cons x j _ (btree_insert-kept m k v j (n, omega arith, f))
                  ]
              p e)
    ]
  ]

  -- A key above all others is appended.
  pub btree_insert-append :
      (m : List (ℕ × A)) (k : ℕ) (v : A)
      → Below k (keys m)
      → btree_insert k v m ≡ m ++ ((k, v) ∷ [])
  unfolding btree_insert
  btree_insert-append [] k v p = refl
  btree_insert-append ((x, u) ∷ m) k v p =
      rw
        (
          ltb-eq-false k x (omega (arith, p.0)),
          ==-eq-false k x (λ e. absurd (omega (arith, e, p.0))),
          btree_insert-append m k v p.1,
        )
        refl

  pub All-btree_insert :
      (P : ℕ → A → Type 0) (m : List (ℕ × A)) (k : ℕ) (v : A)
      → P k v
      → All P m
      → All P (btree_insert k v m)
  unfolding btree_insert
  All-btree_insert P [] k v e h = (e, tt)
  All-btree_insert P ((x, u) ∷ m) k v e h = elim (Bool-cases (ltb k x)) [
    | inl l ↦ rw l (e, h)
    | inr l ↦ elim (Bool-cases (k == x)) [
      | inl same ↦ rw (l, same) (e, h.1)
      | inr same ↦ rw (l, same) (h.0, All-btree_insert P m k v e h.1)
    ]
  ]

  pub All-get_elem? :
      (P : ℕ → A → Type 0) (m : List (ℕ × A)) (i : ℕ)
      → All P m
      → i < length (keys m)
      → (v : A) × (get_elem? m i ≡ some (key_at (keys m) i, v)) × P (key_at (keys m) i) v
  All-get_elem? P [] i h p = elim p [ ]
  All-get_elem? P ((x, u) ∷ m) zero h p = (u, refl, h.0)
  All-get_elem? P ((x, u) ∷ m) (suc i) h p = All-get_elem? P m i h.1 (omega arith)

  pub All-append :
      (P : ℕ → A → Type 0) (m : List (ℕ × A)) (k : ℕ) (v : A)
      → All P m
      → P k v
      → All P (m ++ ((k, v) ∷ []))
  All-append P [] k v h e = (e, tt)
  All-append P ((x, u) ∷ m) k v h e = (h.0, All-append P m k v h.1 e)

pub Ascending-lt :
    (xs : List ℕ) (i j : ℕ) → Ascending xs → i < j → j < length xs → key_at xs i < key_at xs j
Ascending-lt [] i j p h q = elim q [ ]
Ascending-lt (x ∷ xs) zero zero p h q = absurd (omega arith)
Ascending-lt (x ∷ xs) zero (suc j) p h q = Above-lt xs x j p.0 (omega arith)
Ascending-lt (x ∷ xs) (suc i) zero p h q = absurd (omega arith)
Ascending-lt (x ∷ xs) (suc i) (suc j) p h q = Ascending-lt xs i j p.1 (omega arith) (omega arith)
