-- ===== src/Runtime/Table/Elements.antt =====
-- wasmtime-runtime/src/table.rs: what `grow`, `get` and a write do to the elements.
use mathlib.Core.List.{append-nil}
use wasmtime.Base.{
  ==_iff, ==-eq-false, zero, suc, ap, ◌∙◌, le→leb, leb-eq-false, dec_lt, ◌↔◌, suc, ℕ, ◌+◌, ◌-◌, ◌≤◌,
  ◌<◌, ◌≡◌, ◌⊎◌, inl, inr, refl, true, false, none, some, List, [], ◌∷◌, ◌++◌, arith, length,
  get_elem?, set, take, replicate, ◌==◌, if◌then◌else◌, u32_mod, checked_add, try_u32,
  length-append, length-replicate, get_elem?-append, get_elem?-set_self, get_elem?-set_ne,
  get_elem?-lt, Option-cases, ℕ_discrete,
}
use wasmtime.Runtime.Memory.{exceeds}
use wasmtime.Runtime.Table.{Table, Anyfunc, default_anyfunc, grow, get, put, resize}

get_elem?-replicate {ℓ} :
    {A : Type ℓ} (n i : ℕ) (a : A) → i < n → get_elem? (replicate n a) i ≡ some a
get_elem?-replicate zero i a h = elim h [ ]
get_elem?-replicate (suc n) zero a h = refl
get_elem?-replicate (suc n) (suc i) a h = get_elem?-replicate n i a (omega arith)

get_elem?-append_right {ℓ} :
    {A : Type ℓ} (xs ys : List A) (i : ℕ)
    → length xs ≤ i
    → get_elem? (xs ++ ys) i ≡ get_elem? ys (i - length xs)
get_elem?-append_right [] ys i h = ap (get_elem? ys) (omega arith)
get_elem?-append_right (x ∷ xs) ys zero h = absurd (omega arith)
get_elem?-append_right (x ∷ xs) ys (suc i) h =
    get_elem?-append_right xs ys i (omega arith) ∙ ap (get_elem? ys) (omega arith)

take_all {ℓ} : {A : Type ℓ} (xs : List A) → take (length xs) xs ≡ xs
take_all [] = refl
take_all (x ∷ xs) = rw (take_all xs)

module _ {ℓ} {A : Type ℓ} (xs : List A) (n : ℕ) (a : A) (le : length xs ≤ n) where
  -- A resize that does not shrink appends.
  resize-eq-append : resize xs n a ≡ xs ++ replicate (n - length xs) a
  resize-eq-append = elim (dec_lt (length xs) n) [
    | yes lt ↦ rw (leb-eq-false n (length xs) lt)
    | no ge ↦
        let same : n ≡ length xs = omega arith in
        let none_left : n - length xs ≡ 0 = omega arith in
        rw (le→leb n (length xs) (omega arith), none_left, append-nil, same) (take_all xs)
  ]

  length-resize : length (resize xs n a) ≡ n
  length-resize = rw resize-eq-append (
      omega
        (arith, length-append xs (replicate (n - length xs) a), length-replicate (n - length xs) a))

  get_elem?-resize_old : (i : ℕ) → i < length xs → get_elem? (resize xs n a) i ≡ get_elem? xs i
  get_elem?-resize_old i h = rw resize-eq-append (get_elem?-append xs _ i h)

  get_elem?-resize_new : (i : ℕ) → length xs ≤ i → i < n → get_elem? (resize xs n a) i ≡ some a
  get_elem?-resize_new i h l = rw resize-eq-append (
      get_elem?-append_right xs _ i h
      ∙ get_elem?-replicate (n - length xs) (i - length xs) a (omega arith))

-- What a successful `grow` of a table promises: it returns the new length, which is the sum and
-- within the maximum; the old elements are kept, and the new ones are the default.
pub record TableGrown (t : Table) (delta n : ℕ) (t' : Table) : Type 0 where
  pub sum : n ≡ length t.vec + delta
  pub len : length t'.vec ≡ n
  pub within : exceeds t.maximum n ≡ false
  pub addressable : n < u32_mod
  pub kept : (i : ℕ) → i < length t.vec → get t' i ≡ get t i
  pub filled : (i : ℕ) → length t.vec ≤ i → i < n → get t' i ≡ some default_anyfunc

-- The result of a `grow` that succeeds.
grow_shape :
    (address : ℕ) (t : Table) (delta n : ℕ) (t' : Table)
    → grow address t delta ≡ some (some n, t')
    → (n ≡ length t.vec + delta)
      × (n < u32_mod)
      × (exceeds t.maximum n ≡ false)
      × (t'.vec ≡ resize t.vec n default_anyfunc)
unfolding grow checked_add try_u32
grow_shape address t delta n t' e = ground arith

-- A `grow` of a table that returns a length returns the sum, which is a `u32` within the maximum
-- and the length of the new table; the old elements are kept, and the new ones are the default.
pub grow-TableGrown :
    (address : ℕ) (t : Table) (delta n : ℕ) (t' : Table)
    → grow address t delta ≡ some (some n, t')
    → TableGrown t delta n t'
unfolding get
grow-TableGrown address t delta n t' e =
    let (sum, addressable, within, vec) = grow_shape address t delta n t' e in
    let le : length t.vec ≤ n = omega arith in
    record {
      sum = sum;
      len = rw vec (length-resize t.vec n default_anyfunc le);
      within = within;
      addressable = addressable;
      kept = λ i h. rw vec (get_elem?-resize_old t.vec n default_anyfunc le i h);
      filled = λ i h l. rw vec (get_elem?-resize_new t.vec n default_anyfunc le i h l);
    }

-- A table with a length that is a `u32` refuses to grow, and is then unchanged, exactly where
-- the sum is no `u32` or is above the maximum.
pub grow_refuses_iff :
    (address : ℕ) (t : Table) (delta : ℕ)
    → length t.vec < u32_mod
    → (grow address t delta ≡ some (none, t))
      ↔ ((u32_mod ≤ length t.vec + delta) ⊎ (exceeds t.maximum (length t.vec + delta) ≡ true))
unfolding grow checked_add try_u32
grow_refuses_iff address t delta h = (λ e. ground arith, λ c. ground arith)

-- After a write that succeeds, the element at its index is the one written, and every other index
-- reads as before.
pub get-put :
    (t t' : Table) (i j : ℕ) (a : Anyfunc)
    → put t i a ≡ some t'
    → get t' j ≡ (if i == j then some a else get t j)
unfolding get put
get-put t t' i j a e = elim (Option-cases (get_elem? t.vec i)) [
  | inl absent ↦ absurd (ground arith)
  | inr (old, present) ↦
      let shape : t'.vec ≡ set t.vec i a = ground arith in
      elim (ℕ_discrete i j) [
        | yes same ↦
            rw (shape, ← same, (==_iff i i).1 refl)
              (get_elem?-set_self t.vec i a (get_elem?-lt t.vec i old present))
        | no other ↦ rw (shape, ==-eq-false i j other) (get_elem?-set_ne t.vec a other)
      ]
]
