-- ===== src/Base/Outcomes.antt =====
-- The result of a Rust function that may return an error and may panic.
use mathlib.Core.Path.{◌≡◌, refl}
use mathlib.Core.Option.{Option, none, some}
use mathlib.Core.Bool.{Bool, true, false}
use mathlib.Core.Logic.{◌⊎◌, inl, inr}

pub data Outcome {ℓ} (E : Type 0) (A : Type ℓ) : Type ℓ where
  panic : Outcome E A
  err : E → Outcome E A
  ok : A → Outcome E A

module _ {E : Type 0} where
  infixl 5 ◌>>=◌ ◌>>◌
  -- The rest of a function runs on the value, and on neither an error nor a panic.
  abbrev pub ◌>>=◌ {ℓ κ} : {A : Type ℓ} {B : Type κ} → Outcome E A → (A → Outcome E B) → Outcome E B
  panic >>= rest = panic
  err why >>= rest = err why
  ok value >>= rest = rest value

  abbrev pub ◌>>◌ {ℓ} : {B : Type ℓ} → Outcome E (Unit {0}) → Outcome E B → Outcome E B
  first >> second = first >>= λ done. second

  -- `assert!(b)`
  abbrev pub assert : Bool → Outcome E (Unit {0})
  assert false = panic
  assert true = ok tt

  -- `o.unwrap()`
  abbrev pub unwrap {ℓ} : {A : Type ℓ} → Option A → Outcome E A
  unwrap none = panic
  unwrap (some value) = ok value

  pub Outcome-cases {ℓ} :
      {A : Type ℓ} (r : Outcome E A)
      → ((a : A) × (r ≡ ok a)) ⊎ (((e : E) × (r ≡ err e)) ⊎ (r ≡ panic))
  Outcome-cases panic = inr (inr refl)
  Outcome-cases (err e) = inr (inl (e, refl))
  Outcome-cases (ok a) = inl (a, refl)

  -- A bind that succeeds is two steps that succeed.
  pub >>=-eq-ok {ℓ κ} :
      {A : Type ℓ} {B : Type κ} (first : Outcome E A) (rest : A → Outcome E B) {b : B}
      → (first >>= rest) ≡ ok b
      → (value : A) × (first ≡ ok value) × (rest value ≡ ok b)
  >>=-eq-ok panic rest e = cc
  >>=-eq-ok (err why) rest e = cc
  >>=-eq-ok (ok value) rest e = (value, refl, e)
