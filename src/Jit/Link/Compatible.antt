-- ===== src/Jit/Link/Compatible.antt =====
-- wasmtime-jit/src/link.rs: what compatible limits mean.
use wasmtime.Base.{
  ℕ, suc, ◌+◌, ◌≤◌, ◌≡◌, ◌↔◌, refl, Bool, true, false, ◌&&◌, Option, none, some, leb→le, le→leb,
  arith,
}
use wasmtime.Environ.Plan.{MemoryPlan, MemoryType}
use wasmtime.Jit.Link.{maximum_admits, is_memory_compatible, same_flag}

-- A size is within a maximum, if there is one.
abbrev pub Within : Option ℕ → ℕ → Type 0
Within none n = Unit {0}
Within (some maximum) n = n ≤ maximum

-- A number of pages that a memory may have.
abbrev pub Allows : MemoryType → ℕ → Type 0
Allows t n = (t.minimum ≤ n) × Within t.maximum n

maximum_admits-Within :
    (imported exported : Option ℕ) (n : ℕ)
    → maximum_admits imported exported ≡ true
    → Within exported n
    → Within imported n
maximum_admits-Within none exported n e p = tt
maximum_admits-Within (some i) none n e p = absurd (cc)
maximum_admits-Within (some i) (some x) n e p = ground (arith, e, p)

Within-all :
    (imported exported : Option ℕ)
    → ((n : ℕ) → Within exported n → Within imported n)
    → maximum_admits imported exported ≡ true
Within-all none exported all = refl
Within-all (some i) none all = absurd (omega (arith, all (suc i) tt))
Within-all (some i) (some x) all = le→leb x i (all x (omega arith))

pub maximum_admits_iff :
    (imported exported : Option ℕ)
    → (maximum_admits imported exported ≡ true) ↔ ((n : ℕ) → Within exported n → Within imported n)
maximum_admits_iff imported exported =
    ((λ e n. maximum_admits-Within imported exported n e), Within-all imported exported)

-- The least size, and one that is beyond a maximum, decide.
Within-maximum_admits :
    (imported exported : Option ℕ) (least : ℕ)
    → Within exported least
    → ((n : ℕ) → least ≤ n → Within exported n → Within imported n)
    → maximum_admits imported exported ≡ true
Within-maximum_admits none exported least h all = refl
Within-maximum_admits (some i) none least h all =
    absurd (omega (arith, all (least + suc i) (omega arith) tt))
Within-maximum_admits (some i) (some x) least h all = le→leb x i (all x h (omega arith))

pub same_flag-eq : (a b : Bool) → same_flag a b ≡ true → a ≡ b
same_flag-eq true true e = refl
same_flag-eq true false e = absurd (cc)
same_flag-eq false true e = absurd (cc)
same_flag-eq false false e = refl

pub eq-same_flag : (a b : Bool) → a ≡ b → same_flag a b ≡ true
eq-same_flag true true e = refl
eq-same_flag true false e = absurd (cc)
eq-same_flag false true e = absurd (cc)
eq-same_flag false false e = refl

pub and-left : (a b : Bool) → (a && b) ≡ true → a ≡ true
and-left true b e = refl
and-left false b e = absurd (cc)

pub and-right : (a b : Bool) → (a && b) ≡ true → b ≡ true
and-right true b e = e
and-right false b e = absurd (cc)

-- An exported memory, whose minimum is within its maximum, is compatible with an imported one exactly
-- when both are shared or neither is, and every number of pages that the exported memory may have is
-- one that the imported memory may have.
pub is_memory_compatible_iff :
    (exported imported : MemoryPlan)
    → Within exported.memory.maximum exported.memory.minimum
    → (is_memory_compatible exported imported ≡ true) ↔ (
        (exported.memory.shared ≡ imported.memory.shared)
        × ((n : ℕ) → Allows exported.memory n → Allows imported.memory n))
unfolding is_memory_compatible
is_memory_compatible_iff exported imported least = (
  (λ e. (
    same_flag-eq _ _ (and-right _ _ (and-right _ _ e)),
    λ n p. (
      omega (arith, p.0, leb→le imported.memory.minimum exported.memory.minimum (and-left _ _ e)),
      maximum_admits-Within imported.memory.maximum exported.memory.maximum n
          (and-left _ _ (and-right _ _ e)) p.1,
    ),
  )),
  (λ p.
      rw
        (
          le→leb _ _ (p.1 exported.memory.minimum (omega arith, least)).0,
          Within-maximum_admits imported.memory.maximum exported.memory.maximum
              exported.memory.minimum least (λ n h w. (p.1 n (h, w)).1),
          eq-same_flag exported.memory.shared imported.memory.shared p.0,
        )
        refl),
)
