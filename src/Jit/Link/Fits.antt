-- ===== src/Jit/Link/Fits.antt =====
-- wasmtime-jit/src/link.rs: what an import asks of an export, and that the tests decide it.
use wasmtime.Base.{
  ℕ, ◌≤◌, ◌≡◌, ◌↔◌, ◌==◌, refl, sym, ap, subst, Bool, true, ◌&&◌, Option, leb→le, le→leb, ==_iff,
  arith,
}
use wasmtime.Environ.Plan.{
  TableElementType, func, val, TablePlan, MemoryPlan, MemoryStyle, dynamic, static,
}
use wasmtime.Environ.Module.{Signature, Global}
use wasmtime.Jit.Link.{
  same_signature, is_table_element_type_compatible, is_table_compatible, is_memory_compatible,
  bound_suffices, same_global,
}
use wasmtime.Jit.Link.Compatible.{
  Within, maximum_admits_iff, same_flag-eq, eq-same_flag, and-left, and-right,
}

-- Every size within the exported maximum is within the imported one.
abbrev pub MaximumFits : Option ℕ → Option ℕ → Type 0
MaximumFits exported imported = (n : ℕ) → Within exported n → Within imported n

-- What an import asks of an export of its kind: nothing here refers to the tests of the code.
abbrev pub TableFits : TablePlan → TablePlan → Type 0
TableFits exported imported =
    (exported.ty ≡ imported.ty)
    × (imported.limits.minimum ≤ exported.limits.minimum)
    × MaximumFits exported.limits.maximum imported.limits.maximum

abbrev pub MemoryFits : MemoryPlan → MemoryPlan → Type 0
MemoryFits exported imported =
    (imported.memory.minimum ≤ exported.memory.minimum)
    × MaximumFits exported.memory.maximum imported.memory.maximum
    × (exported.memory.shared ≡ imported.memory.shared)
    × ((bound import_bound : ℕ)
        → exported.style ≡ static bound
        → imported.style ≡ static import_bound
        → import_bound ≤ bound)
    × (imported.offset_guard_size ≤ exported.offset_guard_size)

and-true : (a b : Bool) → a ≡ true → b ≡ true → (a && b) ≡ true
and-true a b e f = rw (e, f) refl

pub ==_refl : (n : ℕ) → (n == n) ≡ true
==_refl n = (==_iff n n).1 refl

pub eq_of : (a b : ℕ) → (a == b) ≡ true → a ≡ b
eq_of a b e = (==_iff a b).0 e

Signature_ext :
    (a b : Signature) → a.name ≡ b.name → a.params ≡ b.params → a.returns ≡ b.returns → a ≡ b
Signature_ext a b name params returns = cc

-- The test of signatures is their equality.
pub same_signature_iff : (a b : Signature) → (same_signature a b ≡ true) ↔ (a ≡ b)
same_signature_iff a b = (
  (λ e.
      Signature_ext a b (eq_of a.name b.name (and-left _ _ e))
        (eq_of a.params b.params (and-left _ _ (and-right _ _ e)))
        (eq_of a.returns b.returns (and-right _ _ (and-right _ _ e)))),
  (λ e.
      subst (λ (c : Signature). same_signature a c ≡ true) e
        (rw (==_refl a.name, ==_refl a.params, ==_refl a.returns) refl)),
)

-- The test of element types is their equality.
pub is_table_element_type_compatible_iff :
    (a b : TableElementType) → (is_table_element_type_compatible a b ≡ true) ↔ (a ≡ b)
is_table_element_type_compatible_iff func func = ((λ e. refl), (λ e. refl))
is_table_element_type_compatible_iff func (val t) = ((λ e. absurd (cc)), (λ e. absurd (cc)))
is_table_element_type_compatible_iff (val t) func = ((λ e. absurd (cc)), (λ e. absurd (cc)))
is_table_element_type_compatible_iff (val t) (val u) =
    ((λ e. ap val (eq_of t u e)), (λ e. let same : t ≡ u = cc in (==_iff t u).1 same))

pub is_table_compatible_iff :
    (exported imported : TablePlan)
    → (is_table_compatible exported imported ≡ true) ↔ (
        (exported.ty ≡ imported.ty)
        × (imported.limits.minimum ≤ exported.limits.minimum)
        × ((n : ℕ) → Within exported.limits.maximum n → Within imported.limits.maximum n))
unfolding is_table_compatible
is_table_compatible_iff exported imported = (
  (λ e. (
    (is_table_element_type_compatible_iff exported.ty imported.ty).0 (and-left _ _ e),
    leb→le _ _ (and-left _ _ (and-right _ _ e)),
    (maximum_admits_iff imported.limits.maximum exported.limits.maximum).0
        (and-right _ _ (and-right _ _ e)),
  )),
  (λ p. and-true _ _ ((is_table_element_type_compatible_iff exported.ty imported.ty).1 p.0) (
      and-true _ _ (le→leb _ _ p.1)
        ((maximum_admits_iff imported.limits.maximum exported.limits.maximum).1 p.2))),
)

-- The tests of a memory but for the bound and the guard.
pub is_memory_compatible_lem :
    (exported imported : MemoryPlan)
    → (is_memory_compatible exported imported ≡ true) ↔ (
        (imported.memory.minimum ≤ exported.memory.minimum)
        × MaximumFits exported.memory.maximum imported.memory.maximum
        × (exported.memory.shared ≡ imported.memory.shared))
unfolding is_memory_compatible
is_memory_compatible_lem exported imported = (
  (λ e. (
    leb→le _ _ (and-left _ _ e),
    (maximum_admits_iff imported.memory.maximum exported.memory.maximum).0
        (and-left _ _ (and-right _ _ e)),
    same_flag-eq _ _ (and-right _ _ (and-right _ _ e)),
  )),
  (λ p. and-true _ _ (le→leb _ _ p.0) (
      and-true _ _ ((maximum_admits_iff imported.memory.maximum exported.memory.maximum).1 p.1)
        (eq-same_flag _ _ p.2))),
)

pub bound_suffices_iff :
    (exported imported : MemoryStyle)
    → (bound_suffices exported imported ≡ true) ↔ (
        (bound import_bound : ℕ)
        → exported ≡ static bound
        → imported ≡ static import_bound
        → import_bound ≤ bound)
bound_suffices_iff dynamic imported = ((λ e b i p q. absurd (cc)), (λ p. refl))
bound_suffices_iff (static bound) dynamic = ((λ e b i p q. absurd (cc)), (λ p. refl))
bound_suffices_iff (static bound) (static import_bound) = (
  (λ e b i p q.
      let same : bound ≡ b = cc in
      let same_import : import_bound ≡ i = cc in
      omega (arith, leb→le import_bound bound e, same, same_import)),
  (λ p. le→leb _ _ (p bound import_bound refl refl)),
)

-- The test of globals is that of the type and the mutability.
pub same_global_iff :
    (exported imported : Global)
    → (same_global exported imported ≡ true)
      ↔ ((exported.ty ≡ imported.ty) × (exported.mutability ≡ imported.mutability))
same_global_iff exported imported = (
  (λ e. (
    eq_of _ _ (and-left _ _ e),
    sym (same_flag-eq imported.mutability exported.mutability (and-right _ _ e)),
  )),
  (λ p. and-true _ _ ((==_iff _ _).1 p.0) (eq-same_flag _ _ (sym p.1))),
)

pub is_memory_compatible-MemoryFits :
    (exported imported : MemoryPlan)
    → is_memory_compatible exported imported ≡ true
    → bound_suffices exported.style imported.style ≡ true
    → imported.offset_guard_size ≤ exported.offset_guard_size
    → MemoryFits exported imported
is_memory_compatible-MemoryFits exported imported fits bound guard =
    let p = (is_memory_compatible_lem exported imported).0 fits in
    (p.0, p.1, p.2, (bound_suffices_iff exported.style imported.style).0 bound, guard)

pub MemoryFits-is_memory_compatible :
    (exported imported : MemoryPlan)
    → MemoryFits exported imported
    → (is_memory_compatible exported imported ≡ true)
      × (bound_suffices exported.style imported.style ≡ true)
MemoryFits-is_memory_compatible exported imported p = (
  (is_memory_compatible_lem exported imported).1 (p.0, p.1, p.2),
  (bound_suffices_iff exported.style imported.style).1 p.3,
)
