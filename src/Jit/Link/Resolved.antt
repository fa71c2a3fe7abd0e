-- ===== src/Jit/Link/Resolved.antt =====
-- wasmtime-jit/src/link.rs: what `link_module` links a module's imports to, and when it does.
use wasmtime.Base.{
  ℕ, ◌≡◌, refl, sym, ap, subst, ◌∙◌, Option, none, some, Bool, true, false, get_elem?, leb, leb→le,
}
use wasmtime.Base.Outcomes.{Outcome, ok, panic, ◌>>◌, assert, unwrap, >>=-eq-ok}
use wasmtime.Environ.Plan.{TablePlan, MemoryPlan}
use wasmtime.Environ.Module.{
  Module, Signature, Global, GlobalInit, import, i32_const, i64_const, f32_const, f64_const,
  v128_const, get_global,
}
use wasmtime.Runtime.VmContext.{VmFunctionImport, VmTableImport, VmMemoryImport, VmGlobalImport}
use wasmtime.Runtime.Instance.Calls.{Export, function, table, memory, global}
use wasmtime.Jit.Link.Fits.{
  TableFits, MemoryFits, is_memory_compatible-MemoryFits, same_signature_iff,
  is_table_compatible_iff, same_global_iff,
}
use wasmtime.Jit.Link.{
  Name, LinkError, check, same_signature, is_table_compatible, is_memory_compatible,
  is_global_compatible, same_global, bound_suffices, link_function, link_table, link_memory,
  link_global,
}

module _ (m : Module) where
  -- An export that is what an import asks for, and the pointers that are linked.
  abbrev pub LinkedFunction : ℕ → Option Export → VmFunctionImport → Type 0
  LinkedFunction index e x =
      (signature : Signature) × (s : ℕ) × (e ≡ some (function x.body signature x.vmctx))
      × (get_elem? m.functions index ≡ some s)
      × (get_elem? m.signatures s ≡ some signature)

  abbrev pub LinkedTable : ℕ → Option Export → VmTableImport → Type 0
  LinkedTable index e x =
      (plan : TablePlan) × (own : TablePlan) × (e ≡ some (table x.from x.vmctx plan))
      × (get_elem? m.table_plans index ≡ some own)
      × TableFits plan own

  abbrev pub LinkedMemory : ℕ → Option Export → VmMemoryImport → Type 0
  LinkedMemory index e x =
      (plan : MemoryPlan) × (own : MemoryPlan) × (e ≡ some (memory x.from x.vmctx plan))
      × (get_elem? m.memory_plans index ≡ some own)
      × MemoryFits plan own

  abbrev pub LinkedGlobal : ℕ → Option Export → VmGlobalImport → Type 0
  LinkedGlobal index e x =
      (vmctx : ℕ) × (exported : Global) × (own : Global) × (e ≡ some (global x.from vmctx exported))
      × (get_elem? m.globals index ≡ some own)
      × (own.initializer ≡ import)
      × (exported.ty ≡ own.ty)
      × (exported.mutability ≡ own.mutability)

unwrap-eq-ok : {A : Type 0} (o : Option A) {a : A} → unwrap {E = LinkError} o ≡ ok a → o ≡ some a
unwrap-eq-ok none e = absurd (cc)
unwrap-eq-ok (some a) e = cc

check-eq-ok :
    {I : Type 0} (b : Bool) (why : LinkError) (linked : ℕ × I) {r : ℕ × I}
    → check b why linked ≡ ok r
    → (b ≡ true) × (linked ≡ r)
check-eq-ok true why linked e = (refl, cc)
check-eq-ok false why linked e = absurd (cc)

assert-eq-ok : (b : Bool) {u : Unit {0}} → assert {E = LinkError} b ≡ ok u → b ≡ true
assert-eq-ok true e = refl
assert-eq-ok false e = absurd (cc)

-- Only an import as the initializer has a result.
by_initializer :
    (i : GlobalInit) (same fits : Bool)
    → ◌≡◌ {A = Outcome LinkError Bool} (elim i [ import ↦ ok same | other ↦ panic ]) (ok fits)
    → (i ≡ import) × (same ≡ fits)
by_initializer import same fits e = (refl, cc)
by_initializer (i32_const n) same fits e = absurd (cc)
by_initializer (i64_const n) same fits e = absurd (cc)
by_initializer (f32_const n) same fits e = absurd (cc)
by_initializer (f64_const n) same fits e = absurd (cc)
by_initializer (v128_const n) same fits e = absurd (cc)
by_initializer (get_global n) same fits e = absurd (cc)

module _ (m : Module) where
  pub link_function-LinkedFunction :
      (index : ℕ) (name : Name) (e : Option Export) (linked : ℕ × VmFunctionImport)
      → link_function m index name e ≡ ok linked
      → LinkedFunction m index e linked.1
  unfolding link_function
  link_function-LinkedFunction index name none linked h = absurd (cc)
  link_function-LinkedFunction index name (some (function address signature vmctx)) linked h =
      let a = >>=-eq-ok (unwrap (get_elem? m.functions index)) _ h in
      let b = >>=-eq-ok (unwrap (get_elem? m.signatures a.0)) _ a.2 in
      let c = check-eq-ok (same_signature signature b.0) _ _ b.2 in
      let same = (same_signature_iff signature b.0).0 c.0 in
      subst
        (λ (l : ℕ × VmFunctionImport).
          LinkedFunction m index (some (function address signature vmctx)) l.1)
        c.1 (signature, a.0, refl, unwrap-eq-ok _ a.1, unwrap-eq-ok _ b.1 ∙ ap some (sym same))
  link_function-LinkedFunction index name (some (table d v p)) linked h = absurd (cc)
  link_function-LinkedFunction index name (some (memory d v p)) linked h = absurd (cc)
  link_function-LinkedFunction index name (some (global d v p)) linked h = absurd (cc)

  pub link_table-LinkedTable :
      (index : ℕ) (name : Name) (e : Option Export) (linked : ℕ × VmTableImport)
      → link_table m index name e ≡ ok linked
      → LinkedTable m index e linked.1
  unfolding link_table
  link_table-LinkedTable index name none linked h = absurd (cc)
  link_table-LinkedTable index name (some (function d v p)) linked h = absurd (cc)
  link_table-LinkedTable index name (some (table definition vmctx plan)) linked h =
      let a = >>=-eq-ok (unwrap (get_elem? m.table_plans index)) _ h in
      let c = check-eq-ok (is_table_compatible plan a.0) _ _ a.2 in
      subst
        (λ (l : ℕ × VmTableImport). LinkedTable m index (some (table definition vmctx plan)) l.1)
        c.1 (plan, a.0, refl, unwrap-eq-ok _ a.1, (is_table_compatible_iff plan a.0).0 c.0)
  link_table-LinkedTable index name (some (memory d v p)) linked h = absurd (cc)
  link_table-LinkedTable index name (some (global d v p)) linked h = absurd (cc)

  pub link_memory-LinkedMemory :
      (index : ℕ) (name : Name) (e : Option Export) (linked : ℕ × VmMemoryImport)
      → link_memory m index name e ≡ ok linked
      → LinkedMemory m index e linked.1
  unfolding link_memory
  link_memory-LinkedMemory index name none linked h = absurd (cc)
  link_memory-LinkedMemory index name (some (function d v p)) linked h = absurd (cc)
  link_memory-LinkedMemory index name (some (table d v p)) linked h = absurd (cc)
  link_memory-LinkedMemory index name (some (memory definition vmctx plan)) linked h =
      let a = >>=-eq-ok (unwrap (get_elem? m.memory_plans index)) _ h in
      let c = >>=-eq-ok (check (is_memory_compatible plan a.0) _ _) _ a.2 in
      let d = check-eq-ok (is_memory_compatible plan a.0) _ _ c.1 in
      let f =
        >>=-eq-ok
          (assert (bound_suffices plan.style a.0.style)
            >> assert (leb a.0.offset_guard_size plan.offset_guard_size))
          _ c.2 in
      let g = >>=-eq-ok (assert (bound_suffices plan.style a.0.style)) _ f.1 in
      let same : c.0 ≡ linked = cc in
      subst
        (λ (l : ℕ × VmMemoryImport). LinkedMemory m index (some (memory definition vmctx plan)) l.1)
        (d.1 ∙ same)
        (
          plan,
          a.0,
          refl,
          unwrap-eq-ok _ a.1,
          is_memory_compatible-MemoryFits plan a.0 d.0 (assert-eq-ok _ g.1)
              (leb→le _ _ (assert-eq-ok _ g.2)),
        )
  link_memory-LinkedMemory index name (some (global d v p)) linked h = absurd (cc)

  is_global_compatible-eq-ok :
      (exported own : Global) (fits : Bool)
      → is_global_compatible exported own ≡ ok fits
      → (own.initializer ≡ import) × (same_global exported own ≡ fits)
  unfolding is_global_compatible
  is_global_compatible-eq-ok exported own fits h =
      by_initializer own.initializer (same_global exported own) fits h

  pub link_global-LinkedGlobal :
      (index : ℕ) (name : Name) (e : Option Export) (linked : ℕ × VmGlobalImport)
      → link_global m index name e ≡ ok linked
      → LinkedGlobal m index e linked.1
  unfolding link_global
  link_global-LinkedGlobal index name none linked h = absurd (cc)
  link_global-LinkedGlobal index name (some (function d v p)) linked h = absurd (cc)
  link_global-LinkedGlobal index name (some (table d v p)) linked h = absurd (cc)
  link_global-LinkedGlobal index name (some (memory d v p)) linked h = absurd (cc)
  link_global-LinkedGlobal index name (some (global definition vmctx exported)) linked h =
      let a = >>=-eq-ok (unwrap (get_elem? m.globals index)) _ h in
      let b = >>=-eq-ok (is_global_compatible exported a.0) _ a.2 in
      let c = check-eq-ok b.0 _ _ b.2 in
      let d = is_global_compatible-eq-ok exported a.0 b.0 b.1 in
      let same = (same_global_iff exported a.0).0 (d.1 ∙ c.0) in
      subst
        (λ (l : ℕ × VmGlobalImport).
          LinkedGlobal m index (some (global definition vmctx exported)) l.1)
        c.1 (vmctx, exported, a.0, refl, unwrap-eq-ok _ a.1, d.0, same.0, same.1)
