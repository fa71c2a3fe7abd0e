-- ===== src/Jit/Link/Linkable.antt =====
-- wasmtime-jit/src/link.rs: `link_module` links every import, and does so whenever each can be linked.
use wasmtime.Base.{ℕ, ◌≡◌, ◌↔◌, refl, subst, Option, [], le→leb}
use wasmtime.Base.Outcomes.{ok, >>=-eq-ok}
use wasmtime.Environ.Module.{Module}
use wasmtime.Runtime.VmContext.{
  Imports, VmFunctionImport, VmTableImport, VmMemoryImport, VmGlobalImport,
}
use wasmtime.Runtime.Instance.Calls.{Export}
use wasmtime.Jit.Link.{
  Name, is_global_compatible, link_function, link_table, link_memory, link_global, link_each,
  link_imports,
}
use wasmtime.Jit.Link.Fits.{
  MemoryFits-is_memory_compatible, same_signature_iff, is_table_compatible_iff, same_global_iff,
}
use wasmtime.Jit.Link.Each.{
  EachLinked, EachLinkable, link_each-EachLinked, link_each-total, EachLinked-EachLinkable,
}
use wasmtime.Jit.Link.Resolved.{
  LinkedFunction, LinkedTable, LinkedMemory, LinkedGlobal, link_function-LinkedFunction,
  link_table-LinkedTable, link_memory-LinkedMemory, link_global-LinkedGlobal,
}

-- The imports of a module, each linked to what its name resolves to.
pub record IsLinked (m : Module) (resolve : Name → Option Export) (imports : Imports) : Type 0 where
  pub functions : EachLinked (LinkedFunction m) resolve 0 m.imported_funcs imports.functions
  pub tables : EachLinked (LinkedTable m) resolve 0 m.imported_tables imports.tables
  pub memories : EachLinked (LinkedMemory m) resolve 0 m.imported_memories imports.memories
  pub globals : EachLinked (LinkedGlobal m) resolve 0 m.imported_globals imports.globals

-- Each name resolves to an export that the import can be linked to.
pub record IsLinkable (m : Module) (resolve : Name → Option Export) : Type 0 where
  pub functions : EachLinkable (LinkedFunction m) resolve 0 m.imported_funcs
  pub tables : EachLinkable (LinkedTable m) resolve 0 m.imported_tables
  pub memories : EachLinkable (LinkedMemory m) resolve 0 m.imported_memories
  pub globals : EachLinkable (LinkedGlobal m) resolve 0 m.imported_globals

module _ (m : Module) where
  LinkedFunction-link_function :
      (index : ℕ) (name : Name) (e : Option Export) (x : VmFunctionImport)
      → LinkedFunction m index e x
      → (linked : ℕ × VmFunctionImport) × (link_function m index name e ≡ ok linked)
  unfolding link_function
  LinkedFunction-link_function index name e x (signature, s, at, f, g) =
      let same = (same_signature_iff signature signature).1 refl in
      ((x.vmctx, x), rw (at) (rw (f) (rw (g) (rw (same) refl))))

  LinkedTable-link_table :
      (index : ℕ) (name : Name) (e : Option Export) (x : VmTableImport)
      → LinkedTable m index e x
      → (linked : ℕ × VmTableImport) × (link_table m index name e ≡ ok linked)
  unfolding link_table
  LinkedTable-link_table index name e x (plan, own, at, f, fits) =
      let passed = (is_table_compatible_iff plan own).1 fits in
      ((x.vmctx, x), rw (at) (rw (f) (rw (passed) refl)))

  LinkedMemory-link_memory :
      (index : ℕ) (name : Name) (e : Option Export) (x : VmMemoryImport)
      → LinkedMemory m index e x
      → (linked : ℕ × VmMemoryImport) × (link_memory m index name e ≡ ok linked)
  unfolding link_memory
  LinkedMemory-link_memory index name e x (plan, own, at, f, fits) =
      let (passed, bound) = MemoryFits-is_memory_compatible plan own fits in
      ((x.vmctx, x), rw (at) (rw (f) (rw (passed) (rw (bound) (rw (le→leb _ _ fits.4) refl)))))

  LinkedGlobal-link_global :
      (index : ℕ) (name : Name) (e : Option Export) (x : VmGlobalImport)
      → LinkedGlobal m index e x
      → (linked : ℕ × VmGlobalImport) × (link_global m index name e ≡ ok linked)
  unfolding link_global is_global_compatible
  LinkedGlobal-link_global index name e x (vmctx, exported, own, at, f, init, ty, mutability) =
      let same = (same_global_iff exported own).1 (ty, mutability) in
      ((vmctx, x), rw (at) (rw (f) (rw (is_global_compatible, init) (rw (same) refl))))

module _ (m : Module) (resolve : Name → Option Export) where
  -- If the imports of a module are linked, there is one for each imported name, in order, and it
  -- points to the export that the name resolves to. The export is of the import's kind and fits it: a
  -- function of the same signature; a table of the same element type; a table or memory of at least
  -- the imported minimum, such that every size within its maximum is within the imported one; a
  -- memory that is shared exactly if the import is, whose guard is at least the imported one and, if
  -- both are static, its bound too; a global of the same type and mutability for an import.
  pub link_imports-IsLinked :
      (imports : Imports) → link_imports m resolve ≡ ok imports → IsLinked m resolve imports
  unfolding link_imports
  link_imports-IsLinked imports e =
      let f = >>=-eq-ok (link_each (link_function m) resolve 0 m.imported_funcs []) _ e in
      let t = >>=-eq-ok (link_each (link_table m) resolve 0 m.imported_tables f.0.1) _ f.2 in
      let y = >>=-eq-ok (link_each (link_memory m) resolve 0 m.imported_memories t.0.1) _ t.2 in
      let g = >>=-eq-ok (link_each (link_global m) resolve 0 m.imported_globals y.0.1) _ y.2 in
      let all : Imports = record {
        dependencies = g.0.1;
        functions = f.0.0;
        tables = t.0.0;
        memories = y.0.0;
        globals = g.0.0;
      } in
      let same : all ≡ imports = cc in
      subst (IsLinked m resolve) same (record {
        functions =
            link_each-EachLinked (LinkedFunction m) resolve (link_function m)
              (link_function-LinkedFunction m) 0 _ _ f.0 f.1;
        tables =
            link_each-EachLinked (LinkedTable m) resolve (link_table m) (link_table-LinkedTable m) 0
              _ _ t.0 t.1;
        memories =
            link_each-EachLinked (LinkedMemory m) resolve (link_memory m)
              (link_memory-LinkedMemory m) 0 _ _ y.0 y.1;
        globals =
            link_each-EachLinked (LinkedGlobal m) resolve (link_global m)
              (link_global-LinkedGlobal m) 0 _ _ g.0 g.1;
      })

  link_imports-total :
      IsLinkable m resolve → (imports : Imports) × (link_imports m resolve ≡ ok imports)
  unfolding link_imports
  link_imports-total able =
      let f =
        link_each-total (LinkedFunction m) resolve (link_function m)
          (LinkedFunction-link_function m) 0 m.imported_funcs [] able.functions in
      let t =
        link_each-total (LinkedTable m) resolve (link_table m) (LinkedTable-link_table m) 0
          m.imported_tables f.0.1 able.tables in
      let y =
        link_each-total (LinkedMemory m) resolve (link_memory m) (LinkedMemory-link_memory m) 0
          m.imported_memories t.0.1 able.memories in
      let g =
        link_each-total (LinkedGlobal m) resolve (link_global m) (LinkedGlobal-link_global m) 0
          m.imported_globals y.0.1 able.globals in
      (
        record {
          dependencies = g.0.1;
          functions = f.0.0;
          tables = t.0.0;
          memories = y.0.0;
          globals = g.0.0;
        },
        rw (f.1, t.1, y.1, g.1) refl,
      )

  -- The imports of a module are linked exactly when each imported name resolves to an export of the
  -- import's kind that fits it: a function of the same signature; a table or memory with the import's
  -- element type or sharing, of at least its minimum, and with no size within its maximum that is
  -- not within the import's; a memory with at least the import's guard and, if both are static, its
  -- bound; a global of the same type and mutability, where the imported one is declared as an import.
  pub link_imports_iff :
      ((imports : Imports) × (link_imports m resolve ≡ ok imports)) ↔ IsLinkable m resolve
  link_imports_iff = (
    (λ h.
        let all = link_imports-IsLinked h.0 h.1 in
        record {
          functions =
              EachLinked-EachLinkable (LinkedFunction m) resolve 0 m.imported_funcs h.0.functions
                all.functions;
          tables =
              EachLinked-EachLinkable (LinkedTable m) resolve 0 m.imported_tables h.0.tables
                all.tables;
          memories =
              EachLinked-EachLinkable (LinkedMemory m) resolve 0 m.imported_memories h.0.memories
                all.memories;
          globals =
              EachLinked-EachLinkable (LinkedGlobal m) resolve 0 m.imported_globals h.0.globals
                all.globals;
        }),
    link_imports-total,
  )
