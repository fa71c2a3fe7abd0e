-- ===== src/Jit/Link/Context.antt =====
-- wasmtime-jit/src/link.rs with wasmtime-runtime/src/instance.rs: the imports that are linked, in the
-- context of the new instance.
use wasmtime.Base.{
  ℕ, ◌≤◌, ◌≡◌, refl, Option, some, length, get_elem?, get_elem?-map, length-map, arith,
}
use wasmtime.Base.Outcomes.{ok}
use wasmtime.Environ.Module.{Module}
use wasmtime.Environ.Module.Indices.{new_lem}
use wasmtime.Environ.VmOffsets
use wasmtime.Environ.VmOffsets.{VmOffsets}
use wasmtime.Environ.VmOffsets.Layout.{
  Region, signature_ids, imported_functions, imported_tables, imported_memories, imported_globals,
  tables, memories, globals, builtin_functions, count, Fits,
}
use wasmtime.Runtime.VmContext
use wasmtime.Runtime.VmContext.{
  Imports, VmContext, Arrays, contents, fill_context, Cell, VmFunctionImport, VmTableImport,
  VmMemoryImport, VmGlobalImport, function_import, table_import, memory_import, global_import,
}
use wasmtime.Runtime.VmContext.Slots.{fill_context-all}
use wasmtime.Runtime.Instance.Calls.{Export}
use wasmtime.Jit.Link.{Name, link_imports}
use wasmtime.Jit.Link.Each.{length-EachLinked, get_elem?-EachLinked_zero}
use wasmtime.Jit.Link.Resolved.{LinkedFunction, LinkedTable, LinkedMemory, LinkedGlobal}
use wasmtime.Jit.Link.Linkable.{IsLinked, link_imports-IsLinked}

-- The arrays of an instance with these imports.
abbrev pub with_imports : Arrays → Imports → Arrays
with_imports own imports = record own {
  functions = imports.functions;
  table_imports = imports.tables;
  memory_imports = imports.memories;
  global_imports = imports.globals;
}

-- The arrays that the instance itself brings are no longer than the module says.
pub record OwnRoom (m : Module) (own : Arrays) : Type 0 where
  pub signatures : length own.vmshared_signatures ≤ length m.signatures
  pub tables : length own.vmctx_tables ≤ length m.table_plans
  pub memories : length own.vmctx_memories ≤ length m.memory_plans
  pub globals : length own.vmctx_globals ≤ length m.globals
  pub builtins : length own.builtins ≤ VmOffsets.builtin_functions_total_number

module _ (m : Module) (resolve : Name → Option Export) (imports : Imports) (o : VmOffsets)
    (own : Arrays) where
  room_of :
      IsLinked m resolve imports
      → VmOffsets.new 8 m ≡ some o
      → OwnRoom m own
      → (q : Region) → length (contents (with_imports own imports) q) ≤ count o q
  room_of linked made room signature_ids = omega (
    arith,
    new_lem m o made,
    room.signatures,
    length-map own.vmshared_signatures Cell.signature_id,
  )
  room_of linked made room imported_functions = omega (
    arith,
    new_lem m o made,
    length-map imports.functions function_import,
    length-EachLinked (LinkedFunction m) resolve 0 m.imported_funcs imports.functions
        linked.functions,
  )
  room_of linked made room imported_tables = omega (
    arith,
    new_lem m o made,
    length-map imports.tables table_import,
    length-EachLinked (LinkedTable m) resolve 0 m.imported_tables imports.tables linked.tables,
  )
  room_of linked made room imported_memories = omega (
    arith,
    new_lem m o made,
    length-map imports.memories memory_import,
    length-EachLinked (LinkedMemory m) resolve 0 m.imported_memories imports.memories
        linked.memories,
  )
  room_of linked made room imported_globals = omega (
    arith,
    new_lem m o made,
    length-map imports.globals global_import,
    length-EachLinked (LinkedGlobal m) resolve 0 m.imported_globals imports.globals linked.globals,
  )
  room_of linked made room tables =
      omega
        (arith, new_lem m o made, room.tables, length-map own.vmctx_tables Cell.table_definition)
  room_of linked made room memories =
      omega (
        arith,
        new_lem m o made,
        room.memories,
        length-map own.vmctx_memories Cell.memory_definition,
      )
  room_of linked made room globals =
      omega
        (arith, new_lem m o made, room.globals, length-map own.vmctx_globals Cell.global_definition)
  room_of linked made room builtin_functions =
      omega (arith, room.builtins, length-map own.builtins Cell.builtin_function)

-- What compiled code reads at its import slots is what the names resolve to.
abbrev pub ReadsImports : Module → (Name → Option Export) → VmOffsets → VmContext → Type 0
ReadsImports m resolve o v =
    ((i : ℕ) (name : Name)
      → get_elem? m.imported_funcs i ≡ some name
      → (x : VmFunctionImport) × (VmContext.imported_function o v i ≡ some x)
        × LinkedFunction m i (resolve name) x)
    × ((i : ℕ) (name : Name)
        → get_elem? m.imported_tables i ≡ some name
        → (x : VmTableImport) × (VmContext.imported_table o v i ≡ some x)
          × LinkedTable m i (resolve name) x)
    × ((i : ℕ) (name : Name)
        → get_elem? m.imported_memories i ≡ some name
        → (x : VmMemoryImport) × (VmContext.imported_memory o v i ≡ some x)
          × LinkedMemory m i (resolve name) x)
    × ((i : ℕ) (name : Name)
        → get_elem? m.imported_globals i ≡ some name
        → (x : VmGlobalImport) × (VmContext.imported_global o v i ≡ some x)
          × LinkedGlobal m i (resolve name) x)

-- On a 64-bit host, where the context of a module fits, its imports were linked, and the other arrays
-- have no more elements than the module has, filling the context succeeds. The import at each slot
-- is then the function, table, memory or global that the imported name resolves to, with the checks
-- of the linker passed.
pub link_imports-ReadsImports :
    (m : Module) (resolve : Name → Option Export) (imports : Imports) (o : VmOffsets) (own : Arrays)
    (v : VmContext)
    → link_imports m resolve ≡ ok imports
    → VmOffsets.new 8 m ≡ some o
    → Fits o
    → OwnRoom m own
    → (after : VmContext) × (fill_context o (with_imports own imports) v ≡ some after)
      × ReadsImports m resolve o after
link_imports-ReadsImports m resolve imports o own v e made f room =
    let linked = link_imports-IsLinked m resolve imports e in
    let filled =
      fill_context-all o (with_imports own imports) v f (new_lem m o made).0
        (room_of m resolve imports o own linked made room) in
    (
      filled.0,
      filled.1,
      (
        (λ i name at.
            let x =
              get_elem?-EachLinked_zero (LinkedFunction m) resolve m.imported_funcs
                imports.functions i name linked.functions at in
            let c =
              filled.2 imported_functions i (function_import x.0)
                (get_elem?-map imports.functions function_import i x.0 x.1) in
            (x.0, rw (c.1, c.2) refl, x.2)),
        (λ i name at.
            let x =
              get_elem?-EachLinked_zero (LinkedTable m) resolve m.imported_tables imports.tables i
                name linked.tables at in
            let c =
              filled.2 imported_tables i (table_import x.0)
                (get_elem?-map imports.tables table_import i x.0 x.1) in
            (x.0, rw (c.1, c.2) refl, x.2)),
        (λ i name at.
            let x =
              get_elem?-EachLinked_zero (LinkedMemory m) resolve m.imported_memories
                imports.memories i name linked.memories at in
            let c =
              filled.2 imported_memories i (memory_import x.0)
                (get_elem?-map imports.memories memory_import i x.0 x.1) in
            (x.0, rw (c.1, c.2) refl, x.2)),
        (λ i name at.
            let x =
              get_elem?-EachLinked_zero (LinkedGlobal m) resolve m.imported_globals imports.globals
                i name linked.globals at in
            let c =
              filled.2 imported_globals i (global_import x.0)
                (get_elem?-map imports.globals global_import i x.0 x.1) in
            (x.0, rw (c.1, c.2) refl, x.2)),
      ),
    )
