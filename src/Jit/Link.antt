-- ===== src/Jit/Link.antt =====
-- wasmtime-jit/src/link.rs: `link_module` and what it asks of an export. The resolver's answers are a
-- parameter; of the set of dependencies, the addresses of the instances are kept.
pub mod Compatible
pub mod Fits
pub mod Relocate
pub mod Bytes
pub mod Places
pub mod Each
pub mod Resolved
pub mod Linkable
pub mod Patches
pub mod Context
mod Examples
use Prim.Native.String.{String}
use wasmtime.Base.{
  ℕ, zero, suc, Bool, true, false, ◌&&◌, Option, none, some, List, [], ◌∷◌, get_elem?, leb, ◌==◌,
  if◌then◌else◌,
}
use wasmtime.Base.Outcomes.{Outcome, panic, err, ok, ◌>>=◌, ◌>>◌, assert, unwrap}
use wasmtime.Environ.Plan.{
  TableElementType, func, val, TablePlan, Limits, MemoryType, MemoryPlan, MemoryStyle, dynamic,
  static,
}
use wasmtime.Environ.Module.{Module, Signature, Global, GlobalInit, import}
use wasmtime.Runtime.VmContext.{
  VmFunctionImport, VmTableImport, VmMemoryImport, VmGlobalImport, Imports,
}
use wasmtime.Runtime.Instance.Calls.{Export, function, table, memory, global}

abbrev pub Name : Type 0
Name = String × String

-- The kinds of import, and the errors of linking with the import's name. A signature that differs is
-- `incompatible`.
pub data Kind : Type 0 where
  a_function a_table a_memory a_global : Kind

pub data LinkError : Type 0 where
  unknown_import wrong_kind incompatible : Kind → Name → LinkError

abbrev pub same_signature : Signature → Signature → Bool
same_signature a b = a.name == b.name && (a.params == b.params && a.returns == b.returns)

-- An imported maximum admits an exported one; no maximum is the greatest.
abbrev pub maximum_admits : Option ℕ → Option ℕ → Bool
maximum_admits none exported = true
maximum_admits (some imported) none = false
maximum_admits (some imported) (some exported) = leb exported imported

abbrev pub is_table_element_type_compatible : TableElementType → TableElementType → Bool
is_table_element_type_compatible func func = true
is_table_element_type_compatible func (val t) = false
is_table_element_type_compatible (val t) func = false
is_table_element_type_compatible (val t) (val u) = t == u

-- The exported plan first, then the imported one.
unfoldable pub is_table_compatible : TablePlan → TablePlan → Bool
is_table_compatible exported imported =
    is_table_element_type_compatible exported.ty imported.ty
    && (leb imported.limits.minimum exported.limits.minimum
        && maximum_admits imported.limits.maximum exported.limits.maximum)

abbrev pub same_flag : Bool → Bool → Bool
same_flag true b = b
same_flag false true = false
same_flag false false = true

unfoldable pub is_memory_compatible : MemoryPlan → MemoryPlan → Bool
is_memory_compatible exported imported =
    leb imported.memory.minimum exported.memory.minimum
    && (maximum_admits imported.memory.maximum exported.memory.maximum
        && same_flag exported.memory.shared imported.memory.shared)

abbrev pub same_global : Global → Global → Bool
same_global exported imported =
    exported.ty == imported.ty && same_flag imported.mutability exported.mutability

-- An imported global whose initializer is not an import is a panic.
unfoldable pub is_global_compatible : Global → Global → Outcome LinkError Bool
is_global_compatible exported imported = elim imported.initializer [
  | import ↦ ok (same_global exported imported)
  | other ↦ panic
]

-- The assertions on an imported memory: a static bound and a guard that are large enough.
abbrev pub bound_suffices : MemoryStyle → MemoryStyle → Bool
bound_suffices (static bound) (static import_bound) = leb import_bound bound
bound_suffices dynamic style = true
bound_suffices (static bound) dynamic = true

-- What one import is linked to: the instance that it depends on, and the pointers.
abbrev pub Body : Type 0 → Type 0
Body I = ℕ → Name → Option Export → Outcome LinkError (ℕ × I)

abbrev pub check : {I : Type 0} → Bool → LinkError → ℕ × I → Outcome LinkError (ℕ × I)
check true why linked = ok linked
check false why linked = err why

module _ (m : Module) where
  -- The bodies of the four loops, for an answer of the resolver.
  unfoldable pub link_function : Body VmFunctionImport
  link_function index name none = err (unknown_import a_function name)
  link_function index name (some (function address signature vmctx)) =
      unwrap (get_elem? m.functions index) >>= λ s.
      unwrap (get_elem? m.signatures s) >>= λ import_signature.
      check (same_signature signature import_signature) (incompatible a_function name)
        (vmctx, record { body = address; vmctx = vmctx })
  link_function index name (some other) = err (wrong_kind a_function name)

  unfoldable pub link_table : Body VmTableImport
  link_table index name none = err (unknown_import a_table name)
  link_table index name (some (table definition vmctx plan)) =
      unwrap (get_elem? m.table_plans index) >>= λ import_table.
      check (is_table_compatible plan import_table) (incompatible a_table name)
        (vmctx, record { from = definition; vmctx = vmctx })
  link_table index name (some other) = err (wrong_kind a_table name)

  unfoldable pub link_memory : Body VmMemoryImport
  link_memory index name none = err (unknown_import a_memory name)
  link_memory index name (some (memory definition vmctx plan)) =
      unwrap (get_elem? m.memory_plans index) >>= λ import_memory.
      check (is_memory_compatible plan import_memory) (incompatible a_memory name)
        (vmctx, record { from = definition; vmctx = vmctx })
      >>= λ linked.
          assert (bound_suffices plan.style import_memory.style)
          >> assert (leb import_memory.offset_guard_size plan.offset_guard_size)
          >> ok linked
  link_memory index name (some other) = err (wrong_kind a_memory name)

  unfoldable pub link_global : Body VmGlobalImport
  link_global index name none = err (unknown_import a_global name)
  link_global index name (some (global definition vmctx exported)) =
      unwrap (get_elem? m.globals index) >>= λ imported_global.
      is_global_compatible exported imported_global >>= λ fits.
      check fits (incompatible a_global name) (vmctx, record { from = definition })
  link_global index name (some other) = err (wrong_kind a_global name)

-- `HashSet::insert`
abbrev pub insert_dependency : ℕ → List ℕ → List ℕ
insert_dependency k [] = k ∷ []
insert_dependency k (d ∷ ds) =
    let rest = insert_dependency k ds in if k == d then d ∷ ds else d ∷ rest

-- One of the four loops, from an index on: the imports linked, and the dependencies after it.
unfoldable pub link_each :
    {I : Type 0}
    → Body I
    → (Name → Option Export)
    → ℕ
    → List Name
    → List ℕ
    → Outcome LinkError (List I × List ℕ)
link_each body resolve index [] dependencies = ok ([], dependencies)
link_each body resolve index (name ∷ names) dependencies =
    body index name (resolve name) >>= λ linked.
    link_each body resolve (suc index) names (insert_dependency linked.0 dependencies) >>= λ rest.
    ok (linked.1 ∷ rest.0, rest.1)

-- The four loops of `link_module`, in order.
unfoldable pub link_imports : Module → (Name → Option Export) → Outcome LinkError Imports
link_imports m resolve = link_each (link_function m) resolve 0 m.imported_funcs [] >>= λ f.
    link_each (link_table m) resolve 0 m.imported_tables f.1 >>= λ t.
    link_each (link_memory m) resolve 0 m.imported_memories t.1 >>= λ y.
    link_each (link_global m) resolve 0 m.imported_globals y.1 >>= λ g.
    ok (record { dependencies = g.1; functions = f.0; tables = t.0; memories = y.0; globals = g.0 })
