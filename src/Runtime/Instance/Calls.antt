-- ===== src/Runtime/Instance/Calls.antt =====
-- wasmtime-runtime/src/instance.rs: calls of functions, the start function, exports and handles.
use Prim.Native.String.{String}
use text.Mathlib.Text.{◌==◌ as str_eq}
use wasmtime.Base.{
  ℕ, ◌+◌, ◌==◌, ◌&&◌, Option, none, some, List, [], ◌∷◌, length, get_elem?, ltb, if◌then◌else◌,
  ◌>>=◌, ◌>>◌,
}
use wasmtime.Base.Outcomes.{Outcome, ok, err, panic}
use wasmtime.Environ.Module
use wasmtime.Environ.Module.{
  Module, Signature, Global, defined_func_index, defined_memory_index, defined_table_index,
  defined_global_index,
}
use wasmtime.Environ.Plan.{MemoryPlan, TablePlan}
use wasmtime.Environ.VmOffsets.Fields
use wasmtime.Runtime.Memory.{sub_usize}
use wasmtime.Runtime.VmContext
use wasmtime.Runtime.VmContext.{ContextPtr}
use wasmtime.Runtime.Instance.{Instance, Store, assert, put_instance}

-- The body and the context that a call uses.
pub record Target : Type 0 where
  pub address : ℕ
  pub vmctx : ℕ

-- The function at an index, defined or imported.
abbrev pub resolve : Instance → ℕ → Option Target
resolve inst index = elim (defined_func_index inst.module_ index) [
  | some defined ↦ get_elem? inst.finished_functions defined >>= λ body.
      some (record { address = body; vmctx = inst.id })
  | none ↦ VmContext.imported_function inst.offsets inst.vmctx index >>= λ import.
      some (record { address = import.body; vmctx = import.vmctx })
]

-- The callee of `invoke_function`, which asserts that an import is one of the module's.
unfoldable pub callee : Instance → ℕ → Option Target
callee inst index = elim (defined_func_index inst.module_ index) [
  | some defined ↦ resolve inst index
  | none ↦ assert (ltb index (length inst.module_.imported_funcs)) >> resolve inst index
]

abbrev pub get_export : String → List (String × Module.Export) → Option Module.Export
get_export name [] = none
get_export name ((n, e) ∷ es) = if str_eq n name then some e else get_export name es

-- The function that an export runs as a start function: one whose only parameter is the `vmctx`
-- and that has no results. `none` outside is the panic of an index out of bounds.
abbrev pub plain_function : Module → Module.Export → Option (Option ℕ)
plain_function m (Module.function f) = do
  s ← get_elem? m.functions f
  sig ← get_elem? m.signatures s
  some (if sig.params == 1 && sig.returns == 0 then some f else none)
plain_function m _ = some none

-- What `invoke_start_function` runs.
unfoldable pub start_function : Module → Option (Option ℕ)
start_function m = elim m.start_func [
  | some index ↦ some (some index)
  | none ↦ elim (get_export "_start" m.exports) [
    | some e ↦ plain_function m e
    | none ↦ elim (get_export "main" m.exports) [ some e ↦ plain_function m e | none ↦ some none ]
  ]
]

-- `invoke_function` and `invoke_start_function`, where `call` is `wasmtime_call`, which returns the
-- message of a trap.
unfoldable pub invoke_function : (Target → Option ℕ) → Instance → ℕ → Outcome ℕ (Unit {0})
invoke_function call inst index = elim (callee inst index) [
  | none ↦ panic
  | some target ↦ elim (call target) [ none ↦ ok tt | some trap ↦ err trap ]
]

unfoldable pub invoke_start_function : (Target → Option ℕ) → Instance → Outcome ℕ (Unit {0})
invoke_start_function call inst = elim (start_function inst.module_) [
  | none ↦ panic
  | some none ↦ ok tt
  | some (some index) ↦ invoke_function call inst index
]

-- `Export` of wasmtime-runtime.
pub data Export : Type 0 where
  function : ℕ → Signature → ℕ → Export
  table : ContextPtr → ℕ → TablePlan → Export
  memory : ContextPtr → ℕ → MemoryPlan → Export
  global : ContextPtr → ℕ → Global → Export

-- A pointer into the instance's own context.
abbrev pub own : Instance → Option ℕ → Option ContextPtr
own inst offset = offset >>= λ at. some (record { context = inst.id; offset = at })

-- `lookup_by_declaration`, by the kind of the declaration.
module _ (inst : Instance) (index : ℕ) where
  abbrev pub lookup_function : Option Export
  lookup_function = do
    s ← get_elem? inst.module_.functions index
    sig ← get_elem? inst.module_.signatures s
    target ← resolve inst index
    some (function target.address sig target.vmctx)

  abbrev pub lookup_table : Option Export
  lookup_table = do
    plan ← get_elem? inst.module_.table_plans index
    elim (defined_table_index inst.module_ index) [
      | some defined ↦ own inst (Fields.vmctx_vmtable_definition inst.offsets defined) >>= λ at.
          some (table at inst.id plan)
      | none ↦ VmContext.imported_table inst.offsets inst.vmctx index >>= λ import.
          some (table import.from import.vmctx plan)
    ]

  abbrev pub lookup_memory : Option Export
  lookup_memory = do
    plan ← get_elem? inst.module_.memory_plans index
    elim (defined_memory_index inst.module_ index) [
      | some defined ↦ own inst (Fields.vmctx_vmmemory_definition inst.offsets defined) >>= λ at.
          some (memory at inst.id plan)
      | none ↦ VmContext.imported_memory inst.offsets inst.vmctx index >>= λ import.
          some (memory import.from import.vmctx plan)
    ]

  abbrev pub lookup_global : Option Export
  lookup_global = do
    g ← get_elem? inst.module_.globals index
    at ← elim (defined_global_index inst.module_ index) [
      | some defined ↦ own inst (Fields.vmctx_vmglobal_definition inst.offsets defined)
      | none ↦
          VmContext.imported_global inst.offsets inst.vmctx index >>= λ import. some import.from
    ]
    some (global at inst.id g)

unfoldable pub lookup_by_declaration : Instance → Module.Export → Option Export
lookup_by_declaration inst (Module.function index) = lookup_function inst index
lookup_by_declaration inst (Module.table index) = lookup_table inst index
lookup_by_declaration inst (Module.memory index) = lookup_memory inst index
lookup_by_declaration inst (Module.global index) = lookup_global inst index

-- `Instance::lookup`; `none` inside is a name that is not exported.
unfoldable pub lookup : Instance → String → Option (Option Export)
lookup inst field = elim (get_export field inst.module_.exports) [
  | none ↦ some none
  | some e ↦ lookup_by_declaration inst e >>= λ x. some (some x)
]

-- `Clone` of a handle on the instance at an address.
unfoldable pub clone : Store → ℕ → Option Store
clone s k = do inst ← s k; some (put_instance s (record inst { refcount = inst.refcount + 1 }))

abbrev pub remove_instance : Store → ℕ → Store
remove_instance s k j = if j == k then none else s j

-- `Drop` of a handle: the store after it, and the handles that are dropped next. Where no reference is
-- left, the instance is freed, and those are the handles it held on the instances that it imports
-- from. The subtraction wraps.
unfoldable pub drop_handle : Store → ℕ → Option (Store × List ℕ)
drop_handle s k = do
  inst ← s k
  some (
      if sub_usize inst.refcount 1 == 0
      then (remove_instance s k, inst.dependencies)
      else (put_instance s (record inst { refcount = sub_usize inst.refcount 1 }), []))
