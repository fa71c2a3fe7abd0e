-- ===== src/Environ/Translation.antt =====
-- wasmtime-environ/src/module_environ.rs: the calls by which cranelift-wasm, as it reads a module,
-- fills a `ModuleTranslation`. The debug assertions are not part of a release build, and reserving
-- room changes nothing here.
pub mod Framed
mod Examples
use Prim.Native.String.{String}
use text.Mathlib.Text.{◌==◌ as str_eq}
use wasmtime.Base.{ℕ, suc, Option, none, some, List, [], ◌∷◌, ◌++◌, if◌then◌else◌, ◌>>=◌}
use wasmtime.Environ.Plan.{
  Tunables, TableElementType, Limits, TablePlan, for_table, MemoryType, MemoryPlan, for_memory,
}
use wasmtime.Environ.Module
use wasmtime.Environ.Module.{
  Module, TableElements, Export, function, table, memory, global, Global, Signature,
}
use wasmtime.Runtime.Instance.Segments.{DataInitializer}

pub record FunctionBodyData : Type 0 where
  pub contents : List ℕ
  pub module_offset : ℕ

-- The flags of the target and the decoded types are not kept.
pub record ModuleTranslation : Type 0 where
  pub module_ : Module
  pub function_body_inputs : List FunctionBodyData
  pub data_initializers : List DataInitializer
  pub tunables : Tunables

-- `ModuleEnvironment::new`
abbrev pub new : Tunables → ModuleTranslation
new tunables = record {
  module_ = Module.new;
  function_body_inputs = [];
  data_initializers = [];
  tunables = tunables;
}

-- `translate_signature`: the `vmctx` argument comes first.
abbrev pub translate_signature : Signature → Signature
translate_signature sig = record sig { params = suc sig.params }

-- `exports.insert`: a name that is there keeps its place.
unfoldable pub insert : List (String × Export) → String → Export → List (String × Export)
insert [] name export = (name, export) ∷ []
insert ((n, e) ∷ exports) name export =
    let rest = insert exports name export in
    if str_eq n name then (n, export) ∷ exports else (n, e) ∷ rest

module _ (t : ModuleTranslation) where
  abbrev m : Module
  m = t.module_

  abbrev with_module : Module → ModuleTranslation
  with_module module_ = record t { module_ = module_ }

  abbrev pub declare_signature : Signature → ModuleTranslation
  declare_signature sig =
      with_module (record m { signatures = m.signatures ++ (translate_signature sig ∷ []) })

  abbrev pub declare_func_import : ℕ → String → String → ModuleTranslation
  declare_func_import sig_index module_name field = with_module (record m {
    functions = m.functions ++ (sig_index ∷ []);
    imported_funcs = m.imported_funcs ++ ((module_name, field) ∷ []);
  })

  abbrev pub declare_table_import : TableElementType → Limits → String → String → ModuleTranslation
  declare_table_import ty l module_name field = with_module (record m {
    table_plans = m.table_plans ++ (for_table ty l ∷ []);
    imported_tables = m.imported_tables ++ ((module_name, field) ∷ []);
  })

  abbrev pub declare_memory_import : MemoryType → String → String → Option ModuleTranslation
  declare_memory_import ty module_name field = for_memory ty t.tunables >>= λ plan. some (
      with_module (record m {
        memory_plans = m.memory_plans ++ (plan ∷ []);
        imported_memories = m.imported_memories ++ ((module_name, field) ∷ []);
      }))

  abbrev pub declare_global_import : Global → String → String → ModuleTranslation
  declare_global_import g module_name field = with_module (record m {
    globals = m.globals ++ (g ∷ []);
    imported_globals = m.imported_globals ++ ((module_name, field) ∷ []);
  })

  abbrev pub declare_func_type : ℕ → ModuleTranslation
  declare_func_type sig_index =
      with_module (record m { functions = m.functions ++ (sig_index ∷ []) })

  abbrev pub declare_table : TableElementType → Limits → ModuleTranslation
  declare_table ty l =
      with_module (record m { table_plans = m.table_plans ++ (for_table ty l ∷ []) })

  abbrev pub declare_memory : MemoryType → Option ModuleTranslation
  declare_memory ty = for_memory ty t.tunables >>= λ plan.
      some (with_module (record m { memory_plans = m.memory_plans ++ (plan ∷ []) }))

  abbrev pub declare_global : Global → ModuleTranslation
  declare_global g = with_module (record m { globals = m.globals ++ (g ∷ []) })

  abbrev declare_export : Export → String → ModuleTranslation
  declare_export export name = with_module (record m { exports = insert m.exports name export })

  abbrev pub declare_func_export : ℕ → String → ModuleTranslation
  declare_func_export i name = declare_export (function i) name

  abbrev pub declare_table_export : ℕ → String → ModuleTranslation
  declare_table_export i name = declare_export (table i) name

  abbrev pub declare_memory_export : ℕ → String → ModuleTranslation
  declare_memory_export i name = declare_export (memory i) name

  abbrev pub declare_global_export : ℕ → String → ModuleTranslation
  declare_global_export i name = declare_export (global i) name

  abbrev pub declare_start_func : ℕ → ModuleTranslation
  declare_start_func i = with_module (record m { start_func = some i })

  abbrev pub declare_table_elements : TableElements → ModuleTranslation
  declare_table_elements elements =
      with_module (record m { table_elements = m.table_elements ++ (elements ∷ []) })

  abbrev pub define_function_body : FunctionBodyData → ModuleTranslation
  define_function_body body = record t {
    function_body_inputs = t.function_body_inputs ++ (body ∷ []);
  }

  abbrev pub declare_data_initialization : DataInitializer → ModuleTranslation
  declare_data_initialization init = record t {
    data_initializers = t.data_initializers ++ (init ∷ []);
  }

-- The calls, in the order of cranelift's trait.
pub data Call : Type 0 where
  signature : Signature → Call
  func_import : ℕ → String → String → Call
  table_import : TableElementType → Limits → String → String → Call
  memory_import : MemoryType → String → String → Call
  global_import : Global → String → String → Call
  func_type : ℕ → Call
  table_type : TableElementType → Limits → Call
  memory_type : MemoryType → Call
  global_type : Global → Call
  func_export table_export memory_export global_export : ℕ → String → Call
  start_func : ℕ → Call
  elements : TableElements → Call
  body : FunctionBodyData → Call
  data_initialization : DataInitializer → Call

unfoldable pub call : Call → ModuleTranslation → Option ModuleTranslation
call (signature sig) t = some (declare_signature t sig)
call (func_import s module_name field) t = some (declare_func_import t s module_name field)
call (table_import ty l module_name field) t = some (declare_table_import t ty l module_name field)
call (memory_import ty module_name field) t = declare_memory_import t ty module_name field
call (global_import g module_name field) t = some (declare_global_import t g module_name field)
call (func_type s) t = some (declare_func_type t s)
call (table_type ty l) t = some (declare_table t ty l)
call (memory_type ty) t = declare_memory t ty
call (global_type g) t = some (declare_global t g)
call (func_export i name) t = some (declare_func_export t i name)
call (table_export i name) t = some (declare_table_export t i name)
call (memory_export i name) t = some (declare_memory_export t i name)
call (global_export i name) t = some (declare_global_export t i name)
call (start_func i) t = some (declare_start_func t i)
call (elements e) t = some (declare_table_elements t e)
call (body b) t = some (define_function_body t b)
call (data_initialization d) t = some (declare_data_initialization t d)

-- The calls that the reading of a module makes, one after the other; `none` is a panic.
unfoldable pub translate : List Call → ModuleTranslation → Option ModuleTranslation
translate [] t = some t
translate (c ∷ cs) t = call c t >>= translate cs
