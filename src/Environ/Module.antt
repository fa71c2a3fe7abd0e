-- ===== src/Environ/Module.antt =====
-- wasmtime-environ/src/module.rs: the translated module and its index spaces. An index space
-- starts with the imports; the entities that the module defines follow.
pub mod Indices
use wasmtime.Base.{ℕ, ◌+◌, ◌-◌, Bool, List, [], Option, none, some, length, ltb, if◌then◌else◌}
use wasmtime.Environ.Plan.{TablePlan, MemoryPlan}
use Prim.Native.String.{String}

pub record TableElements : Type 0 where
  pub table_index : ℕ
  pub base : Option ℕ
  pub offset : ℕ
  pub elements : List ℕ

pub data Export : Type 0 where
  function table memory global : ℕ → Export

-- `GlobalInit` of cranelift-wasm; a constant is given by its bits.
pub data GlobalInit : Type 0 where
  i32_const i64_const f32_const f64_const v128_const get_global : ℕ → GlobalInit
  import : GlobalInit

-- `Global` of cranelift-wasm; the type is a number that stands for a cranelift type.
pub record Global : Type 0 where
  pub ty : ℕ
  pub mutability : Bool
  pub initializer : GlobalInit

-- A signature is known by the number of its parameters, the `vmctx` parameter included, and of
-- its results, beside a name that stands for the rest.
pub record Signature : Type 0 where
  pub name : ℕ
  pub params : ℕ
  pub returns : ℕ

pub record Module : Type 0 where
  pub signatures : List Signature
  pub imported_funcs : List (String × String)
  pub imported_tables : List (String × String)
  pub imported_memories : List (String × String)
  pub imported_globals : List (String × String)
  pub functions : List ℕ
  pub table_plans : List TablePlan
  pub memory_plans : List MemoryPlan
  pub globals : List Global
  pub exports : List (String × Export)
  pub start_func : Option ℕ
  pub table_elements : List TableElements

-- `Module::new`
abbrev pub new : Module
new = record {
  signatures = [];
  imported_funcs = [];
  imported_tables = [];
  imported_memories = [];
  imported_globals = [];
  functions = [];
  table_plans = [];
  memory_plans = [];
  globals = [];
  exports = [];
  start_func = none;
  table_elements = [];
}

module _ (m : Module) where
  unfoldable pub func_index : ℕ → ℕ
  func_index defined_func = length m.imported_funcs + defined_func

  unfoldable pub defined_func_index : ℕ → Option ℕ
  defined_func_index f =
      if ltb f (length m.imported_funcs) then none else some (f - length m.imported_funcs)

  unfoldable pub is_imported_function : ℕ → Bool
  is_imported_function i = ltb i (length m.imported_funcs)

  unfoldable pub table_index : ℕ → ℕ
  table_index defined_table = length m.imported_tables + defined_table

  unfoldable pub defined_table_index : ℕ → Option ℕ
  defined_table_index t =
      if ltb t (length m.imported_tables) then none else some (t - length m.imported_tables)

  unfoldable pub is_imported_table : ℕ → Bool
  is_imported_table i = ltb i (length m.imported_tables)

  unfoldable pub memory_index : ℕ → ℕ
  memory_index defined_memory = length m.imported_memories + defined_memory

  unfoldable pub defined_memory_index : ℕ → Option ℕ
  defined_memory_index i =
      if ltb i (length m.imported_memories) then none else some (i - length m.imported_memories)

  unfoldable pub is_imported_memory : ℕ → Bool
  is_imported_memory i = ltb i (length m.imported_memories)

  unfoldable pub global_index : ℕ → ℕ
  global_index defined_global = length m.imported_globals + defined_global

  unfoldable pub defined_global_index : ℕ → Option ℕ
  defined_global_index g =
      if ltb g (length m.imported_globals) then none else some (g - length m.imported_globals)

  unfoldable pub is_imported_global : ℕ → Bool
  is_imported_global i = ltb i (length m.imported_globals)
