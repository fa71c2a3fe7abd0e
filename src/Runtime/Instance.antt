-- ===== src/Runtime/Instance.antt =====
-- wasmtime-runtime/src/instance.rs: an instance, with its memories, tables and context, and the
-- store of all instances that imports point into.
pub mod Calls
pub mod Pointers
pub mod Growth
pub mod TableGrowth
pub mod Stores
pub mod Imports
pub mod Handles
pub mod Start
pub mod SameContext
pub mod Segments
pub mod Elements
pub mod Globals
pub mod Instantiate
mod Examples
use wasmtime.Base.{
  ◌%◌, u32_mod, leb, suc, ℕ, ◌/◌, ◌==◌, Bool, true, false, Option, none, some, List, [], ◌∷◌,
  length, get_elem?, set, drop, replicate, ltb, if◌then◌else◌, ◌>>=◌, ◌>>◌, ◌||◌,
}
use wasmtime.Base.Outcomes
use wasmtime.Base.Outcomes.{Outcome, ok, err, panic}
use wasmtime.Environ.Module.{Module}
use wasmtime.Environ.Plan.{MemoryPlan, TablePlan}
use wasmtime.Environ.VmOffsets.{VmOffsets, vmctx_tables_begin, vmctx_memories_begin}
use wasmtime.Environ.VmOffsets.Layout.{tables, memories}
use wasmtime.Runtime.Mmap.{Host, OsError}
use wasmtime.Runtime.Memory
use wasmtime.Runtime.Memory.{LinearMemory, sub_usize, vmmemory}
use wasmtime.Runtime.Table
use wasmtime.Runtime.Table.{Table, Anyfunc, vmtable}
use wasmtime.Runtime.VmContext
use wasmtime.Runtime.VmContext.{VmContext, ContextPtr, size_of}

-- An instance; `id` stands for its address, which is also that of its context.
pub record Instance : Type 0 where
  pub id : ℕ
  pub refcount : ℕ
  pub dependencies : List ℕ
  pub module_ : Module
  pub offsets : VmOffsets
  pub memories : List LinearMemory
  pub tables : List Table
  pub finished_functions : List ℕ
  pub vmctx : VmContext

-- The instances by their addresses.
abbrev pub Store : Type 0
Store = ℕ → Option Instance

unfoldable pub put_instance : Store → Instance → Store
put_instance s inst k = if k == inst.id then some inst else s k

abbrev pub assert : Bool → Option (Unit {0})
assert true = some tt
assert false = none

-- `table_index` and `memory_index`: the index of the struct at an offset of the context; `none` is
-- the panic of the assertion. A difference of addresses is one of offsets; the index has 32 bits.
unfoldable pub table_index : Instance → ℕ → Option ℕ
table_index inst at = do
  begin ← vmctx_tables_begin inst.offsets
  assert (ltb (sub_usize at begin / size_of tables % u32_mod) (length inst.tables))
  some (sub_usize at begin / size_of tables % u32_mod)

unfoldable pub memory_index : Instance → ℕ → Option ℕ
memory_index inst at = do
  begin ← vmctx_memories_begin inst.offsets
  assert (ltb (sub_usize at begin / size_of memories % u32_mod) (length inst.memories))
  some (sub_usize at begin / size_of memories % u32_mod)

-- `any(|memory| memory.needs_signal_handlers)`
abbrev pub any_needs : List LinearMemory → Bool
any_needs [] = false
any_needs (m ∷ ms) = m.needs_signal_handlers || any_needs ms

abbrev pub needs_signal_handlers : Instance → Bool
needs_signal_handlers inst = any_needs inst.memories

-- `Instance::memory_grow`: the result and the instance after the call; `none` is a panic.
unfoldable pub memory_grow : Host → Instance → ℕ → ℕ → Option (Option ℕ × Instance)
memory_grow h inst index delta = do
  m ← get_elem? inst.memories index
  (result, m') ← Memory.grow h m delta
  vmctx ← VmContext.memory_mut inst.offsets inst.vmctx index (vmmemory m')
  some (result, record inst { memories = set inst.memories index m'; vmctx = vmctx })

unfoldable pub memory_size : Instance → ℕ → Option ℕ
memory_size inst index = do m ← get_elem? inst.memories index; some (Memory.size m)

-- The instance and the index that a memory import points to.
abbrev pub foreign_memory : Store → Instance → ℕ → Option (Instance × ℕ)
foreign_memory s inst index = do
  import ← VmContext.imported_memory inst.offsets inst.vmctx index
  foreign ← s import.vmctx
  at ← memory_index foreign import.from.offset
  some (foreign, at)

unfoldable pub imported_memory_grow : Host → Store → Instance → ℕ → ℕ → Option (Option ℕ × Store)
imported_memory_grow h s inst index delta = do
  (foreign, at) ← foreign_memory s inst index
  (result, foreign') ← memory_grow h foreign at delta
  some (result, put_instance s foreign')

unfoldable pub imported_memory_size : Store → Instance → ℕ → Option ℕ
imported_memory_size s inst index = do
  (foreign, at) ← foreign_memory s inst index
  memory_size foreign at

-- `Instance::table_grow`, with the address of the vector after the call.
unfoldable pub table_grow : ℕ → Instance → ℕ → ℕ → Option (Option ℕ × Instance)
table_grow address inst index delta = do
  t ← get_elem? inst.tables index
  (result, t') ← Table.grow address t delta
  d ← vmtable t'
  vmctx ← VmContext.table_mut inst.offsets inst.vmctx index d
  some (result, record inst { tables = set inst.tables index t'; vmctx = vmctx })

-- `table_get`; `none` outside is the panic on an unknown table.
unfoldable pub table_get : Instance → ℕ → ℕ → Option (Option Anyfunc)
table_get inst index i = do t ← get_elem? inst.tables index; some (Table.get t i)

-- A write through `table_get_mut`.
unfoldable pub table_put : Instance → ℕ → ℕ → Anyfunc → Option (Option Instance)
table_put inst index i a = do
  t ← get_elem? inst.tables index
  some (elim (Table.put t i a) [
    | none ↦ none
    | some t' ↦ some (record inst { tables = set inst.tables index t' })
  ])

-- The tables and memories that a module defines, made in order; `none` and `panic` are panics, one
-- of them where the slice of the plans is out of range.
abbrev pub new_tables : (ℕ → ℕ) → ℕ → List TablePlan → Option (List Table)
new_tables addresses k [] = some []
new_tables addresses k (plan ∷ plans) = do
  t ← Table.new (addresses k) plan
  ts ← new_tables addresses (suc k) plans
  some (t ∷ ts)

unfoldable pub create_tables : (ℕ → ℕ) → Module → Option (List Table)
create_tables addresses m = do
  assert (leb (length m.imported_tables) (length m.table_plans))
  new_tables addresses 0 (drop (length m.imported_tables) m.table_plans)

-- What the system answers may differ from one memory to the next.
abbrev pub new_memories : (ℕ → Host) → ℕ → List MemoryPlan → Outcome OsError (List LinearMemory)
new_memories hosts k [] = ok []
new_memories hosts k (plan ∷ plans) =
    Outcomes.◌>>=◌ (Memory.new (hosts k) plan)
      (λ m. Outcomes.◌>>=◌ (new_memories hosts (suc k) plans) (λ ms. ok (m ∷ ms)))

unfoldable pub create_memories : (ℕ → Host) → Module → Outcome OsError (List LinearMemory)
create_memories hosts m =
    Outcomes.◌>>◌ (Outcomes.assert (leb (length m.imported_memories) (length m.memory_plans)))
      (new_memories hosts 0 (drop (length m.imported_memories) m.memory_plans))

-- The globals that a module defines, all zero.
unfoldable pub create_globals : Module → Option (List ℕ)
create_globals m = do
  assert (leb (length m.imported_globals) (length m.globals))
  some (replicate (length (drop (length m.imported_globals) m.globals)) 0)
