-- ===== src/Runtime/Memory.antt =====
-- wasmtime-runtime/src/memory.rs: a linear memory over a mapping.
pub mod Valid
pub mod Grow
pub mod Growth
pub mod Total
pub mod Static
mod Examples
use wasmtime.Base.{
  ℕ, ◌+◌, ◌-◌, ◌*◌, ◌%◌, Bool, true, false, ◌||◌, Option, none, some, ltb, leb, ◌==◌, if◌then◌else◌,
  usize_mod, checked_add, checked_add_usize, checked_mul_usize,
}
use wasmtime.Base.Outcomes.{Outcome, ok, err, panic, ◌>>=◌, ◌>>◌, assert, unwrap}
use wasmtime.Environ.Plan.{MemoryPlan, MemoryStyle, dynamic, static, wasm_page_size, wasm_max_pages}
use wasmtime.Runtime.Mmap.{Host, Mmap, OsError, accessible_reserved, make_accessible}

pub record LinearMemory : Type 0 where
  pub mmap : Mmap
  pub current : ℕ
  pub maximum : Option ℕ
  pub offset_guard_size : ℕ
  pub needs_signal_handlers : Bool

-- `a - b` on `usize`, which wraps.
abbrev pub sub_usize : ℕ → ℕ → ℕ
sub_usize a b = (a + usize_mod - b) % usize_mod

-- Whether a limit is there and the number is above it.
abbrev pub exceeds : Option ℕ → ℕ → Bool
exceeds none n = false
exceeds (some max) n = ltb max n

-- Whether a limit is absent or no more than the number.
abbrev pub is_at_most : Option ℕ → ℕ → Bool
is_at_most none n = true
is_at_most (some max) n = leb max n

abbrev pub is_static : MemoryStyle → Bool
is_static dynamic = false
is_static (static bound) = true

abbrev pub minimum_pages : MemoryStyle → ℕ → Outcome OsError ℕ
minimum_pages dynamic minimum = ok minimum
minimum_pages (static bound) minimum = assert (leb minimum bound) >> ok bound

-- `LinearMemory::new`
unfoldable pub new : Host → MemoryPlan → Outcome OsError LinearMemory
new h plan = do
  assert (leb plan.memory.minimum wasm_max_pages)
  assert (is_at_most plan.memory.maximum wasm_max_pages)
  pages ← minimum_pages plan.style plan.memory.minimum
  minimum_bytes ← unwrap (checked_mul_usize pages wasm_page_size)
  request_bytes ← unwrap (checked_add_usize minimum_bytes plan.offset_guard_size)
  mmap ← accessible_reserved h (plan.memory.minimum * wasm_page_size) request_bytes
  ok (record {
    mmap = mmap;
    current = plan.memory.minimum;
    maximum = plan.memory.maximum;
    offset_guard_size = plan.offset_guard_size;
    needs_signal_handlers = ltb 0 plan.offset_guard_size || is_static plan.style;
  })

abbrev pub size : LinearMemory → ℕ
size m = m.current

-- A call of `grow` gives its result, `none` where it refuses, and the memory after the call; a
-- panic is `none` outside.
abbrev pub Growth : Type 0
Growth = Option (Option ℕ × LinearMemory)

-- Copying the first `n` bytes of one mapping into another. Reading bytes that are not accessible, a
-- fault, is not modelled: the pages of a memory that `for_memory` plans to move all are.
abbrev pub copy_bytes : Mmap → Mmap → ℕ → Mmap
copy_bytes to from n = record to { bytes = λ i. if ltb i n then from.bytes i else to.bytes i }

-- The new mapping replaces the old one once its contents are copied.
abbrev pub move_into : LinearMemory → ℕ → Outcome OsError Mmap → Growth
move_into m new_pages (ok fresh) =
    let copy_len = sub_usize m.mmap.len m.offset_guard_size in
    if leb copy_len fresh.len
    then some
        (some m.current, record m { mmap = copy_bytes fresh m.mmap copy_len; current = new_pages })
    else none
move_into m new_pages (err e) = some (none, m)
move_into m new_pages panic = none

-- The memory has to move: its mapping is too small.
pub move_to : Host → LinearMemory → ℕ → Growth
move_to h m new_pages = elim (checked_add_usize (new_pages * wasm_page_size) m.offset_guard_size) [
  | none ↦ some (none, m)
  | some request_bytes ↦
      move_into m new_pages (accessible_reserved h (new_pages * wasm_page_size) request_bytes)
]

abbrev pub settle : LinearMemory → ℕ → Outcome OsError Mmap → Growth
settle m new_pages (ok mmap) = some (some m.current, record m { mmap = mmap; current = new_pages })
settle m new_pages (err e) = some (none, m)
settle m new_pages panic = none

-- The memory stays: the pages to add become accessible.
pub open_pages : Host → LinearMemory → ℕ → ℕ → Growth
open_pages h m new_pages delta =
    if ltb 0 (delta * wasm_page_size)
    then settle m new_pages
        (make_accessible h m.mmap (m.current * wasm_page_size) (delta * wasm_page_size))
    else some (some m.current, record m { current = new_pages })

-- Growing to a number of pages that the limits allow.
pub grow_to : Host → LinearMemory → ℕ → ℕ → Growth
grow_to h m new_pages delta =
    if ltb (sub_usize m.mmap.len m.offset_guard_size) (new_pages * wasm_page_size)
    then move_to h m new_pages
    else open_pages h m new_pages delta

-- The number of pages after growing, where it is allowed.
abbrev pub allowed_pages : LinearMemory → ℕ → Option ℕ
allowed_pages m delta = elim (checked_add m.current delta) [
  | none ↦ none
  | some new_pages ↦
      if exceeds m.maximum new_pages || leb wasm_max_pages new_pages then none else some new_pages
]

-- `LinearMemory::grow`
unfoldable pub grow : Host → LinearMemory → ℕ → Growth
unfolding grow_to move_to open_pages
grow h m delta = if delta == 0 then some (some m.current, m) else elim (allowed_pages m delta) [
  | none ↦ some (none, m)
  | some new_pages ↦ grow_to h m new_pages delta
]

-- `VMMemoryDefinition`: what compiled code reads of a memory.
pub record VmMemoryDefinition : Type 0 where
  pub base : ℕ
  pub current_length : ℕ

abbrev pub vmmemory : LinearMemory → VmMemoryDefinition
vmmemory m = record { base = m.mmap.ptr; current_length = m.current * wasm_page_size }
