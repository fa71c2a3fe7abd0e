-- ===== src/Runtime/Memory/Examples.antt =====
-- wasmtime-runtime/src/memory.rs: the theorems at a dynamic memory of one page and at a static one,
-- on a host with pages of 4096 bytes.
use wasmtime.Base.{
  ◌≡◌, ◌≢◌, refl, true, false, none, some, arith, [], ◌∷◌, checked_add_usize, checked_mul_usize,
  checked_add,
}
use wasmtime.Base.Outcomes.{ok}
use wasmtime.Environ.Plan.{
  MemoryType, MemoryPlan, dynamic, static, default_tunables, for_memory, Tunables,
}
use wasmtime.Runtime.Mmap.{Host, fresh, protect_range, accessible_reserved, make_accessible}
use wasmtime.Runtime.Memory.{LinearMemory, new, grow, copy_bytes, vmmemory}
use wasmtime.Runtime.Memory.Valid.{HostPages, IsValid}
use wasmtime.Runtime.Memory.Growth.{Grown, grow-IsValid, grow-Grown}
use wasmtime.Runtime.Memory.Total.{grow-ne-none, grow_granted, grow_unguarded_panics}
use wasmtime.Runtime.Memory.Static.{new-IsValid, grow_all, static_never_moves}

abbrev host : Host
host = record { page_size = 4096; mapped = some 0x7000_0000; protected = true }

abbrev pages : HostPages 4096
pages = record { page = record { exponent = 12; power = refl }; per_wasm_page = 16; divides = refl }

abbrev one_page : MemoryType
one_page = record { minimum = 1; maximum = some 3; shared = false }

abbrev dynamic_plan : MemoryPlan
dynamic_plan = record { memory = one_page; style = dynamic; offset_guard_size = 0x1_0000 }

abbrev small : LinearMemory
small = record {
  mmap = protect_range (fresh 0x7000_0000 0x2_0000 false) 0 0x1_0000;
  current = 1;
  maximum = some 3;
  offset_guard_size = 0x1_0000;
  needs_signal_handlers = true;
}

-- After growing by one page, at the address that the host gives.
abbrev larger : LinearMemory
larger = record small {
  mmap =
      copy_bytes (protect_range (fresh 0x7000_0000 0x3_0000 false) 0 0x2_0000) small.mmap 0x1_0000;
  current = 2;
}

small-new : new host dynamic_plan ≡ ok small
unfolding new accessible_reserved make_accessible checked_add_usize checked_mul_usize
small-new = refl

small-IsValid : IsValid 4096 small
small-IsValid = new-IsValid host 4096 dynamic_plan small refl small-new

small-grow : grow host small 1 ≡ some (some 1, larger)
unfolding grow accessible_reserved make_accessible checked_add_usize checked_add
small-grow = refl

small_refuses : grow host small 9 ≡ some (none, small)
unfolding grow checked_add
small_refuses = refl

grow-IsValid_example : IsValid 4096 larger
grow-IsValid_example = grow-IsValid host 4096 small 1 (some 1) larger small-IsValid small-grow

grow-Grown_example : Grown small 1 1 larger
grow-Grown_example = grow-Grown host 4096 small 1 1 larger small-IsValid small-grow

grow-ne-none_example : grow host small 1 ≢ none
grow-ne-none_example = grow-ne-none host small small-IsValid pages 1 (omega arith)

grow_granted_example : (m' : LinearMemory) × (grow host small 1 ≡ some (some 1, m'))
unfolding checked_add
grow_granted_example =
    grow_granted host small small-IsValid pages 1 2 0x7000_0000 (omega arith) refl refl
      (omega arith) refl (omega arith)

-- A static memory of two reserved pages, with no guard.
abbrev tight_tunables : Tunables
tight_tunables = record default_tunables {
  static_memory_bound = 2;
  static_memory_offset_guard_size = 0;
}

abbrev two_pages : MemoryType
two_pages = record { minimum = 1; maximum = some 2; shared = false }

abbrev tight_plan : MemoryPlan
tight_plan = record { memory = two_pages; style = static 2; offset_guard_size = 0 }

abbrev tight : LinearMemory
tight = record {
  mmap = protect_range (fresh 0x7000_0000 0x2_0000 false) 0 0x1_0000;
  current = 1;
  maximum = some 2;
  offset_guard_size = 0;
  needs_signal_handlers = true;
}

tight-new : new host tight_plan ≡ ok tight
unfolding new accessible_reserved make_accessible checked_add_usize checked_mul_usize
tight-new = refl

grow_unguarded_panics_example : grow host tight 1 ≡ none
unfolding checked_add
grow_unguarded_panics_example =
    grow_unguarded_panics host tight (new-IsValid host 4096 tight_plan tight refl tight-new) pages 1
      2 refl (omega arith) refl refl

-- The same memory with a guard grows in place.
abbrev guarded_tunables : Tunables
guarded_tunables = record tight_tunables { static_memory_offset_guard_size = 0x1_0000 }

abbrev guarded_plan : MemoryPlan
guarded_plan = record tight_plan { offset_guard_size = 0x1_0000 }

abbrev guarded : LinearMemory
guarded = record tight {
  mmap = protect_range (fresh 0x7000_0000 0x3_0000 false) 0 0x1_0000;
  offset_guard_size = 0x1_0000;
}

abbrev guarded_grown : LinearMemory
guarded_grown = record guarded { mmap = protect_range guarded.mmap 0x1_0000 0x1_0000; current = 2 }

static_never_moves_example : (vmmemory guarded_grown).base ≡ (vmmemory guarded).base
unfolding new grow grow_all accessible_reserved make_accessible checked_add_usize checked_mul_usize
    checked_add for_memory
static_never_moves_example =
    static_never_moves host two_pages guarded_tunables guarded_plan 2 guarded guarded_grown
      ((host, 1) ∷ []) refl refl refl refl
