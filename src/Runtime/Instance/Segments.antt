-- ===== src/Runtime/Instance/Segments.antt =====
-- wasmtime-runtime/src/instance.rs: the data segments of a module, checked before any is written.
pub mod Kept
pub mod Written
pub mod Checked
use wasmtime.Base.{
  ℕ, ◌-◌, ◌+◌, ◌%◌, Bool, true, false, ◌&&◌, Option, none, some, List, [], ◌∷◌, length, get_elem?,
  set, leb, if◌then◌else◌, ◌>>=◌, u32_mod, usize_mod,
}
use wasmtime.Base.Outcomes
use wasmtime.Base.Outcomes.{Outcome, ok, err, panic, unwrap}
use wasmtime.Environ.Module.{defined_memory_index, defined_global_index}
use wasmtime.Runtime.Memory.{LinearMemory, VmMemoryDefinition}
use wasmtime.Runtime.VmContext
use wasmtime.Runtime.VmContext.{VmGlobalImport}
use wasmtime.Runtime.Instance.{Instance, Store, foreign_memory, put_instance}

-- `DataInitializer` of wasmtime-environ/src/module_environ.rs, with its location.
pub record DataInitializer : Type 0 where
  pub memory_index : ℕ
  pub base : Option ℕ
  pub offset : ℕ
  pub contents : List ℕ

pub data LinkError : Type 0 where
  segment_does_not_fit : LinkError

abbrev pub owner_bits : Store → VmGlobalImport → Option ℕ
owner_bits s import = s import.from.context >>= λ owner.
    VmContext.as_global_definition (owner.vmctx import.from.offset)

-- The 16 bytes of a global, its own or another instance's.
abbrev pub global_bits : Store → Instance → ℕ → Option ℕ
global_bits s inst index = elim (defined_global_index inst.module_ index) [
  | some defined ↦ VmContext.global inst.offsets inst.vmctx defined
  | none ↦ VmContext.imported_global inst.offsets inst.vmctx index >>= owner_bits s
]

-- The start of a segment with a base: the global is read as a `u32`; the sum is an unchecked
-- `usize` addition.
abbrev pub start_from : DataInitializer → ℕ → Option ℕ
start_from init bits = some ((init.offset + bits % u32_mod) % usize_mod)

abbrev pub get_memory_init_start : Store → Instance → DataInitializer → Option ℕ
get_memory_init_start s inst init = elim init.base [
  | none ↦ some init.offset
  | some base ↦ global_bits s inst base >>= start_from init
]

-- A slice: the owner of the memory, its index there, and its length in bytes.
abbrev pub slice_of : Instance → ℕ → Option (ℕ × (ℕ × ℕ))
slice_of owner index = VmContext.memory owner.offsets owner.vmctx index >>= λ d.
    some (owner.id, (index, d.current_length))

abbrev pub get_memory_slice : Store → Instance → DataInitializer → Option (ℕ × (ℕ × ℕ))
get_memory_slice s inst init = elim (defined_memory_index inst.module_ init.memory_index) [
  | some defined ↦ slice_of inst defined
  | none ↦ foreign_memory s inst init.memory_index >>= λ f. slice_of f.0 f.1
]

-- Whether `start..start + len` is a range of a slice; the sum wraps.
abbrev pub in_range : ℕ → ℕ → ℕ → Bool
in_range start len size =
    leb start ((start + len) % usize_mod) && leb ((start + len) % usize_mod) size

-- Where a segment goes.
pub record Target : Type 0 where
  pub owner : ℕ
  pub index : ℕ
  pub start : ℕ
  pub size : ℕ

abbrev pub target_at : ℕ → ℕ × (ℕ × ℕ) → Option Target
target_at start slice =
    some (record { owner = slice.0; index = slice.1.0; start = start; size = slice.1.1 })

abbrev pub locate_in : Store → DataInitializer → Instance → Option Target
locate_in s init inst =
    get_memory_init_start s inst init >>= λ start. get_memory_slice s inst init >>= target_at start

unfoldable pub locate : Store → ℕ → DataInitializer → Option Target
locate s k init = s k >>= locate_in s init

-- `check_memory_init_bounds` of the instance at an address.
unfoldable pub check_memory_init_bounds :
    Store → ℕ → List DataInitializer → Outcome LinkError (Unit {0})
check_memory_init_bounds s k [] = ok tt
check_memory_init_bounds s k (init ∷ inits) =
    let rest = check_memory_init_bounds s k inits in
    elim (locate s k init) [
      | none ↦ panic
      | some t ↦
          if in_range t.start (length init.contents) t.size then rest else err segment_does_not_fit
    ]

-- The bytes of a segment over those that were there.
abbrev pub overlay : (ℕ → ℕ) → ℕ → List ℕ → ℕ → ℕ
overlay bytes start contents i =
    elim (if leb start i then get_elem? contents (i - start) else none) [
      | none ↦ bytes i
      | some b ↦ b
    ]

abbrev pub fill : LinearMemory → ℕ → List ℕ → LinearMemory
fill m start contents = record m {
  mmap = record m.mmap { bytes = overlay m.mmap.bytes start contents };
}

abbrev pub fill_nth : List LinearMemory → ℕ → ℕ → List ℕ → List LinearMemory
fill_nth ms index start contents = elim (get_elem? ms index) [
  | none ↦ ms
  | some m ↦ set ms index (fill m start contents)
]

-- `copy_from_slice` into the memory of a target.
unfoldable pub write_segment : Store → Target → List ℕ → Store
write_segment s t contents = elim (s t.owner) [
  | none ↦ s
  | some inst ↦
      put_instance s (record inst { memories = fill_nth inst.memories t.index t.start contents })
]

-- `initialize_memories`: a range that is not in the slice is a panic.
unfoldable pub initialize_memories : Store → ℕ → List DataInitializer → Outcome LinkError Store
initialize_memories s k [] = ok s
initialize_memories s k (init ∷ inits) = elim (locate s k init) [
  | none ↦ panic
  | some t ↦
      if in_range t.start (length init.contents) t.size
      then initialize_memories (write_segment s t init.contents) k inits
      else panic
]
