-- ===== src/Runtime/Instance/Elements.antt =====
-- wasmtime-runtime/src/instance.rs: the element segments of a module, checked before any is written
-- into a table.
pub mod Kept
pub mod Written
pub mod Overlaid
pub mod Initialized
mod Examples
use wasmtime.Base.{
  ℕ, suc, ◌-◌, ◌+◌, ◌%◌, Bool, true, false, ◌&&◌, Option, none, some, List, [], ◌∷◌, length,
  get_elem?, set, leb, if◌then◌else◌, ◌>>=◌, u32_mod, usize_mod,
}
use wasmtime.Base.Outcomes.{Outcome, ok, err, panic}
use wasmtime.Environ.Module.{TableElements, defined_table_index}
use wasmtime.Runtime.Table.{Table, Anyfunc}
use wasmtime.Runtime.VmContext
use wasmtime.Runtime.Instance.{Instance, Store, put_instance, table_index}
use wasmtime.Runtime.Instance.Calls
use wasmtime.Runtime.Instance.Segments.{global_bits, in_range, Target, target_at}

pub data LinkError : Type 0 where
  elements_do_not_fit : LinkError

-- The start of a segment with a base: the global is read as a `u32`; the sum is an unchecked
-- `usize` addition.
abbrev pub start_from : TableElements → ℕ → Option ℕ
start_from init bits = some ((init.offset + bits % u32_mod) % usize_mod)

abbrev pub get_table_init_start : Store → Instance → TableElements → Option ℕ
get_table_init_start s inst init = elim init.base [
  | none ↦ some init.offset
  | some base ↦ global_bits s inst base >>= start_from init
]

-- A slice: the owner of the table, its index there, and its number of elements.
abbrev pub slice_of : Instance → ℕ → Option (ℕ × (ℕ × ℕ))
slice_of owner index = get_elem? owner.tables index >>= λ t. some (owner.id, (index, length t.vec))

-- The instance and the index that a table import points to.
abbrev pub foreign_table : Store → Instance → ℕ → Option (Instance × ℕ)
foreign_table s inst index = VmContext.imported_table inst.offsets inst.vmctx index >>= λ import.
    s import.vmctx >>= λ foreign.
    table_index foreign import.from.offset >>= λ at. some (foreign, at)

abbrev pub get_table_slice : Store → Instance → TableElements → Option (ℕ × (ℕ × ℕ))
get_table_slice s inst init = elim (defined_table_index inst.module_ init.table_index) [
  | some defined ↦ slice_of inst defined
  | none ↦ foreign_table s inst init.table_index >>= λ f. slice_of f.0 f.1
]

abbrev pub locate_in : Store → TableElements → Instance → Option Target
locate_in s init inst =
    get_table_init_start s inst init >>= λ start. get_table_slice s inst init >>= target_at start

unfoldable pub locate : Store → ℕ → TableElements → Option Target
locate s k init = s k >>= locate_in s init

-- `check_table_init_bounds` of the instance at an address.
unfoldable pub check_table_init_bounds :
    Store → ℕ → List TableElements → Outcome LinkError (Unit {0})
check_table_init_bounds s k [] = ok tt
check_table_init_bounds s k (init ∷ inits) =
    let rest = check_table_init_bounds s k inits in
    elim (locate s k init) [
      | none ↦ panic
      | some t ↦
          if in_range t.start (length init.elements) t.size then rest else err elements_do_not_fit
    ]

-- What a function's index is written as: its code, the number of its signature, its context.
abbrev pub anyfunc_in : ℕ → Instance → Option Anyfunc
anyfunc_in func_idx inst = get_elem? inst.module_.functions func_idx >>= λ callee_sig.
    Calls.resolve inst func_idx >>= λ callee.
    VmContext.get_signature_id inst.offsets inst.vmctx callee_sig >>= λ type_index.
    some (record { func_ptr = callee.address; type_index = type_index; vmctx = callee.vmctx })

unfoldable pub anyfunc : Store → ℕ → ℕ → Option Anyfunc
anyfunc s k func_idx = s k >>= anyfunc_in func_idx

abbrev pub set_nth : List Table → ℕ → ℕ → Anyfunc → List Table
set_nth ts index at a = elim (get_elem? ts index) [
  | none ↦ ts
  | some t ↦ set ts index (record t { vec = set t.vec at a })
]

-- One assignment to an element of a table.
unfoldable pub write_element : Store → ℕ → ℕ → ℕ → Anyfunc → Store
write_element s owner index at a = elim (s owner) [
  | none ↦ s
  | some inst ↦ put_instance s (record inst { tables = set_nth inst.tables index at a })
]

-- The inner loop of `initialize_tables`; a function that is not there is a panic.
unfoldable pub write_elements : Store → ℕ → ℕ → ℕ → ℕ → List ℕ → Option Store
write_elements s k owner index at [] = some s
write_elements s k owner index at (f ∷ fs) = anyfunc s k f >>= λ a.
    write_elements (write_element s owner index at a) k owner index (suc at) fs

-- `initialize_tables`: a range that is not in the slice is a panic. It returns no error.
unfoldable pub initialize_tables : Store → ℕ → List TableElements → Option Store
initialize_tables s k [] = some s
initialize_tables s k (init ∷ inits) = locate s k init >>= λ t.
    (if in_range t.start (length init.elements) t.size
      then write_elements s k t.owner t.index t.start init.elements
      else none)
    >>= λ written. initialize_tables written k inits
