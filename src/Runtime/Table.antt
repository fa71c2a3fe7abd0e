-- ===== src/Runtime/Table.antt =====
-- wasmtime-runtime/src/table.rs: a table of function references.
pub mod Elements
mod Examples
use wasmtime.Base.{
  ℕ, ◌-◌, Bool, true, false, Option, none, some, List, ◌++◌, length, get_elem?, set, take,
  replicate, ltb, leb, if◌then◌else◌, u32_mod, checked_add, try_u32,
}
use wasmtime.Environ.Plan.{TablePlan, TableElementType, func, val}
use wasmtime.Runtime.Memory.{exceeds}

-- `VMCallerCheckedAnyfunc`, and its default, whose type index no signature has.
pub record Anyfunc : Type 0 where
  pub func_ptr : ℕ
  pub type_index : ℕ
  pub vmctx : ℕ

abbrev pub default_anyfunc : Anyfunc
default_anyfunc = record { func_ptr = 0; type_index = u32_mod - 1; vmctx = 0 }

-- The elements, the address at which the vector holds them, and the declared maximum.
pub record Table : Type 0 where
  pub vec : List Anyfunc
  pub address : ℕ
  pub maximum : Option ℕ

-- `Table::new`, with the address of the new vector; `none` is the panic on any other element type.
unfoldable pub new : ℕ → TablePlan → Option Table
new address plan = elim plan.ty [
  | func ↦ some (record {
    vec = replicate plan.limits.minimum default_anyfunc;
    address = address;
    maximum = plan.limits.maximum;
  })
  | val ty ↦ none
]

-- `none` is a panic: a length that is no `u32`.
abbrev pub size : Table → Option ℕ
size t = try_u32 (length t.vec)

-- `Vec::resize`
abbrev pub resize {ℓ} : {A : Type ℓ} → List A → ℕ → A → List A
resize xs n a = if leb n (length xs) then take n xs else xs ++ replicate (n - length xs) a

-- The length after growing, where it is allowed.
abbrev pub allowed_length : Table → ℕ → ℕ → Option ℕ
allowed_length t len delta = elim (checked_add len delta) [
  | none ↦ none
  | some new_len ↦ if exceeds t.maximum new_len then none else some new_len
]

-- `Table::grow`, with the address of the vector after the call. Outside, `none` is a panic; inside, a
-- refusal.
unfoldable pub grow : ℕ → Table → ℕ → Option (Option ℕ × Table)
grow address t delta = elim (size t) [
  | none ↦ none
  | some len ↦ elim (allowed_length t len delta) [
    | none ↦ some (none, t)
    | some new_len ↦
        some
          (some new_len, record t { vec = resize t.vec new_len default_anyfunc; address = address })
  ]
]

unfoldable pub get : Table → ℕ → Option Anyfunc
get t index = get_elem? t.vec index

-- A write through `get_mut`; `none` where the index is out of bounds.
unfoldable pub put : Table → ℕ → Anyfunc → Option Table
put t index a = elim (get_elem? t.vec index) [
  | none ↦ none
  | some old ↦ some (record t { vec = set t.vec index a })
]

-- `VMTableDefinition`: what compiled code reads of a table.
pub record VmTableDefinition : Type 0 where
  pub base : ℕ
  pub current_elements : ℕ

unfoldable pub vmtable : Table → Option VmTableDefinition
vmtable t = elim (try_u32 (length t.vec)) [
  | none ↦ none
  | some n ↦ some (record { base = t.address; current_elements = n })
]
