-- ===== src/Jit/Link/Relocate.antt =====
-- wasmtime-jit/src/link.rs: `relocate`, on a 64-bit host that is not Windows, and the whole of
-- `link_module`. The relocations are those of wasmtime-environ/src/compilation.rs.
use wasmtime.Base.{
  ℕ, suc, ◌+◌, ◌-◌, ◌/◌, ◌%◌, ◌^◌, ◌&&◌, Option, none, some, List, [], ◌∷◌, get_elem?, leb, ltb,
  if◌then◌else◌, checked_add_usize, usize_mod, ◌>>=◌,
}
use wasmtime.Base.Outcomes.{Outcome, panic, err, ok}
use wasmtime.Environ.Module.{Module, defined_func_index}
use wasmtime.Runtime.Instance.Calls.{Export}
use wasmtime.Runtime.VmContext.{Imports}
use wasmtime.Jit.Link.{Name, LinkError, link_imports}

-- `ir::LibCall`, with the calls that the code knows.
pub data LibCall : Type 0 where
  ceil_f32 floor_f32 trunc_f32 nearest_f32 ceil_f64 floor_f64 trunc_f64 nearest_f64 probestack :
      LibCall
  other_libcall : ℕ → LibCall

pub data RelocationTarget : Type 0 where
  user_func : ℕ → RelocationTarget
  lib_call : LibCall → RelocationTarget
  memory32_grow imported_memory32_grow memory32_size imported_memory32_size : RelocationTarget
  jump_table : ℕ → ℕ → RelocationTarget

pub data Reloc : Type 0 where
  abs8 x86_pc_rel_rodata4 : Reloc
  other_reloc : ℕ → Reloc

-- The addend is a signed 64-bit number, given as its word.
pub record Relocation : Type 0 where
  pub reloc : Reloc
  pub reloc_target : RelocationTarget
  pub offset : ℕ
  pub addend : ℕ

-- The functions of the runtime that compiled code calls; where they lie is up to the linker.
pub data RuntimeFunction : Type 0 where
  wasmtime_memory32_grow wasmtime_memory32_size : RuntimeFunction
  wasmtime_imported_memory32_grow wasmtime_imported_memory32_size : RuntimeFunction
  wasmtime_f32_ceil wasmtime_f32_floor wasmtime_f32_trunc wasmtime_f32_nearest : RuntimeFunction
  wasmtime_f64_ceil wasmtime_f64_floor wasmtime_f64_trunc wasmtime_f64_nearest : RuntimeFunction
  rust_probestack : RuntimeFunction

abbrev pub libcall_function : LibCall → Option RuntimeFunction
libcall_function ceil_f32 = some wasmtime_f32_ceil
libcall_function floor_f32 = some wasmtime_f32_floor
libcall_function trunc_f32 = some wasmtime_f32_trunc
libcall_function nearest_f32 = some wasmtime_f32_nearest
libcall_function ceil_f64 = some wasmtime_f64_ceil
libcall_function floor_f64 = some wasmtime_f64_floor
libcall_function trunc_f64 = some wasmtime_f64_trunc
libcall_function nearest_f64 = some wasmtime_f64_nearest
libcall_function probestack = some rust_probestack
libcall_function (other_libcall n) = none

-- What `relocate` is given: the addresses of the allocated functions, the jump tables' offsets in
-- them, and the runtime's functions.
pub record Linkage : Type 0 where
  pub allocated_functions : List ℕ
  pub jt_offsets : List (List ℕ)
  pub address_of : RuntimeFunction → ℕ

module _ (l : Linkage) (m : Module) where
  abbrev pub function_address : ℕ → Option ℕ
  function_address index = defined_func_index m index >>= get_elem? l.allocated_functions

  abbrev pub jump_table_address : ℕ → ℕ → Option ℕ
  jump_table_address index jt = defined_func_index m index >>= λ f.
      get_elem? l.jt_offsets f >>= λ offsets. get_elem? offsets jt >>= λ offset.
      get_elem? l.allocated_functions f >>= λ body. some ((body + offset) % usize_mod)

  -- `target_func_address`; `none` is a panic.
  unfoldable pub target_address : RelocationTarget → Option ℕ
  target_address (user_func index) = function_address index
  target_address (lib_call libcall) = libcall_function libcall >>= λ f. some (l.address_of f)
  target_address memory32_grow = some (l.address_of wasmtime_memory32_grow)
  target_address memory32_size = some (l.address_of wasmtime_memory32_size)
  target_address imported_memory32_grow = some (l.address_of wasmtime_imported_memory32_grow)
  target_address imported_memory32_size = some (l.address_of wasmtime_imported_memory32_size)
  target_address (jump_table index jt) = jump_table_address index jt

-- A change of the code: 8 bytes at an address.
pub record Patch : Type 0 where
  pub site : ℕ
  pub value : ℕ

module _ (l : Linkage) (m : Module) (body : ℕ) where
  abbrev pub absolute : Relocation → ℕ → Option (Option Patch)
  absolute r target = checked_add_usize target r.addend >>= λ reloc_abs.
      some (some (record { site = (body + r.offset) % usize_mod; value = reloc_abs }))

  abbrev pub patch_for : Relocation → Reloc → ℕ → Option (Option Patch)
  patch_for r abs8 target = absolute r target
  patch_for r x86_pc_rel_rodata4 target = some none
  patch_for r (other_reloc n) target = none

  -- What one relocation does to the code of the function at `body`: nothing, or a patch. `none`
  -- outside is a panic, of an overflow too.
  unfoldable pub patch_of : Relocation → Option (Option Patch)
  patch_of r = target_address l m r.reloc_target >>= patch_for r r.reloc

-- Byte `k` of a word.
abbrev pub byte_of : ℕ → ℕ → ℕ
byte_of value k = value / 256 ^ k % 256

-- The bytes of memory by address, and `write_unaligned` of a `u64`.
unfoldable pub write_unaligned : (ℕ → ℕ) → ℕ → ℕ → ℕ → ℕ
write_unaligned bytes site value i =
    if leb site i && ltb i (site + 8) then byte_of value (i - site) else bytes i

abbrev pub apply_patch : Option Patch → (ℕ → ℕ) → ℕ → ℕ
apply_patch none bytes = bytes
apply_patch (some p) bytes = write_unaligned bytes p.site p.value

module _ (l : Linkage) (m : Module) where
  -- The relocations of one function.
  unfoldable pub relocate_function : ℕ → List Relocation → (ℕ → ℕ) → Option (ℕ → ℕ)
  relocate_function body [] bytes = some bytes
  relocate_function body (r ∷ rs) bytes =
      patch_of l m body r >>= λ p. relocate_function body rs (apply_patch p bytes)

  -- `relocate`, from function `i` on. A function without relocations is not looked up.
  abbrev pub relocate_at : ℕ → List Relocation → (ℕ → ℕ) → Option (ℕ → ℕ)
  relocate_at i [] bytes = some bytes
  relocate_at i (r ∷ rs) bytes =
      get_elem? l.allocated_functions i >>= λ body. relocate_function body (r ∷ rs) bytes

  unfoldable pub relocate : ℕ → List (List Relocation) → (ℕ → ℕ) → Option (ℕ → ℕ)
  relocate i [] bytes = some bytes
  relocate i (rs ∷ rest) bytes = relocate_at i rs bytes >>= relocate (suc i) rest

-- `link_module`: the imports, and the code after its relocation.
abbrev pub with_code : Imports → Option (ℕ → ℕ) → Outcome LinkError (Imports × (ℕ → ℕ))
with_code imports none = panic
with_code imports (some bytes) = ok (imports, bytes)

unfoldable pub link_module :
    Module
    → Linkage
    → List (List Relocation)
    → (Name → Option Export)
    → (ℕ → ℕ)
    → Outcome LinkError (Imports × (ℕ → ℕ))
link_module m l relocations resolve bytes = elim (link_imports m resolve) [
  | panic ↦ panic
  | err why ↦ err why
  | ok imports ↦ with_code imports (relocate l m 0 relocations bytes)
]
