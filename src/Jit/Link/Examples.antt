-- ===== src/Jit/Link/Examples.antt =====
-- wasmtime-jit/src/link.rs: a module that imports a function and a memory.
use text.Mathlib.Text.{◌==◌ as str_eq}
use wasmtime.Base.{
  inl, ℕ, ◌+◌, ◌-◌, ◌^◌, ◌≤◌, ◌<◌, ◌≡◌, ◌↔◌, refl, Option, none, some, true, false, List, [], ◌∷◌,
  length, get_elem?, if◌then◌else◌, arith, usize_mod,
}
use wasmtime.Base.Outcomes.{ok}
use wasmtime.Environ.Module.{Module, Signature}
use wasmtime.Environ.Module
use wasmtime.Environ.Plan.{MemoryPlan, dynamic}
use wasmtime.Environ.VmOffsets
use wasmtime.Environ.VmOffsets.{VmOffsets}
use wasmtime.Environ.VmOffsets.Layout.{Fits, start, total, extent}
use wasmtime.Runtime.VmContext.{Imports, VmContext, Arrays, fill_context, unwritten}
use wasmtime.Runtime.Instance.Calls.{Export, function, memory}
use wasmtime.Jit.Link.{Name, link_imports, is_memory_compatible}
use wasmtime.Jit.Link.Linkable.{IsLinked, IsLinkable, link_imports-IsLinked, link_imports_iff}
use wasmtime.Jit.Link.Relocate.{
  target_address, Linkage, Relocation, abs8, user_func, relocate, Patch, patch_of, byte_of,
}
use wasmtime.Jit.Link.Bytes.{Outside}
use wasmtime.Jit.Link.Places.{Places}
use wasmtime.Jit.Link.Patches.{relocate-Patched, negative_addend_panics}
use wasmtime.Jit.Link.Context.{OwnRoom, ReadsImports, with_imports, link_imports-ReadsImports}

abbrev plain : Signature
plain = record { name = 0; params = 1; returns = 0 }

abbrev plan : ℕ → Option ℕ → MemoryPlan
plan minimum maximum = record {
  memory = record { minimum = minimum; maximum = maximum; shared = false };
  style = dynamic;
  offset_guard_size = 65536;
}

abbrev importing : Module
importing = record Module.new {
  signatures = plain ∷ [];
  imported_funcs = ("env", "f") ∷ [];
  imported_memories = ("env", "m") ∷ [];
  functions = 0 ∷ (0 ∷ []);
  memory_plans = plan 1 none ∷ [];
}

abbrev resolver : Name → Option Export
resolver name =
    if str_eq name.1 "f"
    then some (function 4096 plain 1)
    else some (memory (record { context = 2; offset = 48 }) 2 (plan 2 (some 3)))

abbrev linked : Imports
linked = record {
  dependencies = 1 ∷ (2 ∷ []);
  functions = record { body = 4096; vmctx = 1 } ∷ [];
  tables = [];
  memories = record { from = record { context = 2; offset = 48 }; vmctx = 2 } ∷ [];
  globals = [];
}

importing_links : link_imports importing resolver ≡ ok linked
unfolding link_imports wasmtime.Jit.Link.link_each wasmtime.Jit.Link.link_function
    wasmtime.Jit.Link.link_memory is_memory_compatible
importing_links = refl

link_imports-IsLinked_example : IsLinked importing resolver linked
link_imports-IsLinked_example = link_imports-IsLinked importing resolver linked importing_links

link_imports_iff_example :
    ((imports : Imports) × (link_imports importing resolver ≡ ok imports))
    ↔ IsLinkable importing resolver
link_imports_iff_example = link_imports_iff importing resolver

abbrev importing_offsets : VmOffsets
importing_offsets = record {
  pointer_size = 8;
  num_signature_ids = 1;
  num_imported_functions = 1;
  num_imported_tables = 0;
  num_imported_memories = 1;
  num_imported_globals = 0;
  num_defined_tables = 0;
  num_defined_memories = 1;
  num_defined_globals = 0;
}

importing_new : VmOffsets.new 8 importing ≡ some importing_offsets
unfolding VmOffsets.new wasmtime.Base.try_u32
importing_new = refl

importing_fits : Fits importing_offsets
unfolding total start extent
importing_fits = omega arith

abbrev own_arrays : Arrays
own_arrays = record {
  vmshared_signatures = 5 ∷ [];
  functions = [];
  table_imports = [];
  memory_imports = [];
  global_imports = [];
  vmctx_tables = [];
  vmctx_memories = [];
  vmctx_globals = [];
  builtins = 1 ∷ (2 ∷ (3 ∷ (4 ∷ [])));
}

own_arrays-OwnRoom : OwnRoom importing own_arrays
own_arrays-OwnRoom = record {
  signatures = omega arith;
  tables = omega arith;
  memories = omega arith;
  globals = omega arith;
  builtins = omega arith;
}

link_imports-ReadsImports_example :
    (after : VmContext) × (fill_context importing_offsets
        (with_imports own_arrays linked)
        (λ i. unwritten)
      ≡ some after)
    × ReadsImports importing resolver importing_offsets after
link_imports-ReadsImports_example =
    link_imports-ReadsImports importing resolver linked importing_offsets own_arrays
      (λ i. unwritten) importing_links importing_new importing_fits own_arrays-OwnRoom

abbrev linkage : Linkage
linkage = record { allocated_functions = 65536 ∷ []; jt_offsets = []; address_of = λ f. 1024 }

abbrev absolute : ℕ → ℕ → Relocation
absolute offset addend = record {
  reloc = abs8;
  reloc_target = user_func 1;
  offset = offset;
  addend = addend;
}

abbrev two_patches : List Patch
two_patches = record { site = 65540; value = 65536 } ∷ (record { site = 65552; value = 65538 } ∷ [])

two-Places : Places linkage importing 0 ((absolute 4 0 ∷ (absolute 16 2 ∷ [])) ∷ []) two_patches
two-Places = (
  65536,
  two_patches,
  [],
  refl,
  (
    65536,
    record { site = 65552; value = 65538 } ∷ [],
    (0, (refl, refl)),
    (65536, [], (0, (refl, refl)), refl, (omega arith, refl)),
    (omega arith, refl),
  ),
  refl,
  refl,
)

relocate-Patched_example :
    (after : ℕ → ℕ) × (relocate linkage importing 0
        ((absolute 4 0 ∷ (absolute 16 2 ∷ [])) ∷ [])
        (λ i. 0)
      ≡ some after)
    × ((j k : ℕ) (p : Patch)
        → get_elem? two_patches j ≡ some p
        → k < 8
        → after (p.site + k) ≡ byte_of p.value k)
    × ((a : ℕ) → Outside two_patches a → after a ≡ 0)
relocate-Patched_example =
    relocate-Patched linkage importing ((absolute 4 0 ∷ (absolute 16 2 ∷ [])) ∷ []) (λ i. 0)
      two_patches two-Places ((inl (omega arith), tt), (tt, tt))

abbrev backwards : Relocation
backwards = absolute 4 (2 ^ 64 - 4)

negative_addend_panics_example : patch_of linkage importing 65536 backwards ≡ none
unfolding target_address Module.defined_func_index
negative_addend_panics_example =
    negative_addend_panics linkage importing 65536 65536 4 backwards refl refl (omega arith)
      (omega arith) (omega arith) refl
