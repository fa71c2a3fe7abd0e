-- ===== src/Jit/Link/Places.antt =====
-- wasmtime-jit/src/link.rs: what relocations are to write, described without the code of `relocate`.
use wasmtime.Base.{
  ℕ, suc, ◌+◌, ◌%◌, ◌<◌, ◌≡◌, refl, ap, ◌∙◌, subst, some, List, [], ◌∷◌, ◌++◌, length, get_elem?,
  arith, usize_mod,
}
use wasmtime.Environ.Module.{Module, defined_func_index}
use wasmtime.Jit.Link.Relocate.{
  Linkage, Relocation, Reloc, abs8, x86_pc_rel_rodata4, other_reloc, RelocationTarget, user_func,
  lib_call, memory32_grow, imported_memory32_grow, memory32_size, imported_memory32_size,
  jump_table, ceil_f32, floor_f32, trunc_f32, nearest_f32, ceil_f64, floor_f64, trunc_f64,
  nearest_f64, probestack, RuntimeFunction, wasmtime_memory32_grow, wasmtime_memory32_size,
  wasmtime_imported_memory32_grow, wasmtime_imported_memory32_size, wasmtime_f32_ceil,
  wasmtime_f32_floor, wasmtime_f32_trunc, wasmtime_f32_nearest, wasmtime_f64_ceil,
  wasmtime_f64_floor, wasmtime_f64_trunc, wasmtime_f64_nearest, rust_probestack, target_address,
  Patch,
}

-- The relocation target that stands for a function of the runtime.
abbrev pub target_of : RuntimeFunction → RelocationTarget
target_of wasmtime_memory32_grow = memory32_grow
target_of wasmtime_memory32_size = memory32_size
target_of wasmtime_imported_memory32_grow = imported_memory32_grow
target_of wasmtime_imported_memory32_size = imported_memory32_size
target_of wasmtime_f32_ceil = lib_call ceil_f32
target_of wasmtime_f32_floor = lib_call floor_f32
target_of wasmtime_f32_trunc = lib_call trunc_f32
target_of wasmtime_f32_nearest = lib_call nearest_f32
target_of wasmtime_f64_ceil = lib_call ceil_f64
target_of wasmtime_f64_floor = lib_call floor_f64
target_of wasmtime_f64_trunc = lib_call trunc_f64
target_of wasmtime_f64_nearest = lib_call nearest_f64
target_of rust_probestack = lib_call probestack

module _ (l : Linkage) (m : Module) where
  -- A function that the module defines, by its place behind the imports.
  abbrev pub IsDefined : ℕ → ℕ → ℕ → Type 0
  IsDefined index d body =
      (index ≡ length m.imported_funcs + d) × (get_elem? l.allocated_functions d ≡ some body)

  abbrev pub IsRuntime : RelocationTarget → ℕ → Type 0
  IsRuntime t a = (f : RuntimeFunction) × (target_of f ≡ t) × (l.address_of f ≡ a)

  -- The address of a target: the body of a function, a jump table at its offset in the body, or a
  -- function of the runtime.
  abbrev pub HasAddress : RelocationTarget → ℕ → Type 0
  HasAddress (user_func index) a = (d : ℕ) × IsDefined index d a
  HasAddress (jump_table index jt) a =
      (d : ℕ) × (body : ℕ) × (offsets : List ℕ) × (offset : ℕ) × IsDefined index d body
      × (get_elem? l.jt_offsets d ≡ some offsets)
      × (get_elem? offsets jt ≡ some offset)
      × ((body + offset) % usize_mod ≡ a)
  HasAddress t a = IsRuntime t a

  -- The patches of one relocation before those that follow: for an absolute one the sum of the
  -- target's address and the addend, which is a 64-bit word, at the offset in the body.
  abbrev pub PlacesOne : ℕ → Relocation → Reloc → ℕ → List Patch → List Patch → Type 0
  PlacesOne body r abs8 a qs ps =
      (a + r.addend < usize_mod)
      × (ps ≡ record { site = (body + r.offset) % usize_mod; value = a + r.addend } ∷ qs)
  PlacesOne body r x86_pc_rel_rodata4 a qs ps = ps ≡ qs
  PlacesOne body r (other_reloc n) a qs ps = ⊥

  -- The patches of the relocations of the function at `body`, in order.
  abbrev pub PlacesOf : ℕ → List Relocation → List Patch → Type 0
  PlacesOf body [] ps = ps ≡ []
  PlacesOf body (r ∷ rs) ps =
      (a : ℕ) × (qs : List Patch) × HasAddress r.reloc_target a
      × PlacesOf body rs qs
      × PlacesOne body r r.reloc a qs ps

  -- The patches of all functions, from function `i` on.
  abbrev pub Places : ℕ → List (List Relocation) → List Patch → Type 0
  Places i [] ps = ps ≡ []
  Places i ([] ∷ rest) ps = Places (suc i) rest ps
  Places i ((r ∷ rs) ∷ rest) ps =
      (body : ℕ) × (own : List Patch) × (others : List Patch) × (get_elem? l.allocated_functions i
        ≡ some body)
      × PlacesOf body (r ∷ rs) own
      × Places (suc i) rest others
      × (ps ≡ own ++ others)

  IsDefined-defined_func_index :
      (index d body : ℕ) → IsDefined index d body → defined_func_index m index ≡ some d
  unfolding defined_func_index
  IsDefined-defined_func_index index d body p = ground (arith, p.0)

  runtime_address : (f : RuntimeFunction) → target_address l m (target_of f) ≡ some (l.address_of f)
  unfolding target_address
  runtime_address wasmtime_memory32_grow = refl
  runtime_address wasmtime_memory32_size = refl
  runtime_address wasmtime_imported_memory32_grow = refl
  runtime_address wasmtime_imported_memory32_size = refl
  runtime_address wasmtime_f32_ceil = refl
  runtime_address wasmtime_f32_floor = refl
  runtime_address wasmtime_f32_trunc = refl
  runtime_address wasmtime_f32_nearest = refl
  runtime_address wasmtime_f64_ceil = refl
  runtime_address wasmtime_f64_floor = refl
  runtime_address wasmtime_f64_trunc = refl
  runtime_address wasmtime_f64_nearest = refl
  runtime_address rust_probestack = refl

  pub HasAddress-target_address :
      (t : RelocationTarget) (a : ℕ) → HasAddress t a → target_address l m t ≡ some a
  unfolding target_address
  HasAddress-target_address (user_func index) a (d, p) =
      rw (IsDefined-defined_func_index index d a p) p.1
  HasAddress-target_address (jump_table index jt) a (d, body, offsets, offset, p, e, f, g) =
      rw (IsDefined-defined_func_index index d body p, e, f, p.1) (ap some g)
  HasAddress-target_address (lib_call c) a (f, e, g) =
      subst (λ (t : RelocationTarget). target_address l m t ≡ some a) e
        (runtime_address f ∙ ap some g)
  HasAddress-target_address memory32_grow a (f, e, g) =
      subst (λ (t : RelocationTarget). target_address l m t ≡ some a) e
        (runtime_address f ∙ ap some g)
  HasAddress-target_address imported_memory32_grow a (f, e, g) =
      subst (λ (t : RelocationTarget). target_address l m t ≡ some a) e
        (runtime_address f ∙ ap some g)
  HasAddress-target_address memory32_size a (f, e, g) =
      subst (λ (t : RelocationTarget). target_address l m t ≡ some a) e
        (runtime_address f ∙ ap some g)
  HasAddress-target_address imported_memory32_size a (f, e, g) =
      subst (λ (t : RelocationTarget). target_address l m t ≡ some a) e
        (runtime_address f ∙ ap some g)
