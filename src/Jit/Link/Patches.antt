-- ===== src/Jit/Link/Patches.antt =====
-- wasmtime-jit/src/link.rs: what `relocate` writes.
use wasmtime.Base.{
  ℕ, suc, ◌+◌, ◌-◌, ◌%◌, ◌≤◌, ◌<◌, ◌≡◌, inl, inr, refl, sym, ap, ◌∙◌, Option, none, some, List, [],
  ◌∷◌, ◌++◌, get_elem?, arith, lt→ltb, ltb-eq-false, Option-cases, ◌>>=◌, checked_add_usize,
  usize_mod,
}
use wasmtime.Environ.Module.{Module}
use wasmtime.Jit.Link.Places.{HasAddress-target_address, PlacesOne, PlacesOf, Places}
use wasmtime.Jit.Link.Relocate.{
  Reloc, x86_pc_rel_rodata4, other_reloc, patch_for, Linkage, Relocation, abs8, Patch,
  target_address, patch_of, byte_of, apply_patch, relocate_function, relocate_at, relocate,
}
use wasmtime.Jit.Link.Bytes.{
  apply_all, Apart, Outside, apply_all-append, apply_all-Outside, apply_all-inside,
}

abbrev pub cons_patch : Option Patch → List Patch → List Patch
cons_patch none ps = ps
cons_patch (some p) ps = p ∷ ps

module _ (l : Linkage) (m : Module) where
  -- The patches of a function's relocations, and of all, in the order in which they are written.
  unfoldable function_patches : ℕ → List Relocation → Option (List Patch)
  function_patches body [] = some []
  function_patches body (r ∷ rs) =
      patch_of l m body r >>= λ p. function_patches body rs >>= λ ps. some (cons_patch p ps)

  abbrev patches_at : ℕ → List Relocation → Option (List Patch)
  patches_at i [] = some []
  patches_at i (r ∷ rs) =
      get_elem? l.allocated_functions i >>= λ body. function_patches body (r ∷ rs)

  unfoldable all_patches : ℕ → List (List Relocation) → Option (List Patch)
  all_patches i [] = some []
  all_patches i (rs ∷ rest) =
      patches_at i rs >>= λ ps. all_patches (suc i) rest >>= λ qs. some (ps ++ qs)

apply_all-cons_patch :
    (p : Option Patch) (ps : List Patch) (bytes : ℕ → ℕ)
    → apply_all (cons_patch p ps) bytes ≡ apply_all ps (apply_patch p bytes)
apply_all-cons_patch none ps bytes = refl
apply_all-cons_patch (some p) ps bytes = refl

module _ (l : Linkage) (m : Module) where
  relocate_function-apply_all :
      (body : ℕ) (rs : List Relocation) (bytes : ℕ → ℕ)
      → relocate_function l m body rs bytes
        ≡ (function_patches l m body rs >>= λ ps. some (apply_all ps bytes))
  unfolding relocate_function function_patches
  relocate_function-apply_all body [] bytes = refl
  relocate_function-apply_all body (r ∷ rs) bytes = elim (Option-cases (patch_of l m body r)) [
    | inl e ↦ rw e refl
    | inr (p, e) ↦ elim (Option-cases (function_patches l m body rs)) [
      | inl f ↦ rw (e, f) (relocate_function-apply_all body rs (apply_patch p bytes) ∙ rw f refl)
      | inr (ps, f) ↦
          rw (e, f)
            (relocate_function-apply_all body rs (apply_patch p bytes)
              ∙ rw (f, apply_all-cons_patch p ps bytes) refl)
    ]
  ]

  relocate_at-apply_all :
      (i : ℕ) (rs : List Relocation) (bytes : ℕ → ℕ)
      → relocate_at l m i rs bytes ≡ (patches_at l m i rs >>= λ ps. some (apply_all ps bytes))
  relocate_at-apply_all i [] bytes = refl
  relocate_at-apply_all i (r ∷ rs) bytes = elim (Option-cases (get_elem? l.allocated_functions i)) [
    | inl e ↦ rw e refl
    | inr (body, e) ↦ rw e (relocate_function-apply_all body (r ∷ rs) bytes)
  ]

  -- Relocation computes the patches, with no panic in between, and then applies them in order.
  relocate-apply_all :
      (i : ℕ) (relocations : List (List Relocation)) (bytes : ℕ → ℕ)
      → relocate l m i relocations bytes
        ≡ (all_patches l m i relocations >>= λ ps. some (apply_all ps bytes))
  unfolding relocate all_patches
  relocate-apply_all i [] bytes = refl
  relocate-apply_all i (rs ∷ rest) bytes = elim (Option-cases (patches_at l m i rs)) [
    | inl e ↦ rw (relocate_at-apply_all i rs bytes, e) refl
    | inr (ps, e) ↦ elim (Option-cases (all_patches l m (suc i) rest)) [
      | inl f ↦
          rw (relocate_at-apply_all i rs bytes, e, f)
            (relocate-apply_all (suc i) rest (apply_all ps bytes) ∙ rw f refl)
      | inr (qs, f) ↦
          rw (relocate_at-apply_all i rs bytes, e, f)
            (relocate-apply_all (suc i) rest (apply_all ps bytes)
              ∙ rw (f, apply_all-append ps qs bytes) refl)
    ]
  ]

module _ (l : Linkage) (m : Module) where
  -- One relocation has the described patch.
  PlacesOne-patch_of :
      (body a : ℕ) (r : Relocation) (kind : Reloc) (qs ps : List Patch)
      → PlacesOne l m body r kind a qs ps
      → (p : Option Patch) × (patch_for l m body r kind a ≡ some p) × (cons_patch p qs ≡ ps)
  unfolding checked_add_usize
  PlacesOne-patch_of body a r abs8 qs ps (h, e) = (
    some (record { site = (body + r.offset) % usize_mod; value = a + r.addend }),
    rw (lt→ltb (a + r.addend) usize_mod h) refl,
    sym e,
  )
  PlacesOne-patch_of body a r x86_pc_rel_rodata4 qs ps e = (none, refl, sym e)
  PlacesOne-patch_of body a r (other_reloc n) qs ps e = absurd e

  PlacesOf-function_patches :
      (body : ℕ) (rs : List Relocation) (ps : List Patch)
      → PlacesOf l m body rs ps
      → function_patches l m body rs ≡ some ps
  unfolding function_patches patch_of
  PlacesOf-function_patches body [] ps e = ap some (sym e)
  PlacesOf-function_patches body (r ∷ rs) ps (a, qs, address, rest, one) =
      let (p, e, f) = PlacesOne-patch_of body a r r.reloc qs ps one in
      rw
        (
          patch_of,
          HasAddress-target_address l m r.reloc_target a address,
          e,
          PlacesOf-function_patches body rs qs rest,
        )
        (ap some f)

  Places-all_patches :
      (i : ℕ) (relocations : List (List Relocation)) (ps : List Patch)
      → Places l m i relocations ps
      → all_patches l m i relocations ≡ some ps
  unfolding all_patches
  Places-all_patches i [] ps e = ap some (sym e)
  Places-all_patches i ([] ∷ rest) ps e = rw (Places-all_patches (suc i) rest ps e) refl
  Places-all_patches i ((r ∷ rs) ∷ rest) ps (body, own, others, at, one, more, e) =
      rw
        (
          at,
          PlacesOf-function_patches body (r ∷ rs) own one,
          Places-all_patches (suc i) rest others more,
        )
        (ap some (sym e))

-- Let `ps` be what the relocations are to write: for each absolute relocation, in order, the sum of
-- the target's address and the addend, a 64-bit word, at its offset in the body of its function. The
-- target is a function that the module defines, a jump table in one, or a function of the runtime. A
-- relocation of read-only data writes nothing, and there is none of another kind. If no two of these
-- 8-byte places overlap, relocation does not panic; each place then holds its word, with the low
-- byte first, and all other bytes are as before.
pub relocate-Patched :
    (l : Linkage) (m : Module) (relocations : List (List Relocation)) (bytes : ℕ → ℕ)
    (ps : List Patch)
    → Places l m 0 relocations ps
    → Apart ps
    → (after : ℕ → ℕ) × (relocate l m 0 relocations bytes ≡ some after)
      × ((j k : ℕ) (p : Patch)
          → get_elem? ps j ≡ some p
          → k < 8
          → after (p.site + k) ≡ byte_of p.value k)
      × ((a : ℕ) → Outside ps a → after a ≡ bytes a)
relocate-Patched l m relocations bytes ps places apart = (
  apply_all ps bytes,
  relocate-apply_all l m 0 relocations bytes
      ∙ rw (Places-all_patches l m 0 relocations ps places) refl,
  (λ j k p at h. apply_all-inside ps bytes j k p apart at h),
  (λ a h. apply_all-Outside ps bytes a h),
)

-- A negative addend, `-k`, of an absolute relocation is a panic whenever its target lies at `k` or
-- above: as a 64-bit word it is `2 ^ 64 - k`, and the checked sum overflows.
pub negative_addend_panics :
    (l : Linkage) (m : Module) (body target k : ℕ) (r : Relocation)
    → r.reloc ≡ abs8
    → target_address l m r.reloc_target ≡ some target
    → 0 < k
    → k ≤ target
    → k < usize_mod
    → r.addend ≡ usize_mod - k
    → patch_of l m body r ≡ none
unfolding patch_of checked_add_usize
negative_addend_panics l m body target k r abs at h g b e =
    rw (at, abs, ltb-eq-false (target + r.addend) usize_mod (omega (arith, e))) refl
