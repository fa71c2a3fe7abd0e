-- ===== src/Environ/VmOffsets/Alignment.antt =====
-- wasmtime-environ/src/vmoffsets.rs: which offsets of the layout are aligned.
use wasmtime.Base.{
  ℕ, ◌+◌, ◌*◌, ◌-◌, ◌%◌, ◌≤◌, ◌<◌, ◌≡◌, some, arith, u32_mod, checked_array, checked_mul-some,
  checked_add-some, round_up_ge, round_up_le, round_up_mod,
}
use wasmtime.Environ.VmOffsets
use wasmtime.Environ.VmOffsets.{VmOffsets, align}

-- For a positive width, and where `offset + (width - 1)` is below 2 ^ 32, `align` gives a multiple of
-- the width that is not below the offset, and no more than any multiple `k * width` that is not.
pub align_least :
    (offset width k : ℕ)
    → 0 < width
    → offset + (width - 1) < u32_mod
    → offset ≤ k * width
    → (offset ≤ align offset width)
      × (align offset width % width ≡ 0)
      × (align offset width ≤ k * width)
unfolding align
align_least offset width k pos h le =
    let unwrapped : (offset + (width - 1)) % u32_mod ≡ offset + (width - 1) = omega arith in
    rw unwrapped (
      round_up_ge offset width pos,
      round_up_mod offset width pos,
      round_up_le offset width pos k le,
    )

-- `align` to 16 on the last 15 values of a `u32`: the sum wraps.
align_wraps : (n : ℕ) → u32_mod ≤ n + 15 → n < u32_mod → align n 16 ≡ 0
unfolding align
align_wraps n h l = omega arith

module _ (o : VmOffsets) where
  -- Where no panic is raised, the array of globals begins at a multiple of 16.
  pub globals_begin_aligned : (b : ℕ) → VmOffsets.vmctx_globals_begin o ≡ some b → b % 16 ≡ 0
  unfolding VmOffsets.vmctx_globals_begin align
  globals_begin_aligned b h = ground arith

  -- With pointers of 8 bytes and an odd number of signatures, the function imports, which hold
  -- pointers, begin 4 bytes off a multiple of 8; with an even number they begin at one.
  pub function_imports_begin_aligned :
      (b : ℕ)
      → o.pointer_size ≡ 8
      → VmOffsets.vmctx_imported_functions_begin o ≡ some b
      → b % 8 ≡ 4 * (o.num_signature_ids % 2)
  unfolding VmOffsets.vmctx_imported_functions_begin VmOffsets.vmctx_signature_ids_begin
  function_imports_begin_aligned b p h = omega (arith, checked_array 0 o.num_signature_ids 4 h)

  -- Where the defined memories end in the last 15 of the `u32` offsets, the globals are placed at
  -- the offset 0, on top of the signatures, and no panic is raised.
  pub globals_begin_wraps :
      (b : ℕ)
      → VmOffsets.vmctx_memories_begin o ≡ some b
      → u32_mod ≤ b + o.num_defined_memories * VmOffsets.size_of_vmmemory_definition o + 15
      → b + o.num_defined_memories * VmOffsets.size_of_vmmemory_definition o < u32_mod
      → VmOffsets.vmctx_globals_begin o ≡ some 0
  unfolding VmOffsets.vmctx_globals_begin
  globals_begin_wraps b e h l =
      let n = o.num_defined_memories * VmOffsets.size_of_vmmemory_definition o in
      rw (
        e,
        checked_mul-some o.num_defined_memories (VmOffsets.size_of_vmmemory_definition o)
            (omega arith),
        checked_add-some b n l,
        align_wraps (b + n) h l,
      )
