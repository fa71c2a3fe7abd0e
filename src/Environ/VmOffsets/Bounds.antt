-- ===== src/Environ/VmOffsets/Bounds.antt =====
-- wasmtime-environ/src/vmoffsets.rs: where the context fits in `u32` offsets, no function of the
-- layout panics, and each returns what the description says.
use wasmtime.Base.{
  ℕ, ◌+◌, ◌*◌, ◌<◌, ◌≡◌, refl, some, arith, u32_mod, ◌>>=◌, checked_add, checked_mul,
  checked_array_total, checked_add-some, checked_mul-some,
}
use wasmtime.Environ.VmOffsets
use wasmtime.Environ.VmOffsets.{VmOffsets, align, element}
use wasmtime.Environ.VmOffsets.Layout.{
  Region, signature_ids, imported_functions, imported_tables, imported_memories, imported_globals,
  tables, memories, globals, builtin_functions, count, size, begin, extent, start, total, Fits,
  round_up_16, align_16, end-le-total, extent_lem,
}

-- A `begin` that adds one array to the `begin` before it.
begin_step :
    (x n s y : ℕ)
    → x + n * s ≡ y
    → y < u32_mod
    → (checked_mul n s >>= λ z. checked_add x z) ≡ some y
begin_step x n s y e h = rw (checked_array_total x n s (omega arith), e)

-- The `begin` of the globals also rounds up.
globals_step :
    (x n s y : ℕ)
    → x + n * s ≡ y
    → y + 15 < u32_mod
    → (checked_mul n s >>= λ z. checked_add x z >>= λ w. some (align w 16)) ≡ some (round_up_16 y)
globals_step x n s y e h =
    rw (
      checked_mul-some n s (omega arith),
      checked_add-some x (n * s) (omega arith),
      e,
      align_16 y h,
    )

-- Where the context fits, each `begin` function returns what the description says.
module _ (o : VmOffsets) (fits : Fits o) where
  begin_signature_ids : begin o signature_ids ≡ some (start o signature_ids)
  unfolding VmOffsets.vmctx_signature_ids_begin start
  begin_signature_ids = refl

  begin_imported_functions : begin o imported_functions ≡ some (start o imported_functions)
  unfolding VmOffsets.vmctx_imported_functions_begin start
  begin_imported_functions = rw begin_signature_ids (
      begin_step (start o signature_ids) (count o signature_ids) (size o signature_ids)
        (start o imported_functions) (omega (arith, extent_lem o signature_ids))
        (omega (arith, end-le-total o imported_functions)))

  begin_imported_tables : begin o imported_tables ≡ some (start o imported_tables)
  unfolding VmOffsets.vmctx_imported_tables_begin start
  begin_imported_tables = rw begin_imported_functions (
      begin_step (start o imported_functions) (count o imported_functions)
        (size o imported_functions) (start o imported_tables)
        (omega (arith, extent_lem o imported_functions))
        (omega (arith, end-le-total o imported_tables)))

  begin_imported_memories : begin o imported_memories ≡ some (start o imported_memories)
  unfolding VmOffsets.vmctx_imported_memories_begin start
  begin_imported_memories = rw begin_imported_tables (
      begin_step (start o imported_tables) (count o imported_tables) (size o imported_tables)
        (start o imported_memories) (omega (arith, extent_lem o imported_tables))
        (omega (arith, end-le-total o imported_memories)))

  begin_imported_globals : begin o imported_globals ≡ some (start o imported_globals)
  unfolding VmOffsets.vmctx_imported_globals_begin start
  begin_imported_globals = rw begin_imported_memories (
      begin_step (start o imported_memories) (count o imported_memories) (size o imported_memories)
        (start o imported_globals) (omega (arith, extent_lem o imported_memories))
        (omega (arith, end-le-total o imported_globals)))

  begin_tables : begin o tables ≡ some (start o tables)
  unfolding VmOffsets.vmctx_tables_begin start
  begin_tables = rw begin_imported_globals (
      begin_step (start o imported_globals) (count o imported_globals) (size o imported_globals)
        (start o tables) (omega (arith, extent_lem o imported_globals))
        (omega (arith, end-le-total o tables)))

  begin_memories : begin o memories ≡ some (start o memories)
  unfolding VmOffsets.vmctx_memories_begin start
  begin_memories = rw begin_tables (
      begin_step (start o tables) (count o tables) (size o tables) (start o memories)
        (omega (arith, extent_lem o tables)) (omega (arith, end-le-total o memories)))

  begin_globals : begin o globals ≡ some (start o globals)
  unfolding VmOffsets.vmctx_globals_begin start
  begin_globals = rw begin_memories (
      globals_step (start o memories) (count o memories) (size o memories)
        (start o memories + extent o memories) (omega (arith, extent_lem o memories))
        (omega (arith, end-le-total o globals)))

  begin_builtin_functions : begin o builtin_functions ≡ some (start o builtin_functions)
  unfolding VmOffsets.vmctx_builtin_functions_begin start
  begin_builtin_functions = rw begin_globals (
      begin_step (start o globals) (count o globals) (size o globals) (start o builtin_functions)
        (omega (arith, extent_lem o globals)) (omega (arith, end-le-total o builtin_functions)))

  pub begin-eq-start : (r : Region) → begin o r ≡ some (start o r)
  begin-eq-start signature_ids = begin_signature_ids
  begin-eq-start imported_functions = begin_imported_functions
  begin-eq-start imported_tables = begin_imported_tables
  begin-eq-start imported_memories = begin_imported_memories
  begin-eq-start imported_globals = begin_imported_globals
  begin-eq-start tables = begin_tables
  begin-eq-start memories = begin_memories
  begin-eq-start globals = begin_globals
  begin-eq-start builtin_functions = begin_builtin_functions

  pub size_of_vmctx-eq-total : VmOffsets.size_of_vmctx o ≡ some (total o)
  unfolding VmOffsets.size_of_vmctx total
  size_of_vmctx-eq-total = rw begin_builtin_functions (
      begin_step (start o builtin_functions) (count o builtin_functions) (size o builtin_functions)
        (total o) (omega (arith, extent_lem o builtin_functions)) fits)
