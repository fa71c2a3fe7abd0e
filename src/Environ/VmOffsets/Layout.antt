-- ===== src/Environ/VmOffsets/Layout.antt =====
-- wasmtime-environ/src/vmoffsets.rs: the arrays of a `VMContext` against a plain description of
-- the layout, in unbounded numbers.
use wasmtime.Base.{ℕ, ◌+◌, ◌*◌, ◌/◌, ◌≤◌, ◌<◌, ◌≡◌, refl, Option, arith, u32_mod}
use wasmtime.Environ.VmOffsets
use wasmtime.Environ.VmOffsets.{VmOffsets, align, element}
use wasmtime.Environ.VmOffsets.Fields

-- The arrays, in their order.
pub data Region : Type 0 where
  signature_ids imported_functions imported_tables imported_memories imported_globals : Region
  tables memories globals builtin_functions : Region

module _ (o : VmOffsets) where
  -- How many elements an array has, and their size.
  abbrev pub count : Region → ℕ
  count signature_ids = o.num_signature_ids
  count imported_functions = o.num_imported_functions
  count imported_tables = o.num_imported_tables
  count imported_memories = o.num_imported_memories
  count imported_globals = o.num_imported_globals
  count tables = o.num_defined_tables
  count memories = o.num_defined_memories
  count globals = o.num_defined_globals
  count builtin_functions = VmOffsets.builtin_functions_total_number

  abbrev pub size : Region → ℕ
  size signature_ids = VmOffsets.size_of_vmshared_signature_index o
  size imported_functions = VmOffsets.size_of_vmfunction_import o
  size imported_tables = VmOffsets.size_of_vmtable_import o
  size imported_memories = VmOffsets.size_of_vmmemory_import o
  size imported_globals = VmOffsets.size_of_vmglobal_import o
  size tables = VmOffsets.size_of_vmtable_definition o
  size memories = VmOffsets.size_of_vmmemory_definition o
  size globals = VmOffsets.size_of_vmglobal_definition o
  size builtin_functions = o.pointer_size

  -- The code's functions, by array.
  abbrev pub begin : Region → Option ℕ
  begin signature_ids = VmOffsets.vmctx_signature_ids_begin o
  begin imported_functions = VmOffsets.vmctx_imported_functions_begin o
  begin imported_tables = VmOffsets.vmctx_imported_tables_begin o
  begin imported_memories = VmOffsets.vmctx_imported_memories_begin o
  begin imported_globals = VmOffsets.vmctx_imported_globals_begin o
  begin tables = VmOffsets.vmctx_tables_begin o
  begin memories = VmOffsets.vmctx_memories_begin o
  begin globals = VmOffsets.vmctx_globals_begin o
  begin builtin_functions = VmOffsets.vmctx_builtin_functions_begin o

  abbrev pub slot : Region → ℕ → Option ℕ
  slot signature_ids = Fields.vmctx_vmshared_signature_id o
  slot imported_functions = Fields.vmctx_vmfunction_import o
  slot imported_tables = Fields.vmctx_vmtable_import o
  slot imported_memories = Fields.vmctx_vmmemory_import o
  slot imported_globals = Fields.vmctx_vmglobal_import o
  slot tables = Fields.vmctx_vmtable_definition o
  slot memories = Fields.vmctx_vmmemory_definition o
  slot globals = Fields.vmctx_vmglobal_definition o
  slot builtin_functions = Fields.vmctx_builtin_function o

  unfoldable pub extent : Region → ℕ
  extent r = count r * size r

-- The least multiple of 16 that is not below `n`.
abbrev pub round_up_16 : ℕ → ℕ
round_up_16 n = (n + 15) / 16 * 16

-- Each array stands behind the one before it; the globals are rounded up to 16 bytes.
unfoldable pub start : VmOffsets → Region → ℕ
start o signature_ids = 0
start o imported_functions = extent o signature_ids
start o imported_tables = extent o signature_ids + extent o imported_functions
start o imported_memories =
    extent o signature_ids + extent o imported_functions + extent o imported_tables
start o imported_globals =
    extent o signature_ids
    + extent o imported_functions
    + extent o imported_tables
    + extent o imported_memories
start o tables =
    extent o signature_ids
    + extent o imported_functions
    + extent o imported_tables
    + extent o imported_memories
    + extent o imported_globals
start o memories =
    extent o signature_ids
    + extent o imported_functions
    + extent o imported_tables
    + extent o imported_memories
    + extent o imported_globals
    + extent o tables
start o globals = round_up_16 (
    extent o signature_ids
    + extent o imported_functions
    + extent o imported_tables
    + extent o imported_memories
    + extent o imported_globals
    + extent o tables
    + extent o memories)
start o builtin_functions =
    round_up_16 (
      extent o signature_ids
      + extent o imported_functions
      + extent o imported_tables
      + extent o imported_memories
      + extent o imported_globals
      + extent o tables
      + extent o memories)
    + extent o globals

unfoldable pub total : VmOffsets → ℕ
unfolding start
total o = start o builtin_functions + extent o builtin_functions

-- The whole context is addressable by `u32` offsets.
abbrev pub Fits : VmOffsets → Type 0
Fits o = total o < u32_mod

-- Every array ends within the context.
pub end-le-total : (o : VmOffsets) (r : Region) → start o r + extent o r ≤ total o
unfolding total start
end-le-total o signature_ids = omega arith
end-le-total o imported_functions = omega arith
end-le-total o imported_tables = omega arith
end-le-total o imported_memories = omega arith
end-le-total o imported_globals = omega arith
end-le-total o tables = omega arith
end-le-total o memories = omega arith
end-le-total o globals = omega arith
end-le-total o builtin_functions = omega arith

pub align_16 : (n : ℕ) → n + 15 < u32_mod → align n 16 ≡ round_up_16 n
unfolding align
align_16 n h = omega arith

-- An array's extent, for the tactics.
pub extent_lem : (o : VmOffsets) (r : Region) → count o r * size o r ≡ extent o r
unfolding extent
extent_lem o r = refl

abbrev pub rank : Region → ℕ
rank signature_ids = 0
rank imported_functions = 1
rank imported_tables = 2
rank imported_memories = 3
rank imported_globals = 4
rank tables = 5
rank memories = 6
rank globals = 7
rank builtin_functions = 8

-- Every array ends where a later one starts, or before.
pub end-le-start :
    (o : VmOffsets) (r r' : Region) → rank r < rank r' → start o r + extent o r ≤ start o r'
unfolding start
end-le-start o signature_ids signature_ids h = omega arith
end-le-start o imported_functions signature_ids h = omega arith
end-le-start o imported_tables signature_ids h = omega arith
end-le-start o imported_memories signature_ids h = omega arith
end-le-start o imported_globals signature_ids h = omega arith
end-le-start o tables signature_ids h = omega arith
end-le-start o memories signature_ids h = omega arith
end-le-start o globals signature_ids h = omega arith
end-le-start o builtin_functions signature_ids h = omega arith
end-le-start o _ _ h = omega arith

pub rank-injective : (r r' : Region) → rank r ≡ rank r' → r ≡ r'
rank-injective signature_ids signature_ids h = ground arith
rank-injective imported_functions signature_ids h = ground arith
rank-injective imported_tables signature_ids h = ground arith
rank-injective imported_memories signature_ids h = ground arith
rank-injective imported_globals signature_ids h = ground arith
rank-injective tables signature_ids h = ground arith
rank-injective memories signature_ids h = ground arith
rank-injective globals signature_ids h = ground arith
rank-injective builtin_functions signature_ids h = ground arith
rank-injective _ _ h = ground arith
