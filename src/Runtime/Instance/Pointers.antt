-- ===== src/Runtime/Instance/Pointers.antt =====
-- wasmtime-runtime/src/instance.rs: from a pointer into the context back to the index.
use wasmtime.Base.{
  ℕ, ◌+◌, ◌*◌, ◌/◌, ◌%◌, ◌≤◌, ◌<◌, ◌≡◌, refl, ap, ◌∙◌, some, length, arith, lt→ltb, u32_mod,
}
use wasmtime.Environ.VmOffsets.{VmOffsets}
use wasmtime.Environ.VmOffsets.Layout.{
  Region, tables, memories, count, size, slot, start, Fits, end-le-total, extent_lem,
}
use wasmtime.Environ.VmOffsets.Bounds.{begin-eq-start}
use wasmtime.Environ.VmOffsets.Slots.{slot-eq, mul-le-mul}
use wasmtime.Runtime.Memory.{sub_usize}
use wasmtime.Runtime.VmContext.{size_of}
use wasmtime.Runtime.VmContext.Sizes.{size_of-eq-size}
use wasmtime.Runtime.Instance.{Instance, table_index, memory_index}

-- The offset of a slot, in numbers, for a host of eight bytes to a pointer.
pub slot_offset :
    (o : VmOffsets) (r : Region) (i at : ℕ)
    → Fits o
    → o.pointer_size ≡ 8
    → i < count o r
    → slot o r i ≡ some at
    → (at ≡ start o r + i * size_of r) × (at < u32_mod)
slot_offset o r i at f eight l e =
    let w : size o r ≡ size_of r = size_of-eq-size o r eight in
    let same : at ≡ start o r + i * size o r = cc (slot-eq o f r i l) in
    (
      same ∙ ap (λ x. start o r + i * x) w,
      omega (arith, same, end-le-total o r, extent_lem o r, mul-le-mul i (count o r) (size o r) l),
    )

-- On a 64-bit host, where the context fits and has slots for all memories, `memory_index` of the
-- offset that the slot function returns for a memory's index is that index.
pub memory_index-slot :
    (inst : Instance) (i at : ℕ)
    → Fits inst.offsets
    → inst.offsets.pointer_size ≡ 8
    → length inst.memories ≤ count inst.offsets memories
    → i < length inst.memories
    → slot inst.offsets memories i ≡ some at
    → memory_index inst at ≡ some i
unfolding memory_index
memory_index-slot inst i at f eight room l e =
    let (same, small) = slot_offset inst.offsets memories i at f eight (omega arith) e in
    let index : sub_usize at (start inst.offsets memories) / 16 % u32_mod ≡ i = omega arith in
    rw
      (
        memory_index,
        begin-eq-start inst.offsets f memories,
        index,
        lt→ltb i (length inst.memories) l,
      )
      refl

-- The same for tables.
pub table_index-slot :
    (inst : Instance) (i at : ℕ)
    → Fits inst.offsets
    → inst.offsets.pointer_size ≡ 8
    → length inst.tables ≤ count inst.offsets tables
    → i < length inst.tables
    → slot inst.offsets tables i ≡ some at
    → table_index inst at ≡ some i
unfolding table_index
table_index-slot inst i at f eight room l e =
    let (same, small) = slot_offset inst.offsets tables i at f eight (omega arith) e in
    let index : sub_usize at (start inst.offsets tables) / 16 % u32_mod ≡ i = omega arith in
    rw (table_index, begin-eq-start inst.offsets f tables, index, lt→ltb i (length inst.tables) l)
      refl
