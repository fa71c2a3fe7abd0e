-- ===== src/Runtime/Instance/Instantiate/Fresh.antt =====
-- wasmtime-runtime/src/instance.rs: a new instance is in step with its context.
use wasmtime.Base.{
  subst, ℕ, ◌≡◌, ◌≤◌, refl, ◌∙◌, sym, some, length, length-map, map, get_elem?, get_elem?-map,
  arith,
}
use wasmtime.Base.Outcomes.{ok, unwrap, >>=-eq-ok}
use wasmtime.Environ.Module.Indices.{Counts, new_lem}
use wasmtime.Environ.VmOffsets.Layout.{
  Region, signature_ids, imported_functions, imported_tables, imported_memories, imported_globals,
  tables, memories, globals, builtin_functions, count, slot, Fits,
}
use wasmtime.Runtime.Mmap.{with_at_least}
use wasmtime.Runtime.Memory.{LinearMemory, vmmemory}
use wasmtime.Runtime.Table.{Table, vmtable}
use wasmtime.Runtime.VmContext
use wasmtime.Runtime.VmContext.{
  Imports, VmContext, Arrays, contents, Cell, fill_context, unwritten, function_import,
  table_import, memory_import, global_import, table_definition, memory_definition,
}
use wasmtime.Runtime.VmContext.Slots.{fill_context-all}
use wasmtime.Runtime.Instance.{Instance}
use wasmtime.Runtime.Instance.Growth.{Synced, some_injective}
use wasmtime.Runtime.Instance.Instantiate.{
  fill, instance_of, Made, make, Parts, Machine, resource, map_err, arrays_of, instance_bytes,
  new_instance,
}
use wasmtime.Runtime.Instance.Instantiate.Making.{
  IsMade, GivenRoom, unwrap-eq-ok, ok_injective, length-vmtables, get_elem?-vmtables, make-IsMade,
}

module _ (machine : Machine) (parts : Parts) (made : Made) (room : GivenRoom machine parts)
    (is_made : IsMade parts.module_ made) where
  abbrev arrays : Arrays
  arrays = arrays_of machine parts made.vmctx_tables made.memories made.vmctx_globals

  made-Counts : Counts parts.module_ made.offsets
  made-Counts = new_lem parts.module_ made.offsets is_made.counts

  room_of : (q : Region) → length (contents arrays q) ≤ count made.offsets q
  room_of signature_ids =
      omega (
        arith,
        made-Counts,
        room.signatures,
        length-map parts.vmshared_signatures Cell.signature_id,
      )
  room_of imported_functions =
      omega (arith, made-Counts, room.functions, length-map parts.imports.functions function_import)
  room_of imported_tables =
      omega (arith, made-Counts, room.tables, length-map parts.imports.tables table_import)
  room_of imported_memories =
      omega (arith, made-Counts, room.memories, length-map parts.imports.memories memory_import)
  room_of imported_globals =
      omega (arith, made-Counts, room.globals, length-map parts.imports.globals global_import)
  room_of tables = omega (
    arith,
    made-Counts,
    is_made.table_room,
    length-vmtables made.tables made.vmctx_tables is_made.definitions,
    length-map made.vmctx_tables table_definition,
  )
  room_of memories = omega (
    arith,
    made-Counts,
    is_made.memory_room,
    length-map (map vmmemory made.memories) memory_definition,
    length-map made.memories vmmemory,
  )
  room_of globals = omega (
    arith,
    made-Counts,
    is_made.global_room,
    length-map made.vmctx_globals Cell.global_definition,
  )
  room_of builtin_functions =
      omega (arith, room.builtins, length-map machine.builtins Cell.builtin_function)

  module _ (v : VmContext) (fits : Fits made.offsets)
      (filled : fill_context made.offsets arrays (λ i. unwritten) ≡ some v) where
    eight : made.offsets.pointer_size ≡ 8
    eight = (made-Counts).0

    cell_at :
        (r : Region) (i : ℕ) (c : Cell)
        → get_elem? (contents arrays r) i ≡ some c
        → (at : ℕ) × (slot made.offsets r i ≡ some at) × (v at ≡ c)
    cell_at r i c e =
        let (w, same, cells) =
          fill_context-all made.offsets arrays (λ i. unwritten) fits eight room_of in
        subst (λ (x : VmContext). (at : ℕ) × (slot made.offsets r i ≡ some at) × (x at ≡ c))
          (some_injective (sym same ∙ filled)) (cells r i c e)

    memory_read :
        (k : ℕ) (m : LinearMemory)
        → get_elem? made.memories k ≡ some m
        → VmContext.memory made.offsets v k ≡ some (vmmemory m)
    memory_read k m e =
        let c = cell_at memories k (memory_definition (vmmemory m)) (
          get_elem?-map (map vmmemory made.memories) memory_definition k (vmmemory m)
            (get_elem?-map made.memories vmmemory k m e)) in
        rw (c.1, c.2) refl

    table_read :
        (k : ℕ) (t : Table)
        → get_elem? made.tables k ≡ some t
        → VmContext.table made.offsets v k ≡ vmtable t
    table_read k t e =
        let d = get_elem?-vmtables made.tables made.vmctx_tables k t is_made.definitions e in
        let c =
          cell_at tables k (table_definition d.0)
            (get_elem?-map made.vmctx_tables table_definition k d.0 d.2) in
        rw (c.1, c.2) (sym d.1)

    instance_of-Synced : (id : ℕ) → Synced (instance_of parts made id v)
    instance_of-Synced id = record {
      fits = fits;
      eight = eight;
      memory_slots = omega (arith, made-Counts, is_made.memory_room);
      table_slots = omega (arith, made-Counts, is_made.table_room);
      memory_read = memory_read;
      table_read = table_read;
    }

  fill-Synced :
      (inst : Instance) → fill machine parts made ≡ ok inst → Fits inst.offsets → Synced inst
  fill-Synced inst e fits =
      let a = >>=-eq-ok (unwrap (instance_bytes machine made.offsets)) _ e in
      let b = >>=-eq-ok (map_err resource (with_at_least machine.host a.0)) _ a.2 in
      let c = >>=-eq-ok (unwrap (fill_context made.offsets arrays (λ i. unwritten))) _ b.2 in
      let same : instance_of parts made b.0.ptr c.0 ≡ inst = ok_injective c.2 in
      subst Synced same (
        instance_of-Synced c.0 (subst (λ (x : Instance). Fits x.offsets) (sym same) fits)
          (unwrap-eq-ok _ c.1) b.0.ptr)

-- On a 64-bit host, if the creation of an instance succeeds, its context fits `u32` offsets, and the
-- arrays it is given have no more elements than the module has, then the instance is in step with
-- its context: compiled code reads at every memory's and table's slot the address and the size that
-- the memory or the table has.
pub new_instance-Synced :
    (machine : Machine) (parts : Parts) (inst : Instance)
    → GivenRoom machine parts
    → new_instance machine parts ≡ ok inst
    → Fits inst.offsets
    → Synced inst
unfolding new_instance
new_instance-Synced machine parts inst room e fits =
    let (made, p, q) = >>=-eq-ok (make machine parts.module_) (fill machine parts) e in
    fill-Synced machine parts made room (make-IsMade machine parts.module_ made p) inst q fits
