-- ===== src/Runtime/Instance/TableGrowth.antt =====
-- wasmtime-runtime/src/instance.rs: growing a table keeps what compiled code reads in step with it.
use wasmtime.Base.{
  subst, ℕ, ◌<◌, ◌≡◌, inl, inr, sym, ap, ◌∙◌, Option, some, length, length-set, get_elem?,
  get_elem?-lt, get_elem?-set_self, get_elem?-set_ne, set, arith, ℕ_discrete, Option-cases,
}
use wasmtime.Environ.VmOffsets.Layout.{tables, memories, slot, rank}
use wasmtime.Runtime.Table
use wasmtime.Runtime.Table.{Table, vmtable, VmTableDefinition}
use wasmtime.Runtime.VmContext
use wasmtime.Runtime.VmContext.{
  Cell, VmContext, write, size_of, memory_definition, table_definition,
}
use wasmtime.Runtime.VmContext.Slots.{write_self}
use wasmtime.Runtime.Instance.{Instance, table_grow}
use wasmtime.Runtime.Instance.Growth.{
  Synced, slot_apart, some_injective, table_at, memory_untouched, table_untouched,
}

-- A `table_grow` that returns is a growth of the table at the index and a write of its slot.
pub table_grow-steps :
    (address : ℕ) (inst inst' : Instance) (index delta : ℕ) (result : Option ℕ)
    → table_grow address inst index delta ≡ some (result, inst')
    → (t : Table) × (t' : Table) × (d : VmTableDefinition) × (at : ℕ) × (get_elem? inst.tables index
        ≡ some t)
      × (Table.grow address t delta ≡ some (result, t'))
      × (vmtable t' ≡ some d)
      × (slot inst.offsets tables index ≡ some at)
      × (inst' ≡ record inst {
        tables = set inst.tables index t';
        vmctx = write inst.vmctx at (table_definition d);
      })
unfolding table_grow
table_grow-steps address inst inst' index delta result e =
    elim (Option-cases (get_elem? inst.tables index)) [
      | inl n ↦ absurd (ground arith)
      | inr (t, p) ↦ elim (Option-cases (Table.grow address t delta)) [
        | inl n ↦ absurd (ground arith)
        | inr ((r, t'), q) ↦ elim (Option-cases (vmtable t')) [
          | inl n ↦ absurd (ground arith)
          | inr (d, y) ↦ elim (Option-cases (slot inst.offsets tables index)) [
            | inl n ↦ absurd (ground arith)
            | inr (at, w) ↦ (t, t', d, at, p, ground arith, y, w, ground arith)
          ]
        ]
      ]
    ]

-- In an instance of a 64-bit host whose context fits and has at every memory's and table's slot its
-- address and length, a `table_grow` that does not panic, successful or not, leaves it so.
pub table_grow-Synced :
    (address : ℕ) (inst inst' : Instance) (index delta : ℕ) (result : Option ℕ)
    → Synced inst
    → table_grow address inst index delta ≡ some (result, inst')
    → Synced inst'
table_grow-Synced address inst inst' index delta result s e =
    let (t, t', d, at, p, q, y, w, shape) =
      table_grow-steps address inst inst' index delta result e in
    let known : index < length inst.tables = get_elem?-lt inst.tables index t p in
    subst Synced (sym shape) (record {
      fits = s.fits;
      eight = s.eight;
      memory_slots = s.memory_slots;
      table_slots = omega (arith, length-set inst.tables index t', s.table_slots);
      table_read = λ k n r. elim (ℕ_discrete index k) [
        | yes same ↦
            table_at inst.offsets (write inst.vmctx at (table_definition d)) k at
              (ap (slot inst.offsets tables) (sym same) ∙ w)
            ∙ ap VmContext.as_table_definition (write_self inst.vmctx at (table_definition d))
            ∙ sym y
            ∙ ap vmtable (
                some_injective (
                  sym (get_elem?-set_self inst.tables index t' known)
                  ∙ ap (get_elem? (set inst.tables index t')) same
                  ∙ r))
        | no other ↦
            let old : get_elem? inst.tables k ≡ some n =
              sym (get_elem?-set_ne inst.tables t' other) ∙ r in
            let (a, ea, ne) =
              slot_apart inst.offsets tables tables k index at s.fits s.eight
                (omega (arith, get_elem?-lt inst.tables k n old, s.table_slots))
                (omega (arith, s.table_slots)) (inr (λ x. other (sym x))) w in
            table_untouched inst.offsets inst.vmctx k a at (table_definition d) ne ea
            ∙ s.table_read k n old
      ];
      memory_read = λ k m r.
          let (a, ea, ne) =
            slot_apart inst.offsets memories tables k index at s.fits s.eight
              (omega (arith, get_elem?-lt inst.memories k m r, s.memory_slots))
              (omega (arith, s.table_slots)) (inl (λ x. omega (arith, ap rank x))) w in
          memory_untouched inst.offsets inst.vmctx k a at (table_definition d) ne ea
          ∙ s.memory_read k m r;
    })
