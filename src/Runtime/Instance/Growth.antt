-- ===== src/Runtime/Instance/Growth.antt =====
-- wasmtime-runtime/src/instance.rs: growing a memory or a table keeps what compiled code reads in
-- step with it.
use wasmtime.Base.{
  subst, ℕ, ◌+◌, ◌*◌, ◌≤◌, ◌<◌, ◌≡◌, ◌≢◌, ◌⊎◌, inl, inr, sym, ap, ◌∙◌, Option, some, length,
  length-set, get_elem?, get_elem?-lt, get_elem?-set_self, get_elem?-set_ne, set, arith, ℕ_discrete,
  ◌>>=◌, Option-cases,
}
use wasmtime.Environ.VmOffsets.{VmOffsets}
use wasmtime.Environ.VmOffsets.Layout.{
  Region, tables, memories, count, size, slot, start, Fits, rank,
}
use wasmtime.Environ.VmOffsets.Slots.{slot-eq, slots-Apart}
use wasmtime.Runtime.Mmap.{Host}
use wasmtime.Runtime.Memory
use wasmtime.Runtime.Memory.{LinearMemory, vmmemory}
use wasmtime.Runtime.Table.{Table, vmtable}
use wasmtime.Runtime.VmContext
use wasmtime.Runtime.VmContext.{
  Cell, VmContext, write, size_of, memory_definition, table_definition,
}
use wasmtime.Runtime.VmContext.Sizes.{size_of-eq-size, size_of-ne-0}
use wasmtime.Runtime.VmContext.Slots.{write_self, write_other}
use wasmtime.Runtime.Instance.{Instance, memory_grow}

-- The invariant: the context has a slot for every memory and table, at which compiled code reads
-- the address and the length that the memory or the table has.
pub record Synced (inst : Instance) : Type 0 where
  pub fits : Fits inst.offsets
  pub eight : inst.offsets.pointer_size ≡ 8
  pub memory_slots : length inst.memories ≤ count inst.offsets memories
  pub table_slots : length inst.tables ≤ count inst.offsets tables
  pub memory_read :
      (k : ℕ) (m : LinearMemory)
      → get_elem? inst.memories k ≡ some m
      → VmContext.memory inst.offsets inst.vmctx k ≡ some (vmmemory m)
  pub table_read :
      (k : ℕ) (t : Table)
      → get_elem? inst.tables k ≡ some t
      → VmContext.table inst.offsets inst.vmctx k ≡ vmtable t

-- Two slots have different offsets.
pub slots-ne :
    (o : VmOffsets) (r r' : Region) (i j : ℕ)
    → Fits o
    → o.pointer_size ≡ 8
    → i < count o r
    → j < count o r'
    → (r ≢ r') ⊎ (i ≢ j)
    → start o r + i * size o r ≢ start o r' + j * size o r'
slots-ne o r r' i j f eight hi hj d e =
    elim (slots-Apart o r r' i j _ _ f hi hj d (slot-eq o f r i hi) (slot-eq o f r' j hj)) [
      | inl a ↦ omega (arith, size_of-eq-size o r eight, size_of-ne-0 r)
      | inr b ↦ omega (arith, size_of-eq-size o r' eight, size_of-ne-0 r')
    ]

-- A `memory_grow` that returns is a growth of the memory at the index and a write of its slot.
pub memory_grow-steps :
    (h : Host) (inst inst' : Instance) (index delta : ℕ) (result : Option ℕ)
    → memory_grow h inst index delta ≡ some (result, inst')
    → (m : LinearMemory) × (m' : LinearMemory) × (at : ℕ) × (get_elem? inst.memories index ≡ some m)
      × (Memory.grow h m delta ≡ some (result, m'))
      × (slot inst.offsets memories index ≡ some at)
      × (inst' ≡ record inst {
        memories = set inst.memories index m';
        vmctx = write inst.vmctx at (memory_definition (vmmemory m'));
      })
unfolding memory_grow
memory_grow-steps h inst inst' index delta result e =
    elim (Option-cases (get_elem? inst.memories index)) [
      | inl n ↦ absurd (ground arith)
      | inr (m, p) ↦ elim (Option-cases (Memory.grow h m delta)) [
        | inl n ↦ absurd (ground arith)
        | inr ((r, m'), q) ↦ elim (Option-cases (slot inst.offsets memories index)) [
          | inl n ↦ absurd (ground arith)
          | inr (at, w) ↦ (m, m', at, p, ground arith, w, ground arith)
        ]
      ]
    ]

module _ (o : VmOffsets) (v : VmContext) (k a : ℕ) where
  pub memory_at :
      slot o memories k ≡ some a → VmContext.memory o v k ≡ VmContext.as_memory_definition (v a)
  memory_at e = ap (λ s. s >>= λ at. VmContext.as_memory_definition (v at)) e

  pub table_at :
      slot o tables k ≡ some a → VmContext.table o v k ≡ VmContext.as_table_definition (v a)
  table_at e = ap (λ s. s >>= λ at. VmContext.as_table_definition (v at)) e

-- A write to another offset than a slot's does not change what is read there.
module _ (o : VmOffsets) (v : VmContext) (k a at : ℕ) (c : Cell) (n : a ≢ at) where
  pub memory_untouched :
      slot o memories k ≡ some a → VmContext.memory o (write v at c) k ≡ VmContext.memory o v k
  memory_untouched e =
      memory_at o (write v at c) k a e
      ∙ ap VmContext.as_memory_definition (write_other v at a c n)
      ∙ sym (memory_at o v k a e)

  pub table_untouched :
      slot o tables k ≡ some a → VmContext.table o (write v at c) k ≡ VmContext.table o v k
  table_untouched e =
      table_at o (write v at c) k a e
      ∙ ap VmContext.as_table_definition (write_other v at a c n)
      ∙ sym (table_at o v k a e)

pub some_injective {ℓ} : {A : Type ℓ} {x y : A} → some x ≡ some y → x ≡ y
some_injective e = cc

-- The slot of an index in range, and that it is not another's.
pub slot_apart :
    (o : VmOffsets) (r r' : Region) (i j at : ℕ)
    → Fits o
    → o.pointer_size ≡ 8
    → i < count o r
    → j < count o r'
    → (r ≢ r') ⊎ (i ≢ j)
    → slot o r' j ≡ some at
    → (a : ℕ) × (slot o r i ≡ some a) × (a ≢ at)
slot_apart o r r' i j at f eight hi hj d e = (
  start o r + i * size o r,
  slot-eq o f r i hi,
  λ same. slots-ne o r r' i j f eight hi hj d (same ∙ some_injective (sym e ∙ slot-eq o f r' j hj)),
)

-- In an instance of a 64-bit host whose context fits and has at every memory's and table's slot its
-- address and length, a `memory_grow` that does not panic, successful or not, leaves it so.
pub memory_grow-Synced :
    (h : Host) (inst inst' : Instance) (index delta : ℕ) (result : Option ℕ)
    → Synced inst
    → memory_grow h inst index delta ≡ some (result, inst')
    → Synced inst'
memory_grow-Synced h inst inst' index delta result s e =
    let (m, m', at, p, q, w, shape) = memory_grow-steps h inst inst' index delta result e in
    let known : index < length inst.memories = get_elem?-lt inst.memories index m p in
    subst Synced (sym shape) (record {
      fits = s.fits;
      eight = s.eight;
      memory_slots = omega (arith, length-set inst.memories index m', s.memory_slots);
      table_slots = s.table_slots;
      memory_read = λ k n r. elim (ℕ_discrete index k) [
        | yes same ↦
            memory_at inst.offsets (write inst.vmctx at (memory_definition (vmmemory m'))) k at
              (ap (slot inst.offsets memories) (sym same) ∙ w)
            ∙ ap VmContext.as_memory_definition
                (write_self inst.vmctx at (memory_definition (vmmemory m')))
            ∙ ap (λ x. some (vmmemory x))
                (some_injective (
                  sym (get_elem?-set_self inst.memories index m' known)
                  ∙ ap (get_elem? (set inst.memories index m')) same
                  ∙ r))
        | no other ↦
            let old : get_elem? inst.memories k ≡ some n =
              sym (get_elem?-set_ne inst.memories m' other) ∙ r in
            let (a, ea, ne) =
              slot_apart inst.offsets memories memories k index at s.fits s.eight
                (omega (arith, get_elem?-lt inst.memories k n old, s.memory_slots))
                (omega (arith, s.memory_slots)) (inr (λ x. other (sym x))) w in
            memory_untouched inst.offsets inst.vmctx k a at (memory_definition (vmmemory m')) ne ea
            ∙ s.memory_read k n old
      ];
      table_read = λ k t r.
          let (a, ea, ne) =
            slot_apart inst.offsets tables memories k index at s.fits s.eight
              (omega (arith, get_elem?-lt inst.tables k t r, s.table_slots))
              (omega (arith, s.memory_slots)) (inl (λ x. omega (arith, ap rank x))) w in
          table_untouched inst.offsets inst.vmctx k a at (memory_definition (vmmemory m')) ne ea
          ∙ s.table_read k t r;
    })
