-- ===== src/Runtime/Instance/Elements/Written.antt =====
-- wasmtime-runtime/src/instance.rs: what one assignment to an element of a table changes.
use wasmtime.Base.{
  ℕ, ◌≡◌, ◌≢◌, ◌<◌, refl, sym, ap, ◌∙◌, subst, Option, some, length, length-set, get_elem?,
  get_elem?-lt, get_elem?-set_self, get_elem?-set_ne, set, ◌>>=◌, arith, ℕ_discrete,
}
use wasmtime.Runtime.Table.{Table, Anyfunc}
use wasmtime.Runtime.Instance.{Instance, Store, put_instance}
use wasmtime.Runtime.Instance.Growth.{some_injective}
use wasmtime.Runtime.Instance.Stores.{put_own, put_other}
use wasmtime.Runtime.Instance.SameContext.{bind-some}
use wasmtime.Runtime.Instance.Segments.Kept.{Addressed}
use wasmtime.Runtime.Instance.Segments.Checked.{put_instance-Addressed}
use wasmtime.Runtime.Instance.Elements.{set_nth, write_element}
use wasmtime.Runtime.Instance.Elements.Kept.{Alike, Alike-refl, Kept, table_size}

-- An element of a table of an instance.
abbrev pub element_at : Store → ℕ → ℕ → ℕ → Option Anyfunc
element_at s owner index at =
    s owner >>= λ inst. get_elem? inst.tables index >>= λ t. get_elem? t.vec at

-- A table with a number of elements.
pub record Place (s : Store) (owner index size : ℕ) : Type 0 where
  pub inst : Instance
  pub table : Table
  pub there : s owner ≡ some inst
  pub holds : get_elem? inst.tables index ≡ some table
  pub length_ : length table.vec ≡ size

pub Place-Kept :
    (s s' : Store) (owner index size : ℕ)
    → Kept s s'
    → Place s owner index size
    → Place s' owner index size
Place-Kept s s' owner index size kept p =
    let (b, u, al) = kept owner p.inst p.there in
    let known : table_size b index ≡ some (length p.table.vec) =
      al.sizes index ∙ rw (p.holds) refl in
    let (t, v, w) = bind-some (get_elem? b.tables index) _ known in
    record { inst = b; table = t; there = u; holds = v; length_ = some_injective w ∙ p.length_ }

module _ (s : Store) (owner index size at : ℕ) (a : Anyfunc) (addressed : Addressed s)
    (p : Place s owner index size) where
  changed_table : Table
  changed_table = record p.table { vec = set p.table.vec at a }

  changed : Instance
  unfolding changed_table
  changed = record p.inst { tables = set p.inst.tables index changed_table }

  write_element-put : write_element s owner index at a ≡ put_instance s changed
  unfolding write_element changed changed_table
  write_element-put = rw (write_element, p.there, set_nth, p.holds) refl

  changed-Alike : Alike p.inst changed
  unfolding changed changed_table
  changed-Alike = record {
    same = record { id = refl; module_ = refl; offsets = refl; vmctx = refl };
    memories = refl;
    finished = refl;
    count = length-set p.inst.tables index changed_table;
    sizes = λ i. elim (ℕ_discrete index i) [
      | yes e ↦
          subst (λ n. table_size changed n ≡ table_size p.inst n) e
            (rw
              (
                get_elem?-set_self p.inst.tables index changed_table
                    (get_elem?-lt p.inst.tables index p.table p.holds),
                p.holds,
              )
              (ap some (length-set p.table.vec at a)))
      | no n ↦ rw (get_elem?-set_ne p.inst.tables changed_table n) refl
    ];
  }

  own : p.inst.id ≡ owner
  own = addressed owner p.inst p.there

  changed_id : changed.id ≡ owner
  unfolding changed
  changed_id = own

  -- An assignment keeps the instances, up to the contents of tables.
  pub write_element-Kept : Kept s (write_element s owner index at a)
  write_element-Kept j x e = elim (ℕ_discrete j owner) [
    | yes same ↦
        let one : p.inst ≡ x = some_injective (sym p.there ∙ ap s (sym same) ∙ e) in
        (
          changed,
          ap (λ (y : Store). y j) write_element-put ∙ put_own s changed j (changed_id ∙ sym same),
          subst (λ y. Alike y changed) one changed-Alike,
        )
    | no other ↦ (
      x,
      ap (λ (y : Store). y j) write_element-put
          ∙ put_other s changed j (λ q. other (q ∙ changed_id))
          ∙ e,
      Alike-refl x,
    )
  ]

  pub write_element-Addressed : Addressed (write_element s owner index at a)
  write_element-Addressed =
      subst Addressed (sym write_element-put) (put_instance-Addressed s changed addressed)

  -- The element is the new one.
  pub write_element-own :
      at < size → element_at (write_element s owner index at a) owner index at ≡ some a
  unfolding changed changed_table
  write_element-own h =
      rw
        (
          write_element-put,
          put_own s changed owner changed_id,
          get_elem?-set_self p.inst.tables index changed_table
              (get_elem?-lt p.inst.tables index p.table p.holds),
          get_elem?-set_self p.table.vec at a (omega (arith, p.length_)),
        )
        refl

  -- The other elements stay.
  pub write_element-at :
      (i : ℕ)
      → i ≢ at
      → element_at (write_element s owner index at a) owner index i ≡ element_at s owner index i
  unfolding changed changed_table
  write_element-at i h =
      rw
        (
          write_element-put,
          put_own s changed owner changed_id,
          p.there,
          p.holds,
          get_elem?-set_self p.inst.tables index changed_table
              (get_elem?-lt p.inst.tables index p.table p.holds),
          get_elem?-set_ne p.table.vec a (λ e. h (sym e)),
        )
        refl

  pub write_element-index :
      (j i : ℕ)
      → j ≢ index
      → element_at (write_element s owner index at a) owner j i ≡ element_at s owner j i
  unfolding changed
  write_element-index j i h =
      rw
        (
          write_element-put,
          put_own s changed owner changed_id,
          p.there,
          get_elem?-set_ne p.inst.tables changed_table (λ e. h (sym e)),
        )
        refl

  pub write_element-owner :
      (k j i : ℕ)
      → k ≢ owner
      → element_at (write_element s owner index at a) k j i ≡ element_at s k j i
  write_element-owner k j i h =
      rw (write_element-put, put_other s changed k (λ e. h (e ∙ changed_id))) refl
