-- ===== src/Runtime/Instance/Instantiate/Segmented.antt =====
-- wasmtime-runtime/src/instance.rs: the segments of a new instance, every branch.
use wasmtime.Base.{ℕ, ◌≡◌, refl, some, length, ap, ◌∙◌, over, value_or}
use wasmtime.Base.Outcomes.{ok, err}
use wasmtime.Runtime.Instance.{Instance, Store}
use wasmtime.Runtime.Table.{Anyfunc}
use wasmtime.Runtime.Instance.SameContext.{SameContext, bind-some}
use wasmtime.Runtime.Instance.Segments.Written
use wasmtime.Runtime.Instance.Segments.Written.{byte_at}
use wasmtime.Runtime.Instance.Segments.Checked.{SameTables}
use wasmtime.Runtime.Instance.Elements.Written.{element_at}
use wasmtime.Runtime.Instance.Segments
use wasmtime.Runtime.Instance.Segments.{check_memory_init_bounds}
use wasmtime.Runtime.Instance.Segments.Kept as MemoryKept
use wasmtime.Runtime.Instance.Segments.Kept.{Addressed, Alike-SameContext}
use wasmtime.Runtime.Instance.Segments.Checked as MemoryChecked
use wasmtime.Runtime.Instance.Elements
use wasmtime.Runtime.Instance.Elements.{check_table_init_bounds}
use wasmtime.Runtime.Instance.Elements.Kept as TableKept
use wasmtime.Runtime.Instance.Elements.Initialized as Initialized
use wasmtime.Runtime.Instance.Elements.Overlaid as TableOverlaid
use wasmtime.Runtime.Instance.Elements.Overlaid.{AreSegments}
use wasmtime.Runtime.Instance.Instantiate.{
  Parts, initialize_segments, elements_do_not_fit, data_does_not_fit,
}

-- Instances that are alike up to tables are alike up to memories.
Alike-memories : (a b : Instance) → TableKept.Alike a b → MemoryKept.Alike a b
Alike-memories a b alike = record {
  id = alike.same.id;
  module_ = alike.same.module_;
  offsets = alike.same.offsets;
  vmctx = alike.same.vmctx;
  count = ap length alike.memories;
}

-- A byte of a memory is kept where the instances keep their memories.
byte_at-Kept :
    (s c : Store) (o j i x : ℕ)
    → TableKept.Kept s c
    → byte_at s o j i ≡ some x
    → byte_at c o j i ≡ some x
byte_at-Kept s c o j i x kept e =
    let (a, p, q) = bind-some (s o) _ e in let (b, u, al) = kept o a p in rw (u, al.memories) q

element_at-SameTables :
    (s c : Store) (o j i : ℕ) (x : Anyfunc)
    → SameTables s c
    → element_at s o j i ≡ some x
    → element_at c o j i ≡ some x
element_at-SameTables s c o j i x kept e =
    let (a, p, q) = bind-some (s o) _ e in let (b, u, same) = kept o a p in rw (u, same) q

-- Every segment of a store is written in another: an element or a byte that is there is what the
-- last segment that covers it put there, or as before where there is none, and every instance is
-- there with its module and context.
pub record AllWritten (s s' : Store) (k : ℕ) (parts : Parts) : Type 0 where
  pub elements :
      (o j i : ℕ) (x : Anyfunc)
      → over (TableOverlaid.overlaid s k parts.module_.table_elements o j i) (element_at s o j i)
        ≡ some x
      → element_at s' o j i ≡ some x
  pub bytes :
      (o j i x : ℕ)
      → byte_at s o j i ≡ some x
      → byte_at s' o j i ≡ some (value_or (Written.overlaid s k parts.data_initializers o j i) x)
  pub instances :
      (j : ℕ) (a : Instance) → s j ≡ some a → (b : Instance) × (s' j ≡ some b) × SameContext a b

-- The segments of an instance, in a store that has every instance at its own address, where the
-- functions of the element segments are there. If the element segments do not all fit, that is the
-- error, and if they do and the data segments do not, that is; the store is then as it was, with no
-- segment written. If all fit, nothing panics and all are written: every element of a table and
-- every byte of a memory is what the last segment that covers it put there, and as before where none
-- does. Every instance is still there with its module and context.
pub initialize_segments_lem :
    (s : Store) (k : ℕ) (parts : Parts)
    → Addressed s
    → AreSegments s k parts.module_.table_elements
    → ((why : Elements.LinkError)
        → check_table_init_bounds s k parts.module_.table_elements ≡ err why
        → initialize_segments s k parts ≡ err (elements_do_not_fit, s))
      × ((why : Segments.LinkError)
          → check_table_init_bounds s k parts.module_.table_elements ≡ ok tt
          → check_memory_init_bounds s k parts.data_initializers ≡ err why
          → initialize_segments s k parts ≡ err (data_does_not_fit, s))
      × (check_table_init_bounds s k parts.module_.table_elements ≡ ok tt
          → check_memory_init_bounds s k parts.data_initializers ≡ ok tt
          → (s' : Store) × (initialize_segments s k parts ≡ ok s') × AllWritten s s' k parts)
unfolding initialize_segments
initialize_segments_lem s k parts at segments = (
  (λ why e. rw e refl),
  (λ why e f. rw (e, f) refl),
  (λ e f.
      let (c, p, kept, at', written) =
        Initialized.initialize_from s s k parts.module_.table_elements
          (λ j a h. (a, h, TableKept.Alike-refl a)) at at e segments in
      let kept' : MemoryKept.Kept s c =
        (λ j a h. let (b, u, al) = kept j a h in (b, u, Alike-memories a b al)) in
      let (s', q, after, tables, bytes) =
        MemoryChecked.initialize_from s c k parts.data_initializers kept' at' f in
      (
        s',
        rw (e, f, p, q) refl,
        record {
          elements = λ o j i x h. element_at-SameTables c s' o j i x tables (written o j i ∙ h);
          bytes = λ o j i x h. bytes o j i ∙ rw (byte_at-Kept s c o j i x kept h) refl;
          instances = λ j a h. let (b, u, al) = after j a h in (b, u, Alike-SameContext a b al);
        },
      )),
)
