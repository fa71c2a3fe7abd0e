-- ===== src/Runtime/Instance/Elements/Examples.antt =====
-- wasmtime-runtime/src/instance.rs: an instance with a table of three elements and two segments.
use wasmtime.Base.{
  true, false, over, Option, ℕ, ◌≡◌, ◌==◌, ◌∙◌, refl, sym, subst, none, some, [], ◌∷◌, List,
  ℕ_discrete, if◌then◌else◌, arith, ==-eq-false, ==_iff, usize_mod,
}
use wasmtime.Base.Outcomes.{ok, err}
use wasmtime.Environ.Module
use wasmtime.Environ.Module.{Module, Signature, TableElements}
use wasmtime.Environ.VmOffsets.{VmOffsets}
use wasmtime.Environ.Plan.{dynamic, TablePlan, func, caller_checks_signature}
use wasmtime.Runtime.Table.{default_anyfunc}
use wasmtime.Runtime.VmContext.{memory_definition, signature_id}
use wasmtime.Runtime.Instance.{Instance, Store}
use wasmtime.Runtime.Instance.Growth.{some_injective}
use wasmtime.Runtime.Instance.Segments.Kept.{Addressed}
use wasmtime.Runtime.Instance.Elements.{
  LinkError, check_table_init_bounds, initialize_tables, anyfunc, locate,
}
use wasmtime.Runtime.Instance.Segments
use wasmtime.Runtime.Instance.Segments.{DataInitializer, check_memory_init_bounds}
use wasmtime.Runtime.Instance.Instantiate.{
  Parts, initialize_segments, elements_do_not_fit, data_does_not_fit,
}
use wasmtime.Runtime.Instance.Instantiate.Segmented.{AllWritten, initialize_segments_lem}
use wasmtime.Runtime.Instance.Elements.Kept.{Kept}
use wasmtime.Runtime.Instance.Elements.Written.{element_at}
use wasmtime.Runtime.Instance.Elements.Overlaid.{overlaid, AreSegments}
use wasmtime.Runtime.Instance.Elements.Initialized.{initialize_tables-overlaid}

abbrev table_plan : TablePlan
table_plan = record {
  ty = func;
  limits = record { minimum = 3; maximum = none };
  style = caller_checks_signature;
}

abbrev segment : ℕ → List ℕ → TableElements
segment offset elements = record {
  table_index = 0;
  base = none;
  offset = offset;
  elements = elements;
}

abbrev segments : List TableElements
segments = segment 0 (0 ∷ (1 ∷ [])) ∷ (segment 1 (0 ∷ []) ∷ [])

abbrev offsets : VmOffsets
offsets = record {
  pointer_size = 8;
  num_signature_ids = 1;
  num_imported_functions = 0;
  num_imported_tables = 0;
  num_imported_memories = 0;
  num_imported_globals = 0;
  num_defined_tables = 1;
  num_defined_memories = 0;
  num_defined_globals = 0;
}

abbrev fresh : Instance
fresh = record {
  id = 3;
  refcount = 1;
  dependencies = [];
  module_ = record Module.new {
    signatures = record { name = 0; params = 1; returns = 0 } ∷ [];
    functions = 0 ∷ (0 ∷ []);
    table_plans = table_plan ∷ [];
    table_elements = segments;
  };
  offsets = offsets;
  memories = [];
  tables =
      record {
        vec = default_anyfunc ∷ (default_anyfunc ∷ (default_anyfunc ∷ []));
        address = 64;
        maximum = none;
      }
      ∷ [];
  finished_functions = 4096 ∷ (8192 ∷ []);
  vmctx = λ i. signature_id 5;
}

abbrev alone_with : Instance → Store
alone_with inst k = if k == 3 then some inst else none

alone_with-Addressed : (inst : Instance) → inst.id ≡ 3 → Addressed (alone_with inst)
alone_with-Addressed inst at j a e = elim (ℕ_discrete j 3) [
  | yes same ↦
      subst (λ (x : Instance). x.id ≡ j) (some_injective (rw ((==_iff j 3).1 same) at e))
        (at ∙ sym same)
  | no other ↦
      let bad : ◌≡◌ {A = Option Instance} none (some a) = (rw (==-eq-false j 3 other) at e) in
      absurd (cc)
]

abbrev alone : Store
alone = alone_with fresh

alone-Addressed : Addressed alone
alone-Addressed = alone_with-Addressed fresh refl

checked : check_table_init_bounds alone 3 segments ≡ ok tt
unfolding check_table_init_bounds locate Module.defined_table_index
checked = refl

alone-AreSegments : AreSegments alone 3 segments
unfolding anyfunc Module.defined_func_index
    wasmtime.Environ.VmOffsets.Fields.vmctx_vmshared_signature_id
    wasmtime.Environ.VmOffsets.vmctx_signature_ids_begin wasmtime.Base.checked_mul
    wasmtime.Base.checked_add
alone-AreSegments = (
  (
    (
      (record { func_ptr = 4096; type_index = 5; vmctx = 3 }, refl),
      ((record { func_ptr = 8192; type_index = 5; vmctx = 3 }, refl), tt),
    ),
    omega arith,
  ),
  (((((record { func_ptr = 4096; type_index = 5; vmctx = 3 }, refl), tt)), omega arith), tt),
)

initialize_tables-overlaid_example :
    (s' : Store) × (initialize_tables alone 3 segments ≡ some s')
    × Kept alone s'
    × ((o j i : ℕ)
        → element_at s' o j i ≡ over (overlaid alone 3 segments o j i) (element_at alone o j i))
initialize_tables-overlaid_example =
    initialize_tables-overlaid alone 3 segments alone-Addressed checked alone-AreSegments

-- The instance with a memory, and two bytes for it.
abbrev whole : Instance
whole = record fresh {
  module_ = record fresh.module_ {
    memory_plans =
        record {
          memory = record { minimum = 1; maximum = none; shared = false };
          style = dynamic;
          offset_guard_size = 65536;
        }
        ∷ [];
  };
  offsets = record offsets { num_defined_memories = 1 };
  memories =
      record {
        mmap = record { ptr = 65536; len = 131072; accessible = λ i. true; bytes = λ i. 0 };
        current = 1;
        maximum = none;
        offset_guard_size = 65536;
        needs_signal_handlers = false;
      }
      ∷ [];
  vmctx = λ i.
      if i == 20
      then memory_definition (record { base = 65536; current_length = 65536 })
      else signature_id 5;
}

abbrev whole_alone : Store
whole_alone = alone_with whole

abbrev bytes : DataInitializer
bytes = record { memory_index = 0; base = none; offset = 65534; contents = 17 ∷ (18 ∷ []) }

whole-AreSegments : AreSegments whole_alone 3 segments
unfolding anyfunc Module.defined_func_index
    wasmtime.Environ.VmOffsets.Fields.vmctx_vmshared_signature_id
    wasmtime.Environ.VmOffsets.vmctx_signature_ids_begin wasmtime.Base.checked_mul
    wasmtime.Base.checked_add
whole-AreSegments = (
  (
    (
      (record { func_ptr = 4096; type_index = 5; vmctx = 3 }, refl),
      ((record { func_ptr = 8192; type_index = 5; vmctx = 3 }, refl), tt),
    ),
    omega arith,
  ),
  (((((record { func_ptr = 4096; type_index = 5; vmctx = 3 }, refl), tt)), omega arith), tt),
)

-- The two bytes fit.
bytes_fit : check_memory_init_bounds whole_alone 3 (bytes ∷ []) ≡ ok tt
unfolding check_memory_init_bounds Segments.locate Module.defined_memory_index
    wasmtime.Environ.VmOffsets.Fields.vmctx_vmmemory_definition
    wasmtime.Environ.VmOffsets.vmctx_memories_begin wasmtime.Environ.VmOffsets.vmctx_tables_begin
    wasmtime.Environ.VmOffsets.vmctx_imported_globals_begin
    wasmtime.Environ.VmOffsets.vmctx_imported_memories_begin
    wasmtime.Environ.VmOffsets.vmctx_imported_tables_begin
    wasmtime.Environ.VmOffsets.vmctx_imported_functions_begin
    wasmtime.Environ.VmOffsets.vmctx_signature_ids_begin wasmtime.Base.checked_mul
    wasmtime.Base.checked_add
bytes_fit = refl

abbrev parts : Parts
parts = record {
  module_ = whole.module_;
  finished_functions = 4096 ∷ (8192 ∷ []);
  imports = record { dependencies = []; functions = []; tables = []; memories = []; globals = [] };
  data_initializers = bytes ∷ [];
  vmshared_signatures = 5 ∷ [];
}

initialize_segments_lem_example :
    ((why : LinkError)
      → check_table_init_bounds whole_alone 3 segments ≡ err why
      → initialize_segments whole_alone 3 parts ≡ err (elements_do_not_fit, whole_alone))
    × ((why : Segments.LinkError)
        → check_table_init_bounds whole_alone 3 segments ≡ ok tt
        → check_memory_init_bounds whole_alone 3 (bytes ∷ []) ≡ err why
        → initialize_segments whole_alone 3 parts ≡ err (data_does_not_fit, whole_alone))
    × (check_table_init_bounds whole_alone 3 segments ≡ ok tt
        → check_memory_init_bounds whole_alone 3 (bytes ∷ []) ≡ ok tt
        → (s' : Store) × (initialize_segments whole_alone 3 parts ≡ ok s')
          × AllWritten whole_alone s' 3 parts)
initialize_segments_lem_example =
    initialize_segments_lem whole_alone 3 parts (alone_with-Addressed whole refl) whole-AreSegments
