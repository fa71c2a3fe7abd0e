-- ===== src/Runtime/Instance/Instantiate/Making.antt =====
-- wasmtime-runtime/src/instance.rs: what is made before an instance, and its number of tables, memories
-- and globals.
use wasmtime.Base.{
  subst, ℕ, zero, suc, ◌≡◌, ◌≤◌, ap, ◌∙◌, sym, Option, none, some, List, [], ◌∷◌, length,
  length-drop, length-replicate, drop, get_elem?, arith, leb,
}
use wasmtime.Base.Outcomes.{Outcome, ok, err, panic, ◌>>=◌, unwrap, >>=-eq-ok}
use wasmtime.Base.Outcomes
use wasmtime.Environ.Module.{Module}
use wasmtime.Environ.Plan.{TablePlan, MemoryPlan}
use wasmtime.Environ.VmOffsets
use wasmtime.Environ.VmOffsets.{VmOffsets}
use wasmtime.Runtime.Mmap.{Host}
use wasmtime.Runtime.Memory
use wasmtime.Runtime.Memory.{LinearMemory, vmmemory}
use wasmtime.Runtime.Table
use wasmtime.Runtime.Table.{Table, VmTableDefinition, vmtable}
use wasmtime.Runtime.Instance.{
  create_tables, create_memories, create_globals, new_tables, new_memories, assert,
}
use wasmtime.Runtime.Instance.SameContext.{bind-some}
use wasmtime.Runtime.Instance.Growth.{some_injective}
use wasmtime.Runtime.Instance.Instantiate.{
  Made, make, Parts, Machine, InstantiationError, resource, map_err, vmtables,
}

pub unwrap-eq-ok :
    {A : Type 0} (o : Option A) {a : A} → unwrap {E = InstantiationError} o ≡ ok a → o ≡ some a
unwrap-eq-ok none e = absurd (cc)
unwrap-eq-ok (some a) e = cc

pub map_err-eq-ok :
    {E : Type 0} {A : Type 0} (f : E → InstantiationError) (r : Outcome E A) {a : A}
    → map_err f r ≡ ok a
    → r ≡ ok a
map_err-eq-ok f panic e = absurd (cc)
map_err-eq-ok f (err why) e = absurd (cc)
map_err-eq-ok f (ok a) e = cc

pub ok_injective :
    {A : Type 0} {x y : A} → ◌≡◌ {A = Outcome InstantiationError A} (ok x) (ok y) → x ≡ y
ok_injective e = cc

-- As many tables as plans.
length-new_tables :
    (addresses : ℕ → ℕ) (k : ℕ) (plans : List TablePlan) (ts : List Table)
    → new_tables addresses k plans ≡ some ts
    → length ts ≡ length plans
length-new_tables addresses k [] ts e = sym (ap length (some_injective e))
length-new_tables addresses k (plan ∷ plans) ts e =
    let (t, p, q) = bind-some (Table.new (addresses k) plan) _ e in
    let (rest, u, v) = bind-some (new_tables addresses (suc k) plans) _ q in
    sym (ap length (some_injective v)) ∙ ap suc (length-new_tables addresses (suc k) plans rest u)

length-create_tables :
    (addresses : ℕ → ℕ) (m : Module) (ts : List Table)
    → create_tables addresses m ≡ some ts
    → length ts ≤ length m.table_plans
unfolding create_tables
length-create_tables addresses m ts e =
    let (done, p, q) =
      bind-some (assert (leb (length m.imported_tables) (length m.table_plans))) _ e in
    omega (
      arith,
      length-new_tables addresses 0 (drop (length m.imported_tables) m.table_plans) ts q,
      length-drop (length m.imported_tables) m.table_plans,
    )

length-new_memories :
    (hosts : ℕ → Host) (k : ℕ) (plans : List MemoryPlan) (ms : List LinearMemory)
    → new_memories hosts k plans ≡ ok ms
    → length ms ≡ length plans
length-new_memories hosts k [] ms e = cc
length-new_memories hosts k (plan ∷ plans) ms e =
    let (m, p, q) = >>=-eq-ok (Memory.new (hosts k) plan) _ e in
    let (rest, u, v) = >>=-eq-ok (new_memories hosts (suc k) plans) _ q in
    let same : m ∷ rest ≡ ms = cc in
    sym (ap length same) ∙ ap suc (length-new_memories hosts (suc k) plans rest u)

length-create_memories :
    (hosts : ℕ → Host) (m : Module) (ms : List LinearMemory)
    → create_memories hosts m ≡ ok ms
    → length ms ≤ length m.memory_plans
unfolding create_memories
length-create_memories hosts m ms e =
    let (done, p, q) =
      >>=-eq-ok (Outcomes.assert (leb (length m.imported_memories) (length m.memory_plans))) _ e in
    omega (
      arith,
      length-new_memories hosts 0 (drop (length m.imported_memories) m.memory_plans) ms q,
      length-drop (length m.imported_memories) m.memory_plans,
    )

length-create_globals :
    (m : Module) (gs : List ℕ) → create_globals m ≡ some gs → length gs ≤ length m.globals
unfolding create_globals
length-create_globals m gs e =
    let (done, p, q) =
      bind-some (assert (leb (length m.imported_globals) (length m.globals))) _ e in
    omega (
      arith,
      ap length (some_injective q),
      length-replicate {A = ℕ} (length (drop (length m.imported_globals) m.globals)) 0,
      length-drop (length m.imported_globals) m.globals,
    )

pub length-vmtables :
    (ts : List Table) (ds : List VmTableDefinition) → vmtables ts ≡ some ds → length ds ≡ length ts
length-vmtables [] ds e = sym (ap length (some_injective e))
length-vmtables (t ∷ ts) ds e =
    let (d, p, q) = bind-some (vmtable t) _ e in
    let (rest, u, v) = bind-some (vmtables ts) _ q in
    sym (ap length (some_injective v)) ∙ ap suc (length-vmtables ts rest u)

pub get_elem?-vmtables :
    (ts : List Table) (ds : List VmTableDefinition) (k : ℕ) (t : Table)
    → vmtables ts ≡ some ds
    → get_elem? ts k ≡ some t
    → (d : VmTableDefinition) × (vmtable t ≡ some d) × (get_elem? ds k ≡ some d)
get_elem?-vmtables [] ds k t e at = absurd (cc)
get_elem?-vmtables (x ∷ ts) ds zero t e at =
    let (d, p, q) = bind-some (vmtable x) _ e in
    let (rest, u, v) = bind-some (vmtables ts) _ q in
    let same : x ≡ t = cc in
    (
      d,
      ap vmtable (sym same) ∙ p,
      ap (λ (l : List VmTableDefinition). get_elem? l 0) (sym (some_injective v)),
    )
get_elem?-vmtables (x ∷ ts) ds (suc k) t e at =
    let (d, p, q) = bind-some (vmtable x) _ e in
    let (rest, u, v) = bind-some (vmtables ts) _ q in
    let (found, w, z) = get_elem?-vmtables ts rest k t u at in
    (
      found,
      w,
      ap (λ (l : List VmTableDefinition). get_elem? l (suc k)) (sym (some_injective v)) ∙ z,
    )

-- The arrays that an instance is given are no longer than the module says.
pub record GivenRoom (machine : Machine) (parts : Parts) : Type 0 where
  pub signatures : length parts.vmshared_signatures ≤ length parts.module_.signatures
  pub functions : length parts.imports.functions ≤ length parts.module_.imported_funcs
  pub tables : length parts.imports.tables ≤ length parts.module_.imported_tables
  pub memories : length parts.imports.memories ≤ length parts.module_.imported_memories
  pub globals : length parts.imports.globals ≤ length parts.module_.imported_globals
  pub builtins : length machine.builtins ≤ VmOffsets.builtin_functions_total_number

-- What was made for a module has no more tables, memories and globals than the module has.
pub record IsMade (m : Module) (made : Made) : Type 0 where
  pub table_room : length made.tables ≤ length m.table_plans
  pub memory_room : length made.memories ≤ length m.memory_plans
  pub global_room : length made.vmctx_globals ≤ length m.globals
  pub definitions : vmtables made.tables ≡ some made.vmctx_tables
  pub counts : VmOffsets.new 8 m ≡ some made.offsets

pub make-IsMade :
    (machine : Machine) (m : Module) (made : Made) → make machine m ≡ ok made → IsMade m made
make-IsMade machine m made e =
    let a = >>=-eq-ok (unwrap (create_tables machine.addresses m)) _ e in
    let b = >>=-eq-ok (map_err resource (create_memories machine.hosts m)) _ a.2 in
    let c = >>=-eq-ok (unwrap (vmtables a.0)) _ b.2 in
    let d = >>=-eq-ok (unwrap (create_globals m)) _ c.2 in
    let o = >>=-eq-ok (unwrap (VmOffsets.new 8 m)) _ d.2 in
    subst (IsMade m) (ok_injective o.2) (record {
      table_room = length-create_tables machine.addresses m a.0 (unwrap-eq-ok _ a.1);
      memory_room = length-create_memories machine.hosts m b.0 (map_err-eq-ok resource _ b.1);
      global_room = length-create_globals m d.0 (unwrap-eq-ok _ d.1);
      definitions = unwrap-eq-ok _ c.1;
      counts = unwrap-eq-ok _ o.1;
    })
