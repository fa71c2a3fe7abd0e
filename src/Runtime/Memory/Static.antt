-- ===== src/Runtime/Memory/Static.antt =====
-- wasmtime-runtime/src/memory.rs and wasmtime-environ/src/module.rs: new memories, and memories
-- that are planned static, which compiled code addresses by a fixed base.
use wasmtime.Base.{
  ℕ_discrete, ℕ, ◌+◌, ◌*◌, ◌%◌, ◌≤◌, ◌<◌, ◌≡◌, ◌∙◌, false, Option, none, some, arith, usize_mod,
  checked_add_usize, checked_mul_usize, List, [], ◌∷◌, inl, inr, Option-cases,
}
use wasmtime.Base.Outcomes.{ok, Outcome-cases}
use wasmtime.Environ.Plan.{
  MemoryType, Tunables, MemoryPlan, MemoryStyle, dynamic, static, for_memory, for_memory_style,
  wasm_page_size, wasm_max_pages,
}
use wasmtime.Runtime.Mmap.{Host, accessible_reserved}
use wasmtime.Runtime.Mmap.Reserve.{accessible_reserved_lem, make_accessible_lem}
use wasmtime.Runtime.Memory.{
  vmmemory, make_accessible, LinearMemory, new, grow, grow_to, open_pages, minimum_pages, exceeds,
  allowed_pages, settle,
}
use wasmtime.Runtime.Memory.Valid.{IsValid, sub_usize-eq}
use wasmtime.Runtime.Memory.Growth.{allowed_pages_lem, grow-IsValid}

-- What `new` has done where it succeeds.
record Created (h : Host) (plan : MemoryPlan) (m : LinearMemory) (pages : ℕ) : Type 0 where
  reserved :
      accessible_reserved h
        (plan.memory.minimum * wasm_page_size)
        (pages * wasm_page_size + plan.offset_guard_size)
      ≡ ok m.mmap
  style : minimum_pages plan.style plan.memory.minimum ≡ ok pages
  current : m.current ≡ plan.memory.minimum
  maximum : m.maximum ≡ plan.memory.maximum
  guard : m.offset_guard_size ≡ plan.offset_guard_size
  bounded : plan.memory.minimum ≤ wasm_max_pages
  small : pages * wasm_page_size + plan.offset_guard_size < usize_mod

new-Created :
    (h : Host) (plan : MemoryPlan) (m : LinearMemory)
    → new h plan ≡ ok m
    → (pages : ℕ) × Created h plan m pages
unfolding new checked_add_usize checked_mul_usize
new-Created h plan m e = elim (Outcome-cases (minimum_pages plan.style plan.memory.minimum)) [
  | inl (pages, ep) ↦ (
    pages,
    record {
      reserved = ground arith;
      style = ep;
      current = ground arith;
      maximum = ground arith;
      guard = ground arith;
      bounded = ground arith;
      small = ground arith;
    },
  )
  | inr (inl (x, ex)) ↦ absurd (ground arith)
  | inr (inr p) ↦ absurd (ground arith)
]

-- The memory lies before the guard, whatever its style.
minimum_pages-ge :
    (style : MemoryStyle) (minimum pages : ℕ)
    → minimum_pages style minimum ≡ ok pages
    → minimum ≤ pages
minimum_pages-ge dynamic minimum pages e = ground arith
minimum_pages-ge (static bound) minimum pages e = ground arith

-- A memory that `new` makes from a plan with a guard of whole host pages is valid.
pub new-IsValid :
    (h : Host) (p : ℕ) (plan : MemoryPlan) (m : LinearMemory)
    → plan.offset_guard_size % p ≡ 0
    → new h plan ≡ ok m
    → IsValid p m
new-IsValid h p plan m g e =
    let (pages, c) = new-Created h plan m e in
    let le = minimum_pages-ge plan.style plan.memory.minimum pages c.style in
    let facts = λ (i : ℕ). accessible_reserved_lem h _ _ i m.mmap c.reserved in
    record {
      guard = omega (arith, (facts 0).0, c.guard);
      small = omega (arith, (facts 0).0, c.small);
      room = omega (arith, (facts 0).0, c.guard, c.current, le);
      guard_pages = rw (c.guard) g;
      limit = omega (arith, c.current, c.bounded);
      opened = λ i l. (facts i).1 (omega (arith, c.current));
      unwritten = λ i l. (facts i).2;
    }

-- A memory reserved up front: the mapping has room for `bound` pages, and the declared
-- maximum is no more.
pub record IsStatic (bound : ℕ) (m : LinearMemory) : Type 0 where
  pub reserved : m.mmap.len ≡ bound * wasm_page_size + m.offset_guard_size
  pub maximum : ℕ
  pub declared : m.maximum ≡ some maximum
  pub within : maximum ≤ bound

minimum_pages_static :
    (style : MemoryStyle) (bound minimum pages : ℕ)
    → style ≡ static bound
    → minimum_pages style minimum ≡ ok pages
    → pages ≡ bound
minimum_pages_static style bound minimum pages es e = ground arith

-- A memory that `for_memory` plans as static is created so.
pub new-IsStatic :
    (h : Host) (l : MemoryType) (t : Tunables) (plan : MemoryPlan) (bound : ℕ) (m : LinearMemory)
    → for_memory l t ≡ some plan
    → plan.style ≡ static bound
    → new h plan ≡ ok m
    → IsStatic bound m
unfolding for_memory for_memory_style
new-IsStatic h l t plan bound m ef es en =
    let (pages, c) = new-Created h plan m en in
    elim (Option-cases l.maximum) [
      | inl none_declared ↦ absurd (ground arith)
      | inr (max, declared) ↦ record {
        reserved = omega (
          arith,
          (accessible_reserved_lem h _ _ 0 m.mmap c.reserved).0,
          c.guard,
          minimum_pages_static plan.style bound plan.memory.minimum pages es c.style,
        );
        maximum = max;
        declared = ground (arith, c.maximum);
        within = ground arith;
      }
    ]

-- The memory is where it was, with the same reservation.
record Stays (m m' : LinearMemory) : Type 0 where
  place : m'.mmap.ptr ≡ m.mmap.ptr
  reservation : m'.mmap.len ≡ m.mmap.len
  limit : m'.maximum ≡ m.maximum
  guard : m'.offset_guard_size ≡ m.offset_guard_size

Stays-refl : (m m' : LinearMemory) → m' ≡ m → Stays m m'
Stays-refl m m' e = ground arith

settle-Stays :
    (m m' : LinearMemory) (n start len : ℕ) (r : Option ℕ) (h : Host)
    → settle m n (make_accessible h m.mmap start len) ≡ some (r, m')
    → Stays m m'
settle-Stays m m' n start len r h e = elim (Outcome-cases (make_accessible h m.mmap start len)) [
  | inl (mm, em) ↦ ground (arith, make_accessible_lem h m.mmap mm start len em)
  | inr (inl (x, ex)) ↦ ground arith
  | inr (inr ep) ↦ absurd (ground arith)
]

within_static :
    (bound : ℕ) (m : LinearMemory) (n : ℕ)
    → IsStatic bound m
    → exceeds m.maximum n ≡ false
    → n ≤ bound
within_static bound m n s e = ground (arith, s.declared, s.within)

module _ (h : Host) (p bound : ℕ) (m m' : LinearMemory) (delta : ℕ) (r : Option ℕ) where
  grow-Stays : IsValid p m → IsStatic bound m → grow h m delta ≡ some (r, m') → Stays m m'
  unfolding grow grow_to open_pages
  grow-Stays v s e = elim (ℕ_discrete delta 0) [
    | yes z ↦ Stays-refl m m' (ground arith)
    | no nz ↦ elim (Option-cases (allowed_pages m delta)) [
      | inl never ↦ Stays-refl m m' (ground arith)
      | inr (n, a) ↦
          let (sum, below, max) = allowed_pages_lem m delta n a in
          settle-Stays m m' n (m.current * wasm_page_size) (delta * wasm_page_size) r h (
            ground (
              arith,
              sub_usize-eq m.mmap.len m.offset_guard_size,
              within_static bound m n s max,
              s.reserved,
            ))
    ]
  ]

  -- Growing a valid static memory leaves a static memory, at the same address.
  pub grow-IsStatic :
      IsValid p m
      → IsStatic bound m
      → grow h m delta ≡ some (r, m')
      → IsStatic bound m' × (m'.mmap.ptr ≡ m.mmap.ptr)
  grow-IsStatic v s e =
      let st = grow-Stays v s e in
      (
        record {
          reserved = rw (st.reservation, st.guard) (s.reserved);
          maximum = s.maximum;
          declared = rw (st.limit) (s.declared);
          within = s.within;
        },
        st.place,
      )

-- A run of calls of `grow`, each with the answers that the system gives it; it stops at a panic.
unfoldable pub grow_all : LinearMemory → List (Host × ℕ) → Option LinearMemory
grow_all m [] = some m
grow_all m ((h, delta) ∷ calls) = elim (grow h m delta) [
  | none ↦ none
  | some (r, m') ↦ grow_all m' calls
]

grow_all_stays :
    (p bound : ℕ) (m m' : LinearMemory) (calls : List (Host × ℕ))
    → IsValid p m
    → IsStatic bound m
    → grow_all m calls ≡ some m'
    → m'.mmap.ptr ≡ m.mmap.ptr
unfolding grow_all
grow_all_stays p bound m m' [] v s e = ground arith
grow_all_stays p bound m m' ((h, delta) ∷ calls) v s e = elim (Option-cases (grow h m delta)) [
  | inl panics ↦ absurd (ground arith)
  | inr ((r, m₁), g) ↦
      let (s₁, same) = grow-IsStatic h p bound m m₁ delta r v s g in
      let rest =
        grow_all_stays p bound m₁ m' calls (grow-IsValid h p m delta r m₁ v g) s₁ (ground arith) in
      rest ∙ same
]

-- A memory that `for_memory` plans as static keeps its base address through every run of `grow`
-- calls that does not panic, whatever the system answers.
pub static_never_moves :
    (h : Host) (l : MemoryType) (t : Tunables) (plan : MemoryPlan) (bound : ℕ) (m m' : LinearMemory)
    (calls : List (Host × ℕ))
    → for_memory l t ≡ some plan
    → plan.style ≡ static bound
    → new h plan ≡ ok m
    → grow_all m calls ≡ some m'
    → (vmmemory m').base ≡ (vmmemory m).base
static_never_moves h l t plan bound m m' calls ef es en run =
    grow_all_stays 1 bound m m' calls (new-IsValid h 1 plan m (omega arith) en)
      (new-IsStatic h l t plan bound m ef es en) run
