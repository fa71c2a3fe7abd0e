-- ===== src/Runtime/Memory/Growth.antt =====
-- wasmtime-runtime/src/memory.rs: what every call of `grow` on a valid memory does.
use wasmtime.Base.{
  ℕ, ◌+◌, ◌*◌, ◌≤◌, ◌<◌, ◌≡◌, ◌⊎◌, inl, inr, refl, subst, sym, true, false, Option, none, some,
  arith, checked_add, u32_mod, Option-cases, ℕ_discrete,
}
use wasmtime.Environ.Plan.{wasm_page_size, wasm_max_pages}
use wasmtime.Runtime.Mmap.{Host}
use wasmtime.Runtime.Memory.{LinearMemory, grow, allowed_pages, exceeds, vmmemory}
use wasmtime.Runtime.Memory.Valid.{IsValid, Extends, Extends-IsValid}
use wasmtime.Runtime.Memory.Grow.{refused, grown, grow_to-Grows}

-- The pages that the limits allow: the sum, within the declared maximum and below the largest
-- memory.
pub allowed_pages_lem :
    (m : LinearMemory) (delta n : ℕ)
    → allowed_pages m delta ≡ some n
    → (n ≡ m.current + delta) × (n < wasm_max_pages) × (exceeds m.maximum n ≡ false)
unfolding checked_add
allowed_pages_lem m delta n h = ground arith

-- The three ways a call comes out.
pub data Call (m : LinearMemory) (delta : ℕ) (r : Option ℕ) (m' : LinearMemory) : Type 0 where
  nothing : delta ≡ 0 → r ≡ some m.current → m' ≡ m → Call m delta r m'
  refusal : r ≡ none → m' ≡ m → Call m delta r m'
  growth :
      (n : ℕ)
      → 0 < delta
      → allowed_pages m delta ≡ some n
      → r ≡ some m.current
      → Extends m n m'
      → Call m delta r m'

module _ (h : Host) (p : ℕ) (m : LinearMemory) (delta : ℕ) (r : Option ℕ) (m' : LinearMemory) where
  grow-Call : IsValid p m → grow h m delta ≡ some (r, m') → Call m delta r m'
  unfolding grow
  grow-Call v e = elim (ℕ_discrete delta 0) [
    | yes z ↦ nothing z (ground arith) (ground arith)
    | no nz ↦ elim (Option-cases (allowed_pages m delta)) [
      | inl never ↦ refusal (ground arith) (ground arith)
      | inr (n, a) ↦
          elim (grow_to-Grows p m v n delta (allowed_pages_lem m delta n a).0 h r m' (omega arith)
            (ground arith)) [
              | refused er em ↦ refusal er em
              | grown er x ↦ growth n (omega arith) a er x
            ]
    ]
  ]

  -- On a valid memory, a `grow` that does not panic leaves a valid memory, whatever it returns.
  pub grow-IsValid : IsValid p m → grow h m delta ≡ some (r, m') → IsValid p m'
  grow-IsValid v e = elim (grow-Call v e) [
    | nothing z er em ↦ subst (IsValid p) (sym em) v
    | refusal er em ↦ subst (IsValid p) (sym em) v
    | growth n pos a er x ↦
        let (sum, below, _) = allowed_pages_lem m delta n a in
        Extends-IsValid p m m' n v (omega arith) (omega arith) x
  ]

-- What a successful `grow` promises: the old size is returned, the new size is the sum and within
-- the limits, the contents are kept, and the bytes behind them are zero and, as far as the new size
-- goes, accessible.
pub record Grown (m : LinearMemory) (delta prev : ℕ) (m' : LinearMemory) : Type 0 where
  pub previous : prev ≡ m.current
  pub pages : m'.current ≡ m.current + delta
  pub limits :
      (delta ≡ 0) ⊎ ((m'.current < wasm_max_pages) × (exceeds m.maximum m'.current ≡ false))
  pub kept : (i : ℕ) → i < m.current * wasm_page_size → m'.mmap.bytes i ≡ m.mmap.bytes i
  pub zeroed : (i : ℕ) → m.current * wasm_page_size ≤ i → m'.mmap.bytes i ≡ 0
  pub opened : (i : ℕ) → i < m'.current * wasm_page_size → m'.mmap.accessible i ≡ true

Call-Grown :
    (p : ℕ) (m : LinearMemory) (delta prev : ℕ) (r : Option ℕ) (m' : LinearMemory)
    → IsValid p m
    → r ≡ some prev
    → Call m delta r m'
    → Grown m delta prev m'
Call-Grown p m delta prev r m' v e (nothing z er em) = subst (Grown m delta prev) (sym em) (record {
  previous = ground arith;
  pages = omega arith;
  limits = inl z;
  kept = λ i l. refl;
  zeroed = v.unwritten;
  opened = v.opened;
})
Call-Grown p m delta prev r m' v e (refusal er em) = cc
Call-Grown p m delta prev r m' v e (growth n pos a er x) =
    let (sum, below, max) = allowed_pages_lem m delta n a in
    record {
      previous = ground arith;
      pages = omega (arith, x.pages);
      limits = inr (omega (arith, x.pages), rw (x.pages) max);
      kept = x.kept;
      zeroed = x.zeroed;
      opened = λ i l. x.opened i (rw (x.pages) at l);
    }

-- On a valid memory, a `grow` that returns a size returns the old one; the new size is the sum and,
-- unless nothing was asked for, below 65536 pages and within the declared maximum; the contents are
-- kept, the bytes behind them are zero, and all bytes of the new size are accessible.
pub grow-Grown :
    (h : Host) (p : ℕ) (m : LinearMemory) (delta prev : ℕ) (m' : LinearMemory)
    → IsValid p m
    → grow h m delta ≡ some (some prev, m')
    → Grown m delta prev m'
grow-Grown h p m delta prev m' v e =
    Call-Grown p m delta prev (some prev) m' v refl (grow-Call h p m delta (some prev) m' v e)

-- A memory that has grown by at least one page has a length in bytes that fits in the 32 bits which
-- compiled code reads of it.
pub grown-current_length-lt :
    (h : Host) (p : ℕ) (m : LinearMemory) (delta prev : ℕ) (m' : LinearMemory)
    → IsValid p m
    → 0 < delta
    → grow h m delta ≡ some (some prev, m')
    → (vmmemory m').current_length < u32_mod
grown-current_length-lt h p m delta prev m' v pos e =
    let g = grow-Grown h p m delta prev m' v e in omega (arith, g.limits)

-- On a valid memory, a `grow` that returns no size has changed nothing.
pub grow_refusal :
    (h : Host) (p : ℕ) (m : LinearMemory) (delta : ℕ) (m' : LinearMemory)
    → IsValid p m
    → grow h m delta ≡ some (none, m')
    → m' ≡ m
grow_refusal h p m delta m' v e = elim (grow-Call h p m delta none m' v e) [
  | nothing z er em ↦ em
  | refusal er em ↦ em
  | growth n pos a er x ↦ cc
]
