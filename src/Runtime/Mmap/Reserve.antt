-- ===== src/Runtime/Mmap/Reserve.antt =====
-- wasmtime-runtime/src/mmap.rs: what `accessible_reserved` and `make_accessible` give.
use native.Mathlib.Nat.{zero-mod}
use wasmtime.Base.{
  some, le→leb, false, Option-cases, inl, inr, ℕ, ◌+◌, ◌-◌, ◌%◌, ◌≤◌, ◌<◌, ◌≡◌, ◌≢◌, true,
  if◌then◌else◌, arith, lt→ltb,
}
use wasmtime.Base.Outcomes.{Outcome-cases, ok, err, panic}
use wasmtime.Runtime.Mmap.{
  Host, Mmap, os_error, accessible_reserved, make_accessible, reserve, fresh, protect_range,
}
use wasmtime.Runtime.Mmap.Rounding.{IsPageSize, whole_pages}

-- A successful `make_accessible` keeps the place, the length and the contents, and opens the range
-- on top of what was open.
pub make_accessible_lem :
    (h : Host) (m m' : Mmap) (start len : ℕ)
    → make_accessible h m start len ≡ ok m'
    → m' ≡ protect_range m start len
unfolding make_accessible
make_accessible_lem h m m' start len e = ground arith

-- Asked for whole pages that end before the end of the mapping, it does not panic: it
-- succeeds or fails as the system answers.
pub make_accessible_total :
    (h : Host) (m : Mmap) (start len : ℕ)
    → IsPageSize h.page_size
    → start % h.page_size ≡ 0
    → len % h.page_size ≡ 0
    → start + len < m.len
    → make_accessible h m start len
      ≡ (if h.protected then ok (protect_range m start len) else err os_error)
unfolding make_accessible
make_accessible_total h m start len s a b l = rw (
  whole_pages h start s a,
  whole_pages h len s b,
  lt→ltb len m.len (omega arith),
  lt→ltb start (m.len - len) (omega arith),
)

-- A mapping from `accessible_reserved` has the length asked for, its first bytes are
-- accessible, and it is zero.
pub accessible_reserved_lem :
    (h : Host) (a n i : ℕ) (m : Mmap)
    → accessible_reserved h a n ≡ ok m
    → (m.len ≡ n) × (i < a → m.accessible i ≡ true) × (m.bytes i ≡ 0)
unfolding accessible_reserved make_accessible
accessible_reserved_lem h a n i m e = ground arith

-- A call of `mmap` does not panic, so neither does the reservation if opening the first pages does
-- not.
reserve-ne-panic :
    (h : Host) (a n : ℕ)
    → ((p : ℕ) → a ≢ n → a ≢ 0 → make_accessible h (fresh p n false) 0 a ≢ panic)
    → reserve h a n ≢ panic
unfolding reserve
reserve-ne-panic h a n opened = elim (Option-cases h.mapped) [
  | inl e ↦ rw e (λ r. ground arith)
  | inr (p, e) ↦ rw e (λ r. ground (arith, opened p))
]

-- Asked for whole pages, of a power of two of bytes, with no more accessible than mapped,
-- `accessible_reserved` succeeds or fails as the system answers and does not panic.
pub accessible_reserved-ne-panic :
    (h : Host) (a n : ℕ)
    → IsPageSize h.page_size
    → a % h.page_size ≡ 0
    → n % h.page_size ≡ 0
    → a ≤ n
    → accessible_reserved h a n ≢ panic
unfolding accessible_reserved
accessible_reserved-ne-panic h a n s ea en le =
    rw (le→leb a n le, whole_pages h n s en, whole_pages h a s ea)
      (λ r. ground (arith, reserve-ne-panic h a n opened))
  where
    opened : (p : ℕ) → a ≢ n → a ≢ 0 → make_accessible h (fresh p n false) 0 a ≢ panic
    opened p ne pos r = ground (
      arith,
      make_accessible_total h (fresh p n false) 0 a s (zero-mod h.page_size) ea (omega arith),
    )

-- A range that does not end before the mapping does is refused by an assertion.
pub make_accessible-panic :
    (h : Host) (m : Mmap) (start len : ℕ)
    → m.len ≤ start + len
    → make_accessible h m start len ≡ panic
unfolding make_accessible
make_accessible-panic h m start len l = ground arith

-- Where the system grants every request, the reservation succeeds.
pub accessible_reserved_granted :
    (h : Host) (a n ptr : ℕ)
    → IsPageSize h.page_size
    → a % h.page_size ≡ 0
    → n % h.page_size ≡ 0
    → a ≤ n
    → h.mapped ≡ some ptr
    → h.protected ≡ true
    → (m : Mmap) × (accessible_reserved h a n ≡ ok m)
unfolding accessible_reserved make_accessible
accessible_reserved_granted h a n ptr s ea en le mapped protected =
    elim (Outcome-cases (accessible_reserved h a n)) [
      | inl (m, e) ↦ (m, e)
      | inr (inl (x, e)) ↦ absurd (ground arith)
      | inr (inr e) ↦ absurd (accessible_reserved-ne-panic h a n s ea en le e)
    ]
