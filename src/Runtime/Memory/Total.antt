-- ===== src/Runtime/Memory/Total.antt =====
-- wasmtime-runtime/src/memory.rs: `grow` does not panic, and succeeds where it may.
use native.Mathlib.Nat.{add-mod, zero-mod}
use wasmtime.Base.{
  usize_mod, true, some, inr, Option-cases, inl, ℕ, ◌+◌, ◌-◌, ◌*◌, ◌%◌, ◌≤◌, ◌<◌, ◌≡◌, ◌≢◌, ap, ◌∙◌,
  none, arith, checked_add_usize, dec_lt,
}
use wasmtime.Base.Outcomes.{panic, Outcome-cases}
use wasmtime.Environ.Plan.{wasm_page_size}
use wasmtime.Runtime.Mmap.{protect_range, Host, accessible_reserved}
use wasmtime.Runtime.Mmap.Reserve.{
  make_accessible-panic, accessible_reserved_granted, make_accessible_total,
  accessible_reserved_lem, accessible_reserved-ne-panic,
}
use wasmtime.Runtime.Memory.{
  sub_usize, copy_bytes, LinearMemory, grow, grow_to, move_to, open_pages, allowed_pages,
}
use wasmtime.Runtime.Memory.Valid.{HostPages, wasm_pages-mod, IsValid, sub_usize-eq}
use wasmtime.Runtime.Memory.Growth.{allowed_pages_lem}

sum_pages : (a b p : ℕ) → a % p ≡ 0 → b % p ≡ 0 → (a + b) % p ≡ 0
sum_pages a b p ha hb = add-mod a b p ∙ ap (λ x. x % p) (rw (ha, hb)) ∙ zero-mod p

module _ (h : Host) (m : LinearMemory) (v : IsValid h.page_size m) (s : HostPages h.page_size) where
  move_to-ne-none :
      (n : ℕ) → m.mmap.len - m.offset_guard_size < n * wasm_page_size → move_to h m n ≢ none
  unfolding move_to checked_add_usize
  move_to-ne-none n big e =
      elim (Outcome-cases
        (accessible_reserved h (n * wasm_page_size) (n * wasm_page_size + m.offset_guard_size))) [
          | inl (mm, em) ↦ ground (
            arith,
            sub_usize-eq m.mmap.len m.offset_guard_size,
            (accessible_reserved_lem h _ _ 0 mm em).0,
          )
          | inr (inl (x, ex)) ↦ ground arith
          | inr (inr ep) ↦ absurd (never ep)
        ]
    where
      never :
          accessible_reserved h (n * wasm_page_size) (n * wasm_page_size + m.offset_guard_size)
          ≢ panic
      never =
          accessible_reserved-ne-panic h _ _ s.page (wasm_pages-mod n h.page_size s)
            (sum_pages _ _ h.page_size (wasm_pages-mod n h.page_size s) v.guard_pages) (omega arith)

  open_pages-ne-none :
      (n delta : ℕ)
      → n ≡ m.current + delta
      → n * wasm_page_size ≤ m.mmap.len - m.offset_guard_size
      → 0 < m.offset_guard_size
      → open_pages h m n delta ≢ none
  unfolding open_pages
  open_pages-ne-none n delta sum fit guarded e = ground (
    arith,
    make_accessible_total h m.mmap (m.current * wasm_page_size) (delta * wasm_page_size) s.page
        (wasm_pages-mod m.current h.page_size s) (wasm_pages-mod delta h.page_size s) (omega arith),
  )

  -- On a valid memory with a guard, on a host whose pages are a power of two of bytes and divide a
  -- wasm page, `grow` never panics.
  pub grow-ne-none : (delta : ℕ) → 0 < m.offset_guard_size → grow h m delta ≢ none
  unfolding grow grow_to
  grow-ne-none delta guarded = λ e. elim (Option-cases (allowed_pages m delta)) [
    | inl a ↦ ground arith
    | inr (n, a) ↦
        let (sum, below, _) = allowed_pages_lem m delta n a in
        elim (dec_lt (m.mmap.len - m.offset_guard_size) (n * wasm_page_size)) [
          | yes big ↦
              ground (arith, sub_usize-eq m.mmap.len m.offset_guard_size, move_to-ne-none n big)
          | no fit ↦ ground (
            arith,
            sub_usize-eq m.mmap.len m.offset_guard_size,
            open_pages-ne-none n delta sum (omega arith) guarded,
          )
        ]
  ]

  -- On a valid memory without a guard, on a host whose pages are a power of two of bytes and divide
  -- a wasm page, growing by some pages to the whole of its mapping panics, though the limits allow
  -- it.
  pub grow_unguarded_panics :
      (delta n : ℕ)
      → m.offset_guard_size ≡ 0
      → 0 < delta
      → allowed_pages m delta ≡ some n
      → n * wasm_page_size ≡ m.mmap.len
      → grow h m delta ≡ none
  unfolding grow grow_to open_pages
  grow_unguarded_panics delta n guard pos a whole =
      let (sum, below, _) = allowed_pages_lem m delta n a in
      ground (
        arith,
        sub_usize-eq m.mmap.len m.offset_guard_size,
        make_accessible-panic h m.mmap (m.current * wasm_page_size) (delta * wasm_page_size),
      )

  move_to_granted :
      (n ptr : ℕ)
      → m.mmap.len - m.offset_guard_size < n * wasm_page_size
      → n * wasm_page_size + m.offset_guard_size < usize_mod
      → h.mapped ≡ some ptr
      → h.protected ≡ true
      → (m' : LinearMemory) × (move_to h m n ≡ some (some m.current, m'))
  unfolding move_to checked_add_usize
  move_to_granted n ptr big l mapped protected =
      let (mm, e) =
        accessible_reserved_granted h (n * wasm_page_size)
          (n * wasm_page_size + m.offset_guard_size) ptr s.page (wasm_pages-mod n h.page_size s)
          (sum_pages _ _ h.page_size (wasm_pages-mod n h.page_size s) v.guard_pages) (omega arith)
          mapped protected in
      (
        record m {
          mmap = copy_bytes mm m.mmap (sub_usize m.mmap.len m.offset_guard_size);
          current = n;
        },
        ground (
          arith,
          sub_usize-eq m.mmap.len m.offset_guard_size,
          (accessible_reserved_lem h _ _ 0 mm e).0,
        ),
      )

  -- On a valid memory with a guard, on a host whose pages are a power of two of bytes and divide a
  -- wasm page and which grants every request, growing by some pages that the limits allow succeeds,
  -- provided that the new size and the guard fit a `usize`.
  pub grow_granted :
      (delta n ptr : ℕ)
      → 0 < m.offset_guard_size
      → h.mapped ≡ some ptr
      → h.protected ≡ true
      → 0 < delta
      → allowed_pages m delta ≡ some n
      → n * wasm_page_size + m.offset_guard_size < usize_mod
      → (m' : LinearMemory) × (grow h m delta ≡ some (some m.current, m'))
  unfolding grow grow_to open_pages
  grow_granted delta n ptr guarded mapped protected pos a l =
      let (sum, below, _) = allowed_pages_lem m delta n a in
      elim (dec_lt (m.mmap.len - m.offset_guard_size) (n * wasm_page_size)) [
        | yes big ↦
            let (m', e) = move_to_granted n ptr big l mapped protected in
            (m', ground (arith, sub_usize-eq m.mmap.len m.offset_guard_size))
        | no fit ↦ (
          record m {
            mmap = protect_range m.mmap (m.current * wasm_page_size) (delta * wasm_page_size);
            current = n;
          },
          ground (
            arith,
            sub_usize-eq m.mmap.len m.offset_guard_size,
            make_accessible_total h m.mmap (m.current * wasm_page_size) (delta * wasm_page_size)
                s.page (wasm_pages-mod m.current h.page_size s) (wasm_pages-mod delta h.page_size s)
                (omega arith),
          ),
        )
      ]
