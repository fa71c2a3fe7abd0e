-- ===== src/Runtime/Memory/Grow.antt =====
-- wasmtime-runtime/src/memory.rs: `grow` on each of its branches.
use wasmtime.Base.{
  ℕ, ◌+◌, ◌-◌, ◌*◌, ◌≤◌, ◌<◌, ◌≡◌, refl, subst, lt→ltb, dec_lt, Option, none, some, arith,
  usize_mod, checked_add_usize,
}
use wasmtime.Base.Outcomes.{Outcome, ok, err, panic}
use wasmtime.Environ.Plan.{wasm_page_size}
use wasmtime.Runtime.Mmap.{Host, Mmap, OsError, accessible_reserved, make_accessible}
use wasmtime.Runtime.Mmap.Reserve.{make_accessible_lem, accessible_reserved_lem}
use wasmtime.Runtime.Memory.{
  LinearMemory, grow_to, move_to, open_pages, move_into, settle, copy_bytes,
}
use wasmtime.Runtime.Memory.Valid.{IsValid, Extends, sub_usize-eq}

-- What a growth to `n` pages may come to: a refusal that changes nothing, or an extension.
pub data Grows (m : LinearMemory) (n : ℕ) (r : Option ℕ) (m' : LinearMemory) : Type 0 where
  refused : r ≡ none → m' ≡ m → Grows m n r m'
  grown : r ≡ some m.current → Extends m n m' → Grows m n r m'

module _ (p : ℕ) (m : LinearMemory) (v : IsValid p m) (n delta : ℕ)
    (sum : n ≡ m.current + delta) where
  open_bytes :
      (h : Host)
      → n * wasm_page_size ≤ m.mmap.len - m.offset_guard_size
      → (mm : Mmap)
      → make_accessible h m.mmap (m.current * wasm_page_size) (delta * wasm_page_size) ≡ ok mm
      → Extends m n (record m { mmap = mm; current = n })
  open_bytes h fit mm e =
      let shape = make_accessible_lem h m.mmap mm _ _ e in
      rw shape (record {
        pages = refl;
        same_maximum = refl;
        same_guard = refl;
        guard = v.guard;
        small = v.small;
        room = fit;
        opened = λ i l. ground (arith, v.opened i);
        kept = λ i l. refl;
        zeroed = v.unwritten;
      })

  move_bytes :
      (h : Host) (mm : Mmap)
      → n * wasm_page_size + m.offset_guard_size < usize_mod
      → accessible_reserved h (n * wasm_page_size) (n * wasm_page_size + m.offset_guard_size)
        ≡ ok mm
      → m.mmap.len - m.offset_guard_size < n * wasm_page_size
      → Extends m n
          (record m { mmap = copy_bytes mm m.mmap (m.mmap.len - m.offset_guard_size); current = n })
  move_bytes h mm l e big =
      let facts = λ (i : ℕ). accessible_reserved_lem h _ _ i mm e in
      record {
        pages = refl;
        same_maximum = refl;
        same_guard = refl;
        guard = omega (arith, (facts 0).0);
        small = omega (arith, (facts 0).0);
        room = omega (arith, (facts 0).0);
        opened = λ i b. (facts i).1 b;
        kept = λ i b. ground (arith, v.room);
        zeroed = λ i b. ground (arith, (facts i).2, v.unwritten i);
      }

  -- The two ways to finish a growth.
  settle-Grows :
      (o : Outcome OsError Mmap) (r : Option ℕ) (m' : LinearMemory)
      → ((mm : Mmap) → o ≡ ok mm → Extends m n (record m { mmap = mm; current = n }))
      → settle m n o ≡ some (r, m')
      → Grows m n r m'
  settle-Grows (ok mm) r m' ext e =
      grown (ground arith) (subst (Extends m n) (ground arith) (ext mm refl))
  settle-Grows (err x) r m' ext e = refused (ground arith) (ground arith)
  settle-Grows panic r m' ext e = cc

  move_into-Grows :
      (o : Outcome OsError Mmap) (r : Option ℕ) (m' : LinearMemory)
      → ((mm : Mmap)
          → o ≡ ok mm
          → Extends m n (record m {
            mmap = copy_bytes mm m.mmap (m.mmap.len - m.offset_guard_size);
            current = n;
          }))
      → move_into m n o ≡ some (r, m')
      → Grows m n r m'
  move_into-Grows (ok mm) r m' ext e =
      let back = rw (sub_usize-eq m.mmap.len m.offset_guard_size v.guard v.small) at e in
      grown (ground arith) (subst (Extends m n) (ground arith) (ext mm refl))
  move_into-Grows (err x) r m' ext e = refused (ground arith) (ground arith)
  move_into-Grows panic r m' ext e = cc

  open_pages-Grows :
      (h : Host) (r : Option ℕ) (m' : LinearMemory)
      → n * wasm_page_size ≤ m.mmap.len - m.offset_guard_size
      → 0 < delta
      → open_pages h m n delta ≡ some (r, m')
      → Grows m n r m'
  unfolding open_pages
  open_pages-Grows h r m' fit pos e =
      settle-Grows _ r m' (open_bytes h fit)
        (rw (lt→ltb 0 (delta * wasm_page_size) (omega arith)) at e)

  move_to-Grows :
      (h : Host) (r : Option ℕ) (m' : LinearMemory)
      → m.mmap.len - m.offset_guard_size < n * wasm_page_size
      → move_to h m n ≡ some (r, m')
      → Grows m n r m'
  unfolding move_to checked_add_usize
  move_to-Grows h r m' big e = elim (dec_lt (n * wasm_page_size + m.offset_guard_size) usize_mod) [
    | yes l ↦
        move_into-Grows _ r m' (λ mm em. move_bytes h mm l em big)
          (rw (move_to, lt→ltb (n * wasm_page_size + m.offset_guard_size) usize_mod l) at e)
    | no l ↦ refused (ground arith) (ground arith)
  ]

  pub grow_to-Grows :
      (h : Host) (r : Option ℕ) (m' : LinearMemory)
      → 0 < delta
      → grow_to h m n delta ≡ some (r, m')
      → Grows m n r m'
  unfolding grow_to
  grow_to-Grows h r m' pos e =
      elim (dec_lt (m.mmap.len - m.offset_guard_size) (n * wasm_page_size)) [
        | yes big ↦
            move_to-Grows h r m' big (ground (arith, sub_usize-eq m.mmap.len m.offset_guard_size))
        | no small ↦
            open_pages-Grows h r m' (omega arith) pos
              (ground (arith, sub_usize-eq m.mmap.len m.offset_guard_size))
      ]
