-- ===== src/Runtime/Memory/Valid.antt =====
-- wasmtime-runtime/src/memory.rs: the invariant of a linear memory, and what a growth does to it.
use native.Mathlib.Nat.{mul-mod_left, mul_assoc}
use wasmtime.Base.{ℕ, ◌-◌, ◌*◌, ◌%◌, ◌≤◌, ◌<◌, ◌≡◌, sym, ap, ◌∙◌, true, arith, usize_mod}
use wasmtime.Environ.Plan.{wasm_page_size, wasm_max_pages}
use wasmtime.Runtime.Mmap.Rounding.{IsPageSize}
use wasmtime.Runtime.Memory.{LinearMemory, sub_usize}

-- The host's pages: a power of two of bytes, and a whole number of them to a wasm page.
pub record HostPages (p : ℕ) : Type 0 where
  pub page : IsPageSize p
  pub per_wasm_page : ℕ
  pub divides : wasm_page_size ≡ per_wasm_page * p

pub wasm_pages-mod : (n p : ℕ) → HostPages p → n * wasm_page_size % p ≡ 0
wasm_pages-mod n p s =
    ap (λ w. n * w % p) s.divides
    ∙ ap (λ x. x % p) (sym (mul_assoc n s.per_wasm_page p))
    ∙ mul-mod_left (n * s.per_wasm_page) p

-- The invariant. The part of the mapping before the guard holds the memory; the memory is
-- accessible, and what lies behind it has never been written.
pub record IsValid (p : ℕ) (m : LinearMemory) : Type 0 where
  pub guard : m.offset_guard_size ≤ m.mmap.len
  pub small : m.mmap.len < usize_mod
  pub room : m.current * wasm_page_size ≤ m.mmap.len - m.offset_guard_size
  pub guard_pages : m.offset_guard_size % p ≡ 0
  pub limit : m.current ≤ wasm_max_pages
  pub opened : (i : ℕ) → i < m.current * wasm_page_size → m.mmap.accessible i ≡ true
  pub unwritten : (i : ℕ) → m.current * wasm_page_size ≤ i → m.mmap.bytes i ≡ 0

-- `m'` is `m` grown to `n` pages: the contents are kept and the new pages are zero.
pub record Extends (m : LinearMemory) (n : ℕ) (m' : LinearMemory) : Type 0 where
  pub pages : m'.current ≡ n
  pub same_maximum : m'.maximum ≡ m.maximum
  pub same_guard : m'.offset_guard_size ≡ m.offset_guard_size
  pub guard : m'.offset_guard_size ≤ m'.mmap.len
  pub small : m'.mmap.len < usize_mod
  pub room : n * wasm_page_size ≤ m'.mmap.len - m'.offset_guard_size
  pub opened : (i : ℕ) → i < n * wasm_page_size → m'.mmap.accessible i ≡ true
  pub kept : (i : ℕ) → i < m.current * wasm_page_size → m'.mmap.bytes i ≡ m.mmap.bytes i
  pub zeroed : (i : ℕ) → m.current * wasm_page_size ≤ i → m'.mmap.bytes i ≡ 0

pub Extends-IsValid :
    (p : ℕ) (m m' : LinearMemory) (n : ℕ)
    → IsValid p m
    → m.current ≤ n
    → n ≤ wasm_max_pages
    → Extends m n m'
    → IsValid p m'
Extends-IsValid p m m' n v le l e = record {
  guard = e.guard;
  small = e.small;
  room = rw (e.pages) (e.room);
  guard_pages = rw (e.same_guard) (v.guard_pages);
  limit = rw (e.pages) l;
  opened = λ i h. e.opened i (rw (e.pages) at h);
  unwritten = λ i h. e.zeroed i (ground arith);
}

pub sub_usize-eq : (a b : ℕ) → b ≤ a → a < usize_mod → sub_usize a b ≡ a - b
sub_usize-eq a b h l = omega arith
