-- ===== src/Runtime/Mmap.antt =====
-- wasmtime-runtime/src/mmap.rs: page-aligned mappings of zero-filled memory (the Unix code).
pub mod Rounding
pub mod Reserve
mod Examples
use Prim.Native.Nat.{bit_and}
use wasmtime.Base.{
  ℕ, ◌+◌, ◌-◌, ◌%◌, Bool, true, false, ◌&&◌, ◌||◌, Option, none, some, ltb, leb, ◌==◌,
  if◌then◌else◌, usize_mod,
}
use wasmtime.Base.Outcomes.{Outcome, ok, err, panic, ◌>>=◌, ◌>>◌, assert}

-- What the operating system answers during one operation: the page size of
-- `region::page::size`, the address that `mmap` returns, if any, and whether `protect` succeeds.
pub record Host : Type 0 where
  pub page_size : ℕ
  pub mapped : Option ℕ
  pub protected : Bool

-- An error of the operating system.
pub data OsError : Type 0 where
  os_error : OsError

-- A mapping, with the access rights and the contents of its pages, by the offset of a byte.
pub record Mmap : Type 0 where
  pub ptr : ℕ
  pub len : ℕ
  pub accessible : ℕ → Bool
  pub bytes : ℕ → ℕ

-- `x & !m`
abbrev and_not : ℕ → ℕ → ℕ
and_not x m = x - bit_and x m

-- The sum is an unchecked `usize` addition.
unfoldable pub round_up_to_page_size : ℕ → ℕ → ℕ
round_up_to_page_size size page_size =
    and_not ((size + (page_size - 1)) % usize_mod) (page_size - 1)

-- `Mmap::new`: a dangling pointer that is not null, and no bytes.
abbrev pub new : Mmap
new = record { ptr = 1; len = 0; accessible = λ i. false; bytes = λ i. 0 }

abbrev pub is_page_multiple : Host → ℕ → Bool
is_page_multiple h n = bit_and n (h.page_size - 1) == 0

-- Fresh pages at an address, zero-filled, all accessible or none of them.
abbrev pub fresh : ℕ → ℕ → Bool → Mmap
fresh ptr len rights = record {
  ptr = ptr;
  len = len;
  accessible = λ i. rights && ltb i len;
  bytes = λ i. 0;
}

abbrev pub protect_range : Mmap → ℕ → ℕ → Mmap
protect_range m start len = record m {
  accessible = λ i. m.accessible i || (leb start i && ltb i (start + len));
}

unfoldable pub make_accessible : Host → Mmap → ℕ → ℕ → Outcome OsError Mmap
make_accessible h m start len = do
  assert (is_page_multiple h start)
  assert (is_page_multiple h len)
  assert (ltb len m.len)
  assert (ltb start (m.len - len))
  if h.protected then ok (protect_range m start len) else err os_error

-- `libc::mmap`
abbrev pub map_pages : Host → ℕ → Bool → Outcome OsError Mmap
map_pages h len rights = elim h.mapped [
  | none ↦ err os_error
  | some ptr ↦ ok (fresh ptr len rights)
]

-- A mapping of `mapping_size` bytes that is not empty.
reserve : Host → ℕ → ℕ → Outcome OsError Mmap
reserve h accessible_size mapping_size =
    if accessible_size == mapping_size then map_pages h mapping_size true else (do
      m ← map_pages h mapping_size false
      if accessible_size == 0 then ok m else make_accessible h m 0 accessible_size)

unfoldable pub accessible_reserved : Host → ℕ → ℕ → Outcome OsError Mmap
unfolding reserve
accessible_reserved h accessible_size mapping_size = do
  assert (leb accessible_size mapping_size)
  assert (is_page_multiple h mapping_size)
  assert (is_page_multiple h accessible_size)
  if mapping_size == 0 then ok new else reserve h accessible_size mapping_size

unfoldable pub with_at_least : Host → ℕ → Outcome OsError Mmap
with_at_least h size =
    accessible_reserved h (round_up_to_page_size size h.page_size)
      (round_up_to_page_size size h.page_size)
