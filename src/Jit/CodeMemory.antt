-- ===== src/Jit/CodeMemory.antt =====
-- wasmtime-jit/src/code_memory.rs: memory for code that is written first and executable later.
pub mod Blocks
pub mod Steps
pub mod Allocate
pub mod Copies
pub mod Publish
pub mod Total
mod Examples
use wasmtime.Base.{
  suc, ◌||◌, ℕ, ◌+◌, ◌-◌, ◌%◌, max, Bool, true, false, ◌&&◌, Option, none, some, List, [], ◌∷◌,
  ◌++◌, length, get_elem?, ltb, leb, ◌==◌, if◌then◌else◌, usize_mod,
}
use wasmtime.Base.Outcomes.{Outcome, ok, err, panic, ◌>>=◌, ◌>>◌, assert}
use wasmtime.Runtime.Mmap.{Host, Mmap, OsError, with_at_least}
use wasmtime.Runtime.Mmap
use wasmtime.Runtime.Memory.{sub_usize}

-- A mapping, and whether `publish` made it executable (and no longer writable).
pub record CodeMap : Type 0 where
  pub mmap : Mmap
  pub executable : Bool

pub record CodeMemory : Type 0 where
  pub current : CodeMap
  pub mmaps : List CodeMap
  pub position : ℕ
  pub published : ℕ

-- A mutable slice that the allocator hands out: the mapping it lies in, by its position in
-- `mmaps`, where `current` takes the position it is pushed to; where it starts; its length.
pub record Block : Type 0 where
  pub mapping : ℕ
  pub start : ℕ
  pub len : ℕ

abbrev pub writable : Mmap → CodeMap
writable m = record { mmap = m; executable = false }

-- `CodeMemory::new`
abbrev pub new : CodeMemory
new = record { current = writable Mmap.new; mmaps = []; position = 0; published = 0 }

-- A fresh current mapping, the old one pushed; nothing has changed where the mapping fails.
abbrev pub refill : Host → CodeMemory → ℕ → Outcome OsError CodeMemory
refill h m size = do
  fresh ← with_at_least h (max 65536 size)
  ok (record m { current = writable fresh; mmaps = m.mmaps ++ (m.current ∷ []); position = 0 })

-- The memory that a block of the size is taken from.
abbrev pub prepare : Host → CodeMemory → ℕ → Outcome OsError CodeMemory
prepare h m size =
    if ltb (sub_usize m.current.mmap.len m.position) size then refill h m size else ok m

-- The next `size` bytes of the current mapping; the assertions are those of the slice.
abbrev pub carve : CodeMemory → ℕ → Outcome OsError (Block × CodeMemory)
carve m size = do
  assert (leb m.position ((m.position + size) % usize_mod))
  assert (leb ((m.position + size) % usize_mod) m.current.mmap.len)
  ok (
    record {
      mapping = length m.mmaps;
      start = m.position;
      len = (m.position + size) % usize_mod - m.position;
    },
    record m { position = (m.position + size) % usize_mod },
  )

-- `CodeMemory::allocate`
unfoldable pub allocate : Host → CodeMemory → ℕ → Outcome OsError (Block × CodeMemory)
allocate h m size = do m' ← prepare h m size; carve m' size

-- The bytes of a mapping with some written from an offset on.
unfoldable pub write_at : (ℕ → ℕ) → ℕ → List ℕ → ℕ → ℕ
write_at bytes start src i = elim (if leb start i then get_elem? src (i - start) else none) [
  | none ↦ bytes i
  | some b ↦ b
]

-- A write into the current mapping.
abbrev pub write_current : CodeMemory → ℕ → List ℕ → CodeMemory
write_current m start src = record m {
  current = record m.current {
    mmap = record m.current.mmap { bytes = write_at m.current.mmap.bytes start src };
  };
}

-- `copy_from_slice`, which panics unless the lengths agree.
abbrev pub copy_from_slice : CodeMemory → Block → List ℕ → Outcome OsError CodeMemory
copy_from_slice m b src = do assert (b.len == length src); ok (write_current m b.start src)

-- `CodeMemory::allocate_copy_of_byte_slice`
unfoldable pub allocate_copy_of_byte_slice :
    Host → CodeMemory → List ℕ → Outcome OsError (Block × CodeMemory)
allocate_copy_of_byte_slice h m slice = do
  (b, m') ← allocate h m (length slice)
  m'' ← copy_from_slice m' b slice
  ok (b, m'')

-- The sum of the lengths, from an unchecked `usize` addition.
abbrev pub total_len : ℕ → List (List ℕ) → ℕ
total_len acc [] = acc
total_len acc (slice ∷ slices) = total_len ((acc + length slice) % usize_mod) slices

-- `split_at_mut` and a copy, for each slice in turn; the tail shrinks.
unfoldable pub fill_blocks :
    CodeMemory → Block → List (List ℕ) → Outcome OsError (List Block × CodeMemory)
fill_blocks m tail [] = ok ([], m)
fill_blocks m tail (slice ∷ slices) = do
  assert (leb (length slice) tail.len)
  m' ← copy_from_slice m (record tail { len = length slice }) slice
  (blocks, m'') ←
      fill_blocks m'
        (record tail { start = tail.start + length slice; len = tail.len - length slice }) slices
  ok (record tail { len = length slice } ∷ blocks, m'')

-- `CodeMemory::allocate_copy_of_byte_slices`
unfoldable pub allocate_copy_of_byte_slices :
    Host → CodeMemory → List (List ℕ) → Outcome OsError (List Block × CodeMemory)
allocate_copy_of_byte_slices h m slices = do
  (b, m') ← allocate h m (total_len 0 slices)
  fill_blocks m' b slices

-- One turn of the loop of `publish`: a mapping that was published before stays; the system answers
-- for one that is not empty, and its refusal is a panic.
abbrev pub protect : (ℕ → Bool) → ℕ → ℕ → CodeMap → Outcome OsError CodeMap
protect answers published k c =
    if ltb k published || c.mmap.len == 0
    then ok c
    else (do assert (answers k); ok (record c { executable = true }))

-- The loop, from the mapping at position `k` on.
unfoldable pub protect_from : (ℕ → Bool) → ℕ → ℕ → List CodeMap → Outcome OsError (List CodeMap)
protect_from answers published k [] = ok []
protect_from answers published k (c ∷ cs) = do
  c' ← protect answers published k c
  cs' ← protect_from answers published (suc k) cs
  ok (c' ∷ cs')

-- `CodeMemory::publish`, with the answers of `region::protect` by the position of the mapping.
unfoldable pub publish : (ℕ → Bool) → CodeMemory → Outcome OsError CodeMemory
publish answers m = do
  mmaps ← protect_from answers m.published 0 (m.mmaps ++ (m.current ∷ []))
  ok (record { current = writable Mmap.new; mmaps = mmaps; position = 0; published = length mmaps })
