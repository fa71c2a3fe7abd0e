-- ===== src/Jit/CodeMemory/Blocks.antt =====
-- wasmtime-jit/src/code_memory.rs: the blocks handed out, and the invariant of the allocator.
use wasmtime.Base.{
  ℕ, ◌+◌, ◌≤◌, ◌<◌, ◌≡◌, ◌≢◌, ◌⊎◌, true, false, Option, none, some, List, [], ◌∷◌, ◌++◌, length,
  get_elem?, usize_mod,
}
use wasmtime.Jit.CodeMemory.{CodeMap, CodeMemory, Block}

-- Every mapping by its position, the current one last.
abbrev pub mappings : CodeMemory → List CodeMap
mappings m = m.mmaps ++ (m.current ∷ [])

abbrev pub byte_at : Option CodeMap → ℕ → Option ℕ
byte_at none i = none
byte_at (some c) i = some (c.mmap.bytes i)

-- The byte at an offset of a block, where its mapping is there.
unfoldable pub read : CodeMemory → Block → ℕ → Option ℕ
read m b i = byte_at (get_elem? (mappings m) b.mapping) (b.start + i)

-- The bytes of a mapping that blocks were handed out of.
abbrev pub Frontier : CodeMemory → ℕ → ℕ → Type 0
Frontier m k n = (k < length m.mmaps) ⊎ ((k ≡ length m.mmaps) × (n ≤ m.position))

-- A block that lies in what was handed out.
abbrev pub Owned : CodeMemory → Block → Type 0
Owned m b =
    Frontier m b.mapping (b.start + b.len)
    × ((c : CodeMap) → get_elem? (mappings m) b.mapping ≡ some c → b.start + b.len ≤ c.mmap.len)

abbrev pub Disjoint : Block → Block → Type 0
Disjoint a b = (a.mapping ≢ b.mapping) ⊎ ((a.start + a.len ≤ b.start) ⊎ (b.start + b.len ≤ a.start))

-- The invariant: the position is in the current mapping; exactly the mappings published, the empty
-- ones apart, are executable.
pub record IsValid (m : CodeMemory) : Type 0 where
  pub inside : m.position ≤ m.current.mmap.len
  pub small : m.current.mmap.len < usize_mod
  pub pushed : m.published ≤ length m.mmaps
  pub old :
      (k : ℕ) (c : CodeMap)
      → get_elem? (mappings m) k ≡ some c
      → k < m.published
      → c.mmap.len ≢ 0
      → c.executable ≡ true
  pub young :
      (k : ℕ) (c : CodeMap)
      → get_elem? (mappings m) k ≡ some c
      → m.published ≤ k
      → c.executable ≡ false
