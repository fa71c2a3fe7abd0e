-- ===== src/Jit/CodeMemory/Copies.antt =====
-- wasmtime-jit/src/code_memory.rs: the copies of code in the blocks handed out.
use wasmtime.Base.{
  subst, get_elem?-lt, ℕ, ◌+◌, ◌-◌, ◌%◌, ◌≤◌, ◌<◌, ◌≡◌, ◌≢◌, ◌⊎◌, inl, inr, refl, ap, sym, ◌∙◌,
  some, List, [], ◌∷◌, length, get_elem?, get_elem?-none, get_elem?-append, usize_mod, arith,
  ℕ_discrete, leb-eq-false, le→leb,
}
use wasmtime.Base.Outcomes.{ok, >>=-eq-ok, Outcome-cases}
use wasmtime.Runtime.Mmap.{Host}
use wasmtime.Jit.CodeMemory.{
  CodeMemory, Block, allocate, write_at, write_current, allocate_copy_of_byte_slice,
  allocate_copy_of_byte_slices, fill_blocks, total_len,
}
use wasmtime.Jit.CodeMemory.Blocks.{IsValid, Owned, mappings, byte_at, read}
use wasmtime.Jit.CodeMemory.Steps.{get_elem?-last}
use wasmtime.Jit.CodeMemory.Allocate.{
  old_mapping, allocate-Fresh, Fresh, allocate-Untouched, Untouched,
}

-- Inside the range written, the bytes are the source's; outside, they stay.
write_at_inside :
    (bytes : ℕ → ℕ) (start i x : ℕ) (src : List ℕ)
    → get_elem? src i ≡ some x
    → write_at bytes start src (start + i) ≡ x
unfolding write_at
write_at_inside bytes start i x src e =
    let same : start + i - start ≡ i = omega arith in
    rw (write_at, le→leb start (start + i) (omega arith), same, e) refl

write_at_outside :
    (bytes : ℕ → ℕ) (start i : ℕ) (src : List ℕ)
    → (i < start) ⊎ (start + length src ≤ i)
    → write_at bytes start src i ≡ bytes i
unfolding write_at
write_at_outside bytes start i src (inl l) = rw (write_at, leb-eq-false start i l) refl
write_at_outside bytes start i src (inr l) =
    rw (write_at, le→leb start i (omega arith), get_elem?-none src (i - start) (omega arith)) refl

-- The current mapping is read where a block is its latest.
pub read_current :
    (m : CodeMemory) (s : Block) (i : ℕ)
    → s.mapping ≡ length m.mmaps
    → read m s i ≡ some (m.current.mmap.bytes (s.start + i))
unfolding read
read_current m s i at =
    ap (λ k. byte_at (get_elem? (mappings m) k) (s.start + i)) at
    ∙ ap (λ r. byte_at r (s.start + i)) (get_elem?-last m.mmaps m.current)

pub read_written :
    (m : CodeMemory) (s : Block) (start i x : ℕ) (src : List ℕ)
    → s.mapping ≡ length m.mmaps
    → start ≡ s.start
    → get_elem? src i ≡ some x
    → read (write_current m start src) s i ≡ some x
read_written m s start i x src at begin e =
    read_current (write_current m start src) s i at
    ∙ ap some (rw begin (write_at_inside m.current.mmap.bytes s.start i x src e))

-- A write into the current mapping keeps the blocks of the others.
read_elsewhere :
    (m : CodeMemory) (s : Block) (start i : ℕ) (src : List ℕ)
    → s.mapping < length m.mmaps
    → read (write_current m start src) s i ≡ read m s i
unfolding read
read_elsewhere m s start i src l =
    ap (λ r. byte_at r (s.start + i))
      (get_elem?-append m.mmaps _ s.mapping l
        ∙ sym (get_elem?-append m.mmaps (m.current ∷ []) s.mapping l))

-- It keeps the bytes out of its range as well.
pub read_kept :
    (m : CodeMemory) (s : Block) (start i : ℕ) (src : List ℕ)
    → s.mapping ≤ length m.mmaps
    → (s.mapping ≢ length m.mmaps) ⊎ ((s.start + i < start) ⊎ (start + length src ≤ s.start + i))
    → read (write_current m start src) s i ≡ read m s i
read_kept m s start i src le o = elim (ℕ_discrete s.mapping (length m.mmaps)) [
  | yes at ↦
      let out : (s.start + i < start) ⊎ (start + length src ≤ s.start + i) = elim o [
        | inl ne ↦ absurd (ne at)
        | inr out ↦ out
      ] in
      read_current (write_current m start src) s i at
      ∙ ap some (write_at_outside m.current.mmap.bytes start (s.start + i) src out)
      ∙ sym (read_current m s i at)
  | no ne ↦ read_elsewhere m s start i src (omega arith)
]

-- The two steps of a copy.
pub copied :
    (h : Host) (m m' : CodeMemory) (slice : List ℕ) (b : Block)
    → allocate_copy_of_byte_slice h m slice ≡ ok (b, m')
    → (n : CodeMemory) × (allocate h m (length slice) ≡ ok (b, n))
      × (m' ≡ write_current n b.start slice)
unfolding allocate_copy_of_byte_slice
copied h m m' slice b e =
    let ((c, n), r, q) = >>=-eq-ok (allocate h m (length slice)) _ e in
    (n, ground arith, ground arith)

-- What `fill_blocks` promises: each block holds its slice, in order.
abbrev pub Filled : CodeMemory → List Block → List (List ℕ) → Type 0
Filled m [] [] = Unit
Filled m [] (s ∷ ss) = ⊥
Filled m (b ∷ bs) [] = ⊥
Filled m (b ∷ bs) (s ∷ ss) =
    ((b.len ≡ length s) × ((i x : ℕ) → get_elem? s i ≡ some x → read m b i ≡ some x))
    × Filled m bs ss

-- What is left of a block behind its first bytes.
abbrev rest_of : Block → ℕ → Block
rest_of tail n = record tail { start = tail.start + n; len = tail.len - n }

-- A turn of the loop.
filled_once :
    (m m' : CodeMemory) (tail : Block) (slice : List ℕ) (slices : List (List ℕ))
    (blocks : List Block)
    → fill_blocks m tail (slice ∷ slices) ≡ ok (blocks, m')
    → (rest : List Block) × (fill_blocks
          (write_current m tail.start slice)
          (rest_of tail (length slice))
          slices
        ≡ ok (rest, m'))
      × (blocks ≡ record tail { len = length slice } ∷ rest)
unfolding fill_blocks
filled_once m m' tail slice slices blocks e =
    elim (Outcome-cases
      (fill_blocks (write_current m tail.start slice) (rest_of tail (length slice)) slices)) [
        | inl ((rest, n), r) ↦ (rest, ground arith, ground arith)
        | inr (inl (x, r)) ↦ absurd (ground arith)
        | inr (inr r) ↦ absurd (ground arith)
      ]

fill_keeps :
    (m m' : CodeMemory) (tail s : Block) (slices : List (List ℕ)) (blocks : List Block) (i : ℕ)
    → s.mapping ≤ length m.mmaps
    → (s.mapping ≢ length m.mmaps) ⊎ (s.start + i < tail.start)
    → fill_blocks m tail slices ≡ ok (blocks, m')
    → read m' s i ≡ read m s i
unfolding fill_blocks
fill_keeps m m' tail s [] blocks i le o e = ap (λ x. read x s i) (ground arith)
fill_keeps m m' tail s (slice ∷ slices) blocks i le o e =
    let (rest, r, q) = filled_once m m' tail slice slices blocks e in
    fill_keeps (write_current m tail.start slice) m' (rest_of tail (length slice)) s slices rest i
      le (elim o [ inl ne ↦ inl ne | inr l ↦ inr (omega arith) ]) r
    ∙ read_kept m s tail.start i slice le (elim o [ inl ne ↦ inl ne | inr l ↦ inr (inl l) ])

fill-Filled :
    (m m' : CodeMemory) (tail : Block) (slices : List (List ℕ)) (blocks : List Block)
    → tail.mapping ≡ length m.mmaps
    → fill_blocks m tail slices ≡ ok (blocks, m')
    → Filled m' blocks slices
unfolding fill_blocks
fill-Filled m m' tail [] blocks at e = subst (λ bs. Filled m' bs []) {x = []} (ground arith) tt
fill-Filled m m' tail (slice ∷ slices) blocks at e =
    let (rest, r, q) = filled_once m m' tail slice slices blocks e in
    let head : Block = record tail { len = length slice } in
    let n : CodeMemory = write_current m tail.start slice in
    rw q (
      (
        refl,
        λ i x h.
            fill_keeps n m' (rest_of tail (length slice)) head slices rest i (omega arith)
              (inr (omega (arith, get_elem?-lt slice i x h))) r
            ∙ read_written m head tail.start i x slice at refl h,
      ),
      fill-Filled n m' (rest_of tail (length slice)) slices rest at r,
    )

-- A copy of bytes that fit a `usize` is read back, byte by byte, from the block returned.
pub allocate_copy_of_byte_slice_lem :
    (h : Host) (m m' : CodeMemory) (slice : List ℕ) (b : Block) (i x : ℕ)
    → length slice < usize_mod
    → IsValid m
    → allocate_copy_of_byte_slice h m slice ≡ ok (b, m')
    → get_elem? slice i ≡ some x
    → read m' b i ≡ some x
allocate_copy_of_byte_slice_lem h m m' slice b i x l v e r =
    let (n, a, q) = copied h m m' slice b e in
    let f : Fresh (length slice) b n = allocate-Fresh h m n (length slice) b l v a in
    ap (λ y. read y b i) q ∙ read_written n b b.start i x slice f.latest refl r

-- In a valid code memory, a copy of bytes that fit a `usize` changes no byte of a block handed out
-- before, where it returns.
pub copy_keeps_blocks :
    (h : Host) (m m' : CodeMemory) (slice : List ℕ) (b s : Block) (i : ℕ)
    → length slice < usize_mod
    → IsValid m
    → Owned m s
    → i < s.len
    → allocate_copy_of_byte_slice h m slice ≡ ok (b, m')
    → read m' s i ≡ read m s i
copy_keeps_blocks h m m' slice b s i l v o lt e =
    let (n, a, q) = copied h m m' slice b e in
    let f : Fresh (length slice) b n = allocate-Fresh h m n (length slice) b l v a in
    let u : Untouched m s b n = allocate-Untouched h m n (length slice) b s l v o a in
    ap (λ y. read y s i) q
    ∙ read_kept n s b.start i slice (old_mapping n s u.owned) (elim (u.apart) [
      | inl ne ↦ inl (λ c. ne (c ∙ sym f.latest))
      | inr (inl before) ↦ inr (inl (omega arith))
      | inr (inr after) ↦ inr (inr (omega (arith, f.len)))
    ])
    ∙ u.contents i

total_len-lt :
    (acc : ℕ) (slices : List (List ℕ)) → acc < usize_mod → total_len acc slices < usize_mod
total_len-lt acc [] l = l
total_len-lt acc (s ∷ ss) l = total_len-lt ((acc + length s) % usize_mod) ss (omega arith)

-- In a valid code memory, a copy of several slices that returns gives one block for each, in order,
-- with its length, and every byte of the slice is read back from its block.
pub allocate_copy_of_byte_slices-Filled :
    (h : Host) (m m' : CodeMemory) (slices : List (List ℕ)) (blocks : List Block)
    → IsValid m
    → allocate_copy_of_byte_slices h m slices ≡ ok (blocks, m')
    → Filled m' blocks slices
unfolding allocate_copy_of_byte_slices
allocate_copy_of_byte_slices-Filled h m m' slices blocks v e =
    let ((b, n), a, q) = >>=-eq-ok (allocate h m (total_len 0 slices)) _ e in
    let f : Fresh (total_len 0 slices) b n =
      allocate-Fresh h m n (total_len 0 slices) b (total_len-lt 0 slices (omega arith)) v a in
    fill-Filled n m' b slices blocks f.latest q
