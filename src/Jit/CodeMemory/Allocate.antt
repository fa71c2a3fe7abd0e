-- ===== src/Jit/CodeMemory/Allocate.antt =====
-- wasmtime-jit/src/code_memory.rs: `allocate` hands out bytes that no earlier block has.
use wasmtime.Base.{
  ℕ, ◌+◌, ◌≤◌, ◌<◌, ◌≡◌, inl, inr, ap, sym, ◌∙◌, false, some, length, get_elem?, usize_mod, arith,
}
use wasmtime.Base.Outcomes.{ok, >>=-eq-ok}
use wasmtime.Runtime.Mmap.{Host}
use wasmtime.Jit.CodeMemory.{CodeMap, CodeMemory, Block, allocate, prepare, carve}
use wasmtime.Jit.CodeMemory.Blocks.{IsValid, Owned, Disjoint, mappings, byte_at, read}
use wasmtime.Jit.CodeMemory.Steps.{
  get_elem?-last, Source, prepare-Source, Carved, carve-Carved, Source-mappings, Source-IsValid,
  Source-Owned,
}

-- The mapping of a block taken from the current one.
current_at :
    (n : CodeMemory) (b : Block) (d : CodeMap)
    → b.mapping ≡ length n.mmaps
    → get_elem? (mappings n) b.mapping ≡ some d
    → n.current ≡ d
current_at n b d at r = cc (get_elem?-last n.mmaps n.current, ap (get_elem? (mappings n)) at)

-- `allocate` of a `usize` keeps the invariant.
pub allocate-IsValid :
    (h : Host) (m m' : CodeMemory) (size : ℕ) (b : Block)
    → size < usize_mod
    → IsValid m
    → allocate h m size ≡ ok (b, m')
    → IsValid m'
unfolding allocate
allocate-IsValid h m m' size b s v e =
    let (n, r, q) = >>=-eq-ok (prepare h m size) (λ n. carve n size) e in
    let w : IsValid n = Source-IsValid h m n size v (prepare-Source h m n size r) in
    let c = carve-Carved n m' size b s (omega (arith, w.inside, w.small)) q in
    rw (c.next) (record {
      inside = c.inside;
      small = w.small;
      pushed = w.pushed;
      old = w.old;
      young = w.young;
    })

-- The memory before the block is taken, which is valid, and how the block is taken from it.
pub taken :
    (h : Host) (m m' : CodeMemory) (size : ℕ) (b : Block)
    → size < usize_mod
    → IsValid m
    → allocate h m size ≡ ok (b, m')
    → (n : CodeMemory) × Source h m size n × IsValid n × Carved n size b m'
unfolding allocate
taken h m m' size b s v e =
    let (n, r, q) = >>=-eq-ok (prepare h m size) (λ n. carve n size) e in
    let src : Source h m size n = prepare-Source h m n size r in
    let w : IsValid n = Source-IsValid h m n size v src in
    (n, src, w, carve-Carved n m' size b s (omega (arith, w.inside, w.small)) q)

-- What `allocate` promises of the block it hands out.
pub record Fresh (size : ℕ) (b : Block) (m' : CodeMemory) : Type 0 where
  pub len : b.len ≡ size
  pub latest : b.mapping ≡ length m'.mmaps
  pub owned : Owned m' b
  pub still_writable : m'.current.executable ≡ false

-- In a valid code memory, an `allocate` of a `usize` that returns hands out a block of that many
-- bytes inside the current mapping, which is not executable.
pub allocate-Fresh :
    (h : Host) (m m' : CodeMemory) (size : ℕ) (b : Block)
    → size < usize_mod
    → IsValid m
    → allocate h m size ≡ ok (b, m')
    → Fresh size b m'
allocate-Fresh h m m' size b s v e =
    let (n, src, w, c) = taken h m m' size b s v e in
    record {
      len = c.len;
      latest = c.mapping ∙ ap (λ x. length x.mmaps) (sym c.next);
      owned = rw (c.next) (
        inr (c.mapping, omega (arith, c.start, c.len)),
        λ d r.
            omega (
              arith,
              c.inside,
              c.start,
              c.len,
              ap (λ x. x.mmap.len) (current_at n b d c.mapping r),
            ),
      );
      still_writable =
          rw (c.next)
            (w.young (length n.mmaps) n.current (get_elem?-last n.mmaps n.current) w.pushed);
    }

-- What the blocks handed out before an `allocate` keep.
pub record Untouched (m : CodeMemory) (s b : Block) (m' : CodeMemory) : Type 0 where
  pub owned : Owned m' s
  pub apart : Disjoint s b
  pub contents : (i : ℕ) → read m' s i ≡ read m s i

pub old_mapping : (m : CodeMemory) (s : Block) → Owned m s → s.mapping ≤ length m.mmaps
old_mapping m s (inl x, _) = omega arith
old_mapping m s (inr (x, y), _) = omega arith

-- In a valid code memory, an `allocate` of a `usize` that returns keeps the place and the contents
-- of every block handed out before, and the new block shares no byte with it.
pub allocate-Untouched :
    (h : Host) (m m' : CodeMemory) (size : ℕ) (b s : Block)
    → size < usize_mod
    → IsValid m
    → Owned m s
    → allocate h m size ≡ ok (b, m')
    → Untouched m s b m'
unfolding read
allocate-Untouched h m m' size b s l v o e =
    let (n, src, w, c) = taken h m m' size b l v e in
    let p : Owned n s = Source-Owned h m n size s src o in
    record {
      owned = rw (c.next) (elim (p.0) [ inl x ↦ inl x | inr (x, y) ↦ inr (x, omega arith) ], p.1);
      apart = elim (p.0) [
        | inl x ↦ inl (λ q. omega (arith, c.mapping))
        | inr (x, y) ↦ inr (inl (omega (arith, c.start)))
      ];
      contents = λ i.
          ap (λ x. read x s i) c.next
          ∙ ap (λ r. byte_at r (s.start + i))
              (Source-mappings h m n size s.mapping src (old_mapping m s o));
    }
