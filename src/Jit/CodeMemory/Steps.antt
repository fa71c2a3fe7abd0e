-- ===== src/Jit/CodeMemory/Steps.antt =====
-- wasmtime-jit/src/code_memory.rs: the two steps of `allocate`, a mapping with room and the bytes
-- taken from it.
use wasmtime.Base.{
  dec_lt, subst, ℕ, ◌+◌, ◌%◌, ◌≤◌, ◌<◌, ◌≡◌, ◌⊎◌, inl, inr, refl, ap, sym, ◌∙◌, max, zero, suc,
  some, List, [], ◌∷◌, ◌++◌, length, get_elem?, get_elem?-append, length-append, usize_mod, arith,
}
use wasmtime.Base.Outcomes.{ok, >>=-eq-ok}
use wasmtime.Runtime.Mmap.{Host, Mmap, with_at_least, round_up_to_page_size}
use wasmtime.Runtime.Mmap.Reserve.{accessible_reserved_lem}
use wasmtime.Runtime.Memory.{sub_usize}
use wasmtime.Jit.CodeMemory.{CodeMemory, Block, prepare, carve, refill, writable}
use wasmtime.Jit.CodeMemory.Blocks.{IsValid, Owned, mappings}

-- The last element of a list, and those before it.
pub get_elem?-last {ℓ} :
    {A : Type ℓ} (xs : List A) (x : A) → get_elem? (xs ++ (x ∷ [])) (length xs) ≡ some x
get_elem?-last [] x = refl
get_elem?-last (y ∷ ys) x = get_elem?-last ys x

-- A list with an element added holds the old elements and that one.
pub get_elem?-append_one {ℓ} :
    {A : Type ℓ} (xs : List A) (x c : A) (k : ℕ)
    → get_elem? (xs ++ (x ∷ [])) k ≡ some c
    → (get_elem? xs k ≡ some c) ⊎ ((c ≡ x) × (k ≡ length xs))
get_elem?-append_one [] x c zero e = inr (cc, refl)
get_elem?-append_one [] x c (suc k) e = cc
get_elem?-append_one (y ∷ ys) x c zero e = inl e
get_elem?-append_one (y ∷ ys) x c (suc k) e = elim (get_elem?-append_one ys x c k e) [
  | inl old ↦ inl old
  | inr (last, at) ↦ inr (last, ap suc at)
]

-- The memory that the block comes from: the old one, or one with a fresh current mapping.
pub data Source (h : Host) (m : CodeMemory) (size : ℕ) : CodeMemory → Type 0 where
  room : size ≤ sub_usize m.current.mmap.len m.position → Source h m size m
  fresh :
      (map : Mmap)
      → with_at_least h (max 65536 size) ≡ ok map
      → Source h m size
          (record m { current = writable map; mmaps = m.mmaps ++ (m.current ∷ []); position = 0 })

pub prepare-Source :
    (h : Host) (m n : CodeMemory) (size : ℕ) → prepare h m size ≡ ok n → Source h m size n
prepare-Source h m n size e = elim (dec_lt (sub_usize m.current.mmap.len m.position) size) [
  | no p ↦ subst (Source h m size) (ground arith) (room (omega arith))
  | yes p ↦
      let (map, r, q) = >>=-eq-ok (with_at_least h (max 65536 size)) _ {b = n} (refilled p) in
      subst (Source h m size) (ground arith) (fresh map r)
]
  where
    refilled : sub_usize m.current.mmap.len m.position < size → refill h m size ≡ ok n
    refilled p = ground arith

-- What is taken from the current mapping, for a size that is a `usize` and a position in it.
pub record Carved (m : CodeMemory) (size : ℕ) (b : Block) (m' : CodeMemory) : Type 0 where
  pub mapping : b.mapping ≡ length m.mmaps
  pub start : b.start ≡ m.position
  pub len : b.len ≡ size
  pub next : m' ≡ record m { position = m.position + size }
  pub inside : m.position + size ≤ m.current.mmap.len

pub carve-Carved :
    (m m' : CodeMemory) (size : ℕ) (b : Block)
    → size < usize_mod
    → m.position < usize_mod
    → carve m size ≡ ok (b, m')
    → Carved m size b m'
carve-Carved m m' size b s p e = elim (dec_lt (m.position + size) usize_mod) [
  | yes l ↦
      let unwrapped : (m.position + size) % usize_mod ≡ m.position + size = omega arith in
      record {
        mapping = ground arith;
        start = ground arith;
        len = ground arith;
        next = ground arith;
        inside = ground arith;
      }
  | no l ↦ absurd (ground arith)
]

-- The mappings that a `Source` adds to come after the old ones, which stay.
pub Source-mappings :
    (h : Host) (m n : CodeMemory) (size k : ℕ)
    → Source h m size n
    → k ≤ length m.mmaps
    → get_elem? (mappings n) k ≡ get_elem? (mappings m) k
Source-mappings h m n size k (room _) l = refl
Source-mappings h m n size k (fresh map e) l =
    get_elem?-append (mappings m) (writable map ∷ []) k
      (omega (arith, length-append m.mmaps (m.current ∷ [])))

-- A fresh mapping is no longer than a `usize`.
pub with_at_least-small :
    (h : Host) (size : ℕ) (map : Mmap) → with_at_least h size ≡ ok map → map.len < usize_mod
unfolding with_at_least round_up_to_page_size
with_at_least-small h size map e = omega (
  arith,
  (accessible_reserved_lem h (round_up_to_page_size size h.page_size)
      (round_up_to_page_size size h.page_size) 0 map e).0,
)

pub Source-IsValid :
    (h : Host) (m n : CodeMemory) (size : ℕ) → IsValid m → Source h m size n → IsValid n
Source-IsValid h m n size v (room _) = v
Source-IsValid h m n size v (fresh map e) =
    let more : length (mappings m) ≡ suc (length m.mmaps) =
      length-append m.mmaps (m.current ∷ []) ∙ omega arith in
    record {
      inside = omega arith;
      small = with_at_least-small h (max 65536 size) map e;
      pushed = omega (arith, more, v.pushed);
      old = λ k c r l.
          v.old k c
            (sym (
                get_elem?-append (mappings m) (writable map ∷ []) k (omega (arith, more, v.pushed)))
              ∙ r)
            l;
      young = λ k c r l. elim (get_elem?-append_one (mappings m) (writable map) c k r) [
        | inl old ↦ v.young k c old l
        | inr (last, _) ↦ rw last refl
      ];
    }

pub Source-Owned :
    (h : Host) (m n : CodeMemory) (size : ℕ) (s : Block) → Source h m size n → Owned m s → Owned n s
Source-Owned h m n size s (room _) o = o
Source-Owned h m n size s (fresh map e) (reached, fits) =
    let more : length (mappings m) ≡ suc (length m.mmaps) =
      length-append m.mmaps (m.current ∷ []) ∙ omega arith in
    let at : s.mapping < length (mappings m) = ground (arith, more) in
    (
      inl at,
      λ c r. fits c (sym (get_elem?-append (mappings m) (writable map ∷ []) s.mapping at) ∙ r),
    )
