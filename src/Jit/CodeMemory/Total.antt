-- ===== src/Jit/CodeMemory/Total.antt =====
-- wasmtime-jit/src/code_memory.rs: `allocate` succeeds, or fails as the system does, without a panic.
use native.Mathlib.Nat.{le-mul_of_pos_right}
use wasmtime.Base.{
  ℕ, ◌+◌, ◌-◌, ◌%◌, ◌*◌, ◌≤◌, ◌<◌, ◌≡◌, ◌≢◌, ◌⊎◌, inl, inr, max, [], ◌∷◌, ◌++◌, usize_mod, arith,
  dec_lt,
}
use wasmtime.Base.Outcomes.{ok, err, panic, Outcome-cases}
use wasmtime.Runtime.Mmap.{Host, Mmap, OsError, with_at_least, round_up_to_page_size}
use wasmtime.Runtime.Mmap.Rounding.{page_pos, IsPageSize, round_up_to_page_size_least}
use wasmtime.Runtime.Mmap.Reserve.{accessible_reserved_lem, accessible_reserved-ne-panic}
use wasmtime.Runtime.Memory.{sub_usize}
use wasmtime.Jit.CodeMemory.{CodeMemory, allocate, carve, writable}
use wasmtime.Jit.CodeMemory.Blocks.{IsValid}

-- The requests for which rounding up to a page does not wrap.
abbrev pub RoundsUp : ℕ → ℕ → Type 0
RoundsUp size p = max 65536 size + (p - 1) < usize_mod

rounded_lt : (size p : ℕ) → round_up_to_page_size size p < usize_mod
unfolding round_up_to_page_size
rounded_lt size p = omega arith

carve-total :
    (m : CodeMemory) (size : ℕ)
    → m.position + size ≤ m.current.mmap.len
    → m.current.mmap.len < usize_mod
    → carve m size ≢ panic
carve-total m size l s e = ground arith

-- For a size that rounds up without wrapping, on a host whose pages are a power of two of bytes,
-- `allocate` of a valid memory does not panic: it returns a block or the system's error.
pub allocate-ne-panic :
    (h : Host) (m : CodeMemory) (size : ℕ)
    → IsPageSize h.page_size
    → RoundsUp size h.page_size
    → IsValid m
    → allocate h m size ≢ panic
unfolding allocate with_at_least
allocate-ne-panic h m size p r v e = elim (dec_lt (sub_usize m.current.mmap.len m.position) size) [
  | no room ↦
      let fits : m.position + size ≤ m.current.mmap.len = omega (arith, v.inside, v.small) in
      carve-total m size fits v.small (ground arith)
  | yes full ↦ refilled full (Outcome-cases (with_at_least h (max 65536 size)))
]
  where
    n : ℕ
    n = round_up_to_page_size (max 65536 size) h.page_size

    enough : (max 65536 size ≤ n) × (n % h.page_size ≡ 0) × (n ≤ max 65536 size * h.page_size)
    enough =
        round_up_to_page_size_least (max 65536 size) h.page_size (max 65536 size) p r
          (le-mul_of_pos_right (max 65536 size) (page_pos p))

    refilled :
        sub_usize m.current.mmap.len m.position < size
        → ((map : Mmap) × (with_at_least h (max 65536 size) ≡ ok map))
          ⊎ (((x : OsError) × (with_at_least h (max 65536 size) ≡ err x))
              ⊎ (with_at_least h (max 65536 size) ≡ panic))
        → ⊥
    refilled full (inl (map, q)) =
        let len : map.len ≡ n = (accessible_reserved_lem h n n 0 map q).0 in
        let next : CodeMemory = record m {
          current = writable map;
          mmaps = m.mmaps ++ (m.current ∷ []);
          position = 0;
        } in
        carve-total next size (omega (arith, len, enough.0))
          (omega (arith, len, rounded_lt (max 65536 size) h.page_size)) (ground arith)
    refilled full (inr (inl (x, q))) = ground arith
    refilled full (inr (inr q)) =
        accessible_reserved-ne-panic h n n p (enough.1) (enough.1) (omega arith) q
