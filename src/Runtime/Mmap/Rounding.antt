-- ===== src/Runtime/Mmap/Rounding.antt =====
-- wasmtime-runtime/src/mmap.rs: `round_up_to_page_size`, and the test for whole pages.
use Prim.Native.Nat.{bit_and}
use native.Mathlib.Nat.{div-add-mod}
use wasmtime.Base.{
  ℕ, ◌+◌, ◌-◌, ◌*◌, ◌/◌, ◌%◌, ◌^◌, ◌≤◌, ◌<◌, ◌≡◌, true, arith, usize_mod, bit_and_mask, two_pow_pos,
  round_up_ge, round_up_le, round_up_mod,
}
use wasmtime.Runtime.Mmap.{Host, round_up_to_page_size, is_page_multiple}

-- A page has a power of two of bytes, as every host has it.
pub record IsPageSize (p : ℕ) : Type 0 where
  pub exponent : ℕ
  pub power : p ≡ 2 ^ exponent

pub page_pos : {p : ℕ} → IsPageSize p → 0 < p
page_pos s = rw (s.power) (two_pow_pos s.exponent)

pub mask_page : (p x : ℕ) → IsPageSize p → bit_and x (p - 1) ≡ x % p
mask_page p x s = rw (s.power) (bit_and_mask x s.exponent)

-- The assertions' test, for a host of 2 ^ k bytes to a page.
pub whole_pages :
    (h : Host) (n : ℕ) → IsPageSize h.page_size → n % h.page_size ≡ 0 → is_page_multiple h n ≡ true
whole_pages h n s e = rw (mask_page h.page_size n s, e)

-- For a page size that is a power of two, and where the sum does not wrap, the rounded size is a
-- multiple of the page size that is not below the size, and no more than any multiple `k * p` that
-- is not.
pub round_up_to_page_size_least :
    (size p k : ℕ)
    → IsPageSize p
    → size + (p - 1) < usize_mod
    → size ≤ k * p
    → (size ≤ round_up_to_page_size size p)
      × (round_up_to_page_size size p % p ≡ 0)
      × (round_up_to_page_size size p ≤ k * p)
unfolding round_up_to_page_size
round_up_to_page_size_least size p k s h le =
    rw (unwrapped, mask_page p (size + (p - 1)) s, shape)
      (round_up_ge size p pos, round_up_mod size p pos, round_up_le size p pos k le)
  where
    pos : 0 < p
    pos = page_pos s

    unwrapped : (size + (p - 1)) % usize_mod ≡ size + (p - 1)
    unwrapped = omega arith

    shape : size + (p - 1) - (size + (p - 1)) % p ≡ (size + (p - 1)) / p * p
    shape = grind (arith, div-add-mod (size + (p - 1)) p)
