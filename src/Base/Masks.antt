-- ===== src/Base/Masks.antt =====
-- Masking by `2 ^ k - 1`, as page-size arithmetic does it.
use Prim.Native.Nat.{
  ℕ, zero, suc, ◌+◌, ◌-◌, ◌*◌, ◌/◌, ◌%◌, ◌^◌, ◌≤◌, ◌<◌, min, bit_and, digits, bit_and-bitwise,
}
use mathlib.Core.Path.{◌≡◌, sym, ap, ◌∙◌}
use native.Mathlib.Omega.{arith}
use native.Mathlib.Nat.{
  div-add-mod, mod-lt, mul-add-mod_self_left, mod-eq_of_lt, pow-suc, one-le-pow, zero-mod,
}

pub two_pow_pos : (k : ℕ) → 0 < 2 ^ k
two_pow_pos k = one-le-pow k 2 (omega arith)

-- The remainder by `2 * p` from the remainder by `p` of the half.
mod_double : (a p : ℕ) → 0 < p → a / 2 % p * 2 + a % 2 ≡ a % (p * 2)
mod_double a p h = sym (
    ap (λ n. n % (p * 2)) split
    ∙ mul-add-mod_self_left (p * 2) (a / 2 / p) (a / 2 % p * 2 + a % 2)
    ∙ mod-eq_of_lt small)
  where
    low : a / 2 % p < p
    low = mod-lt (a / 2) h

    half : p * (a / 2 / p) + a / 2 % p ≡ a / 2
    half = div-add-mod (a / 2) p

    split : a ≡ p * 2 * (a / 2 / p) + (a / 2 % p * 2 + a % 2)
    split = omega (arith, half)

    small : a / 2 % p * 2 + a % 2 < p * 2
    small = omega (arith, low)

mask_digits : (n a k : ℕ) → a ≤ n → digits (λ b. zero) min n a (2 ^ k - 1) ≡ a % 2 ^ k
mask_digits zero zero k h = sym (zero-mod (2 ^ k))
mask_digits zero (suc a) k h = absurd (omega arith)
mask_digits (suc n) zero k h = sym (zero-mod (2 ^ k))
mask_digits (suc n) (suc a) zero h = omega (arith, mask_digits n (suc a / 2) zero (omega arith))
mask_digits (suc n) (suc a) (suc k) h =
    let pos : 0 < 2 ^ k = two_pow_pos k in
    let half : (2 ^ suc k - 1) / 2 ≡ 2 ^ k - 1 = omega (arith, pow-suc 2 k, pos) in
    let odd : (2 ^ suc k - 1) % 2 ≡ 1 = omega (arith, pow-suc 2 k, pos) in
    rw (half, odd, pow-suc, mask_digits n (suc a / 2) k (omega arith))
      (omega (arith, mod_double (suc a) (2 ^ k) pos))

pub bit_and_mask : (a k : ℕ) → bit_and a (2 ^ k - 1) ≡ a % 2 ^ k
bit_and_mask a k = bit_and-bitwise a (2 ^ k - 1) ∙ mask_digits a a k (omega arith)
