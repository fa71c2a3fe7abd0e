-- ===== src/Base/Rounding.antt =====
-- Rounding a number up to a multiple of another.
use Prim.Native.Nat.{ℕ, ◌+◌, ◌-◌, ◌*◌, ◌/◌, ◌%◌, ◌≤◌, ◌<◌}
use mathlib.Core.Path.{◌≡◌}
use native.Mathlib.Omega.{arith}
use native.Mathlib.Nat.{div-add-mod, mod-lt, mul-mod_left}
use native.Mathlib.Decide.{dec_lt}

-- Multiples of `w`: one below another is at least `w` below it.
pub multiples_apart : (q k w : ℕ) → k < q → k * w + w ≤ q * w
multiples_apart q k w h = grind arith

module _ (x w : ℕ) (pos : 0 < w) where
  pub round_up_ge : x ≤ (x + (w - 1)) / w * w
  round_up_ge = grind (arith, div-add-mod (x + (w - 1)) w, mod-lt)

  pub round_up_le : (k : ℕ) → x ≤ k * w → (x + (w - 1)) / w * w ≤ k * w
  round_up_le k h = elim (dec_lt k ((x + (w - 1)) / w)) [
    | yes p ↦ grind (arith, div-add-mod (x + (w - 1)) w, multiples_apart ((x + (w - 1)) / w) k w p)
    | no p ↦ grind arith
  ]

  pub round_up_mod : (x + (w - 1)) / w * w % w ≡ 0
  round_up_mod = mul-mod_left ((x + (w - 1)) / w) w
