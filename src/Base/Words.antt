-- ===== src/Base/Words.antt =====
-- Machine words as native numbers: the checked operations of `u32` and `usize` (64 bits).
use Prim.Native.Nat.{ℕ, ◌+◌, ◌*◌, ◌^◌, ◌<◌, ◌≤◌}
use mathlib.Core.Path.{◌≡◌}
use mathlib.Core.Option.{Option, none, some}
use native.Mathlib.Omega.{arith}
use wasmtime.Base.Tests.{ltb, if◌then◌else◌}

abbrev pub u32_mod : ℕ
u32_mod = 2 ^ 32

abbrev pub usize_mod : ℕ
usize_mod = 2 ^ 64

-- `u32::checked_add`, `u32::checked_mul`: `none` on overflow.
unfoldable pub checked_add : ℕ → ℕ → Option ℕ
checked_add a b = if ltb (a + b) u32_mod then some (a + b) else none

unfoldable pub checked_mul : ℕ → ℕ → Option ℕ
checked_mul a b = if ltb (a * b) u32_mod then some (a * b) else none

-- `usize::checked_add`, `usize::checked_mul`.
unfoldable pub checked_add_usize : ℕ → ℕ → Option ℕ
checked_add_usize a b = if ltb (a + b) usize_mod then some (a + b) else none

unfoldable pub checked_mul_usize : ℕ → ℕ → Option ℕ
checked_mul_usize a b = if ltb (a * b) usize_mod then some (a * b) else none

-- `u32::try_from` of a `usize`.
unfoldable pub try_u32 : ℕ → Option ℕ
try_u32 n = if ltb n u32_mod then some n else none

-- A chain of operations of which each may panic: `none` is the panic.
infixl 5 ◌>>=◌ ◌>>◌
abbrev pub ◌>>=◌ {ℓ κ} : {A : Type ℓ} {B : Type κ} → Option A → (A → Option B) → Option B
none >>= f = none
some a >>= f = f a

abbrev pub ◌>>◌ {ℓ} : {B : Type ℓ} → Option (Unit {0}) → Option B → Option B
m >> k = m >>= λ _. k

-- `begin.checked_add(num.checked_mul(size).unwrap()).unwrap()`, in the numbers.
pub checked_array :
    (b n s : ℕ) {r : ℕ} → (checked_mul n s >>= λ x. checked_add b x) ≡ some r → r ≡ b + n * s
unfolding checked_add checked_mul
checked_array b n s h = ground arith

pub checked_array_total :
    (b n s : ℕ)
    → b + n * s < u32_mod
    → (checked_mul n s >>= λ x. checked_add b x) ≡ some (b + n * s)
unfolding checked_add checked_mul
checked_array_total b n s h = ground arith

pub checked_add-some : (a b : ℕ) → a + b < u32_mod → checked_add a b ≡ some (a + b)
unfolding checked_add
checked_add-some a b h = ground arith

pub checked_mul-some : (a b : ℕ) → a * b < u32_mod → checked_mul a b ≡ some (a * b)
unfolding checked_mul
checked_mul-some a b h = ground arith

pub checked_add-none : (a b : ℕ) → u32_mod ≤ a + b → checked_add a b ≡ none
unfolding checked_add
checked_add-none a b h = ground arith
