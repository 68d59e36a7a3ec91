-- ===== src/Base/Ints.antt =====
-- Python's integers where a difference can fall below 0.
use Prim.Native.Nat.{ℕ, ◌-◌, ◌+◌}
use mathlib.Core.Path.{◌≡◌}
use native.Mathlib.Omega.{arith}
use ai_trader.Base.Tests.{leb, if◌then◌else◌}

pub data ℤ : Type 0 where
  pos negsuc : ℕ → ℤ

-- `m - n`
unfoldable pub minus : ℕ → ℕ → ℤ
minus m n = if leb n m then pos (m - n) else negsuc (n - m - 1)

-- `max(0, n)`
abbrev pub at_least_zero : ℤ → ℕ
at_least_zero (pos n) = n
at_least_zero (negsuc n) = 0

-- A difference that does not fall below 0
pub minus_add : (m n k : ℕ) → m ≡ n + k → minus m n ≡ pos k
unfolding minus
minus_add m n k h = ground (arith, h)
