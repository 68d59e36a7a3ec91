-- ===== src/Base/Fixed.antt =====
-- Decimal numbers with nine places: numbers at which the theorems about floats are tried.
use Prim.Native.Nat.{ℕ, zero, suc, ◌+◌, ◌*◌, ◌/◌}
use mathlib.Core.Bool.{Bool, true, false}
use ai_trader.Base.Tests.{ltb, leb}
use ai_trader.Base.Ints.{ℤ, pos, negsuc, minus}
use ai_trader.Base.Floats.{Float}

abbrev pub negate : ℤ → ℤ
negate (pos zero) = pos 0
negate (pos (suc n)) = negsuc n
negate (negsuc n) = pos (suc n)

pub add_ℤ : ℤ → ℤ → ℤ
unfolding minus
add_ℤ (pos m) (pos n) = pos (m + n)
add_ℤ (pos m) (negsuc n) = minus m (suc n)
add_ℤ (negsuc m) (pos n) = minus n (suc m)
add_ℤ (negsuc m) (negsuc n) = negsuc (suc (m + n))

abbrev pub lt_ℤ : ℤ → ℤ → Bool
lt_ℤ (pos m) (pos n) = ltb m n
lt_ℤ (pos m) (negsuc n) = false
lt_ℤ (negsuc m) (pos n) = true
lt_ℤ (negsuc m) (negsuc n) = ltb n m

abbrev pub le_ℤ : ℤ → ℤ → Bool
le_ℤ (pos m) (pos n) = leb m n
le_ℤ (pos m) (negsuc n) = false
le_ℤ (negsuc m) (pos n) = true
le_ℤ (negsuc m) (negsuc n) = leb n m

-- The sign of a product or a quotient
abbrev pub signed : (ℕ → ℕ → ℕ) → ℤ → ℤ → ℤ
signed f (pos m) (pos n) = pos (f m n)
signed f (pos m) (negsuc n) = negate (pos (f m (suc n)))
signed f (negsuc m) (pos n) = negate (pos (f (suc m) n))
signed f (negsuc m) (negsuc n) = pos (f (suc m) (suc n))

abbrev pub unit : ℕ
unit = 1000000000

abbrev pub power : ℕ → ℕ
power zero = 1
power (suc k) = 10 * power k

-- To the nearest multiple of a positive `p`, halves away from 0
abbrev pub round_to : ℕ → ℤ → ℤ
round_to p (pos m) = pos ((2 * m + p) / (2 * p) * p)
round_to p (negsuc m) = negate (pos ((2 * suc m + p) / (2 * p) * p))

instance unfoldable pub fixed : Float ℤ
unfolding add_ℤ
fixed = record {
  lit = λ m k. pos (m * unit / power k);
  lt = lt_ℤ;
  le = le_ℤ;
  add = add_ℤ;
  sub = λ a b. add_ℤ a (negate b);
  mul = signed (λ m n. m * n / unit);
  div = signed (λ m n. m * unit / n);
  neg = negate;
  round = λ n x. round_to (unit / power n) x;
}
