-- ===== src/Base/Floats.antt =====
-- Python's floats, as the code uses them: a type with the operations and comparisons that the
-- source writes. The language's float arithmetic is not code of the repository, so a theorem that
-- needs a law of it names that law among its hypotheses.
use Prim.Native.Nat.{ℕ}
use mathlib.Core.Bool.{Bool}
use ai_trader.Base.Tests.{if◌then◌else◌}

pub record Float (X : Type 0) : Type 0 where
  -- `lit m k` is the literal m / 10 ^ k
  pub lit : ℕ → ℕ → X
  pub lt : X → X → Bool
  pub le : X → X → Bool
  pub add : X → X → X
  pub sub : X → X → X
  pub mul : X → X → X
  pub div : X → X → X
  pub neg : X → X
  -- `round(x, n)`
  pub round : ℕ → X → X

module _ {X : Type 0} ⦃fl : Float X⦄ where
  -- `max(low, x)`
  abbrev pub at_least : X → X → X
  at_least low x = if fl.lt low x then x else low

  -- `min(high, x)`
  abbrev pub at_most : X → X → X
  at_most high x = if fl.lt x high then x else high

  -- `max(0.0, min(1.0, x))`
  abbrev pub clamp01 : X → X
  clamp01 x = at_least (fl.lit 0 0) (at_most (fl.lit 1 0) x)
