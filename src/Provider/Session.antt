-- ===== src/Provider/Session.antt =====
-- The scorings of one process in their order: each sees the latch that those before it left.
pub mod Latching
pub mod Attempts
pub mod Exhaustion
use ai_trader.Base.{Bool, Option, List, [], ◌∷◌, String, Float}
use ai_trader.Council.Vote.{ModelVerdict}
use ai_trader.Provider.Health.{Language, Latch}
use ai_trader.Provider.Call.{Provider, World}
use ai_trader.Provider.Score.{Payload, Scoring, score}

-- One call of `score`, with what it meets
pub record Turn (X : Type 0) : Type 0 where
  pub provider : Provider
  pub world : World
  pub has_key : Bool
  pub mock : ModelVerdict X
  pub extract : String → Option (Payload X)

module _ {X : Type 0} ⦃fl : Float X⦄ (lang : Language) where
  unfoldable pub take_turn : Latch → Turn X → Scoring X
  unfolding score
  take_turn latch t = score lang t.provider t.world t.has_key t.mock t.extract latch

  unfoldable pub session : Latch → List (Turn X) → List (Turn X × Scoring X)
  unfolding take_turn
  session latch [] = []
  session latch (t ∷ rest) = let s = take_turn latch t in (t, s) ∷ session s.latch rest
