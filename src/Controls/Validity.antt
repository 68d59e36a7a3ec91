-- ===== src/Controls/Validity.antt =====
-- The states that the sanitizing of api_server/controls.py leaves as they are.
use ai_trader.Base.{ℕ, true, false, List, All, Float, at_least, at_most, String, str_eq, pos, ◌≡◌}
use ai_trader.Controls.Defaults.{Setting, defaults}
use ai_trader.Controls.Pins.{Unique}
use ai_trader.Controls.Read.{is_whitelisted}
use ai_trader.Controls.State.{
  Slot, llm_primary, llm_secondary, llm_tertiary, Regime, DiscoveryKey, AdaptiveKey, AdaptiveLevel,
  Discovery, Adaptive, Budget, State, budget_bounds, cooldown_bounds, discovery_bounds,
  adaptive_bounds, narrowing, adaptive_downstream_off, whale_weight_bounds, level_bounds,
}
use ai_trader.Controls.Values.{within}

-- A number, and a float, that the clamping leaves as it is
abbrev pub InBounds : ℕ × ℕ → ℕ → Type 0
InBounds (lo, hi) n = within lo hi (pos n) ≡ n

abbrev pub LevelInBounds : {X : Type 0} → ⦃fl : Float X⦄ → X × X → X → Type 0
LevelInBounds (lo, hi) x = at_least lo (at_most hi x) ≡ x

-- The council's models are three.
pub record Distinct (model_id : Slot → String) : Type 0 where
  pub first_second : str_eq (model_id llm_secondary) (model_id llm_primary) ≡ false
  pub first_third : str_eq (model_id llm_tertiary) (model_id llm_primary) ≡ false
  pub second_third : str_eq (model_id llm_tertiary) (model_id llm_secondary) ≡ false

pub record BudgetIsValid (b : Budget) : Type 0 where
  pub daily : InBounds budget_bounds b.council_daily_budget
  pub cooldown : InBounds cooldown_bounds b.per_symbol_cooldown_minutes

module _ {X : Type 0} ⦃fl : Float X⦄ where
  -- A discovery block, and an adaptive one, that the sanitizing leaves as it is
  pub record DiscoveryIsValid (d : Discovery X) : Type 0 where
    pub amounts : (k : DiscoveryKey) → InBounds (discovery_bounds k) (d.amount k)
    pub weight : LevelInBounds whale_weight_bounds d.stage_a_whale_weight
    pub narrow : narrowing d ≡ d

  pub record AdaptiveIsValid (a : Adaptive X) : Type 0 where
    pub amounts : (k : AdaptiveKey) → InBounds (adaptive_bounds k) (a.amount k)
    pub levels : (k : AdaptiveLevel) → LevelInBounds (level_bounds k) (a.level k)
    pub downstream : adaptive_downstream_off a ≡ a

  -- The parts of a state that the reading sanitizes
  pub record Fits (env : Setting X) (d : Discovery X) (a : Adaptive X) (b : Budget)
      (pins : List (String × Regime)) : Type 0 where
    pub discovery : DiscoveryIsValid d
    pub adaptive_realtime : AdaptiveIsValid a
    pub budget : BudgetIsValid b
    pub cost :
        (defaults env).adaptive_realtime.adaptive_est_cost_per_call_usd
        ≡ a.adaptive_est_cost_per_call_usd
    pub pins_unique : Unique pins
    pub pins_listed : All (λ p. is_whitelisted env p.0 ≡ true) pins

  -- A state that is read again as it is
  abbrev pub IsValid : Setting X → State X → Type 0
  IsValid env st = Fits env st.discovery st.adaptive_realtime st.budget st.regime_pins
