-- ===== src/Controls/RulesKept.antt =====
-- Whatever the control file holds, what read_controls gives keeps the bounds and the rules between fields.
use ai_trader.Base.{Float, some, ◌≡◌, arith}
use ai_trader.Controls.Bounds.{discovery_ordered, adaptive_ordered}
use ai_trader.Controls.Defaults.{Setting}
use ai_trader.Controls.Read.{read_controls}
use ai_trader.Controls.Rules.{
  IsAsymmetric, KeepsRules, InBounds-Between, LevelInBounds-LevelBetween, narrowing-Narrows,
  downstream_off-FollowsFeed,
}
use ai_trader.Controls.State.{
  State, discovery_bounds, adaptive_bounds, budget_bounds, cooldown_bounds, whale_weight_bounds,
  level_bounds,
}
use ai_trader.Controls.Valid.{Shipped, level_ordered, read_controls-IsValid}
use ai_trader.Controls.Validity.{IsValid}
use ai_trader.Controls.Values.{Saved}

module _ {X : Type 0} ⦃fl : Float X⦄ (env : Setting X) where
  IsValid-KeepsRules :
      (st : State X) → IsAsymmetric fl.lt → Shipped env → IsValid env st → KeepsRules env st
  IsValid-KeepsRules st h s v = record {
    amounts = λ k.
        InBounds-Between (discovery_bounds k) (st.discovery.amount k) (discovery_ordered k)
          (v.discovery.amounts k);
    weight =
        LevelInBounds-LevelBetween whale_weight_bounds st.discovery.stage_a_whale_weight h
          s.zero_one v.discovery.weight;
    narrows = narrowing-Narrows st.discovery v.discovery.narrow;
    adaptive_amounts = λ k.
        InBounds-Between (adaptive_bounds k) (st.adaptive_realtime.amount k) (adaptive_ordered k)
          (v.adaptive_realtime.amounts k);
    levels = λ k.
        LevelInBounds-LevelBetween (level_bounds k) (st.adaptive_realtime.level k) h
          (level_ordered env k s) (v.adaptive_realtime.levels k);
    follows_feed = downstream_off-FollowsFeed st.adaptive_realtime v.adaptive_realtime.downstream;
    daily =
        InBounds-Between budget_bounds st.budget.council_daily_budget (omega arith) v.budget.daily;
    cooldown =
        InBounds-Between cooldown_bounds st.budget.per_symbol_cooldown_minutes (omega arith)
          v.budget.cooldown;
    pins_unique = v.pins_unique;
    pins_listed = v.pins_listed;
  }

  -- Whatever the control file holds, if the configuration keeps the rules between its fields and no two floats
  -- are each below the other, then what read_controls gives has the discovery, adaptive and budget numbers
  -- within their bounds, no more survivors than finalists and no more calls than survivors, no downstream
  -- half of the adaptive layer on without the news feed, and pins for symbols of the whitelist alone, one for
  -- each.
  pub read_controls-KeepsRules :
      (saved : Saved X) (st : State X)
      → IsAsymmetric fl.lt
      → Shipped env
      → read_controls env saved ≡ some st
      → KeepsRules env st
  read_controls-KeepsRules saved st h s e =
      IsValid-KeepsRules st h s (read_controls-IsValid env saved st s e)
