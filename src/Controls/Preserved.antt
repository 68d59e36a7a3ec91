-- ===== src/Controls/Preserved.antt =====
-- The state that a setter writes keeps the bounds and the rules between fields, as the one that it read does.
use ai_trader.Base.{
  ltb, Bool, true, not, ◌&&◌, Option, none, some, Float, String, str_eq, ◌≡◌, arith, Bool-cases,
  inl, inr,
}
use ai_trader.Controls.Bounds.{clamp_int-InBounds}
use ai_trader.Controls.Commands.{
  Command, set_discovery, set_long_term, set_rl, set_auto_promote, set_adaptive_flag, set_sleeve,
  set_layer, set_model, set_discovery_settings, set_adaptive_settings, request_rebalance,
  set_source, set_feed_clock, set_budget, set_regime, change,
}
use ai_trader.Controls.Defaults.{Setting}
use ai_trader.Controls.Keys.{
  layer_name, source_layer_name, source_name, feed_name, clock_name, sleeve_name, flag_name,
  sources, feed_modes, clock_modes, named,
}
use ai_trader.Controls.Outcome.{Outside, would_orphan_positions, below_gate, is_alpaca}
use ai_trader.Controls.Pins.{put-Unique, put-All, without-Unique, without-All}
use ai_trader.Controls.PreservedBlocks.{
  Written, guarded-IsValid, change_discovery-IsValid, change_long_term-IsValid,
  change_adaptive_flag-IsValid, change_discovery_settings-IsValid, change_adaptive_settings-IsValid,
}
use ai_trader.Controls.Read.{is_whitelisted}
use ai_trader.Controls.Setters.{
  change_layer, change_sleeve, change_rebalance, change_source, change_feed_clock, change_slot,
  change_model, change_rl, change_auto_promote, change_budget, with_pin, asked_regime, change_pin,
  change_regime,
}
use ai_trader.Controls.State.{
  Layer, SourceLayer, Source, FeedMode, ClockMode, Slot, Regime, Sleeve, State,
}
use ai_trader.Controls.Valid.{Shipped}
use ai_trader.Controls.Validity.{IsValid}
use ai_trader.Controls.Values.{Scalar, int_of}
use ai_trader.Controls.Write.{all_layers, source_layers, slots, all_sleeves, adaptive_flags}

module _ {X : Type 0} ⦃fl : Float X⦄ (env : Setting X) (out : Outside) where
  change_sleeve-IsValid :
      (s : Option Sleeve) (b : Bool) (st : State X)
      → IsValid env st
      → Written (IsValid env) (change_sleeve env out s b (some st))
  unfolding change_sleeve
  change_sleeve-IsValid none b st v = tt
  change_sleeve-IsValid (some s) b st v = v

  change_source-IsValid :
      (l : Option SourceLayer) (s : Option Source) (st : State X)
      → IsValid env st
      → Written (IsValid env) (change_source env out l s (some st))
  unfolding change_source
  change_source-IsValid none s st v = tt
  change_source-IsValid (some l) none st v = tt
  change_source-IsValid (some l) (some s) st v = v

  change_feed_clock-IsValid :
      (f : Option FeedMode) (c : Option ClockMode) (st : State X)
      → IsValid env st
      → Written (IsValid env) (change_feed_clock env out f c (some st))
  unfolding change_feed_clock
  change_feed_clock-IsValid none c st v = tt
  change_feed_clock-IsValid (some f) none st v = tt
  change_feed_clock-IsValid (some f) (some c) st v =
      guarded-IsValid env out
        (is_alpaca st.feed_mode && not (is_alpaca f) && ltb 0 out.open_positions)
        would_orphan_positions _ v

  change_model-IsValid :
      (m : String) (s : Option Slot) (b : Bool) (st : State X)
      → IsValid env st
      → Written (IsValid env) (change_model env out m s b (some st))
  unfolding change_model
  change_model-IsValid m s b st v = elim (Bool-cases (str_eq m "gate")) [
    | inl t ↦ rw (t, change_model) v
    | inr f ↦ rw (f, change_model) (slot s)
  ]
    where
      slot : (s : Option Slot) → Written (IsValid env) (change_slot env out m s b st)
      slot none = tt
      slot (some s) = v

  change_budget-IsValid :
      (d c : Scalar X) (st : State X)
      → IsValid env st
      → Written (IsValid env) (change_budget env out d c (some st))
  unfolding change_budget
  change_budget-IsValid d c st v = record {
    discovery = v.discovery;
    adaptive_realtime = v.adaptive_realtime;
    budget = record {
      daily = clamp_int-InBounds (int_of env.python d) 1 500 (omega arith);
      cooldown = clamp_int-InBounds (int_of env.python c) 0 1440 (omega arith);
    };
    cost = v.cost;
    pins_unique = v.pins_unique;
    pins_listed = v.pins_listed;
  }

  with_pin-IsValid :
      (s : String) (r : Option Regime) (st : State X)
      → is_whitelisted env s ≡ true
      → IsValid env st
      → IsValid env (with_pin env out st s r)
  with_pin-IsValid s none st w v = record {
    discovery = v.discovery;
    adaptive_realtime = v.adaptive_realtime;
    budget = v.budget;
    cost = v.cost;
    pins_unique = without-Unique s st.regime_pins v.pins_unique;
    pins_listed = without-All (λ k. is_whitelisted env k ≡ true) s st.regime_pins v.pins_listed;
  }
  with_pin-IsValid s (some r) st w v = record {
    discovery = v.discovery;
    adaptive_realtime = v.adaptive_realtime;
    budget = v.budget;
    cost = v.cost;
    pins_unique = put-Unique s r st.regime_pins v.pins_unique;
    pins_listed = put-All (λ k. is_whitelisted env k ≡ true) s r st.regime_pins w v.pins_listed;
  }

  change_regime-IsValid :
      (s : String) (r : Option (Option Regime)) (st : State X)
      → IsValid env st
      → Written (IsValid env) (change_regime env out s r (some st))
  unfolding change_regime
  change_regime-IsValid s r st v = elim (Bool-cases (is_whitelisted env s)) [
    | inl t ↦ rw (t, change_regime) (pin r t)
    | inr f ↦ rw (f, change_regime) tt
  ]
    where
      pin :
          (r : Option (Option Regime))
          → is_whitelisted env s ≡ true
          → Written (IsValid env) (change_pin env out s r (some st))
      pin none t = tt
      pin (some r) t = with_pin-IsValid s r st t v

  change_rl-IsValid :
      (b : Bool) (st : State X)
      → IsValid env st
      → Written (IsValid env) (change_rl env out b (some st))
  unfolding change_rl
  change_rl-IsValid b st v =
      guarded-IsValid env out (b && ltb out.real_fills out.rl_gate) below_gate _ v

  change_layer-IsValid :
      (l : Option Layer) (b : Bool) (st : State X)
      → IsValid env st
      → Written (IsValid env) (change_layer env out l b (some st))
  unfolding change_layer
  change_layer-IsValid none b st v = tt
  change_layer-IsValid (some l) b st v = v

  -- Every command
  pub change-IsValid :
      (cmd : Command X) (st : State X)
      → Shipped env
      → IsValid env st
      → Written (IsValid env) (change env out cmd (some st))
  unfolding change change_auto_promote change_rebalance
  change-IsValid (set_discovery b) st s v = change_discovery-IsValid env out b st v
  change-IsValid (set_long_term b) st s v = change_long_term-IsValid env out b st v
  change-IsValid (set_rl b) st s v = change_rl-IsValid b st v
  change-IsValid (set_auto_promote b) st s v = v
  change-IsValid (set_adaptive_flag n b) st s v =
      change_adaptive_flag-IsValid env out (named flag_name adaptive_flags n) b st v
  change-IsValid (set_sleeve l b) st s v =
      change_sleeve-IsValid (named sleeve_name all_sleeves l) b st v
  change-IsValid (set_layer l b) st s v =
      change_layer-IsValid (named layer_name all_layers l) b st v
  change-IsValid (set_discovery_settings n) st s v =
      change_discovery_settings-IsValid env out n st s v
  change-IsValid (set_adaptive_settings n) st s v =
      change_adaptive_settings-IsValid env out n st s v
  change-IsValid (set_model m b) st s v = change_model-IsValid m (named env.model_id slots m) b st v
  change-IsValid request_rebalance st s v = v
  change-IsValid (set_source l n) st s v =
      change_source-IsValid (named source_layer_name source_layers l)
        (named source_name sources (out.lower (out.strip n))) st v
  change-IsValid (set_feed_clock f c) st s v =
      change_feed_clock-IsValid (named feed_name feed_modes (out.strip f))
        (named clock_name clock_modes (out.strip c)) st v
  change-IsValid (set_budget d c) st s v = change_budget-IsValid d c st v
  change-IsValid (set_regime n r) st s v = change_regime-IsValid n (asked_regime env out r) st v
