-- ===== src/Controls/Read.antt =====
-- api_server/controls.py: read_controls. What the file holds may be anything.
use ai_trader.Base.{
  Bool, Option, none, some, if◌then◌else◌, List, [], ◌∷◌, any, Float, String, str_eq,
}
use ai_trader.Controls.Defaults.{
  Setting, or_else, put, flag_in, flag_at, amount_in, level_in, default_amount, choice_in, defaults,
}
use ai_trader.Controls.Keys.{
  layer_name, source_layer_name, source_name, feed_name, clock_name, profile_name, regime_name,
  sleeve_name, whale_feed_name, discovery_name, flag_name, adaptive_name, level_name, sources,
  feed_modes, clock_modes, strategy_profiles, regimes, named_by, choice,
}
use ai_trader.Controls.State.{
  SourceLayer, Source, Regime, Discovery, Adaptive, Budget, State, budget_bounds, cooldown_bounds,
  discovery_bounds, adaptive_bounds, narrowing, adaptive_downstream_off, whale_weight_bounds,
  level_bounds,
}
use ai_trader.Controls.Values.{Block, Object, Saved, unreadable, object, other, get, block_of}

module _ {X : Type 0} ⦃fl : Float X⦄ (env : Setting X) where
  -- The discovery block, re-clamped and narrowed
  unfoldable pub read_discovery : Option (Block X) → Discovery X → Discovery X
  unfolding narrowing
  read_discovery none d = d
  read_discovery (some b) d = narrowing (record {
    discovery_enabled = flag_in env b "discovery_enabled" d.discovery_enabled;
    long_term_sleeve_enabled = flag_in env b "long_term_sleeve_enabled" d.long_term_sleeve_enabled;
    amount = λ k. amount_in env b (discovery_name k) (discovery_bounds k) (d.amount k);
    stage_a_whale_weight =
        level_in env b "stage_a_whale_weight" whale_weight_bounds d.stage_a_whale_weight;
  })

  unfoldable pub read_adaptive : Option (Block X) → Adaptive X → Adaptive X
  unfolding adaptive_downstream_off
  read_adaptive none a = a
  read_adaptive (some b) a = adaptive_downstream_off (record a {
    flag = λ k. flag_in env b (flag_name k) (a.flag k);
    amount = λ k. amount_in env b (adaptive_name k) (adaptive_bounds k) (a.amount k);
    level = λ k. level_in env b (level_name k) (level_bounds k) (a.level k);
  })

  abbrev pub read_flags : {K : Type 0} → Option (Block X) → (K → String) → (K → Bool) → K → Bool
  read_flags none name f k = f k
  read_flags (some b) name f k = flag_in env b (name k) (f k)

  abbrev pub read_sources : Option (Block X) → (SourceLayer → Source) → SourceLayer → Source
  read_sources none f k = f k
  read_sources (some b) f k = choice_in env b (source_layer_name k) source_name sources (f k)

  -- A missing key is clamped too, from the value that stood there
  unfoldable pub read_budget : Option (Block X) → Budget → Budget
  read_budget none b = b
  read_budget (some saved) b = record {
    council_daily_budget =
        default_amount env saved "council_daily_budget" budget_bounds b.council_daily_budget;
    per_symbol_cooldown_minutes =
        default_amount env saved "per_symbol_cooldown_minutes" cooldown_bounds
          b.per_symbol_cooldown_minutes;
  }

  abbrev pub is_whitelisted : String → Bool
  is_whitelisted symbol = any (str_eq symbol) env.whitelist

  -- One pair of the saved pins
  abbrev pub pin : List (String × Regime) → String → Option Regime → List (String × Regime)
  pin pins symbol none = pins
  pin pins symbol (some r) = if is_whitelisted symbol then put symbol r pins else pins

  unfoldable pub pins_from : List (String × Regime) → Block X → List (String × Regime)
  pins_from pins [] = pins
  pins_from pins ((symbol, v) ∷ rest) =
      pins_from (pin pins symbol (named_by regime_name regimes v)) rest

  abbrev pub read_pins : Option (Block X) → List (String × Regime)
  read_pins none = []
  read_pins (some b) = pins_from [] b

  -- `read_controls`, of an object
  unfoldable pub merged : Object X → State X
  unfolding defaults read_discovery read_adaptive read_budget pins_from
  merged saved =
      let d = defaults env in
      record {
        layers = read_flags (block_of (get "layers" saved)) layer_name d.layers;
        layer_sources = read_sources (block_of (get "layer_sources" saved)) d.layer_sources;
        feed_mode = or_else (choice feed_name feed_modes (get "feed_mode" saved)) d.feed_mode;
        clock_mode = or_else (choice clock_name clock_modes (get "clock_mode" saved)) d.clock_mode;
        models = read_flags (block_of (get "models" saved)) env.model_id d.models;
        strategy_profile =
            or_else (choice profile_name strategy_profiles (get "strategy_profile" saved))
              d.strategy_profile;
        gate_enabled = flag_at env saved "gate_enabled" d.gate_enabled;
        auto_promote = flag_at env saved "auto_promote" d.auto_promote;
        rl_enabled = flag_at env saved "rl_enabled" d.rl_enabled;
        budget = read_budget (block_of (get "budget" saved)) d.budget;
        regime_pins = read_pins (block_of (get "regime_pins" saved));
        discovery = read_discovery (block_of (get "discovery" saved)) d.discovery;
        adaptive_realtime =
            read_adaptive (block_of (get "adaptive_realtime" saved)) d.adaptive_realtime;
        sleeves = read_flags (block_of (get "sleeves" saved)) sleeve_name d.sleeves;
        rebalance_requested = flag_at env saved "rebalance_requested" d.rebalance_requested;
        whale_feeds = read_flags (block_of (get "whale_feeds" saved)) whale_feed_name d.whale_feeds;
        pending_promote = or_else (get "pending_promote" saved) d.pending_promote;
        pending_rollback = or_else (get "pending_rollback" saved) d.pending_rollback;
      }

  -- `read_controls`. A file that holds JSON but no object makes it raise.
  unfoldable pub read_controls : Saved X → Option (State X)
  unfolding merged
  read_controls unreadable = some (merged [])
  read_controls (object saved) = some (merged saved)
  read_controls (other v) = none
