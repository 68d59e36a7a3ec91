-- ===== src/Controls/Write.antt =====
-- api_server/controls.py: _write_controls, up to the text of the file. That the file changes all at once,
-- by os.replace, is the operating system's.
use ai_trader.Base.{ℕ, Bool, List, [], ◌∷◌, ◌++◌, map, String, str_append, pos}
use ai_trader.Controls.Keys.{
  layer_name, source_layer_name, source_name, feed_name, clock_name, profile_name, slot_name,
  regime_name, sleeve_name, whale_feed_name, discovery_name, flag_name, adaptive_name, level_name,
}
use ai_trader.Controls.State.{
  Layer, adaptive, council, dnn_advisory, whale, SourceLayer, council_source, dnn_source,
  whale_source, Slot, llm_primary, llm_secondary, llm_tertiary, Regime, Sleeve, quant_core,
  research_satellite, WhaleFeed, sec_edgar_enabled, whale_live_enabled, whale_alert_enabled,
  DiscoveryKey, discovery_daily_council_budget, max_finalists, max_survivors,
  max_council_calls_per_pass, crypto_interval_minutes, equity_interval_minutes, AdaptiveFlag,
  adaptive_news_feed_enabled, adaptive_watchlist_shaping_enabled, adaptive_react_defensive_enabled,
  AdaptiveKey, poll_interval_seconds, max_symbols_per_poll, news_lookback_minutes,
  adaptive_daily_llm_budget, max_interpretations_per_poll, action_max_age_seconds, AdaptiveLevel,
  materiality_min_sentiment, action_min_severity, interpretation_min_relevance,
  defensive_trim_fraction, Discovery, Adaptive, Budget, State,
}
use ai_trader.Controls.Values.{boolean, integer, real, text, Block, scalar, block, Object}

-- The keys of each dict, in the order of the source
abbrev pub all_layers : List Layer
all_layers = adaptive ∷ council ∷ dnn_advisory ∷ whale ∷ []

abbrev pub source_layers : List SourceLayer
source_layers = council_source ∷ dnn_source ∷ whale_source ∷ []

abbrev pub slots : List Slot
slots = llm_primary ∷ llm_secondary ∷ llm_tertiary ∷ []

abbrev pub all_sleeves : List Sleeve
all_sleeves = quant_core ∷ research_satellite ∷ []

abbrev pub all_whale_feeds : List WhaleFeed
all_whale_feeds = sec_edgar_enabled ∷ whale_live_enabled ∷ whale_alert_enabled ∷ []

abbrev pub discovery_keys : List DiscoveryKey
discovery_keys =
    discovery_daily_council_budget ∷ max_finalists ∷ max_survivors ∷ max_council_calls_per_pass
    ∷ crypto_interval_minutes ∷ equity_interval_minutes ∷ []

abbrev pub adaptive_flags : List AdaptiveFlag
adaptive_flags =
    adaptive_news_feed_enabled ∷ adaptive_watchlist_shaping_enabled
    ∷ adaptive_react_defensive_enabled ∷ []

abbrev pub adaptive_keys : List AdaptiveKey
adaptive_keys =
    poll_interval_seconds ∷ max_symbols_per_poll ∷ news_lookback_minutes ∷ adaptive_daily_llm_budget
    ∷ max_interpretations_per_poll ∷ action_max_age_seconds ∷ []

abbrev pub adaptive_levels : List AdaptiveLevel
adaptive_levels =
    materiality_min_sentiment ∷ action_min_severity ∷ interpretation_min_relevance
    ∷ defensive_trim_fraction ∷ []

abbrev pub flags_block : {X K : Type 0} → (K → String) → List K → (K → Bool) → Block X
flags_block name ks f = map (λ k. (name k, boolean (f k))) ks

abbrev pub amounts_block : {X K : Type 0} → (K → String) → List K → (K → ℕ) → Block X
amounts_block name ks f = map (λ k. (name k, integer (pos (f k)))) ks

module _ {X : Type 0} where
  abbrev pub discovery_block : Discovery X → Block X
  discovery_block d =
      ("discovery_enabled", boolean d.discovery_enabled)
        ∷ ("long_term_sleeve_enabled", boolean d.long_term_sleeve_enabled)
        ∷ amounts_block discovery_name discovery_keys d.amount
      ++ ("stage_a_whale_weight", real d.stage_a_whale_weight) ∷ []

  abbrev pub adaptive_block : Adaptive X → Block X
  adaptive_block a =
      flags_block flag_name adaptive_flags a.flag
      ++ amounts_block adaptive_name adaptive_keys a.amount
      ++ map (λ k. (level_name k, real (a.level k))) adaptive_levels
      ++ ("adaptive_est_cost_per_call_usd", real a.adaptive_est_cost_per_call_usd) ∷ []

  abbrev pub budget_block : Budget → Block X
  budget_block b =
      ("council_daily_budget", integer (pos b.council_daily_budget))
      ∷ ("per_symbol_cooldown_minutes", integer (pos b.per_symbol_cooldown_minutes))
      ∷ []

  abbrev pub pins_block : List (String × Regime) → Block X
  pins_block pins = map (λ p. (p.0, text (regime_name p.1))) pins

  -- The flat keys that the engine reads
  abbrev pub flat_keys : State X → Object X
  flat_keys st =
      map
        (λ k. (
          str_append (source_layer_name k) "_source",
          scalar (text (source_name (st.layer_sources k))),
        ))
        source_layers
      ++ map
          (λ k. (
            str_append (str_append "layer_" (layer_name k)) "_enabled",
            scalar (boolean (st.layers k)),
          ))
          all_layers
      ++ map (λ k. (str_append (slot_name k) "_enabled", scalar (boolean (st.models k)))) slots
      ++ ("rt_council_daily_budget", scalar (integer (pos st.budget.council_daily_budget)))
        ∷ (
          "rt_per_symbol_cooldown_minutes",
          scalar (integer (pos st.budget.per_symbol_cooldown_minutes)),
        )
        ∷ map (λ p. (str_append "regime_pin:" p.0, scalar (text (regime_name p.1)))) st.regime_pins

  -- What `_write_controls` dumps at the time `now`
  unfoldable pub written : (Slot → String) → String → State X → Object X
  written model_id now st =
      ("layers", block (flags_block layer_name all_layers st.layers))
      ∷ (
        "layer_sources",
        block (
            map (λ k. (source_layer_name k, text (source_name (st.layer_sources k))))
              source_layers),
      )
      ∷ ("feed_mode", scalar (text (feed_name st.feed_mode)))
      ∷ ("clock_mode", scalar (text (clock_name st.clock_mode)))
      ∷ ("models", block (flags_block model_id slots st.models))
      ∷ ("strategy_profile", scalar (text (profile_name st.strategy_profile)))
      ∷ ("gate_enabled", scalar (boolean st.gate_enabled))
      ∷ ("auto_promote", scalar (boolean st.auto_promote))
      ∷ ("rl_enabled", scalar (boolean st.rl_enabled))
      ∷ ("budget", block (budget_block st.budget))
      ∷ ("regime_pins", block (pins_block st.regime_pins))
      ∷ ("discovery", block (discovery_block st.discovery))
      ∷ ("adaptive_realtime", block (adaptive_block st.adaptive_realtime))
      ∷ ("sleeves", block (flags_block sleeve_name all_sleeves st.sleeves))
      ∷ ("rebalance_requested", scalar (boolean st.rebalance_requested))
      ∷ ("whale_feeds", block (flags_block whale_feed_name all_whale_feeds st.whale_feeds))
      ∷ ("pending_promote", st.pending_promote)
      ∷ ("pending_rollback", st.pending_rollback)
      ∷ ("ts", scalar (text now))
      ∷ flat_keys st
