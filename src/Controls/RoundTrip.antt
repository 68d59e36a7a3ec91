-- ===== src/Controls/RoundTrip.antt =====
-- What is written to the control file is what the next reading gives.
use ai_trader.Base.{
  Bool, Option, none, some, map, Float, String, eq_iff, ◌≡◌, refl, ap, ◌∙◌, fun_ext,
}
use ai_trader.Controls.Defaults.{Setting, or_else, flag_in, amount_in, level_in, defaults}
use ai_trader.Controls.Keys.{
  layer_name, source_layer_name, source_name, feed_name, clock_name, profile_name, sleeve_name,
  whale_feed_name, discovery_name, flag_name, adaptive_name, level_name, sources, feed_modes,
  clock_modes, strategy_profiles, named, named_by, choice,
}
use ai_trader.Controls.Pins.{pins-written}
use ai_trader.Controls.Read.{
  read_discovery, read_adaptive, read_flags, read_sources, read_budget, merged,
}
use ai_trader.Controls.State.{
  Layer, adaptive, council, dnn_advisory, whale, SourceLayer, council_source, dnn_source,
  whale_source, Source, mock, real_source, FeedMode, alpaca_paper, synthetic_regimes, replay,
  flat_random_walk, ClockMode, real_clock, simulated, StrategyProfile, swing, active_quant, Slot,
  llm_primary, llm_secondary, llm_tertiary, Sleeve, quant_core, research_satellite, WhaleFeed,
  sec_edgar_enabled, whale_live_enabled, whale_alert_enabled, DiscoveryKey,
  discovery_daily_council_budget, max_finalists, max_survivors, max_council_calls_per_pass,
  crypto_interval_minutes, equity_interval_minutes, AdaptiveFlag, adaptive_news_feed_enabled,
  adaptive_watchlist_shaping_enabled, adaptive_react_defensive_enabled, AdaptiveKey,
  poll_interval_seconds, max_symbols_per_poll, news_lookback_minutes, adaptive_daily_llm_budget,
  max_interpretations_per_poll, action_max_age_seconds, AdaptiveLevel, materiality_min_sentiment,
  action_min_severity, interpretation_min_relevance, defensive_trim_fraction, Discovery, Adaptive,
  Budget, State, discovery_bounds, adaptive_bounds, narrowing, adaptive_downstream_off,
  level_bounds,
}
use ai_trader.Controls.Validity.{
  Distinct, BudgetIsValid, DiscoveryIsValid, AdaptiveIsValid, IsValid,
}
use ai_trader.Controls.Values.{Scalar, boolean, text, scalar, get, truth}
use ai_trader.Controls.Write.{
  all_layers, source_layers, slots, all_sleeves, all_whale_feeds, flags_block, discovery_block,
  adaptive_block, budget_block, written,
}

module _ {X : Type 0} ⦃fl : Float X⦄ (env : Setting X) where
  layers-written :
      (f g : Layer → Bool) (k : Layer)
      → read_flags env (some (flags_block layer_name all_layers f)) layer_name g k ≡ f k
  unfolding get
  layers-written f g adaptive = refl
  layers-written f g council = refl
  layers-written f g dnn_advisory = refl
  layers-written f g whale = refl

  sleeves-written :
      (f g : Sleeve → Bool) (k : Sleeve)
      → read_flags env (some (flags_block sleeve_name all_sleeves f)) sleeve_name g k ≡ f k
  unfolding get
  sleeves-written f g quant_core = refl
  sleeves-written f g research_satellite = refl

  whale_feeds-written :
      (f g : WhaleFeed → Bool) (k : WhaleFeed)
      → read_flags env (some (flags_block whale_feed_name all_whale_feeds f)) whale_feed_name g k
        ≡ f k
  unfolding get
  whale_feeds-written f g sec_edgar_enabled = refl
  whale_feeds-written f g whale_live_enabled = refl
  whale_feeds-written f g whale_alert_enabled = refl

  models_get :
      (f : Slot → Bool) (k : Slot)
      → Distinct env.model_id
      → get (env.model_id k) (flags_block {X = X} env.model_id slots f) ≡ some (boolean (f k))
  unfolding get
  models_get f llm_primary d =
      rw (eq_iff (env.model_id llm_primary) (env.model_id llm_primary)).1 refl
  models_get f llm_secondary d =
      rw (d.first_second, (eq_iff (env.model_id llm_secondary) (env.model_id llm_secondary)).1 refl)
  models_get f llm_tertiary d = rw (
    d.first_third,
    d.second_third,
    (eq_iff (env.model_id llm_tertiary) (env.model_id llm_tertiary)).1 refl,
  )

  models-written :
      (f g : Slot → Bool) (k : Slot)
      → Distinct env.model_id
      → read_flags env (some (flags_block env.model_id slots f)) env.model_id g k ≡ f k
  models-written f g k d =
      ap (λ o. elim o as (λ x. Bool) [ none ↦ g k | some v ↦ truth env.python v ])
        (models_get f k d)

  sources_get :
      (f : SourceLayer → Source) (k : SourceLayer)
      → get {A = Scalar X}
          (source_layer_name k)
          (map (λ j. (source_layer_name j, text (source_name (f j)))) source_layers)
        ≡ some (text (source_name (f k)))
  unfolding get
  sources_get f council_source = refl
  sources_get f dnn_source = refl
  sources_get f whale_source = refl

  named_source : (s d : Source) → or_else (named source_name sources (source_name s)) d ≡ s
  named_source mock d = refl
  named_source real_source d = refl

  sources-written :
      (f g : SourceLayer → Source) (k : SourceLayer)
      → read_sources env
          (some (map (λ j. (source_layer_name j, text (source_name (f j)))) source_layers))
          g
          k
        ≡ f k
  sources-written f g k =
      ap
        (λ o.
          or_else
            (elim o as (λ x. Option Source) [
              | none ↦ none
              | some v ↦ named_by source_name sources v
            ])
            (g k))
        (sources_get f k)
      ∙ named_source (f k) (g k)

  feed_mode-written :
      (m d : FeedMode)
      → or_else (choice {X = X} feed_name feed_modes (some (scalar (text (feed_name m))))) d ≡ m
  feed_mode-written alpaca_paper d = refl
  feed_mode-written synthetic_regimes d = refl
  feed_mode-written replay d = refl
  feed_mode-written flat_random_walk d = refl

  clock_mode-written :
      (m d : ClockMode)
      → or_else (choice {X = X} clock_name clock_modes (some (scalar (text (clock_name m))))) d ≡ m
  clock_mode-written real_clock d = refl
  clock_mode-written simulated d = refl

  strategy_profile-written :
      (m d : StrategyProfile)
      → or_else
          (choice {X = X} profile_name strategy_profiles (some (scalar (text (profile_name m)))))
          d
        ≡ m
  strategy_profile-written swing d = refl
  strategy_profile-written active_quant d = refl

  discovery-written :
      (d d' : Discovery X)
      → DiscoveryIsValid d
      → read_discovery env (some (discovery_block d)) d' ≡ d
  unfolding get read_discovery
  discovery-written d d' v =
      (λ i. narrowing (record d { amount = fun_ext amounts i; stage_a_whale_weight = v.weight i }))
      ∙ v.narrow
    where
      amounts :
          (k : DiscoveryKey)
          → amount_in env (discovery_block d) (discovery_name k) (discovery_bounds k) (d'.amount k)
            ≡ d.amount k
      amounts discovery_daily_council_budget = v.amounts discovery_daily_council_budget
      amounts max_finalists = v.amounts max_finalists
      amounts max_survivors = v.amounts max_survivors
      amounts max_council_calls_per_pass = v.amounts max_council_calls_per_pass
      amounts crypto_interval_minutes = v.amounts crypto_interval_minutes
      amounts equity_interval_minutes = v.amounts equity_interval_minutes

  adaptive-written :
      (a a' : Adaptive X)
      → AdaptiveIsValid a
      → a'.adaptive_est_cost_per_call_usd ≡ a.adaptive_est_cost_per_call_usd
      → read_adaptive env (some (adaptive_block a)) a' ≡ a
  unfolding get read_adaptive
  adaptive-written a a' v c =
      (λ i. adaptive_downstream_off (record {
        flag = fun_ext flags i;
        amount = fun_ext amounts i;
        level = fun_ext levels i;
        adaptive_est_cost_per_call_usd = c i;
      }))
      ∙ v.downstream
    where
      flags :
          (k : AdaptiveFlag) → flag_in env (adaptive_block a) (flag_name k) (a'.flag k) ≡ a.flag k
      flags adaptive_news_feed_enabled = refl
      flags adaptive_watchlist_shaping_enabled = refl
      flags adaptive_react_defensive_enabled = refl

      amounts :
          (k : AdaptiveKey)
          → amount_in env (adaptive_block a) (adaptive_name k) (adaptive_bounds k) (a'.amount k)
            ≡ a.amount k
      amounts poll_interval_seconds = v.amounts poll_interval_seconds
      amounts max_symbols_per_poll = v.amounts max_symbols_per_poll
      amounts news_lookback_minutes = v.amounts news_lookback_minutes
      amounts adaptive_daily_llm_budget = v.amounts adaptive_daily_llm_budget
      amounts max_interpretations_per_poll = v.amounts max_interpretations_per_poll
      amounts action_max_age_seconds = v.amounts action_max_age_seconds

      levels :
          (k : AdaptiveLevel)
          → level_in env (adaptive_block a) (level_name k) (level_bounds k) (a'.level k) ≡ a.level k
      levels materiality_min_sentiment = v.levels materiality_min_sentiment
      levels action_min_severity = v.levels action_min_severity
      levels interpretation_min_relevance = v.levels interpretation_min_relevance
      levels defensive_trim_fraction = v.levels defensive_trim_fraction

  budget-written :
      (b b' : Budget) → BudgetIsValid b → read_budget env (some (budget_block b)) b' ≡ b
  unfolding get read_budget
  budget-written b b' v =
      λ i. record { council_daily_budget = v.daily i; per_symbol_cooldown_minutes = v.cooldown i }

  pub merged-written :
      (now : String) (st : State X)
      → Distinct env.model_id
      → IsValid env st
      → merged env (written env.model_id now st) ≡ st
  unfolding merged written get
  merged-written now st d v = λ i. record {
    layers = fun_ext (layers-written st.layers (defaults env).layers) i;
    layer_sources = fun_ext (sources-written st.layer_sources (defaults env).layer_sources) i;
    feed_mode = feed_mode-written st.feed_mode (defaults env).feed_mode i;
    clock_mode = clock_mode-written st.clock_mode (defaults env).clock_mode i;
    models = fun_ext (λ k. models-written st.models (defaults env).models k d) i;
    strategy_profile =
        strategy_profile-written st.strategy_profile (defaults env).strategy_profile i;
    gate_enabled = st.gate_enabled;
    auto_promote = st.auto_promote;
    rl_enabled = st.rl_enabled;
    budget = budget-written st.budget (defaults env).budget v.budget i;
    regime_pins = pins-written env st.regime_pins v.pins_unique v.pins_listed i;
    discovery = discovery-written st.discovery (defaults env).discovery v.discovery i;
    adaptive_realtime =
        adaptive-written st.adaptive_realtime (defaults env).adaptive_realtime v.adaptive_realtime
          v.cost i;
    sleeves = fun_ext (sleeves-written st.sleeves (defaults env).sleeves) i;
    rebalance_requested = st.rebalance_requested;
    whale_feeds = fun_ext (whale_feeds-written st.whale_feeds (defaults env).whale_feeds) i;
    pending_promote = st.pending_promote;
    pending_rollback = st.pending_rollback;
  }
