-- ===== src/Controls/Defaults.antt =====
-- api_server/controls.py: _defaults, and how one value of a block is read. A block of the configuration is
-- a dict, empty where it is missing.
use ai_trader.Base.{
  ℕ, Bool, true, false, Option, none, some, if◌then◌else◌, List, [], ◌∷◌, Float, String, str_eq,
  pos,
}
use ai_trader.Controls.Keys.{
  feed_name, clock_name, profile_name, whale_feed_name, discovery_name, flag_name, adaptive_name,
  level_name, feed_modes, clock_modes, strategy_profiles, named_by,
}
use ai_trader.Controls.State.{
  real_source, alpaca_paper, real_clock, swing, Slot, Sleeve, quant_core, research_satellite,
  DiscoveryKey, discovery_daily_council_budget, max_finalists, max_survivors,
  max_council_calls_per_pass, crypto_interval_minutes, equity_interval_minutes, AdaptiveKey,
  poll_interval_seconds, max_symbols_per_poll, news_lookback_minutes, adaptive_daily_llm_budget,
  max_interpretations_per_poll, action_max_age_seconds, AdaptiveLevel, materiality_min_sentiment,
  action_min_severity, interpretation_min_relevance, defensive_trim_fraction, Discovery, Adaptive,
  State, budget_bounds, cooldown_bounds, discovery_bounds, adaptive_bounds, whale_weight_bounds,
  level_bounds,
}
use ai_trader.Controls.Values.{
  null, Block, scalar, Object, get, Conversions, truth, truth_of, int_of, float_of, clamp_int,
  clamp_float,
}

-- What the reading takes from elsewhere: the configuration by blocks, the models' ids, the whitelist
pub record Setting (X : Type 0) : Type 0 where
  pub python : Conversions X
  pub config : String → Block X
  pub model_id : Slot → String
  pub whitelist : List String

abbrev pub or_else : {A : Type 0} → Option A → A → A
or_else none d = d
or_else (some a) d = a

-- `pins[symbol] = regime`
unfoldable pub put : {A : Type 0} → String → A → List (String × A) → List (String × A)
put key a [] = (key, a) ∷ []
put key a ((k, b) ∷ rest) =
    let later = put key a rest in if str_eq key k then (k, a) ∷ rest else (k, b) ∷ later

module _ {X : Type 0} ⦃fl : Float X⦄ (env : Setting X) where
  -- `bool(d[key])` where the key is there, else what stood there
  abbrev pub flag_in : Block X → String → Bool → Bool
  flag_in b key d = elim (get key b) [ none ↦ d | some v ↦ truth env.python v ]

  abbrev pub flag_at : Object X → String → Bool → Bool
  flag_at saved key d = elim (get key saved) [ none ↦ d | some v ↦ truth_of env.python v ]

  abbrev pub amount_in : Block X → String → ℕ × ℕ → ℕ → ℕ
  amount_in b key (lo, hi) d = elim (get key b) [
    | none ↦ d
    | some v ↦ clamp_int (int_of env.python v) lo hi
  ]

  abbrev pub level_in : Block X → String → X × X → X → X
  level_in b key (lo, hi) d = elim (get key b) [
    | none ↦ d
    | some v ↦ clamp_float (float_of env.python v) lo hi
  ]

  -- `_clamp_int(d.get(key, fallback), lo, hi)`, and likewise for a float
  abbrev pub default_amount : Block X → String → ℕ × ℕ → ℕ → ℕ
  default_amount b key (lo, hi) fallback =
      amount_in b key (lo, hi) (clamp_int (some (pos fallback)) lo hi)

  abbrev pub default_level : Block X → String → X × X → X → X
  default_level b key (lo, hi) fallback =
      level_in b key (lo, hi) (clamp_float (some fallback) lo hi)

  -- `cfg.get(key)` where it is one of a domain, else the shipped one
  abbrev pub choice_in : {K : Type 0} → Block X → String → (K → String) → List K → K → K
  choice_in b key name ks d =
      or_else (elim (get key b) [ none ↦ none | some v ↦ named_by name ks v ]) d

  abbrev pub discovery_fallback : DiscoveryKey → ℕ
  discovery_fallback discovery_daily_council_budget = 12
  discovery_fallback max_finalists = 12
  discovery_fallback max_survivors = 5
  discovery_fallback max_council_calls_per_pass = 5
  discovery_fallback crypto_interval_minutes = 60
  discovery_fallback equity_interval_minutes = 60

  abbrev pub adaptive_fallback : AdaptiveKey → ℕ
  adaptive_fallback poll_interval_seconds = 60
  adaptive_fallback max_symbols_per_poll = 30
  adaptive_fallback news_lookback_minutes = 15
  adaptive_fallback adaptive_daily_llm_budget = 20
  adaptive_fallback max_interpretations_per_poll = 3
  adaptive_fallback action_max_age_seconds = 300

  abbrev pub level_fallback : AdaptiveLevel → X
  level_fallback materiality_min_sentiment = fl.lit 55 2
  level_fallback action_min_severity = fl.lit 60 2
  level_fallback interpretation_min_relevance = fl.lit 40 2
  level_fallback defensive_trim_fraction = fl.lit 50 2

  unfoldable pub discovery_defaults : Block X → Discovery X
  discovery_defaults d = record {
    discovery_enabled = flag_in d "discovery_enabled" false;
    long_term_sleeve_enabled = flag_in d "long_term_sleeve_enabled" false;
    amount = λ k. default_amount d (discovery_name k) (discovery_bounds k) (discovery_fallback k);
    stage_a_whale_weight = default_level d "stage_a_whale_weight" whale_weight_bounds (fl.lit 15 2);
  }

  unfoldable pub adaptive_defaults : Block X → Adaptive X
  adaptive_defaults a = record {
    flag = λ k. flag_in a (flag_name k) false;
    amount = λ k. default_amount a (adaptive_name k) (adaptive_bounds k) (adaptive_fallback k);
    level = λ k. default_level a (level_name k) (level_bounds k) (level_fallback k);
    adaptive_est_cost_per_call_usd =
        default_level a "adaptive_est_cost_per_call_usd" (fl.lit 0 0, fl.lit 1 0) (fl.lit 2 2);
  }

  abbrev pub default_sleeve : Block X → Sleeve → Bool
  default_sleeve b quant_core = flag_in b "quant_core_enabled" true
  default_sleeve b research_satellite = flag_in b "research_satellite_enabled" false

  -- `_defaults()`
  unfoldable pub defaults : State X
  defaults = record {
    layers = λ k. true;
    layer_sources = λ k. real_source;
    feed_mode = choice_in (env.config "simulation") "feed_mode" feed_name feed_modes alpaca_paper;
    clock_mode = choice_in (env.config "simulation") "clock_mode" clock_name clock_modes real_clock;
    models = λ k. true;
    strategy_profile =
        choice_in (env.config "strategy") "profile" profile_name strategy_profiles swing;
    gate_enabled = flag_in (env.config "llm") "gate_enabled" true;
    auto_promote = flag_in (env.config "adaptive") "dnn_auto_promote_if_better" false;
    rl_enabled = flag_in (env.config "rl") "rl_enabled" false;
    budget = record {
      council_daily_budget =
          default_amount (env.config "council") "council_daily_budget" budget_bounds 30;
      per_symbol_cooldown_minutes =
          default_amount (env.config "council") "per_symbol_council_cooldown_minutes"
            cooldown_bounds 60;
    };
    regime_pins = [];
    discovery = discovery_defaults (env.config "discovery");
    adaptive_realtime = adaptive_defaults (env.config "adaptive_realtime");
    sleeves = default_sleeve (env.config "sleeves");
    rebalance_requested = false;
    whale_feeds = λ k. flag_in (env.config "whale") (whale_feed_name k) false;
    pending_promote = scalar null;
    pending_rollback = scalar null;
  }
