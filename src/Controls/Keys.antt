-- ===== src/Controls/Keys.antt =====
-- The texts that stand for the domains of api_server/controls.py in the file, and the choice among them.
use ai_trader.Base.{Option, none, some, if◌then◌else◌, List, [], ◌∷◌, String, str_eq}
use ai_trader.Controls.Values.{Scalar, text, Value, scalar}
use ai_trader.Controls.State.{
  Layer, adaptive, council, dnn_advisory, whale, SourceLayer, council_source, dnn_source,
  whale_source, Source, mock, real_source, FeedMode, alpaca_paper, synthetic_regimes, replay,
  flat_random_walk, ClockMode, real_clock, simulated, StrategyProfile, swing, active_quant, Slot,
  llm_primary, llm_secondary, llm_tertiary, Regime, trending, range_bound, neutral, Sleeve,
  quant_core, research_satellite, WhaleFeed, sec_edgar_enabled, whale_live_enabled,
  whale_alert_enabled, DiscoveryKey, discovery_daily_council_budget, max_finalists, max_survivors,
  max_council_calls_per_pass, crypto_interval_minutes, equity_interval_minutes, AdaptiveFlag,
  adaptive_news_feed_enabled, adaptive_watchlist_shaping_enabled, adaptive_react_defensive_enabled,
  AdaptiveKey, poll_interval_seconds, max_symbols_per_poll, news_lookback_minutes,
  adaptive_daily_llm_budget, max_interpretations_per_poll, action_max_age_seconds, AdaptiveLevel,
  materiality_min_sentiment, action_min_severity, interpretation_min_relevance,
  defensive_trim_fraction,
}

-- `LAYERS` and what a key of each other domain is written as
abbrev pub layer_name : Layer → String
layer_name adaptive = "adaptive"
layer_name council = "council"
layer_name dnn_advisory = "dnn_advisory"
layer_name whale = "whale"

abbrev pub source_layer_name : SourceLayer → String
source_layer_name council_source = "council"
source_layer_name dnn_source = "dnn_advisory"
source_layer_name whale_source = "whale"

abbrev pub source_name : Source → String
source_name mock = "mock"
source_name real_source = "real"

abbrev pub feed_name : FeedMode → String
feed_name alpaca_paper = "alpaca_paper"
feed_name synthetic_regimes = "synthetic_regimes"
feed_name replay = "replay"
feed_name flat_random_walk = "flat_random_walk"

abbrev pub clock_name : ClockMode → String
clock_name real_clock = "real"
clock_name simulated = "simulated"

abbrev pub profile_name : StrategyProfile → String
profile_name swing = "swing"
profile_name active_quant = "active_quant"

abbrev pub slot_name : Slot → String
slot_name llm_primary = "llm_primary"
slot_name llm_secondary = "llm_secondary"
slot_name llm_tertiary = "llm_tertiary"

abbrev pub regime_name : Regime → String
regime_name trending = "trending"
regime_name range_bound = "range_bound"
regime_name neutral = "neutral"

abbrev pub sleeve_name : Sleeve → String
sleeve_name quant_core = "quant_core"
sleeve_name research_satellite = "research_satellite"

abbrev pub whale_feed_name : WhaleFeed → String
whale_feed_name sec_edgar_enabled = "sec_edgar_enabled"
whale_feed_name whale_live_enabled = "whale_live_enabled"
whale_feed_name whale_alert_enabled = "whale_alert_enabled"

abbrev pub discovery_name : DiscoveryKey → String
discovery_name discovery_daily_council_budget = "discovery_daily_council_budget"
discovery_name max_finalists = "max_finalists"
discovery_name max_survivors = "max_survivors"
discovery_name max_council_calls_per_pass = "max_council_calls_per_pass"
discovery_name crypto_interval_minutes = "crypto_interval_minutes"
discovery_name equity_interval_minutes = "equity_interval_minutes"

abbrev pub flag_name : AdaptiveFlag → String
flag_name adaptive_news_feed_enabled = "adaptive_news_feed_enabled"
flag_name adaptive_watchlist_shaping_enabled = "adaptive_watchlist_shaping_enabled"
flag_name adaptive_react_defensive_enabled = "adaptive_react_defensive_enabled"

abbrev pub adaptive_name : AdaptiveKey → String
adaptive_name poll_interval_seconds = "poll_interval_seconds"
adaptive_name max_symbols_per_poll = "max_symbols_per_poll"
adaptive_name news_lookback_minutes = "news_lookback_minutes"
adaptive_name adaptive_daily_llm_budget = "adaptive_daily_llm_budget"
adaptive_name max_interpretations_per_poll = "max_interpretations_per_poll"
adaptive_name action_max_age_seconds = "action_max_age_seconds"

abbrev pub level_name : AdaptiveLevel → String
level_name materiality_min_sentiment = "materiality_min_sentiment"
level_name action_min_severity = "action_min_severity"
level_name interpretation_min_relevance = "interpretation_min_relevance"
level_name defensive_trim_fraction = "defensive_trim_fraction"

-- The members of each domain
abbrev pub sources : List Source
sources = mock ∷ real_source ∷ []

abbrev pub feed_modes : List FeedMode
feed_modes = alpaca_paper ∷ synthetic_regimes ∷ replay ∷ flat_random_walk ∷ []

abbrev pub clock_modes : List ClockMode
clock_modes = real_clock ∷ simulated ∷ []

abbrev pub strategy_profiles : List StrategyProfile
strategy_profiles = swing ∷ active_quant ∷ []

abbrev pub regimes : List Regime
regimes = trending ∷ range_bound ∷ neutral ∷ []

-- The member that a text names, if any
abbrev pub named : {K : Type 0} → (K → String) → List K → String → Option K
named name [] s = none
named name (k ∷ ks) s = let later = named name ks s in if str_eq s (name k) then some k else later

abbrev pub named_by : {X K : Type 0} → (K → String) → List K → Scalar X → Option K
named_by name ks (text s) = named name ks s
named_by name ks _ = none

-- `saved.get(key) in …`
abbrev pub choice : {X K : Type 0} → (K → String) → List K → Option (Value X) → Option K
choice name ks none = none
choice name ks (some (scalar v)) = named_by name ks v
choice name ks (some _) = none
