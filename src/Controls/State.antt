-- ===== src/Controls/State.antt =====
-- The state that api_server/controls.py hands to the GUI, its domains and its bounds. A dict over a fixed
-- set of keys is a function on that set; `name_of…` gives the key that stands in the file.
use ai_trader.Base.{ℕ, min, Bool, true, false, List, Float, String}
use ai_trader.Controls.Values.{Value}

pub data Layer : Type 0 where
  adaptive council dnn_advisory whale : Layer

pub data SourceLayer : Type 0 where
  council_source dnn_source whale_source : SourceLayer

pub data Source : Type 0 where
  mock real_source : Source

pub data FeedMode : Type 0 where
  alpaca_paper synthetic_regimes replay flat_random_walk : FeedMode

pub data ClockMode : Type 0 where
  real_clock simulated : ClockMode

pub data StrategyProfile : Type 0 where
  swing active_quant : StrategyProfile

-- The slots of the council, whose models are the keys of `models`
pub data Slot : Type 0 where
  llm_primary llm_secondary llm_tertiary : Slot

pub data Regime : Type 0 where
  trending range_bound neutral : Regime

pub data Sleeve : Type 0 where
  quant_core research_satellite : Sleeve

pub data WhaleFeed : Type 0 where
  sec_edgar_enabled whale_live_enabled whale_alert_enabled : WhaleFeed

-- The keys of DISCOVERY_BOUNDS
pub data DiscoveryKey : Type 0 where
  discovery_daily_council_budget max_finalists max_survivors max_council_calls_per_pass :
      DiscoveryKey
  crypto_interval_minutes equity_interval_minutes : DiscoveryKey

pub data AdaptiveFlag : Type 0 where
  adaptive_news_feed_enabled adaptive_watchlist_shaping_enabled : AdaptiveFlag
  adaptive_react_defensive_enabled : AdaptiveFlag

-- The keys of ADAPTIVE_BOUNDS
pub data AdaptiveKey : Type 0 where
  poll_interval_seconds max_symbols_per_poll news_lookback_minutes : AdaptiveKey
  adaptive_daily_llm_budget max_interpretations_per_poll action_max_age_seconds : AdaptiveKey

-- The keys of ADAPTIVE_FLOAT_BOUNDS
pub data AdaptiveLevel : Type 0 where
  materiality_min_sentiment action_min_severity : AdaptiveLevel
  interpretation_min_relevance defensive_trim_fraction : AdaptiveLevel

pub record Discovery (X : Type 0) : Type 0 where
  pub discovery_enabled : Bool
  pub long_term_sleeve_enabled : Bool
  pub amount : DiscoveryKey → ℕ
  pub stage_a_whale_weight : X

pub record Adaptive (X : Type 0) : Type 0 where
  pub flag : AdaptiveFlag → Bool
  pub amount : AdaptiveKey → ℕ
  pub level : AdaptiveLevel → X
  pub adaptive_est_cost_per_call_usd : X

pub record Budget : Type 0 where
  pub council_daily_budget : ℕ
  pub per_symbol_cooldown_minutes : ℕ

pub record State (X : Type 0) : Type 0 where
  pub layers : Layer → Bool
  pub layer_sources : SourceLayer → Source
  pub feed_mode : FeedMode
  pub clock_mode : ClockMode
  pub models : Slot → Bool
  pub strategy_profile : StrategyProfile
  pub gate_enabled : Bool
  pub auto_promote : Bool
  pub rl_enabled : Bool
  pub budget : Budget
  pub regime_pins : List (String × Regime)
  pub discovery : Discovery X
  pub adaptive_realtime : Adaptive X
  pub sleeves : Sleeve → Bool
  pub rebalance_requested : Bool
  pub whale_feeds : WhaleFeed → Bool
  pub pending_promote : Value X
  pub pending_rollback : Value X

-- The bounds, each a pair (lo, hi)
abbrev pub budget_bounds : ℕ × ℕ
budget_bounds = (1, 500)

abbrev pub cooldown_bounds : ℕ × ℕ
cooldown_bounds = (0, 1440)

abbrev pub discovery_bounds : DiscoveryKey → ℕ × ℕ
discovery_bounds discovery_daily_council_budget = (0, 100)
discovery_bounds max_finalists = (1, 50)
discovery_bounds max_survivors = (1, 20)
discovery_bounds max_council_calls_per_pass = (0, 20)
discovery_bounds crypto_interval_minutes = (15, 1440)
discovery_bounds equity_interval_minutes = (15, 1440)

abbrev pub adaptive_bounds : AdaptiveKey → ℕ × ℕ
adaptive_bounds poll_interval_seconds = (15, 3600)
adaptive_bounds max_symbols_per_poll = (1, 29)
adaptive_bounds news_lookback_minutes = (1, 240)
adaptive_bounds adaptive_daily_llm_budget = (0, 200)
adaptive_bounds max_interpretations_per_poll = (0, 20)
adaptive_bounds action_max_age_seconds = (30, 3600)

-- `_narrowing`, on the fields that it reads and changes
abbrev pub narrowed : (DiscoveryKey → ℕ) → DiscoveryKey → ℕ
narrowed f max_survivors = min (f max_survivors) (f max_finalists)
narrowed f max_council_calls_per_pass =
    min (f max_council_calls_per_pass) (min (f max_survivors) (f max_finalists))
narrowed f discovery_daily_council_budget = f discovery_daily_council_budget
narrowed f max_finalists = f max_finalists
narrowed f crypto_interval_minutes = f crypto_interval_minutes
narrowed f equity_interval_minutes = f equity_interval_minutes

abbrev pub with_feed : Bool → (AdaptiveFlag → Bool) → AdaptiveFlag → Bool
with_feed true f k = f k
with_feed false f adaptive_news_feed_enabled = f adaptive_news_feed_enabled
with_feed false f adaptive_watchlist_shaping_enabled = false
with_feed false f adaptive_react_defensive_enabled = false

module _ {X : Type 0} where
  unfoldable pub narrowing : Discovery X → Discovery X
  narrowing d = record d { amount = narrowed d.amount }

  -- `_adaptive_downstream_off`
  unfoldable pub adaptive_downstream_off : Adaptive X → Adaptive X
  adaptive_downstream_off a = record a {
    flag = with_feed (a.flag adaptive_news_feed_enabled) a.flag;
  }

module _ {X : Type 0} ⦃fl : Float X⦄ where
  abbrev pub whale_weight_bounds : X × X
  whale_weight_bounds = (fl.lit 0 0, fl.lit 1 0)

  abbrev pub level_bounds : AdaptiveLevel → X × X
  level_bounds materiality_min_sentiment = (fl.lit 0 0, fl.lit 1 0)
  level_bounds action_min_severity = (fl.lit 0 0, fl.lit 1 0)
  level_bounds interpretation_min_relevance = (fl.lit 0 0, fl.lit 1 0)
  level_bounds defensive_trim_fraction = (fl.lit 1 2, fl.lit 1 0)
