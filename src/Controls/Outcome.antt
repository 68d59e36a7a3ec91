-- ===== src/Controls/Outcome.antt =====
-- What the setters of api_server/controls.py ask elsewhere, what they come to, and what they do to one field.
use ai_trader.Base.{
  ℕ, Bool, true, false, ◌&&◌, ◌||◌, Option, none, some, is_some, if◌then◌else◌, List, [], ◌∷◌,
  String, str_eq,
}
use ai_trader.Controls.Keys.{
  layer_name, source_layer_name, feed_name, clock_name, slot_name, regime_name, sleeve_name,
  discovery_name, flag_name, adaptive_name, level_name, named,
}
use ai_trader.Controls.State.{
  Layer, SourceLayer, Source, FeedMode, alpaca_paper, ClockMode, Slot, Regime, Sleeve, AdaptiveFlag,
  adaptive_news_feed_enabled, adaptive_watchlist_shaping_enabled, adaptive_react_defensive_enabled,
  State,
}
use ai_trader.Controls.Values.{null, boolean, text, Block, Value, scalar, block, get}
use ai_trader.Controls.Write.{discovery_keys, adaptive_keys, adaptive_levels}

-- What the setters ask elsewhere: the credentials, the bridge, the recorded fills and positions, the clock
pub record Outside : Type 0 where
  pub finnhub_key : Bool
  pub bridge_reachable : Bool
  pub anthropic_key : Bool
  pub real_fills : ℕ
  pub rl_gate : ℕ
  pub open_positions : ℕ
  pub now : String
  pub strip : String → String
  pub lower : String → String

pub data Refusal : Type 0 where
  missing_prerequisite unknown_flag feed_must_be_on unknown_sleeve : Refusal
  unknown_layer no_settings unknown_setting : Refusal
  no_source_axis unknown_source unknown_feed_mode unknown_clock_mode : Refusal
  would_orphan_positions unknown_model below_gate not_whitelisted invalid_regime : Refusal

-- A row of the audit log: the parameter, its old value and its new one
pub record Audit (X : Type 0) : Type 0 where
  pub param : String
  pub old : Value X
  pub new : Value X

-- The outcome of a setter: a refusal, or the new state and its audit; or the reading of the file raises
pub data Change (X : Type 0) : Type 0 where
  raises : Change X
  refused : Refusal → Change X
  changed : State X → Audit X → Change X

abbrev pub flag_value : {X : Type 0} → Bool → Value X
flag_value b = scalar (boolean b)

abbrev pub audit : {X : Type 0} → String → Value X → Value X → Audit X
audit param old new = record { param = param; old = old; new = new }

abbrev pub discovery_prerequisites : Outside → Bool
discovery_prerequisites out = out.finnhub_key && out.bridge_reachable

abbrev pub adaptive_prerequisites : Outside → Bool
adaptive_prerequisites out = out.finnhub_key && out.anthropic_key

-- `f[key] = b`, on each domain
abbrev pub is_flag : AdaptiveFlag → AdaptiveFlag → Bool
is_flag j k = str_eq (flag_name j) (flag_name k)

abbrev pub is_feed : AdaptiveFlag → Bool
is_feed adaptive_news_feed_enabled = true
is_feed adaptive_watchlist_shaping_enabled = false
is_feed adaptive_react_defensive_enabled = false

abbrev pub with_layer : Layer → Bool → (Layer → Bool) → Layer → Bool
with_layer l b f k = if str_eq (layer_name k) (layer_name l) then b else f k

abbrev pub with_sleeve : Sleeve → Bool → (Sleeve → Bool) → Sleeve → Bool
with_sleeve s b f k = if str_eq (sleeve_name k) (sleeve_name s) then b else f k

abbrev pub with_source : SourceLayer → Source → (SourceLayer → Source) → SourceLayer → Source
with_source s v f k = if str_eq (source_layer_name k) (source_layer_name s) then v else f k

abbrev pub with_slot : Slot → Bool → (Slot → Bool) → Slot → Bool
with_slot s b f k = if str_eq (slot_name k) (slot_name s) then b else f k

abbrev pub with_flag : AdaptiveFlag → Bool → (AdaptiveFlag → Bool) → AdaptiveFlag → Bool
with_flag j b f k = if is_flag j k then b else f k

-- `{k: d[k] for k in settings if k in d}`
unfoldable pub picked : {X : Type 0} → Block X → Block X → Block X
picked [] d = []
picked ((k, v) ∷ settings) d =
    let rest = picked settings d in elim (get k d) [ none ↦ rest | some old ↦ (k, old) ∷ rest ]

-- The keys that a setter of several fields knows
abbrev pub is_discovery_setting : String → Bool
is_discovery_setting k =
    is_some (named discovery_name discovery_keys k) || str_eq k "stage_a_whale_weight"

abbrev pub is_adaptive_setting : String → Bool
is_adaptive_setting k =
    is_some (named adaptive_name adaptive_keys k) || is_some (named level_name adaptive_levels k)

-- `regime_pins.pop(symbol, None)`
unfoldable pub without : {A : Type 0} → String → List (String × A) → List (String × A)
without key [] = []
without key ((k, a) ∷ rest) =
    let later = without key rest in if str_eq key k then later else (k, a) ∷ later

abbrev pub is_alpaca : FeedMode → Bool
is_alpaca alpaca_paper = true
is_alpaca _ = false

abbrev pub regime_value : {X : Type 0} → Option Regime → Value X
regime_value none = scalar null
regime_value (some r) = scalar (text (regime_name r))

module _ {X : Type 0} where
  abbrev pub feed_clock_value : FeedMode → ClockMode → Value X
  feed_clock_value feed clock =
      block (("feed_mode", text (feed_name feed)) ∷ ("clock_mode", text (clock_name clock)) ∷ [])

  abbrev pub with_discovery : State X → Bool → State X
  with_discovery st b = record st { discovery = record st.discovery { discovery_enabled = b } }

  abbrev pub with_long_term : State X → Bool → State X
  with_long_term st b = record st {
    discovery = record st.discovery { long_term_sleeve_enabled = b };
  }
