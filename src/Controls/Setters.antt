-- ===== src/Controls/Setters.antt =====
-- api_server/controls.py: the setters. Each reads the file, and either refuses or writes the changed state
-- and one row of the audit log; nothing else writes the file meanwhile. The wording of a refusal is its kind.
use ai_trader.Base.{
  ltb, Bool, true, false, not, ◌&&◌, Option, none, some, if◌then◌else◌, any, Float, String, str_eq,
  str_append,
}
use ai_trader.Controls.Defaults.{Setting, put, amount_in, level_in}
use ai_trader.Controls.Keys.{
  layer_name, source_layer_name, source_name, regime_name, sleeve_name, discovery_name, flag_name,
  adaptive_name, level_name, regimes, named,
}
use ai_trader.Controls.Outcome.{
  Outside, missing_prerequisite, unknown_flag, feed_must_be_on, unknown_sleeve, unknown_layer,
  no_settings, unknown_setting, no_source_axis, unknown_source, unknown_feed_mode,
  unknown_clock_mode, would_orphan_positions, unknown_model, below_gate, not_whitelisted,
  invalid_regime, Change, raises, refused, changed, flag_value, audit, discovery_prerequisites,
  adaptive_prerequisites, is_feed, with_layer, with_sleeve, with_source, with_slot, with_flag,
  picked, is_discovery_setting, is_adaptive_setting, without, is_alpaca, regime_value,
  feed_clock_value, with_discovery, with_long_term,
}
use ai_trader.Controls.Read.{is_whitelisted}
use ai_trader.Controls.State.{
  Layer, SourceLayer, Source, FeedMode, ClockMode, Slot, Regime, Sleeve, research_satellite,
  AdaptiveFlag, adaptive_news_feed_enabled, Discovery, Adaptive, Budget, State, budget_bounds,
  cooldown_bounds, discovery_bounds, adaptive_bounds, narrowing, adaptive_downstream_off,
  whale_weight_bounds, level_bounds,
}
use ai_trader.Controls.Values.{
  Scalar, text, Block, scalar, block, get, is_nothing, int_of, clamp_int,
}
use ai_trader.Controls.Write.{discovery_block, adaptive_block, budget_block}

module _ {X : Type 0} where
  -- `st = read_controls()` and what follows it
  abbrev pub after : Option (State X) → (State X → Change X) → Change X
  after none next = raises
  after (some st) next = next st

module _ {X : Type 0} ⦃fl : Float X⦄ (env : Setting X) (out : Outside) where
  unfoldable pub change_discovery : Bool → Option (State X) → Change X
  change_discovery b read =
      if b && not (discovery_prerequisites out)
      then refused missing_prerequisite
      else after read (λ st. changed (with_discovery st b) (
          audit "discovery.discovery_enabled" (flag_value st.discovery.discovery_enabled)
            (flag_value b)))

  -- The prerequisites read the file too
  unfoldable pub change_long_term : Bool → Option (State X) → Change X
  change_long_term b read = after read (λ st.
      if b && not (discovery_prerequisites out && st.sleeves research_satellite)
      then refused missing_prerequisite
      else changed (with_long_term st b) (
          audit "discovery.long_term_sleeve_enabled"
            (flag_value st.discovery.long_term_sleeve_enabled) (flag_value b)))

  abbrev pub with_adaptive_flag : State X → AdaptiveFlag → Bool → State X
  with_adaptive_flag st k b = record st {
    adaptive_realtime =
        adaptive_downstream_off
          (record st.adaptive_realtime { flag = with_flag k b st.adaptive_realtime.flag });
  }

  unfoldable pub change_adaptive_flag : Option AdaptiveFlag → Bool → Option (State X) → Change X
  unfolding adaptive_downstream_off
  change_adaptive_flag none b read = refused unknown_flag
  change_adaptive_flag (some k) b read = after read (λ st.
      if b && not (adaptive_prerequisites out)
      then refused missing_prerequisite
      else if b && not (is_feed k) && not (st.adaptive_realtime.flag adaptive_news_feed_enabled)
      then refused feed_must_be_on
      else changed (with_adaptive_flag st k b) (
          audit (str_append "adaptive_realtime." (flag_name k))
            (flag_value (st.adaptive_realtime.flag k)) (flag_value b)))

  -- `set_layer`, without `_capture_if_unaudited`, a diagnosis that changes neither the file nor the log
  unfoldable pub change_layer : Option Layer → Bool → Option (State X) → Change X
  change_layer none b read = refused unknown_layer
  change_layer (some l) b read = after read (λ st.
      changed (record st { layers = with_layer l b st.layers })
        (audit (str_append "layer." (layer_name l)) (flag_value (st.layers l)) (flag_value b)))

  abbrev pub discovery_set : Block X → Discovery X → Discovery X
  discovery_set settings d = narrowing (record d {
    amount = λ k. amount_in env settings (discovery_name k) (discovery_bounds k) (d.amount k);
    stage_a_whale_weight =
        level_in env settings "stage_a_whale_weight" whale_weight_bounds d.stage_a_whale_weight;
  })

  -- `set_discovery_settings`, of a dict
  unfoldable pub change_discovery_settings : Block X → Option (State X) → Change X
  unfolding narrowing picked
  change_discovery_settings settings read =
      if is_nothing settings
      then refused no_settings
      else if any (λ p. not (is_discovery_setting p.0)) settings
      then refused unknown_setting
      else after read (λ st.
        let new = discovery_set settings st.discovery in
        changed (record st { discovery = new })
          (audit "discovery.settings" (block (picked settings (discovery_block st.discovery)))
            (block (picked settings (discovery_block new)))))

  abbrev pub adaptive_set : Block X → Adaptive X → Adaptive X
  adaptive_set settings a = record a {
    amount = λ k. amount_in env settings (adaptive_name k) (adaptive_bounds k) (a.amount k);
    level = λ k. level_in env settings (level_name k) (level_bounds k) (a.level k);
  }

  -- `set_adaptive_settings`, of a dict
  unfoldable pub change_adaptive_settings : Block X → Option (State X) → Change X
  unfolding picked
  change_adaptive_settings settings read =
      if is_nothing settings
      then refused no_settings
      else if any (λ p. not (is_adaptive_setting p.0)) settings
      then refused unknown_setting
      else after read (λ st.
        let new = adaptive_set settings st.adaptive_realtime in
        changed (record st { adaptive_realtime = new })
          (audit "adaptive_realtime.settings"
            (block (picked settings (adaptive_block st.adaptive_realtime)))
            (block (picked settings (adaptive_block new)))))

  unfoldable pub change_sleeve : Option Sleeve → Bool → Option (State X) → Change X
  change_sleeve none b read = refused unknown_sleeve
  change_sleeve (some s) b read = after read (λ st.
      changed (record st { sleeves = with_sleeve s b st.sleeves })
        (audit (str_append "sleeve." (sleeve_name s)) (flag_value (st.sleeves s)) (flag_value b)))

  unfoldable pub change_rebalance : Option (State X) → Change X
  change_rebalance read = after read (λ st.
      changed (record st { rebalance_requested = true })
        (audit "sleeve.rebalance_requested" (flag_value false) (flag_value true)))

  unfoldable pub change_source : Option SourceLayer → Option Source → Option (State X) → Change X
  change_source none s read = refused no_source_axis
  change_source (some l) none read = refused unknown_source
  change_source (some l) (some s) read = after read (λ st.
      changed (record st { layer_sources = with_source l s st.layer_sources })
        (audit (str_append "source." (source_layer_name l))
          (scalar (text (source_name (st.layer_sources l)))) (scalar (text (source_name s)))))

  unfoldable pub change_feed_clock :
      Option FeedMode → Option ClockMode → Option (State X) → Change X
  change_feed_clock none c read = refused unknown_feed_mode
  change_feed_clock (some f) none read = refused unknown_clock_mode
  change_feed_clock (some f) (some c) read = after read (λ st.
      if is_alpaca st.feed_mode && not (is_alpaca f) && ltb 0 out.open_positions
      then refused would_orphan_positions
      else changed (record st { feed_mode = f; clock_mode = c })
          (audit "feed_clock" (feed_clock_value st.feed_mode st.clock_mode) (feed_clock_value f c)))

  abbrev pub change_slot : String → Option Slot → Bool → State X → Change X
  change_slot model none b st = refused unknown_model
  change_slot model (some s) b st =
      changed (record st { models = with_slot s b st.models })
        (audit (str_append "model." model) (flag_value (st.models s)) (flag_value b))

  unfoldable pub change_model : String → Option Slot → Bool → Option (State X) → Change X
  change_model model slot b read = after read (λ st.
      if str_eq model "gate"
      then changed (record st { gate_enabled = b })
          (audit "gate_enabled" (flag_value st.gate_enabled) (flag_value b))
      else change_slot model slot b st)

  unfoldable pub change_rl : Bool → Option (State X) → Change X
  change_rl b read =
      if b && ltb out.real_fills out.rl_gate
      then refused below_gate
      else after read (λ st.
        changed (record st { rl_enabled = b })
          (audit "rl_enabled" (flag_value st.rl_enabled) (flag_value b)))

  unfoldable pub change_auto_promote : Bool → Option (State X) → Change X
  change_auto_promote b read = after read (λ st.
      changed (record st { auto_promote = b })
        (audit "auto_promote" (flag_value st.auto_promote) (flag_value b)))

  abbrev pub asked_budget : Scalar X → Scalar X → Budget
  asked_budget daily cooldown = record {
    council_daily_budget = clamp_int (int_of env.python daily) budget_bounds.0 budget_bounds.1;
    per_symbol_cooldown_minutes =
        clamp_int (int_of env.python cooldown) cooldown_bounds.0 cooldown_bounds.1;
  }

  unfoldable pub change_budget : Scalar X → Scalar X → Option (State X) → Change X
  change_budget daily cooldown read = after read (λ st.
      changed (record st { budget = asked_budget daily cooldown })
        (audit "budget" (block (budget_block st.budget))
          (block (budget_block (asked_budget daily cooldown)))))

  abbrev pub with_pin : State X → String → Option Regime → State X
  with_pin st symbol none = record st { regime_pins = without symbol st.regime_pins }
  with_pin st symbol (some r) = record st { regime_pins = put symbol r st.regime_pins }

  -- What a call asks for: no regime at all, one of the domain, or a text that names none
  abbrev pub asked_regime : Option String → Option (Option Regime)
  asked_regime none = some none
  asked_regime (some s) = elim (named regime_name regimes s) [
    | none ↦ none
    | some r ↦ some (some r)
  ]

  abbrev pub change_pin : String → Option (Option Regime) → Option (State X) → Change X
  change_pin symbol none read = refused invalid_regime
  change_pin symbol (some r) read = after read (λ st. changed (with_pin st symbol r) (
      audit (str_append "regime_pin." symbol) (regime_value (get symbol st.regime_pins))
        (regime_value r)))

  unfoldable pub change_regime : String → Option (Option Regime) → Option (State X) → Change X
  unfolding put without
  change_regime symbol asked read =
      if not (is_whitelisted env symbol)
      then refused not_whitelisted
      else change_pin symbol asked read
