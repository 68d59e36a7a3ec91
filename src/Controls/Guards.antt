-- ===== src/Controls/Guards.antt =====
-- What lets a command turn a spender on, or leave the real feed.
use ai_trader.Base.{
  ltb, Bool, not, ◌&&◌, Option, none, some, any, Float, String, str_eq, ◌≡◌, ap, sym, ◌∙◌, subst,
  arith, Bool-cases, inl, inr,
}
use ai_trader.Controls.Commands.{
  Command, set_discovery, set_long_term, set_rl, set_auto_promote, set_adaptive_flag, set_sleeve,
  set_layer, set_model, set_discovery_settings, set_adaptive_settings, request_rebalance,
  set_source, set_feed_clock, set_budget, set_regime, change, Disk, run_command,
}
use ai_trader.Controls.Defaults.{Setting, or_else}
use ai_trader.Controls.Keys.{
  layer_name, source_layer_name, source_name, feed_name, clock_name, sleeve_name, flag_name,
  sources, feed_modes, clock_modes, named,
}
use ai_trader.Controls.NextReading.{resulting, run_command_next}
use ai_trader.Controls.Outcome.{
  Outside, missing_prerequisite, feed_must_be_on, no_settings, unknown_setting,
  would_orphan_positions, below_gate, Change, raises, refused, changed, discovery_prerequisites,
  adaptive_prerequisites, is_feed, with_flag, is_discovery_setting, is_adaptive_setting, is_alpaca,
}
use ai_trader.Controls.Permission.{Guarded, kept, guarded, with_feed-on, with_flag-on}
use ai_trader.Controls.PreservedBlocks.{Written}
use ai_trader.Controls.Read.{is_whitelisted, read_controls}
use ai_trader.Controls.Setters.{
  change_discovery, change_long_term, change_adaptive_flag, change_layer, change_discovery_settings,
  change_adaptive_settings, change_sleeve, change_rebalance, change_source, change_feed_clock,
  change_slot, change_model, change_rl, change_auto_promote, change_budget, with_pin, asked_regime,
  change_pin, change_regime,
}
use ai_trader.Controls.State.{
  Layer, SourceLayer, Source, FeedMode, ClockMode, Slot, Regime, Sleeve, research_satellite,
  AdaptiveFlag, adaptive_news_feed_enabled, State, narrowing, adaptive_downstream_off,
}
use ai_trader.Controls.Valid.{Shipped}
use ai_trader.Controls.Validity.{Distinct}
use ai_trader.Controls.Values.{Block, is_nothing}
use ai_trader.Controls.Write.{all_layers, source_layers, slots, all_sleeves, adaptive_flags}

module _ {X : Type 0} ⦃fl : Float X⦄ (env : Setting X) (out : Outside) where
  change_discovery-Guarded :
      (b : Bool) (st : State X) → Written (Guarded out st) (change_discovery env out b (some st))
  unfolding change_discovery
  change_discovery-Guarded b st =
      let (d, l, a, r, f) = kept out st in
      guarded out (Guarded out st) (b && not (discovery_prerequisites out)) missing_prerequisite _
        (λ h. ((λ on. ground (arith, h, on.1)), l, a, r, f))

  change_long_term-Guarded :
      (b : Bool) (st : State X) → Written (Guarded out st) (change_long_term env out b (some st))
  unfolding change_long_term
  change_long_term-Guarded b st =
      let (d, l, a, r, f) = kept out st in
      guarded out (Guarded out st)
        (b && not (discovery_prerequisites out && st.sleeves research_satellite))
        missing_prerequisite _ (λ h. (d, (λ on. ground (arith, h, on.1)), a, r, f))

  change_adaptive_flag-Guarded :
      (k : Option AdaptiveFlag) (b : Bool) (st : State X)
      → Written (Guarded out st) (change_adaptive_flag env out k b (some st))
  unfolding change_adaptive_flag adaptive_downstream_off
  change_adaptive_flag-Guarded none b st = tt
  change_adaptive_flag-Guarded (some j) b st =
      let (d, l, a, r, f) = kept out st in
      let g = st.adaptive_realtime.flag in
      let new = with_flag j b g in
      guarded out (Guarded out st) (b && not (adaptive_prerequisites out)) missing_prerequisite _
        (λ h.
          guarded out (Guarded out st) (b && not (is_feed j) && not (g adaptive_news_feed_enabled))
            feed_must_be_on _
            (λ h2. (
              d,
              l,
              (λ k on.
                  let set =
                    with_flag-on j b g k on.0
                      (with_feed-on (new adaptive_news_feed_enabled) new k on.1) in
                  ground (arith, h, set)),
              r,
              f,
            )))

  change_feed_clock-Guarded :
      (f : Option FeedMode) (c : Option ClockMode) (st : State X)
      → Written (Guarded out st) (change_feed_clock env out f c (some st))
  unfolding change_feed_clock
  change_feed_clock-Guarded none c st = tt
  change_feed_clock-Guarded (some f) none st = tt
  change_feed_clock-Guarded (some f) (some c) st =
      let (d, l, a, r, g) = kept out st in
      guarded out (Guarded out st)
        (is_alpaca st.feed_mode && not (is_alpaca f) && ltb 0 out.open_positions)
        would_orphan_positions _ (λ h. (d, l, a, r, (λ on away. ground (arith, h, on, away))))

  change_rl-Guarded :
      (b : Bool) (st : State X) → Written (Guarded out st) (change_rl env out b (some st))
  unfolding change_rl
  change_rl-Guarded b st =
      let (d, l, a, r, f) = kept out st in
      guarded out (Guarded out st) (b && ltb out.real_fills out.rl_gate) below_gate _
        (λ h. (d, l, a, (λ on. ground (arith, h, on.1)), f))

  change_sleeve-Guarded :
      (s : Option Sleeve) (b : Bool) (st : State X)
      → Written (Guarded out st) (change_sleeve env out s b (some st))
  unfolding change_sleeve
  change_sleeve-Guarded none b st = tt
  change_sleeve-Guarded (some s) b st = kept out st

  change_source-Guarded :
      (l : Option SourceLayer) (s : Option Source) (st : State X)
      → Written (Guarded out st) (change_source env out l s (some st))
  unfolding change_source
  change_source-Guarded none s st = tt
  change_source-Guarded (some l) none st = tt
  change_source-Guarded (some l) (some s) st = kept out st

  change_model-Guarded :
      (m : String) (s : Option Slot) (b : Bool) (st : State X)
      → Written (Guarded out st) (change_model env out m s b (some st))
  unfolding change_model
  change_model-Guarded m s b st = elim (Bool-cases (str_eq m "gate")) [
    | inl t ↦ rw (t, change_model) (kept out st)
    | inr f ↦ rw (f, change_model) (slot s)
  ]
    where
      slot : (s : Option Slot) → Written (Guarded out st) (change_slot env out m s b st)
      slot none = tt
      slot (some s) = kept out st

  with_pin-Guarded :
      (s : String) (r : Option Regime) (st : State X) → Guarded out st (with_pin env out st s r)
  with_pin-Guarded s none st = kept out st
  with_pin-Guarded s (some r) st = kept out st

  change_pin-Guarded :
      (s : String) (r : Option (Option Regime)) (st : State X)
      → Written (Guarded out st) (change_pin env out s r (some st))
  change_pin-Guarded s none st = tt
  change_pin-Guarded s (some r) st = with_pin-Guarded s r st

  change_regime-Guarded :
      (s : String) (r : Option (Option Regime)) (st : State X)
      → Written (Guarded out st) (change_regime env out s r (some st))
  unfolding change_regime
  change_regime-Guarded s r st = elim (Bool-cases (is_whitelisted env s)) [
    | inl t ↦ rw (t, change_regime) (change_pin-Guarded s r st)
    | inr f ↦ rw (f, change_regime) tt
  ]

  change_layer-Guarded :
      (l : Option Layer) (b : Bool) (st : State X)
      → Written (Guarded out st) (change_layer env out l b (some st))
  unfolding change_layer
  change_layer-Guarded none b st = tt
  change_layer-Guarded (some l) b st = kept out st

  -- The settings hold no flag.
  change_discovery_settings-Guarded :
      (settings : Block X) (st : State X)
      → Written (Guarded out st) (change_discovery_settings env out settings (some st))
  unfolding change_discovery_settings narrowing
  change_discovery_settings-Guarded settings st =
      guarded out (Guarded out st) (is_nothing settings) no_settings _ (λ h.
        guarded out (Guarded out st) (any (λ p. not (is_discovery_setting p.0)) settings)
          unknown_setting _ (λ h2. kept out st))

  change_adaptive_settings-Guarded :
      (settings : Block X) (st : State X)
      → Written (Guarded out st) (change_adaptive_settings env out settings (some st))
  unfolding change_adaptive_settings
  change_adaptive_settings-Guarded settings st =
      guarded out (Guarded out st) (is_nothing settings) no_settings _ (λ h.
        guarded out (Guarded out st) (any (λ p. not (is_adaptive_setting p.0)) settings)
          unknown_setting _ (λ h2. kept out st))

  change-Guarded :
      (cmd : Command X) (st : State X) → Written (Guarded out st) (change env out cmd (some st))
  unfolding change change_auto_promote change_rebalance change_budget
  change-Guarded (set_discovery b) st = change_discovery-Guarded b st
  change-Guarded (set_long_term b) st = change_long_term-Guarded b st
  change-Guarded (set_rl b) st = change_rl-Guarded b st
  change-Guarded (set_auto_promote b) st = kept out st
  change-Guarded (set_adaptive_flag s b) st =
      change_adaptive_flag-Guarded (named flag_name adaptive_flags s) b st
  change-Guarded (set_sleeve s b) st = change_sleeve-Guarded (named sleeve_name all_sleeves s) b st
  change-Guarded (set_layer l b) st = change_layer-Guarded (named layer_name all_layers l) b st
  change-Guarded (set_discovery_settings s) st = change_discovery_settings-Guarded s st
  change-Guarded (set_adaptive_settings s) st = change_adaptive_settings-Guarded s st
  change-Guarded (set_model m b) st = change_model-Guarded m (named env.model_id slots m) b st
  change-Guarded request_rebalance st = kept out st
  change-Guarded (set_source l s) st =
      change_source-Guarded (named source_layer_name source_layers l)
        (named source_name sources (out.lower (out.strip s))) st
  change-Guarded (set_feed_clock f c) st =
      change_feed_clock-Guarded (named feed_name feed_modes (out.strip f))
        (named clock_name clock_modes (out.strip c)) st
  change-Guarded (set_budget d c) st = kept out st
  change-Guarded (set_regime s r) st = change_regime-Guarded s (asked_regime env out r) st

  resulting-Guarded :
      (ch : Change X) (st : State X)
      → Written (Guarded out st) ch
      → Guarded out st (resulting st ch)
  resulting-Guarded raises st w = kept out st
  resulting-Guarded (refused r) st w = kept out st
  resulting-Guarded (changed st' a) st w = w

  -- Whatever command runs between two readings of the control file, if the configuration keeps the rules
  -- between its fields and the three models differ: discovery comes on only with a Finnhub key and the bridge
  -- reachable, the long-term strategy only with these and its sleeve on, a flag of the adaptive layer only with
  -- both of its keys, and the RL advisory only with as many real fills as its gate asks for; and the real feed
  -- is left only with no position open.
  pub run_command-Guarded :
      (disk : Disk X) (cmd : Command X) (st st' : State X)
      → Shipped env
      → Distinct env.model_id
      → read_controls env disk.file ≡ some st
      → read_controls env (run_command env disk out cmd).file ≡ some st'
      → Guarded out st st'
  run_command-Guarded disk cmd st st' s d r r' =
      let same = sym (run_command_next env disk out cmd st s d r) ∙ r' in
      subst (Guarded out st) (ap (λ o. or_else o st) same)
        (resulting-Guarded (change env out cmd (some st)) st (change-Guarded cmd st))
