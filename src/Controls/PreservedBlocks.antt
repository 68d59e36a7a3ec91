-- ===== src/Controls/PreservedBlocks.antt =====
-- The setters of the discovery and the adaptive block write a state that keeps the bounds and the rules.
use ai_trader.Base.{Bool, true, false, not, ◌&&◌, Option, none, some, if◌then◌else◌, any, Float}
use ai_trader.Controls.Bounds.{discovery_ordered, adaptive_ordered}
use ai_trader.Controls.Defaults.{Setting, amount_in, level_in}
use ai_trader.Controls.Keys.{discovery_name, adaptive_name, level_name}
use ai_trader.Controls.Outcome.{
  Outside, Refusal, missing_prerequisite, feed_must_be_on, no_settings, unknown_setting, Change,
  raises, refused, changed, discovery_prerequisites, adaptive_prerequisites, is_feed, with_flag,
  is_discovery_setting, is_adaptive_setting,
}
use ai_trader.Controls.Setters.{
  change_discovery, change_long_term, change_adaptive_flag, change_discovery_settings, adaptive_set,
  change_adaptive_settings,
}
use ai_trader.Controls.State.{
  research_satellite, AdaptiveFlag, adaptive_news_feed_enabled, Adaptive, State, discovery_bounds,
  adaptive_bounds, narrowing, adaptive_downstream_off, whale_weight_bounds, level_bounds,
}
use ai_trader.Controls.Valid.{
  Shipped, level_ordered, amount_in-InBounds, level_in-LevelInBounds, narrowing-DiscoveryIsValid,
  downstream_off-AdaptiveIsValid,
}
use ai_trader.Controls.Validity.{AdaptiveIsValid, IsValid}
use ai_trader.Controls.Values.{Block, is_nothing}

-- A predicate on the state that a setter writes, if it writes one
abbrev pub Written : {X : Type 0} → (State X → Type 0) → Change X → Type 0
Written P raises = Unit
Written P (refused r) = Unit
Written P (changed st a) = P st

module _ {X : Type 0} ⦃fl : Float X⦄ (env : Setting X) (out : Outside) where
  pub guarded-IsValid :
      (c : Bool) (r : Refusal) (ch : Change X)
      → Written (IsValid env) ch
      → Written (IsValid env) (if c then refused r else ch)
  guarded-IsValid true r ch h = tt
  guarded-IsValid false r ch h = h

  pub change_discovery-IsValid :
      (b : Bool) (st : State X)
      → IsValid env st
      → Written (IsValid env) (change_discovery env out b (some st))
  unfolding change_discovery narrowing
  change_discovery-IsValid b st v =
      guarded-IsValid (b && not (discovery_prerequisites out)) missing_prerequisite _ (record {
        discovery = record {
          amounts = v.discovery.amounts;
          weight = v.discovery.weight;
          narrow = λ i. record (v.discovery.narrow i) { discovery_enabled = b };
        };
        adaptive_realtime = v.adaptive_realtime;
        budget = v.budget;
        cost = v.cost;
        pins_unique = v.pins_unique;
        pins_listed = v.pins_listed;
      })

  pub change_long_term-IsValid :
      (b : Bool) (st : State X)
      → IsValid env st
      → Written (IsValid env) (change_long_term env out b (some st))
  unfolding change_long_term narrowing
  change_long_term-IsValid b st v =
      guarded-IsValid (b && not (discovery_prerequisites out && st.sleeves research_satellite))
        missing_prerequisite _
        (record {
          discovery = record {
            amounts = v.discovery.amounts;
            weight = v.discovery.weight;
            narrow = λ i. record (v.discovery.narrow i) { long_term_sleeve_enabled = b };
          };
          adaptive_realtime = v.adaptive_realtime;
          budget = v.budget;
          cost = v.cost;
          pins_unique = v.pins_unique;
          pins_listed = v.pins_listed;
        })

  pub change_adaptive_flag-IsValid :
      (k : Option AdaptiveFlag) (b : Bool) (st : State X)
      → IsValid env st
      → Written (IsValid env) (change_adaptive_flag env out k b (some st))
  unfolding change_adaptive_flag adaptive_downstream_off
  change_adaptive_flag-IsValid none b st v = tt
  change_adaptive_flag-IsValid (some k) b st v =
      let a = st.adaptive_realtime in
      guarded-IsValid (b && not (adaptive_prerequisites out)) missing_prerequisite _ (
        guarded-IsValid (b && not (is_feed k) && not (a.flag adaptive_news_feed_enabled))
          feed_must_be_on _
          (record {
            discovery = v.discovery;
            adaptive_realtime =
                downstream_off-AdaptiveIsValid env (record a { flag = with_flag k b a.flag })
                  v.adaptive_realtime.amounts v.adaptive_realtime.levels;
            budget = v.budget;
            cost = v.cost;
            pins_unique = v.pins_unique;
            pins_listed = v.pins_listed;
          }))

  pub change_discovery_settings-IsValid :
      (settings : Block X) (st : State X)
      → Shipped env
      → IsValid env st
      → Written (IsValid env) (change_discovery_settings env out settings (some st))
  unfolding change_discovery_settings
  change_discovery_settings-IsValid settings st s v =
      let d = st.discovery in
      guarded-IsValid (is_nothing settings) no_settings _ (
        guarded-IsValid (any (λ p. not (is_discovery_setting p.0)) settings) unknown_setting _
          (record {
            discovery =
                narrowing-DiscoveryIsValid env
                  (record d {
                    amount = λ k.
                        amount_in env settings (discovery_name k) (discovery_bounds k) (d.amount k);
                    stage_a_whale_weight =
                        level_in env settings "stage_a_whale_weight" whale_weight_bounds
                          d.stage_a_whale_weight;
                  })
                  (λ k.
                    amount_in-InBounds env settings (discovery_name k) (discovery_bounds k)
                      (d.amount k) (discovery_ordered k) (v.discovery.amounts k))
                  (level_in-LevelInBounds env settings "stage_a_whale_weight" whale_weight_bounds
                    d.stage_a_whale_weight s.zero_one v.discovery.weight);
            adaptive_realtime = v.adaptive_realtime;
            budget = v.budget;
            cost = v.cost;
            pins_unique = v.pins_unique;
            pins_listed = v.pins_listed;
          }))

  adaptive_set-AdaptiveIsValid :
      (settings : Block X) (a : Adaptive X)
      → Shipped env
      → AdaptiveIsValid a
      → AdaptiveIsValid (adaptive_set env out settings a)
  unfolding adaptive_downstream_off
  adaptive_set-AdaptiveIsValid settings a s v = record {
    amounts = λ k.
        amount_in-InBounds env settings (adaptive_name k) (adaptive_bounds k) (a.amount k)
          (adaptive_ordered k) (v.amounts k);
    levels = λ k.
        level_in-LevelInBounds env settings (level_name k) (level_bounds k) (a.level k)
          (level_ordered env k s) (v.levels k);
    downstream = λ i. record a {
      flag = (v.downstream i).flag;
      amount = λ k. amount_in env settings (adaptive_name k) (adaptive_bounds k) (a.amount k);
      level = λ k. level_in env settings (level_name k) (level_bounds k) (a.level k);
    };
  }

  pub change_adaptive_settings-IsValid :
      (settings : Block X) (st : State X)
      → Shipped env
      → IsValid env st
      → Written (IsValid env) (change_adaptive_settings env out settings (some st))
  unfolding change_adaptive_settings
  change_adaptive_settings-IsValid settings st s v =
      guarded-IsValid (is_nothing settings) no_settings _ (
        guarded-IsValid (any (λ p. not (is_adaptive_setting p.0)) settings) unknown_setting _
          (record {
            discovery = v.discovery;
            adaptive_realtime =
                adaptive_set-AdaptiveIsValid settings st.adaptive_realtime s v.adaptive_realtime;
            budget = v.budget;
            cost = v.cost;
            pins_unique = v.pins_unique;
            pins_listed = v.pins_listed;
          }))
