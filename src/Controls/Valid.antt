-- ===== src/Controls/Valid.antt =====
-- Whatever the control file holds, the sanitizing of controls.py leaves what is read from it as it is.
use ai_trader.Base.{
  ℕ, ◌≤◌, true, Option, none, some, [], Float, String, pos, ◌≡◌, refl, ap, subst, arith, fun_ext,
}
use ai_trader.Controls.Bounds.{
  clamp_int-InBounds, clamp_float-LevelInBounds, narrowed-InBounds, narrowed_twice, with_feed_twice,
  discovery_ordered, adaptive_ordered,
}
use ai_trader.Controls.Defaults.{
  Setting, or_else, flag_in, amount_in, level_in, default_amount, default_level, discovery_fallback,
  adaptive_fallback, level_fallback, discovery_defaults, adaptive_defaults, defaults,
}
use ai_trader.Controls.Keys.{discovery_name, flag_name, adaptive_name, level_name}
use ai_trader.Controls.Pins.{read_pins-Unique, read_pins-listed}
use ai_trader.Controls.Read.{read_discovery, read_adaptive, read_budget, merged, read_controls}
use ai_trader.Controls.Rules.{Narrows, FollowsFeed, Narrows-narrowing, FollowsFeed-downstream_off}
use ai_trader.Controls.State.{
  DiscoveryKey, adaptive_news_feed_enabled, AdaptiveKey, AdaptiveLevel, materiality_min_sentiment,
  action_min_severity, interpretation_min_relevance, defensive_trim_fraction, Discovery, Adaptive,
  State, budget_bounds, cooldown_bounds, discovery_bounds, adaptive_bounds, narrowing,
  adaptive_downstream_off, whale_weight_bounds, level_bounds,
}
use ai_trader.Controls.Validity.{
  InBounds, LevelInBounds, BudgetIsValid, DiscoveryIsValid, AdaptiveIsValid, IsValid,
}
use ai_trader.Controls.Values.{
  Scalar, Block, Object, Saved, unreadable, object, other, get, block_of, int_of, float_of,
  clamp_int, clamp_float,
}

module _ {X : Type 0} ⦃fl : Float X⦄ (env : Setting X) where
  -- The configuration keeps the two rules between fields, as the engine's validator wants, and the literals
  -- of the bounds are in their order.
  pub record Shipped : Type 0 where
    pub narrows : Narrows (defaults env).discovery.amount
    pub follows_feed : FollowsFeed (defaults env).adaptive_realtime.flag
    pub zero_one : fl.lt (fl.lit 0 0) (fl.lit 1 0) ≡ true
    pub cent_one : fl.lt (fl.lit 1 2) (fl.lit 1 0) ≡ true

  pub level_ordered :
      (k : AdaptiveLevel) → Shipped → fl.lt (level_bounds k).0 (level_bounds k).1 ≡ true
  level_ordered materiality_min_sentiment s = s.zero_one
  level_ordered action_min_severity s = s.zero_one
  level_ordered interpretation_min_relevance s = s.zero_one
  level_ordered defensive_trim_fraction s = s.cent_one

  amount_of-InBounds :
      (v : Option (Scalar X)) (lo hi d : ℕ)
      → lo ≤ hi
      → InBounds (lo, hi) d
      → InBounds (lo, hi) (elim v [ none ↦ d | some s ↦ clamp_int (int_of env.python s) lo hi ])
  amount_of-InBounds none lo hi d h i = i
  amount_of-InBounds (some s) lo hi d h i = clamp_int-InBounds (int_of env.python s) lo hi h

  level_of-LevelInBounds :
      (v : Option (Scalar X)) (lo hi d : X)
      → fl.lt lo hi ≡ true
      → LevelInBounds (lo, hi) d
      → LevelInBounds
          (lo, hi)
          (elim v [ none ↦ d | some s ↦ clamp_float (float_of env.python s) lo hi ])
  level_of-LevelInBounds none lo hi d h i = i
  level_of-LevelInBounds (some s) lo hi d h i =
      clamp_float-LevelInBounds (float_of env.python s) lo hi h

  pub amount_in-InBounds :
      (b : Block X) (key : String) (bounds : ℕ × ℕ) (d : ℕ)
      → bounds.0 ≤ bounds.1
      → InBounds bounds d
      → InBounds bounds (amount_in env b key bounds d)
  amount_in-InBounds b key (lo, hi) d h i = amount_of-InBounds (get key b) lo hi d h i

  pub level_in-LevelInBounds :
      (b : Block X) (key : String) (bounds : X × X) (d : X)
      → fl.lt bounds.0 bounds.1 ≡ true
      → LevelInBounds bounds d
      → LevelInBounds bounds (level_in env b key bounds d)
  level_in-LevelInBounds b key (lo, hi) d h i = level_of-LevelInBounds (get key b) lo hi d h i

  default_amount-InBounds :
      (b : Block X) (key : String) (bounds : ℕ × ℕ) (n : ℕ)
      → bounds.0 ≤ bounds.1
      → InBounds bounds (default_amount env b key bounds n)
  default_amount-InBounds b key (lo, hi) n h =
      amount_in-InBounds b key (lo, hi) (clamp_int (some (pos n)) lo hi) h
        (clamp_int-InBounds (some (pos n)) lo hi h)

  default_level-LevelInBounds :
      (b : Block X) (key : String) (bounds : X × X) (x : X)
      → fl.lt bounds.0 bounds.1 ≡ true
      → LevelInBounds bounds (default_level env b key bounds x)
  default_level-LevelInBounds b key (lo, hi) x h =
      level_in-LevelInBounds b key (lo, hi) (clamp_float (some x) lo hi) h
        (clamp_float-LevelInBounds (some x) lo hi h)

  discovery_defaults-DiscoveryIsValid : Shipped → DiscoveryIsValid (defaults env).discovery
  unfolding defaults discovery_defaults
  discovery_defaults-DiscoveryIsValid s = record {
    amounts = λ k.
        default_amount-InBounds (env.config "discovery") (discovery_name k) (discovery_bounds k)
          (discovery_fallback env k) (discovery_ordered k);
    weight =
        default_level-LevelInBounds (env.config "discovery") "stage_a_whale_weight"
          whale_weight_bounds (fl.lit 15 2) s.zero_one;
    narrow = Narrows-narrowing (defaults env).discovery s.narrows;
  }

  adaptive_defaults-AdaptiveIsValid : Shipped → AdaptiveIsValid (defaults env).adaptive_realtime
  unfolding defaults adaptive_defaults
  adaptive_defaults-AdaptiveIsValid s = record {
    amounts = λ k.
        default_amount-InBounds (env.config "adaptive_realtime") (adaptive_name k)
          (adaptive_bounds k) (adaptive_fallback env k) (adaptive_ordered k);
    levels = λ k.
        default_level-LevelInBounds (env.config "adaptive_realtime") (level_name k) (level_bounds k)
          (level_fallback env k) (level_ordered k s);
    downstream = FollowsFeed-downstream_off (defaults env).adaptive_realtime s.follows_feed;
  }

  pub narrowing-DiscoveryIsValid :
      (d : Discovery X)
      → ((k : DiscoveryKey) → InBounds (discovery_bounds k) (d.amount k))
      → LevelInBounds whale_weight_bounds d.stage_a_whale_weight
      → DiscoveryIsValid (narrowing d)
  unfolding narrowing
  narrowing-DiscoveryIsValid d h w = record {
    amounts = λ k. narrowed-InBounds d.amount k h;
    weight = w;
    narrow = λ i. record d { amount = fun_ext (narrowed_twice d.amount) i };
  }

  pub downstream_off-AdaptiveIsValid :
      (a : Adaptive X)
      → ((k : AdaptiveKey) → InBounds (adaptive_bounds k) (a.amount k))
      → ((k : AdaptiveLevel) → LevelInBounds (level_bounds k) (a.level k))
      → AdaptiveIsValid (adaptive_downstream_off a)
  unfolding adaptive_downstream_off
  downstream_off-AdaptiveIsValid a h l = record {
    amounts = h;
    levels = l;
    downstream = λ i. record a {
      flag = fun_ext (λ k. with_feed_twice (a.flag adaptive_news_feed_enabled) a.flag k refl) i;
    };
  }

  read_discovery-DiscoveryIsValid :
      (saved : Option (Block X))
      → Shipped
      → DiscoveryIsValid (read_discovery env saved (defaults env).discovery)
  unfolding read_discovery
  read_discovery-DiscoveryIsValid none s = discovery_defaults-DiscoveryIsValid s
  read_discovery-DiscoveryIsValid (some b) s =
      let d = (defaults env).discovery in
      let v = discovery_defaults-DiscoveryIsValid s in
      narrowing-DiscoveryIsValid
        (record {
          discovery_enabled = flag_in env b "discovery_enabled" d.discovery_enabled;
          long_term_sleeve_enabled =
              flag_in env b "long_term_sleeve_enabled" d.long_term_sleeve_enabled;
          amount = λ k. amount_in env b (discovery_name k) (discovery_bounds k) (d.amount k);
          stage_a_whale_weight =
              level_in env b "stage_a_whale_weight" whale_weight_bounds d.stage_a_whale_weight;
        })
        (λ k.
          amount_in-InBounds b (discovery_name k) (discovery_bounds k) (d.amount k)
            (discovery_ordered k) (v.amounts k))
        (level_in-LevelInBounds b "stage_a_whale_weight" whale_weight_bounds d.stage_a_whale_weight
          s.zero_one v.weight)

  read_adaptive-AdaptiveIsValid :
      (saved : Option (Block X))
      → Shipped
      → AdaptiveIsValid (read_adaptive env saved (defaults env).adaptive_realtime)
  unfolding read_adaptive
  read_adaptive-AdaptiveIsValid none s = adaptive_defaults-AdaptiveIsValid s
  read_adaptive-AdaptiveIsValid (some b) s =
      let a = (defaults env).adaptive_realtime in
      let v = adaptive_defaults-AdaptiveIsValid s in
      downstream_off-AdaptiveIsValid
        (record a {
          flag = λ k. flag_in env b (flag_name k) (a.flag k);
          amount = λ k. amount_in env b (adaptive_name k) (adaptive_bounds k) (a.amount k);
          level = λ k. level_in env b (level_name k) (level_bounds k) (a.level k);
        })
        (λ k.
          amount_in-InBounds b (adaptive_name k) (adaptive_bounds k) (a.amount k)
            (adaptive_ordered k) (v.amounts k))
        (λ k.
          level_in-LevelInBounds b (level_name k) (level_bounds k) (a.level k) (level_ordered k s)
            (v.levels k))

  read_budget-BudgetIsValid :
      (saved : Option (Block X)) → BudgetIsValid (read_budget env saved (defaults env).budget)
  unfolding read_budget defaults
  read_budget-BudgetIsValid none = record {
    daily =
        default_amount-InBounds (env.config "council") "council_daily_budget" budget_bounds 30
          (omega arith);
    cooldown =
        default_amount-InBounds (env.config "council") "per_symbol_council_cooldown_minutes"
          cooldown_bounds 60 (omega arith);
  }
  read_budget-BudgetIsValid (some b) = record {
    daily =
        default_amount-InBounds b "council_daily_budget" budget_bounds
          (defaults env).budget.council_daily_budget (omega arith);
    cooldown =
        default_amount-InBounds b "per_symbol_cooldown_minutes" cooldown_bounds
          (defaults env).budget.per_symbol_cooldown_minutes (omega arith);
  }

  read_adaptive_cost :
      (saved : Option (Block X)) (a : Adaptive X)
      → a.adaptive_est_cost_per_call_usd
        ≡ (read_adaptive env saved a).adaptive_est_cost_per_call_usd
  unfolding read_adaptive adaptive_downstream_off
  read_adaptive_cost none a = refl
  read_adaptive_cost (some b) a = refl

  pub merged-IsValid : (o : Object X) → Shipped → IsValid env (merged env o)
  unfolding merged
  merged-IsValid o s = record {
    discovery = read_discovery-DiscoveryIsValid (block_of (get "discovery" o)) s;
    adaptive_realtime = read_adaptive-AdaptiveIsValid (block_of (get "adaptive_realtime" o)) s;
    budget = read_budget-BudgetIsValid (block_of (get "budget" o));
    cost =
        read_adaptive_cost (block_of (get "adaptive_realtime" o)) (defaults env).adaptive_realtime;
    pins_unique = read_pins-Unique env (block_of (get "regime_pins" o));
    pins_listed = read_pins-listed env (block_of (get "regime_pins" o));
  }

  -- What is read is a state that the sanitizing leaves as it is.
  pub read_controls-IsValid :
      (saved : Saved X) (st : State X)
      → Shipped
      → read_controls env saved ≡ some st
      → IsValid env st
  unfolding read_controls
  read_controls-IsValid unreadable st s e =
      subst (IsValid env) (ap (λ o. or_else o st) e) (merged-IsValid [] s)
  read_controls-IsValid (object o) st s e =
      subst (IsValid env) (ap (λ r. or_else r st) e) (merged-IsValid o s)
  read_controls-IsValid (other v) st s e = cc
