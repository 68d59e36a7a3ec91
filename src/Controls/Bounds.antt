-- ===== src/Controls/Bounds.antt =====
-- The clamping, the narrowing and the switch of the news feed: what each keeps, done once or twice.
use ai_trader.Base.{
  ℕ, ◌≤◌, Bool, true, false, Option, none, some, Float, at_least, at_most, ℤ, ◌≡◌, refl, ap, ◌∙◌,
  arith, Bool-cases, inl, inr,
}
use ai_trader.Controls.State.{
  DiscoveryKey, discovery_daily_council_budget, max_finalists, max_survivors,
  max_council_calls_per_pass, crypto_interval_minutes, equity_interval_minutes, AdaptiveFlag,
  adaptive_news_feed_enabled, adaptive_watchlist_shaping_enabled, adaptive_react_defensive_enabled,
  AdaptiveKey, poll_interval_seconds, max_symbols_per_poll, news_lookback_minutes,
  adaptive_daily_llm_budget, max_interpretations_per_poll, action_max_age_seconds, discovery_bounds,
  adaptive_bounds, narrowed, with_feed,
}
use ai_trader.Controls.Validity.{InBounds, LevelInBounds}
use ai_trader.Controls.Values.{clamp_int, clamp_float}

pub clamp_int-InBounds :
    (v : Option ℤ) (lo hi : ℕ) → lo ≤ hi → InBounds (lo, hi) (clamp_int v lo hi)
clamp_int-InBounds none lo hi h = ground arith
clamp_int-InBounds (some n) lo hi h = ground arith

module _ {X : Type 0} ⦃fl : Float X⦄ where
  pub at_least_same : (lo : X) → at_least lo lo ≡ lo
  at_least_same lo = elim (Bool-cases (fl.lt lo lo)) [ inl t ↦ rw t | inr f ↦ rw f ]

  pub at_most_same : (hi : X) → at_most hi hi ≡ hi
  at_most_same hi = elim (Bool-cases (fl.lt hi hi)) [ inl t ↦ rw t | inr f ↦ rw f ]

  -- A value between the bounds, or one of them
  pub low-LevelInBounds : (lo hi : X) → fl.lt lo hi ≡ true → LevelInBounds (lo, hi) lo
  low-LevelInBounds lo hi h = rw h (at_least_same lo)

  pub clamp-LevelInBounds :
      (lo hi x : X) → fl.lt lo hi ≡ true → LevelInBounds (lo, hi) (at_least lo (at_most hi x))
  clamp-LevelInBounds lo hi x h = elim (Bool-cases (fl.lt x hi)) [
    | inl below ↦ rw below (elim (Bool-cases (fl.lt lo x)) [
      | inl above ↦ rw (above, below, above)
      | inr not_above ↦ rw not_above (low-LevelInBounds lo hi h)
    ])
    | inr not_below ↦ rw (not_below, h) (ap (at_least lo) (at_most_same hi) ∙ rw h)
  ]

  pub clamp_float-LevelInBounds :
      (v : Option X) (lo hi : X) → fl.lt lo hi ≡ true → LevelInBounds (lo, hi) (clamp_float v lo hi)
  clamp_float-LevelInBounds none lo hi h = low-LevelInBounds lo hi h
  clamp_float-LevelInBounds (some x) lo hi h = clamp-LevelInBounds lo hi x h

-- The narrowing keeps the bounds, and does nothing twice.
pub narrowed-InBounds :
    (f : DiscoveryKey → ℕ) (k : DiscoveryKey)
    → ((j : DiscoveryKey) → InBounds (discovery_bounds j) (f j))
    → InBounds (discovery_bounds k) (narrowed f k)
narrowed-InBounds f discovery_daily_council_budget h = h discovery_daily_council_budget
narrowed-InBounds f max_finalists h = h max_finalists
narrowed-InBounds f max_survivors h = ground (arith, h max_survivors, h max_finalists)
narrowed-InBounds f max_council_calls_per_pass h =
    ground (arith, h max_survivors, h max_finalists, h max_council_calls_per_pass)
narrowed-InBounds f crypto_interval_minutes h = h crypto_interval_minutes
narrowed-InBounds f equity_interval_minutes h = h equity_interval_minutes

pub narrowed_twice :
    (f : DiscoveryKey → ℕ) (k : DiscoveryKey) → narrowed (narrowed f) k ≡ narrowed f k
narrowed_twice f discovery_daily_council_budget = refl
narrowed_twice f max_finalists = refl
narrowed_twice f max_survivors = ground arith
narrowed_twice f max_council_calls_per_pass = ground arith
narrowed_twice f crypto_interval_minutes = refl
narrowed_twice f equity_interval_minutes = refl

pub with_feed_twice :
    (b : Bool) (f : AdaptiveFlag → Bool) (k : AdaptiveFlag)
    → f adaptive_news_feed_enabled ≡ b
    → with_feed (with_feed b f adaptive_news_feed_enabled) (with_feed b f) k ≡ with_feed b f k
with_feed_twice true f k e = rw e
with_feed_twice false f adaptive_news_feed_enabled e = rw e e
with_feed_twice false f adaptive_watchlist_shaping_enabled e = rw e
with_feed_twice false f adaptive_react_defensive_enabled e = rw e

pub discovery_ordered : (k : DiscoveryKey) → (discovery_bounds k).0 ≤ (discovery_bounds k).1
discovery_ordered discovery_daily_council_budget = omega arith
discovery_ordered max_finalists = omega arith
discovery_ordered max_survivors = omega arith
discovery_ordered max_council_calls_per_pass = omega arith
discovery_ordered crypto_interval_minutes = omega arith
discovery_ordered equity_interval_minutes = omega arith

pub adaptive_ordered : (k : AdaptiveKey) → (adaptive_bounds k).0 ≤ (adaptive_bounds k).1
adaptive_ordered poll_interval_seconds = omega arith
adaptive_ordered max_symbols_per_poll = omega arith
adaptive_ordered news_lookback_minutes = omega arith
adaptive_ordered adaptive_daily_llm_budget = omega arith
adaptive_ordered max_interpretations_per_poll = omega arith
adaptive_ordered action_max_age_seconds = omega arith
