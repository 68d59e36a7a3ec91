-- ===== src/Controls/Rules.antt =====
-- The bounds of api_server/controls.py and its rules between fields, in their own words.
use ai_trader.Base.{
  ℕ, ◌≤◌, Bool, true, false, not, ◌&&◌, All, Float, ◌≡◌, refl, arith, fun_ext, ap, at_least,
  at_most, Bool-cases, inl, inr, subst,
}
use ai_trader.Controls.Defaults.{Setting}
use ai_trader.Controls.Pins.{Unique}
use ai_trader.Controls.Read.{is_whitelisted}
use ai_trader.Controls.State.{
  DiscoveryKey, discovery_daily_council_budget, max_finalists, max_survivors,
  max_council_calls_per_pass, crypto_interval_minutes, equity_interval_minutes, AdaptiveFlag,
  adaptive_news_feed_enabled, adaptive_watchlist_shaping_enabled, adaptive_react_defensive_enabled,
  AdaptiveKey, AdaptiveLevel, Discovery, Adaptive, State, budget_bounds, cooldown_bounds,
  discovery_bounds, adaptive_bounds, narrowed, with_feed, narrowing, adaptive_downstream_off,
  whale_weight_bounds, level_bounds,
}
use ai_trader.Controls.Validity.{InBounds, LevelInBounds}

abbrev pub Between : ℕ × ℕ → ℕ → Type 0
Between (lo, hi) n = (lo ≤ n) × (n ≤ hi)

-- No more survivors than finalists, and no more council calls than survivors
pub record Narrows (amount : DiscoveryKey → ℕ) : Type 0 where
  pub survivors : amount max_survivors ≤ amount max_finalists
  pub calls : amount max_council_calls_per_pass ≤ amount max_survivors

-- Neither half of the adaptive layer that depends on the news feed is on without it.
pub record FollowsFeed (flag : AdaptiveFlag → Bool) : Type 0 where
  pub shaping :
      (flag adaptive_watchlist_shaping_enabled && not (flag adaptive_news_feed_enabled)) ≡ false
  pub react :
      (flag adaptive_react_defensive_enabled && not (flag adaptive_news_feed_enabled)) ≡ false

pub InBounds-Between :
    (bounds : ℕ × ℕ) (n : ℕ) → bounds.0 ≤ bounds.1 → InBounds bounds n → Between bounds n
InBounds-Between (lo, hi) n h i = ground arith

narrowed-Narrows : (f : DiscoveryKey → ℕ) → ((k : DiscoveryKey) → narrowed f k ≡ f k) → Narrows f
narrowed-Narrows f h = record {
  survivors = ground (arith, h max_survivors);
  calls = ground (arith, h max_survivors, h max_council_calls_per_pass);
}

pub Narrows-narrowed : (f : DiscoveryKey → ℕ) → Narrows f → (k : DiscoveryKey) → narrowed f k ≡ f k
Narrows-narrowed f n discovery_daily_council_budget = refl
Narrows-narrowed f n max_finalists = refl
Narrows-narrowed f n max_survivors = ground (arith, n.survivors)
Narrows-narrowed f n max_council_calls_per_pass = ground (arith, n.survivors, n.calls)
Narrows-narrowed f n crypto_interval_minutes = refl
Narrows-narrowed f n equity_interval_minutes = refl

with_feed-FollowsFeed :
    (f : AdaptiveFlag → Bool) (b : Bool)
    → f adaptive_news_feed_enabled ≡ b
    → ((k : AdaptiveFlag) → with_feed b f k ≡ f k)
    → FollowsFeed f
with_feed-FollowsFeed f true e h = record { shaping = ground (arith, e); react = ground (arith, e) }
with_feed-FollowsFeed f false e h = record {
  shaping = ground (arith, e, h adaptive_watchlist_shaping_enabled);
  react = ground (arith, e, h adaptive_react_defensive_enabled);
}

pub FollowsFeed-with_feed :
    (f : AdaptiveFlag → Bool) (b : Bool)
    → f adaptive_news_feed_enabled ≡ b
    → FollowsFeed f
    → (k : AdaptiveFlag) → with_feed b f k ≡ f k
FollowsFeed-with_feed f true e h k = refl
FollowsFeed-with_feed f false e h adaptive_news_feed_enabled = refl
FollowsFeed-with_feed f false e h adaptive_watchlist_shaping_enabled = ground (arith, e, h.shaping)
FollowsFeed-with_feed f false e h adaptive_react_defensive_enabled = ground (arith, e, h.react)

-- `a < b` and `b < a` are never both true, as IEEE 754 has it.
abbrev pub IsAsymmetric : {X : Type 0} → (X → X → Bool) → Type 0
IsAsymmetric {X} lt = (a b : X) → (lt a b && lt b a) ≡ false

module _ {X : Type 0} ⦃fl : Float X⦄ where
  -- Neither below the lower bound nor above the upper one
  abbrev pub LevelBetween : X × X → X → Type 0
  LevelBetween (lo, hi) x = (fl.lt x lo ≡ false) × (fl.lt hi x ≡ false)

  not_below : IsAsymmetric fl.lt → (a b : X) → fl.lt a b ≡ true → fl.lt b a ≡ false
  not_below h a b e = ground (arith, h a b)

  not_itself : IsAsymmetric fl.lt → (a : X) → fl.lt a a ≡ false
  not_itself h a = ground (arith, h a a)

  at_least-LevelBetween :
      (lo hi y : X)
      → IsAsymmetric fl.lt
      → fl.lt hi lo ≡ false
      → fl.lt hi y ≡ false
      → LevelBetween (lo, hi) (at_least lo y)
  at_least-LevelBetween lo hi y h o u = elim (Bool-cases (fl.lt lo y)) [
    | inl above ↦ rw above (not_below h lo y above, u)
    | inr below ↦ rw below (not_itself h lo, o)
  ]

  at_most_bound : (hi x : X) → IsAsymmetric fl.lt → fl.lt hi (at_most hi x) ≡ false
  at_most_bound hi x h = elim (Bool-cases (fl.lt x hi)) [
    | inl below ↦ rw below (not_below h x hi below)
    | inr above ↦ rw above (not_itself h hi)
  ]

  pub LevelInBounds-LevelBetween :
      (bounds : X × X) (x : X)
      → IsAsymmetric fl.lt
      → fl.lt bounds.0 bounds.1 ≡ true
      → LevelInBounds bounds x
      → LevelBetween bounds x
  LevelInBounds-LevelBetween (lo, hi) x h o i =
      subst (LevelBetween (lo, hi)) i
        (at_least-LevelBetween lo hi (at_most hi x) h (not_below h lo hi o) (at_most_bound hi x h))

  -- A state that keeps every bound and every rule
  pub record KeepsRules (env : Setting X) (st : State X) : Type 0 where
    pub amounts : (k : DiscoveryKey) → Between (discovery_bounds k) (st.discovery.amount k)
    pub weight : LevelBetween whale_weight_bounds st.discovery.stage_a_whale_weight
    pub narrows : Narrows st.discovery.amount
    pub adaptive_amounts :
        (k : AdaptiveKey) → Between (adaptive_bounds k) (st.adaptive_realtime.amount k)
    pub levels : (k : AdaptiveLevel) → LevelBetween (level_bounds k) (st.adaptive_realtime.level k)
    pub follows_feed : FollowsFeed st.adaptive_realtime.flag
    pub daily : Between budget_bounds st.budget.council_daily_budget
    pub cooldown : Between cooldown_bounds st.budget.per_symbol_cooldown_minutes
    pub pins_unique : Unique st.regime_pins
    pub pins_listed : All (λ p. is_whitelisted env p.0 ≡ true) st.regime_pins

  pub narrowing-Narrows : (d : Discovery X) → narrowing d ≡ d → Narrows d.amount
  unfolding narrowing
  narrowing-Narrows d h = narrowed-Narrows d.amount (λ k. ap (λ e. e.amount k) h)

  pub downstream_off-FollowsFeed :
      (a : Adaptive X) → adaptive_downstream_off a ≡ a → FollowsFeed a.flag
  unfolding adaptive_downstream_off
  downstream_off-FollowsFeed a h =
      with_feed-FollowsFeed a.flag (a.flag adaptive_news_feed_enabled) refl
        (λ k. ap (λ b. b.flag k) h)

  pub Narrows-narrowing : (d : Discovery X) → Narrows d.amount → narrowing d ≡ d
  unfolding narrowing
  Narrows-narrowing d n = λ i. record d { amount = fun_ext (Narrows-narrowed d.amount n) i }

  pub FollowsFeed-downstream_off :
      (a : Adaptive X) → FollowsFeed a.flag → adaptive_downstream_off a ≡ a
  unfolding adaptive_downstream_off
  FollowsFeed-downstream_off a f = λ i. record a {
    flag = fun_ext (FollowsFeed-with_feed a.flag (a.flag adaptive_news_feed_enabled) refl f) i;
  }
