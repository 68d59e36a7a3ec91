-- ===== src/Watchdog/Feed/Tests.antt =====
-- The feed's health at concrete universes.
use ai_trader.Base.{
  ◌≡◌, ◌↔◌, ◌⊎◌, refl, true, false, some, [], ◌∷◌, any, String, str_eq, ℤ, pos, if◌then◌else◌,
  Option, ◌||◌, not,
}
use ai_trader.Watchdog.Feed.{
  Query, answered, no_source_column, FeedEnv, visit, visit_all, judge, judge_row,
  report_unavailable, summarise, feed_ok, feed_substitution,
}
use ai_trader.Watchdog.Feed.Laws.{is_substituted, is_stale, is_served, feed_ok_iff}

abbrev newest_row : String → Query
newest_row s =
    if str_eq s "BTC/USD"
    then answered (some (record { timestamp = "on time"; source = "real_feed" }))
    else if str_eq s "SOL/USD"
    then answered (some (record { timestamp = "a day old"; source = "real_feed" }))
    else answered (some (record { timestamp = "on time"; source = "synthetic" }))

abbrev age : String → Option ℤ
age s = if str_eq s "on time" then some (pos 60) else some (pos 86400)

-- A served pair, a stale pair, a pair the venue has never served, and an equity after hours
abbrev universe : FeedEnv
universe = record {
  connects = true;
  real_path = true;
  equities_open = false;
  threshold = pos 900;
  recency = pos 900;
  symbols = "BTC/USD" ∷ "SOL/USD" ∷ "MANA/USD" ∷ "AAPL" ∷ [];
  is_pair = λ s. str_eq s "BTC/USD" || str_eq s "SOL/USD" || str_eq s "MANA/USD";
  newest = newest_row;
  symbol_is_tradeable = λ s. not (str_eq s "MANA/USD");
  age_of = age;
}

universe_stale : (feed_ok universe).stale_symbols ≡ "SOL/USD" ∷ []
unfolding feed_ok visit_all visit judge judge_row report_unavailable summarise
universe_stale = refl

universe_ok : (feed_ok universe).ok ≡ true
unfolding feed_ok visit_all visit judge judge_row report_unavailable summarise
universe_ok = refl

-- The pair that had a real history now has a synthetic bar on time.
abbrev substituted : FeedEnv
substituted = record universe { symbol_is_tradeable = λ s. true }

substituted_ok : (feed_ok substituted).ok ≡ false
unfolding feed_ok visit_all visit judge judge_row report_unavailable summarise
substituted_ok = refl

-- The same, where the query of a later symbol is refused: no provenance is judged any more.
abbrev refused : FeedEnv
refused = record substituted {
  symbols = "MANA/USD" ∷ "BTC/USD" ∷ [];
  newest = λ s.
      if str_eq s "BTC/USD"
      then no_source_column (some (record { timestamp = "on time"; source = "unknown" }))
      else newest_row s;
}

refused_ok : (feed_ok refused).ok ≡ true
unfolding feed_ok visit_all visit judge judge_row report_unavailable summarise
refused_ok = refl

refused_substitution : feed_substitution refused ≡ false
unfolding feed_substitution feed_ok visit_all visit judge judge_row report_unavailable summarise
refused_substitution = refl

feed_ok_iff_example : ((feed_ok universe).ok ≡ true) ↔ (
    (any (is_substituted universe) universe.symbols ≡ false)
    × ((any (is_stale universe) universe.symbols ≡ false)
        ⊎ (any (is_served universe) universe.symbols ≡ true)))
feed_ok_iff_example = feed_ok_iff universe refl refl refl
