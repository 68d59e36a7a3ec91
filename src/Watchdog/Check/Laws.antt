-- ===== src/Watchdog/Check/Laws.antt =====
-- The watchdog and the tradeable universe read one database by one predicate, and what that does to a
-- cycle.
use ai_trader.Base.{
  ◌≡◌, refl, ◌∙◌, ap, true, false, none, not, arith, List, [], ◌∷◌, any, all, keep, String, inr,
}
use ai_trader.Watchlist.{member}
use ai_trader.Universe.{
  Bar, with_source, MarketDb, opened, symbol_is_tradeable, symbol_in_trading_scope, real_feed_mode,
  declared_symbols, declared_periphery, resolve, unserviceable,
}
use ai_trader.Universe.Laws.{member-keep, resolve-unserviceable}
use ai_trader.Watchdog.{Config, Env, World, run_once, nothing, bridge_ok}
use ai_trader.Watchdog.Guard.{run_once_healthy}
use ai_trader.Watchdog.Feed.{has_source_column}
use ai_trader.Watchdog.Feed.Laws.{is_substituted, is_served, has_column, feed_ok_iff}
use ai_trader.Watchdog.Feed.Unavailable.{is_unavailable, feed_ok-unavailable}
use ai_trader.Watchdog.Check.{
  Probes, tradeable_symbols, feed_env, check_health, newest_of, connects, bars_of, bridge_state,
}

module _ {X : Type 0} (p : Probes X) (db : MarketDb X) where
  tradeable_symbols-opened :
      p.access ≡ opened db → tradeable_symbols p ≡ declared_symbols p.config none db
  unfolding tradeable_symbols declared_symbols declared_periphery
  tradeable_symbols-opened e = rw e

  health-unavailable :
      p.access ≡ opened db
      → (check_health p).symbol_unavailable
        ≡ keep (is_unavailable (feed_env p)) (tradeable_symbols p)
  unfolding check_health feed_env
  health-unavailable e = feed_ok-unavailable (feed_env p) (ap connects e)

  is_unavailable-opened :
      p.access ≡ opened db
      → p.market_open ≡ true
      → (s : String) → is_unavailable (feed_env p) s ≡ not (symbol_is_tradeable db.bars s)
  unfolding feed_env
  is_unavailable-opened e m s = rw (e, m) (ground arith)

  -- Over a database that opens, on the real path and in market hours, the watchdog reports a symbol
  -- in scope as unavailable exactly when the resolved universe calls it unserviceable.
  pub check_health-unavailable :
      p.access ≡ opened db
      → real_feed_mode p.config ≡ true
      → p.market_open ≡ true
      → (s : String) → symbol_in_trading_scope s ≡ true
      → member s (check_health p).symbol_unavailable
        ≡ member s (unserviceable (resolve p.config none p.access))
  check_health-unavailable e real m s scope =
      ap (member s) (health-unavailable e)
      ∙ ground (
        arith,
        member-keep (is_unavailable (feed_env p)) s (tradeable_symbols p),
        is_unavailable-opened e m s,
        ap (member s) (tradeable_symbols-opened e),
        resolve-unserviceable p.config none db real s,
        ap (λ a. member s (unserviceable (resolve p.config none a))) e,
      )

all_columns :
    {X : Type 0} (p : Probes X) (db : MarketDb X) (bars : List Bar)
    → p.access ≡ opened db
    → db.bars ≡ with_source bars
    → (symbols : List String) → all (has_column (feed_env p)) symbols ≡ true
unfolding feed_env newest_of
all_columns p db bars e b [] = refl
all_columns p db bars e b (s ∷ rest) = ground (
  arith,
  all_columns p db bars e b rest,
  ap (λ t. has_source_column (newest_of t s)) (ap bars_of e ∙ b),
)

module _ {X : Type 0} (cfg : Config) (env : Env) (w : World) (p : Probes X) (db : MarketDb X) where
  -- On the real path and over a bars table with the column `source`, where the engine, the bridge and
  -- the backend are up and no kill switch is tripped: while one polled symbol is served real bars on
  -- time, and no polled symbol is substituted, a cycle leaves the stack alone, however many symbols
  -- are stale or unavailable and whatever the guard remembers.
  pub run_once_served :
      (bars : List Bar)
      → env.health ≡ check_health p
      → p.access ≡ opened db
      → db.bars ≡ with_source bars
      → real_feed_mode p.config ≡ true
      → p.kill_tripped ≡ false
      → p.stack_running ≡ true
      → bridge_state p.bridge ≡ bridge_ok
      → p.backend ≡ true
      → any (is_substituted (feed_env p)) (tradeable_symbols p) ≡ false
      → any (is_served (feed_env p)) (tradeable_symbols p) ≡ true
      → (run_once cfg env w).action ≡ nothing
  unfolding check_health feed_env
  run_once_served bars h e b real k up bridge backend substituted served =
      let feed =
        (feed_ok_iff (feed_env p) (ap connects e) real
            (all_columns p db bars e b (tradeable_symbols p))).1
          (substituted, inr served) in
      ap (λ c. c.action)
        (run_once_healthy cfg env w (ap (λ t. t.kill_tripped) h ∙ k)
          (ap (λ t. t.healthy) h ∙ ground (arith, up, bridge, backend, feed)))
