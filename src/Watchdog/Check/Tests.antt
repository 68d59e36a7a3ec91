-- ===== src/Watchdog/Check/Tests.antt =====
-- A whole check over a database with a served, an unproven and a crypto symbol.
use ai_trader.Base.{
  ℤ, pos, ◌≡◌, refl, true, false, none, some, List, [], ◌∷◌, str_eq, str_lt, any, if◌then◌else◌,
}
use ai_trader.Watchlist.{member}
use ai_trader.Universe.{
  Bar, with_source, UniverseConfig, MarketDb, opened, resolved_profile, declared_core,
  real_feed_mode, declared_symbols, declared_periphery, resolve, unserviceable,
  symbol_in_trading_scope, symbol_is_tradeable,
}
use ai_trader.Universe.Text.{pieces}
use ai_trader.Watchdog.{Config, Env, World, answer, run_once, nothing}
use ai_trader.Watchdog.Feed.Laws.{is_substituted, is_served}
use ai_trader.Watchdog.Check.{
  Probes, payload, check_health, feed_env, tradeable_symbols, newest_of, newest_from,
}
use ai_trader.Watchdog.Check.Laws.{check_health-unavailable, run_once_served}

abbrev config : UniverseConfig
config = record {
  controls = some (record { strategy_profile = none; feed_mode = some "alpaca_paper" });
  profile = none;
  whitelist = some "AAPL,BTC/USD,MSFT";
  active_quant_whitelist = none;
  feed_mode = none;
  discovery_on = false;
}

abbrev bars : List Bar
bars =
    record { symbol = "AAPL"; timestamp = "b"; source = some "real_feed" }
    ∷ record { symbol = "AAPL"; timestamp = "a"; source = some "synthetic" }
    ∷ record { symbol = "MSFT"; timestamp = "b"; source = some "synthetic" }
    ∷ []

abbrev db : MarketDb ℤ
db = record { bars = with_source bars; watchlist = none }

abbrev probes : Probes ℤ
probes = record {
  config = config;
  access = opened db;
  whitelist = [];
  staleness = pos 900;
  recency = pos 900;
  market_open = true;
  age_of = λ s. if str_eq s "b" then some (pos 60) else some (pos 86400);
  stack_running = true;
  bridge = payload none;
  backend = true;
  kill_tripped = false;
}

abbrev limits : Config
limits = record { startup_grace = 900; hold_window = 1800; max_restarts_per_hour = 3 }

abbrev checked : Env
checked = record {
  health = check_health probes;
  now = 10000;
  engine_age = some 3600;
  stack_running = true;
  stop = answer true;
  start = answer true;
  start_state_known = true;
  save_works = true;
}

abbrev fresh : World
fresh = record { file = none; unavailable_logged = []; universe_degraded = false; universe_ts = 0 }

is_real_path : real_feed_mode config ≡ true
unfolding real_feed_mode
is_real_path = refl

msft_in_scope : symbol_in_trading_scope "MSFT" ≡ true
unfolding symbol_in_trading_scope
msft_in_scope = refl

no_substitution : any (is_substituted (feed_env probes)) (tradeable_symbols probes) ≡ false
unfolding feed_env tradeable_symbols declared_symbols declared_core declared_periphery
    resolved_profile pieces newest_of newest_from symbol_is_tradeable str_lt
no_substitution = refl

one_served : any (is_served (feed_env probes)) (tradeable_symbols probes) ≡ true
unfolding feed_env tradeable_symbols declared_symbols declared_core declared_periphery
    resolved_profile pieces newest_of newest_from symbol_is_tradeable str_lt
one_served = refl

check_health-unavailable_example :
    member "MSFT" (check_health probes).symbol_unavailable
    ≡ member "MSFT" (unserviceable (resolve config none (opened db)))
check_health-unavailable_example =
    check_health-unavailable probes db refl is_real_path refl "MSFT" msft_in_scope

run_once_served_example : (run_once limits checked fresh).action ≡ nothing
run_once_served_example =
    run_once_served limits checked fresh probes db bars refl refl refl is_real_path refl refl refl
      refl no_substitution one_served
