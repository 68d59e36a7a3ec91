-- ===== src/Discovery/Tests.antt =====
-- A whole equity pass: one candidate the venue serves, and one that it does not.
use ai_trader.Base.{
  length, ◌≤◌, ◌≡◌, refl, arith, true, false, ◌&&◌, ◌||◌, not, none, some, List, [], ◌∷◌, any,
  count, String, str_eq, str_lt, sorted, ℤ, pos, at_least_zero, fixed,
}
use ai_trader.Watchlist.{member, apply_event, add, upsert}
use ai_trader.Watchlist.Removal.{prune_stale, remove_all, stale_symbols, enforce_max_size, overflow}
use ai_trader.Watchlist.Invariant.{IsUnique}
use ai_trader.Watchlist.Promotion.{tradeable}
use ai_trader.Watchlist.Size.{active_row}
use ai_trader.Universe.{
  with_source, symbol_is_tradeable, symbol_in_trading_scope, UniverseConfig, opened, resolve,
  symbols,
}
use ai_trader.Universe.Serviceable.{reported, judge_serviceable}
use ai_trader.Funnel.Screen.{Snapshot, absent, number, unreadable, prescreen_score}
use ai_trader.Funnel.Evaluate.{contacts, Verdict, returned}
use ai_trader.Funnel.Pass.{Settings, run_pass}
use ai_trader.Funnel.Day.{Moment, equity, crypto, council_calls_today, effective_daily_budget}
use ai_trader.Discovery.State.{DiscoveryDb, RunEnv, universe_for, screened_universe, rows_of}
use ai_trader.Discovery.Onboard.{complete}
use ai_trader.Discovery.Join.{is_avoided, candidate_symbol, join_all}
use ai_trader.Discovery.Run.{
  recorded, run_once, run_due_pass, run_universe, run_snapshots, finish, trimmed, funnel_pass,
  onboarded, unserved, is_passed,
}
use ai_trader.Discovery.Table.{run_once-IsUnique, run_once_bound, run_once_failed}
use ai_trader.Discovery.Promotion.{Confirmed, run_once_promotes}
use ai_trader.Discovery.Resolved.{market_after, run_once_resolved}
use ai_trader.Discovery.Refusals.{run_once_refused}
use ai_trader.Discovery.Accounts.{run_snapshots_accounts}
use ai_trader.Discovery.Budget.{run_once_crypto, run_passes, run_passes_budget}

abbrev quote : String → Snapshot ℤ
quote symbol = record {
  symbol = symbol;
  price = number (pos 10000000000);
  change_pct = number (pos 5000000000);
  high = absent;
  low = absent;
  prev_close = absent;
  open_price = absent;
  sentiment_score = absent;
  native_strength = absent;
  whale_component = absent;
  whale_reason = "";
}

abbrev settings : Settings ℤ
settings = record {
  max_finalists = pos 12;
  max_survivors = pos 5;
  max_council_calls = pos 3;
  daily_budget = pos 12;
  prescreen_min_score = pos 50000000;
  whale_weight = pos 150000000;
  est_cost_per_call = pos 56000000;
  long_term_enabled = false;
  conviction_threshold = pos 700000000;
}

abbrev bought : Verdict ℤ
bought = record {
  provider_calls = contacts (pos 3);
  symbol = none;
  prescreen_score = none;
  horizon = "days";
  conviction = number (pos 800000000);
  verdict = "buy";
  sleeve_target = none;
  whale_surfaced = false;
  whale_reason = "";
}

abbrev env : RunEnv ℤ
env = record {
  settings = settings;
  enabled = true;
  force = true;
  live = true;
  shaping = false;
  reserved = pos 4;
  crypto_interval = pos 60;
  equity_interval = pos 60;
  max_size = pos 20;
  crypto_active = [];
  equity_universe = "LOUD" ∷ "GONE" ∷ [];
  ts = "2026-07-28T15:00:00Z";
  refusal_cutoff = "2026-07-21T15:00:00Z";
  stale_cutoff = "2026-07-27T15:00:00Z";
  stale_reason = "signal stale";
  cap_reason = "watchlist full";
  snapshots_for = λ symbols. some (quote "LOUD" ∷ quote "GONE" ∷ []);
  outside = record {
    should_review = λ s. none;
    evaluator = λ survivors screens symbol. returned bought;
    lower = λ s. s;
  };
  backfill = λ bars symbols. (
    reported "ok" (("LOUD:5min", 288) ∷ []),
    with_source (record { symbol = "LOUD"; timestamp = "now"; source = some "backfill" } ∷ []),
  );
  add_reason = λ c surfaced. "discovery buy";
}

abbrev now : Moment
now = record { day = 20662; weekday = 1; hour = 15; minute = 0; seconds = 0 }

abbrev db : DiscoveryDb ℤ
db = record {
  watchlist = record { watchlist = []; journal = [] };
  passes = [];
  bars = with_source [];
}

-- The pass ends with a verified backfill, refuses GONE and makes LOUD tradeable.
first_pass :
    let (left, report) = run_once env now equity db in
    (is_passed report.status ≡ true)
    × (member "GONE" report.refused ≡ true)
    × (tradeable "LOUD" left.watchlist.watchlist ≡ true)
    × (str_eq report.onboarding.status "ok" ≡ true)
unfolding run_once run_due_pass run_universe run_snapshots finish funnel_pass universe_for
    screened_universe join_all run_pass sorted fixed prescreen_score str_lt effective_daily_budget
    council_calls_today unserved onboarded complete judge_serviceable symbol_is_tradeable trimmed
    prune_stale remove_all stale_symbols enforce_max_size overflow apply_event add upsert
first_pass = (refl, refl, refl, refl)

-- A conviction that cannot be read: the pass fails after it was recorded.
abbrev failing : RunEnv ℤ
failing = record env {
  outside = record env.outside {
    evaluator = λ survivors screens symbol. returned (record bought { conviction = unreadable });
  };
}

-- GONE is refused and journalled before the conviction of LOUD raises.
failing_pass :
    let (left, report) = run_once failing now equity db in
    (is_passed report.status ≡ false) × (length left.passes ≡ 1)
unfolding run_once run_due_pass run_universe run_snapshots finish funnel_pass universe_for
    screened_universe join_all run_pass sorted fixed prescreen_score str_lt effective_daily_budget
    council_calls_today unserved onboarded complete judge_serviceable symbol_is_tradeable recorded
failing_pass = (refl, refl)

abbrev fetched : List (Snapshot ℤ)
fetched = quote "LOUD" ∷ quote "GONE" ∷ []

snapshots_named :
    (any
        (λ c. str_eq (candidate_symbol c) "GONE" && not (is_avoided c))
        (funnel_pass env now equity db.passes fetched).candidates
      ≡ true)
    × (is_passed (run_snapshots env now equity db fetched).1.status ≡ true)
unfolding run_snapshots finish funnel_pass join_all run_pass sorted fixed prescreen_score str_lt
    effective_daily_budget council_calls_today unserved onboarded complete judge_serviceable
    symbol_is_tradeable
snapshots_named = (refl, refl)

run_once-IsUnique_example : IsUnique (run_once env now equity db).0.watchlist.watchlist
run_once-IsUnique_example = run_once-IsUnique env now equity db tt

run_once_bound_example :
    count active_row (run_once env now equity db).0.watchlist.watchlist ≤ at_least_zero (pos 20)
run_once_bound_example = run_once_bound env now equity db refl tt first_pass.0

run_once_failed_example : (run_once failing now equity db).0.watchlist ≡ db.watchlist
run_once_failed_example = run_once_failed failing now equity db failing_pass.0

run_once_promotes_example :
    (snapshots : List (Snapshot ℤ)) × Confirmed env now equity db "LOUD"
      (run_once env now equity db)
      snapshots
run_once_promotes_example = run_once_promotes env now equity db "LOUD" refl first_pass.2

run_once_refused_example :
    member "GONE" (screened_universe env equity (run_once env now equity db).0.watchlist) ≡ false
unfolding str_lt
run_once_refused_example =
    run_once_refused env now equity db "GONE" env equity refl refl first_pass.1

run_snapshots_accounts_example :
    (member "GONE" (run_snapshots env now equity db fetched).1.added
      || member "GONE" (run_snapshots env now equity db fetched).1.refused)
    ≡ true
run_snapshots_accounts_example =
    run_snapshots_accounts env now equity db fetched "GONE" refl snapshots_named.0 snapshots_named.1

run_once_crypto_example : (run_once env now crypto db).0 ≡ db
run_once_crypto_example = run_once_crypto env now db

nothing_recorded : council_calls_today 20662 [] ≤ 12
unfolding council_calls_today
nothing_recorded = omega arith

run_passes_budget_example :
    council_calls_today 20662
      (rows_of (run_passes db ((env, now, equity) ∷ (failing, now, equity) ∷ [])).passes)
    ≤ at_least_zero (pos 12)
run_passes_budget_example =
    run_passes_budget (pos 12) 20662 db ((env, now, equity) ∷ (failing, now, equity) ∷ [])
      (refl, (refl, tt)) nothing_recorded

abbrev config : UniverseConfig
config = record {
  controls = some (record { strategy_profile = none; feed_mode = some "alpaca_paper" });
  profile = none;
  whitelist = some "SPY";
  active_quant_whitelist = none;
  feed_mode = none;
  discovery_on = true;
}

loud_in_scope : symbol_in_trading_scope "LOUD" ≡ true
unfolding symbol_in_trading_scope
loud_in_scope = refl

run_once_resolved_example :
    member "LOUD" (symbols (resolve config none (opened (market_after env now equity db)))) ≡ true
run_once_resolved_example =
    run_once_resolved env now equity db "LOUD" config refl refl loud_in_scope first_pass.3 refl
      first_pass.2
