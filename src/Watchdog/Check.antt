-- ===== src/Watchdog/Check.antt =====
-- ops/watchdog.py: check_health, bridge_state, tradeable_symbols and universe_state, over the same
-- database and the same configuration that market_data/universe.py reads. What the other probes
-- answered is the record `Probes`.
pub mod Laws
mod Tests
use ai_trader.Base.{
  ℤ, Bool, true, false, Option, none, some, ◌&&◌, not, if◌then◌else◌, List, [], ◌∷◌, String, str_eq,
  str_lt,
}
use ai_trader.Watchlist.{or_else}
use ai_trader.Universe.{
  Bar, BarsTable, with_source, without_source, no_table, UniverseConfig, MarketDb, Access, opened,
  no_database, unreadable, get_or, is_bar_of, symbol_is_tradeable, real_feed_mode, declared_symbols,
  resolve, degraded,
}
use ai_trader.Universe.Text.{has_slash}
use ai_trader.Watchdog.{BridgeStatus, bridge_ok, bridge_degraded, bridge_down, Health}
use ai_trader.Watchdog.Feed.{
  BarRow, Query, answered, no_source_column, failed, FeedEnv, feed_ok, feed_substitution,
}

-- The bridge's /health: no answer that can be read, or its `status`, none where it has no such key
pub data BridgeReply : Type 0 where
  no_answer : BridgeReply
  payload : Option String → BridgeReply

pub record Probes (X : Type 0) : Type 0 where
  pub config : UniverseConfig
  pub access : Access X
  pub whitelist : List String
  pub staleness : ℤ
  pub recency : ℤ
  pub market_open : Bool
  pub age_of : String → Option ℤ
  pub stack_running : Bool
  pub bridge : BridgeReply
  pub backend : Bool
  pub kill_tripped : Bool

-- A status that is neither "ok" nor "degraded" is only ever compared with these two.
abbrev pub status_named : String → BridgeStatus
status_named status =
    if str_eq status "ok"
    then bridge_ok
    else if str_eq status "degraded"
    then bridge_degraded
    else bridge_down

-- The `status` of `bridge_state`
abbrev pub bridge_state : BridgeReply → BridgeStatus
bridge_state no_answer = bridge_down
bridge_state (payload status) = status_named (or_else (get_or "ok" status) "ok")

-- `bstate["reachable"] and bstate["status"] == "ok"`: only a reachable bridge has the status "ok"
abbrev pub is_bridge_ok : BridgeStatus → Bool
is_bridge_ok bridge_ok = true
is_bridge_ok _ = false

-- The later of two rows, the first of those with the same timestamp
abbrev pub later_row : Option BarRow → BarRow → Option BarRow
later_row none row = some row
later_row (some best) row = some (if str_lt best.timestamp row.timestamp then row else best)

-- `ORDER BY timestamp DESC LIMIT 1`, with `COALESCE(source, 'unknown')`
unfoldable pub newest_from : Option BarRow → List Bar → String → Option BarRow
newest_from best [] symbol = best
newest_from best (bar ∷ bars) symbol =
    newest_from
      (if is_bar_of symbol bar
        then later_row best
            (record { timestamp = bar.timestamp; source = get_or "unknown" bar.source })
        else best)
      bars symbol

-- The same from a table without the column `source`, which gives 'unknown'
abbrev pub without_sources : List Bar → List Bar
without_sources [] = []
without_sources (bar ∷ bars) = record bar { source = none } ∷ without_sources bars

unfoldable pub newest_of : BarsTable → String → Query
unfolding newest_from
newest_of (with_source bars) symbol = answered (newest_from none bars symbol)
newest_of (without_source bars) symbol =
    no_source_column (newest_from none (without_sources bars) symbol)
newest_of no_table symbol = no_source_column none

module _ {X : Type 0} where
  -- Whether `sqlite3.connect` gives a connection: an unreadable database is one whose file does not open. A
  -- file that opens and fails at its first query is not told apart here.
  abbrev pub connects : Access X → Bool
  connects (opened db) = true
  connects _ = false

  abbrev pub bars_of : Access X → BarsTable
  bars_of (opened db) = db.bars
  bars_of _ = no_table

  -- `tradeable_symbols`, which resolves the discovery flag itself
  unfoldable pub tradeable_symbols : Probes X → List String
  tradeable_symbols p = elim p.access [
    | opened db ↦ declared_symbols p.config (some p.config.discovery_on) db
    | _ ↦ p.whitelist
  ]

  -- What `feed_ok` finds outside
  unfoldable pub feed_env : Probes X → FeedEnv
  unfolding tradeable_symbols newest_of
  feed_env p = record {
    connects = connects p.access;
    real_path = real_feed_mode p.config;
    equities_open = p.market_open;
    threshold = p.staleness;
    recency = p.recency;
    symbols = tradeable_symbols p;
    is_pair = has_slash;
    newest = newest_of (bars_of p.access);
    symbol_is_tradeable = symbol_is_tradeable (bars_of p.access);
    age_of = p.age_of;
  }

  unfoldable pub check_health : Probes X → Health
  unfolding feed_env
  check_health p =
      let bridge = is_bridge_ok (bridge_state p.bridge) in
      let feed = feed_ok (feed_env p) in
      record {
        engine = p.stack_running;
        bridge = bridge;
        bridge_status = bridge_state p.bridge;
        backend = p.backend;
        feed_fresh = feed.fresh;
        feed_substitution = feed_substitution (feed_env p);
        symbol_unavailable = feed.unavailable_symbols;
        out_of_window_non_real = feed.out_of_window_non_real;
        universe_degraded = degraded (resolve p.config none p.access);
        kill_tripped = p.kill_tripped;
        healthy = p.stack_running && bridge && p.backend && feed.ok;
      }
