-- ===== src/Watchlist.antt =====
-- discovery/watchlist.py: the watchlist table and its event journal. The SQLite tables are lists in
-- row order; `UNIQUE(symbol)` is kept by the upsert. `shaping` is what `_shaping_enabled` reads at
-- the time of the call, and `now` is the clock.
pub mod Invariant
pub mod Promotion
pub mod Prune
pub mod Size
pub mod Removal
mod Tests
mod Table
unfoldable pub use Table.*
use Prim.Native.Nat.{compare, Ordering}
use ai_trader.Base.{
  ℕ, zero, suc, ◌+◌, ◌-◌, Bool, true, false, Option, none, some, ◌&&◌, ◌||◌, not, if◌then◌else◌,
  List, [], ◌∷◌, ◌++◌, map, keep, any, String, str_eq, str_lt, sorted, drop, Float,
}

pub source_allowed : Bool → String → Bool
source_allowed shaping source =
    if member source active_sources
    then true
    else if member source gated_sources
    then shaping
    else false

pub entry_status_for : String → Status
entry_status_for source = if member source referral_sources then referred else active

module _ {X : Type 0} where
  abbrev pub has_symbol : String → Row X → Bool
  has_symbol symbol r = str_eq r.symbol symbol

  -- `_journal`
  unfoldable pub journal_event : Db X → WatchlistEvent X → String → Bool → Db X
  journal_event db ev ts applied = record db {
    journal =
        db.journal
        ++ record {
          ts = ts;
          action = ev.action;
          symbol = ev.symbol;
          source = ev.source;
          reason = ev.reason;
          applied = applied;
        }
          ∷ [];
  }

  -- `INSERT … ON CONFLICT(symbol) DO UPDATE SET …`: the first row of the symbol is updated, or the
  -- new row is appended
  unfoldable pub upsert : (Row X → Row X) → Row X → List (Row X) → List (Row X)
  upsert update new [] = new ∷ []
  upsert update new (r ∷ rows) =
      let rest = upsert update new rows in
      if has_symbol new.symbol r then update r ∷ rows else r ∷ rest

  -- The row that an event inserts, with the status that its source gives
  abbrev pub new_row : WatchlistEvent X → String → Status → Row X
  new_row ev ts status = record {
    symbol = ev.symbol;
    asset_class = ev.asset_class;
    added_ts = ts;
    updated_ts = ts;
    source = ev.source;
    reason = ev.reason;
    sleeve_target =
        if member ev.sleeve_target valid_sleeves then ev.sleeve_target else "quant_core";
    score = ev.score;
    status = status;
    removed_ts = none;
    removed_reason = none;
  }

  -- The conflict clause of a referral
  abbrev pub refresh_referral : WatchlistEvent X → String → Row X → Row X
  refresh_referral ev ts r = record r { updated_ts = ts; reason = ev.reason }

  -- The conflict clause of an add: all but `added_ts`
  abbrev pub refresh_active : WatchlistEvent X → String → Row X → Row X
  refresh_active ev ts r = record r {
    updated_ts = ts;
    source = ev.source;
    reason = ev.reason;
    sleeve_target = (new_row ev ts active).sleeve_target;
    score = ev.score;
    status = active;
    removed_ts = none;
    removed_reason = none;
    asset_class = ev.asset_class;
  }

  -- The rows that the `UPDATE` of a removal matches
  abbrev pub is_removable : String → Row X → Bool
  is_removable symbol r = has_symbol symbol r && is_live r.status

  abbrev pub take_off : WatchlistEvent X → String → Row X → Row X
  take_off ev ts r =
      if is_removable ev.symbol r
      then record r {
        status = removed;
        removed_ts = some ts;
        removed_reason = some (or_else ev.reason "removed");
        updated_ts = ts;
      }
      else r

  -- The branch of an accepted add
  unfoldable pub add : Db X → WatchlistEvent X → String → Db X × Outcome
  unfolding entry_status_for journal_event
  add db ev ts =
      if is_referred (entry_status_for ev.source)
      then (
        journal_event
            (record db {
              watchlist = upsert (refresh_referral ev ts) (new_row ev ts referred) db.watchlist;
            })
            ev ts true,
        record { applied = true; reason = referral_recorded },
      )
      else (
        journal_event
            (record db {
              watchlist = upsert (refresh_active ev ts) (new_row ev ts active) db.watchlist;
            })
            ev ts true,
        record { applied = true; reason = added },
      )

  -- The branch of an accepted removal
  unfoldable pub remove : Db X → WatchlistEvent X → String → Db X × Outcome
  unfolding journal_event
  remove db ev ts =
      let applied = any (is_removable ev.symbol) db.watchlist in
      (
        journal_event (record db { watchlist = map (take_off ev ts) db.watchlist }) ev ts applied,
        record { applied = applied; reason = if applied then taken_off else not_on_watchlist },
      )

  abbrev pub refuse : Db X → WatchlistEvent X → String → Reply → Db X × Outcome
  refuse db ev ts reply = (journal_event db ev ts false, record { applied = false; reason = reply })

  unfoldable pub apply_event : Bool → String → Db X → WatchlistEvent X → Db X × Outcome
  unfolding source_allowed journal_event
  apply_event shaping now db ev =
      let ts = or_else ev.ts now in
      if not (member ev.action valid_actions)
      then refuse db ev ts invalid_action
      else if str_eq ev.symbol ""
      then refuse db ev ts no_symbol
      else if not (source_allowed shaping ev.source)
      then refuse db ev ts (
          if member ev.source (reserved_sources ++ gated_sources)
          then source_not_enabled
          else unknown_source)
      else if str_eq ev.action "add"
      then add db ev ts
      else remove db ev ts

  -- `journal_onboarding_refusal`
  unfoldable pub journal_onboarding_refusal :
      X → String → Db X → String → String → Option String → Db X × Outcome
  unfolding journal_event
  journal_onboarding_refusal zero_score now db symbol reason ts = (
    journal_event db
        (record {
          action = "add";
          symbol = symbol;
          source = "discovery";
          reason = reason;
          sleeve_target = "quant_core";
          score = zero_score;
          asset_class = "";
          ts = "";
        })
        (ts_or ts now) false,
    record { applied = false; reason = venue_unserviceable },
  )

  -- `add_from_discovery`
  unfoldable pub add_from_discovery :
      Bool → String → Db X → String → String → String → X → String → Option String → Db X × Outcome
  add_from_discovery shaping now db symbol reason sleeve_target score asset_class ts =
      apply_event shaping now db (record {
        action = "add";
        symbol = symbol;
        source = "discovery";
        reason = reason;
        sleeve_target = sleeve_target;
        score = score;
        asset_class = asset_class;
        ts = ts_or ts now;
      })

  -- `refer_from_adaptive`; `zero_score` is the default 0.0
  unfoldable pub refer_from_adaptive :
      X → Bool → String → Db X → String → String → String → Option String → Db X × Outcome
  refer_from_adaptive zero_score shaping now db symbol reason asset_class ts =
      apply_event shaping now db (record {
        action = "add";
        symbol = symbol;
        source = "adaptive_react";
        reason = reason;
        sleeve_target = "quant_core";
        score = zero_score;
        asset_class = asset_class;
        ts = ts_or ts now;
      })
