-- ===== src/Discovery/Run.antt =====
-- discovery/run.py, run_once and run_due.
use ai_trader.Base.{
  Bool, true, false, none, some, not, if◌then◌else◌, List, [], ◌∷◌, ◌++◌, map, String, str_eq,
  Float, at_least_zero,
}
use ai_trader.Watchlist.{Db}
use ai_trader.Watchlist.Removal.{prune_stale, enforce_max_size}
use ai_trader.Universe.{BarsTable}
use ai_trader.Universe.Serviceable.{judge_serviceable}
use ai_trader.Funnel.Screen.{Snapshot}
use ai_trader.Funnel.Pass.{PassResult, PassStatus, done, run_pass}
use ai_trader.Funnel.Day.{
  AssetClass, crypto, equity, Moment, DueReason, due, council_calls_today, budgeted, recorded_row,
}
use ai_trader.Discovery.State.{
  Stored, DiscoveryDb, RunEnv, class_name, last_pass, rows_of, universe_for, screened_universe,
}
use ai_trader.Discovery.Onboard.{Onboarding, no_onboarding, onboard, complete}
use ai_trader.Discovery.Join.{
  Loop, completed, broken_off, candidate_symbol, candidates_of, join_all,
}

pub data RunStatus : Type 0 where
  disabled empty_universe all_refused unavailable no_data error : RunStatus
  not_due : DueReason → RunStatus
  passed : PassStatus → RunStatus

-- The pass came to its end.
abbrev pub is_passed : RunStatus → Bool
is_passed (passed _) = true
is_passed _ = false

pub record Report : Type 0 where
  pub status : RunStatus
  pub onboarding : Onboarding
  pub added : List String
  pub refused : List String
  pub pruned : List String
  pub capped : List String

-- The dict of a pass that did not come to the watchlist
abbrev pub stopped : RunStatus → Report
stopped status = record {
  status = status;
  onboarding = no_onboarding "noop";
  added = [];
  refused = [];
  pruned = [];
  capped = [];
}

abbrev pub is_done : PassStatus → Bool
is_done done = true
is_done _ = false

module _ {X : Type 0} ⦃fl : Float X⦄ where
  -- The funnel's pass, with what the day has spent and the budget of the class
  unfoldable pub funnel_pass :
      RunEnv X → Moment → AssetClass → List Stored → List (Snapshot X) → PassResult X
  funnel_pass env now cls passes snapshots =
      run_pass (budgeted env.settings env.reserved cls now) env.outside snapshots
        (council_calls_today now.day (rows_of passes))

  -- `record_pass`
  unfoldable pub recorded :
      RunEnv X → Moment → AssetClass → List Stored → List (Snapshot X) → List Stored
  recorded env now cls passes snapshots =
      passes
      ++ record {
        row =
            recorded_row env.settings env.reserved (rows_of passes) (record {
              asset_class = cls;
              now = now;
              outside = env.outside;
              snapshots = snapshots;
            });
        seconds = now.seconds;
      }
        ∷ []

  -- The survivors' backfill, which `run_pass` calls for before stage C, and then the candidates'
  unfoldable pub onboarded : RunEnv X → BarsTable → PassResult X → Onboarding × BarsTable
  onboarded env bars result =
      let prepared =
        if is_done result.status
        then onboard env.backfill bars result.survivors
        else (no_onboarding "noop", bars) in
      complete env.backfill prepared (map candidate_symbol (candidates_of result.candidates))

  -- The symbols that are not taken on: none, unless the backfill ran
  unfoldable pub unserved : Onboarding × BarsTable → PassResult X → List String
  unserved (o, bars) result =
      if str_eq o.status "ok"
      then (judge_serviceable bars (map candidate_symbol (candidates_of result.candidates))
          o.bars_written).unserviceable
      else []

  -- Stale entries leave, then the size is enforced.
  unfoldable pub trimmed : RunEnv X → Db X → Db X × List String × List String
  trimmed env table =
      let (table1, pruned) =
        prune_stale (fl.lit 0 0) env.shaping env.stale_cutoff env.ts env.stale_reason table in
      let (table2, capped) =
        enforce_max_size (fl.lit 0 0) env.shaping env.ts env.cap_reason (at_least_zero env.max_size)
          table1 in
      (table2, pruned, capped)

  -- The end of a pass, whose record was committed before the loop: the watchlist is committed after the
  -- trimming, and an exception in the loop closes the connection, which leaves what was last committed
  unfoldable pub finish :
      RunEnv X → List Stored → Onboarding × BarsTable → PassStatus → Loop X → DiscoveryDb X × Report
  unfolding trimmed
  finish env passes (o, bars) status (broken_off st) =
      (record { watchlist = st.committed; passes = passes; bars = bars }, stopped error)
  finish env passes (o, bars) status (completed st) =
      let (table, pruned, capped) = trimmed env st.table in
      (
        record { watchlist = table; passes = passes; bars = bars },
        record {
          status = passed status;
          onboarding = o;
          added = st.added;
          refused = st.refused;
          pruned = pruned;
          capped = capped;
        },
      )

  -- A pass over its snapshots
  unfoldable pub run_snapshots :
      RunEnv X → Moment → AssetClass → DiscoveryDb X → List (Snapshot X) → DiscoveryDb X × Report
  unfolding finish
  run_snapshots env now cls db snapshots =
      let result = funnel_pass env now cls db.passes snapshots in
      let o = onboarded env db.bars result in
      finish env (recorded env now cls db.passes snapshots) o result.status (
        join_all env (class_name cls) result.whale_surfaced (unserved o result)
          (record { committed = db.watchlist; table = db.watchlist; added = []; refused = [] })
          (candidates_of result.candidates))

  -- The fetch of the free data, for a universe that is not empty
  unfoldable pub run_universe :
      RunEnv X → Moment → AssetClass → DiscoveryDb X → List String → DiscoveryDb X × Report
  unfolding run_snapshots
  run_universe env now cls db symbols =
      if not env.live then (db, stopped unavailable) else elim (env.snapshots_for symbols) [
        | none ↦ (db, stopped error)
        | some [] ↦ (db, stopped no_data)
        | some (snapshot ∷ rest) ↦ run_snapshots env now cls db (snapshot ∷ rest)
      ]

  unfoldable pub run_due_pass :
      RunEnv X → Moment → AssetClass → DiscoveryDb X → DiscoveryDb X × Report
  unfolding run_universe
  run_due_pass env now cls db = elim (universe_for env cls) [
    | [] ↦ (db, stopped empty_universe)
    | _ ∷ _ ↦ elim (screened_universe env cls db.watchlist) [
      | [] ↦ (db, stopped all_refused)
      | s ∷ symbols ↦ run_universe env now cls db (s ∷ symbols)
    ]
  ]

  abbrev pub due_of : RunEnv X → Moment → AssetClass → DiscoveryDb X → Bool × DueReason
  due_of env now cls db =
      due cls env.crypto_interval env.equity_interval (last_pass cls db.passes) now

  unfoldable pub run_once : RunEnv X → Moment → AssetClass → DiscoveryDb X → DiscoveryDb X × Report
  unfolding run_due_pass
  run_once env now cls db =
      if not env.enabled
      then (db, stopped disabled)
      else if env.force
      then run_due_pass env now cls db
      else (let (is_due, reason) = due_of env now cls db in
          if is_due then run_due_pass env now cls db else (db, stopped (not_due reason)))

  -- Both classes, one after the other, each with what it meets outside
  unfoldable pub run_due :
      RunEnv X → RunEnv X → Moment → DiscoveryDb X → DiscoveryDb X × Report × Report
  unfolding run_once
  run_due crypto_env equity_env now db =
      let (db1, crypto_report) = run_once crypto_env now crypto db in
      let (db2, equity_report) = run_once equity_env now equity db1 in
      (db2, crypto_report, equity_report)
