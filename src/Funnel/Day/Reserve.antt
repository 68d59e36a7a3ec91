-- ===== src/Funnel/Day/Reserve.antt =====
-- The day's budget over any sequence of passes, and the equity reservation inside it.
use ai_trader.Base.{
  ℕ, ◌+◌, ◌-◌, ◌≤◌, ◌<◌, ◌≡◌, refl, arith, if◌then◌else◌, List, [], ◌∷◌, ◌++◌, All, Float, ℤ,
  at_least_zero, ◌==◌,
}
use ai_trader.Funnel.Pass.{Settings, remaining_of}
use ai_trader.Funnel.Pass.Laws.{run_pass-Spends}
use ai_trader.Funnel.Day.{
  crypto, equity, Moment, PassRow, Run, council_calls_today, effective_daily_budget, reserved_calls,
  budgeted, recorded_row, run_recorded, run_all, minute_of_day, us_rth_close_minute,
}

calls-append :
    (day : ℕ) (rows : List PassRow) (row : PassRow)
    → council_calls_today day (rows ++ row ∷ [])
      ≡ council_calls_today day rows + (if row.day == day then row.council_calls else 0)
unfolding council_calls_today
calls-append day [] row = omega arith
calls-append day (r ∷ rest) row = omega (arith, calls-append day rest row)

module _ {X : Type 0} where
  -- A crypto pass on a weekday before the US close
  abbrev pub BeforeClose : Run X → Type 0
  BeforeClose run =
      (run.asset_class ≡ crypto)
      × (run.now.weekday < 5)
      × (minute_of_day run.now < us_rth_close_minute)

module _ {X : Type 0} ⦃fl : Float X⦄ (cfg : Settings X) (reserved : ℤ) where
  -- The budget of a run's class at its moment
  abbrev budget_of : Run X → ℕ
  budget_of run =
      at_least_zero (effective_daily_budget cfg.daily_budget reserved run.asset_class run.now)

  recorded_row-calls :
      (rows : List PassRow) (run : Run X)
      → (recorded_row cfg reserved rows run).council_calls
        ≤ budget_of run - council_calls_today run.now.day rows
  unfolding recorded_row
  recorded_row-calls rows run =
      let used = council_calls_today run.now.day rows in
      let now = budgeted cfg reserved run.asset_class run.now in
      omega (arith, (run_pass-Spends now run.outside run.snapshots used).0)

  recorded_row-day :
      (rows : List PassRow) (run : Run X) → (recorded_row cfg reserved rows run).day ≡ run.now.day
  unfolding recorded_row
  recorded_row-day rows run = refl

  -- A pass brings no day above its own budget.
  run_recorded-calls :
      (bound day : ℕ) (rows : List PassRow) (run : Run X)
      → budget_of run ≤ bound
      → council_calls_today day rows ≤ bound
      → council_calls_today day (run_recorded cfg reserved rows run) ≤ bound
  run_recorded-calls bound day rows run within h = ground (
    arith,
    calls-append day rows (recorded_row cfg reserved rows run),
    recorded_row-calls rows run,
    recorded_row-day rows run,
    within,
  )

  run_all-calls :
      (bound day : ℕ) (rows : List PassRow) (runs : List (Run X))
      → All (λ run. budget_of run ≤ bound) runs
      → council_calls_today day rows ≤ bound
      → council_calls_today day (run_all cfg reserved rows runs) ≤ bound
  unfolding run_all
  run_all-calls bound day rows [] within h = h
  run_all-calls bound day rows (run ∷ rest) within h =
      run_all-calls bound day (run_recorded cfg reserved rows run) rest within.1
        (run_recorded-calls bound day rows run within.0 h)

  budget_of-le_total : (run : Run X) → budget_of run ≤ at_least_zero cfg.daily_budget
  unfolding effective_daily_budget
  budget_of-le_total run = ground arith

  All-within :
      (runs : List (Run X)) → All (λ run. budget_of run ≤ at_least_zero cfg.daily_budget) runs
  All-within [] = tt
  All-within (run ∷ rest) = (budget_of-le_total run, All-within rest)

  -- Whatever passes are run, of whichever class and however often, no day's council calls exceed the
  -- configured total, if they did not before.
  pub run_all_budget :
      (day : ℕ) (rows : List PassRow) (runs : List (Run X))
      → council_calls_today day rows ≤ at_least_zero cfg.daily_budget
      → council_calls_today day (run_all cfg reserved rows runs) ≤ at_least_zero cfg.daily_budget
  run_all_budget day rows runs h =
      run_all-calls (at_least_zero cfg.daily_budget) day rows runs (All-within runs) h

  budget_of-BeforeClose :
      (run : Run X)
      → BeforeClose run
      → budget_of run ≤ at_least_zero cfg.daily_budget - reserved_calls cfg.daily_budget reserved
  unfolding effective_daily_budget
  budget_of-BeforeClose run h = ground (arith, h)

  crypto_within :
      (runs : List (Run X))
      → All BeforeClose runs
      → All
          (λ run.
            budget_of run
            ≤ at_least_zero cfg.daily_budget - reserved_calls cfg.daily_budget reserved)
          runs
  crypto_within [] h = tt
  crypto_within (run ∷ rest) h = (budget_of-BeforeClose run h.0, crypto_within rest h.1)

  -- Crypto passes on weekdays before the US close, however many, leave the reserved calls of every
  -- day on which nothing was spent before them to an equity pass.
  pub run_all_reserve :
      (now : Moment) (rows : List PassRow) (runs : List (Run X))
      → All BeforeClose runs
      → council_calls_today now.day rows ≡ 0
      → reserved_calls cfg.daily_budget reserved
        ≤ remaining_of
            (budgeted cfg reserved equity now)
            (council_calls_today now.day (run_all cfg reserved rows runs))
  unfolding effective_daily_budget
  run_all_reserve now rows runs h none_yet =
      let open_share = at_least_zero cfg.daily_budget - reserved_calls cfg.daily_budget reserved in
      omega (arith, run_all-calls open_share now.day rows runs (crypto_within runs h) (omega arith))
