-- ===== src/Discovery/Budget.antt =====
-- What both classes' passes spend of the day's council budget, and that the class out of scope
-- spends nothing.
use ai_trader.Base.{
  ℕ, ◌≤◌, ◌≡◌, refl, sym, subst, ◌∙◌, ap, List, [], ◌∷◌, ◌++◌, Float, ℤ, All, at_least_zero, arith,
}
use ai_trader.Universe.{BarsTable}
use ai_trader.Funnel.Pass.{PassStatus}
use ai_trader.Funnel.Day.{AssetClass, crypto, Moment, council_calls_today, run_all}
use ai_trader.Funnel.Day.Reserve.{run_all_budget}
use ai_trader.Discovery.State.{Stored, DiscoveryDb, RunEnv, rows_of, universe_for}
use ai_trader.Discovery.Onboard.{Onboarding}
use ai_trader.Discovery.Join.{Loop, completed, broken_off}
use ai_trader.Discovery.Run.{finish, run_snapshots, run_due_pass, run_once, recorded}
use ai_trader.Discovery.Steps.{run_once-cases}

module _ {X : Type 0} ⦃fl : Float X⦄ (env : RunEnv X) (now : Moment) where
  -- A pass of the class that is out of trading scope changes no table.
  pub run_once_crypto : (db : DiscoveryDb X) → (run_once env now crypto db).0 ≡ db
  unfolding run_once run_due_pass universe_for
  run_once_crypto db = ground arith

  finish-passes :
      (passes : List Stored) (o : Onboarding × BarsTable) (status : PassStatus) (joined : Loop X)
      → (finish env passes o status joined).0.passes ≡ passes
  unfolding finish
  finish-passes passes (o, bars) status (broken_off st) = refl
  finish-passes passes (o, bars) status (completed st) = refl

  rows_of-append :
      (passes : List Stored) (stored : Stored)
      → rows_of (passes ++ stored ∷ []) ≡ rows_of passes ++ stored.row ∷ []
  rows_of-append [] stored = refl
  rows_of-append (p ∷ rest) stored = ap (λ rows. p.row ∷ rows) (rows_of-append rest stored)

  run_once-spends :
      (cls : AssetClass) (day : ℕ) (db : DiscoveryDb X)
      → council_calls_today day (rows_of db.passes) ≤ at_least_zero env.settings.daily_budget
      → council_calls_today day (rows_of (run_once env now cls db).0.passes)
        ≤ at_least_zero env.settings.daily_budget
  unfolding run_snapshots recorded run_all
  run_once-spends cls day db h =
      run_once-cases env now cls db
        (λ r.
          council_calls_today day (rows_of r.0.passes) ≤ at_least_zero env.settings.daily_budget)
        (λ status _. h)
        (λ snapshots _.
          subst (λ rows. council_calls_today day rows ≤ at_least_zero env.settings.daily_budget)
            (sym (ap rows_of (finish-passes _ _ _ _) ∙ rows_of-append db.passes _))
            (run_all_budget env.settings env.reserved day (rows_of db.passes)
              (record { asset_class = cls; now = now; outside = env.outside; snapshots = snapshots }
                ∷ [])
              h))

-- Any passes, one after the other: each with what it meets outside, its moment and its class
unfoldable pub run_passes :
    {X : Type 0} ⦃fl : Float X⦄
    → DiscoveryDb X
    → List (RunEnv X × Moment × AssetClass)
    → DiscoveryDb X
run_passes db [] = db
run_passes db ((env, now, cls) ∷ rest) = run_passes (run_once env now cls db).0 rest

module _ {X : Type 0} ⦃fl : Float X⦄ (budget : ℤ) (day : ℕ) where
  -- Whatever passes are run, forced ones included, and however they end, the council calls recorded
  -- for a day stay within the configured budget if they were within it before.
  pub run_passes_budget :
      (db : DiscoveryDb X) (runs : List (RunEnv X × Moment × AssetClass))
      → All (λ run. run.0.settings.daily_budget ≡ budget) runs
      → council_calls_today day (rows_of db.passes) ≤ at_least_zero budget
      → council_calls_today day (rows_of (run_passes db runs).passes) ≤ at_least_zero budget
  unfolding run_passes
  run_passes_budget db [] all h = h
  run_passes_budget db ((env, now, cls) ∷ rest) all h =
      run_passes_budget (run_once env now cls db).0 rest all.1 (
        subst
          (λ b.
            council_calls_today day (rows_of (run_once env now cls db).0.passes) ≤ at_least_zero b)
          all.0
          (run_once-spends env now cls day db (
            subst (λ b. council_calls_today day (rows_of db.passes) ≤ at_least_zero b) (sym all.0)
              h)))
