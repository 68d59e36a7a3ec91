-- ===== src/Funnel/Day.antt =====
-- discovery/run.py: when a pass is due and what it may spend; discovery/store.py: the recorded passes
-- that the day's spending is counted from. A day is a number, for the first ten characters of `ts`;
-- times are whole seconds.
pub mod Reserve
use ai_trader.Base.{
  ℕ, suc, ◌+◌, ◌-◌, ◌*◌, min, Bool, true, false, Option, none, some, ◌&&◌, not, ltb, leb, ◌==◌,
  if◌then◌else◌, List, [], ◌∷◌, ◌++◌, Float, ℤ, pos, negsuc, at_least_zero,
}
use ai_trader.Funnel.Screen.{Snapshot}
use ai_trader.Funnel.Pass.{Settings, Outside, run_pass}

pub data AssetClass : Type 0 where
  crypto equity : AssetClass

abbrev pub is_crypto : AssetClass → Bool
is_crypto crypto = true
is_crypto equity = false

-- A moment in UTC, with Monday as weekday 0; `seconds` counts from a fixed point
pub record Moment : Type 0 where
  pub day : ℕ
  pub weekday : ℕ
  pub hour : ℕ
  pub minute : ℕ
  pub seconds : ℕ

abbrev pub us_rth_open_minute : ℕ
us_rth_open_minute = 810

abbrev pub us_rth_close_minute : ℕ
us_rth_close_minute = 1200

abbrev pub minute_of_day : Moment → ℕ
minute_of_day now = now.hour * 60 + now.minute

unfoldable pub us_market_open : Moment → Bool
us_market_open now =
    if leb 5 now.weekday
    then false
    else leb us_rth_open_minute (minute_of_day now) && ltb (minute_of_day now) us_rth_close_minute

-- `max(0, min(raw, total))`
abbrev pub reserved_calls : ℤ → ℤ → ℕ
reserved_calls total raw = min (at_least_zero raw) (at_least_zero total)

unfoldable pub effective_daily_budget : ℤ → ℤ → AssetClass → Moment → ℤ
effective_daily_budget total raw cls now =
    if not (is_crypto cls)
    then total
    else if leb 5 now.weekday
    then total
    else if leb us_rth_close_minute (minute_of_day now)
    then total
    else pos (at_least_zero total - reserved_calls total raw)

pub data DueReason : Type 0 where
  outside_hours no_previous_pass too_recent interval_over : DueReason

-- `elapsed_min < interval`, in seconds
abbrev pub is_short : ℤ → ℕ → ℕ → Bool
is_short (pos interval) last now = ltb now (last + interval * 60)
is_short (negsuc n) last now = ltb (now + suc n * 60) last

-- `due`, for the time that `_parse_iso` reads from the last pass, if any
unfoldable pub due : AssetClass → ℤ → ℤ → Option ℕ → Moment → Bool × DueReason
unfolding us_market_open
due cls crypto_interval equity_interval last now =
    if not (is_crypto cls) && not (us_market_open now) then (false, outside_hours) else elim last [
      | none ↦ (true, no_previous_pass)
      | some t ↦
          if is_short (if is_crypto cls then crypto_interval else equity_interval) t now.seconds
          then (false, too_recent)
          else (true, interval_over)
    ]

-- A row of discovery_pass, as far as the budget reads it
pub record PassRow : Type 0 where
  pub day : ℕ
  pub asset_class : AssetClass
  pub council_calls : ℕ

-- `council_calls_today`: over both asset classes
unfoldable pub council_calls_today : ℕ → List PassRow → ℕ
council_calls_today day [] = 0
council_calls_today day (row ∷ rest) =
    (if row.day == day then row.council_calls else 0) + council_calls_today day rest

-- One pass that is run: its class, its moment, and what it meets
pub record Run (X : Type 0) : Type 0 where
  pub asset_class : AssetClass
  pub now : Moment
  pub outside : Outside X
  pub snapshots : List (Snapshot X)

module _ {X : Type 0} ⦃fl : Float X⦄ (cfg : Settings X) (reserved : ℤ) where
  -- The settings of a pass, with the budget of its class; the configured total is in `cfg`
  abbrev pub budgeted : AssetClass → Moment → Settings X
  budgeted cls now = record cfg {
    daily_budget = effective_daily_budget cfg.daily_budget reserved cls now;
  }

  -- The pass of `run_once`, as `record_pass` stores it
  unfoldable pub recorded_row : List PassRow → Run X → PassRow
  unfolding run_pass council_calls_today
  recorded_row rows run =
      let used = council_calls_today run.now.day rows in
      let result = run_pass (budgeted run.asset_class run.now) run.outside run.snapshots used in
      record {
        day = run.now.day;
        asset_class = run.asset_class;
        council_calls = result.council_calls;
      }

  abbrev pub run_recorded : List PassRow → Run X → List PassRow
  run_recorded rows run = rows ++ recorded_row rows run ∷ []

  unfoldable pub run_all : List PassRow → List (Run X) → List PassRow
  unfolding recorded_row
  run_all rows [] = rows
  run_all rows (run ∷ rest) = run_all (run_recorded rows run) rest
