-- ===== src/Universe/Serviceable.antt =====
-- market_data/universe.py, whether the venue serves a symbol: a backfill is attempted, then the
-- predicate is asked. The backfill itself, a network call that writes bars, is an argument.
use ai_trader.Base.{
  ℕ, ◌+◌, Bool, true, false, not, if◌then◌else◌, List, [], ◌∷◌, map, keep, String, str_eq,
}
use ai_trader.Universe.{
  BarsTable, UniverseConfig, symbol_is_tradeable, declared_core, real_feed_mode,
}
use ai_trader.Universe.Text.{key_symbol}

-- What a backfill came to: it could not be imported, it raised, or a status with the rows written
-- under each key
pub data Backfilled : Type 0 where
  missing raised : Backfilled
  reported : String → List (String × ℕ) → Backfilled

-- The rows written for a symbol, over all timeframes
unfoldable pub written_for : List (String × ℕ) → String → ℕ
written_for [] symbol = 0
written_for ((key, n) ∷ rest) symbol =
    let later = written_for rest symbol in
    if str_eq (key_symbol key) symbol then n + later else later

abbrev pub per_symbol : List (String × ℕ) → List String → List (String × ℕ)
per_symbol written symbols = map (λ s. (s, written_for written s)) symbols

pub record Serviceability : Type 0 where
  pub verified : Bool
  pub serviceable : List String
  pub unserviceable : List String
  pub bars_written : List (String × ℕ)
  pub status : String

abbrev pub unproven : String → Serviceability
unproven status = record {
  verified = false;
  serviceable = [];
  unserviceable = [];
  bars_written = [];
  status = status;
}

unfoldable pub judge_serviceable : BarsTable → List String → List (String × ℕ) → Serviceability
judge_serviceable bars symbols written = record {
  verified = true;
  serviceable = keep (symbol_is_tradeable bars) symbols;
  unserviceable = keep (λ s. not (symbol_is_tradeable bars s)) symbols;
  bars_written = written;
  status = "ok";
}

-- `bars` is the table after the attempt
unfoldable pub verify_serviceable : BarsTable → List String → Backfilled → Serviceability
unfolding judge_serviceable
verify_serviceable bars [] attempt = unproven "noop"
verify_serviceable bars (s ∷ symbols) missing = unproven "unavailable"
verify_serviceable bars (s ∷ symbols) raised = unproven "error"
verify_serviceable bars (s ∷ symbols) (reported status written) =
    if not (str_eq status "ok")
    then unproven status
    else judge_serviceable bars (s ∷ symbols) (per_symbol written (s ∷ symbols))

-- How `verify_core` fetches: itself, or by an injected fetch, which raised, did not run, or ran
pub data CoreFetch : Type 0 where
  in_process : Backfilled → CoreFetch
  fetch_raised not_run : CoreFetch
  ran : List (String × ℕ) → CoreFetch

pub record CoreReport : Type 0 where
  pub core : List String
  pub enforced : Bool
  pub result : Serviceability

-- `connects` is whether the database opens after the fetch
unfoldable pub core_result : Bool → BarsTable → List String → CoreFetch → Serviceability
unfolding verify_serviceable judge_serviceable
core_result connects bars [] fetch = unproven "noop"
core_result connects bars (s ∷ core) fetch_raised = unproven "error"
core_result connects bars (s ∷ core) (in_process attempt) =
    if connects then verify_serviceable bars (s ∷ core) attempt else unproven "error"
core_result connects bars (s ∷ core) not_run =
    if connects then unproven "unavailable" else unproven "error"
core_result connects bars (s ∷ core) (ran written) =
    if connects then judge_serviceable bars (s ∷ core) written else unproven "error"

unfoldable pub verify_core : UniverseConfig → Bool → BarsTable → CoreFetch → CoreReport
unfolding core_result
verify_core cfg connects bars fetch = record {
  core = declared_core cfg;
  enforced = real_feed_mode cfg;
  result = core_result connects bars (declared_core cfg) fetch;
}
