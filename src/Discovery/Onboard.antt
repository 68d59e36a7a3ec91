-- ===== src/Discovery/Onboard.antt =====
-- discovery/run.py, onboard, and how a pass joins the backfill of its survivors with that of the
-- candidates that were not among them.
use ai_trader.Base.{
  ℕ, not, ltb, if◌then◌else◌, List, [], ◌∷◌, ◌++◌, map, keep, String, str_eq, str_lt, sorted,
}
use ai_trader.Watchlist.{member}
use ai_trader.Universe.{BarsTable}
use ai_trader.Universe.Serviceable.{Backfilled, missing, raised, reported, per_symbol}

-- The dict that `onboard` returns, or the initial `prepared`, with [] for a missing `bars_written`
pub record Onboarding : Type 0 where
  pub status : String
  pub onboarded : List String
  pub bars_written : List (String × ℕ)

abbrev pub no_onboarding : String → Onboarding
no_onboarding status = record { status = status; onboarded = []; bars_written = [] }

-- The keys of a dict that is built from a list
abbrev pub unique_from : List String → List String → List String
unique_from seen [] = seen
unique_from seen (s ∷ rest) = unique_from (if member s seen then seen else seen ++ s ∷ []) rest

abbrev pub unique : List String → List String
unique symbols = unique_from [] symbols

abbrev pub keys : List (String × ℕ) → List String
keys d = map (λ entry. entry.0) d

-- What the symbols' backfill came to
unfoldable pub onboarding_of : List String → Backfilled → Onboarding
onboarding_of symbols missing = no_onboarding "unavailable"
onboarding_of symbols raised = no_onboarding "error"
onboarding_of symbols (reported status written) =
    if not (str_eq status "ok")
    then no_onboarding status
    else (let got = per_symbol written (unique symbols) in
        record {
          status = "ok";
          onboarded = sorted str_lt (keys (keep (λ entry. ltb 0 entry.1) got));
          bars_written = got;
        })

-- `onboard`, with the bars table before and after
unfoldable pub onboard :
    (BarsTable → List String → Backfilled × BarsTable)
    → BarsTable
    → List String
    → Onboarding × BarsTable
unfolding onboarding_of
onboard backfill bars [] = (no_onboarding "noop", bars)
onboard backfill bars (s ∷ symbols) =
    let (attempt, after) = backfill bars (s ∷ symbols) in
    (onboarding_of (s ∷ symbols) attempt, after)

abbrev pub set_key : List (String × ℕ) → String → ℕ → List (String × ℕ)
set_key [] key n = (key, n) ∷ []
set_key ((k, old) ∷ rest) key n =
    let later = set_key rest key n in if str_eq k key then (k, n) ∷ rest else (k, old) ∷ later

abbrev pub update_keys : List (String × ℕ) → List (String × ℕ) → List (String × ℕ)
update_keys d [] = d
update_keys d ((key, n) ∷ rest) = update_keys (set_key d key n) rest

-- `{**prepared, …}`: the status stays that of the preparation
abbrev pub merged : Onboarding → Onboarding → Onboarding
merged prepared later = record {
  status = prepared.status;
  onboarded = sorted str_lt (unique (prepared.onboarded ++ later.onboarded));
  bars_written = update_keys prepared.bars_written later.bars_written;
}

-- The candidates that the preparation did not fetch are fetched now.
unfoldable pub complete :
    (BarsTable → List String → Backfilled × BarsTable)
    → Onboarding × BarsTable
    → List String
    → Onboarding × BarsTable
unfolding onboard
complete backfill (prepared, bars) symbols =
    elim (keep (λ s. not (member s (keys prepared.bars_written))) symbols) [
      | [] ↦ (prepared, bars)
      | s ∷ rest ↦
          let (later, after) = onboard backfill bars (s ∷ rest) in
          (if str_eq prepared.status "ok" then merged prepared later else later, after)
    ]
