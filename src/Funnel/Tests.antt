-- ===== src/Funnel/Tests.antt =====
-- The funnel at concrete universes.
use ai_trader.Base.{
  Bool-cases, inl, inr, arith, ℕ, ◌+◌, ◌≤◌, ◌≡◌, refl, false, none, if◌then◌else◌, List, [], ◌∷◌,
  map, keep, take, length, count, String, str_eq, ℤ, pos, at_least_zero, fixed, sorted, ◌*◌,
}
use ai_trader.Funnel.Screen.{Snapshot, absent, number, prescreen, prescreen_score, ranked}
use ai_trader.Funnel.Screen.Laws.{
  symbol_of, reaches, kept_as, dropped_as, offered_as, prescreen-finalists,
}
use ai_trader.Funnel.Evaluate.{contacts, Verdict, raised, returned}
use ai_trader.Funnel.Pass.{Settings, Outside, run_pass}
use ai_trader.Funnel.Pass.Laws.{settled, Answers, run_pass-settled}

abbrev quote : String → ℕ → ℕ → Snapshot ℤ
quote symbol price change = record {
  symbol = symbol;
  price = number (pos (price * 1000000000));
  change_pct = number (pos (change * 1000000000));
  high = absent;
  low = absent;
  prev_close = absent;
  open_price = absent;
  sentiment_score = absent;
  native_strength = absent;
  whale_component = absent;
  whale_reason = "";
}

-- A loud instrument, a quiet one, one without a price, and one without a symbol
abbrev universe : List (Snapshot ℤ)
universe = quote "LOUD" 10 5 ∷ quote "QUIET" 10 1 ∷ quote "DEAD" 0 5 ∷ quote "" 10 5 ∷ []

loud : (prescreen_score (quote "LOUD" 10 5) (pos 0)).0 ≡ pos 300000000
unfolding prescreen_score fixed
loud = refl

abbrev cfg : Settings ℤ
cfg = record {
  max_finalists = pos 12;
  max_survivors = pos 5;
  max_council_calls = pos 3;
  daily_budget = pos 12;
  prescreen_min_score = pos 50000000;
  whale_weight = pos 150000000;
  est_cost_per_call = pos 56000000;
  long_term_enabled = false;
  conviction_threshold = pos 700000000;
}

abbrev thesis : Verdict ℤ
thesis = record {
  provider_calls = contacts (pos 3);
  symbol = none;
  prescreen_score = none;
  horizon = "weeks";
  conviction = number (pos 800000000);
  verdict = "buy";
  sleeve_target = none;
  whale_surfaced = false;
  whale_reason = "";
}

abbrev out : Outside ℤ
out = record {
  should_review = λ s. none;
  evaluator = λ survivors screens symbol. if str_eq symbol "LOUD" then returned thesis else raised;
  lower = λ s. s;
}

-- One pass: LOUD is bought, QUIET's evaluation fails, DEAD is below the floor.
first_pass : (run_pass cfg out universe 0).council_calls ≡ 1
unfolding run_pass fixed sorted prescreen_score
first_pass = refl

first_pass_drops : map (λ d. d.symbol) (run_pass cfg out universe 0).drops ≡ "DEAD" ∷ "QUIET" ∷ []
unfolding run_pass fixed sorted prescreen_score
first_pass_drops = refl

prescreen-finalists_example :
    (map symbol_of (prescreen universe (pos 1) (pos 50000000) (pos 0)).0
      ≡ map
          (λ row. row.symbol)
          (keep (reaches (pos 50000000)) (take (at_least_zero (pos 1)) (ranked universe (pos 0)))))
    × (length (prescreen universe (pos 1) (pos 50000000) (pos 0)).0 ≤ at_least_zero (pos 1))
    × ((s : String)
        → count (kept_as s) (prescreen universe (pos 1) (pos 50000000) (pos 0)).0
            + count (dropped_as s) (prescreen universe (pos 1) (pos 50000000) (pos 0)).1
          ≡ count (offered_as s) universe)
prescreen-finalists_example = prescreen-finalists universe (pos 1) (pos 50000000) (pos 0)

-- The thesis names no instrument of its own.
out-Answers : Answers out
out-Answers survivors screens symbol v h = elim (Bool-cases (str_eq symbol "LOUD")) [
  | inl asked ↦ let given = rw asked at h in ground (arith, given)
  | inr other ↦ let given = rw other at h in cc
]

run_pass-settled_example :
    settled "LOUD" (run_pass cfg out universe 0) ≡ count (offered_as "LOUD") universe
run_pass-settled_example = run_pass-settled cfg out universe 0 "LOUD" out-Answers
