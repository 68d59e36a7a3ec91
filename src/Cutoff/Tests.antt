-- ===== src/Cutoff/Tests.antt =====
-- Concrete sessions, and the days of a concrete exclusion.
use ai_trader.Base.{◌≡◌, refl, Option, some, List, [], ◌∷◌, String, ℤ, fixed, sorted, str_lt}
use ai_trader.Cutoff.{
  Count, nat, Counts, enumerate, s_star_of, latest_of, earliest_of, get_count, sum_counts,
  split_pending, choose_s_star, check_count, check_counts,
}
use ai_trader.Cutoff.SStarLaws.{IsCutoff, s_star_of-IsCutoff}
use ai_trader.Cutoff.Days.{all_days, day_counts, shares_of, excluded_query_dates}

abbrev sessions : List (String × Counts)
sessions =
    ("2026-08-03", ("resolved", 4) ∷ [])
    ∷ ("2026-08-04", ("resolved", 2) ∷ ("pending", 1) ∷ [])
    ∷ ("2026-08-05", ("resolved", 5) ∷ [])
    ∷ []

s_star_of-IsCutoff_example : IsCutoff (enumerate 0 sessions) "2026-08-03"
unfolding s_star_of latest_of earliest_of split_pending choose_s_star enumerate get_count
s_star_of-IsCutoff_example = s_star_of-IsCutoff sessions 0 "2026-08-03" refl

abbrev unresolved : List (String × Counts)
unresolved = ("2026-08-03", ("pending", 4) ∷ []) ∷ []

abbrev state_counts : List (Option String × List (String × Count))
state_counts =
    (some "2026-08-04", ("source_failed", nat 2) ∷ ("ok", nat 3) ∷ [])
    ∷ (some "2026-08-03", ("ok", nat 9) ∷ ("source_failed", nat 1) ∷ [])
    ∷ []

abbrev days : List (String × Counts)
days =
    ("2026-08-03", ("ok", 9) ∷ ("source_failed", 1) ∷ [])
    ∷ ("2026-08-04", ("source_failed", 2) ∷ ("ok", 3) ∷ [])
    ∷ []

-- Two failed rows of five exclude a day, one of ten does not.
excluded_days :
    excluded_query_dates {X = ℤ} state_counts ≡ some ("2026-08-04" ∷ [], shares_of {X = ℤ} days)
unfolding excluded_query_dates all_days day_counts check_counts check_count sorted str_lt get_count
    sum_counts fixed
excluded_days = refl
