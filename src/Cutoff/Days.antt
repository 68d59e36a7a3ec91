-- ===== src/Cutoff/Days.antt =====
-- `excluded_query_dates` of news_eval/cutoff.py: the days whose share of failed sources is above
-- 0.20.
use ai_trader.Base.{
  Bool, true, false, Option, none, some, ◌==◌, if◌then◌else◌, Float, List, [], ◌∷◌, map, keep,
  String, str_eq, str_lt, sorted,
}
use ai_trader.Cutoff.{Count, Counts, ◌>>=◌, check_counts, get_count, sum_counts}

-- The sort key `(d is None, str(d))`
abbrev pub date_lt : Option String → Option String → Bool
date_lt none _ = false
date_lt (some d) none = true
date_lt (some d) (some e) = str_lt d e

abbrev pub item_lt :
    Option String × List (String × Count) → Option String × List (String × Count) → Bool
item_lt (d, _) (e, _) = date_lt d e

-- One day of the loop: its checked counts, with the refusal of a day with no rows
unfoldable pub day_counts : Option String × List (String × Count) → Option (String × Counts)
day_counts (none, by_state) = none
day_counts (some d, by_state) = if str_eq d "" then none else do
  counts ← check_counts by_state
  if sum_counts counts == 0 then none else some (d, counts)

unfoldable pub all_days :
    List (Option String × List (String × Count)) → Option (List (String × Counts))
unfolding day_counts
all_days [] = some []
all_days (item ∷ items) =
    let rest = all_days items in do day ← day_counts item; days ← rest; some (day ∷ days)

module _ {X : Type 0} ⦃fl : Float X⦄ where
  -- `failed / total`
  abbrev pub share : Counts → X
  share counts = fl.div (fl.lit (get_count "source_failed" counts) 0) (fl.lit (sum_counts counts) 0)

  -- K.SOURCE_FAILED_DAY_EXCLUDE
  abbrev pub source_failed_day_exclude : X
  source_failed_day_exclude = fl.lit 20 2

  abbrev pub shares_of : List (String × Counts) → List (String × X)
  shares_of days = map (λ (d : String × Counts). (d.0, share d.1)) days

  unfoldable pub excluded_query_dates :
      List (Option String × List (String × Count)) → Option (List String × List (String × X))
  excluded_query_dates state_counts = do
    days ← all_days (sorted item_lt state_counts)
    some (
      map (λ (s : String × X). s.0)
          (keep (λ (s : String × X). fl.lt source_failed_day_exclude s.1) (shares_of days)),
      shares_of days,
    )
