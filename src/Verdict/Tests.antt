-- ===== src/Verdict/Tests.antt =====
-- The verdict of concrete readings.
use ai_trader.Base.{ℕ, ◌≤◌, ◌≡◌, ◌↔◌, refl, true, false, Option, none, some, ℤ, pos, fixed, minus}
use ai_trader.Verdict.Status.{
  Status, clear, Primary, Econ, BootStatus, Boot, Test, estimate, interval, bar_met, primary_status,
  floor_analysis_clusters, floor_scorable,
}
use ai_trader.Verdict.Gross.{Reading, gross_reading, p1_interval, upper_below_effect, any_status}
use ai_trader.Verdict.Rows.{outcome, clears_both, judgment_distribution, verdict_rows, gross_rows}
use ai_trader.Verdict.Rows.Laws.{Means, verdict_rows-selected_iff}
use ai_trader.Verdict.Decide.{Decided, ReadingName, Story, Results, decide_reading}
use ai_trader.Verdict.Decide.Laws.{decide_reading_fails_gross}

-- A bootstrap with a statistic and a standard error, in whole basis points
abbrev boot : ℕ → ℕ → Option (Boot ℤ)
boot t se = some (record {
  status = BootStatus.ok;
  statistic = some (pos t);
  se = some (pos se);
  n_clusters = some 60;
})

abbrev unit : ℕ
unit = 1000000000

-- 1 bp with a standard error of 1 bp: a narrow interval around 0
abbrev narrow : Test ℤ
narrow = record { n_clusters = 60; bootstrap = boot unit unit; permutation = none }

-- A test that meets the bar, with a permutation that confirms it
abbrev strong : Test ℤ
strong = record {
  n_clusters = 60;
  bootstrap = boot 40000000000 unit;
  permutation =
      some
        (record { is_ok = true; p = some (pos 1000000); count_ge = some 1; count_le = some 999 });
}

abbrev reading_of : Test ℤ → Reading ℤ
reading_of test = record {
  d = 60;
  m = 1000;
  null = record { minority_share = none; n_mixed_clusters = none };
  pooled = none;
  primary = λ t. test;
  econ = λ t. test;
  strength = λ t. test;
}

abbrev all_clear : Primary → Status
all_clear t = clear

abbrev e_clear : Econ → Status
e_clear t = clear

verdict_rows-selected_iff_example :
    ((verdict_rows
        (gross_reading (reading_of strong) all_clear)
        all_clear
        e_clear
        (judgment_distribution (reading_of strong))).1
      ≡ some (outcome clears_both))
    ↔ Means
        (gross_reading (reading_of strong) all_clear).gross_reading
        e_clear
        (some (outcome clears_both))
verdict_rows-selected_iff_example =
    verdict_rows-selected_iff (gross_reading (reading_of strong) all_clear) all_clear e_clear
      (judgment_distribution (reading_of strong)) (some (outcome clears_both))

decide_reading_fails_gross_example :
    (floor_analysis_clusters ≤ 60)
    × (floor_scorable ≤ 1000)
    × (upper_below_effect (p1_interval (reading_of narrow)) ≡ true)
    × ((t : Primary) → (decide_reading (reading_of narrow)).bootstrap_bar_met t ≡ false)
unfolding decide_reading gross_reading primary_status verdict_rows gross_rows p1_interval estimate
    interval bar_met any_status fixed minus
decide_reading_fails_gross_example = decide_reading_fails_gross (reading_of narrow) refl

abbrev story : Story ℤ
story = record { fired = true; tests = λ name t. narrow }

abbrev results : Results ℤ
results = record { readings = λ name. reading_of narrow; story = some story }

abbrev decided : ReadingName → Decided ℤ
decided name = decide_reading (reading_of narrow)
