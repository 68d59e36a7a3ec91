-- ===== src/Verdict/Decide.antt =====
-- `decide_reading`, `readings_disagreement`, `story_comparison` and `decide` of
-- news_eval/verdict.py. The rendered sentences are not built: a statement is kept as its parts.
pub mod Laws
use ai_trader.Base.{
  ℕ, Bool, true, false, Option, none, some, ◌||◌, not, if◌then◌else◌, Float, List, [], ◌∷◌, ◌++◌,
  is_some,
}
use ai_trader.Verdict.Status.{
  Status, Primary, p1, p2, p3, p4, Econ, Strength, Test, null_informative, primary_status, e_status,
  strength_status, in_bar_met,
}
use ai_trader.Verdict.Gross.{GrossName, Null, Reading, Gross, gross_reading, primary_tests}
use ai_trader.Verdict.Rows.{
  RowKey, Selection, Statement, Row, NetAbstention, net_abstention, judgment_distribution,
  verdict_rows,
}

pub Status-discrete : Discrete Status
Status-discrete = hlevel

pub GrossName-discrete : Discrete GrossName
GrossName-discrete = hlevel

pub Selection-discrete : Discrete (Option Selection)
Selection-discrete = hlevel

-- `a != b`
abbrev pub differs {ℓ} : {A : Type ℓ} → Discrete A → A → A → Bool
differs d a b = elim (d a b) [ yes _ ↦ false | no _ ↦ true ]

pub record Decided (X : Type 0) : Type 0 where
  pub null_informative : Bool
  pub p : Primary → Status
  pub e : Econ → Status
  pub s : Strength → Status
  pub bootstrap_bar_met : Primary → Bool
  pub gross : Gross X
  pub rows : List (Row X)
  pub outcome_row : Option Selection
  pub net_abstention : Option NetAbstention
  pub statements : List Statement

-- What the statement of a disagreement says of a reading
pub record Side : Type 0 where
  pub gross : GrossName
  pub row : Option Selection

pub record Disagreement : Type 0 where
  pub differs : Bool
  pub statement : Option (Side × Side)

pub data ReadingName : Type 0 where
  primary sensitivity : ReadingName

pub record Difference : Type 0 where
  pub reading : ReadingName
  pub test : Primary
  pub scoring_session_version : Status
  pub story_group_version : Status

pub record StoryComparison : Type 0 where
  pub fired : Bool
  pub statuses : Option (ReadingName → Primary → Status)
  pub differences : List Difference

-- `results["story"]`: whether the trigger fired, and the tests of the story readings
pub record Story (X : Type 0) : Type 0 where
  pub fired : Bool
  pub tests : ReadingName → Primary → Test X

pub record Results (X : Type 0) : Type 0 where
  pub readings : ReadingName → Reading X
  pub story : Option (Story X)

pub record Decision (X : Type 0) : Type 0 where
  pub governing_reading : ReadingName
  pub readings : ReadingName → Decided X
  pub sensitivity_disagreement : Disagreement
  pub story : StoryComparison

abbrev pub no_story : StoryComparison
no_story = record { fired = false; statuses = none; differences = [] }

module _ {X : Type 0} ⦃fl : Float X⦄ where
  unfoldable pub decide_reading : Reading X → Decided X
  decide_reading reading =
      let informative =
        null_informative reading.null.minority_share reading.null.n_mixed_clusters in
      let p = λ (t : Primary). primary_status (reading.primary t) informative in
      let e = λ (t : Econ). e_status (reading.econ t) in
      let s = λ (t : Strength). strength_status (reading.strength t) (some reading.d) in
      let gross = gross_reading reading p in
      let (rows, selected, statements) = verdict_rows gross p e (judgment_distribution reading) in
      record {
        null_informative = informative;
        p = p;
        e = e;
        s = s;
        bootstrap_bar_met = λ t. in_bar_met (p t);
        gross = gross;
        rows = rows;
        outcome_row = selected;
        net_abstention = net_abstention selected e;
        statements = statements;
      }

  abbrev pub side : Decided X → Side
  side decided = record { gross = decided.gross.gross_reading; row = decided.outcome_row }

  unfoldable pub readings_disagreement : Decided X → Decided X → Disagreement
  readings_disagreement first second =
      let apart =
        differs GrossName-discrete first.gross.gross_reading second.gross.gross_reading
        || differs Selection-discrete first.outcome_row second.outcome_row in
      record { differs = apart; statement = if apart then some (side first, side second) else none }

  -- The statuses of P1 to P4 on the story-group version of one reading
  abbrev pub story_statuses : Story X → (ReadingName → Decided X) → ReadingName → Primary → Status
  story_statuses story decided name t =
      primary_status (story.tests name t) (decided name).null_informative

  -- The loop over PRIMARY_TESTS, for one reading
  unfoldable pub reading_differences :
      Story X → (ReadingName → Decided X) → ReadingName → List Primary → List Difference
  reading_differences story decided name [] = []
  reading_differences story decided name (t ∷ ts) =
      let rest = reading_differences story decided name ts in
      let st = story_statuses story decided name t in
      let base = (decided name).p t in
      if differs Status-discrete st base
      then (record {
        reading = name;
        test = t;
        scoring_session_version = base;
        story_group_version = st;
      }
          ∷ rest)
      else rest

  unfoldable pub story_comparison : Results X → (ReadingName → Decided X) → StoryComparison
  story_comparison results decided = elim results.story [
    | none ↦ no_story
    | some story ↦ if not story.fired then no_story else record {
      fired = true;
      statuses = some (story_statuses story decided);
      differences =
          reading_differences story decided primary primary_tests
          ++ reading_differences story decided sensitivity primary_tests;
    }
  ]

  unfoldable pub decide : Results X → Decision X
  decide results =
      let decided = λ (name : ReadingName). decide_reading (results.readings name) in
      record {
        governing_reading = primary;
        readings = decided;
        sensitivity_disagreement = readings_disagreement (decided primary) (decided sensitivity);
        story = story_comparison results decided;
      }
