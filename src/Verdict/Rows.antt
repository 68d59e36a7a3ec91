-- ===== src/Verdict/Rows.antt =====
-- `verdict_rows` and `net_abstention` of news_eval/verdict.py: mapping C. A row is kept as its key
-- and what the code computes for it; the quoted sentences of a key are fixed text.
pub mod Laws
use ai_trader.Base.{
  ℕ, zero, suc, Bool, true, false, Option, none, some, ◌&&◌, ltb, ◌==◌, if◌then◌else◌, Float, List,
  [], ◌∷◌, ◌++◌, keep, all, count, length,
}
use ai_trader.Verdict.Status.{
  Status, abstain_null_uninformative, Primary, p1, p2, p3, p4, Econ, e1, e2, e3, e4, is_clear,
  in_e_fails_net, in_e_abstain,
}
use ai_trader.Verdict.Gross.{
  GrossName, Reason, Null, Reading, Gross, primary_tests, non_empty, reason_if,
}

pub data RowKey : Type 0 where
  clears_fails_net clears_some fails_gross clears_both : RowKey
  any_gross_positive null_uninformative : RowKey

-- The selection: an Amendment 5 outcome row, or CLEARS_GROSS_NET_ABSTAINS
pub data Selection : Type 0 where
  outcome : RowKey → Selection
  net_abstains : Selection

pub data Statement : Type 0 where
  task6_powered_negative task5_floor_abstention task6_abstention : Statement
  a6_abstain_rather_than_promote : Statement

-- The notes of a row, before they are rendered
pub data Note : Type 0 where
  e_test_statuses : (Econ → Status) → Note
  thin_end_cleared : List Econ → Note
  affected_primaries : List Primary → Note

pub record Distribution (X : Type 0) : Type 0 where
  pub pooled : Option (List (ℕ × ℕ))
  pub minority_share : Option X
  pub n_mixed_clusters : Option ℕ

pub record Row (X : Type 0) : Type 0 where
  pub key : RowKey
  pub notes : List Note
  pub e_pattern : Option (Econ → Status)
  pub affected : List Primary
  pub judgment_distribution : Option (Distribution X)

pub record NetAbstention : Type 0 where
  pub e_pattern : Econ → Status
  pub abstained : List Econ

-- E_TESTS
abbrev pub e_tests : List Econ
e_tests = e1 ∷ e2 ∷ e3 ∷ e4 ∷ []

-- `K.E_TEST_STRATUM[t] in K.THIN_END`
abbrev pub in_thin_end : Econ → Bool
in_thin_end e3 = true
in_thin_end e4 = true
in_thin_end _ = false

abbrev pub is_null_uninformative : Status → Bool
is_null_uninformative abstain_null_uninformative = true
is_null_uninformative _ = false

pub judgment_distribution : {X : Type 0} → Reading X → Distribution X
judgment_distribution reading = record {
  pooled = reading.pooled;
  minority_share = reading.null.minority_share;
  n_mixed_clusters = reading.null.n_mixed_clusters;
}

unfoldable pub net_abstention : Option Selection → (Econ → Status) → Option NetAbstention
net_abstention (some Selection.net_abstains) e_statuses =
    some (record {
      e_pattern = e_statuses;
      abstained = keep (λ t. in_e_abstain (e_statuses t)) e_tests;
    })
net_abstention _ e_statuses = none

-- `sum(1 for s in e_pattern.values() if s == CLEAR)`
pub n_clear : (Econ → Status) → ℕ
n_clear e_pattern = count (λ t. is_clear (e_pattern t)) e_tests

pub all_fail_net : (Econ → Status) → Bool
all_fail_net e_pattern = all (λ t. in_e_fails_net (e_pattern t)) e_tests

abbrev pub has_interval_reason : List Reason → Bool
has_interval_reason [] = false
has_interval_reason (Reason.interval_zero_and_effect ∷ rs) = true
has_interval_reason (_ ∷ rs) = has_interval_reason rs

abbrev pub has_null_reason : List Reason → Bool
has_null_reason [] = false
has_null_reason (Reason.null_intercepted ∷ rs) = true
has_null_reason (_ ∷ rs) = has_null_reason rs

abbrev pub statement_if : Bool → Statement → List Statement
statement_if b s = if b then s ∷ [] else []

-- The tests of THIN_END that cleared, where some stratum cleared
abbrev pub thin_notes : (Econ → Status) → List Note
thin_notes e_pattern =
    let cleared = keep (λ t. in_thin_end t && is_clear (e_pattern t)) e_tests in
    if non_empty cleared then Note.thin_end_cleared cleared ∷ [] else []

pub affected_primaries_of : (Primary → Status) → List Primary
affected_primaries_of p_statuses = keep (λ t. is_null_uninformative (p_statuses t)) primary_tests

module _ {X : Type 0} where
  -- `_row` with the E-test pattern
  abbrev pub outcome_row : RowKey → List Note → (Econ → Status) → Row X
  outcome_row key notes e_pattern = record {
    key = key;
    notes = notes;
    e_pattern = some e_pattern;
    affected = [];
    judgment_distribution = none;
  }

  -- `_row` with no extras
  abbrev pub plain_row : RowKey → Row X
  plain_row key = record {
    key = key;
    notes = [];
    e_pattern = none;
    affected = [];
    judgment_distribution = none;
  }

  -- The branch of a clearing gross reading: the outcome row, if any, and the selection
  unfoldable pub net_rows : (Econ → Status) → List (Row X) × Selection
  net_rows e_pattern =
      let note = Note.e_test_statuses e_pattern in
      if n_clear e_pattern == 0 && all_fail_net e_pattern
      then (outcome_row clears_fails_net (note ∷ []) e_pattern ∷ [], outcome clears_fails_net)
      else if n_clear e_pattern == 0
      then ([], net_abstains)
      else if ltb (n_clear e_pattern) 4
      then (
        outcome_row clears_some (note ∷ thin_notes e_pattern) e_pattern ∷ [],
        outcome clears_some,
      )
      else (outcome_row clears_both (note ∷ []) e_pattern ∷ [], outcome clears_both)

  -- The rows, the selection and the statements that the gross reading gives
  unfoldable pub gross_rows :
      GrossName → List Reason → (Econ → Status) → List (Row X) × Option Selection × List Statement
  unfolding net_rows
  gross_rows GrossName.clears_gross reasons e_pattern =
      let (rows, selected) = net_rows e_pattern in
      (rows ++ plain_row any_gross_positive ∷ [], some selected, [])
  gross_rows GrossName.powered_negative reasons e_pattern = (
    outcome_row fails_gross (Note.e_test_statuses e_pattern ∷ []) e_pattern ∷ [],
    some (outcome fails_gross),
    task6_powered_negative ∷ [],
  )
  gross_rows GrossName.abstention_floor reasons e_pattern = ([], none, task5_floor_abstention ∷ [])
  gross_rows GrossName.abstention reasons e_pattern = (
    [],
    none,
    statement_if (has_interval_reason reasons) task6_abstention
        ++ statement_if (has_null_reason reasons) a6_abstain_rather_than_promote,
  )

  null_rows : (Primary → Status) → Distribution X → List (Row X)
  null_rows p_statuses distribution =
      let affected = affected_primaries_of p_statuses in
      if non_empty affected
      then (record {
        key = null_uninformative;
        notes = Note.affected_primaries affected ∷ [];
        e_pattern = none;
        affected = affected;
        judgment_distribution = some distribution;
      }
          ∷ [])
      else []

  unfoldable pub verdict_rows :
      Gross X
      → (Primary → Status)
      → (Econ → Status)
      → Distribution X
      → List (Row X) × Option Selection × List Statement
  unfolding gross_rows null_rows affected_primaries_of
  verdict_rows gross p_statuses e_statuses distribution =
      let (rows, selected, statements) = gross_rows gross.gross_reading gross.reasons e_statuses in
      (rows ++ null_rows p_statuses distribution, selected, statements)
