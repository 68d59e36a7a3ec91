-- ===== src/Verdict/Gross.antt =====
-- `gross_reading` of news_eval/verdict.py: mapping B, the first row that applies, for one reading.
pub mod Laws
use ai_trader.Base.{
  ℕ, Bool, true, false, Option, none, some, ◌&&◌, ◌||◌, not, ltb, if◌then◌else◌, Float, List, [],
  ◌∷◌, ◌++◌, any,
}
use ai_trader.Verdict.Status.{
  Status, degenerate, abstain_floor, not_clear, significant_reversal, Primary, p1, p2, p3, p4, Econ,
  Strength, Test, estimate, interval, bar_primary_z, effect_bp, zero_float, is_clear, in_bar_met,
  in_null_intercepted, floor_analysis_clusters, floor_scorable,
}

pub data GrossName : Type 0 where
  abstention_floor clears_gross powered_negative abstention : GrossName

pub data Reason : Type 0 where
  d_below_floor m_below_floor interval_zero_and_effect null_intercepted : Reason
  p1_degenerate p1_floor : Reason

-- The realised null of a reading, `reading["null"]`
pub record Null (X : Type 0) : Type 0 where
  pub minority_share : Option X
  pub n_mixed_clusters : Option ℕ

-- One reading of the family's results
pub record Reading (X : Type 0) : Type 0 where
  pub d : ℕ
  pub m : ℕ
  pub null : Null X
  pub pooled : Option (List (ℕ × ℕ))
  pub primary : Primary → Test X
  pub econ : Econ → Test X
  pub strength : Strength → Test X

pub record Gross (X : Type 0) : Type 0 where
  pub d : ℕ
  pub m : ℕ
  pub p1_lower : Option X
  pub p1_upper : Option X
  pub effect : X
  pub gross_reading : GrossName
  pub reasons : List Reason

-- PRIMARY_TESTS
abbrev pub primary_tests : List Primary
primary_tests = p1 ∷ p2 ∷ p3 ∷ p4 ∷ []

abbrev pub reason_if : Bool → Reason → List Reason
reason_if b r = if b then r ∷ [] else []

pub floor_reasons : ℕ → ℕ → List Reason
floor_reasons d m =
    reason_if (ltb d floor_analysis_clusters) Reason.d_below_floor
    ++ reason_if (ltb m floor_scorable) Reason.m_below_floor

-- `xs` is a list that Python finds true
abbrev pub non_empty {ℓ} : {A : Type ℓ} → List A → Bool
non_empty [] = false
non_empty (x ∷ xs) = true

-- `status in (NOT_CLEAR, SIGNIFICANT_REVERSAL)`
abbrev pub in_not_clear : Status → Bool
in_not_clear not_clear = true
in_not_clear significant_reversal = true
in_not_clear _ = false

abbrev pub is_degenerate : Status → Bool
is_degenerate degenerate = true
is_degenerate _ = false

abbrev pub is_abstain_floor : Status → Bool
is_abstain_floor abstain_floor = true
is_abstain_floor _ = false

unfoldable pub any_status : (Status → Bool) → (Primary → Status) → Bool
any_status test p_statuses = any (λ t. test (p_statuses t)) primary_tests

module _ {X : Type 0} ⦃fl : Float X⦄ where
  -- `upper is not None and upper < K.EFFECT_BP`
  abbrev pub upper_below_effect : Option (X × X) → Bool
  upper_below_effect none = false
  upper_below_effect (some (lower, upper)) = fl.lt upper effect_bp

  -- `lower is not None and lower <= 0 and upper >= K.EFFECT_BP`
  abbrev pub spans_zero_and_effect : Option (X × X) → Bool
  spans_zero_and_effect none = false
  spans_zero_and_effect (some (lower, upper)) = fl.le lower zero_float && fl.le effect_bp upper

  -- P1's interval at the primary bar
  unfoldable pub p1_interval : Reading X → Option (X × X)
  p1_interval reading = elim (estimate (reading.primary p1).bootstrap) [
    | none ↦ none
    | some (t, se) ↦ some (interval t se bar_primary_z)
  ]

  abbrev pub abstention_reasons : Option (X × X) → (Primary → Status) → List Reason
  abstention_reasons bounds p_statuses =
      reason_if (spans_zero_and_effect bounds) Reason.interval_zero_and_effect
      ++ (reason_if (any_status in_null_intercepted p_statuses) Reason.null_intercepted
          ++ (reason_if (is_degenerate (p_statuses p1)) Reason.p1_degenerate
              ++ reason_if (is_abstain_floor (p_statuses p1)) Reason.p1_floor))

  -- The name of the reading and its reasons, in the order of the code's tests
  classify : ℕ → ℕ → Option (X × X) → (Primary → Status) → GrossName × List Reason
  classify d m bounds p_statuses =
      if non_empty (floor_reasons d m)
      then (GrossName.abstention_floor, floor_reasons d m)
      else if any_status is_clear p_statuses
      then (GrossName.clears_gross, [])
      else if (in_not_clear (p_statuses p1)
          && not (any_status in_bar_met p_statuses)
          && upper_below_effect bounds)
      then (GrossName.powered_negative, [])
      else (GrossName.abstention, abstention_reasons bounds p_statuses)

  abbrev pub lower_of : Option (X × X) → Option X
  lower_of none = none
  lower_of (some (lower, upper)) = some lower

  abbrev pub upper_of : Option (X × X) → Option X
  upper_of none = none
  upper_of (some (lower, upper)) = some upper

  unfoldable pub gross_reading : Reading X → (Primary → Status) → Gross X
  unfolding classify floor_reasons
  gross_reading reading p_statuses =
      let bounds = p1_interval reading in
      let (name, reasons) = classify reading.d reading.m bounds p_statuses in
      record {
        d = reading.d;
        m = reading.m;
        p1_lower = lower_of bounds;
        p1_upper = upper_of bounds;
        effect = effect_bp;
        gross_reading = name;
        reasons = reasons;
      }
