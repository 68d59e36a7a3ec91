-- ===== src/Verdict/Decide/Laws.antt =====
-- The decision as a whole, from the numbers of a reading to the row it selects.
use ai_trader.Base.{
  ◌≤◌, ◌≡◌, refl, ◌≢◌, ◌↔◌, ◌⊎◌, inl, inr, Bool, true, false, none, some, arith, Float, List, [],
  ◌∷◌, ◌++◌, Bool-cases, Option-cases,
}
use ai_trader.Verdict.Status.{
  Status, clear, is_clear, abstain_floor, degenerate, Primary, p1, p2, p3, p4, Test, estimate,
  interval, bar_met, bar_primary_z, primary_status, in_bar_met, in_null_intercepted,
  floor_analysis_clusters, floor_scorable,
}
use ai_trader.Verdict.Gross.{
  GrossName, Reading, gross_reading, p1_interval, upper_below_effect, any_status, primary_tests,
  spans_zero_and_effect, in_not_clear,
}
use ai_trader.Verdict.Gross.Laws.{
  IsExact, any_status_of, any_status-true, any_status-false, gross_reading_powered_negative,
}
use ai_trader.Verdict.Rows.{outcome, fails_gross, judgment_distribution}
use ai_trader.Verdict.Rows.Laws.{selected-Means}
use ai_trader.Verdict.Decide.{
  Decided, Results, Story, ReadingName, story_comparison, story_statuses, reading_differences,
  primary, sensitivity, decide_reading, readings_disagreement, differs, Status-discrete,
  GrossName-discrete, Selection-discrete,
}

-- A bootstrap bar that was met by a primary that is not clear was stopped by the null.
in_bar_met-cases : (s : Status) → in_bar_met s ≡ true → (s ≡ clear) ⊎ (in_null_intercepted s ≡ true)
in_bar_met-cases s h = ground arith

differs_false {ℓ} : {A : Type ℓ} (d : Discrete A) (a b : A) → (differs d a b ≡ false) ↔ (a ≡ b)
differs_false d a b =
    elim (d a b) as (λ t. (elim t [ yes _ ↦ false | no _ ↦ true ] ≡ false) ↔ (a ≡ b)) [
      | yes p ↦ (λ _. p, λ _. refl)
      | no n ↦ (λ h. cc, λ p. absurd (n p))
    ]

append_nil {ℓ} : {A : Type ℓ} (xs ys : List A) → xs ++ ys ≡ [] → (xs ≡ []) × (ys ≡ [])
append_nil [] ys h = (refl, h)
append_nil (x ∷ xs) ys h = cc

module _ {X : Type 0} ⦃fl : Float X⦄ where
  unmet_none :
      (test : Test X) (informative : Bool)
      → estimate test.bootstrap ≡ none
      → (primary_status test informative ≡ abstain_floor)
        ⊎ (primary_status test informative ≡ degenerate)
  unfolding primary_status
  unmet_none test informative e = ground arith

  unmet_cases :
      (ts se : X) (test : Test X) (informative : Bool)
      → estimate test.bootstrap ≡ some (ts, se)
      → in_bar_met (primary_status test informative) ≡ false
      → (primary_status test informative ≡ abstain_floor)
        ⊎ (in_not_clear (primary_status test informative) ≡ true)
          × (bar_met ts se bar_primary_z ≡ false)
  unfolding primary_status
  unmet_cases ts se test informative e h = ground arith

  interval_spans :
      (ts se : X)
      → IsExact ts se
      → bar_met ts se bar_primary_z ≡ false
      → upper_below_effect (some (interval ts se bar_primary_z)) ≡ false
      → spans_zero_and_effect (some (interval ts se bar_primary_z)) ≡ true
  unfolding bar_met interval
  interval_spans ts se exact b u = ground (arith, exact.ratio, exact.lower, exact.upper)

  module _ (reading : Reading X) where
    -- The hypothesis is declared dead only with 60 clusters and 1,000 scorable observations, an
    -- interval of P1 whose upper end lies below 30 bp, and no primary whose bootstrap bar was met.
    pub decide_reading_fails_gross :
        (decide_reading reading).outcome_row ≡ some (outcome fails_gross)
        → (floor_analysis_clusters ≤ reading.d)
          × (floor_scorable ≤ reading.m)
          × (upper_below_effect (p1_interval reading) ≡ true)
          × ((t : Primary) → (decide_reading reading).bootstrap_bar_met t ≡ false)
    unfolding decide_reading
    decide_reading_fails_gross h =
        gross_reading_powered_negative reading (decide_reading reading).p (
          selected-Means (decide_reading reading).gross (decide_reading reading).p
            (decide_reading reading).e (judgment_distribution reading) (some (outcome fails_gross))
            h)

    reasons_of_intercepted :
        (t : Primary)
        → in_null_intercepted ((decide_reading reading).p t) ≡ true
        → (decide_reading reading).gross.gross_reading ≡ GrossName.abstention
        → (decide_reading reading).gross.reasons ≢ []
    unfolding decide_reading gross_reading
    reasons_of_intercepted t i h =
        ground (arith, any_status_of in_null_intercepted (decide_reading reading).p t i)

    -- Where no primary met its bar, P1's own interval or its missing estimate is the reason.
    reasons_of_p1 :
        ((ts se : X) → estimate (reading.primary p1).bootstrap ≡ some (ts, se) → IsExact ts se)
        → any_status in_bar_met (decide_reading reading).p ≡ false
        → (decide_reading reading).gross.gross_reading ≡ GrossName.abstention
        → (decide_reading reading).gross.reasons ≢ []
    unfolding decide_reading gross_reading p1_interval
    reasons_of_p1 exact unmet h =
        let unmet_p1 = any_status-false in_bar_met (decide_reading reading).p unmet p1 in
        elim (Option-cases (estimate (reading.primary p1).bootstrap)) [
          | inl e ↦
              ground
                (arith, unmet_none (reading.primary p1) (decide_reading reading).null_informative e)
          | inr ((ts, se), e) ↦ ground (
            arith,
            unmet_cases ts se (reading.primary p1) (decide_reading reading).null_informative e
                unmet_p1,
            interval_spans ts se (exact ts se e),
          )
        ]

    not_clear_of_abstention :
        (t : Primary)
        → (decide_reading reading).gross.gross_reading ≡ GrossName.abstention
        → (decide_reading reading).p t ≢ clear
    unfolding decide_reading gross_reading
    not_clear_of_abstention t h c =
        ground (arith, any_status_of is_clear (decide_reading reading).p t (rw c))

    -- An abstention always names a reason: if P1's interval and ratio compare as real numbers do,
    -- a reading that abstains above both floors carries at least one reason.
    pub decide_reading_abstention :
        ((ts se : X) → estimate (reading.primary p1).bootstrap ≡ some (ts, se) → IsExact ts se)
        → (decide_reading reading).gross.gross_reading ≡ GrossName.abstention
        → (decide_reading reading).gross.reasons ≢ []
    decide_reading_abstention exact h =
        elim (Bool-cases (any_status in_bar_met (decide_reading reading).p)) [
          | inl met ↦
              let (t, m) = any_status-true in_bar_met (decide_reading reading).p met in
              elim (in_bar_met-cases ((decide_reading reading).p t) m) [
                | inl c ↦ absurd (not_clear_of_abstention t h c)
                | inr i ↦ reasons_of_intercepted t i h
              ]
          | inr unmet ↦ reasons_of_p1 exact unmet h
        ]

  -- Two readings disagree exactly when their gross readings or their selected rows differ, and then,
  -- and only then, the statement that names both sides is given.
  pub readings_disagreement_iff :
      (first second : Decided X)
      → (((readings_disagreement first second).differs ≡ false) ↔ (
          (first.gross.gross_reading ≡ second.gross.gross_reading)
          × (first.outcome_row ≡ second.outcome_row)))
        × (((readings_disagreement first second).statement ≡ none)
            ↔ ((readings_disagreement first second).differs ≡ false))
  unfolding readings_disagreement
  readings_disagreement_iff first second =
      let gross =
        differs_false GrossName-discrete first.gross.gross_reading second.gross.gross_reading in
      let row = differs_false Selection-discrete first.outcome_row second.outcome_row in
      (
        (
          λ h. (gross.0 (ground arith), row.0 (ground arith)),
          λ (g, r). ground (arith, gross.1 g, row.1 r),
        ),
        (λ h. ground arith, λ h. ground arith),
      )

  module _ (story : Story X) (decided : ReadingName → Decided X) (name : ReadingName) where
    abbrev HasSame : Primary → Type 0
    HasSame t = story_statuses story decided name t ≡ (decided name).p t

    abbrev test_differs : Primary → Bool
    test_differs t =
        differs Status-discrete (story_statuses story decided name t) ((decided name).p t)

    differences_nil :
        reading_differences story decided name primary_tests ≡ [] → (t : Primary) → HasSame t
    unfolding reading_differences
    differences_nil h t =
        let same : test_differs t ≡ false = none_differs t in
        (differs_false Status-discrete _ _).0 same
      where
        none_differs : (t : Primary) → test_differs t ≡ false
        none_differs p1 = ground arith
        none_differs p2 = ground arith
        none_differs p3 = ground arith
        none_differs p4 = ground arith

    differences_of :
        ((t : Primary) → HasSame t) → reading_differences story decided name primary_tests ≡ []
    unfolding reading_differences
    differences_of h =
        ground (arith, none_differs p1, none_differs p2, none_differs p3, none_differs p4)
      where
        none_differs : (t : Primary) → test_differs t ≡ false
        none_differs t = (differs_false Status-discrete _ _).1 (h t)

  -- A fired story comparison names no difference exactly when every primary of both readings has
  -- on the story groups the status that it has on the scoring sessions.
  pub story_comparison_no_difference_iff :
      (results : Results X) (decided : ReadingName → Decided X) (story : Story X)
      → results.story ≡ some story
      → story.fired ≡ true
      → ((story_comparison results decided).differences ≡ []) ↔ (
          (name : ReadingName) (t : Primary)
          → story_statuses story decided name t ≡ (decided name).p t)
  unfolding story_comparison
  story_comparison_no_difference_iff results decided story e fired = (
    λ h.
        let (first, second) =
          append_nil (reading_differences story decided primary primary_tests)
            (reading_differences story decided sensitivity primary_tests) (ground arith) in
        λ name t. both first second name t,
    λ h. ground (
      arith,
      differences_of story decided primary (h primary),
      differences_of story decided sensitivity (h sensitivity),
    ),
  )
    where
      both :
          reading_differences story decided primary primary_tests ≡ []
          → reading_differences story decided sensitivity primary_tests ≡ []
          → (name : ReadingName) (t : Primary)
          → story_statuses story decided name t ≡ (decided name).p t
      both first second primary t = differences_nil story decided primary first t
      both first second sensitivity t = differences_nil story decided sensitivity second t
