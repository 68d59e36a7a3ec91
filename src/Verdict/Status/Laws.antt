-- ===== src/Verdict/Status/Laws.antt =====
-- What each status of news_eval/verdict.py means: which numbers lead to it, and to no other.
use ai_trader.Base.{◌≤◌, ◌≡◌, Bool, true, some, ◌↔◌, Float, arith, Option-cases, inl, inr}
use ai_trader.Verdict.Status.{
  clear, Test, estimate, bar_met, bar_primary_z, econ_bar_bp, permutation_confirms, primary_status,
  e_status, floor_test_clusters, in_bar_met,
}

module _ {X : Type 0} ⦃fl : Float X⦄ where
  -- A primary is clear exactly when it has 30 clusters, a usable bootstrap that meets both halves
  -- of the 2.50 bar, an informative null and a permutation that confirms.
  pub primary_status-clear_iff :
      (test : Test X) (informative : Bool)
      → (primary_status test informative ≡ clear) ↔ (
          (floor_test_clusters ≤ test.n_clusters)
          × ((t : X) × (se : X) × (estimate test.bootstrap ≡ some (t, se))
              × (bar_met t se bar_primary_z ≡ true))
          × (informative ≡ true)
          × (permutation_confirms test.permutation ≡ true))
  unfolding primary_status
  primary_status-clear_iff test informative = elim (Option-cases (estimate test.bootstrap)) [
    | inl e ↦ (λ h. absurd (ground arith), λ (f, (t, se, e', m), i, p). ground arith)
    | inr ((t, se), e) ↦ (
      λ h. (ground arith, (t, se, e, ground arith), ground arith, ground arith),
      λ (f, (t', se', e', m), i, p). ground arith,
    )
  ]

  -- A primary's bootstrap bar counts as met exactly when the test has 30 clusters and a usable
  -- bootstrap that meets the 2.50 bar, whatever the permutation null then says.
  pub in_bar_met-primary_status_iff :
      (test : Test X) (informative : Bool)
      → (in_bar_met (primary_status test informative) ≡ true) ↔ (
          (floor_test_clusters ≤ test.n_clusters)
          × ((t : X) × (se : X) × (estimate test.bootstrap ≡ some (t, se))
              × (bar_met t se bar_primary_z ≡ true)))
  unfolding primary_status
  in_bar_met-primary_status_iff test informative = elim (Option-cases (estimate test.bootstrap)) [
    | inl e ↦ (λ h. absurd (ground arith), λ (f, (t, se, e', m)). ground arith)
    | inr ((t, se), e) ↦
        (λ h. (ground arith, (t, se, e, ground arith)), λ (f, (t', se', e', m)). ground arith)
  ]

  -- An E-test is clear exactly when it has 30 clusters and a usable bootstrap that meets the 2.50
  -- bar with a statistic of at least 4.96 bp.
  pub e_status-clear_iff :
      (test : Test X)
      → (e_status test ≡ clear) ↔ (
          (floor_test_clusters ≤ test.n_clusters)
          × ((t : X) × (se : X) × (estimate test.bootstrap ≡ some (t, se))
              × (bar_met t se bar_primary_z ≡ true)
              × (fl.le econ_bar_bp t ≡ true)))
  unfolding e_status
  e_status-clear_iff test = elim (Option-cases (estimate test.bootstrap)) [
    | inl e ↦ (λ h. absurd (ground arith), λ (f, (t, se, e', m, b)). ground arith)
    | inr ((t, se), e) ↦ (
      λ h. (ground arith, (t, se, e, ground arith, ground arith)),
      λ (f, (t', se', e', m, b)). ground arith,
    )
  ]
