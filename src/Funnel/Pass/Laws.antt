-- ===== src/Funnel/Pass/Laws.antt =====
-- What a pass spends, and that it loses no instrument.
use ai_trader.Base.{
  ℕ, ◌+◌, ◌≤◌, ◌≡◌, refl, arith, List, [], map, length, count, String, Bool, true, str_eq, ◌∷◌,
  count-append, count-map, Float, at_least_zero, Bool-cases, inl, inr, ◌==◌,
}
use ai_trader.Council.Gate.{GateDecision}
use ai_trader.Funnel.Screen.{Snapshot}
use ai_trader.Funnel.Screen.Laws.{dropped_as, kept_as, offered_as, prescreen-finalists}
use ai_trader.Funnel.Gate.{gate_finalists}
use ai_trader.Funnel.Gate.Laws.{gate_finalists-survivors}
use ai_trader.Funnel.Evaluate.{evaluate_survivors, score_of}
use ai_trader.Funnel.Evaluate.Laws.{
  candidate_as, NamesAsked, evaluate_survivors-calls, evaluate_survivors-handled,
}
use ai_trader.Funnel.Pass.{
  PassResult, Settings, Outside, route, scores_of, paid_stage, gated_stages, remaining_of,
  screened_result, run_pass, drop_unpaid, with_gate,
}

none_of : {A : Type 0} (p : A → Bool) (xs : List A) → (length xs == 0) ≡ true → count p xs ≡ 0
none_of p [] h = refl
none_of p (x ∷ xs) h = ground arith

module _ {X : Type 0} where
  -- What a result has spent and has left, within the ceilings of the pass.
  abbrev pub Spends : Settings X → ℕ → PassResult X → Type 0
  Spends cfg remaining r =
      (r.council_calls + r.budget_remaining ≡ remaining)
      × (r.council_calls ≤ at_least_zero cfg.max_council_calls)

  -- How often a symbol has left the funnel, as a candidate or a drop
  abbrev pub settled : String → PassResult X → ℕ
  settled s r = count (candidate_as s) r.candidates + count (dropped_as s) r.drops

  -- Whatever it was shown, the evaluator's verdicts name the instrument that was asked about, or none.
  abbrev pub Answers : Outside X → Type 0
  Answers out =
      (survivors : List String) (screens : List (String × GateDecision))
      → NamesAsked (out.evaluator survivors screens)

module _ {X : Type 0} ⦃fl : Float X⦄ (cfg : Settings X) (out : Outside X) where
  paid_stage-Spends :
      (remaining : ℕ) (r : PassResult X) (screens : List (String × GateDecision))
      → Spends cfg remaining (paid_stage cfg out remaining r screens)
  unfolding paid_stage
  paid_stage-Spends remaining r screens =
      let evaluator = out.evaluator r.survivors screens in
      omega (
        arith,
        evaluate_survivors-calls evaluator cfg.max_council_calls remaining
            (score_of (fl.lit 0 0) (scores_of r.finalists)) r.survivors,
      )

  gated_stages-Spends :
      (remaining : ℕ) (r : PassResult X)
      → Spends cfg remaining r
      → Spends cfg remaining (gated_stages cfg out remaining r)
  unfolding gated_stages
  gated_stages-Spends remaining r h =
      let g = gate_finalists r.finalists out.should_review cfg.max_survivors in
      elim (Bool-cases (length g.survivors == 0)) [
        | inl nobody ↦ rw nobody h
        | inr somebody ↦ rw somebody (paid_stage-Spends remaining (with_gate r g) g.decisions)
      ]

  screened_result-Spends :
      (snapshots : List (Snapshot X)) (used : ℕ)
      → Spends cfg (remaining_of cfg used) (screened_result cfg snapshots used)
  unfolding screened_result
  screened_result-Spends snapshots used = omega arith

  -- A pass charges at most its ceiling, and what it charges and what is left of the budget make up
  -- what was left before, on every branch.
  pub run_pass-Spends :
      (snapshots : List (Snapshot X)) (used : ℕ)
      → Spends cfg (remaining_of cfg used) (run_pass cfg out snapshots used)
  unfolding run_pass
  run_pass-Spends snapshots used =
      let r = screened_result cfg snapshots used in
      let before = screened_result-Spends snapshots used in
      elim (Bool-cases (length r.finalists == 0)) [
        | inl nobody ↦ rw nobody before
        | inr somebody ↦ rw somebody (elim (Bool-cases (remaining_of cfg used == 0)) [
          | inl spent ↦ rw spent before
          | inr left ↦ rw left (gated_stages-Spends (remaining_of cfg used) r before)
        ])
      ]

  paid_stage-settled :
      (s : String) (remaining : ℕ) (r : PassResult X) (screens : List (String × GateDecision))
      → Answers out
      → settled s (paid_stage cfg out remaining r screens)
        ≡ count (dropped_as s) r.drops + count (str_eq s) r.survivors
  unfolding paid_stage route
  paid_stage-settled s remaining r screens h =
      let score = score_of (fl.lit 0 0) (scores_of r.finalists) in
      let evaluator = out.evaluator r.survivors screens in
      let e = evaluate_survivors r.survivors evaluator cfg.max_council_calls remaining score in
      omega (
        arith,
        evaluate_survivors-handled evaluator cfg.max_council_calls remaining score s r.survivors
            (h r.survivors screens),
        count-append (dropped_as s) r.drops e.drops,
        count-map (route cfg out r.finalists) (candidate_as s) e.candidates,
      )

  gated_stages-settled :
      (s : String) (remaining : ℕ) (r : PassResult X)
      → Answers out
      → r.candidates ≡ []
      → settled s (gated_stages cfg out remaining r)
        ≡ count (dropped_as s) r.drops + count (kept_as s) r.finalists
  unfolding gated_stages
  gated_stages-settled s remaining r h n =
      let g = gate_finalists r.finalists out.should_review cfg.max_survivors in
      let shared = gate_finalists-survivors out.should_review r.finalists cfg.max_survivors in
      let drops = count-append (dropped_as s) r.drops g.drops in
      let left = shared.1 s in
      elim (Bool-cases (length g.survivors == 0)) [
        | inl nobody ↦
            rw (nobody, n) (omega (arith, drops, left, none_of (str_eq s) g.survivors nobody))
        | inr somebody ↦ rw somebody (
            omega
              (arith, paid_stage-settled s remaining (with_gate r g) g.decisions h, left, drops))
      ]

  screened_result-settled :
      (snapshots : List (Snapshot X)) (used : ℕ) (s : String)
      → count (dropped_as s) (screened_result cfg snapshots used).drops
          + count (kept_as s) (screened_result cfg snapshots used).finalists
        ≡ count (offered_as s) snapshots
  unfolding screened_result
  screened_result-settled snapshots used s = omega (
    arith,
    (prescreen-finalists snapshots cfg.max_finalists cfg.prescreen_min_score cfg.whale_weight).2 s,
  )

  -- Where the evaluator's verdicts name the instrument that was asked about, or none, no instrument is lost
  -- and none is settled twice: on every branch of a pass a symbol stands among the candidates and the
  -- drops together as often as among the snapshots with a symbol that the pass was given.
  pub run_pass-settled :
      (snapshots : List (Snapshot X)) (used : ℕ) (s : String)
      → Answers out
      → settled s (run_pass cfg out snapshots used) ≡ count (offered_as s) snapshots
  unfolding run_pass
  run_pass-settled snapshots used s h =
      let r = screened_result cfg snapshots used in
      let before = screened_result-settled snapshots used s in
      elim (Bool-cases (length r.finalists == 0)) [
        | inl nobody ↦ rw nobody (omega (arith, before, none_of (kept_as s) r.finalists nobody))
        | inr somebody ↦ rw somebody (elim (Bool-cases (remaining_of cfg used == 0)) [
          | inl spent ↦ rw spent (
              omega (
                arith,
                before,
                count-append (dropped_as s) r.drops (map drop_unpaid r.finalists),
                count-map drop_unpaid (dropped_as s) r.finalists,
              ))
          | inr left ↦
              rw left
                (omega (arith, before, gated_stages-settled s (remaining_of cfg used) r h refl))
        ])
      ]

  -- With the day's budget spent, a pass asks neither the gate nor the council, has no candidate, and
  -- charges nothing.
  pub run_pass_exhausted :
      (snapshots : List (Snapshot X)) (used : ℕ)
      → at_least_zero cfg.daily_budget ≤ used
      → ((run_pass cfg out snapshots used).gate_calls ≡ 0)
        × ((run_pass cfg out snapshots used).council_calls ≡ 0)
        × ((run_pass cfg out snapshots used).candidates ≡ [])
        × ((run_pass cfg out snapshots used).budget_remaining ≡ 0)
  unfolding run_pass screened_result
  run_pass_exhausted snapshots used h =
      let none_left : remaining_of cfg used ≡ 0 = omega arith in
      elim (Bool-cases (length (screened_result cfg snapshots used).finalists == 0)) [
        | inl nobody ↦ rw nobody (refl, refl, refl, none_left)
        | inr somebody ↦ rw (somebody, none_left) (refl, refl, refl, refl)
      ]
