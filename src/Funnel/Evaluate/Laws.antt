-- ===== src/Funnel/Evaluate/Laws.antt =====
-- What stage C spends, and where each survivor goes.
use ai_trader.Base.{
  ℕ, ◌+◌, ◌≤◌, ◌≡◌, refl, arith, leb, List, [], ◌∷◌, count, add-count_last, count_last-add, str_eq,
  Bool, false, none, some, String, ℤ, Bool-cases, inl, inr,
}
use ai_trader.Funnel.Screen.{DropReason, evaluator_error, no_verdict}
use ai_trader.Funnel.Screen.Laws.{dropped_as}
use ai_trader.Funnel.Evaluate.{
  Verdict, default_to, drop_c, ceiling_reason, Reply, raised, not_a_dict, empty_dict, returned,
  Evaluated, budget_cost, contact_cost, Contacts, unreported, unreadable, contacts, evaluation,
  evaluate_step, evaluate_from, evaluate_survivors, allowed, no_evaluated,
}

contact_cost-le_one : (c : Contacts) → contact_cost c ≤ 1
contact_cost-le_one unreported = omega arith
contact_cost-le_one unreadable = omega arith
contact_cost-le_one (contacts n) = ground arith

module _ {X : Type 0} where
  budget_cost-le_one : (r : Reply X) → budget_cost r ≤ 1
  unfolding budget_cost
  budget_cost-le_one raised = omega arith
  budget_cost-le_one not_a_dict = omega arith
  budget_cost-le_one empty_dict = omega arith
  budget_cost-le_one (returned v) = contact_cost-le_one v.provider_calls

  -- The verdict carries the symbol.
  abbrev pub candidate_as : String → Verdict X → Bool
  candidate_as s v = elim v.symbol [ none ↦ false | some t ↦ str_eq s t ]

  -- The survivors of a symbol that have left stage C
  abbrev pub handled : String → Evaluated X → ℕ
  handled s e = count (candidate_as s) e.candidates + count (dropped_as s) e.drops

  -- A verdict names the instrument that was asked about, or none.
  abbrev pub NamesAsked : (String → Reply X) → Type 0
  NamesAsked evaluator =
      (symbol : String) (v : Verdict X)
      → evaluator symbol ≡ returned v
      → default_to symbol v.symbol ≡ some symbol

  drop_c-handled :
      (s : String) (e : Evaluated X) (symbol : String) (score : X) (reason : DropReason)
      → handled s (drop_c e symbol score reason) ≡ handled s e + count (str_eq s) (symbol ∷ [])
  drop_c-handled s e symbol score reason =
      add-count_last (count (candidate_as s) e.candidates) (dropped_as s) e.drops _

  evaluation-handled :
      (s : String) (e : Evaluated X) (symbol : String) (score : X) (r : Reply X)
      → ((v : Verdict X) → r ≡ returned v → default_to symbol v.symbol ≡ some symbol)
      → handled s (evaluation e symbol score r) ≡ handled s e + count (str_eq s) (symbol ∷ [])
  unfolding evaluation
  evaluation-handled s e symbol score raised h = drop_c-handled s e symbol score evaluator_error
  evaluation-handled s e symbol score not_a_dict h = drop_c-handled s e symbol score no_verdict
  evaluation-handled s e symbol score empty_dict h = drop_c-handled s e symbol score no_verdict
  evaluation-handled s e symbol score (returned v) h =
      rw (h v refl) (count_last-add (count (dropped_as s) e.drops) (candidate_as s) e.candidates _)

  evaluation-calls :
      (e : Evaluated X) (symbol : String) (score : X) (r : Reply X)
      → (evaluation e symbol score r).calls ≡ e.calls
  unfolding evaluation
  evaluation-calls e symbol score raised = refl
  evaluation-calls e symbol score not_a_dict = refl
  evaluation-calls e symbol score empty_dict = refl
  evaluation-calls e symbol score (returned v) = refl

  module _ (evaluator : String → Reply X) (max_calls : ℤ) (budget : ℕ) (score : String → X) where
    step-calls :
        (e : Evaluated X) (symbol : String)
        → e.calls ≤ allowed max_calls budget
        → (evaluate_step evaluator max_calls budget score e symbol).calls ≤ allowed max_calls budget
    unfolding evaluate_step
    step-calls e symbol h = elim (Bool-cases (leb (allowed max_calls budget) e.calls)) [
      | inl spent ↦ rw spent h
      | inr left ↦ rw left (
          rw
            (evaluation-calls (record e { calls = e.calls + budget_cost (evaluator symbol) }) symbol
              (score symbol) (evaluator symbol))
            (ground (arith, budget_cost-le_one (evaluator symbol), left)))
    ]

    step-handled :
        (s : String) (e : Evaluated X) (symbol : String)
        → NamesAsked evaluator
        → handled s (evaluate_step evaluator max_calls budget score e symbol)
          ≡ handled s e + count (str_eq s) (symbol ∷ [])
    unfolding evaluate_step
    step-handled s e symbol h = elim (Bool-cases (leb (allowed max_calls budget) e.calls)) [
      | inl spent ↦
          rw spent (drop_c-handled s e symbol (score symbol) (ceiling_reason max_calls budget))
      | inr left ↦
          rw left (evaluation-handled s _ symbol (score symbol) (evaluator symbol) (h symbol))
    ]

    from-calls :
        (e : Evaluated X) (survivors : List String)
        → e.calls ≤ allowed max_calls budget
        → (evaluate_from evaluator max_calls budget score e survivors).calls
          ≤ allowed max_calls budget
    unfolding evaluate_from
    from-calls e [] h = h
    from-calls e (s ∷ rest) h =
        from-calls (evaluate_step evaluator max_calls budget score e s) rest (step-calls e s h)

    from-handled :
        (s : String) (e : Evaluated X) (survivors : List String)
        → NamesAsked evaluator
        → handled s (evaluate_from evaluator max_calls budget score e survivors)
          ≡ handled s e + count (str_eq s) survivors
    unfolding evaluate_from
    from-handled s e [] h = omega arith
    from-handled s e (symbol ∷ rest) h = ground (
      arith,
      from-handled s (evaluate_step evaluator max_calls budget score e symbol) rest h,
      step-handled s e symbol h,
    )

    -- The charged evaluations stay within both ceilings, whatever the evaluator answers.
    pub evaluate_survivors-calls :
        (survivors : List String)
        → (evaluate_survivors survivors evaluator max_calls budget score).calls
          ≤ allowed max_calls budget
    unfolding evaluate_survivors
    evaluate_survivors-calls survivors = from-calls no_evaluated survivors (omega arith)

    -- Where verdicts name what was asked, every survivor becomes one candidate or one drop of its symbol.
    pub evaluate_survivors-handled :
        (s : String) (survivors : List String)
        → NamesAsked evaluator
        → handled s (evaluate_survivors survivors evaluator max_calls budget score)
          ≡ count (str_eq s) survivors
    unfolding evaluate_survivors
    evaluate_survivors-handled s survivors h =
        omega (arith, from-handled s no_evaluated survivors h)
