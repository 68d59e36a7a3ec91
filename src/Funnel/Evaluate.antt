-- ===== src/Funnel/Evaluate.antt =====
-- discovery/funnel.py, stage C: _budget_cost, evaluate_survivors and sleeve_target_for. The evaluator
-- is an argument: what it returns for a symbol, or that it raises.
pub mod Laws
use ai_trader.Base.{
  ℕ, ◌+◌, Bool, true, false, Option, none, some, ◌&&◌, not, leb, if◌then◌else◌, List, [], ◌∷◌, ◌++◌,
  any, min, String, str_eq, Float, ℤ, pos, at_least_zero, le_ℤ,
}
use ai_trader.Funnel.Screen.{
  Field, Drop, DropReason, stage_c, daily_budget_exhausted, pass_council_ceiling, evaluator_error,
  no_verdict, float_of,
}

-- The value of `provider_calls`: missing or None, what `int` refuses, or a number
pub data Contacts : Type 0 where
  unreported unreadable : Contacts
  contacts : ℤ → Contacts

-- A verdict dict that is not empty: the keys that the funnel reads or sets
pub record Verdict (X : Type 0) : Type 0 where
  pub provider_calls : Contacts
  pub symbol : Option String
  pub prescreen_score : Option X
  pub horizon : String
  pub conviction : Field X
  pub verdict : String
  pub sleeve_target : Option String
  pub whale_surfaced : Bool
  pub whale_reason : String

-- What the evaluator came to
pub data Reply (X : Type 0) : Type 0 where
  raised not_a_dict empty_dict : Reply X
  returned : Verdict X → Reply X

pub record Evaluated (X : Type 0) : Type 0 where
  pub candidates : List (Verdict X)
  pub drops : List (Drop X)
  pub calls : ℕ

abbrev pub is_long : String → Bool
is_long horizon = any (str_eq horizon) ("weeks" ∷ "months" ∷ "weeks_to_months" ∷ "quarters" ∷ [])

-- `max(0, min(max_council_calls, budget_remaining))`; what is left of the budget is never negative
abbrev pub allowed : ℤ → ℕ → ℕ
allowed max_calls budget = min (at_least_zero max_calls) budget

-- The ceiling that bound
abbrev pub ceiling_reason : ℤ → ℕ → DropReason
ceiling_reason max_calls budget =
    if le_ℤ (pos budget) max_calls then daily_budget_exhausted else pass_council_ceiling

-- `d.setdefault(key, value)`
abbrev pub default_to : {A : Type 0} → A → Option A → Option A
default_to value none = some value
default_to value (some old) = some old

abbrev pub contact_cost : Contacts → ℕ
contact_cost unreported = 1
contact_cost unreadable = 1
contact_cost (contacts n) = if le_ℤ n (pos 0) then 0 else 1

module _ {X : Type 0} where
  -- `_budget_cost`; an evaluator that raised returned nothing to charge for
  unfoldable pub budget_cost : Reply X → ℕ
  budget_cost raised = 0
  budget_cost not_a_dict = 1
  budget_cost empty_dict = 1
  budget_cost (returned v) = contact_cost v.provider_calls

  abbrev pub no_evaluated : Evaluated X
  no_evaluated = record { candidates = []; drops = []; calls = 0 }

  abbrev pub drop_c : Evaluated X → String → X → DropReason → Evaluated X
  drop_c e symbol score reason = record e {
    drops =
        e.drops ++ record { symbol = symbol; stage = stage_c; reason = reason; score = score } ∷ [];
  }

  -- What one evaluation adds, besides its cost
  unfoldable pub evaluation : Evaluated X → String → X → Reply X → Evaluated X
  evaluation e symbol score raised = drop_c e symbol score evaluator_error
  evaluation e symbol score not_a_dict = drop_c e symbol score no_verdict
  evaluation e symbol score empty_dict = drop_c e symbol score no_verdict
  evaluation e symbol score (returned v) = record e {
    candidates =
        e.candidates
        ++ record v {
          symbol = default_to symbol v.symbol;
          prescreen_score = default_to score v.prescreen_score;
        }
          ∷ [];
  }

  -- `finalist_scores.get(symbol, 0.0)`, of a dict built in the order of the list
  abbrev pub score_of : X → List (String × X) → String → X
  score_of found [] symbol = found
  score_of found ((s, x) ∷ rest) symbol =
      score_of (if str_eq s symbol then x else found) rest symbol

  unfoldable pub evaluate_step :
      (String → Reply X) → ℤ → ℕ → (String → X) → Evaluated X → String → Evaluated X
  unfolding evaluation budget_cost
  evaluate_step evaluator max_calls budget score e symbol =
      if leb (allowed max_calls budget) e.calls
      then drop_c e symbol (score symbol) (ceiling_reason max_calls budget)
      else (let reply = evaluator symbol in
          evaluation (record e { calls = e.calls + budget_cost reply }) symbol (score symbol) reply)

  -- The loop over the survivors
  unfoldable pub evaluate_from :
      (String → Reply X) → ℤ → ℕ → (String → X) → Evaluated X → List String → Evaluated X
  unfolding evaluate_step
  evaluate_from evaluator max_calls budget score e [] = e
  evaluate_from evaluator max_calls budget score e (symbol ∷ rest) =
      evaluate_from evaluator max_calls budget score
        (evaluate_step evaluator max_calls budget score e symbol) rest

  unfoldable pub evaluate_survivors :
      List String → (String → Reply X) → ℤ → ℕ → (String → X) → Evaluated X
  unfolding evaluate_from
  evaluate_survivors survivors evaluator max_calls budget score =
      evaluate_from evaluator max_calls budget score no_evaluated survivors

module _ {X : Type 0} ⦃fl : Float X⦄ where
  -- `lower` is the language's `str.lower`
  unfoldable pub sleeve_target_for : Bool → X → (String → String) → Verdict X → String
  sleeve_target_for long_term_enabled threshold lower v =
      if not long_term_enabled
      then "quant_core"
      else if is_long (lower v.horizon) && fl.le threshold (float_of v.conviction)
      then "research_satellite"
      else "quant_core"
