-- ===== src/Funnel/Pass.antt =====
-- discovery/funnel.py, run_pass: one pass over one asset class. The preparation between stages B and
-- C is best effort; what it changes is what the evaluator then answers, so the evaluator is given
-- the survivors and their screens.
pub mod Laws
use ai_trader.Base.{
  ℕ, ◌-◌, Bool, true, false, Option, none, some, ◌&&◌, if◌then◌else◌, List, [], ◌∷◌, ◌++◌, map,
  keep, length, any, is_some, String, str_eq, str_append, Float, ℤ, at_least_zero, ◌==◌,
}
use ai_trader.Council.Gate.{GateDecision}
use ai_trader.Funnel.Screen.{Snapshot, Finalist, Drop, stage_b, daily_budget_exhausted, prescreen}
use ai_trader.Funnel.Gate.{GateState, Gated, gate_finalists}
use ai_trader.Funnel.Evaluate.{Verdict, Reply, evaluate_survivors, score_of, sleeve_target_for}

pub data PassStatus : Type 0 where
  done no_finalists budget_exhausted no_survivors : PassStatus

pub record PassResult (X : Type 0) : Type 0 where
  pub universe_count : ℕ
  pub finalists : List (Finalist X)
  pub survivors : List String
  pub candidates : List (Verdict X)
  pub drops : List (Drop X)
  pub council_calls : ℕ
  pub gate_calls : ℕ
  pub est_cost : X
  pub budget_remaining : ℕ
  pub status : PassStatus
  pub whale_surfaced : List String

-- What `run_pass` reads from the settings
pub record Settings (X : Type 0) : Type 0 where
  pub max_finalists : ℤ
  pub max_survivors : ℤ
  pub max_council_calls : ℤ
  pub daily_budget : ℤ
  pub prescreen_min_score : X
  pub whale_weight : X
  pub est_cost_per_call : X
  pub long_term_enabled : Bool
  pub conviction_threshold : X

-- The outside of a pass: the gate, the evaluator after the preparation, and `str.lower`
pub record Outside (X : Type 0) : Type 0 where
  pub should_review : GateState X → Option GateDecision
  pub evaluator : List String → List (String × GateDecision) → String → Reply X
  pub lower : String → String

-- `str(verdict.get("symbol", ""))`
abbrev pub symbol_or : Option String → String
symbol_or none = ""
symbol_or (some s) = s

module _ {X : Type 0} ⦃fl : Float X⦄ where
  -- The result before stage A
  abbrev pub fresh_result : ℕ → ℕ → PassResult X
  fresh_result universe_count remaining = record {
    universe_count = universe_count;
    finalists = [];
    survivors = [];
    candidates = [];
    drops = [];
    council_calls = 0;
    gate_calls = 0;
    est_cost = fl.lit 0 0;
    budget_remaining = remaining;
    status = done;
    whale_surfaced = [];
  }

  abbrev pub is_surfaced : Finalist X → Bool
  is_surfaced f = f.whale_surfaced

  abbrev pub drop_unpaid : Finalist X → Drop X
  drop_unpaid f = record {
    symbol = f.symbol;
    stage = stage_b;
    reason = daily_budget_exhausted;
    score = f.score;
  }

  -- `surfaced.get(symbol)`: the last whale-surfaced finalist of a symbol
  abbrev pub surfaced_as : Option (Finalist X) → List (Finalist X) → String → Option (Finalist X)
  surfaced_as found [] symbol = found
  surfaced_as found (f ∷ rest) symbol =
      surfaced_as (if is_surfaced f && str_eq f.symbol symbol then some f else found) rest symbol

  unfoldable pub route : Settings X → Outside X → List (Finalist X) → Verdict X → Verdict X
  unfolding sleeve_target_for
  route cfg out finalists v =
      let f = surfaced_as none finalists (symbol_or v.symbol) in
      record v {
        sleeve_target =
            some (sleeve_target_for cfg.long_term_enabled cfg.conviction_threshold out.lower v);
        whale_surfaced = is_some f;
        whale_reason = elim f [ none ↦ "" | some g ↦ g.whale_reason ];
      }

  abbrev pub scores_of : List (Finalist X) → List (String × X)
  scores_of finalists = map (λ f. (f.symbol, f.score)) finalists

  -- Stage C, for survivors of a budget that is not spent
  unfoldable pub paid_stage :
      Settings X → Outside X → ℕ → PassResult X → List (String × GateDecision) → PassResult X
  unfolding evaluate_survivors route
  paid_stage cfg out remaining r screens =
      let e =
        evaluate_survivors r.survivors (out.evaluator r.survivors screens) cfg.max_council_calls
          remaining (score_of (fl.lit 0 0) (scores_of r.finalists)) in
      record r {
        candidates = map (route cfg out r.finalists) e.candidates;
        drops = r.drops ++ e.drops;
        council_calls = e.calls;
        est_cost = fl.mul (fl.lit e.calls 0) cfg.est_cost_per_call;
        budget_remaining = remaining - e.calls;
      }

  abbrev pub with_gate : PassResult X → Gated X → PassResult X
  with_gate r g = record r {
    survivors = g.survivors;
    drops = r.drops ++ g.drops;
    gate_calls = g.calls;
  }

  -- Stages B and C
  unfoldable pub gated_stages : Settings X → Outside X → ℕ → PassResult X → PassResult X
  unfolding gate_finalists paid_stage
  gated_stages cfg out remaining r =
      let g = gate_finalists r.finalists out.should_review cfg.max_survivors in
      if length g.survivors == 0
      then record (with_gate r g) { status = no_survivors }
      else paid_stage cfg out remaining (with_gate r g) g.decisions

  -- `max(0, daily_budget - max(0, calls_used_today))`
  abbrev pub remaining_of : Settings X → ℕ → ℕ
  remaining_of cfg used = at_least_zero cfg.daily_budget - used

  -- The result after stage A
  unfoldable pub screened_result : Settings X → List (Snapshot X) → ℕ → PassResult X
  unfolding prescreen
  screened_result cfg snapshots used =
      let (finalists, drops) =
        prescreen snapshots cfg.max_finalists cfg.prescreen_min_score cfg.whale_weight in
      record (fresh_result (length snapshots) (remaining_of cfg used)) {
        finalists = finalists;
        drops = drops;
        whale_surfaced = map (λ f. f.symbol) (keep is_surfaced finalists);
      }

  unfoldable pub run_pass : Settings X → Outside X → List (Snapshot X) → ℕ → PassResult X
  unfolding gated_stages screened_result
  run_pass cfg out snapshots used =
      let r = screened_result cfg snapshots used in
      if length r.finalists == 0
      then record r { status = no_finalists }
      else if remaining_of cfg used == 0
      then record r { drops = r.drops ++ map drop_unpaid r.finalists; status = budget_exhausted }
      else gated_stages cfg out (remaining_of cfg used) r
