-- ===== src/Council/Round.antt =====
-- `consensus` of llm_consensus/consensus.py: the checks before the council, and the round itself.
-- The evidence builder and the evidence check (llm_consensus/evidence.py) are arguments, as are the
-- gate, the providers and the text functions of the language.
pub mod Spend
use ai_trader.Base.{
  ℕ, ◌+◌, ◌*◌, Bool, true, false, ◌&&◌, ◌||◌, not, ltb, leb, if◌then◌else◌, Float, Option, none,
  some, List, [], ◌∷◌, ◌++◌, map, String, str_eq, str_append, is_some, is_text, ℤ, pos,
}
use ai_trader.Council.Gate.{GateDecision}
use ai_trader.Council.Vote.{ModelVerdict, Voter, ConsensusResult, bias_to_verdict, tally}

-- The keys of a market state that `consensus` reads itself; `evidence` is all the rest
pub record State (E : Type 0) : Type 0 where
  pub risk_precheck_block : Bool
  pub risk_blocked : Bool
  pub risk_precheck_reason : String
  pub risk_reason : String
  pub symbol : String
  pub market_open : Option Bool
  pub db : String
  pub evidence : E

-- A moment in UTC, with Monday as weekday 0
pub record Moment : Type 0 where
  pub weekday : ℕ
  pub hour : ℕ
  pub minute : ℕ

unfoldable pub us_equity_market_open : Moment → Bool
us_equity_market_open now =
    if leb 5 now.weekday
    then false
    else let minutes = now.hour * 60 + now.minute in
      leb (13 * 60 + 30) minutes && ltb minutes (20 * 60)

-- `_market_open`
abbrev pub is_open : Moment → Option Bool → Bool
is_open now (some b) = b
is_open now none = us_equity_market_open now

-- What a round calls and records, in order
pub data Call : Type 0 where
  gate_call refusal_recorded evaluation_recorded : Call
  score_call : ℕ → Call

pub record Provider (X E : Type 0) : Type 0 where
  pub weight : X
  pub score : State E → ModelVerdict X

pub record Round (X : Type 0) : Type 0 where
  pub result : ConsensusResult X
  pub calls : List Call

module _ {E : Type 0} where
  -- `a or b or default`, on texts
  abbrev pub reason_text : State E → String
  reason_text s =
      if is_text s.risk_precheck_reason
      then s.risk_precheck_reason
      else if is_text s.risk_reason
      then s.risk_reason
      else "risk precondition blocks trade"

  unfoldable pub risk_precheck_skip : State E → Option GateDecision
  risk_precheck_skip s =
      if not (s.risk_precheck_block || s.risk_blocked)
      then none
      else some (record {
        proceed = false;
        reason = str_append "risk pre-check: " (reason_text s);
        model = "risk_precheck";
        source = "risk_precheck";
      })

  -- `normal` strips a symbol and raises its letters.
  unfoldable pub market_hours_skip :
      (String → String) → Bool → Moment → State E → Option GateDecision
  market_hours_skip normal hours_only now s =
      if not hours_only
      then none
      else if not (str_eq (normal s.symbol) "SPY" || str_eq (normal s.symbol) "QQQ")
      then none
      else if is_open now s.market_open
      then none
      else some (record {
        proceed = false;
        reason = "equities outside US regular trading hours";
        model = "market_hours";
        source = "market_hours";
      })

module _ {X : Type 0} ⦃fl : Float X⦄ where
  flat_result : Option GateDecision → Option String → ConsensusResult X
  flat_result gate refusal = record {
    bias = fl.lit 0 0;
    confidence = fl.lit 0 0;
    edge = fl.lit 0 0;
    verdict = bias_to_verdict (fl.lit 0 0);
    agreement_count = 0;
    per_model = [];
    gate = gate;
    directional_count = 0;
    abstentions = pos 0;
    errors = 0;
    exhausted = 0;
    refusal = refusal;
  }

  unfoldable pub flat_consensus : GateDecision → ConsensusResult X
  unfolding flat_result
  flat_consensus gate = flat_result (some gate) none

  unfoldable pub refused_consensus : String → ConsensusResult X
  unfolding flat_result
  refused_consensus refusal = flat_result none (some refusal)

module _ {X E : Type 0} ⦃fl : Float X⦄ where
  -- `_score_all`: every provider is asked, and the verdicts keep the providers' order.
  abbrev pub score_all : List (Provider X E) → State E → List (Voter X)
  score_all [] s = []
  score_all (p ∷ ps) s = record { cast = p.score s; weight = p.weight } ∷ score_all ps s

  abbrev pub score_calls : ℕ → List (Provider X E) → List Call
  score_calls n [] = []
  score_calls n (p ∷ ps) = score_call n ∷ score_calls (n + 1) ps

  -- The part after the evidence was assembled and found sufficient
  unfoldable pub council_round : (State E → GateDecision) → List (Provider X E) → State E → Round X
  council_round gate providers s =
      let decision = gate s in
      if not decision.proceed
      then record { result = flat_consensus decision; calls = gate_call ∷ [] }
      else record {
        result = tally decision (score_all providers s);
        calls =
            gate_call
            ∷ (score_calls 0 providers ++ (if is_text s.db then evaluation_recorded ∷ [] else []));
      }

  unfoldable pub consensus :
      (String → String)
      → Bool
      → Moment
      → (State E → State E)
      → (State E → Option String)
      → (State E → GateDecision)
      → List (Provider X E)
      → State E
      → Round X
  unfolding council_round
  consensus normal hours_only now build_state evidence_refusal gate providers s =
      elim (risk_precheck_skip s) [
        | some d ↦ record { result = flat_consensus d; calls = [] }
        | none ↦ elim (market_hours_skip normal hours_only now s) [
          | some d ↦ record { result = flat_consensus d; calls = [] }
          | none ↦
              let built = build_state s in
              elim (evidence_refusal built) [
                | some why ↦ record {
                  result = refused_consensus why;
                  calls = if is_text built.db then refusal_recorded ∷ [] else [];
                }
                | none ↦ council_round gate providers built
              ]
        ]
      ]
