-- ===== src/Council/Vote.antt =====
-- llm_consensus/verdicts.py and the vote of llm_consensus/consensus.py: what the providers'
-- verdicts make of the consensus.
pub mod Laws
use ai_trader.Base.{
  ℕ, ◌+◌, ◌-◌, Bool, true, false, ◌&&◌, ◌||◌, not, if◌then◌else◌, Float, List, [], ◌∷◌, keep, count,
  length, map, String, str_eq, ℤ, minus, leb, Option, none, some,
}
use ai_trader.Council.Gate.{GateDecision}

pub record ModelVerdict (X : Type 0) : Type 0 where
  pub model : String
  pub bias : X
  pub confidence : X
  pub edge : X
  pub verdict : String
  pub rationale : String
  pub source : String
  pub model_id : String

-- A verdict with the weight of its provider
pub record Voter (X : Type 0) : Type 0 where
  pub cast : ModelVerdict X
  pub weight : X

pub record ConsensusResult (X : Type 0) : Type 0 where
  pub bias : X
  pub confidence : X
  pub edge : X
  pub verdict : String
  pub agreement_count : ℕ
  pub per_model : List (ModelVerdict X)
  pub gate : Option GateDecision
  pub directional_count : ℕ
  pub abstentions : ℤ
  pub errors : ℕ
  pub exhausted : ℕ
  pub refusal : Option String

abbrev pub error_source : String
error_source = "error"

abbrev pub exhausted_source : String
exhausted_source = "exhausted"

-- 1, -1 and 0
pub data Sign : Type 0 where
  up down level : Sign

module _ {X : Type 0} where
  abbrev pub is_error : ModelVerdict X → Bool
  is_error v = str_eq v.source error_source || str_eq v.source exhausted_source

  abbrev pub is_exhausted : ModelVerdict X → Bool
  is_exhausted v = str_eq v.source exhausted_source

module _ {X : Type 0} ⦃fl : Float X⦄ where
  unfoldable pub bias_to_verdict : X → String
  bias_to_verdict bias =
      if fl.le bias (fl.neg (fl.lit 6 1))
      then "strong_sell"
      else if fl.le bias (fl.neg (fl.lit 2 1))
      then "sell"
      else if fl.lt bias (fl.lit 2 1)
      then "hold"
      else if fl.lt bias (fl.lit 6 1)
      then "buy"
      else "strong_buy"

  -- `flat_verdict`
  unfoldable pub flat_verdict : String → String → String → String → ModelVerdict X
  unfolding bias_to_verdict
  flat_verdict model rationale source model_id = record {
    model = model;
    bias = fl.lit 0 0;
    confidence = fl.lit 0 0;
    edge = fl.lit 0 0;
    verdict = bias_to_verdict (fl.lit 0 0);
    rationale = rationale;
    source = source;
    model_id = model_id;
  }

  abbrev pub abs : X → X
  abs x = if fl.lt x (fl.lit 0 0) then fl.neg x else x

  -- `abs(v.bias) > 1e-9`
  abbrev pub is_directional : ModelVerdict X → Bool
  is_directional v = fl.lt (fl.lit 1 9) (abs v.bias)

  abbrev pub votes_directional : Voter X → Bool
  votes_directional w = is_directional w.cast

  -- `sum(f(x) for x in xs)`
  abbrev pub sum_of : (Voter X → X) → X → List (Voter X) → X
  sum_of f total [] = total
  sum_of f total (w ∷ ws) = sum_of f (fl.add total (f w)) ws

  -- `x or 1.0`
  abbrev pub or_one : X → X
  or_one x = if fl.le x (fl.lit 0 0) && fl.le (fl.lit 0 0) x then fl.lit 1 0 else x

  abbrev pub weighted : (ModelVerdict X → X) → List (Voter X) → X
  weighted f [] = fl.lit 0 0
  weighted f (w ∷ ws) =
      fl.div (sum_of (λ u. fl.mul (f u.cast) u.weight) (fl.lit 0 0) (w ∷ ws))
        (or_one (sum_of (λ u. u.weight) (fl.lit 0 0) (w ∷ ws)))

  abbrev pub sign_of : X → Sign
  sign_of bias =
      if fl.lt (fl.lit 0 0) bias then up else if fl.lt bias (fl.lit 0 0) then down else level

  -- `net != 0 and (1 if v.bias > 0 else -1) == net`
  abbrev pub agrees : Sign → Voter X → Bool
  agrees up w = fl.lt (fl.lit 0 0) w.cast.bias
  agrees down w = not (fl.lt (fl.lit 0 0) w.cast.bias)
  agrees level w = false

  unfoldable pub errors_of : List (ModelVerdict X) → ℕ
  errors_of vs = count is_error vs - count is_exhausted vs

  -- What `consensus` makes of the scored verdicts and the gate's decision
  unfoldable pub tally : GateDecision → List (Voter X) → ConsensusResult X
  unfolding bias_to_verdict errors_of
  tally decision voters =
      let directional = keep votes_directional voters in
      let verdicts = map (λ w. w.cast) voters in
      let bias = weighted (λ v. v.bias) directional in
      record {
        bias = bias;
        confidence = weighted (λ v. v.confidence) directional;
        edge = weighted (λ v. v.edge) directional;
        verdict = bias_to_verdict bias;
        agreement_count = count (agrees (sign_of bias)) directional;
        per_model = verdicts;
        gate = some decision;
        directional_count = length directional;
        abstentions =
            minus (length verdicts)
              (length directional + errors_of verdicts + count is_exhausted verdicts);
        errors = errors_of verdicts;
        exhausted = count is_exhausted verdicts;
        refusal = none;
      }
