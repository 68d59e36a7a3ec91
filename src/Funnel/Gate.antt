-- ===== src/Funnel/Gate.antt =====
-- discovery/funnel.py, stage B: gate_state and gate_finalists. The gate is an argument: what its
-- `should_review` returns on a state, or none where it raises.
pub mod Laws
use ai_trader.Base.{
  ℕ, suc, Bool, true, false, Option, none, some, ◌&&◌, leb, if◌then◌else◌, List, [], ◌∷◌, ◌++◌,
  length, String, str_eq, str_append, str_take, is_text, Float, ℤ, at_least_zero,
}
use ai_trader.Council.Gate.{GateDecision}
use ai_trader.Funnel.Screen.{
  Finalist, Drop, stage_b, survivor_ceiling_reached, gate_said, float_of, is_given,
}

-- The market state that the gate is given; `venue`, `mode` and `imbalance` are constants
pub record GateState (X : Type 0) : Type 0 where
  pub symbol : String
  pub venue : String
  pub mode : String
  pub score : X
  pub price : X
  pub ret_5 : X
  pub volatility : X
  pub catalyst : X
  pub imbalance : X

-- What `gate_finalists` returns; `decisions` is a dict
pub record Gated (X : Type 0) : Type 0 where
  pub survivors : List String
  pub drops : List (Drop X)
  pub calls : ℕ
  pub decisions : List (String × GateDecision)

-- `decisions[symbol] = decision`
pub set_decision :
    List (String × GateDecision) → String → GateDecision → List (String × GateDecision)
set_decision [] symbol d = (symbol, d) ∷ []
set_decision ((k, old) ∷ rest) symbol d =
    let later = set_decision rest symbol d in
    if str_eq k symbol then (k, d) ∷ rest else (k, old) ∷ later

-- `f"gate: {reason or 'gate_rejected'}"[:200]`
abbrev pub gate_reason : GateDecision → String
gate_reason d =
    str_take 200 (str_append "gate: " (if is_text d.reason then d.reason else "gate_rejected"))

module _ {X : Type 0} ⦃fl : Float X⦄ where
  unfoldable pub gate_state : Finalist X → GateState X
  gate_state f =
      let price = float_of f.snapshot.price in
      let high = float_of f.snapshot.high in
      let low = float_of f.snapshot.low in
      let volatility =
        if fl.lt (fl.lit 0 0) price && fl.lt low high
        then fl.div (fl.sub high low) price
        else fl.lit 0 0 in
      record {
        symbol = f.symbol;
        venue = "alpaca";
        mode = "discovery";
        score = f.score;
        price = price;
        ret_5 = fl.div (float_of f.snapshot.change_pct) (fl.lit 100 0);
        volatility = fl.round 6 volatility;
        catalyst =
            if is_given f.snapshot.sentiment_score
            then float_of f.snapshot.sentiment_score
            else fl.lit 0 0;
        imbalance = fl.lit 0 0;
      }

  abbrev pub no_gated : Gated X
  no_gated = record { survivors = []; drops = []; calls = 0; decisions = [] }

  abbrev pub survive : Gated X → Finalist X → Gated X
  survive g f = record g { survivors = g.survivors ++ f.symbol ∷ [] }

  -- What one finalist adds, with the answer of the gate
  unfoldable pub screened : Gated X → Finalist X → Option GateDecision → Gated X
  unfolding set_decision
  screened g f none = survive g f
  screened g f (some d) =
      let asked = record g {
        calls = suc g.calls;
        decisions = set_decision g.decisions f.symbol d;
      } in
      if d.proceed then survive asked f else record asked {
        drops =
            g.drops
            ++ record {
              symbol = f.symbol;
              stage = stage_b;
              reason = gate_said (gate_reason d);
              score = f.score;
            }
              ∷ [];
      }

  abbrev pub at_ceiling : Gated X → Finalist X → Gated X
  at_ceiling g f = record g {
    drops =
        g.drops
        ++ record {
          symbol = f.symbol;
          stage = stage_b;
          reason = survivor_ceiling_reached;
          score = f.score;
        }
          ∷ [];
  }

  -- The loop's body
  unfoldable pub gate_step :
      (GateState X → Option GateDecision) → ℕ → Gated X → Finalist X → Gated X
  unfolding screened
  gate_step should_review limit g f =
      if leb limit (length g.survivors)
      then at_ceiling g f
      else screened g f (should_review (gate_state f))

  unfoldable pub gate_from :
      (GateState X → Option GateDecision) → ℕ → Gated X → List (Finalist X) → Gated X
  unfolding gate_step
  gate_from should_review limit g [] = g
  gate_from should_review limit g (f ∷ rest) =
      gate_from should_review limit (gate_step should_review limit g f) rest

  unfoldable pub gate_finalists :
      List (Finalist X) → (GateState X → Option GateDecision) → ℤ → Gated X
  unfolding gate_from
  gate_finalists finalists should_review max_survivors =
      gate_from should_review (at_least_zero max_survivors) no_gated finalists
