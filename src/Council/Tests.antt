-- ===== src/Council/Tests.antt =====
-- The council's theorems at concrete votes and rounds.
use ai_trader.Base.{
  ◌+◌, ◌*◌, ◌≤◌, ◌<◌, ◌≡◌, ◌↔◌, refl, Bool, true, false, Option, none, some, List, [], ◌∷◌, any,
  count, length, String, ℤ, pos, fixed, le_ℤ, lt_ℤ, arith,
}
use ai_trader.Council.Gate.{GateDecision}
use ai_trader.Council.Vote.{Voter, tally}
use ai_trader.Council.Vote.Laws.{is_hold, tally_partition, IsOrder}
use ai_trader.Council.Round.{State, Moment, us_equity_market_open, Provider, consensus}
use ai_trader.Council.Round.Spend.{us_equity_market_open_iff, asks, skipped, consensus-asks_iff}

abbrev long : Voter ℤ
long = record {
  cast = record {
    model = "llm_primary";
    bias = pos 700000000;
    confidence = pos 700000000;
    edge = pos 1000000;
    verdict = "strong_buy";
    rationale = "";
    source = "real";
    model_id = "gpt";
  };
  weight = pos 1000000000;
}

abbrev hold : Voter ℤ
hold = record long { cast = record long.cast { bias = pos 0; verdict = "hold" } }

abbrev dry : Voter ℤ
dry = record hold { cast = record hold.cast { source = "exhausted" } }

abbrev passed : GateDecision
passed = record { proceed = true; reason = ""; model = ""; source = "mock" }

abbrev voters : List (Voter ℤ)
voters = long ∷ hold ∷ dry ∷ []

one_convinced : (tally passed voters).bias ≡ pos 700000000
unfolding tally fixed
one_convinced = refl

tally_partition_example :
    ((tally passed voters).abstentions ≡ pos (count is_hold voters))
    × ((tally passed voters).directional_count
          + count is_hold voters
          + (tally passed voters).errors
          + (tally passed voters).exhausted
        ≡ length voters)
unfolding fixed
tally_partition_example = tally_partition passed voters refl

us_equity_market_open_iff_example :
    (us_equity_market_open (record { weekday = 4; hour = 13; minute = 30 }) ≡ true)
    ↔ ((4 < 5) × (810 ≤ 13 * 60 + 30) × (13 * 60 + 30 < 1200))
us_equity_market_open_iff_example =
    us_equity_market_open_iff (record { weekday = 4; hour = 13; minute = 30 })

abbrev state : State Bool
state = record {
  risk_precheck_block = false;
  risk_blocked = false;
  risk_precheck_reason = "";
  risk_reason = "";
  symbol = "SPY";
  market_open = some true;
  db = "trader.db";
  evidence = true;
}

abbrev provider : Provider ℤ Bool
provider = record { weight = pos 1000000000; score = λ s. long.cast }

abbrev noon : Moment
noon = record { weekday = 1; hour = 12; minute = 0 }

abbrev same_text : String → String
same_text s = s

abbrev same_state : State Bool → State Bool
same_state s = s

abbrev no_refusal : State Bool → Option String
no_refusal s = none

abbrev thin_evidence : State Bool → Option String
thin_evidence s = some "no bars"

abbrev open_gate : State Bool → GateDecision
open_gate s = passed

consensus-asks_iff_example :
    (any asks
        (consensus same_text true noon same_state no_refusal open_gate (provider ∷ []) state).calls
      ≡ true)
    ↔ ((skipped same_text true noon state ≡ false) × (no_refusal state ≡ none) × (true ≡ true))
consensus-asks_iff_example =
    consensus-asks_iff same_text true noon same_state no_refusal open_gate provider [] state

fixed-IsOrder : IsOrder fixed
unfolding fixed
fixed-IsOrder = record { le_le = transitive; le_lt = mixed }
  where
    transitive : (a b c : ℤ) → le_ℤ a b ≡ true → le_ℤ b c ≡ true → le_ℤ a c ≡ true
    transitive a b c h k = ground arith

    mixed : (a b c : ℤ) → le_ℤ a b ≡ true → lt_ℤ b c ≡ true → lt_ℤ a c ≡ true
    mixed a b c h k = ground arith
