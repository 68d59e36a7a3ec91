-- ===== src/Discovery/Join.antt =====
-- discovery/run.py, the loop that takes a pass's candidates onto the watchlist or refuses them.
use ai_trader.Base.{
  Bool, Option, none, some, not, if◌then◌else◌, List, [], ◌∷◌, ◌++◌, keep, String, str_eq, Float,
}
use ai_trader.Watchlist.{Db, member, add_from_discovery, journal_onboarding_refusal}
use ai_trader.Universe.{get_or}
use ai_trader.Funnel.Screen.{Field, absent, unreadable, number}
use ai_trader.Funnel.Evaluate.{Verdict}
use ai_trader.Funnel.Pass.{symbol_or}
use ai_trader.Discovery.State.{RunEnv}

-- The watchlist as it was last committed and as the pass's own connection sees it, and the lists `added`
-- and `refused`
pub record Joined (X : Type 0) : Type 0 where
  pub committed : Db X
  pub table : Db X
  pub added : List String
  pub refused : List String

-- What the loop over the candidates comes to: its end, or an exception, which leaves what was done before it
pub data Loop (X : Type 0) : Type 0 where
  completed broken_off : Joined X → Loop X

abbrev pub venue_refusal : String
venue_refusal =
    "onboarding refused: backfill returned no bars, the venue does not serve this symbol"

module _ {X : Type 0} where
  abbrev pub candidate_symbol : Verdict X → String
  candidate_symbol c = symbol_or c.symbol

  abbrev pub is_avoided : Verdict X → Bool
  is_avoided c = str_eq c.verdict "avoid"

  -- The candidates that are not avoided
  abbrev pub candidates_of : List (Verdict X) → List (Verdict X)
  candidates_of verdicts = keep (λ c. not (is_avoided c)) verdicts

module _ {X : Type 0} ⦃fl : Float X⦄ where
  -- `float(c.get("conviction") or 0.0)`, none where it raises
  abbrev pub conviction_of : Field X → Option X
  conviction_of absent = some (fl.lit 0 0)
  conviction_of unreadable = none
  conviction_of (number x) = some x

  -- A refused candidate is journalled.
  unfoldable pub refuse_candidate : RunEnv X → Joined X → String → Joined X
  unfolding journal_onboarding_refusal
  refuse_candidate env st symbol = record {
    committed = st.committed;
    table =
        (journal_onboarding_refusal (fl.lit 0 0) env.ts st.table symbol venue_refusal
          (some env.ts)).0;
    added = st.added;
    refused = st.refused ++ symbol ∷ [];
  }

  unfoldable pub add_candidate : RunEnv X → String → Bool → Joined X → Verdict X → X → Joined X
  unfolding add_from_discovery
  add_candidate env cls surfaced st c score =
      let symbol = candidate_symbol c in
      let (table, outcome) =
        add_from_discovery env.shaping env.ts st.table symbol (env.add_reason c surfaced)
          (get_or "quant_core" c.sleeve_target) score cls (some env.ts) in
      record {
        committed = st.committed;
        table = table;
        added = if outcome.applied then st.added ++ symbol ∷ [] else st.added;
        refused = st.refused;
      }

  -- The loop; `unserved` is empty unless the onboarding was verified
  unfoldable pub join_all :
      RunEnv X → String → List String → List String → Joined X → List (Verdict X) → Loop X
  unfolding refuse_candidate add_candidate
  join_all env cls surfaced unserved st [] = completed st
  join_all env cls surfaced unserved st (c ∷ rest) =
      if member (candidate_symbol c) unserved
      then join_all env cls surfaced unserved (refuse_candidate env st (candidate_symbol c)) rest
      else elim (conviction_of c.conviction) [
        | none ↦ broken_off st
        | some score ↦
            join_all env cls surfaced unserved
              (add_candidate env cls (member (candidate_symbol c) surfaced) st c score) rest
      ]
