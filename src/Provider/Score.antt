-- ===== src/Provider/Score.antt =====
-- llm_consensus/providers.py: score of a real provider; llm_consensus/verdicts.py:
-- verdict_from_payload. The mock verdict and the extraction of the reply's object are arguments.
use ai_trader.Base.{
  ℕ, Bool, not, Option, none, some, ltb, if◌then◌else◌, List, [], ◌∷◌, any, String, str_eq,
  str_append, str_take, Float, at_least, at_most, clamp01,
}
use ai_trader.Council.Vote.{
  ModelVerdict, bias_to_verdict, flat_verdict, error_source, exhausted_source,
}
use ai_trader.Provider.Health.{Language, Kind, exhausted, Latch, classify, is_exhausted}
use ai_trader.Provider.Call.{
  Provider, World, Event, Ending, returned, raised, max_attempts, is_transient, call_with_retry,
}

-- A JSON value where a number is expected: `float` takes it, or raises
pub data Number (X : Type 0) : Type 0 where
  refused : Number X
  number : X → Number X

-- A reply's object, as far as `verdict_from_payload` reads it; a text is what `str` makes of a value
pub record Payload (X : Type 0) : Type 0 where
  pub direction : Option String
  pub verdict : Option String
  pub confidence : Option (Number X)
  pub edge : Option (Number X)
  pub edge_estimate : Option (Number X)
  pub reasoning : Option String
  pub rationale : Option String
  pub reason : Option String

-- `a.get(k, default)`
abbrev pub or_default : {A : Type 0} → Option A → A → A
or_default none default = default
or_default (some a) default = a

abbrev up_words : List String
up_words = "long" ∷ "buy" ∷ "bull" ∷ "bullish" ∷ []

abbrev down_words : List String
down_words = "short" ∷ "sell" ∷ "bear" ∷ "bearish" ∷ []

-- What a provider gives for one state, and what it did. Of the verdict's extra the field `attempts` alone is
-- kept; `error` and `exhausted_since`, which are texts for the record, are left out.
pub record Scoring (X : Type 0) : Type 0 where
  pub verdict : ModelVerdict X
  pub attempts : Option ℕ
  pub latch : Latch
  pub events : List Event

abbrev pub labelled : Provider → String → String
labelled p rest = str_append "flat: " (str_append p.label rest)

-- `tried`, the number of attempts that a failed scoring records
abbrev pub tried : Kind → ℕ
tried kind = if is_transient kind then max_attempts else 1

module _ {X : Type 0} ⦃fl : Float X⦄ (lang : Language) where
  -- `direction_sign`
  pub direction_sign : String → X
  direction_sign direction =
      let d = lang.strip_lower direction in
      if any (str_eq d) up_words
      then fl.lit 1 0
      else if any (str_eq d) down_words
      then fl.neg (fl.lit 1 0)
      else fl.lit 0 0

  abbrev pub read_verdict :
      (model source model_id direction reasoning : String) (confidence edge : X) → ModelVerdict X
  read_verdict model source model_id direction reasoning confidence edge =
      let conf = clamp01 confidence in
      let bias =
        at_least (fl.neg (fl.lit 1 0))
          (at_most (fl.lit 1 0) (fl.mul (direction_sign direction) conf)) in
      record {
        model = model;
        bias = fl.round 4 bias;
        confidence = fl.round 4 conf;
        edge = fl.round 4 (at_least (fl.lit 0 0) edge);
        verdict = bias_to_verdict bias;
        rationale = str_take 500 reasoning;
        source = source;
        model_id = model_id;
      }

  -- `verdict_from_payload`; none where a `float` raises
  unfoldable pub verdict_from_payload :
      String → Payload X → String → String → Option (ModelVerdict X)
  unfolding direction_sign bias_to_verdict
  verdict_from_payload model obj source model_id =
      let direction = or_default obj.direction (or_default obj.verdict "flat") in
      let reasoning =
        or_default obj.reasoning (or_default obj.rationale (or_default obj.reason "")) in
      let zero_number = number (fl.lit 0 0) in
      elim (or_default obj.confidence zero_number) [
        | refused ↦ none
        | number c ↦ elim (or_default obj.edge (or_default obj.edge_estimate zero_number)) [
          | refused ↦ none
          | number e ↦ some (read_verdict model source model_id direction reasoning c e)
        ]
      ]

  abbrev pub flat_scoring : Provider → String → String → ℕ → Latch → List Event → Scoring X
  flat_scoring p rationale source attempts latch events = record {
    verdict = flat_verdict p.name rationale source p.model_id;
    attempts = some attempts;
    latch = latch;
    events = events;
  }

  -- The verdict for the exception that `_call_with_retry` raised
  unfoldable pub failed_scoring : Provider → Kind → Latch → List Event → Scoring X
  unfolding flat_verdict
  failed_scoring p exhausted latch events =
      flat_scoring p (labelled p " out of quota or credit") exhausted_source 1 latch events
  failed_scoring p kind latch events =
      flat_scoring p (labelled p " call error") error_source (tried kind) latch events

  -- The verdict for a reply after `attempts` attempts
  unfoldable pub replied_scoring :
      Provider → Option (Payload X) → ℕ → Latch → List Event → Scoring X
  unfolding verdict_from_payload flat_verdict
  replied_scoring p none attempts latch events =
      flat_scoring p (labelled p " unparseable JSON") error_source attempts latch events
  replied_scoring p (some obj) attempts latch events =
      elim (verdict_from_payload p.name obj "real" p.model_id) [
        | none ↦ flat_scoring p (labelled p " bad payload") error_source attempts latch events
        | some v ↦ record {
          verdict = v;
          attempts = if ltb 1 attempts then some attempts else none;
          latch = latch;
          events = events;
        }
      ]

  -- `_mock_verdict`, over what the offline stand-in gives
  abbrev pub mock_scoring : Provider → ModelVerdict X → Latch → Scoring X
  mock_scoring p mock latch = record {
    verdict = record mock {
      source = "mock";
      model_id = p.model_id;
      rationale = str_append "MOCK (no " (str_append p.label (str_append " key): " mock.rationale));
    };
    attempts = none;
    latch = latch;
    events = [];
  }

  unfoldable pub ended_scoring :
      Provider → (String → Option (Payload X)) → Ending → Latch → List Event → Scoring X
  unfolding replied_scoring failed_scoring classify
  ended_scoring p extract (returned text attempts) latch events =
      replied_scoring p (extract text) attempts latch events
  ended_scoring p extract (raised f) latch events =
      failed_scoring p (classify lang p.label f) latch events

  -- `score`, given whether a key is resolved
  unfoldable pub score :
      Provider → World → Bool → ModelVerdict X → (String → Option (Payload X)) → Latch → Scoring X
  unfolding call_with_retry is_exhausted ended_scoring flat_verdict
  score p w has_key mock extract latch =
      if not has_key
      then mock_scoring p mock latch
      else if is_exhausted lang p.label latch
      then flat_scoring p (labelled p " exhausted, not called") exhausted_source 0 latch []
      else (let a = call_with_retry lang p w latch in
          ended_scoring p extract a.ending a.latch a.events)
