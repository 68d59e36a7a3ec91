-- ===== src/Provider/Call.antt =====
-- llm_consensus/providers.py: _call_with_retry. Times are milliseconds of the monotonic clock, whose
-- k-th reading is `clock k`; the n-th attempt comes to `calls n`.
pub mod Bounds
pub mod Retry
use ai_trader.Base.{
  ℕ, zero, suc, ◌+◌, ◌-◌, Bool, true, false, Option, none, some, ◌==◌, ltb, leb, if◌then◌else◌,
  List, [], ◌∷◌, ◌++◌, String, str_take,
}
use ai_trader.Provider.Health.{
  Language, Failure, Kind, transient, exhausted, no_retry, Latch, classify, mark_exhausted,
}

-- What one call came to: the text of the response, or an exception
pub data Outcome : Type 0 where
  replied : String → Outcome
  failed : Failure → Outcome

-- A provider, and the outside of one scoring
pub record Provider : Type 0 where
  pub name : String
  pub label : String
  pub model_id : String
  pub timeout : ℕ

pub record World : Type 0 where
  pub clock : ℕ → ℕ
  pub calls : ℕ → Outcome
  pub now : String

-- An attempt with its timeout, and the pause before the next one
pub data Event : Type 0 where
  called : ℕ → Event
  slept : Event

-- The text with the number of attempts, or the exception that is raised
pub data Ending : Type 0 where
  returned : String → ℕ → Ending
  raised : Failure → Ending

pub record Attempted : Type 0 where
  pub ending : Ending
  pub latch : Latch
  pub events : List Event

abbrev pub max_attempts : ℕ
max_attempts = 2

abbrev pub retry_backoff : ℕ
retry_backoff = 1500

abbrev pub min_retry_budget : ℕ
min_retry_budget = 5000

abbrev pub no_attempt : Failure
no_attempt = record {
  status = none;
  body = none;
  text = "";
  message = "no attempt was made within the provider budget";
}

-- `raise last if last is not None else …`
abbrev pub last_error : Option Failure → Failure
last_error none = no_attempt
last_error (some f) = f

abbrev pub is_transient : Kind → Bool
is_transient transient = true
is_transient _ = false

module _ (lang : Language) (p : Provider) (w : World) where
  abbrev pub stops : Latch → List Event → Failure → Attempted
  stops latch events f = record { ending = raised f; latch = latch; events = events }

  -- What follows the failure of an attempt, where `again` is what another attempt comes to
  unfoldable pub after_failure : ℕ → ℕ → ℕ → Latch → Failure → Kind → Attempted → Attempted
  unfolding mark_exhausted
  after_failure left deadline reading latch f exhausted again =
      stops (mark_exhausted lang w.now p.label p.model_id (str_take 300 f.message) latch) [] f
  after_failure left deadline reading latch f no_retry again = stops latch [] f
  after_failure left deadline reading latch f transient again =
      if left == 0
      then stops latch [] f
      else if ltb deadline (w.clock reading + retry_backoff + min_retry_budget)
      then stops latch [] f
      else record again { events = slept ∷ again.events }

  -- What an attempt made with `budget` of time leads to
  unfoldable pub settle : ℕ → ℕ → ℕ → ℕ → ℕ → Latch → Outcome → (Failure → Attempted) → Attempted
  unfolding after_failure classify
  settle left deadline attempts reading budget latch (replied text) again = record {
    ending = returned text (suc attempts);
    latch = latch;
    events = called budget ∷ [];
  }
  settle left deadline attempts reading budget latch (failed f) again =
      let rest =
        after_failure left deadline (suc reading) latch f (classify lang p.label f) (again f) in
      record rest { events = called budget ∷ rest.events }

  -- The loop with `left` attempts to go
  unfoldable pub attempt_from : ℕ → ℕ → ℕ → ℕ → Option Failure → Latch → Attempted
  unfolding settle
  attempt_from zero deadline attempts reading last latch = stops latch [] (last_error last)
  attempt_from (suc left) deadline attempts reading last latch =
      let again = λ (f : Failure).
        attempt_from left deadline (suc attempts) (suc (suc reading)) (some f) latch in
      if leb deadline (w.clock reading)
      then stops latch [] (last_error last)
      else settle left deadline attempts reading (deadline - w.clock reading) latch
          (w.calls attempts) again

  unfoldable pub call_with_retry : Latch → Attempted
  unfolding attempt_from
  call_with_retry latch = attempt_from max_attempts (w.clock 0 + p.timeout) 0 1 none latch
