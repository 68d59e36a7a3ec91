-- ===== src/Provider/Call/Bounds.antt =====
-- How often a scoring calls its provider, and with how much time.
use ai_trader.Base.{
  ℕ, zero, suc, ◌+◌, ◌-◌, ◌≤◌, arith, Bool, true, false, Option, none, some, leb, List, All, count,
  Bool-cases, inl, inr,
}
use ai_trader.Provider.Health.{
  Language, Failure, Kind, transient, exhausted, no_retry, Latch, classify,
}
use ai_trader.Provider.Call.{
  Provider, World, Outcome, replied, failed, Event, called, slept, Attempted, max_attempts,
  after_failure, settle, attempt_from, call_with_retry,
}

-- The event is a call.
abbrev pub is_call : Event → Bool
is_call (called t) = true
is_call slept = false

-- A call is given no more than `limit` of time.
abbrev pub WithinTime : ℕ → Event → Type 0
WithinTime limit (called t) = t ≤ limit
WithinTime limit slept = Unit

module _ (lang : Language) (p : Provider) (w : World) where
  after_failure-calls :
      (left deadline reading : ℕ) (latch : Latch) (f : Failure) (kind : Kind) (again : Attempted)
      → count is_call again.events ≤ left
      → count is_call (after_failure lang p w left deadline reading latch f kind again).events
        ≤ left
  unfolding after_failure
  after_failure-calls left deadline reading latch f exhausted again h = omega arith
  after_failure-calls left deadline reading latch f no_retry again h = omega arith
  after_failure-calls left deadline reading latch f transient again h = ground (arith, h)

  settle-calls :
      (left deadline attempts reading budget : ℕ) (latch : Latch) (o : Outcome)
      (again : Failure → Attempted)
      → ((f : Failure) → count is_call (again f).events ≤ left)
      → count is_call (settle lang p w left deadline attempts reading budget latch o again).events
        ≤ suc left
  unfolding settle
  settle-calls left deadline attempts reading budget latch (replied text) again h = omega arith
  settle-calls left deadline attempts reading budget latch (failed f) again h = omega (
    arith,
    after_failure-calls left deadline (suc reading) latch f (classify lang p.label f) (again f)
        (h f),
  )

  attempt_from-calls :
      (left deadline attempts reading : ℕ) (last : Option Failure) (latch : Latch)
      → count is_call (attempt_from lang p w left deadline attempts reading last latch).events
        ≤ left
  unfolding attempt_from
  attempt_from-calls zero deadline attempts reading last latch = omega arith
  attempt_from-calls (suc left) deadline attempts reading last latch =
      elim (Bool-cases (leb deadline (w.clock reading))) [
        | inl late ↦ rw late (omega arith)
        | inr time ↦ rw time (
            settle-calls left deadline attempts reading _ latch (w.calls attempts) _ (λ f.
              attempt_from-calls left deadline (suc attempts) (suc (suc reading)) (some f) latch))
      ]

  module _ (limit : ℕ) where
    abbrev Timed : List Event → Type 0
    Timed events = All (WithinTime limit) events

    after_failure-Timed :
        (left deadline reading : ℕ) (latch : Latch) (f : Failure) (kind : Kind) (again : Attempted)
        → Timed again.events
        → Timed (after_failure lang p w left deadline reading latch f kind again).events
    unfolding after_failure
    after_failure-Timed left deadline reading latch f exhausted again h = tt
    after_failure-Timed left deadline reading latch f no_retry again h = tt
    after_failure-Timed left deadline reading latch f transient again h = ground (arith, h)

    settle-Timed :
        (left deadline attempts reading budget : ℕ) (latch : Latch) (o : Outcome)
        (again : Failure → Attempted)
        → budget ≤ limit
        → ((f : Failure) → Timed (again f).events)
        → Timed (settle lang p w left deadline attempts reading budget latch o again).events
    unfolding settle
    settle-Timed left deadline attempts reading budget latch (replied text) again b h = (b, tt)
    settle-Timed left deadline attempts reading budget latch (failed f) again b h = (
      b,
      after_failure-Timed left deadline (suc reading) latch f (classify lang p.label f) (again f)
          (h f),
    )

    attempt_from-Timed :
        (left deadline attempts reading : ℕ) (last : Option Failure) (latch : Latch)
        → ((k : ℕ) → deadline - w.clock k ≤ limit)
        → Timed (attempt_from lang p w left deadline attempts reading last latch).events
    unfolding attempt_from
    attempt_from-Timed zero deadline attempts reading last latch h = tt
    attempt_from-Timed (suc left) deadline attempts reading last latch h =
        elim (Bool-cases (leb deadline (w.clock reading))) [
          | inl late ↦ rw late tt
          | inr time ↦ rw time (
              settle-Timed left deadline attempts reading _ latch (w.calls attempts) _ (h reading)
                (λ f.
                  attempt_from-Timed left deadline (suc attempts) (suc (suc reading)) (some f) latch
                    h))
        ]

  -- A scoring calls its provider at most twice, and where the clock does not run backwards no call is
  -- given more time than the provider's whole timeout.
  pub call_with_retry_bounds :
      (latch : Latch)
      → ((k : ℕ) → w.clock 0 ≤ w.clock k)
      → (count is_call (call_with_retry lang p w latch).events ≤ max_attempts)
        × All (WithinTime p.timeout) (call_with_retry lang p w latch).events
  unfolding call_with_retry
  call_with_retry_bounds latch forward =
      let deadline = w.clock 0 + p.timeout in
      (
        attempt_from-calls max_attempts deadline 0 1 none latch,
        attempt_from-Timed p.timeout max_attempts deadline 0 1 none latch
            (λ k. omega (arith, forward k)),
      )
