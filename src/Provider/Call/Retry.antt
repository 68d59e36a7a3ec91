-- ===== src/Provider/Call/Retry.antt =====
-- When a scoring calls its provider a second time.
use ai_trader.Base.{
  ℕ, suc, ◌+◌, ◌≤◌, ◌<◌, ◌≡◌, refl, arith, Bool, true, false, Option, none, some, leb, ◌↔◌, ◌&&◌,
  not, if◌then◌else◌, count, Bool-cases, inl, inr,
}
use ai_trader.Provider.Health.{
  Language, Failure, Kind, transient, exhausted, no_retry, Latch, classify,
}
use ai_trader.Provider.Call.{
  is_transient, retry_backoff, min_retry_budget, Provider, World, Outcome, replied, failed,
  Attempted, after_failure, settle, attempt_from, call_with_retry,
}
use ai_trader.Provider.Call.Bounds.{is_call}

module _ (lang : Language) (p : Provider) (w : World) where
  -- The kind of the failure that an outcome is
  abbrev pub failure_kind : Outcome → Option Kind
  failure_kind (replied text) = none
  failure_kind (failed f) = some (classify lang p.label f)

  after_failure_none :
      (deadline reading : ℕ) (latch : Latch) (f : Failure) (kind : Kind) (again : Attempted)
      → count is_call (after_failure lang p w 0 deadline reading latch f kind again).events ≡ 0
  unfolding after_failure
  after_failure_none deadline reading latch f exhausted again = refl
  after_failure_none deadline reading latch f no_retry again = refl
  after_failure_none deadline reading latch f transient again = refl

  settle_once :
      (deadline attempts reading budget : ℕ) (latch : Latch) (o : Outcome)
      (again : Failure → Attempted)
      → count is_call (settle lang p w 0 deadline attempts reading budget latch o again).events ≡ 1
  unfolding settle
  settle_once deadline attempts reading budget latch (replied text) again = refl
  settle_once deadline attempts reading budget latch (failed f) again =
      omega (
        arith,
        after_failure_none deadline (suc reading) latch f (classify lang p.label f) (again f),
      )

  -- The last attempt is made when there is time.
  attempt_from_last :
      (deadline attempts reading : ℕ) (last : Option Failure) (latch : Latch)
      → count is_call (attempt_from lang p w 1 deadline attempts reading last latch).events
        ≡ (if leb deadline (w.clock reading) then 0 else 1)
  unfolding attempt_from
  attempt_from_last deadline attempts reading last latch =
      elim (Bool-cases (leb deadline (w.clock reading))) [
        | inl late ↦ rw late refl
        | inr time ↦ rw time (settle_once deadline attempts reading _ latch (w.calls attempts) _)
      ]

  -- The conditions for a second call, in the order in which the code meets them
  abbrev pub may_retry : ℕ → Kind → Bool
  may_retry deadline kind =
      is_transient kind
      && (leb (w.clock 2 + retry_backoff + min_retry_budget) deadline
          && not (leb deadline (w.clock 3)))

  after_failure_once :
      (deadline : ℕ) (latch : Latch) (f : Failure) (kind : Kind)
      → count is_call
          (after_failure lang p w 1 deadline 2 latch f kind
            (attempt_from lang p w 1 deadline 1 3 (some f) latch)).events
        ≡ (if may_retry deadline kind then 1 else 0)
  unfolding after_failure
  after_failure_once deadline latch f exhausted = refl
  after_failure_once deadline latch f no_retry = refl
  after_failure_once deadline latch f transient =
      ground (arith, attempt_from_last deadline 1 3 (some f) latch)

  abbrev retry_after : ℕ → Outcome → Bool
  retry_after deadline (replied text) = false
  retry_after deadline (failed f) = may_retry deadline (classify lang p.label f)

  settle_first :
      (deadline budget : ℕ) (latch : Latch) (o : Outcome)
      → count is_call
          (settle lang p w 1 deadline 0 1 budget latch o
            (λ f. attempt_from lang p w 1 deadline 1 3 (some f) latch)).events
        ≡ (if retry_after deadline o then 2 else 1)
  unfolding settle
  settle_first deadline budget latch (replied text) = refl
  settle_first deadline budget latch (failed f) =
      ground (arith, after_failure_once deadline latch f (classify lang p.label f))

  attempt_from_first :
      (deadline : ℕ) (latch : Latch)
      → count is_call (attempt_from lang p w 2 deadline 0 1 none latch).events ≡ (
          if leb deadline (w.clock 1) then 0 else if retry_after deadline (w.calls 0) then 2 else 1)
  unfolding attempt_from
  attempt_from_first deadline latch = elim (Bool-cases (leb deadline (w.clock 1))) [
    | inl late ↦ rw late refl
    | inr time ↦ rw time (settle_first deadline _ latch (w.calls 0))
  ]

  may_retry_iff :
      (deadline : ℕ) (kind : Kind)
      → (may_retry deadline kind ≡ true) ↔ (
          (Option.some kind ≡ some transient)
          × (w.clock 2 + retry_backoff + min_retry_budget ≤ deadline)
          × (w.clock 3 < deadline))
  may_retry_iff deadline transient = (λ h. ground (arith, h), λ h. ground (arith, h))
  may_retry_iff deadline exhausted = (λ h. cc, λ h. cc (h.0))
  may_retry_iff deadline no_retry = (λ h. cc, λ h. cc (h.0))

  retry_after_iff :
      (deadline : ℕ) (o : Outcome)
      → (retry_after deadline o ≡ true) ↔ (
          (failure_kind o ≡ some transient)
          × (w.clock 2 + retry_backoff + min_retry_budget ≤ deadline)
          × (w.clock 3 < deadline))
  retry_after_iff deadline (replied text) = (λ h. cc, λ h. cc (h.0))
  retry_after_iff deadline (failed f) = may_retry_iff deadline (classify lang p.label f)

  -- A scoring calls its provider a second time exactly when the first call was made, it failed with a
  -- transient failure, the backoff and five seconds more were left of the provider's timeout, and
  -- the timeout was not over after the pause.
  pub call_with_retry-twice_iff :
      (latch : Latch)
      → (let deadline = w.clock 0 + p.timeout in
          (count is_call (call_with_retry lang p w latch).events ≡ 2) ↔ (
            (w.clock 1 < deadline)
            × (failure_kind (w.calls 0) ≡ some transient)
            × (w.clock 2 + retry_backoff + min_retry_budget ≤ deadline)
            × (w.clock 3 < deadline)))
  unfolding call_with_retry
  call_with_retry-twice_iff latch =
      let deadline = w.clock 0 + p.timeout in
      let calls = attempt_from_first deadline latch in
      let retry = retry_after_iff deadline (w.calls 0) in
      (
        λ h. elim (Bool-cases (retry_after deadline (w.calls 0))) [
          | inl again ↦
              let known = retry.0 again in (ground (arith, calls, h), known.0, known.1, known.2)
          | inr once ↦ ground (arith, calls, h, once)
        ],
        λ h. ground (arith, calls, retry.1 (h.1, h.2, h.3), h.0),
      )
