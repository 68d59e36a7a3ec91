-- ===== src/Provider/Session/Attempts.antt =====
-- The number of attempts that a scoring records, against the calls that it made.
use ai_trader.Base.{
  ◌+◌, ◌-◌, ◌<◌, ◌≡◌, refl, true, false, some, [], ◌∷◌, count, Float, lt_not_leb, lt→ltb,
}
use ai_trader.Provider.Health.{Language, Failure, transient, Latch, classify, is_exhausted}
use ai_trader.Provider.Call.{
  Provider, World, failed, called, raised, retry_backoff, min_retry_budget, after_failure, settle,
  attempt_from, call_with_retry,
}
use ai_trader.Provider.Call.Bounds.{is_call}
use ai_trader.Provider.Score.{score, ended_scoring, failed_scoring}
use ai_trader.Provider.Session.{Turn, take_turn}

-- The first attempt is made and fails as transient, with too little time left for another.
pub record FailsLate (lang : Language) (p : Provider) (w : World) (f : Failure) : Type 0 where
  pub in_time : w.clock 1 < w.clock 0 + p.timeout
  pub fails : w.calls 0 ≡ failed f
  pub kind : classify lang p.label f ≡ transient
  pub too_late : w.clock 0 + p.timeout < w.clock 2 + retry_backoff + min_retry_budget

module _ (lang : Language) (p : Provider) (w : World) where
  call_late :
      (f : Failure) (latch : Latch)
      → FailsLate lang p w f
      → call_with_retry lang p w latch ≡ record {
        ending = raised f;
        latch = latch;
        events = called (w.clock 0 + p.timeout - w.clock 1) ∷ [];
      }
  unfolding call_with_retry attempt_from settle after_failure
  call_late f latch e =
      rw (lt_not_leb _ _ e.in_time, e.fails, settle, e.kind, after_failure, lt→ltb _ _ e.too_late)
        refl

module _ {X : Type 0} ⦃fl : Float X⦄ (lang : Language) (latch : Latch) (t : Turn X) where
  open t use {provider, world, has_key}

  -- A scoring whose only call fails as transient with too little time left for a second one records
  -- two attempts.
  pub score_attempts_overstated :
      (f : Failure)
      → has_key ≡ true
      → is_exhausted lang provider.label latch ≡ false
      → FailsLate lang provider world f
      → (count is_call (take_turn lang latch t).events ≡ 1)
        × ((take_turn lang latch t).attempts ≡ some 2)
  unfolding take_turn score ended_scoring failed_scoring
  score_attempts_overstated f key on e =
      rw (key, on, call_late lang provider world f latch e, ended_scoring, e.kind, failed_scoring)
        (refl, refl)
