-- ===== src/Provider/Session/Exhaustion.antt =====
-- From the failure that exhausts an account to the silence after it.
use ai_trader.Base.{
  ◌+◌, ◌-◌, ◌<◌, ◌≡◌, refl, true, false, is_text, List, [], ◌∷◌, All, count, keep, str_take, Float,
  lt_not_leb,
}
use ai_trader.Council.Vote.{exhausted_source}
use ai_trader.Provider.Health.{
  Language, Failure, exhausted, Latch, classify, mark_exhausted, is_exhausted,
}
use ai_trader.Provider.Call.{
  Provider, World, failed, called, raised, after_failure, settle, attempt_from, call_with_retry,
}
use ai_trader.Provider.Call.Bounds.{is_call}
use ai_trader.Provider.Score.{score, ended_scoring, failed_scoring}
use ai_trader.Provider.Session.{Turn, take_turn, session}
use ai_trader.Provider.Session.Latching.{
  Holding, mark_exhausted_holds, of_account, Uncalled, session-Uncalled,
}

-- The first attempt of a scoring is made, and fails as exhausted.
pub record Exhausts (lang : Language) (p : Provider) (w : World) (f : Failure) : Type 0 where
  pub in_time : w.clock 1 < w.clock 0 + p.timeout
  pub fails : w.calls 0 ≡ failed f
  pub kind : classify lang p.label f ≡ exhausted

module _ (lang : Language) (p : Provider) (w : World) where
  call_exhausted :
      (f : Failure) (latch : Latch)
      → Exhausts lang p w f
      → call_with_retry lang p w latch ≡ record {
        ending = raised f;
        latch = mark_exhausted lang w.now p.label p.model_id (str_take 300 f.message) latch;
        events = called (w.clock 0 + p.timeout - w.clock 1) ∷ [];
      }
  unfolding call_with_retry attempt_from settle after_failure
  call_exhausted f latch e =
      rw (lt_not_leb _ _ e.in_time, e.fails, settle, e.kind, after_failure) refl

module _ {X : Type 0} ⦃fl : Float X⦄ (lang : Language) (latch : Latch) (t : Turn X) where
  open t use {provider, world, has_key}

  score-Exhausts :
      (f : Failure)
      → has_key ≡ true
      → is_exhausted lang provider.label latch ≡ false
      → is_text (lang.strip_lower provider.label) ≡ true
      → Exhausts lang provider world f
      → (count is_call (take_turn lang latch t).events ≡ 1)
        × ((take_turn lang latch t).verdict.source ≡ exhausted_source)
        × Holding lang provider.label (take_turn lang latch t).latch
  unfolding take_turn score ended_scoring failed_scoring
  score-Exhausts f key on named e =
      rw
        (
          key,
          on,
          call_exhausted lang provider world f latch e,
          ended_scoring,
          e.kind,
          failed_scoring,
        )
        (
          refl,
          refl,
          mark_exhausted_holds lang world.now provider.label provider.model_id
              (str_take 300 f.message) latch named,
        )

  -- A provider whose first attempt shows that its account is exhausted is called once, says so in its
  -- verdict, and, while nothing resets the latch, is not called again by any later scoring of the process
  -- under any label of that account.
  pub session_exhausted :
      (f : Failure) (later : List (Turn X))
      → has_key ≡ true
      → is_exhausted lang provider.label latch ≡ false
      → is_text (lang.strip_lower provider.label) ≡ true
      → Exhausts lang provider world f
      → (count is_call (take_turn lang latch t).events ≡ 1)
        × ((take_turn lang latch t).verdict.source ≡ exhausted_source)
        × All (Uncalled lang) (
            keep
              (of_account lang provider.label)
              (session lang (take_turn lang latch t).latch later))
  session_exhausted f later key on named e =
      let now = score-Exhausts f key on named e in
      (
        now.0,
        now.1,
        session-Uncalled lang provider.label (take_turn lang latch t).latch later now.2,
      )
