-- ===== src/Provider/Tests.antt =====
-- The providers at concrete failures.
use ai_trader.Base.{
  ℕ, ◌+◌, ◌*◌, ◌<◌, ◌↔◌, ◌≤◌, ◌≡◌, refl, arith, true, false, none, some, [], ◌∷◌, All, count, keep,
  String, ℤ, pos, fixed,
}
use ai_trader.Council.Vote.{exhausted_source}
use ai_trader.Provider.Health.{Language, Failure, transient, exhausted, classify, is_exhausted}
use ai_trader.Provider.Call.{
  Provider, World, failed, max_attempts, retry_backoff, min_retry_budget, call_with_retry,
}
use ai_trader.Provider.Call.Bounds.{is_call, WithinTime, call_with_retry_bounds}
use ai_trader.Provider.Call.Retry.{failure_kind, call_with_retry-twice_iff}
use ai_trader.Provider.Session.{Turn, take_turn, session}
use ai_trader.Provider.Session.Latching.{Uncalled, of_account}
use ai_trader.Provider.Session.Exhaustion.{Exhausts, session_exhausted}
use ai_trader.Provider.Session.Attempts.{FailsLate, score_attempts_overstated}

-- Labels and codes in lower case already, and none of the sentences
abbrev lang : Language
lang = record {
  strip_lower = λ s. s;
  mentions_exhaustion = λ s. false;
  mentions_transient = λ s. false;
  status_in = λ s. none;
}

abbrev failure : ℕ → String → Failure
failure status code = record {
  status = some status;
  body = some (record {
    error = some (record { type_text = none; code = some code; status = none });
    top = record { type_text = none; code = none; status = none };
    dumped = "";
  });
  text = "";
  message = "";
}

rate_limited : classify lang "openai" (failure 429 "rate_limit_exceeded") ≡ transient
unfolding classify
rate_limited = refl

out_of_quota : classify lang "openai" (failure 429 "insufficient_quota") ≡ exhausted
unfolding classify
out_of_quota = refl

abbrev openai : Provider
openai = record { name = "llm_primary"; label = "openai"; model_id = "gpt-5.5"; timeout = 30000 }

-- A clock that moves by `tick` milliseconds from one reading to the next
abbrev world : ℕ → Failure → World
world tick f = record { clock = λ k. k * tick; calls = λ n. failed f; now = "2026-07-27T03:30:00Z" }

abbrev turn : World → Turn ℤ
turn w = record {
  provider = openai;
  world = w;
  has_key = true;
  mock = record {
    model = "llm_primary";
    bias = pos 0;
    confidence = pos 0;
    edge = pos 0;
    verdict = "hold";
    rationale = "";
    source = "mock";
    model_id = "";
  };
  extract = λ s. none;
}

forward : (k : ℕ) → 0 * 1000 ≤ k * 1000
forward k = omega arith

call_with_retry_bounds_example :
    (count is_call (call_with_retry lang openai (world 1000 (failure 503 "overloaded")) []).events
      ≤ max_attempts)
    × All
        (WithinTime 30000)
        (call_with_retry lang openai (world 1000 (failure 503 "overloaded")) []).events
call_with_retry_bounds_example =
    call_with_retry_bounds lang openai (world 1000 (failure 503 "overloaded")) [] forward

call_with_retry-twice_iff_example :
    (count is_call (call_with_retry lang openai (world 1000 (failure 503 "overloaded")) []).events
      ≡ 2)
    ↔ ((1 * 1000 < 0 * 1000 + 30000)
        × (failure_kind lang openai
              (world 1000 (failure 503 "overloaded"))
              (failed (failure 503 "overloaded"))
            ≡ some transient)
        × (2 * 1000 + retry_backoff + min_retry_budget ≤ 0 * 1000 + 30000)
        × (3 * 1000 < 0 * 1000 + 30000))
call_with_retry-twice_iff_example =
    call_with_retry-twice_iff lang openai (world 1000 (failure 503 "overloaded")) []

no_quota :
    Exhausts lang openai
      (world 1000 (failure 429 "insufficient_quota"))
      (failure 429 "insufficient_quota")
unfolding classify
no_quota = record { in_time = omega arith; fails = refl; kind = refl }

not_yet : is_exhausted lang "openai" [] ≡ false
unfolding is_exhausted
not_yet = refl

session_exhausted_example :
    (let dry = turn (world 1000 (failure 429 "insufficient_quota")) in
      (count is_call (take_turn lang [] dry).events ≡ 1)
      × ((take_turn lang [] dry).verdict.source ≡ exhausted_source)
      × All (Uncalled lang) (
          keep
            (of_account lang "openai")
            (session lang (take_turn lang [] dry).latch (dry ∷ dry ∷ []))))
session_exhausted_example =
    session_exhausted lang [] (turn (world 1000 (failure 429 "insufficient_quota")))
      (failure 429 "insufficient_quota")
      (turn (world 1000 (failure 429 "insufficient_quota"))
        ∷ turn (world 1000 (failure 429 "insufficient_quota"))
        ∷ [])
      refl not_yet refl no_quota

slow : FailsLate lang openai (world 13000 (failure 503 "overloaded")) (failure 503 "overloaded")
unfolding classify
slow = record { in_time = omega arith; fails = refl; kind = refl; too_late = omega arith }

score_attempts_overstated_example :
    (count is_call (take_turn lang [] (turn (world 13000 (failure 503 "overloaded")))).events ≡ 1)
    × ((take_turn lang [] (turn (world 13000 (failure 503 "overloaded")))).attempts ≡ some 2)
score_attempts_overstated_example =
    score_attempts_overstated lang [] (turn (world 13000 (failure 503 "overloaded")))
      (failure 503 "overloaded") refl not_yet slow
