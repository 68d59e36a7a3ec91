-- ===== src/Council/Gate.antt =====
-- llm_consensus/gate.py and discovery/gate.py: the cheap screens before the paid council. The HTTP
-- call is not modelled: what it came to is a `Screen`.
use ai_trader.Base.{
  ◌≡◌, ◌↔◌, Bool, true, false, arith, Option, none, some, String, str_append, str_take, is_text,
  if◌then◌else◌,
}

pub record GateDecision : Type 0 where
  pub proceed : Bool
  pub reason : String
  pub model : String
  pub source : String

-- What a gate's call came to: no key to call with, a call that raised, a reply without a JSON
-- object, or the object's `proceed`, `review` and `reason`
pub data Screen : Type 0 where
  no_key unparseable : Screen
  failed : String → Screen
  parsed : Option Bool → Option Bool → String → Screen

abbrev pub or_true : Option Bool → Bool
or_true none = true
or_true (some b) = b

-- `bool(obj.get("proceed", obj.get("review", True)))`
abbrev pub proceeds : Option Bool → Option Bool → Bool
proceeds none review = or_true review
proceeds (some b) review = b

-- `str(reason)[:200] or default`
abbrev pub reason_or : String → String → String
reason_or text default = let cut = str_take 200 text in if is_text cut then cut else default

-- `HaikuGate.should_review`
unfoldable pub should_review : String → Screen → GateDecision
should_review model no_key = record {
  proceed = true;
  reason = "no ANTHROPIC_API_KEY: permissive mock gate (proceed)";
  model = model;
  source = "mock";
}
should_review model (failed e) = record {
  proceed = false;
  reason = str_take 200 (str_append "gate unavailable, refusing the paid council: " e);
  model = model;
  source = "error_failed_closed";
}
should_review model unparseable = record {
  proceed = false;
  reason = "gate output unparseable, refusing the paid council";
  model = model;
  source = "error_failed_closed";
}
should_review model (parsed p r text) = record {
  proceed = proceeds p r;
  reason =
      reason_or text (if proceeds p r then "worth a full review" else "skip: low-signal setup");
  model = model;
  source = "real";
}

-- `DiscoveryGate.should_review`, whose text of a failure is the name of the exception's type
unfoldable pub discovery_review : String → Screen → GateDecision
discovery_review model no_key = record {
  proceed = true;
  reason = "no ANTHROPIC_API_KEY: permissive mock gate (proceed)";
  model = model;
  source = "mock";
}
discovery_review model (failed e) = record {
  proceed = true;
  reason = str_append "gate error, proceeding: " e;
  model = model;
  source = "error";
}
discovery_review model unparseable = record {
  proceed = true;
  reason = "gate output unparseable, proceeding";
  model = model;
  source = "error";
}
discovery_review model (parsed p r text) = record {
  proceed = proceeds p r;
  reason =
      reason_or text (if proceeds p r then "worth a full review" else "skip: quiet instrument");
  model = model;
  source = "real";
}

-- `PriorScreenGate.should_review`: the decision of stage B, carried forward
unfoldable pub prior_screen : Option GateDecision → GateDecision
prior_screen none = record {
  proceed = true;
  reason = "stage B gate failed open, this candidate was not screened";
  model = "";
  source = "stage_b_failed_open";
}
prior_screen (some d) = record {
  proceed = d.proceed;
  reason = str_take 200 (str_append "screened at stage B: " d.reason);
  model = d.model;
  source = str_append "stage_b_" d.source;
}

-- The screen was not answered.
abbrev pub unanswered : Screen → Bool
unanswered (failed e) = true
unanswered unparseable = true
unanswered _ = false

-- The council's gate lets a candidate through exactly when there is no key or the answer says so:
-- a call that raised or could not be read releases no paid round.
pub should_review-proceed_iff :
    (model : String) (s : Screen)
    → ((should_review model s).proceed ≡ true)
      ↔ ((unanswered s ≡ false) × ((discovery_review model s).proceed ≡ true))
unfolding should_review discovery_review
should_review-proceed_iff model s = (λ h. ground arith, λ h. ground arith)
