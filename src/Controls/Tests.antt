-- ===== src/Controls/Tests.antt =====
-- The control file under a few commands, over the shipped configuration of a small whitelist.
use ai_trader.Base.{
  true, false, none, some, List, [], ◌∷◌, String, ℤ, pos, negsuc, fixed, lt_ℤ, arith, ◌≡◌, refl,
}
use ai_trader.Controls.Commands.{
  Command, set_discovery, set_long_term, set_rl, set_budget, set_regime, change, Disk, run_commands,
}
use ai_trader.Controls.Defaults.{Setting, put, discovery_defaults, adaptive_defaults, defaults}
use ai_trader.Controls.Guards.{run_command-Guarded}
use ai_trader.Controls.NextReading.{effect, effects, run_command_next, run_commands_refines}
use ai_trader.Controls.Outcome.{Outside}
use ai_trader.Controls.Permission.{Guarded}
use ai_trader.Controls.Read.{read_discovery, pins_from, merged, read_controls}
use ai_trader.Controls.Setters.{change_long_term, change_rl, change_budget, change_regime}
use ai_trader.Controls.State.{
  Slot, llm_primary, llm_secondary, llm_tertiary, trending, max_survivors, State, narrowing,
}
use ai_trader.Controls.Rules.{IsAsymmetric, KeepsRules}
use ai_trader.Controls.RulesKept.{read_controls-KeepsRules}
use ai_trader.Controls.Valid.{Shipped}
use ai_trader.Controls.Validity.{Distinct}
use ai_trader.Controls.Values.{
  null, boolean, integer, text, block, Object, object, get, Conversions,
}

abbrev python : Conversions ℤ
python = record {
  truncate = λ x. x;
  int_of_text = λ s. none;
  float_of_int = λ n. n;
  float_of_text = λ s. none;
  is_zero = λ x. false;
}

abbrev model_id : Slot → String
model_id llm_primary = "gpt-5.5"
model_id llm_secondary = "claude-opus-4-8"
model_id llm_tertiary = "gemini-3.1-pro-preview"

abbrev env : Setting ℤ
env = record {
  python = python;
  config = λ name. [];
  model_id = model_id;
  whitelist = "SPY" ∷ "BTC/USD" ∷ [];
}

distinct : Distinct model_id
distinct = record { first_second = refl; first_third = refl; second_third = refl }

shipped : Shipped env
unfolding defaults discovery_defaults adaptive_defaults get fixed
shipped = record {
  narrows = record { survivors = omega arith; calls = omega arith };
  follows_feed = record { shaping = refl; react = refl };
  zero_one = refl;
  cent_one = refl;
}

lt_ℤ-IsAsymmetric : IsAsymmetric lt_ℤ
lt_ℤ-IsAsymmetric (pos m) (pos n) = ground arith
lt_ℤ-IsAsymmetric (pos m) (negsuc n) = refl
lt_ℤ-IsAsymmetric (negsuc m) (pos n) = refl
lt_ℤ-IsAsymmetric (negsuc m) (negsuc n) = ground arith

-- A file edited by hand beyond the bounds
abbrev fields : Object ℤ
fields =
    (
      "discovery",
      block (
          ("max_finalists", integer (pos 3))
          ∷ ("max_survivors", integer (pos 900))
          ∷ ("discovery_enabled", boolean true)
          ∷ []),
    )
    ∷ ("regime_pins", block (("SPY", text "trending") ∷ ("DOGE", text "neutral") ∷ []))
    ∷ []

abbrev disk : Disk ℤ
disk = record { file = object fields; log = [] }

abbrev found : State ℤ
found = merged env fields

abbrev outside : Outside
outside = record {
  finnhub_key = true;
  bridge_reachable = true;
  anthropic_key = false;
  real_fills = 10;
  rl_gate = 100;
  open_positions = 1;
  now = "2026-07-28T00:00:00Z";
  strip = λ s. s;
  lower = λ s. s;
}

abbrev commands : List (Outside × Command ℤ)
commands =
    (outside, set_rl true)
    ∷ (outside, set_budget (integer (pos 9000)) null)
    ∷ (outside, set_regime "SPY" (some "neutral"))
    ∷ (outside, set_long_term true)
    ∷ []

-- The finalists bound the survivors, and the whitelist the pins.
found_survivors : found.discovery.amount max_survivors ≡ 3
unfolding merged narrowing read_discovery get
found_survivors = refl

found_pins : found.regime_pins ≡ ("SPY", trending) ∷ []
unfolding merged pins_from put get
found_pins = refl

-- The budget is clamped; the long-term strategy is refused, its sleeve being off.
effects_budget :
    (effects env found commands).budget
    ≡ record { council_daily_budget = 500; per_symbol_cooldown_minutes = 0 }
unfolding effects change change_rl change_budget change_regime change_long_term merged get
effects_budget = refl

effects_long_term : (effects env found commands).discovery.long_term_sleeve_enabled ≡ false
unfolding effects change change_rl change_budget change_regime change_long_term merged get
    read_discovery narrowing defaults discovery_defaults
effects_long_term = refl

reads : read_controls env disk.file ≡ some found
unfolding read_controls
reads = refl

read_controls-KeepsRules_example : KeepsRules env found
unfolding fixed
read_controls-KeepsRules_example =
    read_controls-KeepsRules env disk.file found lt_ℤ-IsAsymmetric shipped reads

run_commands_refines_example :
    read_controls env (run_commands env disk commands).file ≡ some (effects env found commands)
run_commands_refines_example = run_commands_refines env disk commands found shipped distinct reads

run_command-Guarded_example : Guarded outside found (effect env found outside (set_discovery true))
run_command-Guarded_example =
    run_command-Guarded env outside disk (set_discovery true) found
      (effect env found outside (set_discovery true)) shipped distinct reads
      (run_command_next env disk outside (set_discovery true) found shipped distinct reads)
