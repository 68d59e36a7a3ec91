-- ===== src/Watchdog.antt =====
-- ops/watchdog.py: one cycle of the watchdog, `run_once`, with the guards that keep it from looping,
-- and `attempt_restart`. Times are whole ticks of one clock. What the outside answers in a cycle
-- (the probes, the clock, the supervisor, whether a file could be written) is the record `Env`.
pub mod Guard
pub mod Escalation
pub mod Loop
pub mod RateCap
pub mod Feed
pub mod Check
pub mod Degraded
mod Tests
mod State
unfoldable pub use State.*
use ai_trader.Base.{
  ℕ, zero, suc, ◌+◌, ◌-◌, Bool, true, false, Option, none, some, ◌&&◌, ◌||◌, not, ltb, leb, ◌==◌,
  if◌then◌else◌, List, [], ◌∷◌, ◌++◌, keep, any, all, length, String, str_eq, is_some,
}

-- `capture_before_restart`: the conditions that leave evidence
abbrev pub captures : Health → Bool
captures h =
    is_degraded h.bridge_status
    || h.feed_substitution
    || not h.engine
    || not h.bridge
    || not h.backend

-- `attempt_restart`: whether it restarted the stack, and what it did
pub data Restart : Type 0 where
  outcome : Bool → List Effect → Restart

abbrev pub did_restart : Restart → Bool
did_restart (outcome b _) = b

abbrev pub restart_effects : Restart → List Effect
restart_effects (outcome _ es) = es

-- The start: success is an accepted start with a known state, never a state alone
start_stack_now : Env → List Effect → Restart
start_stack_now env before = elim env.start [
  | unreachable ↦ outcome false (before ++ self_heal ∷ start_stack ∷ [])
  | answer ok ↦ outcome (ok && env.start_state_known) (before ++ self_heal ∷ start_stack ∷ [])
]

unfoldable pub attempt_restart : Env → Restart
unfolding start_stack_now
attempt_restart env = if not env.stack_running then start_stack_now env [] else elim env.stop [
  | unreachable ↦ outcome false []
  | answer ok ↦
      if not ok then outcome false (stop_stack ∷ []) else start_stack_now env (stop_stack ∷ [])
]

-- `set(a) != set(b)`
abbrev pub same_set : List String → List String → Bool
same_set a b = all (λ x. any (str_eq x) b) a && all (λ x. any (str_eq x) a) b

abbrev pub is_nil : List String → Bool
is_nil [] = true
is_nil (_ ∷ _) = false

pub note_unavailable : Env → World → World × List Effect
note_unavailable env w =
    if same_set env.health.symbol_unavailable w.unavailable_logged then (w, []) else (
      record w { unavailable_logged = env.health.symbol_unavailable },
      (if is_nil env.health.symbol_unavailable then log_resolved else log_unavailable) ∷ [],
    )

-- `_note_universe`
pub note_universe : Config → Env → World → World × List Effect
note_universe cfg env w =
    if not env.health.universe_degraded
    then (if w.universe_degraded
        then (
          record w { universe_degraded = false; universe_ts = env.now },
          notify universe_recovered ∷ [],
        )
        else (w, []))
    else if not w.universe_degraded || leb (w.universe_ts + cfg.hold_window) env.now
    then (record w { universe_degraded = true; universe_ts = env.now }, notify universe_empty ∷ [])
    else (w, [])

abbrev pub condition_of : Option GuardState → Option Condition
condition_of none = none
condition_of (some st) = st.condition

abbrev pub is_condition : Option Condition → Condition → Bool
is_condition none c = false
is_condition (some d) c = same_condition d c

abbrev pub holding_of : Option GuardState → Bool
holding_of none = false
holding_of (some st) = st.holding

abbrev pub history_of : Option GuardState → List ℕ
history_of none = []
history_of (some st) = st.restart_history

abbrev pub last_restart_of : Option GuardState → Option ℕ
last_restart_of none = none
last_restart_of (some st) = st.last_restart_ts

abbrev pub or_number : ℕ → Option ℕ → ℕ
or_number d none = d
or_number d (some n) = n

abbrev pub attempts_of : ℕ → Option GuardState → ℕ
attempts_of d none = d
attempts_of d (some st) = or_number d st.attempts

abbrev pub last_note_of : Option GuardState → ℕ
last_note_of none = 0
last_note_of (some st) = or_number 0 st.last_hold_notify_ts

-- `now - t <= 3600.0`
abbrev pub within_hour : ℕ → ℕ → Bool
within_hour now t = leb (now - t) 3600

abbrev pub recent_history : ℕ → Option GuardState → List ℕ
recent_history now file = keep (within_hour now) (history_of file)

-- `st.get("last_restart_ts") and now - float(st["last_restart_ts"]) <= hold_window`
abbrev pub restarted_within : ℕ → ℕ → Option ℕ → Bool
restarted_within window now none = false
restarted_within window now (some t) = not (t == 0) && leb (now - t) window

pub held : Config → Env → Option GuardState → Bool
held cfg env file =
    is_condition (condition_of file) (condition_key env.health)
    && (holding_of file || restarted_within cfg.hold_window env.now (last_restart_of file))

pub rate_capped : Config → Env → Option GuardState → Bool
rate_capped cfg env file = leb cfg.max_restarts_per_hour (length (recent_history env.now file))

-- `_save_state`, which does nothing where the file cannot be written; `_clear_state` likewise
abbrev pub save_state : Env → GuardState → World → World
save_state env st w = if env.save_works then record w { file = some st } else w

-- The startup grace: a feed-only condition on a young engine
abbrev pub in_grace : Config → Env → Bool
in_grace cfg env =
    env.health.engine && env.health.bridge && env.health.backend && young env.engine_age
  where
    young : Option ℕ → Bool
    young none = false
    young (some age) = ltb age cfg.startup_grace

-- Escalation: notify when it is due, and leave the stack as it is
pub hold_cycle : Config → Env → World → List Effect → Cycle
hold_cycle cfg env w effects =
    let due = not (holding_of w.file) || leb (last_note_of w.file + cfg.hold_window) env.now in
    record {
      world =
          save_state env
            (record {
              condition = some (condition_key env.health);
              holding = true;
              attempts = some (attempts_of 1 w.file);
              last_restart_ts = last_restart_of w.file;
              restart_history = recent_history env.now w.file;
              last_hold_notify_ts = some (if due then env.now else last_note_of w.file);
            })
            w;
      action = hold;
      effects = effects ++ (if due then notify hold_notice ∷ [] else []);
    }

-- One restart attempt, recorded whether or not it succeeds
pub restart_cycle : Env → World → List Effect → Cycle
restart_cycle env w effects =
    let r = attempt_restart env in
    let cond = condition_key env.health in
    record {
      world =
          save_state env
            (record {
              condition = some cond;
              holding = false;
              attempts =
                  some (
                    if is_condition (condition_of w.file) cond
                    then attempts_of 0 w.file + 1
                    else 1);
              last_restart_ts = some env.now;
              restart_history = recent_history env.now w.file ++ env.now ∷ [];
              last_hold_notify_ts = some 0;
            })
            w;
      action = if did_restart r then restarted else restart_failed;
      effects =
          effects
          ++ (if captures env.health then capture_evidence ∷ [] else [])
          ++ restart_effects r
          ++ (journal_restart
              ∷ notify (if did_restart r then restarted_notice else stack_down_notice)
              ∷ []);
    }

-- The branches of an unhealthy stack
pub unhealthy_cycle : Config → Env → World → List Effect → Cycle
unfolding held rate_capped hold_cycle restart_cycle
unhealthy_cycle cfg env w effects =
    if in_grace cfg env
    then record { world = w; action = grace_observed; effects = effects ++ log_grace ∷ [] }
    else if held cfg env w.file || rate_capped cfg env w.file
    then hold_cycle cfg env w effects
    else restart_cycle env w effects

-- A healthy stack releases the guard
abbrev pub healthy_cycle : Env → World → List Effect → Cycle
healthy_cycle env w effects = record {
  world = record w { file = if env.save_works then none else w.file };
  action = nothing;
  effects = effects ++ (if holding_of w.file then notify recovered ∷ [] else []);
}

unfoldable pub run_once : Config → Env → World → Cycle
unfolding unhealthy_cycle
run_once cfg env w0 =
    let (w1, logged) = note_unavailable env w0 in
    let (w, noted) = note_universe cfg env w1 in
    let effects =
      logged
      ++ (if is_nil env.health.out_of_window_non_real then [] else log_out_of_window ∷ [])
      ++ noted in
    if env.health.kill_tripped
    then record { world = w; action = kill_notified; effects = effects ++ notify kill_notice ∷ [] }
    else if env.health.healthy
    then healthy_cycle env w effects
    else unhealthy_cycle cfg env w effects
