-- ===== src/Watchdog/State.antt =====
-- ops/watchdog.py: what a cycle of the watchdog reads, keeps and reports, and `_condition_key`.
use ai_trader.Base.{ℕ, Bool, true, false, Option, not, if◌then◌else◌, List, String}

pub data BridgeStatus : Type 0 where
  bridge_ok bridge_degraded bridge_down : BridgeStatus

-- The names that `_condition_key` gives
pub data Condition : Type 0 where
  degraded_bridge feed_substitution engine_down bridge_unreachable backend_down : Condition
  feed_stale unhealthy : Condition

pub Condition-discrete : Discrete Condition
Condition-discrete = hlevel

-- `a == b` on conditions
abbrev pub same_condition : Condition → Condition → Bool
same_condition a b = elim (Condition-discrete a b) [ yes _ ↦ true | no _ ↦ false ]

-- The keys of `check_health` that the cycle reads
pub record Health : Type 0 where
  pub engine : Bool
  pub bridge : Bool
  pub bridge_status : BridgeStatus
  pub backend : Bool
  pub feed_fresh : Bool
  pub feed_substitution : Bool
  pub symbol_unavailable : List String
  pub out_of_window_non_real : List String
  pub universe_degraded : Bool
  pub kill_tripped : Bool
  pub healthy : Bool

-- watchdog_state.json, when it holds a dict that is not empty
pub record GuardState : Type 0 where
  pub condition : Option Condition
  pub holding : Bool
  pub attempts : Option ℕ
  pub last_restart_ts : Option ℕ
  pub restart_history : List ℕ
  pub last_hold_notify_ts : Option ℕ

pub record Config : Type 0 where
  pub startup_grace : ℕ
  pub hold_window : ℕ
  pub max_restarts_per_hour : ℕ

-- The supervisor's answer to a POST: no answer, or its `ok`
pub data Post : Type 0 where
  unreachable : Post
  answer : Bool → Post

pub record Env : Type 0 where
  pub health : Health
  pub now : ℕ
  pub engine_age : Option ℕ
  pub stack_running : Bool
  pub stop : Post
  pub start : Post
  pub start_state_known : Bool
  pub save_works : Bool

pub data Notice : Type 0 where
  kill_notice recovered hold_notice restarted_notice stack_down_notice : Notice
  universe_recovered universe_empty : Notice

pub data Effect : Type 0 where
  notify : Notice → Effect
  stop_stack self_heal start_stack : Effect
  capture_evidence journal_restart : Effect
  log_unavailable log_resolved log_out_of_window log_grace : Effect

pub data Action : Type 0 where
  kill_notified nothing grace_observed hold restarted restart_failed : Action

-- What a cycle keeps: the file and the two module variables
pub record World : Type 0 where
  pub file : Option GuardState
  pub unavailable_logged : List String
  pub universe_degraded : Bool
  pub universe_ts : ℕ

pub record Cycle : Type 0 where
  pub world : World
  pub action : Action
  pub effects : List Effect

abbrev pub is_degraded : BridgeStatus → Bool
is_degraded bridge_degraded = true
is_degraded _ = false

unfoldable pub condition_key : Health → Condition
condition_key h =
    if is_degraded h.bridge_status
    then degraded_bridge
    else if h.feed_substitution
    then Condition.feed_substitution
    else if not h.engine
    then engine_down
    else if not h.bridge
    then bridge_unreachable
    else if not h.backend
    then backend_down
    else if not h.feed_fresh
    then feed_stale
    else unhealthy
