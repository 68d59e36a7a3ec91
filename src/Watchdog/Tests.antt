-- ===== src/Watchdog/Tests.antt =====
-- The watchdog's theorems at concrete cycles.
use ai_trader.Base.{ℕ, ◌≤◌, ◌≡◌, refl, true, false, arith, none, some, List, [], ◌∷◌, count, any}
use ai_trader.Watchdog.{
  bridge_ok, Health, Config, answer, Env, World, restarted, condition_key, in_grace,
  attempt_restart, run_once, note_unavailable, note_universe,
}
use ai_trader.Watchdog.Guard.{attempted, touches}
use ai_trader.Watchdog.Escalation.{run_once-touches}
use ai_trader.Watchdog.Degraded.{decided, with_universe, run_once_universe}
use ai_trader.Watchdog.RateCap.{restart_times, in_hour, restart_times_capped}
use ai_trader.Watchdog.Loop.{attempts_in, any_true, attempts_in_window}

abbrev stale : Health
stale = record {
  engine = true;
  bridge = true;
  bridge_status = bridge_ok;
  backend = true;
  feed_fresh = false;
  feed_substitution = false;
  symbol_unavailable = [];
  out_of_window_non_real = [];
  universe_degraded = false;
  kill_tripped = false;
  healthy = false;
}

abbrev well : Health
well = record stale { feed_fresh = true; healthy = true }

abbrev config : Config
config = record { startup_grace = 900; hold_window = 1800; max_restarts_per_hour = 3 }

-- A cycle at a time, of an engine that is an hour old
abbrev at_time : Health → ℕ → Env
at_time health now = record {
  health = health;
  now = now;
  engine_age = some 3600;
  stack_running = true;
  stop = answer true;
  start = answer true;
  start_state_known = true;
  save_works = true;
}

abbrev fresh : World
fresh = record { file = none; unavailable_logged = []; universe_degraded = false; universe_ts = 0 }

stale_restarts : (run_once config (at_time stale 10000) fresh).action ≡ restarted
unfolding run_once attempt_restart note_unavailable note_universe
stale_restarts = refl

run_once_universe_example :
    decided (run_once config (with_universe true (at_time stale 10000)) fresh)
    ≡ decided (run_once config (at_time stale 10000) fresh)
run_once_universe_example = run_once_universe config (at_time stale 10000) fresh true

-- A cycle a minute after the engine started
abbrev young : Env
young = record (at_time stale 10000) { engine_age = some 60 }

young_waits : attempted (run_once config young fresh).action ≡ false
unfolding run_once note_unavailable note_universe in_grace
young_waits = refl

run_once-touches_example : any touches (run_once config young fresh).effects ≡ false
run_once-touches_example = run_once-touches config young fresh young_waits

abbrev later_cycles : List Env
later_cycles = at_time stale 10300 ∷ at_time stale 10600 ∷ []

restart_times_capped_example :
    count (in_hour 10600) (restart_times config (at_time stale 10000 ∷ later_cycles) fresh) ≤ 3
restart_times_capped_example =
    restart_times_capped config (at_time stale 10000 ∷ later_cycles) fresh 10600 0
      (refl, refl, omega arith, (refl, refl, omega arith, (refl, refl, omega arith, tt))) refl

attempts_in_window_example :
    any_true (attempts_in config later_cycles (run_once config (at_time stale 10000) fresh).world)
    ≡ false
unfolding run_once condition_key attempt_restart note_unavailable note_universe
attempts_in_window_example =
    attempts_in_window config (at_time stale 10000) later_cycles fresh refl refl (λ e. cc e)
      (refl, refl, omega arith, (refl, refl, omega arith, tt))
