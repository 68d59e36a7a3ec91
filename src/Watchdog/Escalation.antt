-- ===== src/Watchdog/Escalation.antt =====
-- The guard against a restart loop: what a cycle that attempts no restart leaves alone, and the
-- escalation of a condition that a restart did not cure.
use ai_trader.Base.{
  ◌≡◌, ◌↔◌, ap, sym, ◌∙◌, true, false, arith, List, [], ◌∷◌, any, any-append, Bool-cases, ◌⊎◌, inl,
  inr,
}
use ai_trader.Watchdog.{
  Config, Env, World, Effect, attempt_restart, did_restart, start_stack_now, run_once,
  unhealthy_cycle, hold_cycle, restart_cycle, healthy_cycle, kill_notified, kill_notice, notify,
  log_grace, hold_notice, recovered, answer,
}
use ai_trader.Watchdog.Guard.{
  attempted, touches, noted_world, noted_world-file, noted_effects, run_once_killed,
  run_once_healthy, run_once_unhealthy, noted_effects-touches,
}

-- A tripped kill switch is only reported: the guard's file is as it was, and the stack is left
-- alone.
pub run_once_kill_trip :
    (cfg : Config) (env : Env) (w : World)
    → env.health.kill_tripped ≡ true
    → ((run_once cfg env w).action ≡ kill_notified)
      × ((run_once cfg env w).world.file ≡ w.file)
      × (any touches (run_once cfg env w).effects ≡ false)
run_once_kill_trip cfg env w k =
    let eq = run_once_killed cfg env w k in
    (
      ap (λ c. c.action) eq,
      ap (λ c. c.world.file) eq ∙ noted_world-file cfg env w,
      ap (λ c. any touches c.effects) eq
          ∙ ground (
            arith,
            any-append touches (noted_effects cfg env w) (notify kill_notice ∷ []),
            noted_effects-touches cfg env w,
          ),
    )

unhealthy_cycle-touches :
    (cfg : Config) (env : Env) (w : World) (es : List Effect)
    → any touches es ≡ false
    → attempted (unhealthy_cycle cfg env w es).action ≡ false
    → any touches (unhealthy_cycle cfg env w es).effects ≡ false
unfolding unhealthy_cycle hold_cycle restart_cycle
unhealthy_cycle-touches cfg env w es e h = ground (
  arith,
  any-append touches es (log_grace ∷ []),
  any-append touches es (notify hold_notice ∷ []),
  any-append touches es [],
)

healthy_cycle-touches :
    (env : Env) (w : World) (es : List Effect)
    → any touches es ≡ false
    → any touches (healthy_cycle env w es).effects ≡ false
healthy_cycle-touches env w es e =
    ground (arith, any-append touches es (notify recovered ∷ []), any-append touches es [])

-- A cycle that attempts no restart neither stops nor starts the stack.
pub run_once-touches :
    (cfg : Config) (env : Env) (w : World)
    → attempted (run_once cfg env w).action ≡ false
    → any touches (run_once cfg env w).effects ≡ false
run_once-touches cfg env w h = elim (Bool-cases env.health.kill_tripped) [
  | inl k ↦ (run_once_kill_trip cfg env w k).2
  | inr k ↦ elim (Bool-cases env.health.healthy) [
    | inl u ↦
        ap (λ c. any touches c.effects) (run_once_healthy cfg env w k u)
        ∙ healthy_cycle-touches env (noted_world cfg env w) (noted_effects cfg env w) noted
    | inr u ↦
        let eq = run_once_unhealthy cfg env w k u in
        ap (λ c. any touches c.effects) eq
        ∙ unhealthy_cycle-touches cfg env (noted_world cfg env w) (noted_effects cfg env w) noted
            (sym (ap (λ c. attempted c.action) eq) ∙ h)
  ]
]
  where
    noted : any touches (noted_effects cfg env w) ≡ false
    noted = noted_effects-touches cfg env w

-- A restart starts the stack only when it is down or a stop was accepted, and it succeeds only on
-- an accepted start whose state is known.
pub attempt_restart-success_iff :
    (env : Env)
    → (did_restart (attempt_restart env) ≡ true) ↔ (
        ((env.stack_running ≡ false) ⊎ (env.stop ≡ answer true))
        × (env.start ≡ answer true)
        × (env.start_state_known ≡ true))
unfolding attempt_restart start_stack_now
attempt_restart-success_iff env = (λ h. grind arith, λ h. grind arith)
