-- ===== src/Watchdog/Guard.antt =====
-- When the watchdog touches the stack, and when it must not.
use ai_trader.Base.{
  ◌≡◌, ◌↔◌, Bool, true, false, ◌||◌, arith, List, [], ◌∷◌, ◌++◌, any, any-append_none, if-cases,
  ◌⊎◌, String, ap, sym, subst, ◌∙◌, if◌then◌else◌, Bool-cases, inl, inr,
}
use ai_trader.Watchdog.{
  Config, Env, World, Cycle, Effect, Action, kill_notified, restarted, restart_failed, stop_stack,
  start_stack, in_grace, held, rate_capped, run_once, unhealthy_cycle, note_unavailable,
  note_universe, notify, grace_observed, log_grace, kill_notice, healthy_cycle, hold_cycle,
  restart_cycle, is_nil, log_out_of_window,
}

-- The cycle attempted a restart.
abbrev pub attempted : Action → Bool
attempted restarted = true
attempted restart_failed = true
attempted _ = false

-- The effect stops or starts the stack.
abbrev pub touches : Effect → Bool
touches stop_stack = true
touches start_stack = true
touches _ = false

note_unavailable-file : (env : Env) (w : World) → (note_unavailable env w).0.file ≡ w.file
unfolding note_unavailable
note_unavailable-file env w = ground arith

note_universe-file :
    (cfg : Config) (env : Env) (w : World) → (note_universe cfg env w).0.file ≡ w.file
unfolding note_universe
note_universe-file cfg env w = ground arith

note_unavailable-touches : (env : Env) (w : World) → any touches (note_unavailable env w).1 ≡ false
unfolding note_unavailable
note_unavailable-touches env w = ground arith

note_universe-touches :
    (cfg : Config) (env : Env) (w : World) → any touches (note_universe cfg env w).1 ≡ false
unfolding note_universe
note_universe-touches cfg env w = ground arith

-- What the two notes leave of the world: the file.
unfoldable pub noted_world : Config → Env → World → World
noted_world cfg env w = (note_universe cfg env (note_unavailable env w).0).0

pub noted_world-file :
    (cfg : Config) (env : Env) (w : World) → (noted_world cfg env w).file ≡ w.file
unfolding noted_world
noted_world-file cfg env w =
    ground
      (arith, note_universe-file cfg env (note_unavailable env w).0, note_unavailable-file env w)

unhealthy_cycle-attempted_iff :
    (cfg : Config) (env : Env) (w : World) (es : List Effect)
    → (attempted (unhealthy_cycle cfg env w es).action ≡ true) ↔ (
        (in_grace cfg env ≡ false)
        × (held cfg env w.file ≡ false)
        × (rate_capped cfg env w.file ≡ false))
unfolding unhealthy_cycle hold_cycle restart_cycle
unhealthy_cycle-attempted_iff cfg env w es = (λ h. ground arith, λ h. ground arith)

abbrev pub window_line : List String → List Effect
window_line names = if is_nil names then [] else log_out_of_window ∷ []

-- The log lines of a cycle that come before its decision
unfoldable pub noted_effects : Config → Env → World → List Effect
noted_effects cfg env w =
    (note_unavailable env w).1
    ++ window_line env.health.out_of_window_non_real
    ++ (note_universe cfg env (note_unavailable env w).0).1

-- The cycle of an unhealthy stack without a kill trip is the unhealthy branch.
pub run_once_unhealthy :
    (cfg : Config) (env : Env) (w : World)
    → env.health.kill_tripped ≡ false
    → env.health.healthy ≡ false
    → run_once cfg env w ≡ unhealthy_cycle cfg env (noted_world cfg env w) (noted_effects cfg env w)
unfolding run_once noted_world noted_effects
run_once_unhealthy cfg env w k u = ground arith

pub run_once_healthy :
    (cfg : Config) (env : Env) (w : World)
    → env.health.kill_tripped ≡ false
    → env.health.healthy ≡ true
    → run_once cfg env w ≡ healthy_cycle env (noted_world cfg env w) (noted_effects cfg env w)
unfolding run_once noted_world noted_effects
run_once_healthy cfg env w k u = ground arith

pub run_once_killed :
    (cfg : Config) (env : Env) (w : World)
    → env.health.kill_tripped ≡ true
    → run_once cfg env w ≡ record {
      world = noted_world cfg env w;
      action = kill_notified;
      effects = noted_effects cfg env w ++ notify kill_notice ∷ [];
    }
unfolding run_once noted_world noted_effects
run_once_killed cfg env w k = ground arith

pub run_once-attempted_iff :
    (cfg : Config) (env : Env) (w : World)
    → (attempted (run_once cfg env w).action ≡ true) ↔ (
        (env.health.kill_tripped ≡ false)
        × (env.health.healthy ≡ false)
        × (in_grace cfg env ≡ false)
        × (held cfg env w.file ≡ false)
        × (rate_capped cfg env w.file ≡ false))
run_once-attempted_iff cfg env w = elim (Bool-cases env.health.kill_tripped) [
  | inl k ↦ (
    λ h. cc (h, ap (λ c. attempted c.action) (run_once_killed cfg env w k)),
    λ (k', _, _, _, _). cc (k, k'),
  )
  | inr k ↦ elim (Bool-cases env.health.healthy) [
    | inl u ↦ (
      λ h. cc (h, ap (λ c. attempted c.action) (run_once_healthy cfg env w k u)),
      λ (_, u', _, _, _). cc (u, u'),
    )
    | inr u ↦ unhealthy k u
  ]
]
  where
    unhealthy :
        env.health.kill_tripped ≡ false
        → env.health.healthy ≡ false
        → (attempted (run_once cfg env w).action ≡ true) ↔ (
            (env.health.kill_tripped ≡ false)
            × (env.health.healthy ≡ false)
            × (in_grace cfg env ≡ false)
            × (held cfg env w.file ≡ false)
            × (rate_capped cfg env w.file ≡ false))
    unhealthy k u =
        let w' = noted_world cfg env w in
        let (to, from) = unhealthy_cycle-attempted_iff cfg env w' (noted_effects cfg env w) in
        let eq = ap (λ c. attempted c.action) (run_once_unhealthy cfg env w k u) in
        let file = noted_world-file cfg env w in
        (
          λ h.
              let (g, hd, rc) = to (sym eq ∙ h) in
              (
                k,
                u,
                g,
                subst (λ f. held cfg env f ≡ false) file hd,
                subst (λ f. rate_capped cfg env f ≡ false) file rc,
              ),
          λ (_, _, g, hd, rc).
              eq
              ∙ from (
                g,
                subst (λ f. held cfg env f ≡ false) (sym file) hd,
                subst (λ f. rate_capped cfg env f ≡ false) (sym file) rc,
              ),
        )

window_line-touches : (names : List String) → any touches (window_line names) ≡ false
window_line-touches names = ground arith

pub noted_effects-touches :
    (cfg : Config) (env : Env) (w : World) → any touches (noted_effects cfg env w) ≡ false
unfolding noted_effects
noted_effects-touches cfg env w =
    let logged = (note_unavailable env w).1 in
    let window = window_line env.health.out_of_window_non_real in
    any-append_none touches (logged ++ window) (note_universe cfg env (note_unavailable env w).0).1
      (any-append_none touches logged window (note_unavailable-touches env w)
        (window_line-touches env.health.out_of_window_non_real))
      (note_universe-touches cfg env (note_unavailable env w).0)

-- An unhealthy cycle waits in the grace, holds, or restarts.
pub unhealthy_cycle-cases :
    (cfg : Config) (env : Env) (w : World) (es : List Effect)
    → (unhealthy_cycle cfg env w es
        ≡ record { world = w; action = grace_observed; effects = es ++ log_grace ∷ [] })
      ⊎ ((unhealthy_cycle cfg env w es ≡ hold_cycle cfg env w es)
          ⊎ (unhealthy_cycle cfg env w es ≡ restart_cycle env w es))
unfolding unhealthy_cycle
unhealthy_cycle-cases cfg env w es = elim (if-cases (in_grace cfg env) grace rest) [
  | inl e ↦ inl e
  | inr e ↦ elim (if-cases (held cfg env w.file || rate_capped cfg env w.file) held_back again) [
    | inl f ↦ inr (inl (e ∙ f))
    | inr f ↦ inr (inr (e ∙ f))
  ]
]
  where
    grace : Cycle
    grace = record { world = w; action = grace_observed; effects = es ++ log_grace ∷ [] }

    held_back : Cycle
    held_back = hold_cycle cfg env w es

    again : Cycle
    again = restart_cycle env w es

    rest : Cycle
    rest = if held cfg env w.file || rate_capped cfg env w.file then held_back else again
