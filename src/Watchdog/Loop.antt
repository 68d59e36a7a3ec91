-- ===== src/Watchdog/Loop.antt =====
-- No restart loop: after a restart that did not cure a condition, the watchdog holds.
use ai_trader.Base.{
  ℕ, ◌-◌, ◌≤◌, ◌≡◌, ◌≢◌, refl, ap, sym, subst, ◌∙◌, Bool, true, false, ◌||◌, arith, Option, some,
  List, [], ◌∷◌, ◌++◌, if◌then◌else◌, Bool-cases, ◌⊎◌, inl, inr, if-cases,
}
use ai_trader.Watchdog.{
  Config, Env, World, Cycle, Effect, GuardState, Condition, Condition-discrete, same_condition,
  condition_key, condition_of, holding_of, last_restart_of, in_grace, held, rate_capped, run_once,
  unhealthy_cycle, hold_cycle, restart_cycle, grace_observed, log_grace, restarted_within,
}
use ai_trader.Watchdog.Guard.{
  attempted, noted_world, noted_world-file, noted_effects, run_once_killed, run_once_unhealthy,
  unhealthy_cycle-cases, run_once-attempted_iff,
}

abbrev pub any_true : List Bool → Bool
any_true [] = false
any_true (b ∷ bs) = b || any_true bs

-- The cycles that attempt a restart in a run
abbrev pub attempts_in : Config → List Env → World → List Bool
attempts_in cfg [] w = []
attempts_in cfg (env ∷ envs) w =
    attempted (run_once cfg env w).action ∷ attempts_in cfg envs (run_once cfg env w).world

-- A run that stays on the condition `c`, unhealthy, within the hold window after `t`
abbrev pub StaysOn : Config → Condition → ℕ → List Env → Type 0
StaysOn cfg c t [] = Unit
StaysOn cfg c t (env ∷ envs) =
    (env.health.healthy ≡ false)
    × (condition_key env.health ≡ c)
    × (env.now - t ≤ cfg.hold_window)
    × StaysOn cfg c t envs

-- The file holds the condition `c`, or records a restart for it at `t`.
abbrev Guarded : Condition → ℕ → Option GuardState → Type 0
Guarded c t file =
    (condition_of file ≡ some c) × ((holding_of file ≡ true) ⊎ (last_restart_of file ≡ some t))

same_condition_refl : (c : Condition) → same_condition c c ≡ true
same_condition_refl c =
    elim (Condition-discrete c c) as (λ d. elim d [ yes _ ↦ true | no _ ↦ false ] ≡ true) [
      | yes _ ↦ refl
      | no differs ↦ absurd (differs refl)
    ]

restarted_within_now :
    (window now t : ℕ) → now - t ≤ window → t ≢ 0 → restarted_within window now (some t) ≡ true
restarted_within_now window now t le nz = ground arith

Guarded-held :
    (cfg : Config) (env : Env) (c : Condition) (t : ℕ) (file : Option GuardState)
    → condition_key env.health ≡ c
    → env.now - t ≤ cfg.hold_window
    → t ≢ 0
    → Guarded c t file
    → held cfg env file ≡ true
unfolding held
Guarded-held cfg env c t file k le nz (cond, why) = rw cond (
    rw k (
      rw (same_condition_refl c) (elim why [
        | inl holding ↦ rw holding refl
        | inr restarted ↦
            rw restarted (ground (arith, restarted_within_now cfg.hold_window env.now t le nz))
      ])))

hold_cycle-Guarded :
    (cfg : Config) (env : Env) (w : World) (es : List Effect) (t : ℕ)
    → Guarded (condition_key env.health) t w.file
    → Guarded (condition_key env.health) t (hold_cycle cfg env w es).world.file
unfolding hold_cycle
hold_cycle-Guarded cfg env w es t g = elim (Bool-cases env.save_works) [
  | inl s ↦ rw s (refl, inl refl)
  | inr s ↦ rw s g
]

restart_cycle-Guarded :
    (env : Env) (w : World) (es : List Effect)
    → env.save_works ≡ true
    → Guarded (condition_key env.health) env.now (restart_cycle env w es).world.file
unfolding restart_cycle
restart_cycle-Guarded env w es s = rw s (refl, inr refl)

unhealthy_cycle-held :
    (cfg : Config) (env : Env) (w : World) (es : List Effect)
    → held cfg env w.file ≡ true
    → (unhealthy_cycle cfg env w es
        ≡ record { world = w; action = grace_observed; effects = es ++ log_grace ∷ [] })
      ⊎ (unhealthy_cycle cfg env w es ≡ hold_cycle cfg env w es)
unfolding unhealthy_cycle
unhealthy_cycle-held cfg env w es h = elim (if-cases (in_grace cfg env) grace rest) [
  | inl e ↦ inl e
  | inr e ↦ inr (e ∙ ap (λ b. if b || rate_capped cfg env w.file then held_back else again) h)
]
  where
    grace : Cycle
    grace = record { world = w; action = grace_observed; effects = es ++ log_grace ∷ [] }

    held_back : Cycle
    held_back = hold_cycle cfg env w es

    again : Cycle
    again = restart_cycle env w es

    rest : Cycle
    rest = if held cfg env w.file || rate_capped cfg env w.file then held_back else again

-- One unhealthy cycle on a guarded condition attempts nothing, and the condition stays guarded.
run_once-Guarded :
    (cfg : Config) (env : Env) (w : World) (c : Condition) (t : ℕ)
    → env.health.healthy ≡ false
    → condition_key env.health ≡ c
    → env.now - t ≤ cfg.hold_window
    → t ≢ 0
    → Guarded c t w.file
    → (attempted (run_once cfg env w).action ≡ false) × Guarded c t (run_once cfg env w).world.file
unfolding hold_cycle
run_once-Guarded cfg env w c t u k le nz g = elim (Bool-cases env.health.kill_tripped) [
  | inl kill ↦ subst Quiet (sym (run_once_killed cfg env w kill)) (refl, g')
  | inr alive ↦
      subst Quiet (sym (run_once_unhealthy cfg env w alive u))
        (elim (unhealthy_cycle-held cfg env w' es (Guarded-held cfg env c t w'.file k le nz g')) [
          | inl e ↦ subst Quiet (sym e) (refl, g')
          | inr e ↦ subst Quiet (sym e) (
            refl,
            subst (λ d. Guarded d t (hold_cycle cfg env w' es).world.file) k
                (hold_cycle-Guarded cfg env w' es t (subst (λ d. Guarded d t w'.file) (sym k) g')),
          )
        ])
]
  where
    w' : World
    w' = noted_world cfg env w

    es : List Effect
    es = noted_effects cfg env w

    g' : Guarded c t w'.file
    g' = subst (Guarded c t) (sym (noted_world-file cfg env w)) g

    Quiet : Cycle → Type 0
    Quiet r = (attempted r.action ≡ false) × Guarded c t r.world.file

Guarded-attempts_in :
    (cfg : Config) (envs : List Env) (w : World) (c : Condition) (t : ℕ)
    → StaysOn cfg c t envs
    → t ≢ 0
    → Guarded c t w.file
    → any_true (attempts_in cfg envs w) ≡ false
Guarded-attempts_in cfg [] w c t run nz g = refl
Guarded-attempts_in cfg (env ∷ envs) w c t (u, k, le, run) nz g =
    let (quiet, g') = run_once-Guarded cfg env w c t u k le nz g in
    ground (arith, quiet, Guarded-attempts_in cfg envs (run_once cfg env w).world c t run nz g')

-- After a restart for a condition, recorded at a time that is not 0, no cycle of a run that stays
-- unhealthy on that condition attempts another within the hold window.
pub attempts_in_window :
    (cfg : Config) (env : Env) (envs : List Env) (w : World)
    → attempted (run_once cfg env w).action ≡ true
    → env.save_works ≡ true
    → env.now ≢ 0
    → StaysOn cfg (condition_key env.health) env.now envs
    → any_true (attempts_in cfg envs (run_once cfg env w).world) ≡ false
unfolding hold_cycle
attempts_in_window cfg env envs w a s nz run =
    let (kill, u, g, h, cap) = (run_once-attempted_iff cfg env w).0 a in
    let w' = noted_world cfg env w in
    let es = noted_effects cfg env w in
    let eq = run_once_unhealthy cfg env w kill u in
    Guarded-attempts_in cfg envs (run_once cfg env w).world (condition_key env.health) env.now run
      nz
      (subst (λ r. Guarded (condition_key env.health) env.now r.world.file) (sym eq)
        (elim (unhealthy_cycle-cases cfg env w' es) [
          | inl e ↦ cc (a, ap (λ r. attempted r.action) (eq ∙ e))
          | inr (inl e) ↦ cc (a, ap (λ r. attempted r.action) (eq ∙ e))
          | inr (inr e) ↦
              subst (λ r. Guarded (condition_key env.health) env.now r.world.file) (sym e)
                (restart_cycle-Guarded env w' es s)
        ]))
