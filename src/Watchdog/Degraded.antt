-- ===== src/Watchdog/Degraded.antt =====
-- What the state of the tradeable universe changes in a cycle of the watchdog: `_note_universe` alone.
use ai_trader.Base.{
  ◌≡◌, refl, sym, ◌∙◌, ap, Bool, true, false, Option, none, arith, List, [], ◌∷◌, ◌++◌, keep,
  keep-append, append_assoc, append-nil, String, Bool-cases, inl, inr, if◌then◌else◌,
}
use ai_trader.Watchdog.{
  Config, Env, World, Effect, notify, universe_recovered, universe_empty, Cycle, Action, GuardState,
  kill_notified, kill_notice, recovered, nothing, holding_of, held, rate_capped, attempt_restart,
  start_stack_now, condition_key, run_once, unhealthy_cycle, hold_cycle, restart_cycle,
  note_unavailable, note_universe,
}
use ai_trader.Watchdog.Guard.{
  noted_world, noted_world-file, noted_effects, run_once_healthy, run_once_unhealthy,
  run_once_killed, window_line,
}

-- Not a notice about the universe
abbrev pub is_other : Effect → Bool
is_other (notify universe_recovered) = false
is_other (notify universe_empty) = false
is_other _ = true

-- What a cycle did, besides the notice about the universe and the memory of it
abbrev pub decided : Cycle → Action × Option GuardState × List String × List Effect
decided c = (c.action, c.world.file, c.world.unavailable_logged, keep is_other c.effects)

-- The same environment, told another state of the universe
abbrev pub with_universe : Bool → Env → Env
with_universe b env = record env { health = record env.health { universe_degraded = b } }

note_universe_silent :
    (cfg : Config) (env : Env) (w : World) → keep is_other (note_universe cfg env w).1 ≡ []
unfolding note_universe
note_universe_silent cfg env w = ground arith

note_universe-file :
    (cfg : Config) (env : Env) (w : World) → (note_universe cfg env w).0.file ≡ w.file
unfolding note_universe
note_universe-file cfg env w = ground arith

note_universe-logged :
    (cfg : Config) (env : Env) (w : World)
    → (note_universe cfg env w).0.unavailable_logged ≡ w.unavailable_logged
unfolding note_universe
note_universe-logged cfg env w = ground arith

restart_cycle-effects :
    (env : Env) (w : World) (es : List Effect)
    → (restart_cycle env w es).effects ≡ es ++ (restart_cycle env w []).effects
unfolding restart_cycle
restart_cycle-effects env w es = simp append_assoc

module _ (cfg : Config) (env : Env) where
  unhealthy_cycle-effects :
      (w : World) (es : List Effect)
      → (unhealthy_cycle cfg env w es).effects ≡ es ++ (unhealthy_cycle cfg env w []).effects
  unfolding unhealthy_cycle hold_cycle
  unhealthy_cycle-effects w es = ground (arith, restart_cycle-effects env w es)

  -- What an unhealthy cycle does to a world that was told nothing of the universe
  abbrev alone : Option GuardState → List String → Cycle
  alone file logged =
      unhealthy_cycle cfg env
        (record {
          file = file;
          unavailable_logged = logged;
          universe_degraded = false;
          universe_ts = 0;
        })
        []

  unhealthy_cycle-alone :
      (w : World)
      → decided (unhealthy_cycle cfg env w []) ≡ decided (alone w.file w.unavailable_logged)
  unfolding unhealthy_cycle hold_cycle restart_cycle
  unhealthy_cycle-alone w = ground arith

  -- A cycle with what was done before it
  abbrev after : List Effect → Cycle → Action × Option GuardState × List String × List Effect
  after others c =
      (c.action, c.world.file, c.world.unavailable_logged, others ++ keep is_other c.effects)

  unhealthy_cycle-after :
      (w : World) (es : List Effect)
      → decided (unhealthy_cycle cfg env w es)
        ≡ after (keep is_other es) (unhealthy_cycle cfg env w [])
  unfolding unhealthy_cycle hold_cycle restart_cycle
  unhealthy_cycle-after w es = ground (
    arith,
    ap (keep is_other) (unhealthy_cycle-effects w es),
    keep-append is_other es (unhealthy_cycle cfg env w []).effects,
  )

  -- What the two notes leave and add, without the notice about the universe
  abbrev logged_world : World → World
  logged_world w = (note_unavailable env w).0

  abbrev noted_others : World → List Effect
  noted_others w =
      keep is_other ((note_unavailable env w).1 ++ window_line env.health.out_of_window_non_real)

  noted_effects-others : (w : World) → keep is_other (noted_effects cfg env w) ≡ noted_others w
  unfolding noted_effects
  noted_effects-others w =
      keep-append is_other
        ((note_unavailable env w).1 ++ window_line env.health.out_of_window_non_real)
        (note_universe cfg env (logged_world w)).1
      ∙ ap (λ es. noted_others w ++ es) (note_universe_silent cfg env (logged_world w))
      ∙ append-nil (noted_others w)

  noted_world-logged :
      (w : World) → (noted_world cfg env w).unavailable_logged ≡ (logged_world w).unavailable_logged
  unfolding noted_world
  noted_world-logged w = note_universe-logged cfg env (logged_world w)

  -- What a cycle decides, the notice about the universe and the memory of it left out
  abbrev told : World → Action × Option GuardState × List String × List Effect
  told w =
      let names = (logged_world w).unavailable_logged in
      if env.health.kill_tripped
      then (kill_notified, w.file, names, noted_others w ++ notify kill_notice ∷ [])
      else if env.health.healthy
      then (
        nothing,
        if env.save_works then none else w.file,
        names,
        noted_others w ++ (if holding_of w.file then notify recovered ∷ [] else []),
      )
      else after (noted_others w) (alone w.file names)

  killed-told : (w : World) → env.health.kill_tripped ≡ true → decided (run_once cfg env w) ≡ told w
  killed-told w k =
      ap decided (run_once_killed cfg env w k)
      ∙ ground (
        arith,
        noted_world-file cfg env w,
        noted_world-logged w,
        noted_effects-others w,
        keep-append is_other (noted_effects cfg env w) (notify kill_notice ∷ []),
      )

  healthy-told :
      (w : World)
      → env.health.kill_tripped ≡ false
      → env.health.healthy ≡ true
      → decided (run_once cfg env w) ≡ told w
  healthy-told w k u =
      ap decided (run_once_healthy cfg env w k u)
      ∙ ground (
        arith,
        noted_world-file cfg env w,
        noted_world-logged w,
        noted_effects-others w,
        keep-append is_other (noted_effects cfg env w) (notify recovered ∷ []),
        keep-append is_other (noted_effects cfg env w) [],
      )

  unhealthy-told :
      (w : World)
      → env.health.kill_tripped ≡ false
      → env.health.healthy ≡ false
      → decided (run_once cfg env w) ≡ told w
  unhealthy-told w k u =
      let v = noted_world cfg env w in
      ap decided (run_once_unhealthy cfg env w k u)
      ∙ unhealthy_cycle-after v (noted_effects cfg env w)
      ∙ ground (
        arith,
        unhealthy_cycle-alone v,
        noted_world-file cfg env w,
        noted_world-logged w,
        noted_effects-others w,
      )

  run_once-told : (w : World) → decided (run_once cfg env w) ≡ told w
  run_once-told w = elim (Bool-cases env.health.kill_tripped) [
    | inl k ↦ killed-told w k
    | inr k ↦ elim (Bool-cases env.health.healthy) [
      | inl u ↦ healthy-told w k u
      | inr u ↦ unhealthy-told w k u
    ]
  ]

told-universe :
    (cfg : Config) (env : Env) (w : World) (b : Bool)
    → told cfg (with_universe b env) w ≡ told cfg env w
unfolding unhealthy_cycle hold_cycle restart_cycle held rate_capped attempt_restart start_stack_now
    condition_key note_unavailable
told-universe cfg env w b = refl

-- Whether the universe is degraded changes nothing in a cycle but the notice about it and the memory of that
-- notice: the action, the guard's file, the symbols logged as unavailable, and every other effect, the stops
-- and starts of the stack among them, in their order, are the same.
pub run_once_universe :
    (cfg : Config) (env : Env) (w : World) (b : Bool)
    → decided (run_once cfg (with_universe b env) w) ≡ decided (run_once cfg env w)
run_once_universe cfg env w b =
    run_once-told cfg (with_universe b env) w
    ∙ told-universe cfg env w b
    ∙ sym (run_once-told cfg env w)
