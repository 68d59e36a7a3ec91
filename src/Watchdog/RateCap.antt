-- ===== src/Watchdog/RateCap.antt =====
-- The hourly cap on restarts, over a run of cycles.
use ai_trader.Base.{
  ℕ, ◌+◌, ◌-◌, ◌≤◌, ◌<◌, ◌≡◌, refl, ap, sym, subst, Bool, true, false, ◌&&◌, arith, List, [], ◌∷◌,
  keep, count, count-append, count-le-length, if◌then◌else◌, Bool-cases, inl, inr, leb, le_or_gt,
}
use ai_trader.Watchdog.{
  Config, Env, World, Cycle, Effect, run_once, unhealthy_cycle, hold_cycle, restart_cycle,
  rate_capped, recent_history, within_hour, history_of,
}
use ai_trader.Watchdog.Guard.{
  attempted, noted_world, noted_world-file, noted_effects, run_once_killed, run_once_unhealthy,
  run_once-attempted_iff, unhealthy_cycle-cases,
}

-- The times of the cycles of a run that attempt a restart
abbrev pub restart_times : Config → List Env → World → List ℕ
restart_times cfg [] w = []
restart_times cfg (env ∷ envs) w =
    let rest = restart_times cfg envs (run_once cfg env w).world in
    if attempted (run_once cfg env w).action then env.now ∷ rest else rest

-- The time `r` is in the hour that ends at `t`.
abbrev pub in_hour : ℕ → ℕ → Bool
in_hour t r = leb r t && leb (t - r) 3600

-- Cycles without a healthy one, whose file is written and whose clock does not run back
abbrev pub IsSickRun : ℕ → List Env → Type 0
IsSickRun t [] = Unit
IsSickRun t (env ∷ envs) =
    (env.health.healthy ≡ false) × (env.save_works ≡ true) × (t ≤ env.now) × IsSickRun env.now envs

in_hour_later :
    (now t : ℕ) (hist : List ℕ)
    → now ≤ t
    → count (in_hour t) (keep (within_hour now) hist) ≡ count (in_hour t) hist
in_hour_later now t [] h = refl
in_hour_later now t (x ∷ hist) h = ground (arith, in_hour_later now t hist h)

-- The hour that ends at `t`, after a cycle: the recorded restarts grow by the cycle's own.
abbrev Counted : World → ℕ → ℕ → Cycle → Type 0
Counted w now t c =
    count (in_hour t) (history_of c.world.file)
    ≡ (if attempted c.action && in_hour t now then 1 else 0) + count (in_hour t) (history_of w.file)

hold_cycle-Counted :
    (cfg : Config) (env : Env) (w : World) (es : List Effect) (t : ℕ)
    → env.save_works ≡ true
    → env.now ≤ t
    → Counted w env.now t (hold_cycle cfg env w es)
unfolding hold_cycle
hold_cycle-Counted cfg env w es t s h =
    rw s (omega (arith, in_hour_later env.now t (history_of w.file) h))

restart_cycle-Counted :
    (env : Env) (w : World) (es : List Effect) (t : ℕ)
    → env.save_works ≡ true
    → env.now ≤ t
    → Counted w env.now t (restart_cycle env w es)
unfolding restart_cycle
restart_cycle-Counted env w es t s h = rw s (
    ground (
      arith,
      in_hour_later env.now t (history_of w.file) h,
      count-append (in_hour t) (recent_history env.now w.file) (env.now ∷ []),
    ))

run_once-Counted :
    (cfg : Config) (env : Env) (w : World) (t : ℕ)
    → env.health.healthy ≡ false
    → env.save_works ≡ true
    → env.now ≤ t
    → Counted w env.now t (run_once cfg env w)
run_once-Counted cfg env w t u s h = elim (Bool-cases env.health.kill_tripped) [
  | inl k ↦
      subst (Counted w env.now t) (sym (run_once_killed cfg env w k))
        (omega (arith, ap (λ f. count (in_hour t) (history_of f)) file))
  | inr k ↦ subst (Counted w env.now t) (sym (run_once_unhealthy cfg env w k u)) (
      subst
        (λ f.
          count (in_hour t) (history_of unhealthy.world.file)
          ≡ (if attempted unhealthy.action && in_hour t env.now then 1 else 0)
            + count (in_hour t) (history_of f))
        file
        (elim (unhealthy_cycle-cases cfg env w' es) [
          | inl e ↦ subst (Counted w' env.now t) (sym e) (omega arith)
          | inr (inl e) ↦
              subst (Counted w' env.now t) (sym e) (hold_cycle-Counted cfg env w' es t s h)
          | inr (inr e) ↦
              subst (Counted w' env.now t) (sym e) (restart_cycle-Counted env w' es t s h)
        ]))
]
  where
    w' : World
    w' = noted_world cfg env w

    es : List Effect
    es = noted_effects cfg env w

    file : w'.file ≡ w.file
    file = noted_world-file cfg env w

    unhealthy : Cycle
    unhealthy = unhealthy_cycle cfg env w' es

below_cap :
    (cfg : Config) (env : Env) (w : World) (t : ℕ)
    → rate_capped cfg env w.file ≡ false
    → env.now ≤ t
    → count (in_hour t) (history_of w.file) < cfg.max_restarts_per_hour
unfolding rate_capped
below_cap cfg env w t c h = ground (
  arith,
  in_hour_later env.now t (history_of w.file) h,
  count-le-length (in_hour t) (recent_history env.now w.file),
)

later_times :
    (cfg : Config) (envs : List Env) (w : World) (t start : ℕ)
    → IsSickRun start envs
    → t < start
    → count (in_hour t) (restart_times cfg envs w) ≡ 0
later_times cfg [] w t start run h = refl
later_times cfg (env ∷ envs) w t start (u, s, le, run) h =
    ground (arith, later_times cfg envs (run_once cfg env w).world t env.now run (omega arith))

-- The restarts of a run and those on record are within the cap in every hour.
restart_times_bound :
    (cfg : Config) (envs : List Env) (w : World) (t start : ℕ)
    → IsSickRun start envs
    → count (in_hour t) (history_of w.file) ≤ cfg.max_restarts_per_hour
    → count (in_hour t) (restart_times cfg envs w) + count (in_hour t) (history_of w.file)
      ≤ cfg.max_restarts_per_hour
restart_times_bound cfg [] w t start run b = omega arith
restart_times_bound cfg (env ∷ envs) w t start (u, s, le, run) b =
    let next = (run_once cfg env w).world in
    elim (le_or_gt env.now t) [
      | inl h ↦ elim (Bool-cases (attempted (run_once cfg env w).action)) [
        | inl a ↦ ground (
          arith,
          run_once-Counted cfg env w t u s h,
          below_cap cfg env w t ((run_once-attempted_iff cfg env w).0 a).4 h,
          restart_times_bound cfg envs next t env.now run,
        )
        | inr a ↦ ground (
          arith,
          run_once-Counted cfg env w t u s h,
          restart_times_bound cfg envs next t env.now run,
        )
      ]
      | inr h ↦ ground (arith, later_times cfg envs next t env.now run h)
    ]

-- From a clean record, over any run of cycles without a healthy one, with a clock that does not run
-- back and a file that can be written, the restarts attempted in any hour are at most the cap.
pub restart_times_capped :
    (cfg : Config) (envs : List Env) (w : World) (t start : ℕ)
    → IsSickRun start envs
    → history_of w.file ≡ []
    → count (in_hour t) (restart_times cfg envs w) ≤ cfg.max_restarts_per_hour
restart_times_capped cfg envs w t start run clean =
    let empty = ap (count (in_hour t)) clean in
    omega (arith, empty, restart_times_bound cfg envs w t start run (omega (arith, empty)))
