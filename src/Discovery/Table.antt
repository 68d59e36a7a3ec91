-- ===== src/Discovery/Table.antt =====
-- What a discovery pass keeps of the watchlist: one row to a symbol, the limit on its size, and all
-- of it where the pass fails.
use ai_trader.Base.{
  refl, subst, ◌≡◌, ◌≤◌, sym, ◌∙◌, true, false, List, [], ◌∷◌, All, String, str_eq, count, Float,
  at_least_zero,
}
use ai_trader.Watchlist.{Db, add_from_discovery}
use ai_trader.Watchlist.Removal.{prune_stale}
use ai_trader.Watchlist.Invariant.{IsUnique, apply_event-IsUnique}
use ai_trader.Watchlist.Size.{active_row, enforce_max_size_bound}
use ai_trader.Universe.{BarsTable}
use ai_trader.Funnel.Evaluate.{Verdict}
use ai_trader.Funnel.Pass.{PassStatus}
use ai_trader.Funnel.Day.{AssetClass, Moment}
use ai_trader.Discovery.State.{Stored, DiscoveryDb, RunEnv, class_name}
use ai_trader.Discovery.Onboard.{Onboarding}
use ai_trader.Discovery.Join.{
  Joined, Loop, completed, broken_off, refuse_candidate, add_candidate, join_all,
}
use ai_trader.Discovery.Run.{trimmed, finish, run_snapshots, run_once, is_passed}
use ai_trader.Discovery.Steps.{
  remove_all-keeps, trimmed-keeps, Joins, Breaks, join_all-committed, join_all-keeps,
  run_once-cases,
}

-- A predicate that holds everywhere
pub everywhere : {A : Type 0} (R : A → Type 0) → ((a : A) → R a) → (xs : List A) → All R xs
everywhere R h [] = tt
everywhere R h (x ∷ xs) = (h x, everywhere R h xs)

pub untrue : false ≡ true → ⊥
untrue h = cc h

module _ {X : Type 0} ⦃fl : Float X⦄ (env : RunEnv X) where
  -- What every event keeps, a refusal that is only journalled included, the loop keeps.
  pub join_all-IsUnique :
      (cls : String) (surfaced refused : List String) (st : Joined X) (cs : List (Verdict X))
      → IsUnique st.table.watchlist
      → Joins env (λ r. IsUnique r.table.watchlist) (join_all env cls surfaced refused st cs)
  unfolding refuse_candidate add_candidate add_from_discovery
  join_all-IsUnique cls surfaced refused st cs h =
      join_all-keeps env cls surfaced refused (λ r. IsUnique r.table.watchlist) (λ c. Unit)
        (λ st c _ m u. u)
        (λ st c b score _ m u. apply_event-IsUnique env.shaping env.ts st.table _ u) st cs
        (everywhere (λ c. Unit) (λ c. tt) cs) h

  pub trimmed-IsUnique :
      (table : Db X) → IsUnique table.watchlist → IsUnique (trimmed env table).0.watchlist
  trimmed-IsUnique table h =
      trimmed-keeps env (λ db. IsUnique db.watchlist)
        (λ reason db symbol u. apply_event-IsUnique env.shaping env.ts db _ u) table h

  trimmed_bound :
      (table : Db X)
      → str_eq env.ts "" ≡ false
      → IsUnique table.watchlist
      → count active_row (trimmed env table).0.watchlist ≤ at_least_zero env.max_size
  unfolding trimmed prune_stale
  trimmed_bound table stamped h =
      enforce_max_size_bound (fl.lit 0 0) env.shaping env.ts env.cap_reason
        (at_least_zero env.max_size)
        (prune_stale (fl.lit 0 0) env.shaping env.stale_cutoff env.ts env.stale_reason table).0
        stamped
        (remove_all-keeps (fl.lit 0 0) env.shaping env.ts env.stale_reason
          (λ db. IsUnique db.watchlist)
          (λ db symbol u. apply_event-IsUnique env.shaping env.ts db _ u) table _ h)

  -- What the end of a pass leaves, for what the loop left
  pub finish-keeps :
      (P : Db X → Type 0)
      → (db : DiscoveryDb X) (passes : List Stored) (o : Onboarding × BarsTable)
        (status : PassStatus) (joined : Loop X)
      → P db.watchlist
      → Breaks env (λ r. r.committed ≡ db.watchlist) joined
      → Joins env (λ r. P (trimmed env r.table).0) joined
      → P (finish env passes o status joined).0.watchlist
  unfolding finish
  finish-keeps P db passes o status (broken_off st) h b k = subst P (sym b) h
  finish-keeps P db passes o status (completed st) h b k = k

  pub Joins-map :
      (P Q : Joined X → Type 0)
      → ((st : Joined X) → P st → Q st)
      → (o : Loop X) → Joins env P o
      → Joins env Q o
  Joins-map P Q f (broken_off st) h = tt
  Joins-map P Q f (completed st) h = f st h

  -- A pass without a limit to enforce: the end of one that passed
  finish_bound :
      (passes : List Stored) (o : Onboarding × BarsTable) (status : PassStatus) (joined : Loop X)
      → str_eq env.ts "" ≡ false
      → Joins env (λ r. IsUnique r.table.watchlist) joined
      → is_passed (finish env passes o status joined).1.status ≡ true
      → count active_row (finish env passes o status joined).0.watchlist.watchlist
        ≤ at_least_zero env.max_size
  unfolding finish
  finish_bound passes o status (broken_off st) stamped k h = absurd (untrue h)
  finish_bound passes o status (completed st) stamped k h = trimmed_bound st.table stamped k

  finish_failed :
      (before : Db X) (passes : List Stored) (o : Onboarding × BarsTable) (status : PassStatus)
      (joined : Loop X)
      → Breaks env (λ r. r.committed ≡ before) joined
      → is_passed (finish env passes o status joined).1.status ≡ false
      → (finish env passes o status joined).0.watchlist ≡ before
  unfolding finish
  finish_failed before passes o status (broken_off st) b h = b
  finish_failed before passes o status (completed st) b h = absurd (untrue (sym h))

module _ {X : Type 0} ⦃fl : Float X⦄ (env : RunEnv X) (now : Moment) (cls : AssetClass) where
  module _ (db : DiscoveryDb X) where
    -- A discovery pass, wherever it stops, keeps one row to a symbol and no row without a symbol.
    pub run_once-IsUnique :
        IsUnique db.watchlist.watchlist → IsUnique (run_once env now cls db).0.watchlist.watchlist
    unfolding run_snapshots
    run_once-IsUnique h =
        run_once-cases env now cls db (λ r. IsUnique r.0.watchlist.watchlist) (λ status _. h)
          (λ snapshots _.
            finish-keeps env (λ t. IsUnique t.watchlist) db _ _ _ _ h
              (join_all-committed env (class_name cls) _ _ _ _)
              (Joins-map env _ _ (λ st. trimmed-IsUnique env st.table) _
                (join_all-IsUnique env (class_name cls) _ _ _ _ h)))

    -- Over a watchlist with one row to a symbol and none without a symbol, a discovery pass that came
    -- to its end, at a time that is not empty, leaves at most the configured number of active rows.
    pub run_once_bound :
        str_eq env.ts "" ≡ false
        → IsUnique db.watchlist.watchlist
        → is_passed (run_once env now cls db).1.status ≡ true
        → count active_row (run_once env now cls db).0.watchlist.watchlist
          ≤ at_least_zero env.max_size
    unfolding run_snapshots
    run_once_bound stamped h =
        run_once-cases env now cls db
          (λ r.
            is_passed r.1.status ≡ true
            → count active_row r.0.watchlist.watchlist ≤ at_least_zero env.max_size)
          (λ status f t. absurd (untrue (sym f ∙ t)))
          (λ snapshots _.
            finish_bound env _ _ _ _ stamped (join_all-IsUnique env (class_name cls) _ _ _ _ h))

    -- A discovery pass that is skipped or fails, its loop broken off by an exception among the candidates that
    -- it has added or refused, leaves the watchlist and its journal as they were.
    pub run_once_failed :
        is_passed (run_once env now cls db).1.status ≡ false
        → (run_once env now cls db).0.watchlist ≡ db.watchlist
    unfolding run_snapshots
    run_once_failed =
        run_once-cases env now cls db
          (λ r. is_passed r.1.status ≡ false → r.0.watchlist ≡ db.watchlist) (λ status _ _. refl)
          (λ snapshots _.
            finish_failed env db.watchlist _ _ _ _
              (join_all-committed env (class_name cls) _ _ _ _))
