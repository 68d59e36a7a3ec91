-- ===== src/Discovery/Steps.antt =====
-- How a property of the tables travels through a pass: along the removals, along the loop over the
-- candidates, and along the guards.
use ai_trader.Base.{
  ◌≡◌, refl, sym, subst, ap, ◌∙◌, Bool, true, false, none, some, not, List, [], ◌∷◌, All, String,
  Float, if◌then◌else◌, Bool-cases, Option-cases, inl, inr, at_least_zero,
}
use ai_trader.Watchlist.{Db, WatchlistEvent, member, apply_event}
use ai_trader.Watchlist.Removal.{
  removal, remove_all, prune_stale, enforce_max_size, stale_symbols, overflow,
}
use ai_trader.Funnel.Screen.{Snapshot}
use ai_trader.Funnel.Evaluate.{Verdict}
use ai_trader.Funnel.Day.{AssetClass, Moment}
use ai_trader.Discovery.State.{DiscoveryDb, RunEnv, universe_for, screened_universe}
use ai_trader.Discovery.Join.{
  Joined, Loop, completed, broken_off, candidate_symbol, conviction_of, refuse_candidate,
  add_candidate, join_all,
}
use ai_trader.Discovery.Run.{
  RunStatus, disabled, empty_universe, all_refused, unavailable, no_data, error, not_due, Report,
  stopped, trimmed, run_snapshots, run_universe, run_due_pass, due_of, run_once, is_passed,
}

pub if_keeps :
    {A : Type 0} (P : A → Type 0) (b : Bool) (x y : A) → P x → P y → P (if b then x else y)
if_keeps P true x y h k = h
if_keeps P false x y h k = k

module _ {X : Type 0} (zero_score : X) (shaping : Bool) (ts reason : String) where
  -- What each removal keeps, the loop keeps.
  pub remove_all-keeps :
      (P : Db X → Type 0)
      → ((db : Db X) (symbol : String)
          → P db
          → P (apply_event shaping ts db (removal zero_score symbol "prune" reason ts)).0)
      → (db : Db X) (symbols : List String) → P db
      → P (remove_all zero_score shaping ts reason db symbols).0
  unfolding remove_all
  remove_all-keeps P step db [] h = h
  remove_all-keeps P step db (s ∷ rest) h =
      remove_all-keeps P step (apply_event shaping ts db (removal zero_score s "prune" reason ts)).0
        rest (step db s h)

module _ {X : Type 0} ⦃fl : Float X⦄ (env : RunEnv X) where
  -- A property that every event keeps, whatever the event is
  abbrev pub IsKept : (Db X → Type 0) → Type 0
  IsKept P = (db : Db X) (ev : WatchlistEvent X) → P db → P (apply_event env.shaping env.ts db ev).0

  -- A property that every removal keeps
  abbrev pub IsKeptByRemovals : (Db X → Type 0) → Type 0
  IsKeptByRemovals P =
      (reason : String) (db : Db X) (symbol : String)
      → P db
      → P (apply_event env.shaping env.ts db (removal (fl.lit 0 0) symbol "prune" reason env.ts)).0

  pub trimmed-keeps :
      (P : Db X → Type 0) → IsKeptByRemovals P → (table : Db X) → P table → P (trimmed env table).0
  unfolding trimmed prune_stale enforce_max_size
  trimmed-keeps P step table h =
      let pruned =
        (prune_stale (fl.lit 0 0) env.shaping env.stale_cutoff env.ts env.stale_reason table).0 in
      remove_all-keeps (fl.lit 0 0) env.shaping env.ts env.cap_reason P (step env.cap_reason) pruned
        (overflow (at_least_zero env.max_size) pruned)
        (remove_all-keeps (fl.lit 0 0) env.shaping env.ts env.stale_reason P (step env.stale_reason)
          table (stale_symbols env.stale_cutoff table) h)

  -- A property of the loop's state, where it came to its end
  abbrev pub Joins : (Joined X → Type 0) → Loop X → Type 0
  Joins Q (broken_off st) = Unit
  Joins Q (completed st) = Q st

  -- A property of the loop's state, where an exception broke it off
  abbrev pub Breaks : (Joined X → Type 0) → Loop X → Type 0
  Breaks Q (broken_off st) = Q st
  Breaks Q (completed st) = Unit

  module _ (cls : String) (surfaced unserved : List String) (st : Joined X) (c : Verdict X)
      (rest : List (Verdict X)) where
    pub join_all_refused :
        member (candidate_symbol c) unserved ≡ true
        → join_all env cls surfaced unserved st (c ∷ rest)
          ≡ join_all env cls surfaced unserved (refuse_candidate env st (candidate_symbol c)) rest
    unfolding join_all
    join_all_refused m = rw m

    pub join_all_raised :
        member (candidate_symbol c) unserved ≡ false
        → conviction_of c.conviction ≡ none
        → join_all env cls surfaced unserved st (c ∷ rest) ≡ broken_off st
    unfolding join_all
    join_all_raised m e = rw (m, e)

    pub join_all_added :
        (score : X)
        → member (candidate_symbol c) unserved ≡ false
        → conviction_of c.conviction ≡ some score
        → join_all env cls surfaced unserved st (c ∷ rest)
          ≡ join_all env cls surfaced unserved
              (add_candidate env cls (member (candidate_symbol c) surfaced) st c score)
              rest
    unfolding join_all
    join_all_added score m e = rw (m, e)

  -- Nothing is committed in the loop.
  pub join_all-committed :
      (cls : String) (surfaced unserved : List String) (st : Joined X) (cs : List (Verdict X))
      → Breaks (λ r. r.committed ≡ st.committed) (join_all env cls surfaced unserved st cs)
  unfolding join_all
  join_all-committed cls surfaced unserved st [] = tt
  join_all-committed cls surfaced unserved st (c ∷ rest) =
      let Same : Loop X → Type 0 = Breaks (λ r. r.committed ≡ st.committed) in
      elim (Bool-cases (member (candidate_symbol c) unserved)) [
        | inl m ↦ subst Same (sym (join_all_refused cls surfaced unserved st c rest m)) (
            join_all-committed cls surfaced unserved (refuse_candidate env st (candidate_symbol c))
              rest)
        | inr m ↦ elim (Option-cases (conviction_of c.conviction)) [
          | inl e ↦ subst Same (sym (join_all_raised cls surfaced unserved st c rest m e)) refl
          | inr (score, e) ↦
              subst Same (sym (join_all_added cls surfaced unserved st c rest score m e)) (
                join_all-committed cls surfaced unserved
                  (add_candidate env cls (member (candidate_symbol c) surfaced) st c score) rest)
        ]
      ]

  module _ (cls : String) (surfaced unserved : List String) (Q : Joined X → Type 0) where
    -- What every refusal and every add of a suitable candidate keeps, the loop over such keeps.
    pub join_all-keeps :
        (R : Verdict X → Type 0)
        → ((st : Joined X) (c : Verdict X)
            → R c
            → member (candidate_symbol c) unserved ≡ true
            → Q st
            → Q (refuse_candidate env st (candidate_symbol c)))
        → ((st : Joined X) (c : Verdict X) (b : Bool) (score : X)
            → R c
            → member (candidate_symbol c) unserved ≡ false
            → Q st
            → Q (add_candidate env cls b st c score))
        → (st : Joined X) (cs : List (Verdict X)) → All R cs
        → Q st
        → Joins Q (join_all env cls surfaced unserved st cs)
    unfolding join_all
    join_all-keeps R refuse add st [] all h = h
    join_all-keeps R refuse add st (c ∷ rest) all h =
        elim (Bool-cases (member (candidate_symbol c) unserved)) [
          | inl m ↦ subst (Joins Q) (sym (join_all_refused cls surfaced unserved st c rest m)) (
              join_all-keeps R refuse add (refuse_candidate env st (candidate_symbol c)) rest all.1
                (refuse st c all.0 m h))
          | inr m ↦ elim (Option-cases (conviction_of c.conviction)) [
            | inl e ↦ subst (Joins Q) (sym (join_all_raised cls surfaced unserved st c rest m e)) tt
            | inr (score, e) ↦
                let b = member (candidate_symbol c) surfaced in
                subst (Joins Q) (sym (join_all_added cls surfaced unserved st c rest score m e)) (
                  join_all-keeps R refuse add (add_candidate env cls b st c score) rest all.1
                    (add st c b score all.0 m h))
          ]
        ]

module _ {X : Type 0} ⦃fl : Float X⦄ (env : RunEnv X) (now : Moment) (cls : AssetClass) where
  module _ (db : DiscoveryDb X) (P : DiscoveryDb X × Report → Type 0) where
    run_universe-cases :
        (symbols : List String)
        → ((status : RunStatus) → is_passed status ≡ false → P (db, stopped status))
        → ((snapshots : List (Snapshot X))
            → env.snapshots_for symbols ≡ some snapshots
            → P (run_snapshots env now cls db snapshots))
        → P (run_universe env now cls db symbols)
    unfolding run_universe
    run_universe-cases symbols stop go =
        if_keeps P (not env.live) (db, stopped unavailable) _ (stop unavailable refl)
          ((elim (env.snapshots_for symbols)
              as (λ o.
                env.snapshots_for symbols ≡ o
                → P (elim o [
                  | none ↦ (db, stopped error)
                  | some [] ↦ (db, stopped no_data)
                  | some (snapshot ∷ rest) ↦ run_snapshots env now cls db (snapshot ∷ rest)
                ])) [
                  | none ↦ λ e. stop error refl
                  | some [] ↦ λ e. stop no_data refl
                  | some (snapshot ∷ rest) ↦ λ e. go (snapshot ∷ rest) e
                ])
            refl)

    run_due_pass-cases :
        ((status : RunStatus) → is_passed status ≡ false → P (db, stopped status))
        → ((snapshots : List (Snapshot X))
            → env.snapshots_for (screened_universe env cls db.watchlist) ≡ some snapshots
            → P (run_snapshots env now cls db snapshots))
        → P (run_due_pass env now cls db)
    unfolding run_due_pass
    run_due_pass-cases stop go =
        elim (universe_for env cls)
          as (λ u. P (elim u [
            | [] ↦ (db, stopped empty_universe)
            | _ ∷ _ ↦ elim (screened_universe env cls db.watchlist) [
              | [] ↦ (db, stopped all_refused)
              | s ∷ symbols ↦ run_universe env now cls db (s ∷ symbols)
            ]
          ])) [
            | [] ↦ stop empty_universe refl
            | _ ∷ _ ↦
                (elim (screened_universe env cls db.watchlist)
                    as (λ v.
                      screened_universe env cls db.watchlist ≡ v
                      → P (elim v [
                        | [] ↦ (db, stopped all_refused)
                        | s ∷ symbols ↦ run_universe env now cls db (s ∷ symbols)
                      ])) [
                        | [] ↦ λ e. stop all_refused refl
                        | s ∷ symbols ↦ λ e.
                            run_universe-cases (s ∷ symbols) stop
                              (λ snapshots f. go snapshots (ap env.snapshots_for e ∙ f))
                      ])
                  refl
          ]

    -- A pass stops at a guard and changes nothing, or it runs over the snapshots of its universe.
    pub run_once-cases :
        ((status : RunStatus) → is_passed status ≡ false → P (db, stopped status))
        → ((snapshots : List (Snapshot X))
            → env.snapshots_for (screened_universe env cls db.watchlist) ≡ some snapshots
            → P (run_snapshots env now cls db snapshots))
        → P (run_once env now cls db)
    unfolding run_once
    run_once-cases stop go =
        let (is_due, reason) = due_of env now cls db in
        let due_pass = run_due_pass-cases stop go in
        if_keeps P (not env.enabled) (db, stopped disabled) _ (stop disabled refl)
          (if_keeps P env.force (run_due_pass env now cls db) _ due_pass (
            if_keeps P is_due (run_due_pass env now cls db) (db, stopped (not_due reason)) due_pass
              (stop (not_due reason) refl)))
