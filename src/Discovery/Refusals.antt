-- ===== src/Discovery/Refusals.antt =====
-- A venue's refusal is remembered: the next pass does not take the symbol into its universe.
use ai_trader.Base.{
  ◌≡◌, refl, subst, ◌∙◌, ap, Bool, true, false, ◌&&◌, ◌||◌, not, arith, some, List, [], ◌∷◌, ◌++◌,
  keep, map, any-append, String, str_eq, str_lt, is_text, eq_iff, Float, Bool-cases, inl, inr,
}
use ai_trader.Watchlist.{
  Db, Entry, WatchlistEvent, member, apply_event, add_from_discovery, journal_onboarding_refusal,
  journal_event, ts_or,
}
use ai_trader.Watchlist.Invariant.{apply_event_journals}
use ai_trader.Universe.Laws.{member-keep}
use ai_trader.Funnel.Evaluate.{Verdict}
use ai_trader.Funnel.Pass.{PassStatus}
use ai_trader.Funnel.Day.{AssetClass, Moment}
use ai_trader.Universe.{BarsTable}
use ai_trader.Discovery.State.{
  Stored, DiscoveryDb, RunEnv, class_name, is_refusal, recent_onboarding_refusals, universe_for,
  screened_universe,
}
use ai_trader.Discovery.Onboard.{Onboarding}
use ai_trader.Discovery.Join.{
  Joined, Loop, completed, broken_off, refuse_candidate, add_candidate, venue_refusal,
}
use ai_trader.Discovery.Run.{Report, finish, run_snapshots, run_once, trimmed}
use ai_trader.Discovery.Steps.{trimmed-keeps, Joins, join_all-keeps, run_once-cases}
use ai_trader.Discovery.Table.{everywhere}

refusals-append :
    (cutoff s : String) (entries : List Entry) (entry : Entry)
    → member s (map (λ e. e.symbol) (keep (is_refusal cutoff) (entries ++ entry ∷ []))) ≡ (
        member s (map (λ e. e.symbol) (keep (is_refusal cutoff) entries))
        || is_refusal cutoff entry && str_eq s entry.symbol)
refusals-append cutoff s [] entry = ground arith
refusals-append cutoff s (e ∷ rest) entry = ground (arith, refusals-append cutoff s rest entry)

module _ {X : Type 0} (cutoff s : String) where
  -- The symbol is among the recent refusals.
  abbrev pub is_remembered : Db X → Bool
  is_remembered db = member s (recent_onboarding_refusals cutoff db)

  apply_event_remembers :
      (shaping : Bool) (now : String) (db : Db X) (ev : WatchlistEvent X)
      → is_remembered db ≡ true
      → is_remembered (apply_event shaping now db ev).0 ≡ true
  unfolding recent_onboarding_refusals
  apply_event_remembers shaping now db ev h =
      let (entry, e, _, _, _) = apply_event_journals shaping now db ev in
      ap (λ journal. member s (map (λ e. e.symbol) (keep (is_refusal cutoff) journal))) e
      ∙ ground (arith, h, refusals-append cutoff s db.journal entry)

module _ {X : Type 0} ⦃fl : Float X⦄ (env : RunEnv X) (cutoff s : String) where
  -- A refused symbol is among the recent refusals.
  abbrev IsSettled : Joined X → Type 0
  IsSettled st = (not (member s st.refused) || is_remembered cutoff s st.table) ≡ true

  refuse_candidate-IsSettled :
      is_text s ≡ true
      → str_lt env.ts cutoff ≡ false
      → (st : Joined X) (symbol : String) → IsSettled st
      → IsSettled (refuse_candidate env st symbol)
  unfolding refuse_candidate journal_onboarding_refusal journal_event recent_onboarding_refusals
  refuse_candidate-IsSettled named recent st symbol h =
      let entry : Entry = record {
        ts = ts_or (some env.ts) env.ts;
        action = "add";
        symbol = symbol;
        source = "discovery";
        reason = venue_refusal;
        applied = false;
      } in
      let appended = any-append (str_eq s) st.refused (symbol ∷ []) in
      let journal = refusals-append cutoff s st.table.journal entry in
      elim (Bool-cases (str_eq s symbol)) [
        | inl e ↦
            let text : is_text symbol ≡ true =
              subst (λ t. is_text t ≡ true) ((eq_iff s symbol).0 e) named in
            ground (arith, text, recent, e, appended, journal)
        | inr e ↦ ground (arith, h, e, appended, journal)
      ]

  add_candidate-IsSettled :
      (cls : String) (st : Joined X) (c : Verdict X) (b : Bool) (score : X)
      → IsSettled st
      → IsSettled (add_candidate env cls b st c score)
  unfolding add_candidate add_from_discovery
  add_candidate-IsSettled cls st c b score h = elim (Bool-cases (is_remembered cutoff s st.table)) [
    | inl r ↦
        let kept : is_remembered cutoff s (add_candidate env cls b st c score).table ≡ true =
          apply_event_remembers cutoff s env.shaping env.ts st.table _ r in
        ground (arith, kept)
    | inr r ↦ ground (arith, h, r)
  ]

  trimmed-remembered :
      (table : Db X)
      → is_remembered cutoff s table ≡ true
      → is_remembered cutoff s (trimmed env table).0 ≡ true
  trimmed-remembered table h =
      trimmed-keeps env (λ t. is_remembered cutoff s t ≡ true)
        (λ reason t symbol r. apply_event_remembers cutoff s env.shaping env.ts t _ r) table h

  -- What a pass reports as refused is remembered in the database it leaves.
  abbrev IsReported : DiscoveryDb X × Report → Type 0
  IsReported r = (not (member s r.1.refused) || is_remembered cutoff s r.0.watchlist) ≡ true

  finish-IsReported :
      (passes : List Stored) (o : Onboarding × BarsTable) (status : PassStatus) (joined : Loop X)
      → Joins env IsSettled joined
      → IsReported (finish env passes o status joined)
  unfolding finish
  finish-IsReported passes (o, bars) status (broken_off st) h = refl
  finish-IsReported passes (o, bars) status (completed st) h =
      elim (Bool-cases (is_remembered cutoff s st.table)) [
        | inl r ↦ let kept = trimmed-remembered st.table r in ground (arith, kept)
        | inr r ↦ ground (arith, h, r)
      ]

module _ {X : Type 0} ⦃fl : Float X⦄ (env : RunEnv X) (now : Moment) (cls : AssetClass)
    (db : DiscoveryDb X) (s : String) where
  run_once-IsReported :
      (cutoff : String)
      → is_text s ≡ true
      → str_lt env.ts cutoff ≡ false
      → IsReported env cutoff s (run_once env now cls db)
  unfolding run_snapshots
  run_once-IsReported cutoff named recent =
      run_once-cases env now cls db (IsReported env cutoff s) (λ status _. refl)
        (λ snapshots _. finish-IsReported env cutoff s _ _ _ _ (
          join_all-keeps env (class_name cls) _ _ (IsSettled env cutoff s) (λ c. Unit)
            (λ st c _ m h. refuse_candidate-IsSettled env cutoff s named recent st _ h)
            (λ st c b score _ m h.
              add_candidate-IsSettled env cutoff s (class_name cls) st c b score h)
            _ _ (everywhere (λ c. Unit) (λ c. tt) _) refl))

  -- A symbol, not empty, that a discovery pass refused does not enter the universe of a later pass over the
  -- database it left, for either class, while the later pass still looks back as far as the refusal.
  pub run_once_refused :
      (later : RunEnv X) (next : AssetClass)
      → is_text s ≡ true
      → str_lt env.ts later.refusal_cutoff ≡ false
      → member s (run_once env now cls db).1.refused ≡ true
      → member s (screened_universe later next (run_once env now cls db).0.watchlist) ≡ false
  unfolding screened_universe
  run_once_refused later next named recent refused =
      let left = (run_once env now cls db).0.watchlist in
      ground (
        arith,
        refused,
        run_once-IsReported later.refusal_cutoff named recent,
        member-keep (λ x. not (member x (recent_onboarding_refusals later.refusal_cutoff left))) s
            (universe_for later next),
      )
