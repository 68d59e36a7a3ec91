-- ===== src/Discovery/Promotion.antt =====
-- Which symbols a discovery pass can make tradeable.
use ai_trader.Base.{
  ◌≡◌, refl, sym, ◌∙◌, ap, Bool, true, false, ◌&&◌, ◌||◌, not, arith, some, List, [], ◌∷◌, All, any,
  map, String, str_eq, eq_iff, Float, Bool-cases, inl, inr,
}
use ai_trader.Watchlist.{Db, member, apply_event, add_from_discovery}
use ai_trader.Watchlist.Removal.{removal}
use ai_trader.Watchlist.Promotion.{tradeable, apply_event_promotes}
use ai_trader.Universe.{BarsTable, symbol_is_tradeable}
use ai_trader.Universe.Laws.{member-keep}
use ai_trader.Universe.Serviceable.{judge_serviceable}
use ai_trader.Funnel.Screen.{Snapshot}
use ai_trader.Funnel.Evaluate.{Verdict}
use ai_trader.Funnel.Pass.{PassStatus, PassResult}
use ai_trader.Funnel.Day.{AssetClass, Moment}
use ai_trader.Discovery.State.{Stored, DiscoveryDb, RunEnv, class_name, screened_universe}
use ai_trader.Discovery.Onboard.{Onboarding}
use ai_trader.Discovery.Join.{
  Joined, Loop, completed, broken_off, candidate_symbol, is_avoided, candidates_of,
  refuse_candidate, add_candidate, join_all,
}
use ai_trader.Discovery.Run.{
  Report, finish, run_snapshots, run_once, funnel_pass, onboarded, unserved, is_passed,
}
use ai_trader.Discovery.Steps.{
  trimmed-keeps, Joins, Breaks, join_all-committed, join_all-keeps, run_once-cases,
}
use ai_trader.Discovery.Table.{untrue, finish-keeps, Joins-map}

any-All : {A : Type 0} (p : A → Bool) (xs : List A) → any p xs ≡ false → All (λ x. p x ≡ false) xs
any-All p [] h = tt
any-All p (x ∷ xs) h = (ground (arith, h), any-All p xs (ground (arith, h)))

-- A removal adds nothing.
removal-tradeable :
    {X : Type 0} (zero_score : X) (shaping : Bool) (ts reason : String) (db : Db X)
    (symbol s : String)
    → tradeable s db.watchlist ≡ false
    → tradeable s
        (apply_event shaping ts db (removal zero_score symbol "prune" reason ts)).0.watchlist
      ≡ false
removal-tradeable zero_score shaping ts reason db symbol s h =
    let ev = removal zero_score symbol "prune" reason ts in
    elim (Bool-cases (tradeable s (apply_event shaping ts db ev).0.watchlist)) [
      | inr e ↦ e
      | inl e ↦
          let (act, _, _) = apply_event_promotes shaping ts db ev s h e in
          cc ((eq_iff "remove" "add").1 act)
    ]

module _ {X : Type 0} ⦃fl : Float X⦄ (env : RunEnv X) (s : String) where
  -- The candidate is of the symbol and is not refused.
  abbrev pub is_joinable : List String → Verdict X → Bool
  is_joinable refused c = str_eq (candidate_symbol c) s && not (member (candidate_symbol c) refused)

  join_all-tradeable :
      (cls : String) (surfaced refused : List String) (st : Joined X) (cs : List (Verdict X))
      → any (is_joinable refused) cs ≡ false
      → tradeable s st.table.watchlist ≡ false
      → Joins env
          (λ r. tradeable s r.table.watchlist ≡ false)
          (join_all env cls surfaced refused st cs)
  unfolding refuse_candidate add_candidate add_from_discovery
  join_all-tradeable cls surfaced refused st cs none_named h =
      join_all-keeps env cls surfaced refused (λ r. tradeable s r.table.watchlist ≡ false)
        (λ c. is_joinable refused c ≡ false) (λ st c _ m u. u)
        (λ st c b score r m u.
          elim (Bool-cases (tradeable s (add_candidate env cls b st c score).table.watchlist)) [
            | inr e ↦ e
            | inl e ↦
                let (_, same, _) = apply_event_promotes env.shaping env.ts st.table _ s u e in
                ground (arith, r, m, (eq_iff (candidate_symbol c) s).1 same)
          ])
        st cs (any-All (is_joinable refused) cs none_named) h

  abbrev named : Verdict X → Bool
  named c = str_eq (candidate_symbol c) s

  any-joinable :
      (refused : List String) (cs : List (Verdict X))
      → any (is_joinable refused) cs ≡ (any named cs && not (member s refused))
  any-joinable refused [] = refl
  any-joinable refused (c ∷ rest) = elim (Bool-cases (named c)) [
    | inl n ↦ ground (
      arith,
      any-joinable refused rest,
      n,
      ap (λ x. member x refused) ((eq_iff (candidate_symbol c) s).0 n),
    )
    | inr n ↦ ground (arith, any-joinable refused rest, n)
  ]

  member-symbols : (cs : List (Verdict X)) → member s (map candidate_symbol cs) ≡ any named cs
  member-symbols [] = refl
  member-symbols (c ∷ rest) =
      ground
        (arith, member-symbols rest, eq_iff s (candidate_symbol c), eq_iff (candidate_symbol c) s)

  pub any-candidates :
      (cs : List (Verdict X))
      → any named (candidates_of cs) ≡ any (λ c. named c && not (is_avoided c)) cs
  any-candidates [] = refl
  any-candidates (c ∷ rest) = ground (arith, any-candidates rest)

  -- A candidate that joins is of a symbol that the venue serves, if that was verified.
  joinable-served :
      (o : Onboarding × BarsTable) (result : PassResult X)
      → any (is_joinable (unserved o result)) (candidates_of result.candidates) ≡ true
      → (any (λ c. named c && not (is_avoided c)) result.candidates ≡ true)
        × ((not (str_eq o.0.status "ok") || symbol_is_tradeable o.1 s) ≡ true)
  unfolding unserved judge_serviceable
  joinable-served (o, bars) result h =
      let cs = candidates_of result.candidates in
      let symbols = map candidate_symbol cs in
      (
        ground (
          arith,
          h,
          any-joinable (unserved (o, bars) result) cs,
          any-candidates result.candidates,
        ),
        ground (
          arith,
          h,
          any-joinable (unserved (o, bars) result) cs,
          member-keep (λ x. not (symbol_is_tradeable bars x)) s symbols,
          member-symbols cs,
        ),
      )

  finish_promoted :
      (db : DiscoveryDb X) (passes : List Stored) (o : Onboarding × BarsTable) (status : PassStatus)
      (joined : Loop X)
      → Breaks env (λ r. r.committed ≡ db.watchlist) joined
      → tradeable s db.watchlist.watchlist ≡ false
      → tradeable s (finish env passes o status joined).0.watchlist.watchlist ≡ true
      → let r = finish env passes o status joined in
        (is_passed r.1.status ≡ true) × (r.1.onboarding ≡ o.0) × (r.0.bars ≡ o.1)
  unfolding finish
  finish_promoted db passes (o, bars) status (broken_off st) b before after =
      absurd (untrue (sym before ∙ ap (λ t. tradeable s t.watchlist) (sym b) ∙ after))
  finish_promoted db passes (o, bars) status (completed st) b before after = (refl, refl, refl)

module _ {X : Type 0} ⦃fl : Float X⦄ (env : RunEnv X) (now : Moment) (cls : AssetClass)
    (db : DiscoveryDb X) (s : String) where
  -- What a pass that made the symbol tradeable has met
  abbrev pub Confirmed : DiscoveryDb X × Report → List (Snapshot X) → Type 0
  Confirmed r snapshots =
      (is_passed r.1.status ≡ true)
      × (env.snapshots_for (screened_universe env cls db.watchlist) ≡ some snapshots)
      × (any (λ c. str_eq (candidate_symbol c) s && not (is_avoided c))
            (funnel_pass env now cls db.passes snapshots).candidates
          ≡ true)
      × ((not (str_eq r.1.onboarding.status "ok") || symbol_is_tradeable r.0.bars s) ≡ true)

  run_snapshots_promotes :
      (snapshots : List (Snapshot X))
      → env.snapshots_for (screened_universe env cls db.watchlist) ≡ some snapshots
      → tradeable s db.watchlist.watchlist ≡ false
      → tradeable s (run_snapshots env now cls db snapshots).0.watchlist.watchlist ≡ true
      → Confirmed (run_snapshots env now cls db snapshots) snapshots
  unfolding run_snapshots
  run_snapshots_promotes snapshots fetched before after =
      let result = funnel_pass env now cls db.passes snapshots in
      let o = onboarded env db.bars result in
      let cs = candidates_of result.candidates in
      let start : Joined X = record {
        committed = db.watchlist;
        table = db.watchlist;
        added = [];
        refused = [];
      } in
      let kept =
        join_all-committed env (class_name cls) result.whale_surfaced (unserved o result) start
          cs in
      let (ended, same_onboarding, same_bars) =
        finish_promoted env s db _ o _ _ kept before after in
      elim (Bool-cases (any (is_joinable env s (unserved o result)) cs)) [
        | inl j ↦
            let (named, served) = joinable-served env s o result j in
            (
              ended,
              fetched,
              named,
              ground (
                arith,
                served,
                ap (λ x. x.status) same_onboarding,
                ap (λ t. symbol_is_tradeable t s) same_bars,
              ),
            )
        | inr j ↦ absurd (
            untrue (
              sym (
                finish-keeps env (λ t. tradeable s t.watchlist ≡ false) db _ o _ _ before kept
                  (Joins-map env _ _
                    (λ st.
                      trimmed-keeps env (λ t. tradeable s t.watchlist ≡ false)
                        (λ reason t symbol. removal-tradeable _ _ _ reason t symbol s) st.table)
                    _
                    (join_all-tradeable env s (class_name cls) result.whale_surfaced
                      (unserved o result) start cs j before)))
              ∙ after))
      ]

  -- A discovery pass makes a symbol tradeable only if it came to its end, the funnel judged the
  -- snapshots of the screened universe and named the symbol in a candidate that is not avoided, and,
  -- where the backfill ran, the bars table then shows the symbol a real history.
  pub run_once_promotes :
      tradeable s db.watchlist.watchlist ≡ false
      → tradeable s (run_once env now cls db).0.watchlist.watchlist ≡ true
      → (snapshots : List (Snapshot X)) × Confirmed (run_once env now cls db) snapshots
  run_once_promotes before =
      run_once-cases env now cls db
        (λ r.
          tradeable s r.0.watchlist.watchlist ≡ true
          → (snapshots : List (Snapshot X)) × Confirmed r snapshots)
        (λ status _ after. absurd (untrue (sym before ∙ after)))
        (λ snapshots fetched after.
          (snapshots, run_snapshots_promotes snapshots fetched before after))
