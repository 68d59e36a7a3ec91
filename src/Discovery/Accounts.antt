-- ===== src/Discovery/Accounts.antt =====
-- No candidate of a pass is lost between the funnel and the watchlist.
use ai_trader.Base.{
  ◌≡◌, sym, subst, ◌∙◌, ap, Bool, true, false, ◌&&◌, ◌||◌, not, arith, some, List, [], ◌∷◌, any,
  any-append, String, str_eq, is_text, eq_iff, Float, Bool-cases, Option-cases, inl, inr,
}
use ai_trader.Watchlist.{member}
use ai_trader.Watchlist.Invariant.{add_from_discovery-applied}
use ai_trader.Universe.{BarsTable, get_or}
use ai_trader.Funnel.Screen.{Snapshot}
use ai_trader.Funnel.Evaluate.{Verdict}
use ai_trader.Funnel.Pass.{PassStatus}
use ai_trader.Funnel.Day.{AssetClass, Moment}
use ai_trader.Discovery.State.{Stored, DiscoveryDb, RunEnv, class_name}
use ai_trader.Discovery.Onboard.{Onboarding}
use ai_trader.Discovery.Join.{
  Joined, candidate_symbol, is_avoided, candidates_of, conviction_of, refuse_candidate,
  add_candidate, join_all, Loop, completed, broken_off,
}
use ai_trader.Discovery.Run.{finish, run_snapshots, funnel_pass, is_passed}
use ai_trader.Discovery.Steps.{
  Joins, join_all-keeps, join_all_refused, join_all_raised, join_all_added,
}
use ai_trader.Discovery.Table.{everywhere, untrue}
use ai_trader.Discovery.Promotion.{any-candidates}

module _ {X : Type 0} ⦃fl : Float X⦄ (env : RunEnv X) (cls : String) (s : String) where
  -- The symbol was taken on or refused.
  abbrev IsHandled : Joined X → Type 0
  IsHandled st = (member s st.added || member s st.refused) ≡ true

  refuse-IsHandled :
      (st : Joined X) (symbol : String) → IsHandled st → IsHandled (refuse_candidate env st symbol)
  unfolding refuse_candidate
  refuse-IsHandled st symbol h = ground (arith, h, any-append (str_eq s) st.refused (symbol ∷ []))

  add-IsHandled :
      (st : Joined X) (c : Verdict X) (b : Bool) (score : X)
      → IsHandled st
      → IsHandled (add_candidate env cls b st c score)
  unfolding add_candidate
  add-IsHandled st c b score h =
      ground (arith, h, any-append (str_eq s) st.added (candidate_symbol c ∷ []))

  -- A refusal handles its symbol.
  refuse_handles : (st : Joined X) → IsHandled (refuse_candidate env st s)
  unfolding refuse_candidate
  refuse_handles st = ground (arith, eq_iff s s, any-append (str_eq s) st.refused (s ∷ []))

  -- An add of a symbol that is not empty is applied.
  add_handles :
      (st : Joined X) (c : Verdict X) (b : Bool) (score : X)
      → is_text s ≡ true
      → candidate_symbol c ≡ s
      → IsHandled (add_candidate env cls b st c score)
  unfolding add_candidate
  add_handles st c b score named same =
      let symbol = candidate_symbol c in
      let text : str_eq symbol "" ≡ false = elim (Bool-cases (str_eq symbol "")) [
        | inr e ↦ e
        | inl e ↦ absurd (untrue (ap is_text (sym ((eq_iff symbol "").0 e) ∙ same) ∙ named))
      ] in
      let applied =
        add_from_discovery-applied env.shaping env.ts st.table symbol (env.add_reason c b)
          (get_or "quant_core" c.sleeve_target) score cls (some env.ts) text in
      ground (
        arith,
        applied,
        any-append (str_eq s) st.added (symbol ∷ []),
        (eq_iff s symbol).1 (sym same),
      )

  abbrev named : Verdict X → Bool
  named c = str_eq (candidate_symbol c) s

  join_all-IsHandled :
      (surfaced refused : List String) (st : Joined X) (cs : List (Verdict X))
      → IsHandled st
      → Joins env IsHandled (join_all env cls surfaced refused st cs)
  join_all-IsHandled surfaced refused st cs h =
      join_all-keeps env cls surfaced refused IsHandled (λ c. Unit)
        (λ st c _ m k. refuse-IsHandled st (candidate_symbol c) k)
        (λ st c b score _ m k. add-IsHandled st c b score k) st cs
        (everywhere (λ c. Unit) (λ c. tt) cs) h

  -- A loop that comes to its end handles every candidate of the symbol.
  join_all_handles :
      (surfaced refused : List String) (st : Joined X) (cs : List (Verdict X))
      → is_text s ≡ true
      → any named cs ≡ true
      → Joins env IsHandled (join_all env cls surfaced refused st cs)
  join_all_handles surfaced refused st [] text h = absurd (untrue h)
  join_all_handles surfaced refused st (c ∷ rest) text h =
      let later : (st' : Joined X)
          → (named c ≡ true → IsHandled st')
          → Joins env IsHandled (join_all env cls surfaced refused st' rest) =
        λ st' here. elim (Bool-cases (named c)) [
          | inl n ↦ join_all-IsHandled surfaced refused st' rest (here n)
          | inr n ↦ join_all_handles surfaced refused st' rest text (ground (arith, h, n))
        ] in
      elim (Bool-cases (member (candidate_symbol c) refused)) [
        | inl m ↦
            subst (Joins env IsHandled)
              (sym (join_all_refused env cls surfaced refused st c rest m))
              (later (refuse_candidate env st (candidate_symbol c)) (λ n.
                subst (λ x. IsHandled (refuse_candidate env st x)) (sym ((eq_iff _ s).0 n))
                  (refuse_handles st)))
        | inr m ↦ elim (Option-cases (conviction_of c.conviction)) [
          | inl e ↦
              subst (Joins env IsHandled)
                (sym (join_all_raised env cls surfaced refused st c rest m e)) tt
          | inr (score, e) ↦
              let b = member (candidate_symbol c) surfaced in
              subst (Joins env IsHandled)
                (sym (join_all_added env cls surfaced refused st c rest score m e))
                (later (add_candidate env cls b st c score)
                  (λ n. add_handles st c b score text ((eq_iff _ s).0 n)))
        ]
      ]

  finish-handled :
      (passes : List Stored) (o : Onboarding × BarsTable) (status : PassStatus) (joined : Loop X)
      → Joins env IsHandled joined
      → let r = finish env passes o status joined in
        is_passed r.1.status ≡ true → (member s r.1.added || member s r.1.refused) ≡ true
  unfolding finish
  finish-handled passes (o, bars) status (broken_off st) h t = absurd (untrue t)
  finish-handled passes (o, bars) status (completed st) h t = h

module _ {X : Type 0} ⦃fl : Float X⦄ (env : RunEnv X) (now : Moment) (cls : AssetClass) where
  -- A pass over its snapshots that comes to its end takes on or refuses every symbol, not empty, that
  -- the funnel named in a candidate which is not avoided.
  pub run_snapshots_accounts :
      (db : DiscoveryDb X) (snapshots : List (Snapshot X)) (s : String)
      → is_text s ≡ true
      → any
          (λ c. str_eq (candidate_symbol c) s && not (is_avoided c))
          (funnel_pass env now cls db.passes snapshots).candidates
        ≡ true
      → is_passed (run_snapshots env now cls db snapshots).1.status ≡ true
      → let report = (run_snapshots env now cls db snapshots).1 in
        (member s report.added || member s report.refused) ≡ true
  unfolding run_snapshots
  run_snapshots_accounts db snapshots s text h =
      let result = funnel_pass env now cls db.passes snapshots in
      finish-handled env (class_name cls) s _ _ _ _ (
        join_all_handles env (class_name cls) s _ _ _ (candidates_of result.candidates) text
          (any-candidates env s result.candidates ∙ h))
