-- ===== src/Provider/Session/Latching.antt =====
-- The exhaustion latch over a process: once it holds, the provider is not called again.
use ai_trader.Base.{
  ℕ, zero, suc, ◌+◌, ◌≡◌, refl, arith, Bool, true, ◌||◌, Option, none, some, is_some, is_text, leb,
  List, [], ◌∷◌, ◌++◌, All, String, str_eq, eq_iff, Option-cases, str_take, ◌==◌, ltb, Float,
  Bool-cases, inl, inr, keep, subst, ap, sym, ◌∙◌,
}
use ai_trader.Provider.Health.{
  Language, Failure, Kind, transient, exhausted, no_retry, Latch, entry, classify, mark_exhausted,
  is_exhausted, new_entry,
}
use ai_trader.Provider.Call.{
  Provider, World, Outcome, replied, failed, Event, Ending, returned, raised, Attempted,
  retry_backoff, min_retry_budget, after_failure, settle, max_attempts, attempt_from,
  call_with_retry,
}
use ai_trader.Provider.Score.{
  Payload, Scoring, score, verdict_from_payload, ended_scoring, replied_scoring, failed_scoring,
}
use ai_trader.Provider.Session.{Turn, take_turn, session}

entry-append :
    (key : String) (xs ys : Latch)
    → is_some (entry key (xs ++ ys)) ≡ (is_some (entry key xs) || is_some (entry key ys))
entry-append key [] ys = refl
entry-append key ((k, e) ∷ rest) ys = ground (arith, entry-append key rest ys)

module _ (lang : Language) where
  -- Two labels name the same provider account.
  abbrev pub same_account : String → String → Bool
  same_account a b = str_eq (lang.strip_lower a) (lang.strip_lower b)

  -- The latch holds the provider of a label.
  abbrev pub Holding : String → Latch → Type 0
  Holding label latch = is_exhausted lang label latch ≡ true

  mark_exhausted-Holding :
      (held now label model_id detail : String) (latch : Latch)
      → Holding held latch
      → Holding held (mark_exhausted lang now label model_id detail latch)
  unfolding mark_exhausted
  mark_exhausted-Holding held now label model_id detail latch h = ground (
    arith,
    h,
    entry-append (lang.strip_lower held) latch (new_entry lang now label model_id detail ∷ []),
  )

  pub mark_exhausted_holds :
      (now label model_id detail : String) (latch : Latch)
      → is_text (lang.strip_lower label) ≡ true
      → Holding label (mark_exhausted lang now label model_id detail latch)
  unfolding mark_exhausted
  mark_exhausted_holds now label model_id detail latch h =
      let key = lang.strip_lower label in
      ground (
        arith,
        h,
        (eq_iff key key).1 refl,
        entry-append key latch (new_entry lang now label model_id detail ∷ []),
      )

  -- Attempts keep what the latch holds.
  module _ (p : Provider) (w : World) (held : String) where
    after_failure-Holding :
        (left deadline reading : ℕ) (latch : Latch) (f : Failure) (kind : Kind) (again : Attempted)
        → Holding held latch
        → Holding held again.latch
        → Holding held (after_failure lang p w left deadline reading latch f kind again).latch
    unfolding after_failure
    after_failure-Holding left deadline reading latch f exhausted again h k =
        mark_exhausted-Holding held w.now p.label p.model_id (str_take 300 f.message) latch h
    after_failure-Holding left deadline reading latch f no_retry again h k = h
    after_failure-Holding left deadline reading latch f transient again h k =
        elim (Bool-cases (left == 0)) [
          | inl last ↦ rw last h
          | inr more ↦
              rw more
                (elim (Bool-cases
                  (ltb deadline (w.clock reading + retry_backoff + min_retry_budget))) [
                    | inl late ↦ rw late h
                    | inr time ↦ rw time k
                  ])
        ]

    settle-Holding :
        (left deadline attempts reading budget : ℕ) (latch : Latch) (o : Outcome)
        (again : Failure → Attempted)
        → Holding held latch
        → ((f : Failure) → Holding held (again f).latch)
        → Holding held (settle lang p w left deadline attempts reading budget latch o again).latch
    unfolding settle
    settle-Holding left deadline attempts reading budget latch (replied text) again h k = h
    settle-Holding left deadline attempts reading budget latch (failed f) again h k =
        after_failure-Holding left deadline (suc reading) latch f (classify lang p.label f)
          (again f) h (k f)

    attempt_from-Holding :
        (left deadline attempts reading : ℕ) (last : Option Failure) (latch : Latch)
        → Holding held latch
        → Holding held (attempt_from lang p w left deadline attempts reading last latch).latch
    unfolding attempt_from
    attempt_from-Holding zero deadline attempts reading last latch h = h
    attempt_from-Holding (suc left) deadline attempts reading last latch h =
        elim (Bool-cases (leb deadline (w.clock reading))) [
          | inl late ↦ rw late h
          | inr time ↦ rw time (
              settle-Holding left deadline attempts reading _ latch (w.calls attempts) _ h (λ f.
                attempt_from-Holding left deadline (suc attempts) (suc (suc reading)) (some f) latch
                  h))
        ]

module _ (X : Type 0) ⦃fl : Float X⦄ (lang : Language) where
  failed_scoring-latch :
      (p : Provider) (kind : Kind) (latch : Latch) (events : List Event)
      → ((failed_scoring {X = X} lang p kind latch events).latch ≡ latch)
        × ((failed_scoring {X = X} lang p kind latch events).events ≡ events)
  unfolding failed_scoring
  failed_scoring-latch p exhausted latch events = (refl, refl)
  failed_scoring-latch p transient latch events = (refl, refl)
  failed_scoring-latch p no_retry latch events = (refl, refl)

module _ {X : Type 0} ⦃fl : Float X⦄ (lang : Language) where
  replied_scoring-latch :
      (p : Provider) (obj : Option (Payload X)) (attempts : ℕ) (latch : Latch) (events : List Event)
      → ((replied_scoring lang p obj attempts latch events).latch ≡ latch)
        × ((replied_scoring lang p obj attempts latch events).events ≡ events)
  unfolding replied_scoring
  replied_scoring-latch p none attempts latch events = (refl, refl)
  replied_scoring-latch p (some obj) attempts latch events =
      elim (Option-cases (verdict_from_payload lang p.name obj "real" p.model_id)) [
        | inl bad ↦ rw (bad, replied_scoring) (refl, refl)
        | inr (v, good) ↦ rw (good, replied_scoring) (refl, refl)
      ]

  -- The verdict leaves the latch and the record of what was done as the attempts left them.
  ended_scoring-latch :
      (p : Provider) (extract : String → Option (Payload X)) (e : Ending) (latch : Latch)
      (events : List Event)
      → ((ended_scoring lang p extract e latch events).latch ≡ latch)
        × ((ended_scoring lang p extract e latch events).events ≡ events)
  unfolding ended_scoring
  ended_scoring-latch p extract (returned text attempts) latch events =
      replied_scoring-latch p (extract text) attempts latch events
  ended_scoring-latch p extract (raised f) latch events =
      failed_scoring-latch X lang p (classify lang p.label f) latch events

  score-Holding :
      (held : String) (latch : Latch) (t : Turn X)
      → Holding lang held latch
      → Holding lang held (take_turn lang latch t).latch
  unfolding take_turn score call_with_retry
  score-Holding held latch t h = elim (Bool-cases t.has_key) [
    | inr no_key ↦ rw no_key h
    | inl key ↦ rw key (elim (Bool-cases (is_exhausted lang t.provider.label latch)) [
      | inl off ↦ rw off h
      | inr on ↦ rw on (
          let a = call_with_retry lang t.provider t.world latch in
          subst (λ l. Holding lang held l)
            (sym (ended_scoring-latch t.provider t.extract a.ending a.latch a.events).0)
            (attempt_from-Holding lang t.provider t.world held max_attempts
              (t.world.clock 0 + t.provider.timeout) 0 1 none latch h))
    ])
  ]

  abbrev pub of_account : String → Turn X × Scoring X → Bool
  of_account label (t, s) = same_account lang t.provider.label label

  -- Nothing happened in a scoring: no attempt was made.
  abbrev pub Uncalled : Turn X × Scoring X → Type 0
  Uncalled (t, s) = s.events ≡ []

  score_uncalled :
      (label : String) (latch : Latch) (t : Turn X)
      → Holding lang label latch
      → same_account lang t.provider.label label ≡ true
      → (take_turn lang latch t).events ≡ []
  unfolding take_turn score is_exhausted
  score_uncalled label latch t h same = elim (Bool-cases t.has_key) [
    | inr no_key ↦ rw no_key refl
    | inl key ↦
        let off : is_exhausted lang t.provider.label latch ≡ true =
          ap (λ k. is_some (entry k latch)) ((eq_iff _ _).0 same) ∙ h in
        rw (key, off) refl
  ]

  pub session-Uncalled :
      (label : String) (latch : Latch) (turns : List (Turn X))
      → Holding lang label latch
      → All Uncalled (keep (of_account label) (session lang latch turns))
  unfolding session
  session-Uncalled label latch [] h = tt
  session-Uncalled label latch (t ∷ rest) h =
      let later =
        session-Uncalled label (take_turn lang latch t).latch rest
          (score-Holding label latch t h) in
      elim (Bool-cases (same_account lang t.provider.label label)) [
        | inl same ↦ rw same (score_uncalled label latch t h same, later)
        | inr other ↦ rw other later
      ]
