-- ===== src/Council/Round/Spend.antt =====
-- When the council spends money, and what it returns when it does not.
use ai_trader.Base.{
  ℕ, ◌+◌, ◌*◌, ◌≤◌, ◌<◌, ◌≡◌, ◌↔◌, refl, ap, sym, subst, ◌∙◌, Bool, true, false, ◌&&◌, ◌||◌, not,
  arith, if◌then◌else◌, Bool-cases, Option-cases, inl, inr, Float, Option, none, some, List, [],
  ◌∷◌, ◌++◌, any, String, str_eq, is_some, is_text,
}
use ai_trader.Council.Gate.{GateDecision}
use ai_trader.Council.Vote.{ConsensusResult}
use ai_trader.Council.Round.{
  State, Moment, us_equity_market_open, Call, score_call, Provider, Round, refusal_recorded,
  risk_precheck_skip, market_hours_skip, is_open, flat_consensus, refused_consensus, score_calls,
  council_round, consensus,
}

-- The fallback clock is open from Monday to Friday, from 13:30 to before 20:00.
pub us_equity_market_open_iff :
    (now : Moment)
    → (us_equity_market_open now ≡ true) ↔ (
        (now.weekday < 5)
        × (810 ≤ now.hour * 60 + now.minute)
        × (now.hour * 60 + now.minute < 1200))
unfolding us_equity_market_open
us_equity_market_open_iff now = (λ h. ground arith, λ h. ground arith)

-- The call asks a provider.
abbrev pub asks : Call → Bool
asks (score_call n) = true
asks _ = false

module _ {E : Type 0} where
  -- The two skips before the evidence is looked at: a blocked trade, and a whitelisted equity
  -- outside its hours
  abbrev pub skipped : (String → String) → Bool → Moment → State E → Bool
  skipped normal hours_only now s =
      (s.risk_precheck_block || s.risk_blocked)
      || (hours_only
          && (str_eq (normal s.symbol) "SPY" || str_eq (normal s.symbol) "QQQ")
          && not (is_open now s.market_open))

  risk_precheck_skip-is_some :
      (s : State E) → is_some (risk_precheck_skip s) ≡ (s.risk_precheck_block || s.risk_blocked)
  unfolding risk_precheck_skip
  risk_precheck_skip-is_some s = ground arith

  market_hours_skip-is_some :
      (normal : String → String) (hours_only : Bool) (now : Moment) (s : State E)
      → is_some (market_hours_skip normal hours_only now s) ≡ (
          hours_only
          && (str_eq (normal s.symbol) "SPY" || str_eq (normal s.symbol) "QQQ")
          && not (is_open now s.market_open))
  unfolding market_hours_skip
  market_hours_skip-is_some normal hours_only now s = ground arith

-- A round that asks nobody: flat, without verdicts, and what it says of the reason
module _ {X : Type 0} ⦃fl : Float X⦄ where
  abbrev pub IsFlat : ConsensusResult X → Type 0
  IsFlat r =
      (r.bias ≡ fl.lit 0 0)
      × (r.confidence ≡ fl.lit 0 0)
      × (r.edge ≡ fl.lit 0 0)
      × (r.agreement_count ≡ 0)
      × (r.per_model ≡ [])

module _ {X E : Type 0} ⦃fl : Float X⦄ (normal : String → String) (hours_only : Bool) (now : Moment)
    (build_state : State E → State E) (evidence_refusal : State E → Option String)
    (gate : State E → GateDecision) where
  run : List (Provider X E) → State E → Round X
  run ps s = consensus normal hours_only now build_state evidence_refusal gate ps s

  -- A skip, a refusal, or the council's round
  data Outcome (ps : List (Provider X E)) (s : State E) : Type 0 where
    by_skip :
        (d : GateDecision)
        → skipped normal hours_only now s ≡ true
        → run ps s ≡ record { result = flat_consensus d; calls = [] }
        → Outcome ps s
    by_refusal :
        (why : String)
        → skipped normal hours_only now s ≡ false
        → evidence_refusal (build_state s) ≡ some why
        → run ps s ≡ record {
          result = refused_consensus why;
          calls = if is_text (build_state s).db then refusal_recorded ∷ [] else [];
        }
        → Outcome ps s
    by_round :
        skipped normal hours_only now s ≡ false
        → evidence_refusal (build_state s) ≡ none
        → run ps s ≡ council_round gate ps (build_state s)
        → Outcome ps s

  outcome : (ps : List (Provider X E)) (s : State E) → Outcome ps s
  unfolding run consensus
  outcome ps s = elim (Option-cases (risk_precheck_skip s)) [
    | inr (d, e) ↦
        by_skip d (ground (arith, risk_precheck_skip-is_some s, ap is_some e))
          (ap (λ a. pick a (market_hours_skip normal hours_only now s) (evidence_refusal built)) e)
    | inl e ↦ elim (Option-cases (market_hours_skip normal hours_only now s)) [
      | inr (d, f) ↦
          by_skip d
            (ground (arith, market_hours_skip-is_some normal hours_only now s, ap is_some f))
            (ap (λ a. pick a (market_hours_skip normal hours_only now s) (evidence_refusal built)) e
              ∙ ap (λ b. pick none b (evidence_refusal built)) f)
      | inl f ↦ elim (Option-cases (evidence_refusal (build_state s))) [
        | inr (why, g) ↦ by_refusal why (passed e f) g (ran e f g)
        | inl g ↦ by_round (passed e f) g (ran e f g)
      ]
    ]
  ]
    where
      built : State E
      built = build_state s

      pick : Option GateDecision → Option GateDecision → Option String → Round X
      pick a b c = elim a [
        | some d ↦ record { result = flat_consensus d; calls = [] }
        | none ↦ elim b [
          | some d ↦ record { result = flat_consensus d; calls = [] }
          | none ↦ elim c [
            | some why ↦ record {
              result = refused_consensus why;
              calls = if is_text built.db then refusal_recorded ∷ [] else [];
            }
            | none ↦ council_round gate ps built
          ]
        ]
      ]

      ran :
          {o : Option String}
          → risk_precheck_skip s ≡ none
          → market_hours_skip normal hours_only now s ≡ none
          → evidence_refusal built ≡ o
          → run ps s ≡ pick none none o
      ran e f g =
          ap (λ a. pick a (market_hours_skip normal hours_only now s) (evidence_refusal built)) e
          ∙ ap (λ b. pick none b (evidence_refusal built)) f
          ∙ ap (pick none none) g

      passed :
          risk_precheck_skip s ≡ none
          → market_hours_skip normal hours_only now s ≡ none
          → skipped normal hours_only now s ≡ false
      passed e f = ground (
        arith,
        risk_precheck_skip-is_some s,
        ap is_some e,
        market_hours_skip-is_some normal hours_only now s,
        ap is_some f,
      )

  asks-score_calls :
      (n : ℕ) (p : Provider X E) (ps : List (Provider X E)) (rest : List Call)
      → any asks (score_calls n (p ∷ ps) ++ rest) ≡ true
  asks-score_calls n p ps rest = refl

  council_round-asks_iff :
      (p : Provider X E) (ps : List (Provider X E)) (s : State E)
      → (any asks (council_round gate (p ∷ ps) s).calls ≡ true) ↔ ((gate s).proceed ≡ true)
  unfolding council_round
  council_round-asks_iff p ps s = (λ h. ground arith, λ h. ground arith)

  -- Providers are asked exactly when the trade is neither blocked nor outside its market's hours,
  -- the assembled evidence clears the minimum, and the gate lets it through.
  pub consensus-asks_iff :
      (p : Provider X E) (ps : List (Provider X E)) (s : State E)
      → (any asks
            (consensus normal hours_only now build_state evidence_refusal gate (p ∷ ps) s).calls
          ≡ true)
        ↔ ((skipped normal hours_only now s ≡ false)
            × (evidence_refusal (build_state s) ≡ none)
            × ((gate (build_state s)).proceed ≡ true))
  unfolding run
  consensus-asks_iff p ps s = elim (outcome (p ∷ ps) s) [
    | by_skip d k e ↦ (λ h. cc (h, ap (λ r. any asks r.calls) e), λ (k', _, _). cc (k, k'))
    | by_refusal why k g e ↦ (
      λ h. cc (h, ap (λ r. any asks r.calls) e, refused-asks (build_state s)),
      λ (_, g', _). cc (sym g ∙ g'),
    )
    | by_round k g e ↦
        let (to, from) = council_round-asks_iff p ps (build_state s) in
        (
          λ h. (k, g, to (sym (ap (λ r. any asks r.calls) e) ∙ h)),
          λ (_, _, d). ap (λ r. any asks r.calls) e ∙ from d,
        )
  ]
    where
      refused-asks :
          (b : State E) → any asks (if is_text b.db then refusal_recorded ∷ [] else []) ≡ false
      refused-asks b = ground arith

  -- A round in which no provider was asked is flat: no bias, no verdicts, and either the gate's
  -- decision or the refusal says why.
  pub consensus_unasked :
      (p : Provider X E) (ps : List (Provider X E)) (s : State E)
      → any asks
          (consensus normal hours_only now build_state evidence_refusal gate (p ∷ ps) s).calls
        ≡ false
      → IsFlat (consensus normal hours_only now build_state evidence_refusal gate (p ∷ ps) s).result
  unfolding run flat_consensus refused_consensus council_round
  consensus_unasked p ps s h = elim (outcome (p ∷ ps) s) [
    | by_skip d k e ↦ subst (λ r. IsFlat r.result) (sym e) (refl, refl, refl, refl, refl)
    | by_refusal why k g e ↦ subst (λ r. IsFlat r.result) (sym e) (refl, refl, refl, refl, refl)
    | by_round k g e ↦ elim (Bool-cases (gate (build_state s)).proceed) [
      | inl d ↦
          cc (h, ap (λ r. any asks r.calls) e, (council_round-asks_iff p ps (build_state s)).1 d)
      | inr d ↦ subst (λ r. IsFlat r.result) (sym e) (rw d (refl, refl, refl, refl, refl))
    ]
  ]
