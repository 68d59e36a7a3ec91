-- ===== src/Council/Vote/Laws.antt =====
-- What the vote counts, and who takes part in it.
use ai_trader.Base.{
  ℕ, ◌+◌, ◌≤◌, ◌≡◌, refl, ap, sym, Bool, true, false, ◌&&◌, not, arith, if◌then◌else◌, Bool-cases,
  inl, inr, Float, List, [], ◌∷◌, keep, count, any, length, map, String, str_eq, pos, minus_add,
}
use ai_trader.Council.Gate.{GateDecision}
use ai_trader.Council.Vote.{
  ModelVerdict, Voter, ConsensusResult, is_error, is_exhausted, bias_to_verdict, is_directional,
  votes_directional, errors_of, tally, weighted, agrees, sign_of,
}

module _ {ℓ} {A : Type ℓ} where
  keep_idem : (p : A → Bool) (xs : List A) → keep p (keep p xs) ≡ keep p xs
  keep_idem p [] = refl
  keep_idem p (x ∷ xs) = elim (Bool-cases (p x)) [
    | inl e ↦ rw e (rw e (ap (λ ys. x ∷ ys) (keep_idem p xs)))
    | inr e ↦ rw e (keep_idem p xs)
  ]

module _ {X : Type 0} where
  length-verdicts : (voters : List (Voter X)) → length (map (λ w. w.cast) voters) ≡ length voters
  length-verdicts [] = refl
  length-verdicts (w ∷ voters) = omega (arith, length-verdicts voters)

  -- Every exhausted verdict is a non-answer.
  exhausted_error : (vs : List (ModelVerdict X)) → count is_exhausted vs ≤ count is_error vs
  exhausted_error [] = omega arith
  exhausted_error (v ∷ vs) = ground (arith, exhausted_error vs)

module _ {X : Type 0} ⦃fl : Float X⦄ where
  -- A provider that read the evidence and held
  abbrev pub is_hold : Voter X → Bool
  is_hold w = not (is_directional w.cast) && not (is_error w.cast)

  -- A verdict that is no answer and yet has a direction
  abbrev pub is_stray : Voter X → Bool
  is_stray w = is_error w.cast && is_directional w.cast

  count_partition :
      (voters : List (Voter X))
      → any is_stray voters ≡ false
      → length voters
        ≡ length (keep votes_directional voters)
          + count is_error (map (λ w. w.cast) voters)
          + count is_hold voters
  count_partition [] h = omega arith
  count_partition (w ∷ voters) h = ground (arith, count_partition voters)

  -- Where no failed call carries a direction, every provider counts once: the abstentions are the
  -- considered holds, and directions, abstentions, errors and exhausted accounts make up the
  -- council.
  pub tally_partition :
      (decision : GateDecision) (voters : List (Voter X))
      → any is_stray voters ≡ false
      → ((tally decision voters).abstentions ≡ pos (count is_hold voters))
        × ((tally decision voters).directional_count
              + count is_hold voters
              + (tally decision voters).errors
              + (tally decision voters).exhausted
            ≡ length voters)
  unfolding tally errors_of
  tally_partition decision voters h =
      let verdicts = map (λ w. w.cast) voters in
      let split = count_partition voters h in
      let le = exhausted_error verdicts in
      (
        minus_add _ _ (count is_hold voters) (omega (arith, split, le, length-verdicts voters)),
        omega (arith, split, le),
      )

  -- Two results of one vote: bias, confidence, edge, verdict, agreement and the directional count
  abbrev pub SameVote : ConsensusResult X → ConsensusResult X → Type 0
  SameVote r q =
      (r.bias ≡ q.bias)
      × (r.confidence ≡ q.confidence)
      × (r.edge ≡ q.edge)
      × (r.verdict ≡ q.verdict)
      × (r.agreement_count ≡ q.agreement_count)
      × (r.directional_count ≡ q.directional_count)

  -- The consensus is the consensus of the directional voters alone: leaving out every hold and
  -- every failed call without a direction changes neither the bias, confidence and edge nor the
  -- verdict and the agreement.
  pub tally-keep :
      (decision : GateDecision) (voters : List (Voter X))
      → SameVote (tally decision voters) (tally decision (keep votes_directional voters))
  unfolding tally
  tally-keep decision voters =
      let same = sym (keep_idem votes_directional voters) in
      (
        ap (weighted (λ v. v.bias)) same,
        ap (weighted (λ v. v.confidence)) same,
        ap (weighted (λ v. v.edge)) same,
        ap (λ ws. bias_to_verdict (weighted (λ v. v.bias) ws)) same,
        ap (λ ws. count (agrees (sign_of (weighted (λ v. v.bias) ws))) ws) same,
        ap length same,
      )

-- The place of a verdict from strong_sell to strong_buy
abbrev pub rank : String → ℕ
rank v =
    if str_eq v "strong_sell"
    then 0
    else if str_eq v "sell"
    then 1
    else if str_eq v "hold"
    then 2
    else if str_eq v "buy"
    then 3
    else 4

-- The laws of an order that the buckets use: `<=` and `<` against a third number
pub record IsOrder {X : Type 0} (fl : Float X) : Type 0 where
  pub le_le : (a b c : X) → fl.le a b ≡ true → fl.le b c ≡ true → fl.le a c ≡ true
  pub le_lt : (a b c : X) → fl.le a b ≡ true → fl.lt b c ≡ true → fl.lt a c ≡ true

module _ {X : Type 0} ⦃fl : Float X⦄ where
  rank-bias_to_verdict :
      (a : X)
      → rank (bias_to_verdict a) ≡ (
          if fl.le a (fl.neg (fl.lit 6 1))
          then 0
          else if fl.le a (fl.neg (fl.lit 2 1))
          then 1
          else if fl.lt a (fl.lit 2 1)
          then 2
          else if fl.lt a (fl.lit 6 1)
          then 3
          else 4)
  unfolding bias_to_verdict
  rank-bias_to_verdict a = elim (Bool-cases (fl.le a (fl.neg (fl.lit 6 1)))) [
    | inl e ↦ rw e refl
    | inr e ↦ rw e (elim (Bool-cases (fl.le a (fl.neg (fl.lit 2 1)))) [
      | inl f ↦ rw f refl
      | inr f ↦ rw f (elim (Bool-cases (fl.lt a (fl.lit 2 1))) [
        | inl g ↦ rw g refl
        | inr g ↦
            rw g
              (elim (Bool-cases (fl.lt a (fl.lit 6 1))) [ inl k ↦ rw k refl | inr k ↦ rw k refl ])
      ])
    ])
  ]

  -- A larger bias never gives a more bearish verdict.
  pub bias_to_verdict_monotone :
      (a b : X)
      → IsOrder fl
      → fl.le a b ≡ true
      → rank (bias_to_verdict a) ≤ rank (bias_to_verdict b)
  bias_to_verdict_monotone a b o h = ground (
    arith,
    rank-bias_to_verdict a,
    rank-bias_to_verdict b,
    o.le_le a b (fl.neg (fl.lit 6 1)) h,
    o.le_le a b (fl.neg (fl.lit 2 1)) h,
    o.le_lt a b (fl.lit 2 1) h,
    o.le_lt a b (fl.lit 6 1) h,
  )
