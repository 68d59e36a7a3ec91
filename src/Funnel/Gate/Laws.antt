-- ===== src/Funnel/Gate/Laws.antt =====
-- Whom the cheap gate lets through, and how often it is asked.
use ai_trader.Base.{
  ℕ, suc, ◌+◌, ◌-◌, ◌≤◌, ◌<◌, le_or_gt, ◌≡◌, refl, arith, Bool, true, false, Option, none, some,
  leb, if◌then◌else◌, List, [], ◌∷◌, ◌++◌, map, keep, take, length, length-append, count,
  add-count_last, count_last-add, str_eq, append-nil, append_middle, Bool-cases, le→leb, lt_not_leb,
  take-nil, String, Float, ℤ, at_least_zero, inl, inr, ap, sym, ◌∙◌,
}
use ai_trader.Council.Gate.{GateDecision}
use ai_trader.Funnel.Screen.{Finalist}
use ai_trader.Funnel.Screen.Laws.{symbol_of, kept_as, dropped_as}
use ai_trader.Funnel.Gate.{
  GateState, Gated, gate_state, screened, gate_from, gate_finalists, gate_step, no_gated,
}

abbrev pub lets_through : Option GateDecision → Bool
lets_through none = true
lets_through (some d) = d.proceed

module _ {X : Type 0} ⦃fl : Float X⦄ (should_review : GateState X → Option GateDecision) where
  -- The gate answers yes, or it raises.
  abbrev pub passes : Finalist X → Bool
  passes f = lets_through (should_review (gate_state f))

  if-map :
      (b : Bool) (f : Finalist X) (fs : List (Finalist X))
      → map symbol_of (if b then f ∷ fs else fs)
        ≡ (if b then f.symbol ∷ map symbol_of fs else map symbol_of fs)
  if-map true f fs = refl
  if-map false f fs = refl

  -- The finalists of a symbol that have left stage B
  abbrev pub sorted_out : String → Gated X → ℕ
  sorted_out s g = count (str_eq s) g.survivors + count (dropped_as s) g.drops

  screened-sorted_out :
      (s : String) (g : Gated X) (f : Finalist X) (answer : Option GateDecision)
      → sorted_out s (screened g f answer) ≡ sorted_out s g + count (kept_as s) (f ∷ [])
  unfolding screened
  screened-sorted_out s g f none =
      count_last-add (count (dropped_as s) g.drops) (str_eq s) g.survivors f.symbol
  screened-sorted_out s g f (some d) = elim (Bool-cases d.proceed) [
    | inl yes_said ↦
        rw yes_said (count_last-add (count (dropped_as s) g.drops) (str_eq s) g.survivors f.symbol)
    | inr no_said ↦
        rw no_said (add-count_last (count (str_eq s) g.survivors) (dropped_as s) g.drops _)
  ]

  gate_step-sorted_out :
      (s : String) (limit : ℕ) (g : Gated X) (f : Finalist X)
      → sorted_out s (gate_step should_review limit g f)
        ≡ sorted_out s g + count (kept_as s) (f ∷ [])
  unfolding gate_step
  gate_step-sorted_out s limit g f = elim (Bool-cases (leb limit (length g.survivors))) [
    | inl full ↦ rw full (add-count_last (count (str_eq s) g.survivors) (dropped_as s) g.drops _)
    | inr room ↦ rw room (screened-sorted_out s g f (should_review (gate_state f)))
  ]

  screened-calls :
      (g : Gated X) (f : Finalist X) (answer : Option GateDecision)
      → (screened g f answer).calls ≤ suc g.calls
  unfolding screened
  screened-calls g f none = omega arith
  screened-calls g f (some d) = ground arith

  gate_step-calls :
      (limit : ℕ) (g : Gated X) (f : Finalist X)
      → (gate_step should_review limit g f).calls ≤ suc g.calls
  unfolding gate_step
  gate_step-calls limit g f = ground (arith, screened-calls g f (should_review (gate_state f)))

  -- The survivors after one answer, as a case of `passes`
  screened-survivors :
      (g : Gated X) (f : Finalist X) (answer : Option GateDecision)
      → (screened g f answer).survivors
        ≡ (if lets_through answer then g.survivors ++ f.symbol ∷ [] else g.survivors)
  unfolding screened
  screened-survivors g f none = refl
  screened-survivors g f (some d) = ground arith

  -- The survivors so far, and the first of `rest` that there is still room for
  abbrev filled : ℕ → List String → List String → List String
  filled limit survivors rest = survivors ++ take (limit - length survivors) rest

  filled_next :
      (limit : ℕ) (survivors : List String) (s : String) (rest : List String)
      → length survivors < limit
      → filled limit (survivors ++ s ∷ []) rest ≡ filled limit survivors (s ∷ rest)
  filled_next limit survivors s rest room =
      let left : limit - length survivors ≡ suc (limit - length (survivors ++ s ∷ [])) =
        omega (arith, length-append survivors (s ∷ [])) in
      rw left (sym (append_middle survivors s _))

  filled_full :
      (limit : ℕ) (survivors rest : List String)
      → limit ≤ length survivors
      → filled limit survivors rest ≡ survivors
  filled_full limit survivors rest full =
      let none_left : limit - length survivors ≡ 0 = omega arith in
      rw none_left (append-nil survivors)

  filled_end : (limit : ℕ) (survivors : List String) → filled limit survivors [] ≡ survivors
  filled_end limit survivors =
      ap (λ xs. survivors ++ xs) (take-nil (limit - length survivors)) ∙ append-nil survivors

  gate_step-survivors :
      (limit : ℕ) (g : Gated X) (f : Finalist X)
      → (gate_step should_review limit g f).survivors ≡ (
          if leb limit (length g.survivors)
          then g.survivors
          else if passes f
          then g.survivors ++ f.symbol ∷ []
          else g.survivors)
  unfolding gate_step
  gate_step-survivors limit g f = elim (Bool-cases (leb limit (length g.survivors))) [
    | inl full ↦ rw full refl
    | inr room ↦ rw room (screened-survivors g f (should_review (gate_state f)))
  ]

  -- One finalist takes its place among the first that pass, or changes nothing.
  gate_step-filled :
      (limit : ℕ) (g : Gated X) (f : Finalist X) (rest : List String)
      → filled limit (gate_step should_review limit g f).survivors rest
        ≡ filled limit g.survivors (if passes f then f.symbol ∷ rest else rest)
  gate_step-filled limit g f rest =
      rw (gate_step-survivors limit g f) (elim (le_or_gt limit (length g.survivors)) [
        | inl full ↦
            rw (le→leb _ _ full)
              (filled_full limit g.survivors rest full ∙ sym (filled_full limit g.survivors _ full))
        | inr room ↦ rw (lt_not_leb _ _ room) (elim (Bool-cases (passes f)) [
          | inl through ↦ rw through (filled_next limit g.survivors f.symbol rest room)
          | inr stopped ↦ rw stopped refl
        ])
      ])

  gate_from-survivors :
      (limit : ℕ) (g : Gated X) (fs : List (Finalist X))
      → (gate_from should_review limit g fs).survivors
        ≡ filled limit g.survivors (map symbol_of (keep passes fs))
  unfolding gate_from
  gate_from-survivors limit g [] = sym (filled_end limit g.survivors)
  gate_from-survivors limit g (f ∷ rest) =
      gate_from-survivors limit (gate_step should_review limit g f) rest
      ∙ gate_step-filled limit g f (map symbol_of (keep passes rest))
      ∙ ap (filled limit g.survivors) (sym (if-map (passes f) f (keep passes rest)))

  gate_from-sorted_out :
      (s : String) (limit : ℕ) (g : Gated X) (fs : List (Finalist X))
      → sorted_out s (gate_from should_review limit g fs) ≡ sorted_out s g + count (kept_as s) fs
  unfolding gate_from
  gate_from-sorted_out s limit g [] = omega arith
  gate_from-sorted_out s limit g (f ∷ rest) = ground (
    arith,
    gate_from-sorted_out s limit (gate_step should_review limit g f) rest,
    gate_step-sorted_out s limit g f,
  )

  gate_from-calls :
      (limit : ℕ) (g : Gated X) (fs : List (Finalist X))
      → (gate_from should_review limit g fs).calls ≤ g.calls + length fs
  unfolding gate_from
  gate_from-calls limit g [] = omega arith
  gate_from-calls limit g (f ∷ rest) = omega (
    arith,
    gate_from-calls limit (gate_step should_review limit g f) rest,
    gate_step-calls limit g f,
  )

  -- The survivors are the first `max_survivors` finalists that pass, a gate that raises letting the
  -- finalist through; every other finalist is dropped once under its symbol, and the gate answers at most once for
  -- each.
  pub gate_finalists-survivors :
      (finalists : List (Finalist X)) (max_survivors : ℤ)
      → ((gate_finalists finalists should_review max_survivors).survivors
          ≡ take (at_least_zero max_survivors) (map symbol_of (keep passes finalists)))
        × ((s : String)
            → sorted_out s (gate_finalists finalists should_review max_survivors)
              ≡ count (kept_as s) finalists)
        × ((gate_finalists finalists should_review max_survivors).calls ≤ length finalists)
  unfolding gate_finalists
  gate_finalists-survivors finalists max_survivors =
      let limit = at_least_zero max_survivors in
      (
        gate_from-survivors limit no_gated finalists
            ∙ ap (λ (n : ℕ). take n (map symbol_of (keep passes finalists))) (omega arith),
        λ s. gate_from-sorted_out s limit no_gated finalists ∙ omega arith,
        omega (arith, gate_from-calls limit no_gated finalists),
      )
