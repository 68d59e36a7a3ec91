-- ===== src/Verdict/Rows/Laws.antt =====
-- Which row a reading selects, and which rows it reports besides.
use ai_trader.Base.{
  ◌≤◌, ◌<◌, ◌≡◌, ◌≢◌, ◌↔◌, ◌⊎◌, inl, inr, Bool, true, false, Option, none, some, arith, all, count,
  Bool-cases, leb,
}
use ai_trader.Verdict.Status.{
  Status, clear, Primary, Econ, e1, e2, e3, e4, is_clear, in_e_fails_net,
}
use ai_trader.Verdict.Gross.{GrossName, Gross}
use ai_trader.Verdict.Rows.{
  Selection, Distribution, verdict_rows, n_clear, all_fail_net, clears_fails_net, clears_some,
  clears_both, fails_gross, outcome, net_abstains, any_gross_positive, null_uninformative, e_tests,
}

module _ (f : Econ → Bool) where
  count_zero : count f e_tests ≡ 0 → (t : Econ) → f t ≡ false
  count_zero h e1 = ground arith
  count_zero h e2 = ground arith
  count_zero h e3 = ground arith
  count_zero h e4 = ground arith

  count_pos : (t : Econ) → f t ≡ true → 0 < count f e_tests
  count_pos e1 h = ground arith
  count_pos e2 h = ground arith
  count_pos e3 h = ground arith
  count_pos e4 h = ground arith

  count_full : 4 ≤ count f e_tests → (t : Econ) → f t ≡ true
  count_full h e1 = ground arith
  count_full h e2 = ground arith
  count_full h e3 = ground arith
  count_full h e4 = ground arith

  count_lt : (t : Econ) → f t ≡ false → count f e_tests < 4
  count_lt e1 h = ground arith
  count_lt e2 h = ground arith
  count_lt e3 h = ground arith
  count_lt e4 h = ground arith

  all-true : all f e_tests ≡ true → (t : Econ) → f t ≡ true
  all-true h e1 = ground arith
  all-true h e2 = ground arith
  all-true h e3 = ground arith
  all-true h e4 = ground arith

  find_true : 0 < count f e_tests → (t : Econ) × (f t ≡ true)
  find_true h = elim (Bool-cases (f e1)) [
    | inl p ↦ (e1, p)
    | inr n1 ↦ elim (Bool-cases (f e2)) [
      | inl p ↦ (e2, p)
      | inr n2 ↦ elim (Bool-cases (f e3)) [ inl p ↦ (e3, p) | inr n3 ↦ (e4, ground arith) ]
    ]
  ]

  find_false : count f e_tests < 4 → (t : Econ) × (f t ≡ false)
  find_false h = elim (Bool-cases (f e1)) [
    | inr p ↦ (e1, p)
    | inl n1 ↦ elim (Bool-cases (f e2)) [
      | inr p ↦ (e2, p)
      | inl n2 ↦ elim (Bool-cases (f e3)) [ inr p ↦ (e3, p) | inl n3 ↦ (e4, ground arith) ]
    ]
  ]

  all-eq-count : all f e_tests ≡ leb 4 (count f e_tests)
  all-eq-count = ground arith

is_clear-eq : (s : Status) → is_clear s ≡ true → s ≡ clear
is_clear-eq s h = ground arith

is_clear-ne : (s : Status) → is_clear s ≡ false → s ≢ clear
is_clear-ne s h = ground arith

fails_net-is_clear : (s : Status) → in_e_fails_net s ≡ true → is_clear s ≡ false
fails_net-is_clear s h = ground arith

-- What the rule says of a selection: which gross reading and which E-test statuses it stands for.
abbrev pub Means : GrossName → (Econ → Status) → Option Selection → Type 0
Means g e none = (g ≡ GrossName.abstention_floor) ⊎ (g ≡ GrossName.abstention)
Means g e (some net_abstains) =
    (g ≡ GrossName.clears_gross)
    × ((t : Econ) → e t ≢ clear)
    × ((t : Econ) × (in_e_fails_net (e t) ≡ false))
Means g e (some (outcome clears_fails_net)) =
    (g ≡ GrossName.clears_gross) × ((t : Econ) → in_e_fails_net (e t) ≡ true)
Means g e (some (outcome clears_some)) =
    (g ≡ GrossName.clears_gross) × ((t : Econ) × (e t ≡ clear)) × ((t : Econ) × (e t ≢ clear))
Means g e (some (outcome clears_both)) = (g ≡ GrossName.clears_gross) × ((t : Econ) → e t ≡ clear)
Means g e (some (outcome fails_gross)) = g ≡ GrossName.powered_negative
Means g e (some (outcome _)) = ⊥

module _ (e : Econ → Status) where
  n_clear_zero : n_clear e ≡ 0 → (t : Econ) → e t ≢ clear
  unfolding n_clear
  n_clear_zero h t = is_clear-ne (e t) (count_zero (λ t. is_clear (e t)) h t)

  n_clear_pos : (t : Econ) → e t ≡ clear → 0 < n_clear e
  unfolding n_clear
  n_clear_pos t h = count_pos (λ t. is_clear (e t)) t (rw h)

  n_clear_full : 4 ≤ n_clear e → (t : Econ) → e t ≡ clear
  unfolding n_clear
  n_clear_full h t = is_clear-eq (e t) (count_full (λ t. is_clear (e t)) h t)

  n_clear_lt : (t : Econ) → e t ≢ clear → n_clear e < 4
  unfolding n_clear
  n_clear_lt t h = count_lt (λ t. is_clear (e t)) t (ground (arith, is_clear-eq (e t)))

  n_clear_some : 0 < n_clear e → (t : Econ) × (e t ≡ clear)
  unfolding n_clear
  n_clear_some h = let (t, p) = find_true (λ t. is_clear (e t)) h in (t, is_clear-eq (e t) p)

  n_clear_not_all : n_clear e < 4 → (t : Econ) × (e t ≢ clear)
  unfolding n_clear
  n_clear_not_all h = let (t, p) = find_false (λ t. is_clear (e t)) h in (t, is_clear-ne (e t) p)

  all_fail_true : all_fail_net e ≡ true → (t : Econ) → in_e_fails_net (e t) ≡ true
  unfolding all_fail_net
  all_fail_true h = all-true (λ t. in_e_fails_net (e t)) h

  all_fail_false : all_fail_net e ≡ false → (t : Econ) × (in_e_fails_net (e t) ≡ false)
  unfolding all_fail_net
  all_fail_false h =
      find_false (λ t. in_e_fails_net (e t))
        (ground (arith, all-eq-count (λ t. in_e_fails_net (e t))))

  all_fail_of : ((t : Econ) → in_e_fails_net (e t) ≡ true) → all_fail_net e ≡ true
  unfolding all_fail_net
  all_fail_of h = ground (arith, h e1, h e2, h e3, h e4)

  all_fail_not : (t : Econ) → in_e_fails_net (e t) ≡ false → all_fail_net e ≡ false
  all_fail_not t q = elim (Bool-cases (all_fail_net e)) [
    | inl all ↦ cc (all_fail_true all t)
    | inr some_not ↦ some_not
  ]

  n_clear_none : ((t : Econ) → e t ≢ clear) → n_clear e ≡ 0
  unfolding n_clear
  n_clear_none h = ground (
    arith,
    is_clear-eq (e e1),
    is_clear-eq (e e2),
    is_clear-eq (e e3),
    is_clear-eq (e e4),
    h e1,
    h e2,
    h e3,
    h e4,
  )

  n_clear_all : ((t : Econ) → e t ≡ clear) → n_clear e ≡ 4
  unfolding n_clear
  n_clear_all h = ground (arith, h e1, h e2, h e3, h e4)

  all_fail-n_clear : all_fail_net e ≡ true → n_clear e ≡ 0
  unfolding n_clear
  all_fail-n_clear h = ground (
    arith,
    fails_net-is_clear (e e1) (all_fail_true h e1),
    fails_net-is_clear (e e2) (all_fail_true h e2),
    fails_net-is_clear (e e3) (all_fail_true h e3),
    fails_net-is_clear (e e4) (all_fail_true h e4),
  )

module _ {X : Type 0} (gross : Gross X) (p : Primary → Status) (e : Econ → Status)
    (distribution : Distribution X) where
  pub selected-Means :
      (selected : Option Selection)
      → (verdict_rows gross p e distribution).1 ≡ selected
      → Means gross.gross_reading e selected
  unfolding verdict_rows
  selected-Means none h = ground arith
  selected-Means (some net_abstains) h =
      (ground arith, n_clear_zero e (ground arith), all_fail_false e (ground arith))
  selected-Means (some (outcome clears_fails_net)) h =
      (ground arith, all_fail_true e (ground arith))
  selected-Means (some (outcome clears_some)) h =
      (ground arith, n_clear_some e (ground arith), n_clear_not_all e (ground arith))
  selected-Means (some (outcome clears_both)) h = (ground arith, n_clear_full e (ground arith))
  selected-Means (some (outcome fails_gross)) h = ground arith
  selected-Means (some (outcome any_gross_positive)) h = ground arith
  selected-Means (some (outcome null_uninformative)) h = ground arith

  Means-selected :
      (selected : Option Selection)
      → Means gross.gross_reading e selected
      → (verdict_rows gross p e distribution).1 ≡ selected
  unfolding verdict_rows
  Means-selected none h = ground arith
  Means-selected (some net_abstains) (g, none_clear, (t, q)) =
      ground (arith, n_clear_none e none_clear, all_fail_not e t q)
  Means-selected (some (outcome clears_fails_net)) (g, all) =
      ground (arith, all_fail_of e all, all_fail-n_clear e (all_fail_of e all))
  Means-selected (some (outcome clears_some)) (g, (t, yes_t), (u, no_u)) =
      ground (arith, n_clear_pos e t yes_t, n_clear_lt e u no_u)
  Means-selected (some (outcome clears_both)) (g, all) = ground (arith, n_clear_all e all)
  Means-selected (some (outcome fails_gross)) h = ground arith
  Means-selected (some (outcome any_gross_positive)) h = absurd h
  Means-selected (some (outcome null_uninformative)) h = absurd h

  -- The selection of a reading is exactly the one that the table gives for its gross reading and its
  -- four E-tests: no outcome row under an abstention, the dead hypothesis under a powered negative,
  -- and under a clearing gross reading the row that the number of cleared strata names, or the
  -- abstention of the net question where none cleared and some E-test did not fail.
  pub verdict_rows-selected_iff :
      (selected : Option Selection)
      → ((verdict_rows gross p e distribution).1 ≡ selected) ↔ Means gross.gross_reading e selected
  verdict_rows-selected_iff selected = (selected-Means selected, Means-selected selected)
