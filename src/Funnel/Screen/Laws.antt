-- ===== src/Funnel/Screen/Laws.antt =====
-- What stage A keeps and what it drops.
use ai_trader.Base.{
  ℕ, suc, ◌+◌, ◌-◌, ◌≤◌, ◌<◌, le_or_gt, ◌≡◌, refl, arith, Bool, true, false, not, List, [], ◌∷◌,
  map, keep, count, String, str_eq, ◌&&◌, count-sorted, count-map, count-keep, length-map,
  length-take, le→leb, lt_not_leb, subst, length-keep, count-le-length, take, length, All, Float, ℤ,
  at_least_zero, IsOrdered, IsWeakOrder, sorted-IsOrdered, Bool-cases, inl, inr, ap, sym, ◌∙◌,
}
use ai_trader.Funnel.Screen.{
  Snapshot, Scored, Finalist, Drop, DropReason, not_top_ranked, ranked, ranks_before, screen_rows,
  prescreen, finalist_of, drop_a, no_price, is_named, score_row,
}

-- The ranking was lost.
abbrev is_not_top : DropReason → Bool
is_not_top not_top_ranked = true
is_not_top _ = false

none_left : (limit idx : ℕ) → limit ≤ idx → limit - idx ≡ 0
none_left limit idx h = omega arith

one_left : (limit idx : ℕ) → idx < limit → limit - idx ≡ suc (limit - suc idx)
one_left limit idx h = omega arith

module _ {X : Type 0} where
  -- The instrument of a finalist, and of a drop
  abbrev pub kept_as : String → Finalist X → Bool
  kept_as s f = str_eq s f.symbol

  abbrev pub dropped_as : String → Drop X → Bool
  dropped_as s d = str_eq s d.symbol

module _ {X : Type 0} ⦃fl : Float X⦄ where
  abbrev pub symbol_of : Finalist X → String
  symbol_of f = f.symbol

  -- The row is not below the floor.
  abbrev pub reaches : X → Scored X → Bool
  reaches min_score row = not (fl.lt row.score min_score)

  screen_rows-kept :
      (finalist : Scored X → Finalist X) (min_score : X) (limit idx : ℕ) (rows : List (Scored X))
      → (screen_rows finalist min_score limit idx rows).0
        ≡ map finalist (keep (reaches min_score) (take (limit - idx) rows))
  unfolding screen_rows
  screen_rows-kept finalist min_score limit idx [] = elim (le_or_gt limit idx) [
    | inl past ↦ rw (none_left limit idx past) refl
    | inr within ↦ rw (one_left limit idx within) refl
  ]
  screen_rows-kept finalist min_score limit idx (row ∷ rest) =
      let later = screen_rows-kept finalist min_score limit (suc idx) rest in
      elim (le_or_gt limit idx) [
        | inl past ↦ rw (none_left limit idx past) (
            let gone = none_left limit (suc idx) (omega arith) in
            let nothing =
              later ∙ ap (λ n. map finalist (keep (reaches min_score) (take n rest))) gone in
            ground (arith, nothing, past))
        | inr within ↦ rw (one_left limit idx within) (ground (arith, later, within))
      ]

  -- The instrument of a row, and of a named snapshot
  abbrev scored_as : String → Scored X → Bool
  scored_as s row = str_eq s row.symbol

  abbrev pub offered_as : String → Snapshot X → Bool
  offered_as s snap = is_named snap && str_eq s snap.symbol

  count-screen_rows :
      (finalist : Scored X → Finalist X) (min_score : X) (limit idx : ℕ) (rows : List (Scored X))
      → ((row : Scored X) → (finalist row).symbol ≡ row.symbol)
      → (s : String)
      → count (kept_as s) (screen_rows finalist min_score limit idx rows).0
          + count (dropped_as s) (screen_rows finalist min_score limit idx rows).1
        ≡ count (scored_as s) rows
  unfolding screen_rows
  count-screen_rows finalist min_score limit idx [] h s = omega arith
  count-screen_rows finalist min_score limit idx (row ∷ rest) h s =
      ground (arith, h row, count-screen_rows finalist min_score limit (suc idx) rest h s)

  abbrev row_of_drop : Drop X → Scored X
  row_of_drop d = record { score = d.score; symbol = d.symbol; signals = no_price }

  abbrev row_of_finalist : Finalist X → Scored X
  row_of_finalist f = record { score = f.score; symbol = f.symbol; signals = no_price }

  abbrev lost_the_ranking : Drop X → Bool
  lost_the_ranking d = is_not_top d.reason

  -- No drop that lost the ranking ranks before a finalist.
  abbrev pub Unbeaten : List (Drop X) → List (Finalist X) → Type 0
  Unbeaten drops finalists =
      All
        (λ f.
          All (λ d. ranks_before (row_of_drop d) (row_of_finalist f) ≡ false)
            (keep lost_the_ranking drops))
        finalists

  module _ (finalist : Scored X → Finalist X) (min_score : X) (limit : ℕ) where
    drops-after :
        (best : Scored X) (idx : ℕ) (rows : List (Scored X))
        → All (λ y. ranks_before y best ≡ false) rows
        → All
            (λ d. ranks_before (row_of_drop d) best ≡ false)
            (keep lost_the_ranking (screen_rows finalist min_score limit idx rows).1)
    unfolding screen_rows
    drops-after best idx [] h = tt
    drops-after best idx (row ∷ rest) h = ground (arith, drops-after best (suc idx) rest h.1)

  module _ (snapshots : List (Snapshot X)) (whale_weight : X) (without_cut : List String) where
    symbols-finalist_of :
        (rows : List (Scored X))
        → map symbol_of (map (finalist_of snapshots whale_weight without_cut) rows)
          ≡ map (λ row. row.symbol) rows
    symbols-finalist_of [] = refl
    symbols-finalist_of (row ∷ rest) = ap (λ xs. row.symbol ∷ xs) (symbols-finalist_of rest)

    screen_rows-symbols :
        (min_score : X) (limit : ℕ) (rows : List (Scored X))
        → map symbol_of
            (screen_rows (finalist_of snapshots whale_weight without_cut) min_score limit 0 rows).0
          ≡ map (λ row. row.symbol) (keep (reaches min_score) (take limit rows))
    screen_rows-symbols min_score limit rows =
        ap (map symbol_of)
          (screen_rows-kept (finalist_of snapshots whale_weight without_cut) min_score limit 0 rows)
        ∙ symbols-finalist_of (keep (reaches min_score) (take (limit - 0) rows))
        ∙ ap (λ (n : ℕ). map (λ row. row.symbol) (keep (reaches min_score) (take n rows)))
            (omega arith)

    nothing_past :
        (min_score : X) (limit idx : ℕ) (rows : List (Scored X))
        → limit ≤ idx
        → (screen_rows (finalist_of snapshots whale_weight without_cut) min_score limit idx rows).0
          ≡ []
    nothing_past min_score limit idx rows past =
        screen_rows-kept (finalist_of snapshots whale_weight without_cut) min_score limit idx rows
        ∙ ap
            (λ n.
              map (finalist_of snapshots whale_weight without_cut)
                (keep (reaches min_score) (take n rows)))
            (none_left limit idx past)

    -- Nothing that lost the ranking ranks before a finalist.
    screen_rows_best :
        (min_score : X) (limit idx : ℕ) (rows : List (Scored X))
        → IsOrdered ranks_before rows
        → (let result =
              screen_rows
                (finalist_of snapshots whale_weight without_cut)
                min_score
                limit
                idx
                rows in
            Unbeaten result.1 result.0)
    unfolding screen_rows
    screen_rows_best min_score limit idx [] h = tt
    screen_rows_best min_score limit idx (row ∷ rest) h =
        let finalist = finalist_of snapshots whale_weight without_cut in
        let later = screen_rows_best min_score limit (suc idx) rest h.1 in
        elim (Bool-cases (fl.lt row.score min_score)) [
          | inl below ↦ rw below later
          | inr reached ↦ elim (le_or_gt limit idx) [
            | inl past ↦
                rw (reached, le→leb _ _ past)
                  (subst
                    (Unbeaten (
                      drop_a not_top_ranked row
                      ∷ (screen_rows finalist min_score limit (suc idx) rest).1))
                    (sym (nothing_past min_score limit (suc idx) rest (omega arith))) tt)
            | inr within ↦
                rw (reached, lt_not_leb _ _ within)
                  (drops-after _ min_score limit row (suc idx) rest h.0, later)
          ]
        ]

  length-kept :
      (finalist : Scored X → Finalist X) (min_score : X) (limit : ℕ) (rows : List (Scored X))
      → length (screen_rows finalist min_score limit 0 rows).0 ≤ limit
  length-kept finalist min_score limit rows =
      let within = take (limit - 0) rows in
      omega (
        arith,
        ap (length {0}) (screen_rows-kept finalist min_score limit 0 rows),
        length-map finalist (keep (reaches min_score) within),
        length-keep (reaches min_score) within,
        count-le-length (reaches min_score) within,
        length-take (limit - 0) rows,
      )

  count-ranked :
      (snapshots : List (Snapshot X)) (whale_weight : X) (s : String)
      → count (scored_as s) (ranked snapshots whale_weight) ≡ count (offered_as s) snapshots
  unfolding ranked
  count-ranked snapshots whale_weight s =
      count-sorted ranks_before (scored_as s)
        (map (score_row whale_weight) (keep is_named snapshots))
      ∙ count-map (score_row whale_weight) (scored_as s) (keep is_named snapshots)
      ∙ count-keep (λ snap. str_eq s snap.symbol) is_named snapshots

  -- Stage A keeps, in the order of their rank, those of the best `max_finalists` rows that reach the
  -- floor, at most `max_finalists` of them; and every instrument is among the finalists and the drops
  -- together as often as among the named snapshots.
  pub prescreen-finalists :
      (snapshots : List (Snapshot X)) (max_finalists : ℤ) (min_score whale_weight : X)
      → (map symbol_of (prescreen snapshots max_finalists min_score whale_weight).0
          ≡ map
              (λ row. row.symbol)
              (keep
                (reaches min_score)
                (take (at_least_zero max_finalists) (ranked snapshots whale_weight))))
        × (length (prescreen snapshots max_finalists min_score whale_weight).0
            ≤ at_least_zero max_finalists)
        × ((s : String)
            → count (kept_as s) (prescreen snapshots max_finalists min_score whale_weight).0
                + count (dropped_as s) (prescreen snapshots max_finalists min_score whale_weight).1
              ≡ count (offered_as s) snapshots)
  unfolding prescreen
  prescreen-finalists snapshots max_finalists min_score whale_weight =
      let rows = ranked snapshots whale_weight in
      let limit = at_least_zero max_finalists in
      (
        screen_rows-symbols snapshots whale_weight _ min_score limit rows,
        length-kept _ min_score limit rows,
        λ s.
            count-screen_rows _ min_score limit 0 rows (λ row. refl) s
            ∙ count-ranked snapshots whale_weight s,
      )

  -- Where the ranking is a weak order, nothing that was dropped for its rank ranks before a finalist.
  pub prescreen_best :
      IsWeakOrder (ranks_before {X = X})
      → (snapshots : List (Snapshot X)) (max_finalists : ℤ) (min_score whale_weight : X)
      → Unbeaten
          (prescreen snapshots max_finalists min_score whale_weight).1
          (prescreen snapshots max_finalists min_score whale_weight).0
  unfolding prescreen ranked
  prescreen_best order snapshots max_finalists min_score whale_weight =
      screen_rows_best snapshots whale_weight _ min_score (at_least_zero max_finalists) 0
        (ranked snapshots whale_weight) (sorted-IsOrdered ranks_before order _)
