-- ===== src/Watchlist/Invariant.antt =====
-- The invariant of the table `watchlist`: one row to a symbol, and none without a symbol.
use ai_trader.Base.{
  ◌≡◌, ◌⊎◌, refl, sym, subst, Bool, true, false, arith, List, [], ◌∷◌, ◌++◌, map, any, String,
  str_eq, eq_iff, if◌then◌else◌, Bool-cases, inl, inr, Option,
}
use ai_trader.Watchlist.{
  Row, Entry, Db, WatchlistEvent, has_symbol, upsert, take_off, apply_event, add, remove, or_else,
  member, referral_sources, valid_actions, source_allowed, refresh_referral, refresh_active,
  new_row, active, referred, is_removable, add_from_discovery, entry_status_for,
}

module _ {X : Type 0} where
  abbrev pub IsUnique : List (Row X) → Type 0
  IsUnique [] = Unit
  IsUnique (r ∷ rows) =
      (str_eq r.symbol "" ≡ false) × (any (has_symbol r.symbol) rows ≡ false) × IsUnique rows

  pub any-upsert :
      (s : String) (update : Row X → Row X) (new : Row X) (rows : List (Row X))
      → ((r : Row X) → (update r).symbol ≡ r.symbol)
      → any (has_symbol s) (upsert update new rows)
        ≡ (if str_eq new.symbol s then true else any (has_symbol s) rows)
  unfolding upsert
  any-upsert s update new [] same = ground arith
  any-upsert s update new (r ∷ rows) same = ground (
    arith,
    same r,
    any-upsert s update new rows same,
    eq_iff new.symbol s,
    eq_iff r.symbol s,
    eq_iff r.symbol new.symbol,
  )

  upsert-IsUnique :
      (update : Row X → Row X) (new : Row X) (rows : List (Row X))
      → ((r : Row X) → (update r).symbol ≡ r.symbol)
      → str_eq new.symbol "" ≡ false
      → IsUnique rows
      → IsUnique (upsert update new rows)
  unfolding upsert
  upsert-IsUnique update new [] same named h = (named, refl, tt)
  upsert-IsUnique update new (r ∷ rows) same named h = ground (
    arith,
    same r,
    upsert-IsUnique update new rows same named h.2,
    any-upsert r.symbol update new rows same,
    eq_iff new.symbol r.symbol,
    eq_iff r.symbol new.symbol,
  )

  take_off-symbol :
      (ev : WatchlistEvent X) (ts : String) (r : Row X) → (take_off ev ts r).symbol ≡ r.symbol
  take_off-symbol ev ts r = ground arith

  any-take_off :
      (s : String) (ev : WatchlistEvent X) (ts : String) (rows : List (Row X))
      → any (has_symbol s) (map (take_off ev ts) rows) ≡ any (has_symbol s) rows
  any-take_off s ev ts [] = refl
  any-take_off s ev ts (r ∷ rows) =
      ground (arith, take_off-symbol ev ts r, any-take_off s ev ts rows)

  take_off-IsUnique :
      (ev : WatchlistEvent X) (ts : String) (rows : List (Row X))
      → IsUnique rows
      → IsUnique (map (take_off ev ts) rows)
  take_off-IsUnique ev ts [] h = tt
  take_off-IsUnique ev ts (r ∷ rows) h = ground (
    arith,
    take_off-symbol ev ts r,
    any-take_off r.symbol ev ts rows,
    take_off-IsUnique ev ts rows h.2,
  )

  -- What an event does to the table: nothing, one of the two upserts, or a removal; with the tests
  -- that led there.
  pub apply_event_table :
      (shaping : Bool) (now : String) (db : Db X) (ev : WatchlistEvent X)
      → let ts = or_else ev.ts now in
        let rows = (apply_event shaping now db ev).0.watchlist in
        (rows ≡ db.watchlist)
        ⊎ (str_eq ev.symbol "" ≡ false)
          × (member ev.source referral_sources ≡ true)
          × (rows ≡ upsert (refresh_referral ev ts) (new_row ev ts referred) db.watchlist)
        ⊎ (str_eq ev.symbol "" ≡ false)
          × (str_eq ev.action "add" ≡ true)
          × (member ev.source referral_sources ≡ false)
          × (source_allowed shaping ev.source ≡ true)
          × (rows ≡ upsert (refresh_active ev ts) (new_row ev ts active) db.watchlist)
        ⊎ (rows ≡ map (take_off ev ts) db.watchlist)
  unfolding apply_event add remove
  apply_event_table shaping now db ev = elim (Bool-cases (member ev.action valid_actions)) [
    | inr e ↦ inl (rw e)
    | inl e1 ↦ elim (Bool-cases (str_eq ev.symbol "")) [
      | inl e ↦ inl (ground arith)
      | inr e2 ↦ elim (Bool-cases (source_allowed shaping ev.source)) [
        | inr e ↦ inl (ground arith)
        | inl e3 ↦ elim (Bool-cases (str_eq ev.action "add")) [
          | inr e ↦ inr (inr (inr (ground arith)))
          | inl e4 ↦ elim (Bool-cases (member ev.source referral_sources)) [
            | inl e5 ↦ inr (inl (e2, e5, ground arith))
            | inr e5 ↦ inr (inr (inl (e2, e4, e5, e3, ground arith)))
          ]
        ]
      ]
    ]
  ]

  -- Every event, accepted or refused, keeps one row to a symbol and no row without a symbol.
  pub apply_event-IsUnique :
      (shaping : Bool) (now : String) (db : Db X) (ev : WatchlistEvent X)
      → IsUnique db.watchlist
      → IsUnique (apply_event shaping now db ev).0.watchlist
  apply_event-IsUnique shaping now db ev h = elim (apply_event_table shaping now db ev) [
    | inl e ↦ subst IsUnique (sym e) h
    | inr (inl (named, _, e)) ↦ subst IsUnique (sym e) (upsert-IsUnique _ _ _ (λ r. refl) named h)
    | inr (inr (inl (named, _, _, _, e))) ↦
        subst IsUnique (sym e) (upsert-IsUnique _ _ _ (λ r. refl) named h)
    | inr (inr (inr e)) ↦
        subst IsUnique (sym e) (take_off-IsUnique ev (or_else ev.ts now) db.watchlist h)
  ]

  -- Every event adds exactly one entry to the journal, with the symbol and the source of the event
  -- and whether it was applied.
  pub apply_event_journals :
      (shaping : Bool) (now : String) (db : Db X) (ev : WatchlistEvent X)
      → let (db', outcome) = apply_event shaping now db ev in
        (entry : Entry) × (db'.journal ≡ db.journal ++ entry ∷ [])
        × (entry.applied ≡ outcome.applied)
        × (entry.symbol ≡ ev.symbol)
        × (entry.source ≡ ev.source)
  unfolding apply_event add remove
  apply_event_journals shaping now db ev = (
    record {
      ts = or_else ev.ts now;
      action = ev.action;
      symbol = ev.symbol;
      source = ev.source;
      reason = ev.reason;
      applied = (apply_event shaping now db ev).1.applied;
    },
    ground arith,
    refl,
    refl,
    refl,
  )

  take_off_none :
      (ev : WatchlistEvent X) (ts : String) (rows : List (Row X))
      → any (is_removable ev.symbol) rows ≡ false
      → map (take_off ev ts) rows ≡ rows
  take_off_none ev ts [] h = refl
  take_off_none ev ts (r ∷ rows) h = ground (arith, take_off_none ev ts rows)

  -- An event that was not applied leaves the table as it is.
  pub apply_event_refused :
      (shaping : Bool) (now : String) (db : Db X) (ev : WatchlistEvent X)
      → (apply_event shaping now db ev).1.applied ≡ false
      → (apply_event shaping now db ev).0.watchlist ≡ db.watchlist
  unfolding apply_event add remove
  apply_event_refused shaping now db ev h =
      ground (arith, take_off_none ev (or_else ev.ts now) db.watchlist)

  -- An add from discovery is applied to any symbol that is not empty.
  pub add_from_discovery-applied :
      (shaping : Bool) (now : String) (db : Db X) (symbol reason sleeve_target : String) (score : X)
      (asset_class : String) (ts : Option String)
      → str_eq symbol "" ≡ false
      → (add_from_discovery shaping now db symbol reason sleeve_target score asset_class
          ts).1.applied
        ≡ true
  unfolding add_from_discovery apply_event add source_allowed entry_status_for
  add_from_discovery-applied shaping now db symbol reason sleeve_target score asset_class ts named =
      ground arith
