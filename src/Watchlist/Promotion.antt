-- ===== src/Watchlist/Promotion.antt =====
-- Which events can make a symbol tradeable: the split between promotion and referral.
use ai_trader.Base.{
  ◌≡◌, subst, ap, Bool, true, false, ◌&&◌, arith, List, [], ◌∷◌, map, any, All, String, str_eq,
  eq_iff, if◌then◌else◌, Bool-cases, inl, inr,
}
use ai_trader.Watchlist.{
  Row, Db, WatchlistEvent, has_symbol, is_active, upsert, take_off, apply_event, or_else, member,
  referral_sources, active_sources, source_allowed, refresh_referral, refresh_active, new_row,
  active, referred,
}
use ai_trader.Watchlist.Invariant.{apply_event_table}

allowed-active :
    (shaping : Bool) (source : String)
    → source_allowed shaping source ≡ true
    → member source referral_sources ≡ false
    → member source active_sources ≡ true
unfolding source_allowed
allowed-active shaping source h k = ground arith

module _ {X : Type 0} where
  -- The engine may trade the symbol.
  abbrev pub tradeable : String → List (Row X) → Bool
  tradeable s rows = any (λ r. has_symbol s r && is_active r.status) rows

  tradeable-referral :
      (s : String) (ev : WatchlistEvent X) (ts : String) (rows : List (Row X))
      → tradeable s (upsert (refresh_referral ev ts) (new_row ev ts referred) rows)
        ≡ tradeable s rows
  unfolding upsert
  tradeable-referral s ev ts [] = ground arith
  tradeable-referral s ev ts (r ∷ rows) = ground (arith, tradeable-referral s ev ts rows)

  tradeable-promotion :
      (s : String) (ev : WatchlistEvent X) (ts : String) (rows : List (Row X))
      → tradeable s (upsert (refresh_active ev ts) (new_row ev ts active) rows)
        ≡ (if str_eq ev.symbol s then true else tradeable s rows)
  unfolding upsert
  tradeable-promotion s ev ts [] = ground arith
  tradeable-promotion s ev ts (r ∷ rows) = ground (
    arith,
    tradeable-promotion s ev ts rows,
    eq_iff r.symbol s,
    eq_iff ev.symbol s,
    eq_iff r.symbol ev.symbol,
  )

  pub tradeable-take_off :
      (s : String) (ev : WatchlistEvent X) (ts : String) (rows : List (Row X))
      → tradeable s (map (take_off ev ts) rows)
        ≡ (if str_eq ev.symbol s then false else tradeable s rows)
  tradeable-take_off s ev ts [] = ground arith
  tradeable-take_off s ev ts (r ∷ rows) = ground (
    arith,
    tradeable-take_off s ev ts rows,
    eq_iff r.symbol s,
    eq_iff ev.symbol s,
    eq_iff r.symbol ev.symbol,
  )

  -- A symbol becomes tradeable only by an add of that symbol from a source that is always allowed,
  -- whatever the shaping flag says: never by a referral, a removal or a refused event.
  pub apply_event_promotes :
      (shaping : Bool) (now : String) (db : Db X) (ev : WatchlistEvent X) (s : String)
      → tradeable s db.watchlist ≡ false
      → tradeable s (apply_event shaping now db ev).0.watchlist ≡ true
      → (ev.action ≡ "add") × (ev.symbol ≡ s) × (member ev.source active_sources ≡ true)
  apply_event_promotes shaping now db ev s before after =
      let ts = or_else ev.ts now in
      elim (apply_event_table shaping now db ev) [
        | inl e ↦ cc (ap (tradeable s) e)
        | inr (inl (_, _, e)) ↦ cc (ap (tradeable s) e, tradeable-referral s ev ts db.watchlist)
        | inr (inr (inl (_, act, not_referral, allowed, e))) ↦ (
          (eq_iff ev.action "add").0 act,
          (eq_iff ev.symbol s).0
              (ground (arith, ap (tradeable s) e, tradeable-promotion s ev ts db.watchlist)),
          allowed-active shaping ev.source allowed not_referral,
        )
        | inr (inr (inr e)) ↦
            ground (arith, ap (tradeable s) e, tradeable-take_off s ev ts db.watchlist)
      ]

  -- A sequence of events, each with the shaping flag and the clock of its time
  pub apply_events : Db X → List (Bool × String × WatchlistEvent X) → Db X
  apply_events db [] = db
  apply_events db ((shaping, now, ev) ∷ rest) = apply_events (apply_event shaping now db ev).0 rest

  -- However many events the adaptive layer sends, and whatever their action, sleeve, score or the
  -- shaping flag, a symbol that was not tradeable stays so.
  pub apply_events_adaptive :
      (db : Db X) (events : List (Bool × String × WatchlistEvent X)) (s : String)
      → All (λ (e : Bool × String × WatchlistEvent X). e.2.source ≡ "adaptive_react") events
      → tradeable s db.watchlist ≡ false
      → tradeable s (apply_events db events).watchlist ≡ false
  unfolding apply_events
  apply_events_adaptive db [] s all h = h
  apply_events_adaptive db ((shaping, now, ev) ∷ rest) s all h =
      apply_events_adaptive (apply_event shaping now db ev).0 rest s all.1
        (elim (Bool-cases (tradeable s (apply_event shaping now db ev).0.watchlist)) [
          | inr still ↦ still
          | inl after ↦
              let (_, _, m) = apply_event_promotes shaping now db ev s h after in
              absurd (adaptive_inactive ev.source all.0 m)
        ])
    where
      adaptive_inactive :
          (source : String) → source ≡ "adaptive_react" → member source active_sources ≡ true → ⊥
      adaptive_inactive source e m = cc (subst (λ t. member t active_sources ≡ true) e m)
