-- ===== src/Discovery/Resolved.antt =====
-- What a discovery pass takes on, the resolved universe lets the engine trade.
use ai_trader.Base.{
  ◌≡◌, refl, ◌∙◌, ap, true, false, ◌&&◌, ◌||◌, arith, none, some, List, [], ◌∷◌, any-append,
  any-sorted, map, keep, String, str_eq, str_lt, is_text, eq_iff, Float, Bool-cases, inl, inr,
}
use ai_trader.Watchlist.{Row, Db, member, is_active}
use ai_trader.Watchlist.Removal.{active_symbols, symbol_of}
use ai_trader.Watchlist.Promotion.{tradeable}
use ai_trader.Universe.{
  UniverseConfig, MarketDb, opened, append_new, append_all, symbol_in_trading_scope, declared_core,
  declared_periphery, declared_symbols, resolve, symbols,
}
use ai_trader.Universe.Laws.{member-union, resolve-symbols}
use ai_trader.Funnel.Day.{AssetClass, Moment}
use ai_trader.Discovery.State.{DiscoveryDb, RunEnv}
use ai_trader.Discovery.Run.{run_once}
use ai_trader.Discovery.Promotion.{run_once_promotes}

member-append_new :
    (s x : String) (out : List String)
    → member s (append_new out x) ≡ (member s out || is_text x && str_eq s x)
member-append_new s x out = elim (Bool-cases (str_eq s x)) [
  | inl e ↦
      let same = (eq_iff s x).0 e in
      ground (arith, e, any-append (str_eq s) out (x ∷ []), ap (λ y. member y out) same)
  | inr e ↦ ground (arith, e, any-append (str_eq s) out (x ∷ []))
]

member-append_all :
    (s : String) (out xs : List String)
    → member s (append_all out xs) ≡ (member s out || is_text s && member s xs)
member-append_all s out [] = ground arith
member-append_all s out (x ∷ xs) = elim (Bool-cases (str_eq s x)) [
  | inl e ↦ ground (
    arith,
    e,
    member-append_all s (append_new out x) xs,
    member-append_new s x out,
    ap is_text ((eq_iff s x).0 e),
  )
  | inr e ↦ ground (arith, e, member-append_all s (append_new out x) xs, member-append_new s x out)
]

module _ {X : Type 0} (s : String) where
  member-active_rows :
      (rows : List (Row X))
      → member s (map symbol_of (keep (λ r. is_active r.status) rows)) ≡ tradeable s rows
  member-active_rows [] = refl
  member-active_rows (r ∷ rows) =
      ground (arith, member-active_rows rows, eq_iff s r.symbol, eq_iff r.symbol s)

  member-active_symbols :
      (table : Db X) → member s (active_symbols table none) ≡ tradeable s table.watchlist
  unfolding active_symbols
  member-active_symbols table =
      any-sorted str_lt (str_eq s) (map symbol_of (keep (λ r. is_active r.status) table.watchlist))
      ∙ member-active_rows table.watchlist

module _ {X : Type 0} ⦃fl : Float X⦄ (env : RunEnv X) (now : Moment) (cls : AssetClass)
    (db : DiscoveryDb X) where
  -- The database that a pass leaves, as the universe reads it
  abbrev pub market_after : MarketDb X
  market_after =
      let left = (run_once env now cls db).0 in
      record { bars = left.bars; watchlist = some left.watchlist }

  -- While discovery is on, a symbol in scope, not empty, that a discovery pass with a verified
  -- backfill has made tradeable on the watchlist is in the universe resolved from the database it
  -- left, in any feed mode.
  pub run_once_resolved :
      (s : String) (cfg : UniverseConfig)
      → cfg.discovery_on ≡ true
      → is_text s ≡ true
      → symbol_in_trading_scope s ≡ true
      → str_eq (run_once env now cls db).1.onboarding.status "ok" ≡ true
      → tradeable s db.watchlist.watchlist ≡ false
      → tradeable s (run_once env now cls db).0.watchlist.watchlist ≡ true
      → member s (symbols (resolve cfg none (opened market_after))) ≡ true
  unfolding declared_symbols declared_periphery
  run_once_resolved s cfg on named scope verified before after =
      let (_, (_, _, _, served)) = run_once_promotes env now cls db s before after in
      let table = (run_once env now cls db).0.watchlist in
      ground (
        arith,
        on,
        named,
        scope,
        verified,
        after,
        served,
        resolve-symbols cfg none market_after s,
        member-union s (declared_core cfg) (declared_periphery cfg none market_after),
        member-append_all s [] (active_symbols table none),
        member-active_symbols s table,
      )
