-- ===== src/Universe/Laws.antt =====
-- What the resolved universe is, on every branch of `resolve`, and that no declared symbol is lost.
use ai_trader.Base.{
  ◌≡◌, ◌∙◌, ap, Bool, true, false, Option, ◌&&◌, ◌||◌, not, arith, List, [], ◌∷◌, keep, any-append,
  String, str_eq, eq_iff, Bool-cases, inl, inr,
}
use ai_trader.Watchlist.{member}
use ai_trader.Universe.{
  UniverseConfig, MarketDb, opened, offline_feed, symbol_is_tradeable, symbol_in_trading_scope,
  declared_core, declared_periphery, declared_symbols, real_feed_mode, resolve, union, symbols,
  unserviceable, core_only, enforced_universe, scoped_core,
}

-- A comprehension's members
pub member-keep :
    (p : String → Bool) (s : String) (xs : List String)
    → member s (keep p xs) ≡ (p s && member s xs)
member-keep p s [] = ground arith
member-keep p s (x ∷ xs) = ground (arith, member-keep p s xs, eq_iff s x)

pub member-union :
    (s : String) (a b : List String) → member s (union a b) ≡ (member s a || member s b)
member-union s a b = ground (
  arith,
  any-append (str_eq s) a (keep (λ x. not (member x a)) b),
  member-keep (λ x. not (member x a)) s b,
)

-- The periphery that `resolve` looks at: in scope, and not in the core
abbrev pub candidates : {X : Type 0} → UniverseConfig → Option Bool → MarketDb X → List String
candidates cfg override db =
    keep (λ x. not (member x (scoped_core cfg)))
      (keep symbol_in_trading_scope (declared_periphery cfg override db))

module _ {X : Type 0} (cfg : UniverseConfig) (override : Option Bool) (db : MarketDb X) where
  member-candidates :
      (s : String)
      → member s (candidates cfg override db) ≡ (
          not (member s (scoped_core cfg))
          && symbol_in_trading_scope s
          && member s (declared_periphery cfg override db))
  member-candidates s = ground (
    arith,
    member-keep (λ x. not (member x (scoped_core cfg))) s
        (keep symbol_in_trading_scope (declared_periphery cfg override db)),
    member-keep symbol_in_trading_scope s (declared_periphery cfg override db),
  )

  pub resolve_enforced :
      real_feed_mode cfg ≡ true
      → resolve cfg override (opened db)
        ≡ enforced_universe cfg db.bars (candidates cfg override db)
  unfolding resolve
  resolve_enforced h = rw h

  pub resolve_offline :
      real_feed_mode cfg ≡ false
      → resolve cfg override (opened db)
        ≡ record (core_only cfg offline_feed) { periphery = candidates cfg override db }
  unfolding resolve
  resolve_offline h = rw h

  -- With a database that opens, a symbol may be traded exactly when the engine polls it, its asset
  -- class is in scope and, on the real path, the bars table shows it a real history.
  pub resolve-symbols :
      (s : String)
      → member s (symbols (resolve cfg override (opened db))) ≡ (
          symbol_in_trading_scope s
          && member s (declared_symbols cfg override db)
          && (not (real_feed_mode cfg) || symbol_is_tradeable db.bars s))
  unfolding symbols declared_symbols enforced_universe core_only
  resolve-symbols s = elim (Bool-cases (real_feed_mode cfg)) [
    | inl h ↦
        ap (λ u. member s (symbols u)) (resolve_enforced h)
        ∙ ground (
          arith,
          member-union s (keep (symbol_is_tradeable db.bars) (scoped_core cfg))
              (keep (symbol_is_tradeable db.bars) (candidates cfg override db)),
          member-union s (declared_core cfg) (declared_periphery cfg override db),
          member-keep (symbol_is_tradeable db.bars) s (scoped_core cfg),
          member-keep (symbol_is_tradeable db.bars) s (candidates cfg override db),
          member-candidates s,
          member-keep symbol_in_trading_scope s (declared_core cfg),
        )
    | inr h ↦
        ap (λ u. member s (symbols u)) (resolve_offline h)
        ∙ ground (
          arith,
          member-union s (scoped_core cfg) (candidates cfg override db),
          member-union s (declared_core cfg) (declared_periphery cfg override db),
          member-candidates s,
          member-keep symbol_in_trading_scope s (declared_core cfg),
        )
  ]

  -- On the real path the unserviceable symbols are those that are polled and in scope but have no
  -- real history.
  pub resolve-unserviceable :
      real_feed_mode cfg ≡ true
      → (s : String)
      → member s (unserviceable (resolve cfg override (opened db))) ≡ (
          symbol_in_trading_scope s
          && member s (declared_symbols cfg override db)
          && not (symbol_is_tradeable db.bars s))
  unfolding unserviceable declared_symbols enforced_universe
  resolve-unserviceable h s =
      let ok_core = keep (symbol_is_tradeable db.bars) (scoped_core cfg) in
      ap (λ u. member s (unserviceable u)) (resolve_enforced h)
      ∙ ground (
        arith,
        any-append (str_eq s) (keep (λ x. not (member x ok_core)) (scoped_core cfg))
            (keep (λ x. not (symbol_is_tradeable db.bars x)) (candidates cfg override db)),
        member-union s (declared_core cfg) (declared_periphery cfg override db),
        member-keep (λ x. not (member x ok_core)) s (scoped_core cfg),
        member-keep (symbol_is_tradeable db.bars) s (scoped_core cfg),
        member-keep (λ x. not (symbol_is_tradeable db.bars x)) s (candidates cfg override db),
        member-candidates s,
        member-keep symbol_in_trading_scope s (declared_core cfg),
      )
