-- ===== src/Universe/Accounts.antt =====
-- No declared core symbol is lost, whatever `resolve` was given, and what startup verified of the core
-- is what the resolved universe then says.
use ai_trader.Base.{
  ◌≡◌, ◌∙◌, ap, Bool, true, false, Option, ◌&&◌, not, arith, if◌then◌else◌, List, [], keep, String,
  Bool-cases, inl, inr,
}
use ai_trader.Watchlist.{member}
use ai_trader.Universe.{
  UniverseConfig, Access, opened, no_database, unreadable, symbol_is_tradeable,
  symbol_in_trading_scope, declared_core, real_feed_mode, resolve, core_only, enforced_universe,
  scoped_core, symbols,
}
use ai_trader.Universe.Laws.{
  member-keep, member-union, resolve_enforced, resolve_offline, resolve-symbols,
}

abbrev pub exactly_one : Bool → Bool → Bool → Bool
exactly_one a b c = if a then not b && not c else if b then not c else c

-- Where a declared core symbol went
abbrev IsPlaced : UniverseConfig → List String → List String → List String → String → Type 0
IsPlaced cfg core unserved outside s =
    member s (declared_core cfg) ≡ true
    → exactly_one (member s core) (member s unserved) (member s outside) ≡ true

core_only-IsPlaced :
    (cfg : UniverseConfig) (s : String)
    → IsPlaced cfg
        (scoped_core cfg)
        []
        (keep (λ x. not (symbol_in_trading_scope x)) (declared_core cfg))
        s
core_only-IsPlaced cfg s h = ground (
  arith,
  member-keep symbol_in_trading_scope s (declared_core cfg),
  member-keep (λ x. not (symbol_in_trading_scope x)) s (declared_core cfg),
)

enforced-IsPlaced :
    (cfg : UniverseConfig) (p : String → Bool) (s : String)
    → IsPlaced cfg
        (keep p (scoped_core cfg))
        (keep (λ x. not (member x (keep p (scoped_core cfg)))) (scoped_core cfg))
        (keep (λ x. not (symbol_in_trading_scope x)) (declared_core cfg))
        s
enforced-IsPlaced cfg p s h = ground (
  arith,
  member-keep symbol_in_trading_scope s (declared_core cfg),
  member-keep (λ x. not (symbol_in_trading_scope x)) s (declared_core cfg),
  member-keep p s (scoped_core cfg),
  member-keep (λ x. not (member x (keep p (scoped_core cfg)))) s (scoped_core cfg),
)

module _ {X : Type 0} (cfg : UniverseConfig) (override : Option Bool) where
  -- Whatever database `resolve` was given, a declared core symbol stands in exactly one of the core,
  -- the unserviceable core and the symbols out of scope.
  pub resolve_accounts :
      (access : Access X) (s : String)
      → member s (declared_core cfg) ≡ true
      → let u = resolve cfg override access in
        exactly_one (member s u.core) (member s u.unserviceable_core) (member s u.out_of_scope)
        ≡ true
  unfolding resolve core_only enforced_universe
  resolve_accounts no_database s h = core_only-IsPlaced cfg s h
  resolve_accounts unreadable s h = core_only-IsPlaced cfg s h
  resolve_accounts (opened db) s h = elim (Bool-cases (real_feed_mode cfg)) [
    | inl real ↦
        ap
          (λ u.
            exactly_one (member s u.core) (member s u.unserviceable_core) (member s u.out_of_scope))
          (resolve_enforced cfg override db real)
        ∙ enforced-IsPlaced cfg (symbol_is_tradeable db.bars) s h
    | inr real ↦
        ap
          (λ u.
            exactly_one (member s u.core) (member s u.unserviceable_core) (member s u.out_of_scope))
          (resolve_offline cfg override db real)
        ∙ core_only-IsPlaced cfg s h
  ]

  -- Whatever database `resolve` was given, no symbol out of scope may be traded.
  pub resolve_in_scope :
      (access : Access X) (s : String)
      → symbol_in_trading_scope s ≡ false
      → member s (symbols (resolve cfg override access)) ≡ false
  unfolding resolve core_only symbols
  resolve_in_scope no_database s h = ground (
    arith,
    member-union s (scoped_core cfg) [],
    member-keep symbol_in_trading_scope s (declared_core cfg),
  )
  resolve_in_scope unreadable s h = ground (
    arith,
    member-union s (scoped_core cfg) [],
    member-keep symbol_in_trading_scope s (declared_core cfg),
  )
  resolve_in_scope (opened db) s h = ground (arith, resolve-symbols cfg override db s)
