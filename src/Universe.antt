-- ===== src/Universe.antt =====
-- market_data/universe.py and market_data/tradeable.py: which symbols the engine polls and which it
-- may trade. The bars table is what its schema lets a query see; a configured value is a text, with
-- none for a missing key.
pub mod Text
pub mod Serviceable
pub mod Laws
pub mod Accounts
mod Tests
use ai_trader.Base.{
  ℕ, Bool, true, false, Option, none, some, ◌&&◌, ◌||◌, not, ltb, if◌then◌else◌, List, [], ◌∷◌,
  ◌++◌, keep, any, length, String, str_eq, is_text,
}
use ai_trader.Watchlist.{Db, member, or_else}
use ai_trader.Watchlist.Removal.{active_symbols}
use ai_trader.Universe.Text.{has_slash, strip, pieces}

-- A row of the table `bars`, with none for a NULL source
pub record Bar : Type 0 where
  pub symbol : String
  pub timestamp : String
  pub source : Option String

-- The table `bars`: with the column `source`, from before the migration, or missing
pub data BarsTable : Type 0 where
  with_source without_source : List Bar → BarsTable
  no_table : BarsTable

-- `source in REAL_SOURCES`
abbrev pub is_real : String → Bool
is_real source = member source ("real_feed" ∷ "backfill" ∷ [])

abbrev pub has_real_source : Option String → Bool
has_real_source none = false
has_real_source (some source) = is_real source

abbrev pub is_bar_of : String → Bar → Bool
is_bar_of symbol bar = str_eq bar.symbol symbol

unfoldable pub symbol_is_tradeable : BarsTable → String → Bool
symbol_is_tradeable (with_source bars) symbol =
    any (λ bar. is_bar_of symbol bar && has_real_source bar.source) bars
symbol_is_tradeable (without_source bars) symbol = any (is_bar_of symbol) bars
symbol_is_tradeable no_table symbol = false

-- `TRADEABLE_ASSET_CLASSES`
abbrev pub tradeable_asset_classes : List String
tradeable_asset_classes = "equity" ∷ []

abbrev pub asset_class : String → String
asset_class symbol = if has_slash symbol then "crypto" else "equity"

unfoldable pub symbol_in_trading_scope : String → Bool
symbol_in_trading_scope symbol = member (asset_class symbol) tradeable_asset_classes

-- The keys of the control file that are read here
pub record ControlKeys : Type 0 where
  pub strategy_profile : Option String
  pub feed_mode : Option String

-- The configuration's values; `discovery_on` is what `discovery_enabled` resolves to, and `controls`
-- is none where the control file's reader raised
pub record UniverseConfig : Type 0 where
  pub controls : Option ControlKeys
  pub profile : Option String
  pub whitelist : Option String
  pub active_quant_whitelist : Option String
  pub feed_mode : Option String
  pub discovery_on : Bool

-- `d.get(key, default)`
abbrev pub get_or : String → Option String → String
get_or missing none = missing
get_or missing (some value) = value

-- The control file's profile, where it is one of the two
abbrev pub profile_override : Option ControlKeys → String
profile_override none = ""
profile_override (some keys) =
    let raw = get_or "" keys.strategy_profile in
    if member raw ("swing" ∷ "active_quant" ∷ []) then raw else ""

unfoldable pub resolved_profile : UniverseConfig → String
resolved_profile cfg = or_else (profile_override cfg.controls) (get_or "swing" cfg.profile)

-- `if s and s not in out: out.append(s)`
abbrev pub append_new : List String → String → List String
append_new out s = if is_text s && not (member s out) then out ++ s ∷ [] else out

abbrev pub append_all : List String → List String → List String
append_all out [] = out
append_all out (s ∷ rest) = append_all (append_new out s) rest

abbrev pub strip_all : List String → List String
strip_all [] = []
strip_all (s ∷ rest) = strip s ∷ strip_all rest

unfoldable pub declared_core : UniverseConfig → List String
unfolding resolved_profile pieces
declared_core cfg =
    let configured = get_or "BTC/USD,ETH/USD,SPY,QQQ" cfg.whitelist in
    let raw =
      if str_eq (resolved_profile cfg) "active_quant"
      then or_else (get_or configured cfg.active_quant_whitelist) configured
      else configured in
    append_all [] (strip_all (pieces "" raw))

unfoldable pub real_feed_mode : UniverseConfig → Bool
real_feed_mode cfg = elim cfg.controls [
  | none ↦ false
  | some keys ↦ str_eq (or_else (get_or "" keys.feed_mode) (get_or "" cfg.feed_mode)) "alpaca_paper"
]

-- The database as it is read here; the watchlist is none where its table cannot be read
pub record MarketDb (X : Type 0) : Type 0 where
  pub bars : BarsTable
  pub watchlist : Option (Db X)

-- What `resolve` is given: a connection or a path that opens, no path, or one that does not open
pub data Access (X : Type 0) : Type 0 where
  opened : MarketDb X → Access X
  no_database unreadable : Access X

pub data UniverseReason : Type 0 where
  declared_core_only database_unreadable offline_feed real_path : UniverseReason

pub record Universe : Type 0 where
  pub core : List String
  pub unserviceable_core : List String
  pub periphery : List String
  pub unserviceable_periphery : List String
  pub declared_core : List String
  pub out_of_scope : List String
  pub enforced : Bool
  pub reason : UniverseReason

-- `a + [s for s in b if s not in a]`
abbrev pub union : List String → List String → List String
union a b = a ++ keep (λ s. not (member s a)) b

unfoldable pub symbols : Universe → List String
symbols u = union u.core u.periphery

unfoldable pub unserviceable : Universe → List String
unserviceable u = u.unserviceable_core ++ u.unserviceable_periphery

-- `degraded`, with `MIN_TRADEABLE_UNIVERSE`
unfoldable pub degraded : Universe → Bool
unfolding symbols
degraded u = u.enforced && ltb (length (symbols u)) 2

-- The declared core that is in scope
abbrev pub scoped_core : UniverseConfig → List String
scoped_core cfg = keep symbol_in_trading_scope (declared_core cfg)

-- The universe of the declared core alone
unfoldable pub core_only : UniverseConfig → UniverseReason → Universe
core_only cfg reason = record {
  core = scoped_core cfg;
  unserviceable_core = [];
  periphery = [];
  unserviceable_periphery = [];
  declared_core = scoped_core cfg;
  out_of_scope = keep (λ s. not (symbol_in_trading_scope s)) (declared_core cfg);
  enforced = false;
  reason = reason;
}

-- The branch of the real path, for the scoped core and the periphery beside it
unfoldable pub enforced_universe : UniverseConfig → BarsTable → List String → Universe
enforced_universe cfg bars candidates =
    let core = scoped_core cfg in
    let ok_core = keep (symbol_is_tradeable bars) core in
    record {
      core = ok_core;
      unserviceable_core = keep (λ s. not (member s ok_core)) core;
      periphery = keep (symbol_is_tradeable bars) candidates;
      unserviceable_periphery = keep (λ s. not (symbol_is_tradeable bars s)) candidates;
      declared_core = core;
      out_of_scope = keep (λ s. not (symbol_in_trading_scope s)) (declared_core cfg);
      enforced = true;
      reason = real_path;
    }

-- The argument `discovery_on` of the readers, or else the resolved flag
abbrev pub discovery_asked : UniverseConfig → Option Bool → Bool
discovery_asked cfg none = cfg.discovery_on
discovery_asked cfg (some on) = on

module _ {X : Type 0} where
  unfoldable pub declared_periphery : UniverseConfig → Option Bool → MarketDb X → List String
  declared_periphery cfg override db =
      if not (discovery_asked cfg override)
      then []
      else elim db.watchlist [ none ↦ [] | some table ↦ append_all [] (active_symbols table none) ]

  unfoldable pub declared_symbols : UniverseConfig → Option Bool → MarketDb X → List String
  declared_symbols cfg override db = union (declared_core cfg) (declared_periphery cfg override db)

  unfoldable pub resolve : UniverseConfig → Option Bool → Access X → Universe
  unfolding core_only enforced_universe
  resolve cfg override no_database = core_only cfg declared_core_only
  resolve cfg override unreadable = core_only cfg database_unreadable
  resolve cfg override (opened db) =
      let core = scoped_core cfg in
      let periphery =
        keep (λ s. not (member s core))
          (keep symbol_in_trading_scope (declared_periphery cfg override db)) in
      if real_feed_mode cfg
      then enforced_universe cfg db.bars periphery
      else record (core_only cfg offline_feed) { periphery = periphery }
