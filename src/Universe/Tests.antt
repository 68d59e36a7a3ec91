-- ===== src/Universe/Tests.antt =====
-- A configured universe over a small database.
use ai_trader.Base.{◌≡◌, refl, true, false, none, some, [], ◌∷◌, ◌&&◌, ◌||◌, not, ℤ, pos, sorted}
use ai_trader.Watchlist.{Row, active, member}
use ai_trader.Watchlist.Removal.{active_symbols}
use ai_trader.Universe.{
  with_source, UniverseConfig, MarketDb, Access, opened, unreadable, symbol_is_tradeable,
  symbol_in_trading_scope, resolved_profile, declared_core, real_feed_mode, resolve, symbols,
  declared_symbols, declared_periphery, enforced_universe, degraded,
}
use ai_trader.Universe.Text.{pieces, key_symbol}
use ai_trader.Universe.Laws.{resolve-symbols}
use ai_trader.Universe.Accounts.{exactly_one, resolve_accounts}

abbrev config : UniverseConfig
config = record {
  controls = some (record { strategy_profile = some "active_quant"; feed_mode = none });
  profile = none;
  whitelist = some "SPY";
  active_quant_whitelist = some " AAPL, BTC/USD,MSFT,,AAPL";
  feed_mode = some "alpaca_paper";
  discovery_on = true;
}

config_core : declared_core config ≡ "AAPL" ∷ "BTC/USD" ∷ "MSFT" ∷ []
unfolding declared_core resolved_profile pieces
config_core = refl

abbrev nvda : Row ℤ
nvda = record {
  symbol = "NVDA";
  asset_class = "equity";
  added_ts = "2026-07-01";
  updated_ts = "2026-07-01";
  source = "discovery";
  reason = "strong";
  sleeve_target = "quant_core";
  score = pos 5;
  status = active;
  removed_ts = none;
  removed_reason = none;
}

abbrev db : MarketDb ℤ
db = record {
  bars = with_source (
      record { symbol = "AAPL"; timestamp = "2026-07-27T10:00"; source = some "real_feed" }
      ∷ record { symbol = "BTC/USD"; timestamp = "2026-07-27T10:00"; source = some "backfill" }
      ∷ record { symbol = "MSFT"; timestamp = "2026-07-27T10:00"; source = none }
      ∷ []);
  watchlist = some (record { watchlist = nvda ∷ []; journal = [] });
}

abbrev broken : Access ℤ
broken = unreadable

key_of_pair : key_symbol "BTC/USD:5min" ≡ "BTC/USD"
key_of_pair = refl

nearly_empty : degraded (resolve config none (opened db)) ≡ true
unfolding degraded resolve enforced_universe real_feed_mode symbols declared_core resolved_profile
    pieces symbol_in_trading_scope symbol_is_tradeable declared_periphery active_symbols sorted
nearly_empty = refl

btc_out_of_scope : symbol_in_trading_scope "BTC/USD" ≡ false
unfolding symbol_in_trading_scope
btc_out_of_scope = refl

btc_declared : member "BTC/USD" (declared_core config) ≡ true
unfolding declared_core resolved_profile pieces
btc_declared = refl

resolve-symbols_example : member "AAPL" (symbols (resolve config none (opened db))) ≡ (
    symbol_in_trading_scope "AAPL"
    && member "AAPL" (declared_symbols config none db)
    && (not (real_feed_mode config) || symbol_is_tradeable db.bars "AAPL"))
resolve-symbols_example = resolve-symbols config none db "AAPL"

resolve_accounts_example :
    let u = resolve config none broken in
    exactly_one
      (member "BTC/USD" u.core)
      (member "BTC/USD" u.unserviceable_core)
      (member "BTC/USD" u.out_of_scope)
    ≡ true
resolve_accounts_example = resolve_accounts config none broken "BTC/USD" btc_declared
