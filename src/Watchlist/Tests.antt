-- ===== src/Watchlist/Tests.antt =====
-- Concrete watchlist events.
use ai_trader.Base.{◌≡◌, refl, true, false, [], ◌∷◌, none, String, ℤ, pos, fixed}
use ai_trader.Watchlist.{
  active, Row, Db, WatchlistEvent, apply_event, add, member, active_sources, upsert,
}
use ai_trader.Watchlist.Promotion.{apply_event_promotes}

abbrev nvda : Row ℤ
nvda = record {
  symbol = "NVDA";
  asset_class = "equity";
  added_ts = "2026-07-01";
  updated_ts = "2026-07-01";
  source = "discovery";
  reason = "strong";
  sleeve_target = "quant_core";
  score = pos 5;
  status = active;
  removed_ts = none;
  removed_reason = none;
}

abbrev amd : Row ℤ
amd = record nvda { symbol = "AMD"; score = pos 3; updated_ts = "2026-07-20" }

abbrev db : Db ℤ
db = record { watchlist = nvda ∷ amd ∷ []; journal = [] }

abbrev event_of : String → String → String → WatchlistEvent ℤ
event_of action symbol source = record {
  action = action;
  symbol = symbol;
  source = source;
  reason = "";
  sleeve_target = "quant_core";
  score = pos 1;
  asset_class = "equity";
  ts = "";
}

apply_event_promotes_example :
    ((event_of "add" "TSLA" "discovery").action ≡ "add")
    × ((event_of "add" "TSLA" "discovery").symbol ≡ "TSLA")
    × (member "discovery" active_sources ≡ true)
unfolding apply_event add upsert
apply_event_promotes_example =
    apply_event_promotes false "2026-07-21" db (event_of "add" "TSLA" "discovery") "TSLA" refl refl
