-- ===== src/Watchlist/Removal.antt =====
-- discovery/watchlist.py: what reads the table and what takes rows off it: the removals, the pruning
-- of stale rows and the limit on the size.
use ai_trader.Base.{
  ℕ, Bool, true, false, Option, none, some, ◌&&◌, ◌||◌, not, if◌then◌else◌, List, [], ◌∷◌, map,
  keep, String, str_eq, str_lt, sorted, drop, Float,
}
use ai_trader.Watchlist.{
  Db, Outcome, Row, WatchlistEvent, apply_event, is_active, is_live, is_referred, ts_or,
}

module _ {X : Type 0} where
  -- An event that removes a symbol, with the defaults of the other fields
  abbrev pub removal : X → String → String → String → String → WatchlistEvent X
  removal zero_score symbol source reason ts = record {
    action = "remove";
    symbol = symbol;
    source = source;
    reason = reason;
    sleeve_target = "quant_core";
    score = zero_score;
    asset_class = "";
    ts = ts;
  }

  -- `remove_from_adaptive`
  unfoldable pub remove_from_adaptive :
      X → Bool → String → Db X → String → String → Option String → Db X × Outcome
  remove_from_adaptive zero_score shaping now db symbol reason ts =
      apply_event shaping now db (removal zero_score symbol "adaptive_react" reason (ts_or ts now))

  -- `prune_broken_thesis`
  unfoldable pub prune_broken_thesis :
      X → Bool → String → Db X → String → String → Option String → Db X × Outcome
  prune_broken_thesis zero_score shaping now db symbol reason ts =
      apply_event shaping now db (removal zero_score symbol "prune" reason (ts_or ts now))

  abbrev pub symbol_of : Row X → String
  symbol_of r = r.symbol

  -- `referred_symbols`: ORDER BY symbol, without empty symbols
  pub referred_symbols : Db X → List String
  referred_symbols db =
      keep (λ s. not (str_eq s ""))
        (sorted str_lt (map symbol_of (keep (λ r. is_referred r.status) db.watchlist)))

  -- `active_symbols` with no sleeve, and with one
  unfoldable pub active_symbols : Db X → Option String → List String
  active_symbols db none =
      sorted str_lt (map symbol_of (keep (λ r. is_active r.status) db.watchlist))
  active_symbols db (some sleeve) = sorted str_lt (
      map symbol_of (
        keep (λ r. is_active r.status && (str_eq sleeve "" || str_eq r.sleeve_target sleeve))
          db.watchlist))

  -- The rows that `stale_symbols` selects, for the cutoff that it computes from the clock
  abbrev pub is_stale : String → Row X → Bool
  is_stale cutoff r = is_live r.status && str_lt r.updated_ts cutoff

  unfoldable pub stale_symbols : String → Db X → List String
  stale_symbols cutoff db = sorted str_lt (map symbol_of (keep (is_stale cutoff) db.watchlist))

  -- The loop that removes a list of symbols, and the list of those that were removed
  unfoldable pub remove_all : X → Bool → String → String → Db X → List String → Db X × List String
  remove_all zero_score shaping ts reason db [] = (db, [])
  remove_all zero_score shaping ts reason db (symbol ∷ symbols) =
      let (db', r) = apply_event shaping ts db (removal zero_score symbol "prune" reason ts) in
      let (db'', dropped) = remove_all zero_score shaping ts reason db' symbols in
      (db'', if r.applied then symbol ∷ dropped else dropped)

  -- `prune_stale`; `cutoff` and `ts` are computed from the one clock value, and `reason` is the text
  unfoldable pub prune_stale : X → Bool → String → String → String → Db X → Db X × List String
  prune_stale zero_score shaping cutoff ts reason db =
      remove_all zero_score shaping ts reason db (stale_symbols cutoff db)

module _ {X : Type 0} ⦃fl : Float X⦄ where
  -- ORDER BY score DESC, updated_ts DESC, symbol ASC
  abbrev pub stronger : Row X → Row X → Bool
  stronger a b =
      if fl.lt b.score a.score
      then true
      else if fl.lt a.score b.score
      then false
      else if str_lt b.updated_ts a.updated_ts
      then true
      else if str_lt a.updated_ts b.updated_ts
      then false
      else str_lt a.symbol b.symbol

  -- The active symbols past the cap, `rows[max(0, max_size):]`
  unfoldable pub overflow : ℕ → Db X → List String
  overflow max_size db =
      map symbol_of (drop max_size (sorted stronger (keep (λ r. is_active r.status) db.watchlist)))

  unfoldable pub enforce_max_size : X → Bool → String → String → ℕ → Db X → Db X × List String
  enforce_max_size zero_score shaping ts reason max_size db =
      remove_all zero_score shaping ts reason db (overflow max_size db)
