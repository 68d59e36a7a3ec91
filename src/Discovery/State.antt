-- ===== src/Discovery/State.antt =====
-- discovery/run.py: what a pass keeps in the database and reads from outside; discovery/store.py, the
-- last recorded pass; discovery/universe.py, the universe of a class; discovery/watchlist.py, the
-- recent refusals.
use Prim.Native.Char.{code}
use ai_trader.Base.{
  ℕ, ◌+◌, max, Bool, true, false, Option, none, some, ◌&&◌, not, leb, ◌==◌, if◌then◌else◌, List, [],
  ◌∷◌, map, keep, String, str_eq, str_lt, is_text, ℤ,
}
use ai_trader.Watchlist.{Db, Entry, member}
use ai_trader.Universe.{BarsTable, tradeable_asset_classes}
use ai_trader.Universe.Serviceable.{Backfilled}
use ai_trader.Funnel.Screen.{Snapshot}
use ai_trader.Funnel.Evaluate.{Verdict}
use ai_trader.Funnel.Pass.{Settings, Outside}
use ai_trader.Funnel.Day.{AssetClass, crypto, equity, is_crypto, PassRow}

-- A row of discovery_pass; its `ts` in seconds, as `_parse_iso` reads it back
pub record Stored : Type 0 where
  pub row : PassRow
  pub seconds : ℕ

-- The tables that a pass reads and writes
pub record DiscoveryDb (X : Type 0) : Type 0 where
  pub watchlist : Db X
  pub passes : List Stored
  pub bars : BarsTable

-- What a pass reads from outside. `ts` is the pass's time as a text, `refusal_cutoff` and
-- `stale_cutoff` are the texts that the two queries compare with, and `add_reason` writes the reason
-- of an add. `snapshots_for` is none where a fetch raises; `backfill` gives the bars it left.
pub record RunEnv (X : Type 0) : Type 0 where
  pub settings : Settings X
  pub enabled : Bool
  pub force : Bool
  pub live : Bool
  pub shaping : Bool
  pub reserved : ℤ
  pub crypto_interval : ℤ
  pub equity_interval : ℤ
  pub max_size : ℤ
  pub crypto_active : List String
  pub equity_universe : List String
  pub ts : String
  pub refusal_cutoff : String
  pub stale_cutoff : String
  pub stale_reason : String
  pub cap_reason : String
  pub snapshots_for : List String → Option (List (Snapshot X))
  pub outside : Outside X
  pub backfill : BarsTable → List String → Backfilled × BarsTable
  pub add_reason : Verdict X → Bool → String

abbrev pub class_name : AssetClass → String
class_name crypto = "crypto"
class_name equity = "equity"

-- `last_pass_ts`: the latest of the class
unfoldable pub last_pass : AssetClass → List Stored → Option ℕ
last_pass cls [] = none
last_pass cls (stored ∷ rest) =
    let later = last_pass cls rest in
    if str_eq (class_name stored.row.asset_class) (class_name cls)
    then some (elim later [ none ↦ stored.seconds | some t ↦ max stored.seconds t ])
    else later

abbrev pub rows_of : List Stored → List PassRow
rows_of passes = map (λ stored. stored.row) passes

-- An ASCII letter in lower case
abbrev pub fold_code : ℕ → ℕ
fold_code n = if leb 65 n && leb n 90 then n + 32 else n

-- `s LIKE 'p%'`, for a pattern without wild cards
abbrev pub like_prefix : String → String → Bool
like_prefix String.[] s = true
like_prefix (String.◌∷◌ c p) String.[] = false
like_prefix (String.◌∷◌ c p) (String.◌∷◌ d s) =
    fold_code (code c) == fold_code (code d) && like_prefix p s

-- The rows that the query of `recent_onboarding_refusals` selects, with `if r and r[0]`
abbrev pub is_refusal : String → Entry → Bool
is_refusal cutoff e =
    str_eq e.action "add"
    && not e.applied
    && not (str_lt e.ts cutoff)
    && like_prefix "onboarding refused" e.reason
    && is_text e.symbol

module _ {X : Type 0} where
  -- The set as a list, which is only asked for members
  unfoldable pub recent_onboarding_refusals : String → Db X → List String
  recent_onboarding_refusals cutoff db = map (λ e. e.symbol) (keep (is_refusal cutoff) db.journal)

  unfoldable pub universe_for : RunEnv X → AssetClass → List String
  universe_for env cls =
      if not (member (class_name cls) tradeable_asset_classes)
      then []
      else if is_crypto cls
      then env.crypto_active
      else env.equity_universe

  -- The universe without the symbols that a venue has recently refused
  unfoldable pub screened_universe : RunEnv X → AssetClass → Db X → List String
  unfolding universe_for recent_onboarding_refusals
  screened_universe env cls db =
      let refused = recent_onboarding_refusals env.refusal_cutoff db in
      keep (λ s. not (member s refused)) (universe_for env cls)
