-- ===== src/Watchdog/Feed.antt =====
-- ops/watchdog.py: feed_ok, the freshness and the provenance of every polled symbol. What the
-- database and the clock answer is the record `FeedEnv`; an age is a whole number of ticks.
pub mod Laws
pub mod Unavailable
pub mod Contained
mod Tests
use ai_trader.Base.{
  ℕ, ℤ, Bool, true, false, Option, none, some, ◌&&◌, ◌||◌, not, if◌then◌else◌, List, [], ◌∷◌, ◌++◌,
  any, count, le_ℤ, String, str_eq, is_some, is_text,
}
use ai_trader.Universe.{is_real}

-- The newest row of a symbol: its timestamp and its source. The code treats a missing one as it
-- treats the empty text.
pub record BarRow : Type 0 where
  pub timestamp : String
  pub source : String

-- What the query of the newest row gave: an answer; the refusal of the column `source`, with what
-- the second query gave then; another exception
pub data Query : Type 0 where
  answered no_source_column : Option BarRow → Query
  failed : Query

pub record FeedEnv : Type 0 where
  pub connects : Bool
  pub real_path : Bool
  pub equities_open : Bool
  pub threshold : ℤ
  pub recency : ℤ
  pub symbols : List String
  pub is_pair : String → Bool
  pub newest : String → Query
  pub symbol_is_tradeable : String → Bool
  pub age_of : String → Option ℤ

pub data Reason : Type 0 where
  market_closed symbol_unavailable unreadable : Reason

-- A value of the dict `symbols`, with an Option for a key that may be missing
pub record Detail : Type 0 where
  pub checked : Bool
  pub tradeable : Option Bool
  pub is_fresh : Option Bool
  pub source : Option String
  pub reason : Option Reason
  pub age_seconds : Option ℤ
  pub out_of_window : Bool

pub record Feed : Type 0 where
  pub fresh : Bool
  pub real : Bool
  pub ok : Bool
  pub source : String
  pub provenance_checked : Bool
  pub details : List (String × Detail)
  pub stale_symbols : List String
  pub non_real_symbols : List String
  pub unavailable_symbols : List String
  pub serving_symbols : List String
  pub out_of_window_non_real : List String
  pub checked_count : ℕ

-- The dict `out` before the first symbol
abbrev pub no_feed : Feed
no_feed = record {
  fresh = false;
  real = false;
  ok = false;
  source = "unknown";
  provenance_checked = false;
  details = [];
  stale_symbols = [];
  non_real_symbols = [];
  unavailable_symbols = [];
  serving_symbols = [];
  out_of_window_non_real = [];
  checked_count = 0;
}

-- `d[key] = value`, which keeps the place of a key that is there
pub set_detail : List (String × Detail) → String → Detail → List (String × Detail)
set_detail [] key d = (key, d) ∷ []
set_detail ((k, old) ∷ rest) key d =
    let later = set_detail rest key d in if str_eq k key then (k, d) ∷ rest else (k, old) ∷ later

abbrev pub row_of : Query → Option BarRow
row_of (answered row) = row
row_of (no_source_column row) = row
row_of failed = none

-- The query left `provenance_checked` as it was.
abbrev pub has_source_column : Query → Bool
has_source_column (no_source_column _) = false
has_source_column _ = true

-- `age is not None and age <= limit`
abbrev pub aged_within : Option ℤ → ℤ → Bool
aged_within none limit = false
aged_within (some age) limit = le_ℤ age limit

-- `str(row[1] or "unknown")`
abbrev pub source_or : String → String → String
source_or missing source = if is_text source then source else missing

-- `str(row[1]) if row and row[1] else "none"`
abbrev pub source_of_row : Option BarRow → String
source_of_row none = "none"
source_of_row (some row) = source_or "none" row.source

-- `if b: xs.append(x)`
abbrev pub add_if : Bool → List String → String → List String
add_if b xs x = if b then xs ++ x ∷ [] else xs

unfoldable pub report_unavailable : Feed → String → Option BarRow → Feed
report_unavailable f sym row = record f {
  details = set_detail f.details sym (record {
    checked = true;
    tradeable = some false;
    is_fresh = none;
    source = some (source_of_row row);
    reason = some symbol_unavailable;
    age_seconds = none;
    out_of_window = false;
  });
  unavailable_symbols = f.unavailable_symbols ++ sym ∷ [];
}

unfoldable pub report_unreadable : Feed → String → Feed
report_unreadable f sym = record f {
  details = set_detail f.details sym (record {
    checked = true;
    tradeable = some true;
    is_fresh = none;
    source = some "none";
    reason = some unreadable;
    age_seconds = none;
    out_of_window = false;
  });
}

-- The part of the loop's body that judges a tradeable symbol with a newest row
unfoldable pub judge_row : FeedEnv → Feed → String → BarRow → Feed
judge_row env f sym row =
    let age = env.age_of row.timestamp in
    let fresh = aged_within age env.threshold in
    let source = source_or "unknown" row.source in
    let foreign = f.provenance_checked && not (is_real source) in
    let recent = aged_within age env.recency in
    record f {
      details = set_detail f.details sym (record {
        checked = true;
        tradeable = some true;
        is_fresh = some fresh;
        source = some source;
        reason = none;
        age_seconds = age;
        out_of_window = foreign && not recent;
      });
      stale_symbols = add_if (not fresh) f.stale_symbols sym;
      serving_symbols = add_if (fresh && is_real source) f.serving_symbols sym;
      non_real_symbols = add_if (foreign && recent) f.non_real_symbols sym;
      out_of_window_non_real = add_if (foreign && not recent) f.out_of_window_non_real sym;
    }

unfoldable pub judge : FeedEnv → Feed → String → Option BarRow → Feed
unfolding report_unreadable judge_row
judge env f sym none = report_unreadable f sym
judge env f sym (some row) =
    if is_text row.timestamp then judge_row env f sym row else report_unreadable f sym

-- The body of the loop over the symbols
unfoldable pub visit : FeedEnv → Feed → String → Feed
unfolding report_unavailable judge
visit env f sym =
    if not (env.is_pair sym) && not env.equities_open
    then record f {
      details = set_detail f.details sym (record {
        checked = false;
        tradeable = none;
        is_fresh = none;
        source = none;
        reason = some market_closed;
        age_seconds = none;
        out_of_window = false;
      });
    }
    else (let query = env.newest sym in
        let f1 = record f {
          provenance_checked = f.provenance_checked && has_source_column query;
        } in
        if not (env.symbol_is_tradeable sym)
        then report_unavailable f1 sym (row_of query)
        else judge env f1 sym (row_of query))

unfoldable pub visit_all : FeedEnv → Feed → List String → Feed
unfolding visit
visit_all env f [] = f
visit_all env f (sym ∷ rest) = visit_all env (visit env f sym) rest

-- `d.get("checked") and d.get("tradeable")`
abbrev pub counts_as_source : Detail → Bool
counts_as_source d = d.checked && elim d.tradeable [ none ↦ false | some b ↦ b ]

-- `d.get("source", "unknown")`
abbrev pub named_source : Detail → String
named_source d = elim d.source [ none ↦ "unknown" | some source ↦ source ]

abbrev pub source_of : List (String × Detail) → String → String
source_of [] sym = "unknown"
source_of ((k, d) ∷ rest) sym = if str_eq k sym then named_source d else source_of rest sym

abbrev pub first_source : List (String × Detail) → String
first_source [] = "unknown"
first_source ((k, d) ∷ rest) = if counts_as_source d then named_source d else first_source rest

-- The aggregate source for the status line
abbrev pub worst_source : Feed → String
worst_source f = elim f.non_real_symbols [
  | [] ↦ first_source f.details
  | sym ∷ _ ↦ source_of f.details sym
]

abbrev pub is_empty : List String → Bool
is_empty [] = true
is_empty (_ ∷ _) = false

abbrev pub any_tradeable_serving : Feed → Bool
any_tradeable_serving f = not (is_empty f.serving_symbols)

-- `broken`, of a feed on the real path whose provenance was checked
abbrev pub is_broken : Feed → Bool
is_broken f =
    not (is_empty f.non_real_symbols)
    || (not (is_empty f.stale_symbols) && not (any_tradeable_serving f))

-- The keys that are set after the loop
unfoldable pub summarise : FeedEnv → Feed → Feed
summarise env f = record f {
  checked_count = count (λ entry. entry.1.checked) f.details;
  fresh = is_empty f.stale_symbols;
  real = is_empty f.non_real_symbols;
  source = worst_source f;
  ok =
      if env.real_path && f.provenance_checked then not (is_broken f) else is_empty f.stale_symbols;
}

unfoldable pub feed_ok : FeedEnv → Feed
unfolding visit_all summarise
feed_ok env =
    if env.connects
    then summarise env (visit_all env (record no_feed { provenance_checked = true }) env.symbols)
    else no_feed

-- The key `feed_substitution` of `check_health`
unfoldable pub feed_substitution : FeedEnv → Bool
unfolding feed_ok
feed_substitution env =
    let feed = feed_ok env in
    env.real_path && feed.provenance_checked && not (is_empty feed.non_real_symbols)
