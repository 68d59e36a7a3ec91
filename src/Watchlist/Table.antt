-- ===== src/Watchlist/Table.antt =====
-- discovery/watchlist.py: the rows of the two tables, the events, the sources and the outcomes.
use ai_trader.Base.{
  Bool, true, false, Option, none, some, if◌then◌else◌, List, [], ◌∷◌, any, String, str_eq,
}

pub data Status : Type 0 where
  active referred removed : Status

abbrev pub is_active : Status → Bool
is_active active = true
is_active _ = false

abbrev pub is_referred : Status → Bool
is_referred referred = true
is_referred _ = false

-- `status IN (STATUS_ACTIVE, STATUS_REFERRED)`
abbrev pub is_live : Status → Bool
is_live removed = false
is_live _ = true

-- A row of the table `watchlist`; `X` is the type of the score, a float
pub record Row (X : Type 0) : Type 0 where
  pub symbol : String
  pub asset_class : String
  pub added_ts : String
  pub updated_ts : String
  pub source : String
  pub reason : String
  pub sleeve_target : String
  pub score : X
  pub status : Status
  pub removed_ts : Option String
  pub removed_reason : Option String

-- A row of the table `watchlist_event`
pub record Entry : Type 0 where
  pub ts : String
  pub action : String
  pub symbol : String
  pub source : String
  pub reason : String
  pub applied : Bool

pub record Db (X : Type 0) : Type 0 where
  pub watchlist : List (Row X)
  pub journal : List Entry

pub record WatchlistEvent (X : Type 0) : Type 0 where
  pub action : String
  pub symbol : String
  pub source : String
  pub reason : String
  pub sleeve_target : String
  pub score : X
  pub asset_class : String
  pub ts : String

-- `x in xs`, for a tuple of texts
abbrev pub member : String → List String → Bool
member s xs = any (str_eq s) xs

abbrev pub active_sources : List String
active_sources = "discovery" ∷ "prune" ∷ []

abbrev pub gated_sources : List String
gated_sources = "adaptive_react" ∷ []

abbrev pub reserved_sources : List String
reserved_sources = "manual" ∷ []

abbrev pub referral_sources : List String
referral_sources = "adaptive_react" ∷ []

abbrev pub valid_actions : List String
valid_actions = "add" ∷ "remove" ∷ []

abbrev pub valid_sleeves : List String
valid_sleeves = "quant_core" ∷ "research_satellite" ∷ []

-- `a or b`, for texts
abbrev pub or_else : String → String → String
or_else a b = if str_eq a "" then b else a

-- `ts or _utcnow_iso()`
abbrev pub ts_or : Option String → String → String
ts_or none now = now
ts_or (some ts) now = or_else ts now

pub data Reply : Type 0 where
  invalid_action no_symbol source_not_enabled unknown_source : Reply
  referral_recorded added taken_off not_on_watchlist venue_unserviceable : Reply

-- `{"applied": …, "reason": …}`
pub record Outcome : Type 0 where
  pub applied : Bool
  pub reason : Reply
