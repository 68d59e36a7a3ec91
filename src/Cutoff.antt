-- ===== src/Cutoff.antt =====
-- news_eval/cutoff.py: the 9.1 day exclusion, the 9.7 cutoff S* and the 10.1 hard stop, over counts.
-- A `ValueError` is `none`. A dict is the list of its items in insertion order, with distinct keys.
pub mod Position
pub mod SStarLaws
pub mod Days
mod Tests
use Prim.Native.Char.{code}
use Prim.Native.Nat.{compare, Ordering}
use ai_trader.Base.{
  ℕ, zero, suc, ◌+◌, ◌-◌, Bool, true, false, Option, none, some, ◌&&◌, ◌||◌, not, ltb, leb, ◌==◌,
  if◌then◌else◌, Float, List, [], ◌∷◌, ◌++◌, map, keep, first, last, get_elem?, String, str_eq,
  str_lt, sorted, is_some,
}

-- A value of a count dict: a non-negative int, or what `_check_count` refuses (a bool, a value
-- that is no int, a negative int)
pub data Count : Type 0 where
  nat : ℕ → Count
  bad : Count

abbrev pub Counts : Type 0
Counts = List (String × ℕ)

infixl 5 ◌>>=◌
abbrev pub ◌>>=◌ {ℓ κ} : {A : Type ℓ} {B : Type κ} → Option A → (A → Option B) → Option B
none >>= f = none
some a >>= f = f a

-- `_check_count`
pub check_count : Count → Option ℕ
check_count (nat n) = some n
check_count bad = none

-- The check of every value of one dict
pub check_counts : List (String × Count) → Option Counts
unfolding check_count
check_counts [] = some []
check_counts ((k, c) ∷ items) =
    let rest = check_counts items in do n ← check_count c; ns ← rest; some ((k, n) ∷ ns)

-- `by_outcome.get(key, 0)`
unfoldable pub get_count : String → Counts → ℕ
get_count key [] = 0
get_count key ((k, n) ∷ items) = if str_eq k key then n else get_count key items

-- `sum(by_outcome.values())`
unfoldable pub sum_counts : Counts → ℕ
sum_counts [] = 0
sum_counts ((k, n) ∷ items) = n + sum_counts items

-- The code points of a text
abbrev pub codes : String → List ℕ
codes String.[] = []
codes (String.◌∷◌ c s) = code c ∷ codes s

-- K.STALE_PENDING_SESSIONS, K.HARD_STOP_SESSION
abbrev pub stale_pending_sessions : ℕ
stale_pending_sessions = 3

abbrev pub hard_stop_session : String
hard_stop_session = "2027-01-15"

pub data Case : Type 0 where
  no_sessions no_resolved first_session_pending pending_cutoff no_pending : Case

pub record SStar : Type 0 where
  pub s_star : Option String
  pub case : Case
  pub sessions : List String
  pub latest_resolved : Option String
  pub earliest_nonstale_pending : Option String
  pub stale_pending : List (String × ℕ)
  pub stale_pending_rows : ℕ
  pub empty_session_pending : ℕ

-- A placed session with its place in the order, `index[session]`
pub record Entry : Type 0 where
  pub session : String
  pub index : ℕ
  pub by_outcome : Counts

unfoldable pub enumerate : ℕ → List (String × Counts) → List Entry
enumerate i [] = []
enumerate i ((s, counts) ∷ items) =
    record { session = s; index = i; by_outcome = counts } ∷ enumerate (suc i) items

abbrev pub has_resolved : Entry → Bool
has_resolved e = ltb 0 (get_count "resolved" e.by_outcome)

abbrev pub has_pending : Entry → Bool
has_pending e = ltb 0 (get_count "pending" e.by_outcome)

-- The test of the loop over the pending sessions
abbrev pub is_stale : Option Entry → Entry → Bool
is_stale none e = false
is_stale (some latest) e = ltb (e.index + stale_pending_sessions) latest.index

-- The loop that fills `stale` and `nonstale`
unfoldable pub split_pending : Option Entry → List Entry → List (String × ℕ) × List Entry
split_pending latest [] = ([], [])
split_pending latest (e ∷ es) =
    let (stale, nonstale) = split_pending latest es in
    if is_stale latest e
    then ((e.session, get_count "pending" e.by_outcome) ∷ stale, nonstale)
    else (stale, e ∷ nonstale)

abbrev pub session_of : Option Entry → Option String
session_of none = none
session_of (some e) = some e.session

-- The `if`/`elif` chain on the sessions, the latest resolved and the earliest non-stale session
unfoldable pub choose_s_star : List String → Option Entry → Option Entry → Option String × Case
choose_s_star [] latest earliest = (none, no_sessions)
choose_s_star (s ∷ ss) none earliest = (none, no_resolved)
choose_s_star (s ∷ ss) (some latest) none = (last (s ∷ ss), no_pending)
choose_s_star (s ∷ ss) (some latest) (some e) =
    if e.index == 0
    then (none, first_session_pending)
    else (get_elem? (s ∷ ss) (e.index - 1), pending_cutoff)

pub latest_of : List Entry → Option Entry
latest_of entries = last (keep has_resolved entries)

pub earliest_of : List Entry → Option Entry
unfolding latest_of
earliest_of entries = first (split_pending (latest_of entries) (keep has_pending entries)).1

-- `compute_s_star` from the placed sessions on
unfoldable pub s_star_of : List Entry → ℕ → SStar
s_star_of entries empty_pending =
    let sessions = map (λ (e : Entry). e.session) entries in
    let latest = latest_of entries in
    let (stale, nonstale) = split_pending latest (keep has_pending entries) in
    let (s_star, case) = choose_s_star sessions latest (earliest_of entries) in
    record {
      s_star = s_star;
      case = case;
      sessions = sessions;
      latest_resolved = session_of latest;
      earliest_nonstale_pending = session_of (earliest_of entries);
      stale_pending = stale;
      stale_pending_rows = sum_counts stale;
      empty_session_pending = empty_pending;
    }

-- `session is None or session == ""`
abbrev pub is_empty : Option String → Bool
is_empty none = true
is_empty (some s) = str_eq s ""

-- `analysis_cutoff`: `min(s_star, K.HARD_STOP_SESSION)`, and None stays None
unfoldable pub analysis_cutoff : Option String → Option String
analysis_cutoff none = none
analysis_cutoff (some s) = some (if str_lt hard_stop_session s then hard_stop_session else s)

pub record HardStop : Type 0 where
  pub hard_stop : String
  pub cutoff : Option String

-- `hard_stop_record`: {} is `none`
unfoldable pub hard_stop_record : Option String → Option HardStop
hard_stop_record none = none
hard_stop_record (some s) =
    if str_lt s hard_stop_session
    then none
    else some (record { hard_stop = hard_stop_session; cutoff = analysis_cutoff (some s) })

-- `\d` of Python's `re` is a table of the language over all code points: a parameter
module _ (is_decimal : ℕ → Bool) where
  digits_then : ℕ → (List ℕ → Bool) → List ℕ → Bool
  digits_then zero next cs = next cs
  digits_then (suc n) next [] = false
  digits_then (suc n) next (c ∷ cs) = let rest = digits_then n next cs in is_decimal c && rest

  dash_then : (List ℕ → Bool) → List ℕ → Bool
  dash_then next [] = false
  dash_then next (c ∷ cs) = c == b'-' && next cs

  -- `$` also matches before a newline that ends the text
  at_end : List ℕ → Bool
  at_end [] = true
  at_end (c ∷ []) = c == 10
  at_end _ = false

  -- `_ISO_DATE_RE.match`
  pub is_iso_date : String → Bool
  unfolding digits_then dash_then at_end
  is_iso_date s =
      digits_then 4 (dash_then (digits_then 2 (dash_then (digits_then 2 at_end)))) (codes s)

  -- One item of the loop of `_split_sessions`
  split_item :
      Option String → Counts → List (String × Counts) × ℕ → Option (List (String × Counts) × ℕ)
  unfolding is_iso_date
  split_item none counts (placed, empty) = some (placed, get_count "pending" counts + empty)
  split_item (some s) counts (placed, empty) =
      if str_eq s ""
      then some (placed, get_count "pending" counts + empty)
      else if not (is_iso_date s)
      then none
      else if ltb 0 (sum_counts counts)
      then some ((s, counts) ∷ placed, empty)
      else some (placed, empty)

  -- `_split_sessions`, the rest of the items first: the placed sessions in order, and the count
  pub split_sessions :
      List (Option String × List (String × Count)) → Option (List (String × Counts) × ℕ)
  unfolding split_item check_counts
  split_sessions [] = some ([], 0)
  split_sessions ((session, by_outcome) ∷ items) =
      let rest = split_sessions items in
      do counts ← check_counts by_outcome; acc ← rest; split_item session counts acc

  abbrev pub key_lt : String × Counts → String × Counts → Bool
  key_lt (s, _) (t, _) = str_lt s t

  unfoldable pub compute_s_star : List (Option String × List (String × Count)) → Option SStar
  compute_s_star session_status = do
    acc ← split_sessions session_status
    some (s_star_of (enumerate 0 (sorted key_lt acc.0)) acc.1)
