-- ===== src/Horizon.antt =====
-- news_experiment/horizon.py: the exchange calendar and `resolve_anchor`, the first moment at which
-- a headline can be acted on. Instants are seconds of UTC. The time zone database and the text of
-- an instant are the language's: `at session hhmm` is the instant of a wall-clock time of a session
-- (`_at`), `market_day` the market's date of an instant, and `iso_z` the text of one.
pub mod CalendarLaws
pub mod Scan
pub mod Delay
mod Tests
use ai_trader.Base.{
  ℕ, zero, suc, ◌+◌, ◌*◌, Bool, true, false, ◌&&◌, not, ltb, leb, if◌then◌else◌, Option, none, some,
  List, [], ◌∷◌, map, length, get_elem?, is_some, String, str_eq, str_lt, sorted,
}

-- What a call does: it raises, it is still looping when the fuel ends, or it returns.
pub data Run (A : Type 0) : Type 0 where
  unknown_session value_error out_of_fuel : Run A
  returns : A → Run A

abbrev pub bind : {A B : Type 0} → Run A → (A → Run B) → Run B
bind unknown_session k = unknown_session
bind value_error k = value_error
bind out_of_fuel k = out_of_fuel
bind (returns a) k = k a

-- A row of the calendar table: the session, its open and its close
pub record Hours : Type 0 where
  pub session : String
  pub open_time : String
  pub close_time : String

pub record Calendar : Type 0 where
  pub sessions : List String
  pub opens : List (String × String)
  pub closes : List (String × String)

-- A dict built from pairs: the last pair of a key counts.
abbrev pub lookup : List (String × String) → String → Option String
lookup [] k = none
lookup ((j, v) ∷ pairs) k = elim (lookup pairs k) [
  | some w ↦ some w
  | none ↦ if str_eq j k then some v else none
]

abbrev pub earlier : Hours → Hours → Bool
earlier a b = str_lt a.session b.session

unfoldable pub from_rows : List Hours → Calendar
from_rows rows =
    let in_order = sorted earlier rows in
    record {
      sessions = map (λ r. r.session) in_order;
      opens = map (λ r. (r.session, r.open_time)) in_order;
      closes = map (λ r. (r.session, r.close_time)) in_order;
    }

abbrev pub shift : Run ℕ → Run ℕ
shift (returns i) = returns (suc i)
shift r = r

-- `tuple.index`
abbrev pub index_of : List String → String → Run ℕ
index_of [] s = value_error
index_of (x ∷ xs) s = if str_eq x s then returns 0 else shift (index_of xs s)

unfoldable pub next_session : Calendar → String → Run (Option String)
next_session cal s = bind (index_of cal.sessions s) (λ i. returns (get_elem? cal.sessions (i + 1)))

unfoldable pub session_ahead : Calendar → String → ℕ → Run (Option String)
session_ahead cal s n =
    bind (index_of cal.sessions s) (λ i. returns (get_elem? cal.sessions (i + n)))

-- `for s in self.sessions: if s >= day: return s`
abbrev pub first_from : String → List String → Option String
first_from day [] = none
first_from day (s ∷ xs) = let rest = first_from day xs in if str_lt s day then rest else some s

abbrev pub session_on_or_after : Calendar → String → Option String
session_on_or_after cal day = first_from day cal.sessions

pub data AnchorKind : Type 0 where
  same_session_close next_session_open : AnchorKind

pub record AnchorResolution : Type 0 where
  pub anchor_kind : AnchorKind
  pub anchor_session : String
  pub anchor_ts : String
  pub scoring_session : String
  pub delay_rolled : Bool
  pub reason : String

-- `timedelta(minutes=spec.MIN_DELAY_MINUTES)`, in seconds
abbrev pub min_delay : ℕ
min_delay = 20 * 60

abbrev pub calendar_exhausted : String
calendar_exhausted = "calendar_exhausted"

module _ (at : String → String → ℕ) (market_day : ℕ → String) (iso_z : ℕ → String) where
  abbrev pub at_of : String → Option String → Run ℕ
  at_of s none = unknown_session
  at_of s (some hhmm) = returns (at s hhmm)

  abbrev pub open_utc : Calendar → String → Run ℕ
  open_utc cal s = at_of s (lookup cal.opens s)

  abbrev pub close_utc : Calendar → String → Run ℕ
  close_utc cal s = at_of s (lookup cal.closes s)

  -- The open at which a headline is scored, in its own session's words
  abbrev pub open_anchor : String → ℕ → Bool → AnchorResolution
  open_anchor s opening rolled = record {
    anchor_kind = next_session_open;
    anchor_session = s;
    anchor_ts = iso_z opening;
    scoring_session = s;
    delay_rolled = rolled;
    reason = "";
  }

  abbrev pub exhausted : Bool → AnchorResolution
  exhausted rolled = record {
    anchor_kind = next_session_open;
    anchor_session = "";
    anchor_ts = "";
    scoring_session = "";
    delay_rolled = rolled;
    reason = calendar_exhausted;
  }

  abbrev pub close_anchor : String → ℕ → Option String → AnchorResolution
  close_anchor day close (some nxt) = record {
    anchor_kind = same_session_close;
    anchor_session = day;
    anchor_ts = iso_z close;
    scoring_session = nxt;
    delay_rolled = false;
    reason = "";
  }
  close_anchor day close none = record {
    anchor_kind = same_session_close;
    anchor_session = day;
    anchor_ts = iso_z close;
    scoring_session = "";
    delay_rolled = false;
    reason = calendar_exhausted;
  }

  -- The `while` loop over the sessions that follow, on fuel
  unfoldable pub seek : Calendar → ℕ → ℕ → Option String → Bool → Run AnchorResolution
  unfolding next_session
  seek cal published fuel none rolled = returns (exhausted rolled)
  seek cal published zero (some c) rolled = out_of_fuel
  seek cal published (suc fuel) (some c) rolled = bind (open_utc cal c) (λ opening.
      if ltb published opening && leb (published + min_delay) opening
      then returns (open_anchor c opening rolled)
      else bind (next_session cal c)
          (λ nxt. seek cal published fuel nxt (if ltb published opening then true else rolled)))

  -- A headline of the session `day`, which closes at `close`
  unfoldable pub anchor_in_session : Calendar → ℕ → String → ℕ → Run AnchorResolution
  unfolding next_session
  anchor_in_session cal published day close = bind (next_session cal day) (λ nxt.
      if leb (published + min_delay) close then returns (close_anchor day close nxt) else elim nxt [
        | none ↦ returns (exhausted true)
        | some s ↦ bind (open_utc cal s) (λ opening. returns (open_anchor s opening true))
      ])

  -- `cal.open_utc(day) <= published < cal.close_utc(day)`, whose second half is evaluated only
  -- after the first
  abbrev pub in_hours : Calendar → ℕ → String → Run Bool
  in_hours cal published day = bind (open_utc cal day) (λ opening.
      if leb opening published
      then bind (close_utc cal day) (λ close. returns (ltb published close))
      else returns false)

  abbrev pub in_session : Calendar → ℕ → String → Run Bool
  in_session cal published day =
      if is_some (lookup cal.closes day) then in_hours cal published day else returns false

  unfoldable pub resolve_anchor : ℕ → Calendar → ℕ → Run AnchorResolution
  unfolding seek anchor_in_session
  resolve_anchor fuel cal published =
      let day = market_day published in
      bind (in_session cal published day) (λ inside.
        if inside
        then bind (close_utc cal day) (λ close. anchor_in_session cal published day close)
        else seek cal published fuel (session_on_or_after cal day) false)
