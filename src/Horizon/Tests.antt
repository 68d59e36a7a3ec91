-- ===== src/Horizon/Tests.antt =====
-- The anchor of concrete headlines, on a calendar of three days.
use ai_trader.Base.{
  ℕ, ◌+◌, ◌≤◌, ◌≡◌, refl, true, ltb, arith, sym, subst, eq_iff, Bool-cases, inl, inr, if◌then◌else◌,
  List, [], ◌∷◌, count, String, str_eq, sorted, str_lt,
}
use ai_trader.Horizon.{
  returns, Hours, Calendar, from_rows, AnchorResolution, next_session_open, resolve_anchor,
  next_session,
}
use ai_trader.Horizon.CalendarLaws.{IsCalendar, from_rows-IsCalendar}
use ai_trader.Horizon.Delay.{KeepsDelay, resolve_anchor_returns, resolve_anchor-KeepsDelay}

abbrev rows : List Hours
rows =
    record { session = "d2"; open_time = "09:30"; close_time = "13:00" }
    ∷ record { session = "d1"; open_time = "09:30"; close_time = "16:00" }
    ∷ []

abbrev calendar : Calendar
calendar = record {
  sessions = "d1" ∷ "d2" ∷ [];
  opens = ("d1", "09:30") ∷ ("d2", "09:30") ∷ [];
  closes = ("d1", "16:00") ∷ ("d2", "13:00") ∷ [];
}

rows_in_order : from_rows rows ≡ calendar
unfolding from_rows sorted str_lt
rows_in_order = refl

abbrev at : String → String → ℕ
at session hhmm =
    (if str_eq session "d1" then 0 else 86400)
    + (if str_eq hhmm "09:30" then 34200 else if str_eq hhmm "13:00" then 46800 else 57600)

abbrev market_day : ℕ → String
market_day t = if ltb t 86400 then "d1" else "d2"

abbrev iso_z : ℕ → String
iso_z t = "an instant"

once : (s : String) → count (λ (r : Hours). str_eq s r.session) rows ≤ 1
once s = elim (Bool-cases (str_eq s "d1")) [
  | inl e ↦
      subst (λ t. count (λ (r : Hours). str_eq t r.session) rows ≤ 1) (sym ((eq_iff s "d1").0 e))
        (omega arith)
  | inr e ↦ ground arith
]

calendar-IsCalendar : IsCalendar calendar
calendar-IsCalendar = subst IsCalendar rows_in_order (from_rows-IsCalendar rows once)

-- Ten minutes before the close of the first day: rolled to the next open
late_rolls :
    resolve_anchor at market_day iso_z 2 calendar 57000
    ≡ returns (record {
      anchor_kind = next_session_open;
      anchor_session = "d2";
      anchor_ts = "an instant";
      scoring_session = "d2";
      delay_rolled = true;
      reason = "";
    })
unfolding resolve_anchor next_session
late_rolls = refl

resolve_anchor_returns_example :
    (r : AnchorResolution) × (resolve_anchor at market_day iso_z 2 calendar 57000 ≡ returns r)
resolve_anchor_returns_example =
    resolve_anchor_returns at market_day iso_z calendar 57000 2 calendar-IsCalendar (omega arith)

resolve_anchor-KeepsDelay_example : KeepsDelay at market_day iso_z calendar 57000 (record {
  anchor_kind = next_session_open;
  anchor_session = "d2";
  anchor_ts = "an instant";
  scoring_session = "d2";
  delay_rolled = true;
  reason = "";
})
resolve_anchor-KeepsDelay_example =
    resolve_anchor-KeepsDelay at market_day iso_z calendar 57000 2
      (record {
        anchor_kind = next_session_open;
        anchor_session = "d2";
        anchor_ts = "an instant";
        scoring_session = "d2";
        delay_rolled = true;
        reason = "";
      })
      calendar-IsCalendar (omega arith, tt) (omega arith) late_rolls refl
