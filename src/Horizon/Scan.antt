-- ===== src/Horizon/Scan.antt =====
-- `resolve_anchor` outside the session: the loop over the calendar is a search for the first open
-- that is at least the minimum delay away.
use ai_trader.Base.{
  ℕ, zero, suc, ◌+◌, ◌≤◌, ◌≡◌, refl, ap, sym, subst, ◌∙◌, Bool, true, false, not, ◌&&◌, ◌||◌, arith,
  Option, none, some, List, [], ◌∷◌, ◌++◌, keep, any, length, append_middle, first, is_some, String,
  str_eq, str_lt, if◌then◌else◌, Bool-cases, Option-cases, inl, inr, ltb, leb,
}
use ai_trader.Horizon.{
  returns, Calendar, AnchorResolution, lookup, first_from, min_delay, open_utc, open_anchor,
  exhausted, seek, in_session, resolve_anchor,
}
use ai_trader.Horizon.CalendarLaws.{IsCalendar, next_session-append, any-middle}

module _ (at : String → String → ℕ) (market_day : ℕ → String) (iso_z : ℕ → String) where
  abbrev pub instant_of : String → Option String → ℕ
  instant_of s none = 0
  instant_of s (some hhmm) = at s hhmm

  -- The open of a session, where the calendar has it
  abbrev pub opening : Calendar → String → ℕ
  opening cal s = instant_of s (lookup cal.opens s)

  -- The session opens at least the minimum delay after the publication.
  abbrev pub actionable : Calendar → ℕ → String → Bool
  actionable cal published s = leb (published + min_delay) (opening cal s)

  -- It opens after the publication, but too soon.
  abbrev pub too_soon : Calendar → ℕ → String → Bool
  too_soon cal published s = ltb published (opening cal s) && not (actionable cal published s)

  -- The elements before the first that satisfies the test
  abbrev pub before_first : (String → Bool) → List String → List String
  before_first p [] = []
  before_first p (x ∷ xs) = let rest = before_first p xs in if p x then [] else x ∷ rest

  -- The sessions from the first one not before the day
  abbrev pub sessions_from : String → List String → List String
  sessions_from day [] = []
  sessions_from day (s ∷ xs) =
      let rest = sessions_from day xs in if str_lt s day then rest else s ∷ xs

  -- The description: the first actionable session, else an exhausted calendar, and whether a
  -- session was passed over for the delay alone
  abbrev pub first_actionable : Calendar → ℕ → List String → Bool → AnchorResolution
  first_actionable cal published xs rolled =
      let rolled' =
        rolled || any (too_soon cal published) (before_first (actionable cal published) xs) in
      elim (first (keep (actionable cal published) xs)) [
        | none ↦ exhausted at market_day iso_z rolled'
        | some s ↦ open_anchor at market_day iso_z s (opening cal s) rolled'
      ]

  pub open_utc_known :
      (cal : Calendar) (s : String)
      → is_some (lookup cal.opens s) ≡ true
      → open_utc at market_day iso_z cal s ≡ returns (opening cal s)
  open_utc_known cal s h = elim (Option-cases (lookup cal.opens s)) [
    | inl e ↦ cc (h, ap is_some e)
    | inr (hhmm, e) ↦ rw e refl
  ]

  pub first_actionable_take :
      (cal : Calendar) (published : ℕ) (s : String) (post : List String) (rolled : Bool)
      → actionable cal published s ≡ true
      → first_actionable cal published (s ∷ post) rolled
        ≡ open_anchor at market_day iso_z s (opening cal s) rolled
  first_actionable_take cal published s post rolled a = ground arith

  pub first_actionable_skip :
      (cal : Calendar) (published : ℕ) (s : String) (post : List String) (rolled : Bool)
      → actionable cal published s ≡ false
      → first_actionable cal published post (if ltb published (opening cal s) then true else rolled)
        ≡ first_actionable cal published (s ∷ post) rolled
  first_actionable_skip cal published s post rolled a = ground arith

  after_published :
      (cal : Calendar) (published : ℕ) (s : String)
      → actionable cal published s ≡ true
      → (ltb published (opening cal s) && leb (published + min_delay) (opening cal s)) ≡ true
  after_published cal published s a = ground arith

  not_yet :
      (cal : Calendar) (published : ℕ) (s : String)
      → actionable cal published s ≡ false
      → (ltb published (opening cal s) && leb (published + min_delay) (opening cal s)) ≡ false
  not_yet cal published s a = ground arith

  seek-scan :
      (cal : Calendar) (published fuel : ℕ) (before post : List String) (rolled : Bool)
      → IsCalendar cal
      → cal.sessions ≡ before ++ post
      → length post ≤ fuel
      → seek at market_day iso_z cal published fuel (first post) rolled
        ≡ returns (first_actionable cal published post rolled)
  unfolding seek
  seek-scan cal published fuel before [] rolled c eq le = ground arith
  seek-scan cal published zero before (s ∷ post) rolled c eq le = absurd (omega arith)
  seek-scan cal published (suc fuel) before (s ∷ post) rolled c eq le =
      rw
        (open_utc_known cal s (
          c.has_open s
            (subst (λ xs. any (str_eq s) xs ≡ true) (sym eq) (any-middle before s post))))
        (rw (next_session-append cal before s post c.distinct eq)
          (elim (Bool-cases (actionable cal published s)) [
            | inl a ↦
                rw (after_published cal published s a)
                  (ap returns (sym (first_actionable_take cal published s post rolled a)))
            | inr a ↦ rw (not_yet cal published s a) (
                seek-scan cal published fuel (before ++ s ∷ []) post
                  (if ltb published (opening cal s) then true else rolled) c eq' (omega arith)
                ∙ ap returns (first_actionable_skip cal published s post rolled a))
          ]))
    where
      eq' : cal.sessions ≡ (before ++ s ∷ []) ++ post
      eq' = eq ∙ append_middle before s post

  first_from-sessions_from :
      (day : String) (xs : List String) → first_from day xs ≡ first (sessions_from day xs)
  first_from-sessions_from day [] = refl
  first_from-sessions_from day (s ∷ xs) = ground (arith, first_from-sessions_from day xs)

  -- The sessions from a day on are the end of the list.
  sessions_from_suffix :
      (day : String) (xs : List String)
      → (before : List String) × (xs ≡ before ++ sessions_from day xs)
  sessions_from_suffix day [] = ([], refl)
  sessions_from_suffix day (s ∷ xs) = elim (Bool-cases (str_lt s day)) [
    | inl e ↦
        let (before, eq) = sessions_from_suffix day xs in (s ∷ before, rw e (ap (λ ys. s ∷ ys) eq))
    | inr e ↦ ([], rw e refl)
  ]

  sessions_from-length :
      (day : String) (xs : List String) → length (sessions_from day xs) ≤ length xs
  sessions_from-length day [] = omega arith
  sessions_from-length day (s ∷ xs) = ground (arith, sessions_from-length day xs)

  -- Outside the session, with fuel for every session of the calendar, `resolve_anchor` returns the
  -- first session from the market's day on whose open is at least the minimum delay after the
  -- publication, else the exhausted calendar.
  pub resolve_anchor_outside :
      (cal : Calendar) (published fuel : ℕ)
      → IsCalendar cal
      → length cal.sessions ≤ fuel
      → in_session at market_day iso_z cal published (market_day published) ≡ returns false
      → resolve_anchor at market_day iso_z fuel cal published
        ≡ returns (
            first_actionable cal published
              (sessions_from (market_day published) cal.sessions)
              false)
  unfolding resolve_anchor
  resolve_anchor_outside cal published fuel c le out =
      let day = market_day published in
      let (before, eq) = sessions_from_suffix day cal.sessions in
      rw out (
        rw (first_from-sessions_from day cal.sessions) (
          seek-scan cal published fuel before (sessions_from day cal.sessions) false c eq
            (omega (arith, sessions_from-length day cal.sessions))))
