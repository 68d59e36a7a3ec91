-- ===== src/Horizon/Delay.antt =====
-- `resolve_anchor` on every calendar: it returns, and what it resolves keeps the minimum delay.
use ai_trader.Base.{
  ℕ, ◌+◌, ◌≤◌, ◌<◌, ◌≡◌, refl, ap, sym, subst, ◌∙◌, Bool, true, false, ◌&&◌, arith, none, some,
  List, [], ◌∷◌, ◌++◌, any, append_middle, length, first, is_some, String, str_eq, if◌then◌else◌,
  Bool-cases, Option-cases, ◌⊎◌, inl, inr, ltb, leb, leb→le,
}
use ai_trader.Horizon.{
  Run, returns, Calendar, AnchorResolution, same_session_close, next_session_open, lookup,
  calendar_exhausted, min_delay, close_utc, open_anchor, close_anchor, exhausted, in_session,
  anchor_in_session, resolve_anchor,
}
use ai_trader.Horizon.CalendarLaws.{IsCalendar, next_session-append, any-middle, split_at}
use ai_trader.Horizon.Scan.{
  instant_of, opening, actionable, first_actionable_take, first_actionable_skip, sessions_from,
  first_actionable, resolve_anchor_outside, open_utc_known,
}

module _ (at : String → String → ℕ) (market_day : ℕ → String) (iso_z : ℕ → String) where
  -- The close of a session, where the calendar has it
  abbrev pub closing : Calendar → String → ℕ
  closing cal s = instant_of at market_day iso_z s (lookup cal.closes s)

  close_utc_known :
      (cal : Calendar) (s : String)
      → is_some (lookup cal.closes s) ≡ true
      → close_utc at market_day iso_z cal s ≡ returns (closing cal s)
  close_utc_known cal s h = elim (Option-cases (lookup cal.closes s)) [
    | inl e ↦ cc (h, ap is_some e)
    | inr (hhmm, e) ↦ rw e refl
  ]

  -- Between a close and the next open lies the minimum delay at least.
  abbrev pub IsSpaced : Calendar → List String → Type 0
  IsSpaced cal [] = Unit
  IsSpaced cal (s ∷ []) = Unit
  IsSpaced cal (s ∷ t ∷ xs) =
      (closing cal s + min_delay ≤ opening at market_day iso_z cal t) × IsSpaced cal (t ∷ xs)

  -- Whether the publication falls into the hours of its day
  abbrev pub inside : Calendar → ℕ → Bool
  inside cal published =
      let day = market_day published in
      is_some (lookup cal.closes day)
      && leb (opening at market_day iso_z cal day) published
      && ltb published (closing cal day)

  in_session_known :
      (cal : Calendar) (published : ℕ)
      → IsCalendar cal
      → in_session at market_day iso_z cal published (market_day published)
        ≡ returns (inside cal published)
  in_session_known cal published c = elim (Bool-cases (is_some (lookup cal.closes day))) [
    | inl e ↦ rw e (
        rw (open_utc_known at market_day iso_z cal day (c.has_open day (c.closes_known day e)))
          (rw (close_utc_known cal day e) (ground arith)))
    | inr e ↦ rw e refl
  ]
    where
      day : String
      day = market_day published

  -- What the branch inside the session returns, with `rest` the sessions after the day
  abbrev pub inside_anchor : Calendar → ℕ → String → List String → AnchorResolution
  inside_anchor cal published day rest =
      if leb (published + min_delay) (closing cal day)
      then close_anchor at market_day iso_z day (closing cal day) (first rest)
      else elim (first rest) [
        | none ↦ exhausted at market_day iso_z true
        | some s ↦ open_anchor at market_day iso_z s (opening at market_day iso_z cal s) true
      ]

  anchor_in_session_known :
      (cal : Calendar) (published : ℕ) (day : String) (before rest : List String)
      → IsCalendar cal
      → cal.sessions ≡ before ++ day ∷ rest
      → anchor_in_session at market_day iso_z cal published day (closing cal day)
        ≡ returns (inside_anchor cal published day rest)
  unfolding anchor_in_session
  anchor_in_session_known cal published day before [] c eq =
      rw (next_session-append cal before day [] c.distinct eq) (ground arith)
  anchor_in_session_known cal published day before (s ∷ rest) c eq =
      rw (next_session-append cal before day (s ∷ rest) c.distinct eq)
        (rw (open_utc_known at market_day iso_z cal s (c.has_open s known)) (ground arith))
    where
      known : any (str_eq s) cal.sessions ≡ true
      known =
          subst (λ xs. any (str_eq s) xs ≡ true) (sym (eq ∙ append_middle before day (s ∷ rest)))
            (any-middle (before ++ day ∷ []) s rest)

  -- The resolution outside the session
  abbrev pub outside_anchor : Calendar → ℕ → AnchorResolution
  outside_anchor cal published =
      first_actionable at market_day iso_z cal published
        (sessions_from at market_day iso_z (market_day published) cal.sessions) false

  closed_known :
      (cal : Calendar) (published : ℕ)
      → inside cal published ≡ true
      → is_some (lookup cal.closes (market_day published)) ≡ true
  closed_known cal published e = ground arith

  -- Inside the session and outside it
  resolve_anchor-cases :
      (cal : Calendar) (published fuel : ℕ)
      → IsCalendar cal
      → length cal.sessions ≤ fuel
      → ((before rest : List String) × (inside cal published ≡ true)
          × (cal.sessions ≡ before ++ market_day published ∷ rest)
          × (resolve_anchor at market_day iso_z fuel cal published
              ≡ returns (inside_anchor cal published (market_day published) rest)))
        ⊎ (resolve_anchor at market_day iso_z fuel cal published
            ≡ returns (outside_anchor cal published))
  unfolding resolve_anchor
  resolve_anchor-cases cal published fuel c le = elim (Bool-cases (inside cal published)) [
    | inl e ↦
        let day = market_day published in
        let known = closed_known cal published e in
        let (before, rest, eq) = split_at day cal.sessions (c.closes_known day known) in
        inl (
          before,
          rest,
          e,
          eq,
          rw (in_session_known cal published c ∙ ap returns e) (
              rw (close_utc_known cal day known)
                (anchor_in_session_known cal published day before rest c eq)),
        )
    | inr e ↦ inr (
        resolve_anchor_outside at market_day iso_z cal published fuel c le
          (in_session_known cal published c ∙ ap returns e))
  ]

  -- With fuel for every session, `resolve_anchor` neither raises nor loops: it returns a
  -- resolution, whatever the publication, on every calendar that knows the hours of its sessions
  -- and repeats none.
  pub resolve_anchor_returns :
      (cal : Calendar) (published fuel : ℕ)
      → IsCalendar cal
      → length cal.sessions ≤ fuel
      → (r : AnchorResolution) × (resolve_anchor at market_day iso_z fuel cal published ≡ returns r)
  resolve_anchor_returns cal published fuel c le =
      elim (resolve_anchor-cases cal published fuel c le) [
        | inl (before, rest, e, eq, run) ↦
            (inside_anchor cal published (market_day published) rest, run)
        | inr run ↦ (outside_anchor cal published, run)
      ]

  -- The instant of an anchor: the close or the open of its session
  abbrev pub anchor_instant : Calendar → AnchorResolution → ℕ
  anchor_instant cal r = elim r.anchor_kind [
    | same_session_close ↦ closing cal r.anchor_session
    | next_session_open ↦ opening at market_day iso_z cal r.anchor_session
  ]

  -- The resolution stands at least the minimum delay after the publication.
  abbrev pub KeepsDelay : Calendar → ℕ → AnchorResolution → Type 0
  KeepsDelay cal published r =
      (published + min_delay ≤ anchor_instant cal r) × (r.anchor_ts ≡ iso_z (anchor_instant cal r))

  first_actionable-KeepsDelay :
      (cal : Calendar) (published : ℕ) (xs : List String) (rolled : Bool)
      → (first_actionable at market_day iso_z cal published xs rolled).reason ≡ ""
      → KeepsDelay cal published (first_actionable at market_day iso_z cal published xs rolled)
  first_actionable-KeepsDelay cal published [] rolled h = cc h
  first_actionable-KeepsDelay cal published (s ∷ xs) rolled h =
      elim (Bool-cases (actionable at market_day iso_z cal published s)) [
        | inl a ↦
            subst (KeepsDelay cal published)
              (sym (first_actionable_take at market_day iso_z cal published s xs rolled a))
              (leb→le _ _ a, refl)
        | inr a ↦
            let step = first_actionable_skip at market_day iso_z cal published s xs rolled a in
            subst (KeepsDelay cal published) step (
              first_actionable-KeepsDelay cal published xs
                (if ltb published (opening at market_day iso_z cal s) then true else rolled)
                (ap (λ r. r.reason) step ∙ h))
      ]

  spaced_after :
      (cal : Calendar) (before : List String) (s t : String) (rest : List String)
      → IsSpaced cal (before ++ s ∷ t ∷ rest)
      → closing cal s + min_delay ≤ opening at market_day iso_z cal t
  spaced_after cal [] s t rest sp = sp.0
  spaced_after cal (x ∷ []) s t rest sp = sp.1.0
  spaced_after cal (x ∷ y ∷ before) s t rest sp = spaced_after cal (y ∷ before) s t rest sp.1

  inside_anchor-KeepsDelay :
      (cal : Calendar) (published : ℕ) (before rest : List String)
      → inside cal published ≡ true
      → IsSpaced cal (before ++ market_day published ∷ rest)
      → (inside_anchor cal published (market_day published) rest).reason ≡ ""
      → KeepsDelay cal published (inside_anchor cal published (market_day published) rest)
  inside_anchor-KeepsDelay cal published before [] i sp h = cc (h, nothing_after)
    where
      nothing_after :
          (inside_anchor cal published (market_day published) []).reason ≡ calendar_exhausted
      nothing_after = ground arith
  inside_anchor-KeepsDelay cal published before (s ∷ rest) i sp h =
      let day = market_day published in
      let close = closing cal day in
      elim (Bool-cases (leb (published + min_delay) close)) [
        | inl a ↦ subst (KeepsDelay cal published) (sym (ap (pick s) a)) (leb→le _ _ a, refl)
        | inr a ↦
            subst (KeepsDelay cal published) (sym (ap (pick s) a))
              (omega (arith, before_close, spaced_after cal before day s rest sp), refl)
      ]
    where
      pick : String → Bool → AnchorResolution
      pick s b =
          if b
          then close_anchor at market_day iso_z (market_day published)
              (closing cal (market_day published)) (some s)
          else open_anchor at market_day iso_z s (opening at market_day iso_z cal s) true

      before_close : published < closing cal (market_day published)
      before_close = ground arith

  -- On a calendar whose sessions stand at least the minimum delay apart, what `resolve_anchor`
  -- resolves without an exclusion reason is anchored at least the minimum delay after the
  -- publication, at the open or the close of its session as its kind says.
  pub resolve_anchor-KeepsDelay :
      (cal : Calendar) (published fuel : ℕ) (r : AnchorResolution)
      → IsCalendar cal
      → IsSpaced cal cal.sessions
      → length cal.sessions ≤ fuel
      → resolve_anchor at market_day iso_z fuel cal published ≡ returns r
      → r.reason ≡ ""
      → KeepsDelay cal published r
  resolve_anchor-KeepsDelay cal published fuel r c sp le run h =
      elim (resolve_anchor-cases cal published fuel c le) [
        | inl (before, rest, i, eq, known) ↦
            let same = ap (value r) (sym known ∙ run) in
            subst (KeepsDelay cal published) same (
              inside_anchor-KeepsDelay cal published before rest i (subst (IsSpaced cal) eq sp)
                (ap (λ x. x.reason) same ∙ h))
        | inr known ↦
            let same = ap (value r) (sym known ∙ run) in
            subst (KeepsDelay cal published) same (
              first_actionable-KeepsDelay cal published
                (sessions_from at market_day iso_z (market_day published) cal.sessions) false
                (ap (λ x. x.reason) same ∙ h))
      ]
    where
      value : AnchorResolution → Run AnchorResolution → AnchorResolution
      value d (returns x) = x
      value d _ = d
