-- ===== src/Verdict/Gross/Laws.antt =====
-- When a reading clears, when it is a powered negative, and that every abstention names a reason.
use ai_trader.Base.{◌≤◌, ◌≡◌, Bool, true, false, ◌↔◌, Float, arith, inl, inr, Bool-cases}
use ai_trader.Verdict.Status.{
  Status, clear, is_clear, Primary, p1, p2, p3, p4, bar_primary_z, effect_bp, zero_float, interval,
  in_bar_met, floor_analysis_clusters, floor_scorable,
}
use ai_trader.Verdict.Gross.{
  GrossName, Reading, gross_reading, p1_interval, upper_below_effect, any_status,
}

pub any_status-true :
    (test : Status → Bool) (p_statuses : Primary → Status)
    → any_status test p_statuses ≡ true
    → (t : Primary) × (test (p_statuses t) ≡ true)
unfolding any_status
any_status-true test p_statuses h = elim (Bool-cases (test (p_statuses p1))) [
  | inl e ↦ (p1, e)
  | inr n1 ↦ elim (Bool-cases (test (p_statuses p2))) [
    | inl e ↦ (p2, e)
    | inr n2 ↦ elim (Bool-cases (test (p_statuses p3))) [
      | inl e ↦ (p3, e)
      | inr n3 ↦ (p4, ground arith)
    ]
  ]
]

pub any_status_of :
    (test : Status → Bool) (p_statuses : Primary → Status) (t : Primary)
    → test (p_statuses t) ≡ true
    → any_status test p_statuses ≡ true
unfolding any_status
any_status_of test p_statuses p1 h = ground arith
any_status_of test p_statuses p2 h = ground arith
any_status_of test p_statuses p3 h = ground arith
any_status_of test p_statuses p4 h = ground arith

pub any_status-false :
    (test : Status → Bool) (p_statuses : Primary → Status)
    → any_status test p_statuses ≡ false
    → (t : Primary) → test (p_statuses t) ≡ false
unfolding any_status
any_status-false test p_statuses h p1 = ground arith
any_status-false test p_statuses h p2 = ground arith
any_status-false test p_statuses h p3 = ground arith
any_status-false test p_statuses h p4 = ground arith

is_clear-eq : (s : Status) → is_clear s ≡ true → s ≡ clear
is_clear-eq s h = ground arith

module _ {X : Type 0} ⦃fl : Float X⦄ where
  -- A reading clears gross exactly when it has 60 clusters and 1,000 scorable observations and one
  -- of its four primaries is clear.
  pub gross_reading-clears_iff :
      (reading : Reading X) (p_statuses : Primary → Status)
      → ((gross_reading reading p_statuses).gross_reading ≡ GrossName.clears_gross) ↔ (
          (floor_analysis_clusters ≤ reading.d)
          × (floor_scorable ≤ reading.m)
          × ((t : Primary) × (p_statuses t ≡ clear)))
  unfolding gross_reading
  gross_reading-clears_iff reading p_statuses = (
    λ h.
        let (t, e) = any_status-true is_clear p_statuses (ground arith) in
        (ground arith, ground arith, (t, is_clear-eq (p_statuses t) e)),
    λ (d, m, (t, e)). ground (arith, any_status_of is_clear p_statuses t (rw e)),
  )

  -- A powered negative has 60 clusters, 1,000 scorable observations, an interval of P1 whose upper
  -- end lies below 30 bp, and no primary that met its bootstrap bar, confirmed by the null or not.
  pub gross_reading_powered_negative :
      (reading : Reading X) (p_statuses : Primary → Status)
      → (gross_reading reading p_statuses).gross_reading ≡ GrossName.powered_negative
      → (floor_analysis_clusters ≤ reading.d)
        × (floor_scorable ≤ reading.m)
        × (upper_below_effect (p1_interval reading) ≡ true)
        × ((t : Primary) → in_bar_met (p_statuses t) ≡ false)
  unfolding gross_reading
  gross_reading_powered_negative reading p_statuses h = (
    ground arith,
    ground arith,
    ground arith,
    any_status-false in_bar_met p_statuses (ground arith),
  )

  -- P1's interval and its ratio agree as they do for real numbers: a lower end above 0 means a
  -- ratio of at least the bar, and two ends that are numbers compare one way or the other.
  pub record IsExact (t se : X) : Type 0 where
    pub ratio :
        fl.lt zero_float (interval t se bar_primary_z).0 ≡ true
        → fl.le bar_primary_z (fl.div t se) ≡ true
    pub lower :
        fl.le (interval t se bar_primary_z).0 zero_float ≡ false
        → fl.lt zero_float (interval t se bar_primary_z).0 ≡ true
    pub upper :
        fl.lt (interval t se bar_primary_z).1 effect_bp ≡ false
        → fl.le effect_bp (interval t se bar_primary_z).1 ≡ true
