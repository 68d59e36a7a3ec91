-- ===== src/Verdict/Status.antt =====
-- The number primitives and the per-test statuses of news_eval/verdict.py, with the bars and
-- floors of news_eval/constants.py. A result dict of the statistics module is a record; a key that
-- may be missing or None is an `Option`.
pub mod Laws
use ai_trader.Base.{
  ℕ, Bool, true, false, Option, none, some, ◌&&◌, not, ltb, leb, if◌then◌else◌, Float,
}

pub data Status : Type 0 where
  abstain_floor degenerate abstain_null_uninformative clear blocked_by_null : Status
  significant_reversal not_clear below_econ_bar net_negative abstain_interval : Status
  abstain_empty_pool : Status

-- The names of the ten tests of a reading.
pub data Primary : Type 0 where
  p1 p2 p3 p4 : Primary

pub data Econ : Type 0 where
  e1 e2 e3 e4 : Econ

pub data Strength : Type 0 where
  s1 s2 : Strength

-- `boot["status"]`
pub data BootStatus : Type 0 where
  ok empty_pool refused : BootStatus

pub record Boot (X : Type 0) : Type 0 where
  pub status : BootStatus
  pub statistic : Option X
  pub se : Option X
  pub n_clusters : Option ℕ

pub record Perm (X : Type 0) : Type 0 where
  pub is_ok : Bool
  pub p : Option X
  pub count_ge : Option ℕ
  pub count_le : Option ℕ

-- One test of a reading; None and {} are both `none`.
pub record Test (X : Type 0) : Type 0 where
  pub n_clusters : ℕ
  pub bootstrap : Option (Boot X)
  pub permutation : Option (Perm X)

-- K.FLOOR_TEST_CLUSTERS, K.FLOOR_ANALYSIS_CLUSTERS, K.FLOOR_SCORABLE, K.NULL_MIN_MIXED_CLUSTERS
abbrev pub floor_test_clusters : ℕ
floor_test_clusters = 30

abbrev pub floor_analysis_clusters : ℕ
floor_analysis_clusters = 60

abbrev pub floor_scorable : ℕ
floor_scorable = 1000

abbrev pub null_min_mixed_clusters : ℕ
null_min_mixed_clusters = 30

-- `boot.get("status") != "ok"`
abbrev pub boot_ok : BootStatus → Bool
boot_ok BootStatus.ok = true
boot_ok _ = false

abbrev pub clusters_or_zero : Option ℕ → ℕ
clusters_or_zero none = 0
clusters_or_zero (some n) = n

count_below : Option ℕ → Option ℕ → Option Bool
count_below (some ge) (some le) = some (ltb ge le)
count_below _ _ = none

-- `x is True`
abbrev pub is_true : Option Bool → Bool
is_true (some true) = true
is_true _ = false

abbrev pub below_analysis_floor : Option ℕ → Bool
below_analysis_floor none = false
below_analysis_floor (some d) = ltb d floor_analysis_clusters

module _ {X : Type 0} ⦃fl : Float X⦄ where
  abbrev pub zero_float : X
  zero_float = fl.lit 0 0

  -- K.BAR_PRIMARY_Z, K.BAR_STRENGTH_Z, K.BAR_PERM_P, K.NULL_MIN_MINORITY_SHARE, K.EFFECT_BP,
  -- K.ECON_BAR_BP
  abbrev pub bar_primary_z : X
  bar_primary_z = fl.lit 250 2

  abbrev pub bar_strength_z : X
  bar_strength_z = fl.lit 224 2

  abbrev pub bar_perm_p : X
  bar_perm_p = fl.lit 125 4

  abbrev pub null_min_minority_share : X
  null_min_minority_share = fl.lit 10 2

  abbrev pub effect_bp : X
  effect_bp = fl.lit 300 1

  abbrev pub econ_bar_bp : X
  econ_bar_bp = fl.lit 496 2

  pub null_informative : Option X → Option ℕ → Bool
  null_informative (some share) (some n) =
      fl.le null_min_minority_share share && leb null_min_mixed_clusters n
  null_informative _ _ = false

  -- the statistic and the standard error of a usable bootstrap
  usable : Option X → Option X → Option ℕ → Option (X × X)
  usable (some t) (some se) n =
      if not (fl.lt zero_float se)
      then none
      else if ltb (clusters_or_zero n) 2
      then none
      else some (t, se)
  usable _ _ _ = none

  unfoldable pub estimate : Option (Boot X) → Option (X × X)
  unfolding usable
  estimate none = none
  estimate (some b) = if not (boot_ok b.status) then none else usable b.statistic b.se b.n_clusters

  unfoldable pub interval : X → X → X → X × X
  interval t se bar = (fl.sub t (fl.mul bar se), fl.add t (fl.mul bar se))

  unfoldable pub bar_met : X → X → X → Bool
  bar_met t se bar = fl.le bar (fl.div t se) && fl.lt zero_float (fl.sub t (fl.mul bar se))

  pub upper_tail : Option (Perm X) → Option Bool
  unfolding count_below
  upper_tail none = none
  upper_tail (some p) = if not p.is_ok then none else count_below p.count_ge p.count_le

  p_below_bar : Option X → Bool
  p_below_bar none = false
  p_below_bar (some p) = fl.le p bar_perm_p

  pub permutation_confirms : Option (Perm X) → Bool
  unfolding p_below_bar upper_tail
  permutation_confirms none = false
  permutation_confirms (some perm) =
      if not perm.is_ok then false else p_below_bar perm.p && is_true (upper_tail (some perm))

  primary_rest : Bool → Option (Perm X) → X × X → Status
  primary_rest informative perm (t, se) =
      if bar_met t se bar_primary_z
      then (if not informative
          then abstain_null_uninformative
          else if permutation_confirms perm
          then clear
          else blocked_by_null)
      else if fl.le (fl.div t se) (fl.neg bar_primary_z)
      then significant_reversal
      else not_clear

  unfoldable pub primary_status : Test X → Bool → Status
  unfolding primary_rest
  primary_status test informative =
      if ltb test.n_clusters floor_test_clusters
      then abstain_floor
      else elim (estimate test.bootstrap) [
        | none ↦ degenerate
        | some e ↦ primary_rest informative test.permutation e
      ]

  e_rest : X × X → Status
  e_rest (t, se) =
      if bar_met t se bar_primary_z
      then (if fl.le econ_bar_bp t then clear else below_econ_bar)
      else if fl.le (fl.div t se) (fl.neg bar_primary_z)
      then net_negative
      else abstain_interval

  unfoldable pub e_status : Test X → Status
  unfolding e_rest
  e_status test =
      if ltb test.n_clusters floor_test_clusters
      then abstain_floor
      else elim (estimate test.bootstrap) [ none ↦ degenerate | some e ↦ e_rest e ]

  -- `boot.get("status") == ABSTAIN_EMPTY_POOL`
  abbrev pub pool_empty : Option (Boot X) → Bool
  pool_empty none = false
  pool_empty (some b) = elim b.status [ BootStatus.empty_pool ↦ true | _ ↦ false ]

  strength_rest : X × X → Status
  strength_rest (t, se) = if bar_met t se bar_strength_z then clear else not_clear

  unfoldable pub strength_status : Test X → Option ℕ → Status
  unfolding strength_rest
  strength_status test analysis_clusters =
      if below_analysis_floor analysis_clusters
      then abstain_floor
      else if ltb test.n_clusters floor_test_clusters
      then abstain_floor
      else if pool_empty test.bootstrap
      then abstain_empty_pool
      else elim (estimate test.bootstrap) [ none ↦ degenerate | some e ↦ strength_rest e ]

-- `status in BAR_MET_STATUSES`
abbrev pub in_bar_met : Status → Bool
in_bar_met abstain_null_uninformative = true
in_bar_met clear = true
in_bar_met blocked_by_null = true
in_bar_met _ = false

-- `status in NULL_INTERCEPTED_STATUSES`
abbrev pub in_null_intercepted : Status → Bool
in_null_intercepted abstain_null_uninformative = true
in_null_intercepted blocked_by_null = true
in_null_intercepted _ = false

-- `status in E_FAILS_NET_STATUSES`
abbrev pub in_e_fails_net : Status → Bool
in_e_fails_net net_negative = true
in_e_fails_net below_econ_bar = true
in_e_fails_net _ = false

-- `status in E_ABSTAIN_STATUSES`
abbrev pub in_e_abstain : Status → Bool
in_e_abstain abstain_interval = true
in_e_abstain abstain_floor = true
in_e_abstain degenerate = true
in_e_abstain _ = false

-- `status == CLEAR`
abbrev pub is_clear : Status → Bool
is_clear clear = true
is_clear _ = false
