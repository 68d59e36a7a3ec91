-- ===== src/Funnel/Screen.antt =====
-- discovery/funnel.py, stage A: prescreen_score, _rank and prescreen. A snapshot's value is what
-- `float` makes of it.
pub mod Laws
use ai_trader.Base.{
  ℕ, suc, Bool, true, false, ◌&&◌, ◌||◌, not, ltb, leb, if◌then◌else◌, List, [], ◌∷◌, ◌++◌, map,
  keep, any, take, String, str_eq, str_lt, is_text, sorted, Float, at_least, clamp01, ℤ,
  at_least_zero,
}

-- A value of a snapshot: missing or None, a number, or what `float` refuses
pub data Field (X : Type 0) : Type 0 where
  absent unreadable : Field X
  number : X → Field X

-- One instrument as `build_snapshots` puts it together; `rest` is what the code only passes on
pub record Snapshot (X : Type 0) : Type 0 where
  pub symbol : String
  pub price : Field X
  pub change_pct : Field X
  pub high : Field X
  pub low : Field X
  pub prev_close : Field X
  pub open_price : Field X
  pub sentiment_score : Field X
  pub native_strength : Field X
  pub whale_component : Field X
  pub whale_reason : String

pub data Stage : Type 0 where
  stage_a stage_b stage_c : Stage

pub data DropReason : Type 0 where
  below_min_score not_top_ranked survivor_ceiling_reached : DropReason
  daily_budget_exhausted pass_council_ceiling evaluator_error no_verdict : DropReason
  gate_said : String → DropReason

pub record Drop (X : Type 0) : Type 0 where
  pub symbol : String
  pub stage : Stage
  pub reason : DropReason
  pub score : X

-- The components of a score; `no_price` is the breakdown of an instrument without one
pub data Components (X : Type 0) : Type 0 where
  no_price : Components X
  components : X → X → X → X → X → X → Components X

pub record Finalist (X : Type 0) : Type 0 where
  pub symbol : String
  pub score : X
  pub signals : Components X
  pub whale_surfaced : Bool
  pub whale_reason : String
  pub snapshot : Snapshot X

-- A row of `scored`
pub record Scored (X : Type 0) : Type 0 where
  pub score : X
  pub symbol : String
  pub signals : Components X

module _ {X : Type 0} where
  -- `x is not None`
  abbrev pub is_given : Field X → Bool
  is_given absent = false
  is_given _ = true

module _ {X : Type 0} ⦃fl : Float X⦄ where
  -- `float(v or 0.0)`, and 0.0 where `float` raises
  abbrev pub float_of : Field X → X
  float_of absent = fl.lit 0 0
  float_of unreadable = fl.lit 0 0
  float_of (number x) = x

  abbrev pub abs : X → X
  abs x = if fl.lt x (fl.lit 0 0) then fl.neg x else x

  pub momentum : Snapshot X → X
  momentum snap = clamp01 (fl.div (abs (float_of snap.change_pct)) (fl.lit 5 0))

  pub volatility : Snapshot X → X
  volatility snap =
      let high = float_of snap.high in
      let low = float_of snap.low in
      if fl.lt low high
      then clamp01 (fl.div (fl.div (fl.sub high low) (float_of snap.price)) (fl.lit 6 2))
      else fl.lit 0 0

  pub gap : Snapshot X → X
  gap snap =
      let prev_close = float_of snap.prev_close in
      let opening = float_of snap.open_price in
      if fl.lt (fl.lit 0 0) prev_close && fl.lt (fl.lit 0 0) opening
      then clamp01 (
          fl.div (fl.mul (abs (fl.div (fl.sub opening prev_close) prev_close)) (fl.lit 100 0))
            (fl.lit 3 0))
      else fl.lit 0 0

  pub sentiment : Snapshot X → X
  sentiment snap =
      if is_given snap.sentiment_score
      then clamp01 (fl.mul (abs (fl.sub (float_of snap.sentiment_score) (fl.lit 5 1))) (fl.lit 2 0))
      else fl.lit 0 0

  -- `_W_FIXED_TOTAL`
  abbrev pub fixed_total : X
  fixed_total =
      fl.add (fl.add (fl.add (fl.add (fl.lit 30 2) (fl.lit 25 2)) (fl.lit 15 2)) (fl.lit 15 2))
        (fl.lit 15 2)

  pub weighted_sum : Snapshot X → X → X
  unfolding momentum volatility gap sentiment
  weighted_sum snap w_whale =
      fl.add
        (fl.add
          (fl.add
            (fl.add
              (fl.add (fl.mul (fl.lit 30 2) (momentum snap))
                (fl.mul (fl.lit 25 2) (volatility snap)))
              (fl.mul (fl.lit 15 2) (gap snap)))
            (fl.mul (fl.lit 15 2) (sentiment snap)))
          (fl.mul (fl.lit 15 2) (clamp01 (float_of snap.native_strength))))
        (fl.mul w_whale (clamp01 (float_of snap.whale_component)))

  unfoldable pub prescreen_score : Snapshot X → X → X × Components X
  unfolding weighted_sum momentum volatility gap sentiment
  prescreen_score snap whale_weight =
      if fl.le (float_of snap.price) (fl.lit 0 0)
      then (fl.lit 0 0, no_price)
      else (let w_whale = at_least (fl.lit 0 0) whale_weight in
          let raw = weighted_sum snap w_whale in
          let total = fl.add fixed_total w_whale in
          let score = if fl.lt (fl.lit 0 0) total then fl.div raw total else fl.lit 0 0 in
          (
            fl.round 4 (clamp01 score),
            components (fl.round 4 (momentum snap)) (fl.round 4 (volatility snap))
                (fl.round 4 (gap snap)) (fl.round 4 (sentiment snap))
                (fl.round 4 (clamp01 (float_of snap.native_strength)))
                (fl.round 4 (clamp01 (float_of snap.whale_component))),
          ))

  -- `(-a.score, a.symbol) < (-b.score, b.symbol)`
  abbrev pub ranks_before : Scored X → Scored X → Bool
  ranks_before a b =
      if fl.le (fl.neg a.score) (fl.neg b.score) && fl.le (fl.neg b.score) (fl.neg a.score)
      then str_lt a.symbol b.symbol
      else fl.lt (fl.neg a.score) (fl.neg b.score)

  abbrev pub score_row : X → Snapshot X → Scored X
  score_row whale_weight snap =
      let (score, signals) = prescreen_score snap whale_weight in
      record { score = score; symbol = snap.symbol; signals = signals }

  abbrev pub is_named : Snapshot X → Bool
  is_named snap = is_text snap.symbol

  -- The rows that `_rank` returns, best first
  unfoldable pub ranked : List (Snapshot X) → X → List (Scored X)
  ranked snapshots whale_weight =
      sorted ranks_before (map (score_row whale_weight) (keep is_named snapshots))

  -- `score >= min_score`
  abbrev pub clears : X → Scored X → Bool
  clears min_score row = fl.le min_score row.score

  -- The symbols making the cut, the second value of `_rank`
  unfoldable pub made_cut : List (Snapshot X) → ℤ → X → X → List String
  made_cut snapshots max_finalists min_score whale_weight =
      map (λ row. row.symbol)
        (keep (clears min_score)
          (take (at_least_zero max_finalists) (ranked snapshots whale_weight)))

  -- `by_symbol.get(symbol, {})`: the last snapshot of a symbol
  abbrev pub empty_snapshot : String → Snapshot X
  empty_snapshot symbol = record {
    symbol = symbol;
    price = absent;
    change_pct = absent;
    high = absent;
    low = absent;
    prev_close = absent;
    open_price = absent;
    sentiment_score = absent;
    native_strength = absent;
    whale_component = absent;
    whale_reason = "";
  }

  abbrev pub snapshot_of : Snapshot X → List (Snapshot X) → String → Snapshot X
  snapshot_of found [] symbol = found
  snapshot_of found (snap ∷ rest) symbol =
      snapshot_of (if str_eq snap.symbol symbol then snap else found) rest symbol

  abbrev pub finalist_of : List (Snapshot X) → X → List String → Scored X → Finalist X
  finalist_of snapshots whale_weight without_cut row =
      let snap = snapshot_of (empty_snapshot "") snapshots row.symbol in
      let surfaced = fl.lt (fl.lit 0 0) whale_weight && not (any (str_eq row.symbol) without_cut) in
      record {
        symbol = row.symbol;
        score = row.score;
        signals = row.signals;
        whale_surfaced = surfaced;
        whale_reason =
            if surfaced
            then (if is_text snap.whale_reason then snap.whale_reason else "whale activity")
            else "";
        snapshot = snap;
      }

  abbrev pub drop_a : DropReason → Scored X → Drop X
  drop_a reason row = record {
    symbol = row.symbol;
    stage = stage_a;
    reason = reason;
    score = row.score;
  }

  -- The loop over the ranked rows from the index `idx` on
  unfoldable pub screen_rows :
      (Scored X → Finalist X) → X → ℕ → ℕ → List (Scored X) → List (Finalist X) × List (Drop X)
  screen_rows finalist min_score limit idx [] = ([], [])
  screen_rows finalist min_score limit idx (row ∷ rest) =
      let (kept, drops) = screen_rows finalist min_score limit (suc idx) rest in
      if fl.lt row.score min_score
      then (kept, drop_a below_min_score row ∷ drops)
      else if leb limit idx
      then (kept, drop_a not_top_ranked row ∷ drops)
      else (finalist row ∷ kept, drops)

  unfoldable pub prescreen : List (Snapshot X) → ℤ → X → X → List (Finalist X) × List (Drop X)
  unfolding screen_rows made_cut ranked
  prescreen snapshots max_finalists min_score whale_weight =
      let without_cut =
        if fl.lt (fl.lit 0 0) whale_weight
        then made_cut snapshots max_finalists min_score (fl.lit 0 0)
        else made_cut snapshots max_finalists min_score whale_weight in
      screen_rows (finalist_of snapshots whale_weight without_cut) min_score
        (at_least_zero max_finalists) 0 (ranked snapshots whale_weight)
