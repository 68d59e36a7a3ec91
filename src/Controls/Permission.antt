-- ===== src/Controls/Permission.antt =====
-- What must hold where a spender comes on, or the real feed is left.
use ai_trader.Base.{
  ◌≤◌, Bool, true, false, ◌&&◌, if◌then◌else◌, ◌≡◌, refl, sym, ◌∙◌, Bool-cases, inl, inr,
}
use ai_trader.Controls.Outcome.{
  Outside, Refusal, Change, refused, discovery_prerequisites, adaptive_prerequisites, is_flag,
  with_flag, is_alpaca,
}
use ai_trader.Controls.PreservedBlocks.{Written}
use ai_trader.Controls.State.{
  FeedMode, Sleeve, research_satellite, AdaptiveFlag, adaptive_news_feed_enabled,
  adaptive_watchlist_shaping_enabled, adaptive_react_defensive_enabled, Discovery, Adaptive, State,
  with_feed,
}

-- From off to on
abbrev pub TurnedOn : Bool → Bool → Type 0
TurnedOn before later = (before ≡ false) × (later ≡ true)

pub not_turned_on : {P : Type 0} → (b : Bool) → TurnedOn b b → P
not_turned_on true (off, on) = cc
not_turned_on false (off, on) = cc

-- What turns a spender on has its prerequisites, and what leaves the real feed leaves no open position.
abbrev pub DiscoveryGuarded : {X : Type 0} → Outside → Discovery X → Discovery X → Type 0
DiscoveryGuarded out d d' =
    TurnedOn d.discovery_enabled d'.discovery_enabled → discovery_prerequisites out ≡ true

abbrev pub LongTermGuarded :
    {X : Type 0} → Outside → (Sleeve → Bool) → Discovery X → Discovery X → Type 0
LongTermGuarded out sleeves d d' =
    TurnedOn d.long_term_sleeve_enabled d'.long_term_sleeve_enabled
    → (discovery_prerequisites out && sleeves research_satellite) ≡ true

abbrev pub AdaptiveGuarded : {X : Type 0} → Outside → Adaptive X → Adaptive X → Type 0
AdaptiveGuarded out a a' =
    (k : AdaptiveFlag) → TurnedOn (a.flag k) (a'.flag k) → adaptive_prerequisites out ≡ true

abbrev pub RlGuarded : Outside → Bool → Bool → Type 0
RlGuarded out b b' = TurnedOn b b' → out.rl_gate ≤ out.real_fills

abbrev pub FeedGuarded : Outside → FeedMode → FeedMode → Type 0
FeedGuarded out f f' = is_alpaca f ≡ true → is_alpaca f' ≡ false → out.open_positions ≡ 0

abbrev pub Guarded : {X : Type 0} → Outside → State X → State X → Type 0
Guarded out st st' =
    DiscoveryGuarded out st.discovery st'.discovery
    × LongTermGuarded out st.sleeves st.discovery st'.discovery
    × AdaptiveGuarded out st.adaptive_realtime st'.adaptive_realtime
    × RlGuarded out st.rl_enabled st'.rl_enabled
    × FeedGuarded out st.feed_mode st'.feed_mode

pub feed_kept : (out : Outside) (f : FeedMode) → FeedGuarded out f f
feed_kept out f on_it away = let gone = sym on_it ∙ away in cc

module _ {X : Type 0} (out : Outside) where
  pub kept : (st : State X) → Guarded out st st
  kept st = (
    not_turned_on st.discovery.discovery_enabled,
    not_turned_on st.discovery.long_term_sleeve_enabled,
    (λ k. not_turned_on (st.adaptive_realtime.flag k)),
    not_turned_on st.rl_enabled,
    feed_kept out st.feed_mode,
  )

  pub guarded :
      (P : State X → Type 0) (c : Bool) (r : Refusal) (ch : Change X)
      → (c ≡ false → Written P ch)
      → Written P (if c then refused r else ch)
  guarded P true r ch h = tt
  guarded P false r ch h = h refl

-- The flag that is set, and no other, can come on.
pub with_feed-on :
    (c : Bool) (f : AdaptiveFlag → Bool) (k : AdaptiveFlag) → with_feed c f k ≡ true → f k ≡ true
with_feed-on true f k h = h
with_feed-on false f adaptive_news_feed_enabled h = h
with_feed-on false f adaptive_watchlist_shaping_enabled h = cc
with_feed-on false f adaptive_react_defensive_enabled h = cc

pub with_flag-on :
    (j : AdaptiveFlag) (b : Bool) (f : AdaptiveFlag → Bool) (k : AdaptiveFlag)
    → f k ≡ false
    → with_flag j b f k ≡ true
    → b ≡ true
with_flag-on j b f k off on = elim (Bool-cases (is_flag j k)) [
  | inl t ↦ rw t at on
  | inr u ↦ let same = rw u at on in cc
]
