-- ===== src/Controls/Pins.antt =====
-- The pinned regimes, written and read again.
use ai_trader.Base.{
  true, false, Option, none, some, List, [], ◌∷◌, ◌++◌, Float, String, str_eq, ◌≡◌, ◌≢◌, refl, ap,
  sym, ◌∙◌, append-nil, All, append_assoc, Bool-cases, inl, inr, eq_iff, subst,
}
use ai_trader.Controls.Defaults.{Setting, put}
use ai_trader.Controls.Keys.{regime_name, regimes, named, named_by}
use ai_trader.Controls.Outcome.{without}
use ai_trader.Controls.Read.{is_whitelisted, pin, pins_from, read_pins}
use ai_trader.Controls.Setters.{after}
use ai_trader.Controls.State.{Regime, trending, range_bound, neutral}
use ai_trader.Controls.Values.{Block, get}
use ai_trader.Controls.Write.{pins_block}

-- No key stands twice
unfoldable pub Unique : {A : Type 0} → List (String × A) → Type 0
Unique [] = Unit
Unique ((k, a) ∷ rest) = (get k rest ≡ none) × Unique rest

-- Two texts that differ, the other way round
str_eq_flip : (s t : String) → str_eq s t ≡ false → str_eq t s ≡ false
str_eq_flip s t f = elim (Bool-cases (str_eq t s)) [
  | inl same ↦ let both = (eq_iff s t).1 (sym ((eq_iff t s).0 same)) in cc
  | inr g ↦ g
]

module _ {A : Type 0} where
  put-fresh :
      (key : String) (a : A) (d : List (String × A))
      → get key d ≡ none
      → put key a d ≡ d ++ (key, a) ∷ []
  unfolding put get
  put-fresh key a [] h = refl
  put-fresh key a ((k, b) ∷ rest) h = elim (Bool-cases (str_eq key k)) [
    | inl t ↦ let gone = rw t at h in cc
    | inr f ↦ let absent = rw f at h in rw f (ap (λ r. (k, b) ∷ r) (put-fresh key a rest absent))
  ]

  get-present :
      (key : String) (a : A) (before after : List (String × A))
      → get key (before ++ (key, a) ∷ after) ≢ none
  unfolding get
  get-present key a [] after h = let gone = rw ((eq_iff key key).1 refl) at h in cc
  get-present key a ((k, b) ∷ before) after h = elim (Bool-cases (str_eq key k)) [
    | inl t ↦ let gone = rw t at h in cc
    | inr f ↦ let absent = rw f at h in get-present key a before after absent
  ]

  get-fresh :
      (key : String) (a : A) (before after : List (String × A))
      → Unique (before ++ (key, a) ∷ after)
      → get key before ≡ none
  unfolding get Unique
  get-fresh key a [] after u = refl
  get-fresh key a ((k, b) ∷ before) after (absent, u) = elim (Bool-cases (str_eq key k)) [
    | inl t ↦
        elim (get-present key a before after (
          subst (λ s. get s (before ++ (key, a) ∷ after) ≡ none) (sym ((eq_iff key k).0 t))
            absent)) [ ]
    | inr f ↦ rw f (get-fresh key a before after u)
  ]

  get-put_other :
      (j key : String) (a : A) (d : List (String × A))
      → str_eq j key ≡ false
      → get j d ≡ none
      → get j (put key a d) ≡ none
  unfolding get put
  get-put_other j key a [] f h = rw f
  get-put_other j key a ((k, b) ∷ rest) f h = elim (Bool-cases (str_eq j k)) [
    | inl t ↦ let gone = rw t at h in cc
    | inr g ↦
        let absent = rw g at h in
        elim (Bool-cases (str_eq key k)) [
          | inl t ↦ rw (t, get, g) absent
          | inr u ↦ rw (u, get, g) (get-put_other j key a rest f absent)
        ]
  ]

  pub put-Unique : (key : String) (a : A) (d : List (String × A)) → Unique d → Unique (put key a d)
  unfolding put Unique get
  put-Unique key a [] u = (refl, tt)
  put-Unique key a ((k, b) ∷ rest) (absent, u) = elim (Bool-cases (str_eq key k)) [
    | inl t ↦ rw t (absent, u)
    | inr f ↦
        rw f (get-put_other k key a rest (str_eq_flip key k f) absent, put-Unique key a rest u)
  ]

  pub put-All :
      (P : String → Type 0) (key : String) (a : A) (d : List (String × A))
      → P key
      → All (λ p. P p.0) d
      → All (λ p. P p.0) (put key a d)
  unfolding put
  put-All P key a [] p w = (p, tt)
  put-All P key a ((k, b) ∷ rest) p (q, w) = elim (Bool-cases (str_eq key k)) [
    | inl t ↦ rw t (q, w)
    | inr f ↦ rw f (q, put-All P key a rest p w)
  ]

module _ {A : Type 0} where
  get-without :
      (j key : String) (d : List (String × A)) → get j d ≡ none → get j (without key d) ≡ none
  unfolding get without
  get-without j key [] h = refl
  get-without j key ((k, b) ∷ rest) h = elim (Bool-cases (str_eq j k)) [
    | inl t ↦ let gone = rw t at h in cc
    | inr f ↦
        let absent = rw f at h in
        elim (Bool-cases (str_eq key k)) [
          | inl t ↦ rw t (get-without j key rest absent)
          | inr u ↦ rw (u, get, f) (get-without j key rest absent)
        ]
  ]

  pub without-Unique : (key : String) (d : List (String × A)) → Unique d → Unique (without key d)
  unfolding without Unique
  without-Unique key [] u = tt
  without-Unique key ((k, b) ∷ rest) (absent, u) = elim (Bool-cases (str_eq key k)) [
    | inl t ↦ rw t (without-Unique key rest u)
    | inr f ↦ rw f (get-without k key rest absent, without-Unique key rest u)
  ]

  pub without-All :
      (P : String → Type 0) (key : String) (d : List (String × A))
      → All (λ p. P p.0) d
      → All (λ p. P p.0) (without key d)
  unfolding without
  without-All P key [] w = tt
  without-All P key ((k, b) ∷ rest) (q, w) = elim (Bool-cases (str_eq key k)) [
    | inl t ↦ rw t (without-All P key rest w)
    | inr f ↦ rw f (q, without-All P key rest w)
  ]

named_regime : (r : Regime) → named regime_name regimes (regime_name r) ≡ some r
named_regime trending = refl
named_regime range_bound = refl
named_regime neutral = refl

module _ {X : Type 0} ⦃fl : Float X⦄ (env : Setting X) where
  pins_from-block :
      (before pins : List (String × Regime))
      → Unique (before ++ pins)
      → All (λ p. is_whitelisted env p.0 ≡ true) pins
      → pins_from env before (pins_block pins) ≡ before ++ pins
  unfolding pins_from
  pins_from-block before [] u w = sym (append-nil before)
  pins_from-block before ((s, r) ∷ rest) u (listed, w) =
      let whole = append_assoc before ((s, r) ∷ []) rest in
      ap (λ o. pins_from env (pin env before s o) (pins_block rest)) (named_regime r)
      ∙ rw listed (
          ap (λ d. pins_from env d (pins_block rest))
            (put-fresh s r before (get-fresh s r before rest u))
          ∙ pins_from-block (before ++ (s, r) ∷ []) rest (subst Unique (sym whole) u) w
          ∙ whole)

  pub pins-written :
      (pins : List (String × Regime))
      → Unique pins
      → All (λ p. is_whitelisted env p.0 ≡ true) pins
      → read_pins env (some (pins_block pins)) ≡ pins
  pins-written pins u w = pins_from-block [] pins u w

  pin-Unique :
      (pins : List (String × Regime)) (s : String) (r : Option Regime)
      → Unique pins
      → Unique (pin env pins s r)
  pin-Unique pins s none u = u
  pin-Unique pins s (some r) u = elim (Bool-cases (is_whitelisted env s)) [
    | inl t ↦ rw t (put-Unique s r pins u)
    | inr f ↦ rw f u
  ]

  pin-listed :
      (pins : List (String × Regime)) (s : String) (r : Option Regime)
      → All (λ p. is_whitelisted env p.0 ≡ true) pins
      → All (λ p. is_whitelisted env p.0 ≡ true) (pin env pins s r)
  pin-listed pins s none w = w
  pin-listed pins s (some r) w = elim (Bool-cases (is_whitelisted env s)) [
    | inl t ↦ rw t (put-All (λ k. is_whitelisted env k ≡ true) s r pins t w)
    | inr f ↦ rw f w
  ]

  pins_from-Unique :
      (pins : List (String × Regime)) (b : Block X) → Unique pins → Unique (pins_from env pins b)
  unfolding pins_from
  pins_from-Unique pins [] u = u
  pins_from-Unique pins ((s, v) ∷ rest) u =
      let r = named_by regime_name regimes v in
      pins_from-Unique (pin env pins s r) rest (pin-Unique pins s r u)

  pins_from-listed :
      (pins : List (String × Regime)) (b : Block X)
      → All (λ p. is_whitelisted env p.0 ≡ true) pins
      → All (λ p. is_whitelisted env p.0 ≡ true) (pins_from env pins b)
  unfolding pins_from
  pins_from-listed pins [] w = w
  pins_from-listed pins ((s, v) ∷ rest) w =
      let r = named_by regime_name regimes v in
      pins_from-listed (pin env pins s r) rest (pin-listed pins s r w)

  pub read_pins-Unique : (b : Option (Block X)) → Unique (read_pins env b)
  unfolding Unique
  read_pins-Unique none = tt
  read_pins-Unique (some b) = pins_from-Unique [] b tt

  pub read_pins-listed :
      (b : Option (Block X)) → All (λ p. is_whitelisted env p.0 ≡ true) (read_pins env b)
  read_pins-listed none = tt
  read_pins-listed (some b) = pins_from-listed [] b tt
