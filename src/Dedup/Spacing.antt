-- ===== src/Dedup/Spacing.antt =====
-- What stays after the collapse, and the groups of one story.
use ai_trader.Base.{
  ℕ, ◌-◌, ◌<◌, ◌≡◌, refl, ap, sym, subst, ◌∙◌, Bool, true, false, leb, le→leb, arith, if◌then◌else◌,
  Bool-cases, ◌⊎◌, inl, inr, Option, none, some, List, [], ◌∷◌, All, String, str_eq, eq_iff,
}
use ai_trader.Dedup.{
  Headline, Story, Deduplicator, get, same_pair, seen_within, story_group, group_for, new_story,
  key_of, is_duplicate, consider,
}

module _ (normalize upper strip : String → String) (digest : String → ℕ → String) (window : ℕ) where
  -- The headlines of a run that are no duplicates, in order
  abbrev pub kept : Deduplicator → List Headline → List Headline
  kept d [] = []
  kept d (h ∷ hs) =
      let (duplicate, group_id, d') = consider normalize upper strip digest window d h in
      let rest = kept d' hs in if duplicate then rest else h ∷ rest

  -- The two headlines are of one ticker and one normalised text.
  abbrev pub same_key : Headline → Headline → Bool
  same_key k h =
      same_pair (key_of normalize upper strip digest window k)
        (key_of normalize upper strip digest window h)

  -- The instant is known and not before `t`.
  abbrev pub not_before : ℕ → Option ℕ → Bool
  not_before t none = false
  not_before t (some seen) = leb t seen

  -- The state has seen the headline's key no earlier than it.
  abbrev pub covers : Deduplicator → Headline → Bool
  covers d k =
      not_before k.published
        (get same_pair d.by_ticker_text (key_of normalize upper strip digest window k))

  -- A later headline of the same key stands more than the window after it.
  abbrev pub IsApart : Headline → Headline → Type 0
  IsApart k h = (same_key k h ≡ false) ⊎ (window < h.published - k.published)

  key_path : (a b : String × String) → same_pair a b ≡ true → a ≡ b
  key_path (a, b) (c, d) e =
      ap (λ x. (x, b)) ((eq_iff a c).0 (ground arith))
      ∙ ap (λ y. (c, y)) ((eq_iff b d).0 (ground arith))

  same_pair_refl : (a : String × String) → same_pair a a ≡ true
  same_pair_refl (a, b) = ground (arith, (eq_iff a a).1 refl, (eq_iff b b).1 refl)

  same_pair_comm : (a b : String × String) → same_pair a b ≡ true → same_pair b a ≡ true
  same_pair_comm (a, b) (c, d) e = ground (
    arith,
    (eq_iff c a).1 (sym ((eq_iff a c).0 (ground arith))),
    (eq_iff d b).1 (sym ((eq_iff b d).0 (ground arith))),
  )

  apart_seen :
      (now t : ℕ) (o : Option ℕ)
      → not_before t o ≡ true
      → seen_within window now o ≡ false
      → window < now - t
  apart_seen now t none n f = cc n
  apart_seen now t (some seen) n f = ground arith

  consider-is_duplicate :
      (d : Deduplicator) (h : Headline)
      → (consider normalize upper strip digest window d h).0
        ≡ is_duplicate normalize upper strip digest window d h
  unfolding consider
  consider-is_duplicate d h =
      elim (Bool-cases (is_duplicate normalize upper strip digest window d h)) [
        | inl e ↦ rw e refl
        | inr e ↦ rw e refl
      ]

  fresh_text :
      (d : Deduplicator) (h : Headline)
      → (consider normalize upper strip digest window d h).0 ≡ false
      → seen_within window h.published
          (get same_pair d.by_ticker_text (key_of normalize upper strip digest window h))
        ≡ false
  fresh_text d h fresh = ground (arith, consider-is_duplicate d h)

  consider_window :
      (d : Deduplicator) (k h : Headline)
      → covers d k ≡ true
      → (consider normalize upper strip digest window d h).0 ≡ false
      → same_key k h ≡ true
      → window < h.published - k.published
  consider_window d k h c fresh same =
      let key =
        key_path (key_of normalize upper strip digest window k)
          (key_of normalize upper strip digest window h) same in
      apart_seen h.published k.published
        (get same_pair d.by_ticker_text (key_of normalize upper strip digest window k)) c
        (subst (λ x. seen_within window h.published (get same_pair d.by_ticker_text x) ≡ false)
          (sym key) (fresh_text d h fresh))

  consider-IsApart :
      (d : Deduplicator) (k h : Headline)
      → covers d k ≡ true
      → (consider normalize upper strip digest window d h).0 ≡ false
      → IsApart k h
  consider-IsApart d k h c fresh = elim (Bool-cases (same_key k h)) [
    | inl same ↦ inr (consider_window d k h c fresh same)
    | inr other ↦ inl other
  ]

  consider-covers :
      (d : Deduplicator) (k h : Headline)
      → covers d k ≡ true
      → covers (consider normalize upper strip digest window d h).2 k ≡ true
  unfolding consider
  consider-covers d k h c =
      elim (Bool-cases (is_duplicate normalize upper strip digest window d h)) [
        | inl e ↦ rw e c
        | inr e ↦
            let apart = consider_window d k h c (consider-is_duplicate d h ∙ e) in
            rw e
              (elim (Bool-cases (
                same_pair (key_of normalize upper strip digest window h)
                  (key_of normalize upper strip digest window k))) [
                    | inl f ↦ rw f (
                        ground (
                          arith,
                          apart (
                              same_pair_comm (key_of normalize upper strip digest window h)
                                (key_of normalize upper strip digest window k) f),
                        ))
                    | inr f ↦ rw f c
                  ])
      ]

  kept-IsApart :
      (d : Deduplicator) (k : Headline) (hs : List Headline)
      → covers d k ≡ true
      → All (IsApart k) (kept d hs)
  kept-IsApart d k [] c = tt
  kept-IsApart d k (h ∷ hs) c =
      let d' = (consider normalize upper strip digest window d h).2 in
      let later = kept-IsApart d' k hs (consider-covers d k h c) in
      elim (Bool-cases (consider normalize upper strip digest window d h).0) [
        | inl e ↦ rw e later
        | inr e ↦ rw e (consider-IsApart d k h c e, later)
      ]

  -- Every pair of the list is apart, the earlier one first.
  abbrev pub Spaced : List Headline → Type 0
  Spaced [] = Unit
  Spaced (k ∷ ks) = All (IsApart k) ks × Spaced ks

  consider_fresh-covers :
      (d : Deduplicator) (h : Headline)
      → (consider normalize upper strip digest window d h).0 ≡ false
      → covers (consider normalize upper strip digest window d h).2 h ≡ true
  unfolding consider
  consider_fresh-covers d h fresh = rw (sym (consider-is_duplicate d h) ∙ fresh) (
      rw (same_pair_refl (key_of normalize upper strip digest window h))
        (le→leb h.published h.published (omega arith)))

  -- Whatever the order of the headlines and the state before them, two headlines that stay and
  -- have one ticker and one normalised text are published more than the window apart.
  pub kept-Spaced : (d : Deduplicator) (hs : List Headline) → Spaced (kept d hs)
  kept-Spaced d [] = tt
  kept-Spaced d (h ∷ hs) =
      let d' = (consider normalize upper strip digest window d h).2 in
      elim (Bool-cases (consider normalize upper strip digest window d h).0) [
        | inl e ↦ rw e (kept-Spaced d' hs)
        | inr e ↦ rw e (kept-IsApart d' h hs (consider_fresh-covers d h e), kept-Spaced d' hs)
      ]

  group : List (String × Story) → String → ℕ → String × List (String × Story)
  group stories text published =
      story_group normalize upper strip digest window stories text published

  group_of : List (String × Story) → String → ℕ → Option Story → String × List (String × Story)
  group_of stories text published prior =
      group_for normalize upper strip digest window stories text published prior

  group_prior :
      (stories : List (String × Story)) (text : String) (published : ℕ) (o : Option Story)
      → get str_eq stories text ≡ o
      → group stories text published ≡ group_of stories text published o
  unfolding group group_of story_group
  group_prior stories text published o e = ap (group_of stories text published) e

  group_new :
      (stories : List (String × Story)) (text : String) (published : ℕ)
      → (group
          (new_story normalize upper strip digest window stories text published).1
          text
          published).0
        ≡ digest text published
  unfolding group_of
  group_new stories text published =
      ap (λ r. r.0)
        (group_prior (new_story normalize upper strip digest window stories text published).1 text
          published (some (record { group_id = digest text published; first_seen = published }))
          (rw ((eq_iff text text).1 refl) refl))
      ∙ (rw (le→leb (published - published) window (omega arith)) refl)

  again :
      (stories : List (String × Story)) (text : String) (published : ℕ) (o : Option Story)
      → get str_eq stories text ≡ o
      → (group (group_of stories text published o).1 text published).0
        ≡ (group_of stories text published o).0
  unfolding group_of
  again stories text published none e = group_new stories text published
  again stories text published (some prior) e =
      elim (Bool-cases (leb (published - prior.first_seen) window)) [
        | inl f ↦
            rw f (ap (λ r. r.0) (group_prior stories text published (some prior) e) ∙ rw f refl)
        | inr f ↦ rw f (group_new stories text published)
      ]

  group_again :
      (stories : List (String × Story)) (text : String) (published : ℕ)
      → (group (group stories text published).1 text published).0 ≡ (group stories text published).0
  unfolding group group_of story_group
  group_again stories text published = again stories text published (get str_eq stories text) refl

  consider-group :
      (d : Deduplicator) (h : Headline)
      → ((consider normalize upper strip digest window d h).1
          ≡ (group d.stories (normalize h.headline) h.published).0)
        × ((consider normalize upper strip digest window d h).2.stories
            ≡ (group d.stories (normalize h.headline) h.published).1)
  unfolding consider group
  consider-group d h = elim (Bool-cases (is_duplicate normalize upper strip digest window d h)) [
    | inl e ↦ rw e (refl, refl)
    | inr e ↦ rw e (refl, refl)
  ]

  -- One story that names several tickers, published at one instant, has one group, whether or not
  -- its headlines are kept.
  pub consider_shared_group :
      (d : Deduplicator) (h k : Headline)
      → normalize h.headline ≡ normalize k.headline
      → h.published ≡ k.published
      → (consider normalize upper strip digest window
          (consider normalize upper strip digest window d h).2
          k).1
        ≡ (consider normalize upper strip digest window d h).1
  consider_shared_group d h k text time =
      let d' = (consider normalize upper strip digest window d h).2 in
      let (id, stories) = consider-group d h in
      (consider-group d' k).0
      ∙ ap (λ ss. (group ss (normalize k.headline) k.published).0) stories
      ∙ sym (
          ap (λ t. (group (group d.stories (normalize h.headline) h.published).1 t k.published).0)
            text)
      ∙ sym (
          ap
            (λ n.
              (group (group d.stories (normalize h.headline) h.published).1 (normalize h.headline)
                n).0)
            time)
      ∙ group_again d.stories (normalize h.headline) h.published
      ∙ sym id
