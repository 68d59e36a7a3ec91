-- ===== src/Cutoff/SStarLaws.antt =====
-- The cutoff S*: no pending row that may still resolve stands at or before it, and it is the latest
-- session of which that holds.
use ai_trader.Base.{
  ℕ, zero, suc, ◌≡◌, ◌≢◌, refl, sym, subst, ◌∙◌, true, false, Option, none, some, arith,
  Option-cases, inl, inr, List, [], ◌∷◌, map, last, take, get_elem?, All, String, ◌⊎◌,
}
use ai_trader.Cutoff.{Entry, Counts, enumerate, latest_of, earliest_of, choose_s_star, s_star_of}
use ai_trader.Cutoff.Position.{
  holds_back, earliest_of-eq-first, first-keep, first-keep-none, index-enumerate, get_elem?-map,
  get_elem?-pred, last-place,
}

-- `s` is a session before which, itself included, nothing holds S* back, and it is the last one or
-- the next one holds it back.
abbrev pub IsCutoff : List Entry → String → Type 0
IsCutoff entries s =
    (i : ℕ) × (e : Entry) × (get_elem? entries i ≡ some e)
    × (e.session ≡ s)
    × All (λ (x : Entry). holds_back (latest_of entries) x ≡ false) (take (suc i) entries)
    × ((get_elem? entries (suc i) ≡ none)
        ⊎ ((x : Entry) × (get_elem? entries (suc i) ≡ some x)
            × (holds_back (latest_of entries) x ≡ true)))

last-map {ℓ κ} :
    {A : Type ℓ} {B : Type κ} (f : A → B) (xs : List A) {x : A}
    → last xs ≡ some x
    → last (map f xs) ≡ some (f x)
last-map f [] h = cc
last-map f (x ∷ []) h = cc
last-map f (x ∷ y ∷ xs) h = last-map f (y ∷ xs) h

abbrev sessions : List Entry → List String
sessions entries = map (λ (e : Entry). e.session) entries

-- No session holds S* back: S* is the last one.
IsCutoff-of_none :
    (es : List Entry) (latest : Option Entry) (s : String)
    → earliest_of es ≡ none
    → (choose_s_star (sessions es) latest none).0 ≡ some s
    → IsCutoff es s
unfolding choose_s_star
IsCutoff-of_none [] latest s e h = cc
IsCutoff-of_none (x ∷ xs) none s e h = cc
IsCutoff-of_none (x ∷ xs) (some l) s e h =
    let (i, y, is_last, at, whole, past) = last-place x xs in
    (
      i,
      y,
      at,
      cc (last-map (λ (e : Entry). e.session) (x ∷ xs) is_last),
      subst (All (λ (y : Entry). holds_back (latest_of (x ∷ xs)) y ≡ false)) (sym whole) (
          first-keep-none (holds_back (latest_of (x ∷ xs))) (x ∷ xs)
            (sym (earliest_of-eq-first (x ∷ xs)) ∙ e)),
      inl past,
    )

-- The session at place `k` holds S* back and none before it does: S* is the one before.
IsCutoff-before :
    (es : List Entry) (latest : Option Entry) (s : String) (x : Entry) (k : ℕ)
    → x.index ≡ k
    → get_elem? es k ≡ some x
    → holds_back (latest_of es) x ≡ true
    → All (λ (y : Entry). holds_back (latest_of es) y ≡ false) (take k es)
    → (choose_s_star (sessions es) latest (some x)).0 ≡ some s
    → IsCutoff es s
unfolding choose_s_star
IsCutoff-before [] latest s x k e at q before h = cc
IsCutoff-before (z ∷ zs) none s x k e at q before h = cc
IsCutoff-before (z ∷ zs) (some l) s x zero e at q before h = ground arith
IsCutoff-before (z ∷ zs) (some l) s x (suc i) e at q before h =
    let (y, at_i) = get_elem?-pred (z ∷ zs) i at in
    (
      i,
      y,
      at_i,
      ground (arith, get_elem?-map (λ (e : Entry). e.session) (z ∷ zs) i at_i),
      before,
      inr (x, at, q),
    )

last-cons : {A : Type 0} (x : A) (xs : List A) → last (x ∷ xs) ≢ none
last-cons x [] h = cc
last-cons x (y ∷ ys) h = last-cons y ys h

no_items :
    (items : List (String × Counts)) (l : Entry)
    → (choose_s_star (sessions (enumerate 0 items)) (some l) none).0 ≡ none
    → items ≡ []
unfolding choose_s_star enumerate
no_items [] l h = refl
no_items (item ∷ items) l h = absurd (last-cons item.0 (sessions (enumerate 1 items)) h)

place_zero :
    (items : List (String × Counts)) (l x : Entry) (k : ℕ)
    → x.index ≡ k
    → get_elem? (enumerate 0 items) k ≡ some x
    → (choose_s_star (sessions (enumerate 0 items)) (some l) (some x)).0 ≡ none
    → get_elem? (enumerate 0 items) 0 ≡ some x
unfolding choose_s_star enumerate
place_zero [] l x k e at h = cc
place_zero (item ∷ items) l x zero e at h = at
place_zero (item ∷ items) l x (suc i) e at h =
    let es = enumerate 0 (item ∷ items) in
    let (y, at_i) = get_elem?-pred es i at in
    absurd (ground (arith, get_elem?-map (λ (e : Entry). e.session) es i at_i))

module _ (items : List (String × Counts)) (empty : ℕ) where
  -- S* is the latest session before which, itself included, every pending session is stale.
  pub s_star_of-IsCutoff :
      (s : String)
      → (s_star_of (enumerate 0 items) empty).s_star ≡ some s
      → IsCutoff (enumerate 0 items) s
  unfolding s_star_of
  s_star_of-IsCutoff s h =
      let entries = enumerate 0 items in
      elim (Option-cases (earliest_of entries)) [
        | inl e ↦
            IsCutoff-of_none entries (latest_of entries) s e
              (subst (λ z. (choose_s_star (sessions entries) (latest_of entries) z).0 ≡ some s) e h)
        | inr (x, e) ↦
            let (k, at, q, before) =
              first-keep (holds_back (latest_of entries)) entries x
                (sym (earliest_of-eq-first entries) ∙ e) in
            IsCutoff-before entries (latest_of entries) s x k
              (index-enumerate 0 items k x at ∙ omega arith) at q before
              (subst (λ z. (choose_s_star (sessions entries) (latest_of entries) z).0 ≡ some s) e h)
      ]

  -- There is no S* exactly when there is no session, none is resolved, or the first session holds
  -- it back.
  pub s_star_of-none :
      (s_star_of (enumerate 0 items) empty).s_star ≡ none
      → (items ≡ [])
        ⊎ (latest_of (enumerate 0 items) ≡ none)
        ⊎ ((x : Entry) × (get_elem? (enumerate 0 items) 0 ≡ some x)
            × (holds_back (latest_of (enumerate 0 items)) x ≡ true))
  unfolding s_star_of
  s_star_of-none h = elim (Option-cases (latest_of (enumerate 0 items))) [
    | inl e ↦ inr (inl e)
    | inr (l, el) ↦ elim (Option-cases (earliest_of (enumerate 0 items))) [
      | inl e ↦ inl (no_items items l (chosen l none el e))
      | inr (x, e) ↦
          let (k, at, q, before) =
            first-keep (holds_back (latest_of (enumerate 0 items))) (enumerate 0 items) x
              (sym (earliest_of-eq-first (enumerate 0 items)) ∙ e) in
          inr (
            inr (
              x,
              place_zero items l x k (index-enumerate 0 items k x at ∙ omega arith) at
                  (chosen l (some x) el e),
              q,
            ))
    ]
  ]
    where
      chosen :
          (l : Entry) (x : Option Entry)
          → latest_of (enumerate 0 items) ≡ some l
          → earliest_of (enumerate 0 items) ≡ x
          → (choose_s_star (sessions (enumerate 0 items)) (some l) x).0 ≡ none
      chosen l x el e =
          subst (λ z. (choose_s_star (sessions (enumerate 0 items)) (some l) z).0 ≡ none) e
            (subst
              (λ z.
                (choose_s_star (sessions (enumerate 0 items)) z (earliest_of (enumerate 0 items))).0
                ≡ none)
              el h)
