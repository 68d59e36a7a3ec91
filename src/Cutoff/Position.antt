-- ===== src/Cutoff/Position.antt =====
-- Where the earliest non-stale pending session of news_eval/cutoff.py stands among the sessions.
use ai_trader.Base.{
  ℕ, zero, suc, ◌+◌, ◌≡◌, refl, ap, Bool, true, false, Option, none, some, ◌&&◌, not, arith,
  Bool-cases, inl, inr, List, [], ◌∷◌, map, keep, first, last, take, get_elem?, All, String,
}
use ai_trader.Cutoff.{
  Entry, Counts, enumerate, has_pending, is_stale, split_pending, latest_of, earliest_of,
}

-- A pending session that is not stale: what holds S* back.
abbrev pub holds_back : Option Entry → Entry → Bool
holds_back latest e = has_pending e && not (is_stale latest e)

split_pending-first :
    (latest : Option Entry) (es : List Entry)
    → first (split_pending latest (keep has_pending es)).1 ≡ first (keep (holds_back latest) es)
unfolding split_pending
split_pending-first latest [] = refl
split_pending-first latest (e ∷ es) = ground (arith, split_pending-first latest es)

pub earliest_of-eq-first :
    (es : List Entry) → earliest_of es ≡ first (keep (holds_back (latest_of es)) es)
unfolding earliest_of
earliest_of-eq-first es = split_pending-first (latest_of es) es

-- The first element that passes a test stands at some place, and none before it passes.
pub first-keep {ℓ} :
    {A : Type ℓ} (p : A → Bool) (xs : List A) (x : A)
    → first (keep p xs) ≡ some x
    → (i : ℕ) × (get_elem? xs i ≡ some x) × (p x ≡ true) × All (λ y. p y ≡ false) (take i xs)
first-keep p [] x h = cc
first-keep p (y ∷ ys) x h = elim (Bool-cases (p y)) [
  | inl now ↦ (0, ground arith, ground arith, tt)
  | inr later ↦
      let (i, at, q, before) = first-keep p ys x (ground arith) in (suc i, at, q, (later, before))
]

pub first-keep-none {ℓ} :
    {A : Type ℓ} (p : A → Bool) (xs : List A) → first (keep p xs) ≡ none → All (λ y. p y ≡ false) xs
first-keep-none p [] h = tt
first-keep-none p (y ∷ ys) h = ground (arith, first-keep-none p ys)

-- The index that an entry carries is its place.
pub index-enumerate :
    (k : ℕ) (items : List (String × Counts)) (i : ℕ) (e : Entry)
    → get_elem? (enumerate k items) i ≡ some e
    → e.index ≡ k + i
unfolding enumerate
index-enumerate k [] i e h = cc
index-enumerate k ((s, c) ∷ items) zero e h = ground arith
index-enumerate k ((s, c) ∷ items) (suc i) e h = omega (arith, index-enumerate (suc k) items i e h)

pub get_elem?-map {ℓ κ} :
    {A : Type ℓ} {B : Type κ} (f : A → B) (xs : List A) (i : ℕ) {x : A}
    → get_elem? xs i ≡ some x
    → get_elem? (map f xs) i ≡ some (f x)
get_elem?-map f [] i h = cc
get_elem?-map f (x ∷ xs) zero h = cc
get_elem?-map f (x ∷ xs) (suc i) h = get_elem?-map f xs i h

-- Where an element stands at `suc i`, one stands at `i`.
pub get_elem?-pred {ℓ} :
    {A : Type ℓ} (xs : List A) (i : ℕ) {x : A}
    → get_elem? xs (suc i) ≡ some x
    → (y : A) × (get_elem? xs i ≡ some y)
get_elem?-pred [] i h = cc
get_elem?-pred (x ∷ xs) zero h = (x, refl)
get_elem?-pred (x ∷ xs) (suc i) h = get_elem?-pred xs i h

-- The last element of a list that is not empty stands at some place, with nothing behind it.
pub last-place {ℓ} :
    {A : Type ℓ} (x : A) (xs : List A)
    → (i : ℕ) × (y : A) × (last (x ∷ xs) ≡ some y)
      × (get_elem? (x ∷ xs) i ≡ some y)
      × (take (suc i) (x ∷ xs) ≡ x ∷ xs)
      × (get_elem? (x ∷ xs) (suc i) ≡ none)
last-place x [] = (0, x, refl, refl, refl, refl)
last-place x (y ∷ ys) =
    let (i, z, l, at, whole, past) = last-place y ys in
    (suc i, z, l, at, ap (λ zs. x ∷ zs) whole, past)
