-- ===== src/Base/Sorting.antt =====
-- Python's `sorted` with a key order `lt`: stable, by insertion.
use ai_trader.Base.Tests.{if◌then◌else◌, Bool-cases}
use ai_trader.Base.Lists.{count, any, All}
use mathlib.Core.Path.{◌≡◌, refl}
use mathlib.Core.Logic.{inl, inr}
use mathlib.Core.Bool.{Bool, true, false}
use mathlib.Core.List.{List, [], ◌∷◌}
use native.Mathlib.Omega.{arith}

module _ {ℓ} {A : Type ℓ} (lt : A → A → Bool) where
  unfoldable pub sort_insert : A → List A → List A
  sort_insert x [] = x ∷ []
  sort_insert x (y ∷ ys) = let rest = sort_insert x ys in if lt y x then y ∷ rest else x ∷ y ∷ ys

  unfoldable pub sorted : List A → List A
  unfolding sort_insert
  sorted [] = []
  sorted (x ∷ xs) = sort_insert x (sorted xs)

  count-sort_insert :
      (p : A → Bool) (x : A) (xs : List A) → count p (sort_insert x xs) ≡ count p (x ∷ xs)
  unfolding sort_insert
  count-sort_insert p x [] = refl
  count-sort_insert p x (y ∷ ys) = ground (arith, count-sort_insert p x ys)

  -- Sorting keeps every element, as often.
  pub count-sorted : (p : A → Bool) (xs : List A) → count p (sorted xs) ≡ count p xs
  unfolding sorted
  count-sorted p [] = refl
  count-sorted p (x ∷ xs) = ground (arith, count-sorted p xs, count-sort_insert p x (sorted xs))

  All-sort_insert :
      (q : A → Bool) (x : A) (xs : List A)
      → q x ≡ false
      → All (λ y. q y ≡ false) xs
      → All (λ y. q y ≡ false) (sort_insert x xs)
  unfolding sort_insert
  All-sort_insert q x [] px h = (px, tt)
  All-sort_insert q x (y ∷ ys) px h = ground (arith, All-sort_insert q x ys px h.1)

  -- What no element has, none has after sorting.
  pub All-sorted :
      (q : A → Bool) (xs : List A) → All (λ y. q y ≡ false) xs → All (λ y. q y ≡ false) (sorted xs)
  unfolding sorted
  All-sorted q [] h = tt
  All-sorted q (x ∷ xs) h = All-sort_insert q x (sorted xs) h.0 (All-sorted q xs h.1)

  any-sort_insert : (p : A → Bool) (x : A) (xs : List A) → any p (sort_insert x xs) ≡ any p (x ∷ xs)
  unfolding sort_insert
  any-sort_insert p x [] = refl
  any-sort_insert p x (y ∷ ys) = ground (arith, any-sort_insert p x ys)

  -- Sorting keeps the elements.
  pub any-sorted : (p : A → Bool) (xs : List A) → any p (sorted xs) ≡ any p xs
  unfolding sorted
  any-sorted p [] = refl
  any-sorted p (x ∷ xs) = ground (arith, any-sorted p xs, any-sort_insert p x (sorted xs))

  -- No element stands before a smaller one.
  abbrev pub IsOrdered : List A → Type ℓ
  IsOrdered [] = Unit
  IsOrdered (x ∷ xs) = All (λ y. lt y x ≡ false) xs × IsOrdered xs

-- A strict order in which `not (a < b)` is transitive.
pub record IsWeakOrder {ℓ} {A : Type ℓ} (lt : A → A → Bool) : Type ℓ where
  pub asymm : (a b : A) → lt a b ≡ true → lt b a ≡ false
  pub neg_trans : (a b c : A) → lt a b ≡ false → lt b c ≡ false → lt a c ≡ false

module _ {ℓ} {A : Type ℓ} (lt : A → A → Bool) (order : IsWeakOrder lt) where
  All-neg_trans :
      (x y : A) (ys : List A)
      → lt y x ≡ false
      → All (λ z. lt z y ≡ false) ys
      → All (λ z. lt z x ≡ false) ys
  All-neg_trans x y [] h k = tt
  All-neg_trans x y (z ∷ ys) h k = (order.neg_trans z y x k.0 h, All-neg_trans x y ys h k.1)

  sort_insert-IsOrdered :
      (x : A) (xs : List A) → IsOrdered lt xs → IsOrdered lt (sort_insert lt x xs)
  unfolding sort_insert
  sort_insert-IsOrdered x [] h = (tt, tt)
  sort_insert-IsOrdered x (y ∷ ys) h = elim (Bool-cases (lt y x)) [
    | inl less ↦ rw less (
      All-sort_insert lt (λ z. lt z y) x ys (order.asymm y x less) h.0,
      sort_insert-IsOrdered x ys h.1,
    )
    | inr not_less ↦ rw not_less ((not_less, All-neg_trans x y ys not_less h.0), h)
  ]

  -- The result of a sort is in order.
  pub sorted-IsOrdered : (xs : List A) → IsOrdered lt (sorted lt xs)
  unfolding sorted
  sorted-IsOrdered [] = tt
  sorted-IsOrdered (x ∷ xs) = sort_insert-IsOrdered x (sorted lt xs) (sorted-IsOrdered xs)
