-- ===== src/Base/Texts.antt =====
-- The order of Python's strings: by code points, from the left.
use Prim.Native.String.{String, [], ◌∷◌, compare, then}
use Prim.Native.String.compare
use Prim.Native.Nat.{ℕ, zero, suc, Ordering, compare as compare_ℕ}
use Prim.Native.Char.{Char, code}
use mathlib.Core.Path.{◌≡◌}
use mathlib.Core.Bool.{Bool, true, false}
use native.Mathlib.Omega.{arith}
use ai_trader.Base.Sorting.{IsWeakOrder}

-- `s < t`
unfoldable pub str_lt : String → String → Bool
str_lt s t = elim (compare s t) [ Ordering.lt ↦ true | _ ↦ false ]

-- `s + t`
abbrev pub str_append : String → String → String
str_append [] t = t
str_append (c ∷ s) t = c ∷ str_append s t

-- `s[:n]`
abbrev pub str_take : ℕ → String → String
str_take n [] = []
str_take zero (c ∷ s) = []
str_take (suc n) (c ∷ s) = c ∷ str_take n s

-- `s` is not empty.
abbrev pub is_text : String → Bool
is_text [] = false
is_text (c ∷ s) = true

nil-nil : compare [] [] ≡ Ordering.eq
nil-nil = compare.nil-nil

nil-cons : (d : Char) (t : String) → compare [] (d ∷ t) ≡ Ordering.lt
nil-cons d t = compare.nil-cons d t

cons-nil : (c : Char) (s : String) → compare (c ∷ s) [] ≡ Ordering.gt
cons-nil c s = compare.cons-nil c s

cons-cons :
    (c d : Char) (s t : String)
    → compare (c ∷ s) (d ∷ t) ≡ then (compare_ℕ (code c) (code d)) (compare s t)
cons-cons c d s t = compare.cons-cons c d s t

str_lt_asymm : (s t : String) → str_lt s t ≡ true → str_lt t s ≡ false
unfolding str_lt
str_lt_asymm [] [] h = ground (arith, nil-nil)
str_lt_asymm [] (d ∷ t) h = ground (arith, cons-nil d t)
str_lt_asymm (c ∷ s) [] h = ground (arith, cons-nil c s)
str_lt_asymm (c ∷ s) (d ∷ t) h =
    ground (arith, cons-cons c d s t, cons-cons d c t s, str_lt_asymm s t)

str_lt_neg_trans : (r s t : String) → str_lt r s ≡ false → str_lt s t ≡ false → str_lt r t ≡ false
unfolding str_lt
str_lt_neg_trans [] [] t h k = k
str_lt_neg_trans [] (d ∷ s) t h k = ground (arith, nil-cons d s)
str_lt_neg_trans (c ∷ r) s [] h k = ground (arith, cons-nil c r)
str_lt_neg_trans (c ∷ r) [] (e ∷ t) h k = ground (arith, nil-cons e t)
str_lt_neg_trans (c ∷ r) (d ∷ s) (e ∷ t) h k =
    ground (arith, cons-cons c d r s, cons-cons d e s t, cons-cons c e r t, str_lt_neg_trans r s t)

pub str_lt-IsWeakOrder : IsWeakOrder str_lt
str_lt-IsWeakOrder = record { asymm = str_lt_asymm; neg_trans = str_lt_neg_trans }
