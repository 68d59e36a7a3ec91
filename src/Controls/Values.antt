-- ===== src/Controls/Values.antt =====
-- The values of controls.json and of the configuration, and what api_server/controls.py does with one:
-- bool, int, float, _clamp_int and _clamp_float. No number is infinite or beyond the range of a float.
use ai_trader.Base.{
  ℕ, min, max, Bool, true, false, Option, none, some, not, ◌==◌, if◌then◌else◌, List, [], ◌∷◌,
  Float, at_least, at_most, ℤ, pos, negsuc, at_least_zero, String, str_eq, is_text,
}

-- A value inside a block; of one that holds others it is known whether it is empty.
pub data Scalar (X : Type 0) : Type 0 where
  null : Scalar X
  boolean : Bool → Scalar X
  integer : ℤ → Scalar X
  real : X → Scalar X
  text : String → Scalar X
  container : Bool → Scalar X

abbrev pub Block : Type 0 → Type 0
Block X = List (String × Scalar X)

pub data Value (X : Type 0) : Type 0 where
  scalar : Scalar X → Value X
  block : Block X → Value X

abbrev pub Object : Type 0 → Type 0
Object X = List (String × Value X)

-- What `json.load` of the control file comes to: no JSON, an object, or something else
pub data Saved (X : Type 0) : Type 0 where
  unreadable : Saved X
  object : Object X → Saved X
  other : Scalar X → Saved X

-- `d.get(key)`
unfoldable pub get : {A : Type 0} → String → List (String × A) → Option A
get key [] = none
get key ((k, v) ∷ rest) = let found = get key rest in if str_eq key k then some v else found

-- `saved.get(name)`, if it is a dict
abbrev pub block_of : {X : Type 0} → Option (Value X) → Option (Block X)
block_of none = none
block_of (some (scalar v)) = none
block_of (some (block b)) = some b

-- The language's conversions
pub record Conversions (X : Type 0) : Type 0 where
  pub truncate : X → ℤ
  pub int_of_text : String → Option ℤ
  pub float_of_int : ℤ → X
  pub float_of_text : String → Option X
  pub is_zero : X → Bool

abbrev pub is_nothing : {A : Type 0} → List A → Bool
is_nothing [] = true
is_nothing (x ∷ xs) = false

module _ {X : Type 0} (py : Conversions X) where
  -- `bool(v)`
  abbrev pub truth : Scalar X → Bool
  truth null = false
  truth (boolean b) = b
  truth (integer (pos n)) = not (n == 0)
  truth (integer (negsuc n)) = true
  truth (real x) = not (py.is_zero x)
  truth (text s) = is_text s
  truth (container empty) = not empty

  abbrev pub truth_of : Value X → Bool
  truth_of (scalar v) = truth v
  truth_of (block b) = not (is_nothing b)

  -- `int(v)`, if it raises no TypeError or ValueError
  abbrev pub int_of : Scalar X → Option ℤ
  int_of null = none
  int_of (boolean b) = some (pos (if b then 1 else 0))
  int_of (integer n) = some n
  int_of (real x) = some (py.truncate x)
  int_of (text s) = py.int_of_text s
  int_of (container empty) = none

  -- `float(v)`, likewise
  abbrev pub float_of : Scalar X → Option X
  float_of null = none
  float_of (boolean b) = some (py.float_of_int (pos (if b then 1 else 0)))
  float_of (integer n) = some (py.float_of_int n)
  float_of (real x) = some x
  float_of (text s) = py.float_of_text s
  float_of (container empty) = none

-- `max(lo, min(hi, v))`; the bounds are not negative
abbrev pub within : ℕ → ℕ → ℤ → ℕ
within lo hi n = max lo (min hi (at_least_zero n))

-- `_clamp_int`, of what `int(v)` gives
abbrev pub clamp_int : Option ℤ → ℕ → ℕ → ℕ
clamp_int none lo hi = within lo hi (pos lo)
clamp_int (some n) lo hi = within lo hi n

-- `_clamp_float`, of what `float(v)` gives
abbrev pub clamp_float : {X : Type 0} → ⦃fl : Float X⦄ → Option X → X → X → X
clamp_float none lo hi = lo
clamp_float (some x) lo hi = at_least lo (at_most hi x)
