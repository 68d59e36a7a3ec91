-- ===== src/Provider/Reply/Settled.antt =====
-- The scan of a reply for its objects ends: its fuel is more than it needs.
use ai_trader.Base.{
  ℕ, zero, suc, ◌<◌, ◌≤◌, ◌≡◌, refl, arith, Option, none, some, ◌==◌, List, [], ◌∷◌, drop, length,
  length-drop, Bool-cases, inl, inr, ap,
}
use ai_trader.Provider.Reply.{Decoder, from_brace, objects_in, with_object, after_decode, decoded}

-- What is found starts inside the text.
unfoldable Found : List ℕ → Option (List ℕ) → Type 0
Found text none = Unit
Found text (some []) = ⊥
Found text (some (c ∷ cs)) = length cs < length text

-- A longer text holds what a shorter one does.
Found-cons :
    (c : ℕ) (text : List ℕ) (found : Option (List ℕ)) → Found text found → Found (c ∷ text) found
unfolding Found
Found-cons c text none h = h
Found-cons c text (some []) h = h
Found-cons c text (some (d ∷ ds)) h = omega arith

from_brace-Found : (text : List ℕ) → Found text (from_brace text)
unfolding from_brace Found
from_brace-Found [] = tt
from_brace-Found (c ∷ cs) = elim (Bool-cases (c == b'{')) [
  | inl t ↦ rw t (omega arith)
  | inr f ↦ rw f (Found-cons c cs (from_brace cs) (from_brace-Found cs))
]

-- To go past one character at least leaves less.
drop-less : (n c : ℕ) (cs : List ℕ) → 0 < n → length (drop n (c ∷ cs)) ≤ length cs
drop-less zero c cs h = omega arith
drop-less (suc n) c cs h = length-drop n cs

module _ {O : Type 0} (json : Decoder O) where
  after_decode-positive : (d : Option (Option O × ℕ)) → 0 < after_decode json d
  after_decode-positive none = omega arith
  after_decode-positive (some (o, end)) = omega arith

  -- One step: what follows a bracket, on any two amounts of fuel
  objects_step :
      (f g : ℕ) (text : List ℕ) (found : Option (List ℕ))
      → Found text found
      → ((rest : List ℕ)
          → length rest < length text
          → objects_in json f rest ≡ objects_in json g rest)
      → from_brace text ≡ found
      → objects_in json (suc f) text ≡ objects_in json (suc g) text
  unfolding Found objects_in
  objects_step f g text none h ih e = rw (e, objects_in) refl
  objects_step f g text (some []) h ih e = elim h [ ]
  objects_step f g text (some (c ∷ cs)) h ih e =
      let d = json.raw_decode (c ∷ cs) in
      let less = drop-less (after_decode json d) c cs (after_decode-positive d) in
      rw (e, objects_in)
        (ap (with_object json (decoded json d))
          (ih (drop (after_decode json d) (c ∷ cs)) (omega (arith, less, h))))

  two_fuels :
      (f g : ℕ) (text : List ℕ)
      → length text < f
      → length text < g
      → objects_in json f text ≡ objects_in json g text
  two_fuels zero g text p q = ground arith
  two_fuels (suc f) zero text p q = ground arith
  two_fuels (suc f) (suc g) text p q =
      objects_step f g text (from_brace text) (from_brace-Found text)
        (λ rest less. two_fuels f g rest (omega arith) (omega arith)) refl

  -- Any fuel above the length of the text collects the same objects as the fuel that the model gives: no
  -- object is lost to it, whatever the decoder answers.
  pub objects_in-settled :
      (fuel : ℕ) (text : List ℕ)
      → length text < fuel
      → objects_in json fuel text ≡ objects_in json (suc (length text)) text
  objects_in-settled fuel text h = two_fuels fuel (suc (length text)) text h (omega arith)
