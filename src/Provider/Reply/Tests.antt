-- ===== src/Provider/Reply/Tests.antt =====
-- The extraction at replies that were cut off.
use ai_trader.Base.{
  ℕ, suc, ◌≡◌, refl, arith, ◌==◌, if◌then◌else◌, Option, none, some, List, [], ◌∷◌, length,
}
use ai_trader.Provider.Reply.{Decoder, repaired_text, objects_in, extract_json_object}
use ai_trader.Provider.Reply.Repair.{outside, inside, reads, repaired_text-closed}
use ai_trader.Provider.Reply.Settled.{objects_in-settled}

-- `{"a":["b`, cut inside a string
abbrev cut : List ℕ
cut = b'{' ∷ b'"' ∷ b'a' ∷ b'"' ∷ b':' ∷ b'[' ∷ b'"' ∷ b'b' ∷ []

-- `{"a":["b"]}`
abbrev repaired : List ℕ
repaired = b'{' ∷ b'"' ∷ b'a' ∷ b'"' ∷ b':' ∷ b'[' ∷ b'"' ∷ b'b' ∷ b'"' ∷ b']' ∷ b'}' ∷ []

-- `{"a",  `, cut after a comma
abbrev cut_at_comma : List ℕ
cut_at_comma = b'{' ∷ b'"' ∷ b'a' ∷ b'"' ∷ b',' ∷ b' ' ∷ []

repaired_text-cut : repaired_text cut ≡ some repaired
unfolding repaired_text
repaired_text-cut = refl

repaired_text-cut_at_comma :
    repaired_text cut_at_comma ≡ some (b'{' ∷ b'"' ∷ b'a' ∷ b'"' ∷ b'}' ∷ [])
unfolding repaired_text
repaired_text-cut_at_comma = refl

reads-cut : reads (outside, []) cut ≡ some (inside, b'[' ∷ b'{' ∷ [])
unfolding reads
reads-cut = refl

-- `[}` is not read.
reads-crossed : reads (outside, []) (b'[' ∷ b'}' ∷ []) ≡ none
unfolding reads
reads-crossed = refl

repaired_text-closed_example : reads (outside, []) repaired ≡ some (outside, [])
repaired_text-closed_example =
    repaired_text-closed cut repaired inside (b'[' ∷ b'{' ∷ []) reads-cut refl repaired_text-cut

-- A decoder of `{}` alone, whose object is its length
abbrev raw_empty : List ℕ → Option (Option ℕ × ℕ)
raw_empty (a ∷ b ∷ rest) = if b == b'}' then some (some 2, 2) else none
raw_empty [] = none
raw_empty (a ∷ []) = none

abbrev json : Decoder ℕ
json = record { loads = λ t. none; raw_decode = raw_empty; keys = λ o. [] }

-- `{{}`
abbrev nested : List ℕ
nested = b'{' ∷ b'{' ∷ b'}' ∷ []

nested_found : extract_json_object json nested ≡ some 2
unfolding extract_json_object
nested_found = refl

objects_in-settled_example : objects_in json 9 nested ≡ objects_in json (suc (length nested)) nested
objects_in-settled_example = objects_in-settled json 9 nested (omega arith)
