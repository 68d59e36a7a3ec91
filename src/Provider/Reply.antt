-- ===== src/Provider/Reply.antt =====
-- llm_consensus/http_json.py: extract_json_object and _repair_object. A text is the list of its code
-- points; the JSON decoder is an argument.
pub mod Repair
pub mod Settled
mod Tests
use ai_trader.Base.{
  ℕ, zero, suc, ◌+◌, Bool, true, false, Option, none, some, ◌&&◌, ◌||◌, not, ◌==◌, leb,
  if◌then◌else◌, List, [], ◌∷◌, ◌++◌, map, any, keep, drop, first, last, length, max, String,
  str_eq, is_some,
}

abbrev pub quote : ℕ
quote = b'"'

abbrev pub backslash : ℕ
backslash = b'\\'

abbrev pub is_opener : ℕ → Bool
is_opener c = c == b'{' || c == b'['

abbrev pub is_closer : ℕ → Bool
is_closer c = c == b'}' || c == b']'

-- `str.isspace`, on one code point
abbrev pub is_space : ℕ → Bool
is_space c =
    (leb 9 c && leb c 13)
    || (leb 28 c && leb c 32)
    || any (λ s. c == s) (133 ∷ 160 ∷ 5760 ∷ 8232 ∷ 8233 ∷ 8239 ∷ 8287 ∷ 12288 ∷ [])
    || (leb 8192 c && leb c 8202)

-- The variables of the scan; the innermost bracket stands first
pub record Scan : Type 0 where
  pub in_str : Bool
  pub esc : Bool
  pub stack : List ℕ

abbrev pub start : Scan
start = record { in_str = false; esc = false; stack = [] }

abbrev pub pop : List ℕ → List ℕ
pop [] = []
pop (c ∷ rest) = rest

unfoldable pub scan_char : Scan → ℕ → Scan
scan_char s c =
    if s.esc
    then record s { esc = false }
    else if s.in_str
    then (if c == backslash
        then record s { esc = true }
        else if c == quote
        then record s { in_str = false }
        else s)
    else if c == quote
    then record s { in_str = true }
    else if is_opener c
    then record s { stack = c ∷ s.stack }
    else if is_closer c
    then record s { stack = pop s.stack }
    else s

unfoldable pub scan : Scan → List ℕ → Scan
unfolding scan_char
scan s [] = s
scan s (c ∷ cs) = scan (scan_char s c) cs

-- A space or a comma: what `rstrip` and the loop over trailing commas take off together
abbrev pub is_trailing : ℕ → Bool
is_trailing c = is_space c || c == b','

abbrev pub is_nil : List ℕ → Bool
is_nil [] = true
is_nil (c ∷ cs) = false

unfoldable pub trimmed : List ℕ → List ℕ
trimmed [] = []
trimmed (c ∷ cs) = let rest = trimmed cs in if is_nil rest && is_trailing c then [] else c ∷ rest

abbrev pub closer_of : ℕ → ℕ
closer_of c = if c == b'{' then b'}' else b']'

abbrev pub closed_string : Bool → List ℕ
closed_string in_str = if in_str then quote ∷ [] else []

-- The text that `_repair_object` hands to the decoder, if there is something to close
unfoldable pub repaired_text : List ℕ → Option (List ℕ)
unfolding scan trimmed
repaired_text fragment =
    let s = scan start fragment in
    if is_nil s.stack && not s.in_str
    then none
    else some (trimmed (fragment ++ closed_string s.in_str) ++ map closer_of s.stack)

-- The suffix from the first `{` on
pub from_brace : List ℕ → Option (List ℕ)
from_brace [] = none
from_brace (c ∷ cs) = let rest = from_brace cs in if c == b'{' then some (c ∷ cs) else rest

-- The JSON decoder: `loads`, where it gives a dict, and `raw_decode`, with the dict that it gives, if
-- it is one, and the end of what was decoded
pub record Decoder (O : Type 0) : Type 0 where
  pub loads : List ℕ → Option O
  pub raw_decode : List ℕ → Option (Option O × ℕ)
  pub keys : O → List String

abbrev pub verdict_hints : List String
verdict_hints = "direction" ∷ "confidence" ∷ "edge" ∷ "bias" ∷ "proceed" ∷ "review" ∷ []

module _ {O : Type 0} (json : Decoder O) where
  -- `any(k in obj for k in _VERDICT_HINTS)`
  abbrev pub has_hint : O → Bool
  has_hint obj = any (λ k. any (str_eq k) (json.keys obj)) verdict_hints

  abbrev pub with_object : Option O → List O → List O
  with_object none rest = rest
  with_object (some o) rest = o ∷ rest

  -- The objects that the scan over the text collects, and what is left of the text after one of them
  abbrev pub after_decode : Option (Option O × ℕ) → ℕ
  after_decode none = 1
  after_decode (some (o, end)) = max end 1

  abbrev pub decoded : Option (Option O × ℕ) → Option O
  decoded none = none
  decoded (some (o, end)) = o

  unfoldable pub objects_in : ℕ → List ℕ → List O
  unfolding from_brace
  objects_in zero text = []
  objects_in (suc fuel) text = elim (from_brace text) [
    | none ↦ []
    | some found ↦
        let d = json.raw_decode found in
        with_object (decoded d) (objects_in fuel (drop (after_decode d) found))
  ]

  -- The object that looks like a verdict, else the last
  abbrev pub preferred : List O → Option O
  preferred objs = elim (first (keep has_hint objs)) [ none ↦ last objs | some o ↦ some o ]

  abbrev pub repair_object : List ℕ → Option O
  repair_object fragment = elim (repaired_text fragment) [
    | none ↦ none
    | some text ↦ json.loads text
  ]

  unfoldable pub extract_json_object : List ℕ → Option O
  unfolding objects_in repaired_text
  extract_json_object text = if is_nil text then none else elim (json.loads text) [
    | some o ↦ some o
    | none ↦ elim (objects_in (suc (length text)) text) [
      | o ∷ rest ↦ preferred (o ∷ rest)
      | [] ↦ elim (from_brace text) [ none ↦ none | some found ↦ repair_object found ]
    ]
  ]
