-- ===== src/Universe/Text.antt =====
-- market_data/universe.py, the parsing of a comma-separated whitelist, and the slash that
-- market_data/tradeable.py looks for: `split`, `strip` and `in` on texts, by code points.
use Prim.Native.Char.{Char, code}
use ai_trader.Base.{
  ℕ, Bool, false, ◌&&◌, ◌||◌, not, leb, ◌==◌, if◌then◌else◌, List, [], ◌∷◌, String, is_text,
  str_append,
}

-- `c in s`, for the character of a code
abbrev pub has_code : ℕ → String → Bool
has_code n String.[] = false
has_code n (String.◌∷◌ c s) = code c == n || has_code n s

-- `"/" in s`
abbrev pub has_slash : String → Bool
has_slash s = has_code 47 s

-- The characters that `str.strip` takes for white space
abbrev pub is_space : Char → Bool
is_space c =
    let n = code c in
    leb 9 n && leb n 13
    || leb 28 n && leb n 32
    || n == 133
    || n == 160
    || n == 5760
    || leb 8192 n && leb n 8202
    || n == 8232
    || n == 8233
    || n == 8239
    || n == 8287
    || n == 12288

abbrev pub strip_left : String → String
strip_left String.[] = String.[]
strip_left (String.◌∷◌ c s) = let rest = strip_left s in if is_space c then rest else String.◌∷◌ c s

abbrev pub strip_right : String → String
strip_right String.[] = String.[]
strip_right (String.◌∷◌ c s) =
    let rest = strip_right s in
    if is_space c && not (is_text rest) then String.[] else String.◌∷◌ c rest

abbrev pub strip : String → String
strip s = strip_right (strip_left s)

-- `s.split(",")`, of which the first piece starts with what was read before
unfoldable pub pieces : String → String → List String
pieces before String.[] = before ∷ []
pieces before (String.◌∷◌ c s) =
    if code c == 44
    then before ∷ pieces String.[] s
    else pieces (str_append before (String.◌∷◌ c String.[])) s

-- `key.rsplit(":", 1)[0]`
abbrev pub key_symbol : String → String
key_symbol String.[] = String.[]
key_symbol (String.◌∷◌ c s) =
    let rest = key_symbol s in
    if code c == 58 && not (has_code 58 s) then String.[] else String.◌∷◌ c rest
