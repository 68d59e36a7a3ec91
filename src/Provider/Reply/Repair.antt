-- ===== src/Provider/Reply/Repair.antt =====
-- What the repair of a cut reply does to its brackets and its strings, by a reading of its own: brackets
-- nest, `}` closes `{` alone and `]` closes `[` alone, and a string ends at a quote that is not escaped.
use ai_trader.Base.{
  ℕ, ◌≡◌, refl, arith, Bool, true, false, Option, none, some, ◌&&◌, ◌||◌, not, ◌==◌, if◌then◌else◌,
  List, [], ◌∷◌, ◌++◌, map, All, Bool-cases, inl, inr, ap, ◌∙◌,
}
use ai_trader.Provider.Reply.{
  Scan, scan_char, scan, trimmed, is_nil, is_trailing, is_opener, closer_of, closed_string,
  repaired_text, quote, backslash,
}

pub data Mode : Type 0 where
  outside inside escaped : Mode

-- A place in a text: where it stands to a string, and the brackets that are open there, the innermost first
abbrev pub Place : Type 0
Place = Mode × List ℕ

-- The bracket closes the innermost open one, which is of its kind.
abbrev close : ℕ → List ℕ → Option Place
close c [] = none
close c (o ∷ unclosed) =
    if (c == b'}' && o == b'{') || (c == b']' && o == b'[') then some (outside, unclosed) else none

abbrev reads_char : Place → ℕ → Option Place
reads_char (outside, unclosed) c =
    if c == quote
    then some (inside, unclosed)
    else if c == b'{' || c == b'['
    then some (outside, c ∷ unclosed)
    else if c == b'}' || c == b']'
    then close c unclosed
    else some (outside, unclosed)
reads_char (inside, unclosed) c =
    if c == backslash
    then some (escaped, unclosed)
    else if c == quote
    then some (outside, unclosed)
    else some (inside, unclosed)
reads_char (escaped, unclosed) c = some (inside, unclosed)

abbrev pub is_escaped : Mode → Bool
is_escaped escaped = true
is_escaped _ = false

abbrev in_string : Mode → Bool
in_string outside = false
in_string _ = true

-- Where the reading of a text from a place ends, if every closing bracket of it closes one of its kind
unfoldable pub reads : Place → List ℕ → Option Place
reads p [] = some p
reads p (c ∷ cs) = elim (reads_char p c) [ none ↦ none | some q ↦ reads q cs ]

-- The code's scan at a place
abbrev scan_at : Place → Scan
scan_at (m, unclosed) = record { in_str = in_string m; esc = is_escaped m; stack = unclosed }

scan_char-reads_char :
    (p q : Place) (c : ℕ) → reads_char p c ≡ some q → scan_char (scan_at p) c ≡ scan_at q
unfolding scan_char
scan_char-reads_char (outside, []) q c h = ground arith
scan_char-reads_char (outside, o ∷ unclosed) q c h = ground arith
scan_char-reads_char (inside, unclosed) q c h = ground arith
scan_char-reads_char (escaped, unclosed) q c h = ground arith

-- The first character of a text that can be read
reads_first :
    (p q : Place) (c : ℕ) (cs : List ℕ)
    → reads p (c ∷ cs) ≡ some q
    → (r : Place) × (reads_char p c ≡ some r) × (reads r cs ≡ some q)
unfolding reads
reads_first p q c cs h = first_of (reads_char p c) refl h
  where
    first_of :
        (o : Option Place)
        → reads_char p c ≡ o
        → elim o [ none ↦ none | some r ↦ reads r cs ] ≡ some q
        → (r : Place) × (reads_char p c ≡ some r) × (reads r cs ≡ some q)
    first_of none e h = cc
    first_of (some r) e h = (r, e, h)

abbrev or_place : Place → Option Place → Place
or_place p none = p
or_place p (some q) = q

-- The scan of the code ends where the reading ends.
scan-reads : (p q : Place) (xs : List ℕ) → reads p xs ≡ some q → scan (scan_at p) xs ≡ scan_at q
unfolding scan reads
scan-reads p q [] h = ap (λ o. scan_at (or_place p o)) h
scan-reads p q (c ∷ cs) h =
    let (r, e, rest) = reads_first p q c cs h in
    ap (λ s. scan s cs) (scan_char-reads_char p r c e) ∙ scan-reads r q cs rest

reads-append :
    (p q : Place) (xs ys : List ℕ) → reads p xs ≡ some q → reads p (xs ++ ys) ≡ reads q ys
unfolding reads
reads-append p q [] ys h = ap (λ o. reads (or_place p o) ys) h
reads-append p q (c ∷ cs) ys h =
    let (r, e, rest) = reads_first p q c cs h in rw (reads, e) (reads-append r q cs ys rest)

-- A space or a comma that leaves the reading outside of a string left it where it was.
reads_char_trailing :
    (p : Place) (unclosed : List ℕ) (c : ℕ)
    → is_trailing c ≡ true
    → reads_char p c ≡ some (outside, unclosed)
    → p ≡ (outside, unclosed)
reads_char_trailing (outside, unclosed) after c t h = ground arith
reads_char_trailing (inside, unclosed) after c t h = ground arith
reads_char_trailing (escaped, unclosed) after c t h = ground arith

one_more :
    (p : Place) (unclosed : List ℕ) (r : Place) (c : ℕ) (kept : List ℕ)
    → reads_char p c ≡ some r
    → reads r kept ≡ some (outside, unclosed)
    → reads p (if is_nil kept && is_trailing c then [] else c ∷ kept) ≡ some (outside, unclosed)
unfolding reads
one_more p unclosed r c (y ∷ ys) e h = rw (reads, e) h
one_more p unclosed r c [] e h = elim (Bool-cases (is_trailing c)) [
  | inl t ↦ rw t (ap some (reads_char_trailing p unclosed c t (e ∙ h)))
  | inr f ↦ rw f (rw (reads, e) h)
]

-- What the trimming takes off was read without a change.
reads-trimmed :
    (p : Place) (unclosed : List ℕ) (xs : List ℕ)
    → reads p xs ≡ some (outside, unclosed)
    → reads p (trimmed xs) ≡ some (outside, unclosed)
unfolding reads trimmed
reads-trimmed p unclosed [] h = h
reads-trimmed p unclosed (c ∷ cs) h =
    let (r, e, rest) = reads_first p (outside, unclosed) c cs h in
    one_more p unclosed r c (trimmed cs) e (reads-trimmed r unclosed cs rest)

-- Every open bracket is an opening one.
abbrev Openers : List ℕ → Type 0
Openers unclosed = All (λ c. is_opener c ≡ true) unclosed

close-Openers :
    (c : ℕ) (unclosed : List ℕ) (q : Place)
    → Openers unclosed
    → close c unclosed ≡ some q
    → Openers q.1
close-Openers c [] q h e = cc
close-Openers c (o ∷ unclosed) q h e = ground arith

reads_char-Openers : (p q : Place) (c : ℕ) → Openers p.1 → reads_char p c ≡ some q → Openers q.1
reads_char-Openers (outside, unclosed) q c h e = ground arith
reads_char-Openers (inside, unclosed) q c h e = ground arith
reads_char-Openers (escaped, unclosed) q c h e = ground arith

reads-Openers : (p q : Place) (xs : List ℕ) → Openers p.1 → reads p xs ≡ some q → Openers q.1
unfolding reads
reads-Openers p q [] h e = ground arith
reads-Openers p q (c ∷ cs) h e =
    let (r, e1, rest) = reads_first p q c cs e in
    reads-Openers r q cs (reads_char-Openers p r c h e1) rest

-- Outside of a string, the closing brackets of the open ones close them all.
reads-closers :
    (unclosed : List ℕ)
    → Openers unclosed
    → reads (outside, unclosed) (map closer_of unclosed) ≡ some (outside, [])
unfolding reads
reads-closers [] h = refl
reads-closers (o ∷ unclosed) h = ground (arith, reads-closers unclosed h.1)

-- The string that the reading ends in is closed.
reads-closed_string :
    (m : Mode) (unclosed : List ℕ)
    → is_escaped m ≡ false
    → reads (m, unclosed) (closed_string (in_string m)) ≡ some (outside, unclosed)
unfolding reads
reads-closed_string outside unclosed h = refl
reads-closed_string inside unclosed h = refl
reads-closed_string escaped unclosed h = cc

-- The whole repaired text
reads-repaired :
    (fragment : List ℕ) (m : Mode) (unclosed : List ℕ)
    → reads (outside, []) fragment ≡ some (m, unclosed)
    → is_escaped m ≡ false
    → reads
        (outside, [])
        (trimmed (fragment ++ closed_string (in_string m)) ++ map closer_of unclosed)
      ≡ some (outside, [])
reads-repaired fragment m unclosed h e =
    let shut =
      reads-append (outside, []) (m, unclosed) fragment (closed_string (in_string m)) h
      ∙ reads-closed_string m unclosed e in
    reads-append (outside, []) (outside, unclosed)
      (trimmed (fragment ++ closed_string (in_string m))) (map closer_of unclosed)
      (reads-trimmed (outside, []) unclosed (fragment ++ closed_string (in_string m)) shut)
    ∙ reads-closers unclosed (reads-Openers (outside, []) (m, unclosed) fragment tt h)

-- A fragment in which every closing bracket closes one of its kind, and which does not end in the middle of
-- an escape sequence, if it is repaired at all, is repaired to a text that is read to its end with no
-- string and no bracket left open, each bracket closed by one of its kind.
pub repaired_text-closed :
    (fragment repaired : List ℕ) (m : Mode) (unclosed : List ℕ)
    → reads (outside, []) fragment ≡ some (m, unclosed)
    → is_escaped m ≡ false
    → repaired_text fragment ≡ some repaired
    → reads (outside, []) repaired ≡ some (outside, [])
unfolding repaired_text
repaired_text-closed fragment repaired m unclosed h e given =
    let s = scan-reads (outside, []) (m, unclosed) fragment h in
    let whole = reads-repaired fragment m unclosed h e in
    elim (Bool-cases (is_nil unclosed && not (in_string m))) [
      | inl t ↦ let gone = rw (s, t) at given in cc
      | inr f ↦ let found = rw (s, f) at given in cc
    ]
