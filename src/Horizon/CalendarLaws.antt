-- ===== src/Horizon/CalendarLaws.antt =====
-- What a calendar built from rows carries, and how `next_session` walks it.
use ai_trader.Base.{
  ℕ, suc, ◌+◌, ◌≤◌, ◌≡◌, refl, ap, sym, subst, ◌∙◌, Bool, true, false, arith, List, [], ◌∷◌, ◌++◌,
  map, any, any-append, count, count-sorted, count-append, length, get_elem?, first, is_some,
  String, str_eq, eq_iff, Bool-cases, inl, inr, sorted,
}
use ai_trader.Horizon.{
  returns, bind, Hours, Calendar, lookup, from_rows, earlier, index_of, next_session,
}

-- No session stands twice.
abbrev pub IsDistinct : List String → Type 0
IsDistinct xs = (s : String) → count (str_eq s) xs ≤ 1

-- A calendar without repeated sessions, that knows the open and the close of each
pub record IsCalendar (cal : Calendar) : Type 0 where
  pub distinct : IsDistinct cal.sessions
  pub has_open :
      (s : String) → any (str_eq s) cal.sessions ≡ true → is_some (lookup cal.opens s) ≡ true
  pub has_close :
      (s : String) → any (str_eq s) cal.sessions ≡ true → is_some (lookup cal.closes s) ≡ true
  pub closes_known :
      (s : String) → is_some (lookup cal.closes s) ≡ true → any (str_eq s) cal.sessions ≡ true

pub str_eq_refl : (s : String) → str_eq s s ≡ true
str_eq_refl s = (eq_iff s s).1 refl

str_eq_comm : (s t : String) → str_eq s t ≡ str_eq t s
str_eq_comm s t = elim (Bool-cases (str_eq s t)) [
  | inl e ↦ e ∙ sym ((eq_iff t s).1 (sym ((eq_iff s t).0 e)))
  | inr e ↦ elim (Bool-cases (str_eq t s)) [
    | inl f ↦ cc ((eq_iff s t).1 (sym ((eq_iff t s).0 f)))
    | inr f ↦ e ∙ sym f
  ]
]

count-map :
    (p : String → Bool) (rows : List Hours)
    → count p (map (λ r. r.session) rows) ≡ count (λ r. p r.session) rows
count-map p [] = refl
count-map p (r ∷ rows) = ground (arith, count-map p rows)

lookup-map :
    (f : Hours → String) (s : String) (rows : List Hours)
    → any (str_eq s) (map (λ r. r.session) rows) ≡ true
    → is_some (lookup (map (λ r. (r.session, f r)) rows) s) ≡ true
lookup-map f s [] h = cc h
lookup-map f s (r ∷ rows) h = elim (Bool-cases (any (str_eq s) (map (λ r. r.session) rows))) [
  | inl later ↦ ground (arith, lookup-map f s rows later)
  | inr last ↦ ground (arith, str_eq_comm s r.session)
]

map-lookup :
    (f : Hours → String) (s : String) (rows : List Hours)
    → is_some (lookup (map (λ r. (r.session, f r)) rows) s) ≡ true
    → any (str_eq s) (map (λ r. r.session) rows) ≡ true
map-lookup f s [] h = cc h
map-lookup f s (r ∷ rows) h = ground (arith, map-lookup f s rows, str_eq_comm s r.session)

-- Rows that name no session twice make a calendar that knows the hours of each of its sessions.
pub from_rows-IsCalendar :
    (rows : List Hours)
    → ((s : String) → count (λ r. str_eq s r.session) rows ≤ 1)
    → IsCalendar (from_rows rows)
unfolding from_rows
from_rows-IsCalendar rows once = record {
  distinct = λ s.
      subst (λ n. n ≤ 1)
        (sym (
          count-map (str_eq s) (sorted earlier rows)
          ∙ count-sorted earlier (λ r. str_eq s r.session) rows))
        (once s);
  has_open = λ s. lookup-map (λ r. r.open_time) s (sorted earlier rows);
  has_close = λ s. lookup-map (λ r. r.close_time) s (sorted earlier rows);
  closes_known = λ s. map-lookup (λ r. r.close_time) s (sorted earlier rows);
}

index_of-append :
    (before : List String) (s : String) (rest : List String)
    → any (str_eq s) before ≡ false
    → index_of (before ++ s ∷ rest) s ≡ returns (length before)
index_of-append [] s rest h = rw (str_eq_refl s) refl
index_of-append (x ∷ before) s rest h =
    ground (arith, str_eq_comm s x, index_of-append before s rest)

get_elem?-append :
    (before : List String) (s : String) (rest : List String)
    → get_elem? (before ++ s ∷ rest) (length before + 1) ≡ first rest
get_elem?-append [] s [] = refl
get_elem?-append [] s (y ∷ rest) = refl
get_elem?-append (x ∷ before) s rest =
    ap (get_elem? (x ∷ (before ++ s ∷ rest))) (suc_comm (length before))
    ∙ get_elem?-append before s rest
  where
    suc_comm : (n : ℕ) → suc n + 1 ≡ suc (n + 1)
    suc_comm n = omega arith

before-none :
    (before : List String) (s : String) (rest : List String)
    → IsDistinct (before ++ s ∷ rest)
    → any (str_eq s) before ≡ false
before-none before s rest once = elim (Bool-cases (any (str_eq s) before)) [
  | inl e ↦ absurd (
      ground (
        arith,
        once s,
        str_eq_refl s,
        count-append (str_eq s) before (s ∷ rest),
        any-count before e,
      ))
  | inr e ↦ e
]
  where
    any-count : (xs : List String) → any (str_eq s) xs ≡ true → 1 ≤ count (str_eq s) xs
    any-count [] h = cc h
    any-count (x ∷ xs) h = ground (arith, any-count xs)

-- In a calendar without repeated sessions, `next_session` gives the session that follows.
pub next_session-append :
    (cal : Calendar) (before : List String) (s : String) (rest : List String)
    → IsDistinct cal.sessions
    → cal.sessions ≡ before ++ s ∷ rest
    → next_session cal s ≡ returns (first rest)
unfolding next_session
next_session-append cal before s rest once eq =
    ap (λ xs. bind (index_of xs s) (λ i. returns (get_elem? xs (i + 1)))) eq
    ∙ ap (λ r. bind r (λ i. returns (get_elem? (before ++ s ∷ rest) (i + 1))))
        (index_of-append before s rest (before-none before s rest (subst IsDistinct eq once)))
    ∙ ap returns (get_elem?-append before s rest)

-- The session itself stands in such a list.
pub any-middle :
    (before : List String) (s : String) (rest : List String)
    → any (str_eq s) (before ++ s ∷ rest) ≡ true
any-middle before s rest = ground (arith, str_eq_refl s, any-append (str_eq s) before (s ∷ rest))

-- A list with the session splits around it.
pub split_at :
    (s : String) (xs : List String)
    → any (str_eq s) xs ≡ true
    → (before rest : List String) × (xs ≡ before ++ s ∷ rest)
split_at s [] h = cc h
split_at s (x ∷ xs) h = elim (Bool-cases (str_eq s x)) [
  | inl e ↦ ([], xs, ap (λ y. y ∷ xs) (sym ((eq_iff s x).0 e)))
  | inr e ↦
      let (before, rest, eq) = split_at s xs (ground arith) in
      (x ∷ before, rest, ap (λ ys. x ∷ ys) eq)
]
