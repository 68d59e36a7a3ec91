-- ===== src/Watchdog/Feed/Laws.antt =====
-- What makes the feed healthy, symbol by symbol, without the loop and its lists.
use ai_trader.Base.{
  ◌≡◌, ◌↔◌, ◌⊎◌, refl, arith, Bool, true, false, Option, none, some, ◌&&◌, ◌||◌, not, if◌then◌else◌,
  List, [], ◌∷◌, ◌++◌, any, all, keep, String, is_text, append_middle, sym, append-nil, ◌∙◌, ap,
}
use ai_trader.Universe.{is_real}
use ai_trader.Watchdog.Feed.{
  BarRow, FeedEnv, Feed, row_of, has_source_column, aged_within, source_or, report_unavailable,
  report_unreadable, judge_row, judge, visit, visit_all, is_empty, summarise, feed_ok, no_feed,
  add_if,
}

-- A row whose timestamp can be read
abbrev dated : Option BarRow → Option BarRow
dated none = none
dated (some row) = if is_text row.timestamp then some row else none

-- The row that a polled symbol with a real history is judged by
abbrev pub judged_row : FeedEnv → String → Option BarRow
judged_row env sym =
    if (env.is_pair sym || env.equities_open) && env.symbol_is_tradeable sym
    then dated (row_of (env.newest sym))
    else none

abbrev pub at_row : (BarRow → Bool) → Option BarRow → Bool
at_row p none = false
at_row p (some row) = p row

abbrev on_time : FeedEnv → BarRow → Bool
on_time env row = aged_within (env.age_of row.timestamp) env.threshold

abbrev real_row : BarRow → Bool
real_row row = is_real (source_or "unknown" row.source)

-- The symbol's newest bar is too old.
abbrev pub is_stale : FeedEnv → String → Bool
is_stale env sym = at_row (λ row. not (on_time env row)) (judged_row env sym)

-- The symbol receives real bars on time.
abbrev pub is_served : FeedEnv → String → Bool
is_served env sym = at_row (λ row. on_time env row && real_row row) (judged_row env sym)

-- The symbol's newest bar is not real and inside the recency window.
abbrev pub is_substituted : FeedEnv → String → Bool
is_substituted env sym =
    at_row (λ row. not (real_row row) && aged_within (env.age_of row.timestamp) env.recency)
      (judged_row env sym)

-- The query of the symbol's newest row knew the column `source`.
abbrev pub has_column : FeedEnv → String → Bool
has_column env sym = has_source_column (env.newest sym)

visit-stale :
    (env : FeedEnv) (f : Feed) (sym : String)
    → (visit env f sym).stale_symbols ≡ add_if (is_stale env sym) f.stale_symbols sym
unfolding visit judge judge_row report_unavailable report_unreadable
visit-stale env f sym = ground arith

visit-serving :
    (env : FeedEnv) (f : Feed) (sym : String)
    → (visit env f sym).serving_symbols ≡ add_if (is_served env sym) f.serving_symbols sym
unfolding visit judge judge_row report_unavailable report_unreadable
visit-serving env f sym = ground arith

visit-non_real :
    (env : FeedEnv) (f : Feed) (sym : String)
    → f.provenance_checked ≡ true
    → has_column env sym ≡ true
    → (visit env f sym).non_real_symbols ≡ add_if (is_substituted env sym) f.non_real_symbols sym
unfolding visit judge judge_row report_unavailable report_unreadable
visit-non_real env f sym h k = ground arith

visit-provenance :
    (env : FeedEnv) (f : Feed) (sym : String)
    → f.provenance_checked ≡ true
    → has_column env sym ≡ true
    → (visit env f sym).provenance_checked ≡ true
unfolding visit judge judge_row report_unavailable report_unreadable
visit-provenance env f sym h k = ground arith

pub add_if-append :
    (b : Bool) (xs : List String) (x : String) (rest : List String)
    → add_if b xs x ++ rest ≡ xs ++ (if b then x ∷ rest else rest)
add_if-append true xs x rest = sym (append_middle xs x rest)
add_if-append false xs x rest = refl

visit_all-stale :
    (env : FeedEnv) (f : Feed) (syms : List String)
    → (visit_all env f syms).stale_symbols ≡ f.stale_symbols ++ keep (is_stale env) syms
unfolding visit_all
visit_all-stale env f [] = sym (append-nil f.stale_symbols)
visit_all-stale env f (s ∷ rest) =
    visit_all-stale env (visit env f s) rest
    ∙ ap (λ xs. xs ++ keep (is_stale env) rest) (visit-stale env f s)
    ∙ add_if-append (is_stale env s) f.stale_symbols s (keep (is_stale env) rest)

visit_all-serving :
    (env : FeedEnv) (f : Feed) (syms : List String)
    → (visit_all env f syms).serving_symbols ≡ f.serving_symbols ++ keep (is_served env) syms
unfolding visit_all
visit_all-serving env f [] = sym (append-nil f.serving_symbols)
visit_all-serving env f (s ∷ rest) =
    visit_all-serving env (visit env f s) rest
    ∙ ap (λ xs. xs ++ keep (is_served env) rest) (visit-serving env f s)
    ∙ add_if-append (is_served env s) f.serving_symbols s (keep (is_served env) rest)

visit_all-non_real :
    (env : FeedEnv) (f : Feed) (syms : List String)
    → f.provenance_checked ≡ true
    → all (has_column env) syms ≡ true
    → (visit_all env f syms).non_real_symbols ≡ f.non_real_symbols ++ keep (is_substituted env) syms
unfolding visit_all
visit_all-non_real env f [] h k = sym (append-nil f.non_real_symbols)
visit_all-non_real env f (s ∷ rest) h k =
    let at_s : has_column env s ≡ true = ground arith in
    let at_rest : all (has_column env) rest ≡ true = ground arith in
    visit_all-non_real env (visit env f s) rest (visit-provenance env f s h at_s) at_rest
    ∙ ap (λ xs. xs ++ keep (is_substituted env) rest) (visit-non_real env f s h at_s)
    ∙ add_if-append (is_substituted env s) f.non_real_symbols s (keep (is_substituted env) rest)

pub visit_all-provenance :
    (env : FeedEnv) (f : Feed) (syms : List String)
    → f.provenance_checked ≡ true
    → all (has_column env) syms ≡ true
    → (visit_all env f syms).provenance_checked ≡ true
unfolding visit_all
visit_all-provenance env f [] h k = h
visit_all-provenance env f (s ∷ rest) h k =
    let at_s : has_column env s ≡ true = ground arith in
    let at_rest : all (has_column env) rest ≡ true = ground arith in
    visit_all-provenance env (visit env f s) rest (visit-provenance env f s h at_s) at_rest

is_empty-keep : (p : String → Bool) (syms : List String) → is_empty (keep p syms) ≡ not (any p syms)
is_empty-keep p [] = refl
is_empty-keep p (s ∷ rest) = ground (arith, is_empty-keep p rest)

-- The dict `out` at the start of the loop
abbrev pub start : Feed
start = record no_feed { provenance_checked = true }

abbrev after_loop : FeedEnv → Feed
after_loop env = visit_all env start env.symbols

after_loop-stale :
    (env : FeedEnv) → is_empty (after_loop env).stale_symbols ≡ not (any (is_stale env) env.symbols)
after_loop-stale env =
    ap is_empty (visit_all-stale env start env.symbols) ∙ is_empty-keep (is_stale env) env.symbols

after_loop-serving :
    (env : FeedEnv)
    → is_empty (after_loop env).serving_symbols ≡ not (any (is_served env) env.symbols)
after_loop-serving env =
    ap is_empty (visit_all-serving env start env.symbols)
    ∙ is_empty-keep (is_served env) env.symbols

pub after_loop-non_real :
    (env : FeedEnv)
    → all (has_column env) env.symbols ≡ true
    → is_empty (after_loop env).non_real_symbols ≡ not (any (is_substituted env) env.symbols)
after_loop-non_real env k =
    ap is_empty (visit_all-non_real env start env.symbols refl k)
    ∙ is_empty-keep (is_substituted env) env.symbols

-- Where provenance is checked throughout, the loop and its lists come to three tests on symbols.
pub feed_ok_value :
    (env : FeedEnv)
    → env.connects ≡ true
    → env.real_path ≡ true
    → all (has_column env) env.symbols ≡ true
    → (feed_ok env).ok ≡ (
        not (any (is_substituted env) env.symbols)
        && (not (any (is_stale env) env.symbols) || any (is_served env) env.symbols))
unfolding feed_ok summarise
feed_ok_value env c r k =
    let provenance = visit_all-provenance env start env.symbols refl k in
    ground (
      arith,
      c,
      r,
      after_loop-stale env,
      after_loop-serving env,
      after_loop-non_real env k,
      provenance,
    )

-- Where every query of a newest row knew the column `source`, a database that opens on the real path
-- gives a healthy feed exactly when no polled symbol with a real history is substituted, and either
-- none of them is stale or at least one is served real bars on time.
pub feed_ok_iff :
    (env : FeedEnv)
    → env.connects ≡ true
    → env.real_path ≡ true
    → all (has_column env) env.symbols ≡ true
    → ((feed_ok env).ok ≡ true) ↔ (
        (any (is_substituted env) env.symbols ≡ false)
        × ((any (is_stale env) env.symbols ≡ false) ⊎ (any (is_served env) env.symbols ≡ true)))
feed_ok_iff env c r k = (
  λ h. ground (arith, h, feed_ok_value env c r k),
  λ h. ground (arith, h, feed_ok_value env c r k),
)
