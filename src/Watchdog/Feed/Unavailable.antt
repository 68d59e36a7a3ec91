-- ===== src/Watchdog/Feed/Unavailable.antt =====
-- The symbols that the feed reports as unavailable, without the loop.
use ai_trader.Base.{
  ◌≡◌, sym, ◌∙◌, ap, arith, Bool, true, not, ◌&&◌, ◌||◌, List, [], ◌∷◌, ◌++◌, keep, String,
  append-nil,
}
use ai_trader.Watchdog.Feed.{
  FeedEnv, Feed, add_if, report_unavailable, report_unreadable, judge_row, judge, visit, visit_all,
  feed_ok, summarise, no_feed,
}
use ai_trader.Watchdog.Feed.Laws.{add_if-append}

-- The symbol is polled now and has no real history.
abbrev pub is_unavailable : FeedEnv → String → Bool
is_unavailable env sym = (env.is_pair sym || env.equities_open) && not (env.symbol_is_tradeable sym)

visit-unavailable :
    (env : FeedEnv) (f : Feed) (sym : String)
    → (visit env f sym).unavailable_symbols
      ≡ add_if (is_unavailable env sym) f.unavailable_symbols sym
unfolding visit judge judge_row report_unavailable report_unreadable
visit-unavailable env f sym = ground arith

pub visit_all-unavailable :
    (env : FeedEnv) (f : Feed) (symbols : List String)
    → (visit_all env f symbols).unavailable_symbols
      ≡ f.unavailable_symbols ++ keep (is_unavailable env) symbols
unfolding visit_all
visit_all-unavailable env f [] = sym (append-nil f.unavailable_symbols)
visit_all-unavailable env f (s ∷ rest) =
    visit_all-unavailable env (visit env f s) rest
    ∙ ap (λ xs. xs ++ keep (is_unavailable env) rest) (visit-unavailable env f s)
    ∙ add_if-append (is_unavailable env s) f.unavailable_symbols s (keep (is_unavailable env) rest)

-- A database that opens gives exactly the polled symbols without a real history, in their order.
pub feed_ok-unavailable :
    (env : FeedEnv)
    → env.connects ≡ true
    → (feed_ok env).unavailable_symbols ≡ keep (is_unavailable env) env.symbols
unfolding feed_ok summarise
feed_ok-unavailable env c =
    rw c (visit_all-unavailable env (record no_feed { provenance_checked = true }) env.symbols)
