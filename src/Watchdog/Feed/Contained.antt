-- ===== src/Watchdog/Feed/Contained.antt =====
-- Symbols without a real history have no part in the feed's health.
use ai_trader.Base.{◌≡◌, refl, sym, ◌∙◌, arith, Bool, true, List, [], ◌∷◌, any, all, keep, String}
use ai_trader.Watchdog.Feed.{BarRow, FeedEnv, summarise, feed_ok, feed_substitution}
use ai_trader.Watchdog.Feed.Laws.{
  judged_row, at_row, is_stale, is_served, is_substituted, has_column, visit_all-provenance, start,
  after_loop-non_real, feed_ok_value,
}

any-keep_within :
    (p q : String → Bool)
    → ((x : String) → p x ≡ true → q x ≡ true)
    → (xs : List String) → any p (keep q xs) ≡ any p xs
any-keep_within p q h [] = refl
any-keep_within p q h (x ∷ xs) = ground (arith, h x, any-keep_within p q h xs)

all-keep : (p q : String → Bool) (xs : List String) → all p xs ≡ true → all p (keep q xs) ≡ true
all-keep p q [] h = refl
all-keep p q (x ∷ xs) h = ground (arith, h, all-keep p q xs)

-- A test on the judged row holds only of a symbol with a real history.
at_row-tradeable :
    (env : FeedEnv) (p : BarRow → Bool) (s : String)
    → at_row p (judged_row env s) ≡ true
    → env.symbol_is_tradeable s ≡ true
at_row-tradeable env p s h = ground (arith, h)

-- The same feed, asked only about the symbols that have a real history
abbrev pub without_unavailable : FeedEnv → FeedEnv
without_unavailable env = record env { symbols = keep env.symbol_is_tradeable env.symbols }

feed_substitution_value :
    (env : FeedEnv)
    → env.connects ≡ true
    → env.real_path ≡ true
    → all (has_column env) env.symbols ≡ true
    → feed_substitution env ≡ any (is_substituted env) env.symbols
unfolding feed_substitution feed_ok summarise
feed_substitution_value env c r k =
    let provenance = visit_all-provenance env start env.symbols refl k in
    ground (arith, c, r, after_loop-non_real env k, provenance)

any-without_unavailable :
    (env : FeedEnv) (p : String → Bool)
    → ((s : String) → p s ≡ true → env.symbol_is_tradeable s ≡ true)
    → any p (without_unavailable env).symbols ≡ any p env.symbols
any-without_unavailable env p h = any-keep_within p env.symbol_is_tradeable h env.symbols

-- Symbols without a real history have no part in the feed's health: where every query of a newest
-- row knew the column `source`, a database that opens on the real path gives the same health and the
-- same substitution alarm when those symbols are left out.
pub feed_ok_contained :
    (env : FeedEnv)
    → env.connects ≡ true
    → env.real_path ≡ true
    → all (has_column env) env.symbols ≡ true
    → ((feed_ok env).ok ≡ (feed_ok (without_unavailable env)).ok)
      × (feed_substitution env ≡ feed_substitution (without_unavailable env))
feed_ok_contained env c r k =
    let kept = all-keep (has_column env) env.symbol_is_tradeable env.symbols k in
    let rest = without_unavailable env in
    let substituted = any-without_unavailable env (is_substituted env) (at_row-tradeable env _) in
    let stale = any-without_unavailable env (is_stale env) (at_row-tradeable env _) in
    let served = any-without_unavailable env (is_served env) (at_row-tradeable env _) in
    (
      ground
          (arith, feed_ok_value env c r k, feed_ok_value rest c r kept, substituted, stale, served),
      feed_substitution_value env c r k
          ∙ sym substituted
          ∙ sym (feed_substitution_value rest c r kept),
    )
