-- ===== src/Watchlist/Size.antt =====
-- The cap: after `enforce_max_size` the list is no longer than it may be.
use ai_trader.Base.{
  ℕ, zero, suc, ◌≤◌, ◌≡◌, refl, sym, subst, ◌∙◌, ap, Bool, false, not, ◌&&◌, arith, Float, List, [],
  ◌∷◌, map, keep, All, count, count-keep, count-le-drop, count-sorted, All-sorted, drop, String,
  str_eq, eq_iff, sorted,
}
use ai_trader.Watchlist.{Row, Db, is_active, take_off, member}
use ai_trader.Watchlist.Removal.{symbol_of, overflow, enforce_max_size, stronger}
use ai_trader.Watchlist.Invariant.{IsUnique}
use ai_trader.Watchlist.Prune.{event, taken_off_all, remove_all-watchlist}

module _ {X : Type 0} where
  abbrev pub active_row : Row X → Bool
  active_row r = is_active r.status

  -- An active row that a list of symbols does not name
  abbrev spared : List String → Row X → Bool
  spared symbols r = is_active r.status && not (member r.symbol symbols)

  spared_none : (rows : List (Row X)) → count (spared []) rows ≡ count active_row rows
  spared_none [] = refl
  spared_none (r ∷ rows) = ground (arith, spared_none rows)

  module _ (zero_score : X) (shaping : Bool) (ts reason : String) where
    spared-take_off :
        (symbol : String) (symbols : List String) (rows : List (Row X))
        → count
            (spared symbols)
            (map (take_off (event zero_score shaping ts reason symbol) ts) rows)
          ≡ count (spared (symbol ∷ symbols)) rows
    spared-take_off symbol symbols [] = refl
    spared-take_off symbol symbols (r ∷ rows) =
        ground (arith, spared-take_off symbol symbols rows, eq_iff r.symbol symbol)

    count-taken_off_all :
        (symbols : List String) (rows : List (Row X))
        → count active_row (taken_off_all zero_score shaping ts reason symbols rows)
          ≡ count (spared symbols) rows
    count-taken_off_all [] rows = sym (spared_none rows)
    count-taken_off_all (symbol ∷ symbols) rows =
        count-taken_off_all symbols
          (map (take_off (event zero_score shaping ts reason symbol) ts) rows)
        ∙ spared-take_off symbol symbols rows

  unnamed_zero :
      (s : String) (symbols : List String) (rows : List (Row X))
      → count (λ r. not (member r.symbol symbols)) rows ≡ 0
      → count (λ r. not (member r.symbol (s ∷ symbols))) rows ≡ 0
  unnamed_zero s symbols [] h = refl
  unnamed_zero s symbols (r ∷ rows) h = ground (arith, unnamed_zero s symbols rows)

  -- Rows are named by the list of their own symbols.
  all_named :
      (rows : List (Row X)) → count (λ r. not (member r.symbol (map symbol_of rows))) rows ≡ 0
  all_named [] = refl
  all_named (r ∷ rows) = ground (
    arith,
    unnamed_zero r.symbol (map symbol_of rows) rows (all_named rows),
    eq_iff r.symbol r.symbol,
  )

  named_rows :
      (rows : List (Row X))
      → IsUnique rows
      → All (λ (r : Row X). str_eq r.symbol "" ≡ false) (keep active_row rows)
  named_rows [] h = tt
  named_rows (r ∷ rows) h = ground (arith, named_rows rows h.2)

  All-drop :
      (n : ℕ) (rows : List (Row X))
      → All (λ (r : Row X). str_eq r.symbol "" ≡ false) rows
      → All (λ s. str_eq s "" ≡ false) (map symbol_of (drop n rows))
  All-drop zero [] h = tt
  All-drop zero (r ∷ rows) h = (h.0, All-drop zero rows h.1)
  All-drop (suc n) [] h = tt
  All-drop (suc n) (r ∷ rows) h = All-drop n rows h.1

module _ {X : Type 0} ⦃fl : Float X⦄ where
  overflow_named :
      (max_size : ℕ) (db : Db X)
      → IsUnique db.watchlist
      → All (λ s. str_eq s "" ≡ false) (overflow max_size db)
  unfolding overflow
  overflow_named max_size db h =
      All-drop max_size (sorted stronger (keep active_row db.watchlist)) (
        All-sorted stronger (λ (r : Row X). str_eq r.symbol "") (keep active_row db.watchlist)
          (named_rows db.watchlist h))

  -- At most `max_size` active rows are not among the overflow.
  spared-le_max :
      (max_size : ℕ) (db : Db X) → count (spared (overflow max_size db)) db.watchlist ≤ max_size
  unfolding overflow
  spared-le_max max_size db =
      let rows = sorted stronger (keep active_row db.watchlist) in
      let listed = map symbol_of (drop max_size rows) in
      omega (
        arith,
        count-le-drop (λ (r : Row X). not (member r.symbol listed)) max_size rows,
        all_named (drop max_size rows),
        count-sorted stronger (λ (r : Row X). not (member r.symbol listed))
            (keep active_row db.watchlist),
        count-keep (λ (r : Row X). not (member r.symbol listed)) active_row db.watchlist,
      )

  -- After the cap is enforced at most `max_size` entries are active, whatever the scores are.
  pub enforce_max_size_bound :
      (zero_score : X) (shaping : Bool) (ts reason : String) (max_size : ℕ) (db : Db X)
      → str_eq ts "" ≡ false
      → IsUnique db.watchlist
      → count active_row (enforce_max_size zero_score shaping ts reason max_size db).0.watchlist
        ≤ max_size
  unfolding enforce_max_size
  enforce_max_size_bound zero_score shaping ts reason max_size db stamped h =
      subst (λ n. n ≤ max_size)
        (sym (
          ap (count active_row) (
            remove_all-watchlist zero_score shaping ts reason db (overflow max_size db)
              (overflow_named max_size db h) stamped)
          ∙ count-taken_off_all zero_score shaping ts reason (overflow max_size db) db.watchlist))
        (spared-le_max max_size db)
