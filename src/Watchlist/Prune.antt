-- ===== src/Watchlist/Prune.antt =====
-- The loop that removes symbols, and what `prune_stale` leaves.
use ai_trader.Base.{
  ◌≡◌, refl, sym, subst, ◌∙◌, ap, Bool, true, false, not, ◌||◌, arith, List, [], ◌∷◌, map, keep,
  any, All, String, str_eq, str_lt, eq_iff, Bool-cases, inl, inr, sorted, any-sorted, All-sorted,
  str_lt,
}
use ai_trader.Watchlist.{Row, Db, WatchlistEvent, take_off, apply_event, remove, member}
use ai_trader.Watchlist.Removal.{
  removal, remove_all, stale_symbols, is_stale, prune_stale, symbol_of,
}
use ai_trader.Watchlist.Invariant.{IsUnique}

-- A removal from the source `prune` is never refused: it is the `UPDATE` of a named symbol.
module _ {X : Type 0} (zero_score : X) (shaping : Bool) (ts reason : String) where
  abbrev pub event : String → WatchlistEvent X
  event symbol = removal zero_score symbol "prune" reason ts

  prune_event-watchlist :
      (db : Db X) (symbol : String)
      → str_eq symbol "" ≡ false
      → str_eq ts "" ≡ false
      → (apply_event shaping ts db (event symbol)).0.watchlist
        ≡ map (take_off (event symbol) ts) db.watchlist
  unfolding apply_event remove
  prune_event-watchlist db symbol named stamped = ground arith

  -- The table after the loop, symbol by symbol
  abbrev pub taken_off_all : List String → List (Row X) → List (Row X)
  taken_off_all [] rows = rows
  taken_off_all (symbol ∷ symbols) rows =
      taken_off_all symbols (map (take_off (event symbol) ts) rows)

  pub remove_all-watchlist :
      (db : Db X) (symbols : List String)
      → All (λ symbol. str_eq symbol "" ≡ false) symbols
      → str_eq ts "" ≡ false
      → (remove_all zero_score shaping ts reason db symbols).0.watchlist
        ≡ taken_off_all symbols db.watchlist
  unfolding remove_all
  remove_all-watchlist db [] named stamped = refl
  remove_all-watchlist db (symbol ∷ symbols) named stamped =
      remove_all-watchlist (apply_event shaping ts db (event symbol)).0 symbols named.1 stamped
      ∙ ap (taken_off_all symbols) (prune_event-watchlist db symbol named.0 stamped)

  -- A row is covered by a list of symbols: it is not stale, or its symbol is listed.
  abbrev covers : String → List String → Row X → Bool
  covers cutoff symbols r = not (is_stale cutoff r) || member r.symbol symbols

  covers-take_off :
      (cutoff symbol : String) (symbols : List String) (rows : List (Row X))
      → All (λ r. covers cutoff (symbol ∷ symbols) r ≡ true) rows
      → All (λ r. covers cutoff symbols r ≡ true) (map (take_off (event symbol) ts) rows)
  covers-take_off cutoff symbol symbols [] h = tt
  covers-take_off cutoff symbol symbols (r ∷ rows) h =
      (ground (arith, h.0, eq_iff r.symbol symbol), covers-take_off cutoff symbol symbols rows h.1)

  covers_nothing :
      (cutoff : String) (rows : List (Row X))
      → All (λ r. covers cutoff [] r ≡ true) rows
      → any (is_stale cutoff) rows ≡ false
  covers_nothing cutoff [] h = refl
  covers_nothing cutoff (r ∷ rows) h = ground (arith, covers_nothing cutoff rows h.1)

  taken_off_all-fresh :
      (cutoff : String) (symbols : List String) (rows : List (Row X))
      → All (λ r. covers cutoff symbols r ≡ true) rows
      → any (is_stale cutoff) (taken_off_all symbols rows) ≡ false
  taken_off_all-fresh cutoff [] rows h = covers_nothing cutoff rows h
  taken_off_all-fresh cutoff (symbol ∷ symbols) rows h =
      taken_off_all-fresh cutoff symbols (map (take_off (event symbol) ts) rows)
        (covers-take_off cutoff symbol symbols rows h)

-- The symbols of the stale rows, before they are sorted
abbrev stale_of : {X : Type 0} → String → List (Row X) → List String
stale_of cutoff rows = map symbol_of (keep (is_stale cutoff) rows)

module _ {X : Type 0} (cutoff : String) where
  -- A row covered by some symbols is covered by more.
  covers_more :
      (s : String) (symbols : List String) (rows : List (Row X))
      → All (λ r. (not (is_stale cutoff r) || member r.symbol symbols) ≡ true) rows
      → All (λ r. (not (is_stale cutoff r) || member r.symbol (s ∷ symbols)) ≡ true) rows
  covers_more s symbols [] h = tt
  covers_more s symbols (r ∷ rows) h = (ground (arith, h.0), covers_more s symbols rows h.1)

  abbrev AllCovered : List String → List (Row X) → Type 0
  AllCovered symbols rows =
      All (λ r. (not (is_stale cutoff r) || member r.symbol symbols) ≡ true) rows

  stale_of_stale :
      (r : Row X) (rows : List (Row X))
      → is_stale cutoff r ≡ true
      → stale_of cutoff (r ∷ rows) ≡ r.symbol ∷ stale_of cutoff rows
  stale_of_stale r rows h = ground arith

  stale_of_fresh :
      (r : Row X) (rows : List (Row X))
      → is_stale cutoff r ≡ false
      → stale_of cutoff (r ∷ rows) ≡ stale_of cutoff rows
  stale_of_fresh r rows h = ground arith

  covers_stale_of :
      (rows : List (Row X))
      → All (λ r. (not (is_stale cutoff r) || member r.symbol (stale_of cutoff rows)) ≡ true) rows
  covers_stale_of [] = tt
  covers_stale_of (r ∷ rows) = elim (Bool-cases (is_stale cutoff r)) [
    | inl stale ↦
        subst (λ symbols. AllCovered symbols (r ∷ rows)) (sym (stale_of_stale r rows stale))
          (
            ground (arith, eq_iff r.symbol r.symbol),
            covers_more r.symbol (stale_of cutoff rows) rows (covers_stale_of rows),
          )
    | inr fresh ↦
        subst (λ symbols. AllCovered symbols (r ∷ rows)) (sym (stale_of_fresh r rows fresh))
          (ground arith, covers_stale_of rows)
  ]

  covers-sorted :
      (symbols : List String) (rows : List (Row X))
      → All (λ r. (not (is_stale cutoff r) || member r.symbol symbols) ≡ true) rows
      → All (λ r. (not (is_stale cutoff r) || member r.symbol (sorted str_lt symbols)) ≡ true) rows
  covers-sorted symbols [] h = tt
  covers-sorted symbols (r ∷ rows) h = (
    ground (arith, h.0, any-sorted str_lt (str_eq r.symbol) symbols),
    covers-sorted symbols rows h.1,
  )

  stale_of_named :
      (rows : List (Row X)) → IsUnique rows → All (λ s. str_eq s "" ≡ false) (stale_of cutoff rows)
  stale_of_named [] h = tt
  stale_of_named (r ∷ rows) h = ground (arith, stale_of_named rows h.2)

  -- After a pruning pass no live row is older than the cutoff.
  pub prune_stale_fresh :
      (zero_score : X) (shaping : Bool) (ts reason : String) (db : Db X)
      → str_eq ts "" ≡ false
      → IsUnique db.watchlist
      → any (is_stale cutoff) (prune_stale zero_score shaping cutoff ts reason db).0.watchlist
        ≡ false
  unfolding prune_stale stale_symbols
  prune_stale_fresh zero_score shaping ts reason db stamped h =
      ap (any (is_stale cutoff)) (
        remove_all-watchlist zero_score shaping ts reason db
          (sorted str_lt (stale_of cutoff db.watchlist))
          (All-sorted str_lt (λ s. str_eq s "") (stale_of cutoff db.watchlist)
            (stale_of_named db.watchlist h))
          stamped)
      ∙ taken_off_all-fresh zero_score shaping ts reason cutoff
          (sorted str_lt (stale_of cutoff db.watchlist)) db.watchlist
          (covers-sorted (stale_of cutoff db.watchlist) db.watchlist (covers_stale_of db.watchlist))
