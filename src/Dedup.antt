-- ===== src/Dedup.antt =====
-- news_experiment/dedup.py: the collapse of repeated headlines and the story groups. Instants are
-- seconds. Unicode normalisation, upper case, stripping and the digest are the language's: they are
-- the arguments of the definitions that use them.
pub mod Spacing
mod Tests
use ai_trader.Base.{
  ℕ, ◌-◌, ◌*◌, Bool, true, false, ◌&&◌, leb, if◌then◌else◌, Option, none, some, List, [], ◌∷◌,
  String, str_eq, is_text,
}

-- The arguments of `consider`
pub record Headline : Type 0 where
  pub ticker : String
  pub headline : String
  pub article_id : String
  pub published : ℕ

pub record Story : Type 0 where
  pub group_id : String
  pub first_seen : ℕ

-- A dict, whose last value of a key stands first
module _ {K V : Type 0} (eq : K → K → Bool) where
  abbrev pub get : List (K × V) → K → Option V
  get [] k = none
  get ((j, v) ∷ d) k = let rest = get d k in if eq j k then some v else rest

pub record Deduplicator : Type 0 where
  pub by_article : List (String × ℕ)
  pub by_ticker_text : List ((String × String) × ℕ)
  pub stories : List (String × Story)

abbrev pub no_headlines : Deduplicator
no_headlines = record { by_article = []; by_ticker_text = []; stories = [] }

-- `timedelta(hours=spec.DEDUP_WINDOW_HOURS)`, in seconds
abbrev pub default_window : ℕ
default_window = 24 * 3600

abbrev pub same_pair : String × String → String × String → Bool
same_pair (a, b) (c, d) = str_eq a c && str_eq b d

-- `seen is not None and published - seen <= window`
abbrev pub seen_within : ℕ → ℕ → Option ℕ → Bool
seen_within window published none = false
seen_within window published (some seen) = leb (published - seen) window

-- `normalize` is `normalize_headline`, `upper` and `strip` the methods of strings, and `digest` the
-- group id of a normalised headline first seen at an instant.
module _ (normalize upper strip : String → String) (digest : String → ℕ → String) (window : ℕ) where
  abbrev pub new_story : List (String × Story) → String → ℕ → String × List (String × Story)
  new_story stories text published = (
    digest text published,
    (text, record { group_id = digest text published; first_seen = published }) ∷ stories,
  )

  abbrev pub group_for :
      List (String × Story) → String → ℕ → Option Story → String × List (String × Story)
  group_for stories text published none = new_story stories text published
  group_for stories text published (some prior) =
      if leb (published - prior.first_seen) window
      then (prior.group_id, stories)
      else new_story stories text published

  unfoldable pub story_group : List (String × Story) → String → ℕ → String × List (String × Story)
  story_group stories text published = group_for stories text published (get str_eq stories text)

  abbrev pub key_of : Headline → String × String
  key_of h = (upper h.ticker, normalize h.headline)

  abbrev pub article_of : Headline → String
  article_of h = strip h.article_id

  abbrev pub is_duplicate : Deduplicator → Headline → Bool
  is_duplicate d h =
      if is_text (article_of h)
        && seen_within window h.published (get str_eq d.by_article (article_of h))
      then true
      else seen_within window h.published (get same_pair d.by_ticker_text (key_of h))

  -- The state after a headline that is no duplicate
  abbrev pub remember : Deduplicator → Headline → Deduplicator
  remember d h = record d {
    by_article =
        if is_text (article_of h) then (article_of h, h.published) ∷ d.by_article else d.by_article;
    by_ticker_text = (key_of h, h.published) ∷ d.by_ticker_text;
  }

  unfoldable pub consider : Deduplicator → Headline → Bool × String × Deduplicator
  unfolding story_group
  consider d h =
      let (group_id, stories) = story_group d.stories (normalize h.headline) h.published in
      let d1 = record d { stories = stories } in
      if is_duplicate d h then (true, group_id, d1) else (false, group_id, remember d1 h)
