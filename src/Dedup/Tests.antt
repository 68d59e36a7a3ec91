-- ===== src/Dedup/Tests.antt =====
-- Concrete headlines, the collapsed and the kept.
use ai_trader.Base.{ℕ, ◌≡◌, refl, [], ◌∷◌, String}
use ai_trader.Dedup.{Headline, consider, no_headlines, default_window}
use ai_trader.Dedup.Spacing.{kept, Spaced, kept-Spaced}

abbrev same : String → String
same s = s

abbrev one_group : String → ℕ → String
one_group text published = "sg"

abbrev chips : Headline
chips = record { ticker = "NVDA"; headline = "chips rise"; article_id = "a1"; published = 1000 }

abbrev copy : Headline
copy = record chips { article_id = "a2"; published = 5000 }

abbrev next_day : Headline
next_day = record chips { article_id = "a3"; published = 100000 }

abbrev other_ticker : Headline
other_ticker = record chips { ticker = "AMD"; article_id = "a4" }

kept_first :
    kept same same same one_group default_window no_headlines (chips ∷ copy ∷ next_day ∷ [])
    ≡ chips ∷ next_day ∷ []
unfolding consider
kept_first = refl

kept-Spaced_example :
    Spaced same same same one_group default_window
      (kept same same same one_group default_window no_headlines (chips ∷ copy ∷ next_day ∷ []))
kept-Spaced_example =
    kept-Spaced same same same one_group default_window no_headlines (chips ∷ copy ∷ next_day ∷ [])
