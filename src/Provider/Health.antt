-- ===== src/Provider/Health.antt =====
-- llm_consensus/provider_health.py: classify and the exhaustion latch. The regular expressions and
-- the text functions of the language are the record `Language`.
use ai_trader.Base.{
  ℕ, Bool, Option, none, some, ◌&&◌, ◌||◌, not, ◌==◌, if◌then◌else◌, List, [], ◌∷◌, ◌++◌, any,
  String, str_eq, str_append, str_take, is_text, is_some,
}

pub record Language : Type 0 where
  -- `s.strip().lower()`
  pub strip_lower : String → String
  -- `EXHAUSTION_TEXT.search`
  pub mentions_exhaustion : String → Bool
  -- `TRANSIENT_TEXT.search`
  pub mentions_transient : String → Bool
  -- the number that `re.match(r"HTTP (\d{3})", s)` finds
  pub status_in : String → Option ℕ

-- A dict of an error body: its `type`, `code` and `status`, where they are texts
pub record Scope : Type 0 where
  pub type_text : Option String
  pub code : Option String
  pub status : Option String

-- A body that is a dict, with its `error` if that is one, and its JSON text
pub record Body : Type 0 where
  pub error : Option Scope
  pub top : Scope
  pub dumped : String

-- What `classify` reads of an exception
pub record Failure : Type 0 where
  pub status : Option ℕ
  pub body : Option Body
  pub text : String
  pub message : String

pub data Kind : Type 0 where
  transient exhausted no_retry : Kind

abbrev pub transient_status : List ℕ
transient_status = 408 ∷ 409 ∷ 425 ∷ 429 ∷ 500 ∷ 502 ∷ 503 ∷ 504 ∷ 529 ∷ []

abbrev pub exhaustion_codes : List String
exhaustion_codes =
    "insufficient_quota" ∷ "billing_hard_limit_reached" ∷ "credit_balance_too_low"
    ∷ "quota_exceeded" ∷ []

abbrev pub ambiguous_429_labels : List String
ambiguous_429_labels = "gemini" ∷ []

abbrev pub member : String → List String → Bool
member s xs = any (str_eq s) xs

-- An entry of `_exhausted`
pub record Latched : Type 0 where
  pub label : String
  pub model_id : String
  pub detail : String
  pub since : String

-- `_exhausted`, a dict by the normalised label
abbrev pub Latch : Type 0
Latch = List (String × Latched)

abbrev pub entry : String → Latch → Option Latched
entry key [] = none
entry key ((k, e) ∷ rest) = if str_eq k key then some e else entry key rest

module _ (lang : Language) where
  pub status_of : Failure → Option ℕ
  status_of f = elim f.status [ none ↦ lang.status_in f.message | some n ↦ some n ]

  -- One value of `_codes_of`
  abbrev pub code_in : Option String → List String
  code_in none = []
  code_in (some v) = if is_text (lang.strip_lower v) then lang.strip_lower v ∷ [] else []

  abbrev pub codes_in : Scope → List String
  codes_in s = code_in s.type_text ++ (code_in s.code ++ code_in s.status)

  pub codes_of : Option Body → List String
  codes_of none = []
  codes_of (some b) = elim b.error [ none ↦ codes_in b.top | some s ↦ codes_in s ++ codes_in b.top ]

  pub text_of : Failure → String
  text_of f =
      let head = str_append f.text (str_append "\n" f.message) in
      elim f.body [ none ↦ head | some b ↦ str_append head (str_append "\n" b.dumped) ]

  pub marks_exhaustion : Failure → Bool
  unfolding codes_of text_of
  marks_exhaustion f =
      any (λ c. member c exhaustion_codes) (codes_of f.body) || lang.mentions_exhaustion (text_of f)

  -- The kind by the status, for a failure that nothing marks as exhaustion
  pub kind_by_status : String → Failure → Option ℕ → Kind
  kind_by_status label f none =
      if str_eq (str_take 15 f.message) "request failed:" || lang.mentions_transient f.message
      then transient
      else no_retry
  kind_by_status label f (some status) =
      if status == 429 && member (lang.strip_lower label) ambiguous_429_labels
      then no_retry
      else if any (λ n. n == status) transient_status
      then transient
      else no_retry

  unfoldable pub classify : String → Failure → Kind
  unfolding marks_exhaustion kind_by_status status_of
  classify label f = if marks_exhaustion f then exhausted else kind_by_status label f (status_of f)

  unfoldable pub is_exhausted : String → Latch → Bool
  is_exhausted label latch = is_some (entry (lang.strip_lower label) latch)

  -- The entry that `mark_exhausted` makes; `now` is the clock's text
  abbrev pub new_entry : String → String → String → String → String × Latched
  new_entry now label model_id detail = (
    lang.strip_lower label,
    record { label = label; model_id = model_id; detail = str_take 300 detail; since = now },
  )

  unfoldable pub mark_exhausted : String → String → String → String → Latch → Latch
  unfolding is_exhausted
  mark_exhausted now label model_id detail latch =
      if not (is_text (lang.strip_lower label))
      then latch
      else if is_exhausted label latch
      then latch
      else latch ++ new_entry now label model_id detail ∷ []
