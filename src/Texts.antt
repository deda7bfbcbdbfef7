-- ===== src/Texts.antt =====
-- src/geoji_ai/contracts/writer.py, contracts/sentencing.py, domain/intensity.py and domain/lexicon.py:
-- the texts of a verdict, the limits of a card, and the words that a text may not hold. A text is the
-- list of its code points, a label F<n> its number. The strategy and the candidate of a draft, which
-- no rule reads, are one number. The word lists and the regular expressions are a parameter.
pub mod Tests
use geoji_agent.Base.{
  ℕ, suc, ◌+◌, Bool, true, false, not, ◌&&◌, ◌||◌, Option, none, some, List, [], ◌∷◌, ◌++◌, ltb,
  leb, ◌==◌, if◌then◌else◌, length, any,
}

abbrev pub Text : Type 0
Text = List ℕ

pub data Intensity : Type 0 where
  mild spicy hell : Intensity

abbrev pub same_intensity : Intensity → Intensity → Bool
same_intensity mild mild = true
same_intensity spicy spicy = true
same_intensity hell hell = true
same_intensity _ _ = false

abbrev pub member : Intensity → List Intensity → Bool
member i [] = false
member i (j ∷ js) = same_intensity i j || member i js

pub data Source : Type 0 where
  ai template : Source

pub data StatementKind : Type 0 where
  fact claim opinion : StatementKind

pub data AttackAngle : Type 0 where
  conversion repetition excuse_dissection future_prophecy rule_personification alternative_mockery :
      AttackAngle

pub record Statement : Type 0 where
  pub text : Text
  pub kind : StatementKind
  pub evidence_labels : List ℕ

pub record TextDraft : Type 0 where
  pub intensity : Intensity
  pub headline : Text
  pub statement : List Statement
  pub attack_angle : AttackAngle
  pub source : Source
  pub extra : ℕ

pub data MemeTag : Type 0 where
  guilty_heavy guilty_light not_guilty approved rejected : MemeTag

-- The hints are a number, which the rules pass on.
pub record WriterDraft : Type 0 where
  pub texts : List TextDraft
  pub meme_tag : MemeTag
  pub meme_hints : Option ℕ

-- A sentence is the number of its code; the evidence, the aggravating and the mitigating factors,
-- which no rule reads, are one number.
pub record SentencingDecision : Type 0 where
  pub sentence : ℕ
  pub sentencing_reason : Option Text
  pub reason_source : Source
  pub factors : ℕ

abbrev pub headline_max : ℕ
headline_max = 30

abbrev pub statement_max : ℕ
statement_max = 4

abbrev pub statement_total_max : ℕ
statement_total_max = 300

abbrev pub card_headline_max : ℕ
card_headline_max = 20

abbrev pub card_statement_max : ℕ
card_statement_max = 100

abbrev pub labels_max : ℕ
labels_max = 16

abbrev pub within : ℕ → ℕ → ℕ → Bool
within low high n = leb low n && leb n high

abbrev pub all {ℓ} : {A : Type ℓ} → (A → Bool) → List A → Bool
all p [] = true
all p (x ∷ xs) = p x && all p xs

-- `sum(len(s.text) for s in statement)`
abbrev pub total_length : List Statement → ℕ
total_length [] = 0
total_length (s ∷ ss) = length s.text + total_length ss

-- _CARD_LINE_BREAKS
abbrev is_break : ℕ → Bool
is_break c = within 10 13 c || within 28 30 c || c == 133 || within 8_232 8_233 c

-- str.isspace
abbrev pub is_space : ℕ → Bool
is_space c =
    within 9 13 c
    || within 28 32 c
    || c == 133
    || c == 160
    || c == 5_760
    || within 8_192 8_202 c
    || within 8_232 8_233 c
    || c == 8_239
    || c == 8_287
    || c == 12_288

-- _validate_card_line, as a test.
unfoldable pub validate_card_line : Text → Bool
validate_card_line value = any (λ c. not (is_space c)) value && not (any is_break value)

-- CardStatement.model_validate, as a test.
abbrev card_statement_ok : Statement → Bool
unfolding validate_card_line
card_statement_ok s =
    within 1 card_statement_max (length s.text)
    && validate_card_line s.text
    && leb (length s.evidence_labels) labels_max

-- CardTextDraft.model_validate, as a test.
unfoldable pub card_ok : TextDraft → Bool
unfolding validate_card_line
card_ok t =
    within 1 card_headline_max (length t.headline)
    && validate_card_line t.headline
    && length t.statement == 1
    && all card_statement_ok t.statement

-- Statement.model_validate, as a test.
abbrev pub statement_ok : Statement → Bool
statement_ok s =
    within 1 statement_total_max (length s.text) && leb (length s.evidence_labels) labels_max

-- TextDraft.model_validate, as a test.
unfoldable pub text_draft_ok : TextDraft → Bool
text_draft_ok t =
    leb (length t.headline) headline_max
    && within 1 statement_max (length t.statement)
    && all statement_ok t.statement
    && leb (total_length t.statement) statement_total_max

abbrev pub no_duplicate_intensity : List TextDraft → Bool
no_duplicate_intensity [] = true
no_duplicate_intensity (t ∷ ts) =
    not (any (λ u. same_intensity t.intensity u.intensity) ts) && no_duplicate_intensity ts

-- WriterDraft.model_validate, as a test.
unfoldable pub writer_draft_ok : WriterDraft → Bool
unfolding text_draft_ok
writer_draft_ok d =
    within 1 3 (length d.texts) && all text_draft_ok d.texts && no_duplicate_intensity d.texts

-- The word lists of domain/lexicon.py, and what its regular expressions do.
pub record Lexicon : Type 0 where
  pub profanity : List Text
  pub spicy_allowed : List Text
  pub death_words : List Text
  pub worn_phrases : List Text
  pub has_id : Text → Bool
  pub strip_ids : Text → Text
  pub internal_code : Text → Bool
  pub sentences : Text → List Text

abbrev same_text : Text → Text → Bool
same_text [] [] = true
same_text [] (d ∷ ds) = false
same_text (c ∷ cs) [] = false
same_text (c ∷ cs) (d ∷ ds) = c == d && same_text cs ds

abbrev starts_with : Text → Text → Bool
starts_with [] cs = true
starts_with (w ∷ ws) [] = false
starts_with (w ∷ ws) (c ∷ cs) = w == c && starts_with ws cs

-- `word in text`
unfoldable pub contains : Text → Text → Bool
contains word [] = starts_with word []
contains word (c ∷ cs) = starts_with word (c ∷ cs) || contains word cs

-- profanity_hits, as a test of whether there are any.
unfoldable pub profanity_hits : Lexicon → Text → Intensity → Bool
unfolding contains
profanity_hits lex text mild = any (λ w. contains w text) lex.profanity
profanity_hits lex text spicy =
    any (λ w. contains w text && not (any (same_text w) lex.spicy_allowed)) lex.profanity
profanity_hits lex text hell = false

-- `text.replace("투자해", "투자")`
unfoldable pub replace_invest : Text → Text
replace_invest [] = []
replace_invest (a ∷ []) = a ∷ []
replace_invest (a ∷ b ∷ []) = a ∷ b ∷ []
replace_invest (a ∷ b ∷ c ∷ r) = elim (a == 53_804 && b == 51_088 && c == 54_644) [
  | true ↦ a ∷ b ∷ replace_invest r
  | false ↦ a ∷ replace_invest (b ∷ c ∷ r)
]

-- death_word_hits, as a test of whether there are any.
unfoldable pub death_word_hits : Lexicon → Text → Bool
unfolding contains replace_invest
death_word_hits lex text = any (λ w. contains w (replace_invest text)) lex.death_words

abbrev same_kind : StatementKind → StatementKind → Bool
same_kind fact fact = true
same_kind claim claim = true
same_kind opinion opinion = true
same_kind _ _ = false

abbrev same_statements : List Statement → List Statement → Bool
same_statements [] [] = true
same_statements [] (t ∷ ts) = false
same_statements (s ∷ ss) [] = false
same_statements (s ∷ ss) (t ∷ ts) =
    same_text s.text t.text
    && same_kind s.kind t.kind
    && same_text s.evidence_labels t.evidence_labels
    && same_statements ss ts

abbrev pub same_angle : AttackAngle → AttackAngle → Bool
same_angle conversion conversion = true
same_angle repetition repetition = true
same_angle excuse_dissection excuse_dissection = true
same_angle future_prophecy future_prophecy = true
same_angle rule_personification rule_personification = true
same_angle alternative_mockery alternative_mockery = true
same_angle _ _ = false

abbrev pub same_source : Source → Source → Bool
same_source ai ai = true
same_source template template = true
same_source _ _ = false

-- Equality of two drafts as the values of a dict.
unfoldable pub same_draft : TextDraft → TextDraft → Bool
same_draft t u =
    same_intensity t.intensity u.intensity
    && same_text t.headline u.headline
    && same_statements t.statement u.statement
    && same_angle t.attack_angle u.attack_angle
    && same_source t.source u.source
    && t.extra == u.extra
