-- ===== src/Rules/Tests.antt =====
-- Runs of the text rules of domain/validation.py, and the theorems at them.
use geoji_agent.Base.{
  ℕ, ◌≡◌, refl, true, false, not, none, some, Option, List, [], ◌∷◌, arith, any, filter, ◌==◌,
  if◌then◌else◌, All,
}
use geoji_agent.Texts.{
  mild, fact, opinion, TextDraft, excuse_dissection, ai, WriterDraft, guilty_light,
  SentencingDecision, Lexicon, contains, profanity_hits, death_word_hits, replace_invest,
}
use geoji_agent.Rules.{
  LabelMap, Jury, guilty, apply_text_rules, rebuild_text, without_ids, rebuild_issues, text_issues,
  issues_from, raised, lexicon_rules, is_banmal_suspect, intensities,
}
use geoji_agent.Rules.Grounded.{IsGroundedText, IsResolved, apply_text_rules-IsGroundedText}
use geoji_agent.Rules.Limits.{IsWithin, Fresh, IsSameSet, apply_text_rules-IsWithin}

-- An id is the code point of `F`.
abbrev lexicon : Lexicon
lexicon = record {
  profanity = (1 ∷ 2 ∷ []) ∷ [];
  spicy_allowed = [];
  death_words = (3 ∷ 4 ∷ []) ∷ [];
  worn_phrases = [];
  has_id = any (λ c. c == 70);
  strip_ids = filter (λ c. not (c == 70));
  internal_code = λ t. false;
  sentences = λ t. t ∷ [];
}

abbrev labels : LabelMap
labels l = if l == 1 then some 7 else none

abbrev jury : Jury
jury = record {
  result = guilty;
  allowed_sentences = record { code = 5; rank = 1 } ∷ record { code = 6; rank = 2 } ∷ [];
  fallback_sentence = 5;
  target_intensities = mild ∷ [];
  default_intensity = mild;
}

-- A grounded fact, one that cites nothing, and an opinion with an id.
abbrev text : TextDraft
text = record {
  intensity = mild;
  headline = 100 ∷ 70 ∷ 50_836 ∷ [];
  statement =
      record { text = 90 ∷ 50_836 ∷ []; kind = fact; evidence_labels = 1 ∷ [] }
      ∷ record { text = 91 ∷ 50_836 ∷ []; kind = fact; evidence_labels = [] }
      ∷ record { text = 92 ∷ 70 ∷ []; kind = opinion; evidence_labels = [] }
      ∷ [];
  attack_angle = excuse_dissection;
  source = ai;
  extra = 0;
}

abbrev draft : WriterDraft
draft = record { texts = text ∷ []; meme_tag = guilty_light; meme_hints = none }

abbrev heavy : Option SentencingDecision
heavy = some (record { sentence = 6; sentencing_reason = none; reason_source = ai; factors = 0 })

no_issues : (apply_text_rules lexicon labels heavy jury (mild ∷ []) draft).issues ≡ []
unfolding apply_text_rules rebuild_text without_ids rebuild_issues text_issues issues_from raised
    lexicon_rules is_banmal_suspect contains profanity_hits death_word_hits replace_invest
no_issues = refl

rebuilt :
    (apply_text_rules lexicon labels heavy jury (mild ∷ []) draft).draft.texts
    ≡ record text {
      headline = 100 ∷ 50_836 ∷ [];
      statement = record { text = 90 ∷ 50_836 ∷ []; kind = fact; evidence_labels = 1 ∷ [] } ∷ [];
    }
      ∷ []
unfolding apply_text_rules rebuild_text without_ids
rebuilt = refl

plain : is_banmal_suspect (100 ∷ 45_796 ∷ 46 ∷ []) ≡ true
unfolding is_banmal_suspect
plain = refl

stripped : (t : List ℕ) → lexicon.has_id (lexicon.strip_ids t) ≡ false
stripped [] = refl
stripped (c ∷ cs) = ground (arith, stripped cs)

apply_text_rules-IsGroundedText_example :
    let r = apply_text_rules lexicon labels heavy jury (mild ∷ []) draft in
    All (IsGroundedText labels) r.draft.texts × All (IsResolved labels) r.evidence_refs
apply_text_rules-IsGroundedText_example =
    apply_text_rules-IsGroundedText lexicon labels heavy jury (mild ∷ []) draft

apply_text_rules-IsWithin_example :
    All IsWithin (apply_text_rules lexicon labels heavy jury (mild ∷ []) draft).draft.texts
    × Fresh [] draft.texts
    × IsSameSet (intensities draft.texts) (mild ∷ [])
apply_text_rules-IsWithin_example =
    apply_text_rules-IsWithin lexicon labels heavy jury (mild ∷ []) draft no_issues
