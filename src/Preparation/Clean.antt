-- ===== src/Preparation/Clean.antt =====
-- What `filter_banter` of graphs/preparation.py lets through.
use geoji_agent.Base.{
  ℕ, ◌≤◌, ◌≡◌, true, false, List, arith, map, All, length, filter-All, All-kept, map-All,
}
use geoji_agent.Evidence.{member, is_empty}
use geoji_agent.Texts.{Intensity, Lexicon, death_word_hits, profanity_hits, card_statement_max}
use geoji_agent.Preparation.{Candidate, label_required, strip, keep_labels, passes, filter_banter}

-- A candidate that may be shown at an intensity with the allowed labels.
pub record IsClean (lex : Lexicon) (intensity : Intensity) (allowed : List ℕ) (c : Candidate)
    : Type 0 where
  pub cites : All (λ l. member l allowed ≡ true) c.evidence_labels
  pub rests : label_required c.strategy ≡ true → is_empty c.evidence_labels ≡ false
  pub alive : death_word_hits lex c.text ≡ false
  pub decent : profanity_hits lex c.text intensity ≡ false
  pub filled : 1 ≤ length (strip c.text)
  pub fits : length (strip c.text) ≤ card_statement_max

passes-IsClean :
    (lex : Lexicon) (intensity : Intensity) (allowed : List ℕ) (c : Candidate)
    → All (λ l. member l allowed ≡ true) c.evidence_labels
    → passes lex intensity c ≡ true
    → IsClean lex intensity allowed c
passes-IsClean lex intensity allowed c h e = record {
  cites = h;
  rests = ground arith;
  alive = ground arith;
  decent = ground arith;
  filled = ground arith;
  fits = ground arith;
}

-- All candidates that are kept may be shown.
pub filter_banter-IsClean :
    (lex : Lexicon) (cs : List Candidate) (intensity : Intensity) (allowed : List ℕ)
    → All (IsClean lex intensity allowed) (filter_banter lex cs intensity allowed)
unfolding filter_banter
filter_banter-IsClean lex cs intensity allowed =
    All-kept (λ c. All (λ l. member l allowed ≡ true) c.evidence_labels)
      (IsClean lex intensity allowed) (passes lex intensity) (passes-IsClean lex intensity allowed)
      (map (keep_labels allowed) cs)
      (map-All (λ c. All (λ l. member l allowed ≡ true) c.evidence_labels) (keep_labels allowed)
        (λ c. filter-All (λ l. member l allowed) c.evidence_labels) cs)
