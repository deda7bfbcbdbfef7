-- ===== src/Rules.antt =====
-- src/geoji_ai/domain/validation.py, the text rules: what the server repairs in a draft and what it
-- reports, before the evaluator sees it. The draft is the typed one that the graph assembles, so the
-- branches for values of another shape are not taken. An issue is its code and the index in its path.
pub mod Grounded
pub mod Limits
pub mod Tests
use geoji_agent.Base.{
  ℕ, zero, suc, ◌-◌, max, Bool, true, false, not, ◌&&◌, ◌||◌, Option, none, some, List, [], ◌∷◌,
  ◌++◌, map, ltb, leb, ◌==◌, if◌then◌else◌, is_null, length, any, filter,
}
use geoji_agent.Texts.{
  Text, Intensity, mild, spicy, hell, same_intensity, member, StatementKind, fact, claim, opinion,
  Statement, TextDraft, MemeTag, guilty_heavy, guilty_light, not_guilty, approved, rejected,
  WriterDraft, SentencingDecision, headline_max, statement_max, statement_total_max, within, all,
  total_length, Lexicon, contains, profanity_hits, death_word_hits,
}

pub data IssueCode : Type 0 where
  invalid_schema intensity_set_mismatch duplicate_intensity ungrounded_claim profanity_out_of_list
        self_harm_lexicon intensity_mismatch :
      IssueCode

-- `some i` stands for a path that begins with `texts[i]`.
pub record Issue : Type 0 where
  pub code : IssueCode
  pub index : Option ℕ

pub data VerdictResult : Type 0 where
  guilty innocent agree disagree : VerdictResult

pub record AllowedSentence : Type 0 where
  pub code : ℕ
  pub rank : ℕ

pub record Jury : Type 0 where
  pub result : VerdictResult
  pub allowed_sentences : List AllowedSentence
  pub fallback_sentence : ℕ
  pub target_intensities : List Intensity
  pub default_intensity : Intensity

-- An evidence label stands for an evidence id, if it stands for one.
abbrev pub LabelMap : Type 0
LabelMap = ℕ → Option ℕ

abbrev pub is_empty {ℓ} : {A : Type ℓ} → List A → Bool
is_empty [] = true
is_empty (x ∷ xs) = false

-- The codes of the issues whose test is true.
unfoldable pub raised : List (Bool × IssueCode) → List IssueCode
raised [] = []
raised ((b, c) ∷ r) = if b then c ∷ raised r else raised r

-- `kind in GROUNDED_KINDS`
abbrev pub needs_ground : StatementKind → Bool
needs_ground fact = true
needs_ground claim = true
needs_ground opinion = false

abbrev pub grounded : LabelMap → List ℕ → Bool
grounded labels ls = not (is_empty ls) && all (λ l. not (is_null (labels l))) ls

abbrev pub is_kept : LabelMap → Statement → Bool
is_kept labels s = not (needs_ground s.kind) || grounded labels s.evidence_labels

-- Rule 1: the statements that are kept.
abbrev pub kept_statements : LabelMap → List Statement → List Statement
kept_statements labels = filter (is_kept labels)

abbrev pub strip_statement : Lexicon → Statement → Statement
strip_statement lex s = if lex.has_id s.text then record s { text = lex.strip_ids s.text } else s

-- Rule 2: statements with an id go, where another is left; else the ids go, and what is empty then.
unfoldable pub without_ids : Lexicon → List Statement → List Statement
without_ids lex kept =
    let clean = filter (λ (s : Statement). not (lex.has_id s.text)) kept in
    if leb 1 (length clean)
    then clean
    else filter (λ (s : Statement). not (is_empty s.text)) (map (strip_statement lex) kept)

abbrev pub clean_headline : Lexicon → Text → Text
clean_headline lex h = if lex.has_id h then lex.strip_ids h else h

-- _rebuild_text: rules 1 and 2 rewrite the text.
unfoldable pub rebuild_text : Lexicon → LabelMap → TextDraft → TextDraft
unfolding without_ids
rebuild_text lex labels t = record t {
  headline = clean_headline lex t.headline;
  statement = without_ids lex (kept_statements labels t.statement);
}

-- _rebuild_text: what rules 1 and 3 report.
unfoldable pub rebuild_issues : Lexicon → LabelMap → TextDraft → List IssueCode
unfolding rebuild_text without_ids
rebuild_issues lex labels t =
    let r = rebuild_text lex labels t in
    raised (
      (
        not (is_empty t.statement) && is_empty (kept_statements labels t.statement),
        ungrounded_claim,
      )
      ∷ (ltb headline_max (length r.headline), invalid_schema)
      ∷ (ltb statement_total_max (total_length r.statement), invalid_schema)
      ∷ (not (within 1 statement_max (length r.statement)), invalid_schema)
      ∷ [])

pub record EvidenceRef : Type 0 where
  pub intensity : Intensity
  pub position : ℕ
  pub label : ℕ
  pub evidence_id : ℕ

abbrev pub ref_onto : Intensity → ℕ → ℕ → Option ℕ → List EvidenceRef → List EvidenceRef
ref_onto i n l none rest = rest
ref_onto i n l (some e) rest =
    record { intensity = i; position = n; label = l; evidence_id = e } ∷ rest

abbrev pub label_refs : LabelMap → Intensity → ℕ → List ℕ → List EvidenceRef
label_refs labels i n [] = []
label_refs labels i n (l ∷ ls) = ref_onto i n l (labels l) (label_refs labels i n ls)

abbrev pub statement_refs : LabelMap → Intensity → ℕ → List Statement → List EvidenceRef
statement_refs labels i n [] = []
statement_refs labels i n (s ∷ ss) =
    label_refs labels i n s.evidence_labels ++ statement_refs labels i (suc n) ss

unfoldable pub evidence_refs : LabelMap → TextDraft → List EvidenceRef
evidence_refs labels t = statement_refs labels t.intensity 0 t.statement

-- `"\n".join(_text_parts(text))`
abbrev join_lines : List Text → Text
join_lines [] = []
join_lines (p ∷ []) = p
join_lines (p ∷ q ∷ r) = p ++ (10 ∷ join_lines (q ∷ r))

abbrev text_parts : TextDraft → List Text
text_parts t = t.headline ∷ map (λ (s : Statement). s.text) t.statement

-- _SENTENCE_TRAILER
abbrev is_trailer : ℕ → Bool
is_trailer c =
    any (λ d. c == d)
      (32 ∷ 9 ∷ 13 ∷ 10 ∷ 46 ∷ 33 ∷ 63 ∷ 8_230 ∷ 39 ∷ 34 ∷ 8_217 ∷ 8_221 ∷ 41 ∷ 126 ∷ [])

abbrev drop_trailer : Text → Text
drop_trailer [] = []
drop_trailer (c ∷ cs) = let rest = drop_trailer cs in if is_trailer c then rest else c ∷ cs

abbrev reverse_onto : Text → Text → Text
reverse_onto acc [] = acc
reverse_onto acc (c ∷ cs) = reverse_onto (c ∷ acc) cs

-- The ends `니다`, `세요` and `요`, read from the last code point on.
abbrev is_polite : Text → Bool
is_polite [] = false
is_polite (c ∷ []) = c == 50_836
is_polite (c ∷ d ∷ r) = c == 50_836 || c == 45_796 && d == 45_768

-- The ends `다`, `냐`, `해` and `지`.
abbrev is_plain : Text → Bool
is_plain [] = false
is_plain (c ∷ cs) = any (λ d. c == d) (45_796 ∷ 45_264 ∷ 54_644 ∷ 51_648 ∷ [])

unfoldable pub is_banmal_suspect : Text → Bool
is_banmal_suspect sentence =
    let tail = drop_trailer (reverse_onto [] sentence) in not (is_polite tail) && is_plain tail

-- _lexicon_rules. The two rules on the allowed words of `hell`, which the table applies to no
-- intensity, are left out.
unfoldable pub lexicon_rules : Lexicon → TextDraft → List IssueCode
unfolding contains profanity_hits death_word_hits is_banmal_suspect
lexicon_rules lex t =
    let parts = text_parts t in
    let blob = join_lines parts in
    raised (
      (lex.internal_code blob, invalid_schema)
      ∷ (profanity_hits lex blob t.intensity, profanity_out_of_list)
      ∷ (death_word_hits lex blob, self_harm_lexicon)
      ∷ (any (λ c. ltb 126_976 c) blob, intensity_mismatch)
      ∷ (any (λ c. c == 65_533) blob, intensity_mismatch)
      ∷ (any (λ w. contains w blob) lex.worn_phrases, intensity_mismatch)
      ∷ (
        same_intensity t.intensity mild && any (λ p. any is_banmal_suspect (lex.sentences p)) parts,
        intensity_mismatch,
      )
      ∷ [])

abbrev pub max_onto : ℕ → Option ℕ → Option ℕ
max_onto a none = some a
max_onto a (some b) = some (max a b)

-- The highest rank, if any sentence is allowed.
abbrev pub top_rank : List AllowedSentence → Option ℕ
top_rank [] = none
top_rank (s ∷ ss) = max_onto s.rank (top_rank ss)

abbrev pub rank_of : ℕ → List AllowedSentence → Option ℕ
rank_of c [] = none
rank_of c (s ∷ ss) = let rest = rank_of c ss in if s.code == c then some s.rank else rest

abbrev pub both_equal : Option ℕ → Option ℕ → Bool
both_equal (some a) (some b) = a == b
both_equal none b = false
both_equal (some a) none = false

abbrev pub decided_rank : Option SentencingDecision → List AllowedSentence → Option ℕ
decided_rank none allowed = none
decided_rank (some d) allowed = rank_of d.sentence allowed

-- Rule 4, _correct_meme_tag: the tag that the draft gets.
unfoldable pub correct_meme_tag : Option SentencingDecision → Jury → MemeTag
correct_meme_tag d j = elim j.result [
  | guilty ↦
      if both_equal (decided_rank d j.allowed_sentences) (top_rank j.allowed_sentences)
      then guilty_heavy
      else guilty_light
  | innocent ↦ not_guilty
  | agree ↦ approved
  | disagree ↦ rejected
]

abbrev pub same_set : List Intensity → List Intensity → Bool
same_set xs ys = all (λ x. member x ys) xs && all (λ y. member y xs) ys

abbrev pub intensities : List TextDraft → List Intensity
intensities = map (λ (t : TextDraft). t.intensity)

-- The issues of one text at its index.
unfoldable pub text_issues : Lexicon → LabelMap → List Intensity → ℕ → TextDraft → List Issue
unfolding rebuild_issues lexicon_rules rebuild_text
text_issues lex labels seen n t =
    map (λ (c : IssueCode). record { code = c; index = some n })
      (raised ((member t.intensity seen, duplicate_intensity) ∷ [])
        ++ (rebuild_issues lex labels t ++ lexicon_rules lex (rebuild_text lex labels t)))

unfoldable pub issues_from : Lexicon → LabelMap → List Intensity → ℕ → List TextDraft → List Issue
unfolding text_issues
issues_from lex labels seen n [] = []
issues_from lex labels seen n (t ∷ ts) =
    text_issues lex labels seen n t ++ issues_from lex labels (t.intensity ∷ seen) (suc n) ts

unfoldable pub all_refs : LabelMap → List TextDraft → List EvidenceRef
unfolding evidence_refs
all_refs labels [] = []
all_refs labels (t ∷ ts) = evidence_refs labels t ++ all_refs labels ts

pub record TextRuleResult : Type 0 where
  pub draft : WriterDraft
  pub issues : List Issue
  pub evidence_refs : List EvidenceRef

-- `targets` are the `target_intensities` of the jury that the caller hands over.
unfoldable pub apply_text_rules :
    Lexicon
    → LabelMap
    → Option SentencingDecision
    → Jury
    → List Intensity
    → WriterDraft
    → TextRuleResult
unfolding rebuild_text text_issues correct_meme_tag all_refs
apply_text_rules lex labels d j targets w =
    let rebuilt = map (rebuild_text lex labels) w.texts in
    record {
      draft = record w { texts = rebuilt; meme_tag = correct_meme_tag d j };
      issues =
          issues_from lex labels [] 0 w.texts
          ++ (if same_set (intensities w.texts) targets
              then []
              else record { code = intensity_set_mismatch; index = none } ∷ []);
      evidence_refs = all_refs labels rebuilt;
    }
