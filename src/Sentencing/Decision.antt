-- ===== src/Sentencing/Decision.antt =====
-- The sentence of graphs/sentencing.py, by the model or by the rule, and the angles that a writer may
-- use.
use geoji_agent.Base.{
  ℕ, Bool, true, false, not, ◌&&◌, Option, none, some, List, [], ◌∷◌, ltb, leb, ◌==◌, if◌then◌else◌,
  is_null, any, filter, length,
}
use geoji_agent.Budget.{sentencing as sentencing_node}
use geoji_agent.Texts.{
  Text, ai, template, SentencingDecision, AttackAngle, conversion, repetition, excuse_dissection,
  future_prophecy, rule_personification, alternative_mockery,
}
use geoji_agent.Rules.{
  AllowedSentence, Jury, VerdictResult, guilty, innocent, agree, disagree, rank_of,
}
use geoji_agent.Sentencing.{
  spend, verdict, rule, rule_hit, aggregate, other_fact, Fact, Dossier, Case, Env, by_ai, by_rule,
  State, Turn, went, invalidated, raised, Answer, output, no_output, failed, stale_evidence,
  crashed, Call, call_model,
}

unfoldable pub rule_sentencing : Jury → State → State
rule_sentencing j st = record st {
  sentencing = some (record {
    sentence = j.fallback_sentence;
    sentencing_reason = none;
    reason_source = template;
    factors = 0;
  });
  sentencing_source = some by_rule;
}

-- What the sentencing model returns: the code if it is a listed one, and whether the reason and the
-- factors have the contract's types.
pub record Sentenced : Type 0 where
  pub sentence : Option ℕ
  pub sentencing_reason : Option Text
  pub factors : ℕ
  pub is_typed : Bool

-- The code of `sorted(..., key=rank)[-1]`: the last of the highest rank.
abbrev pub top_sentence : List AllowedSentence → Option AllowedSentence
top_sentence [] = none
top_sentence (s ∷ ss) = elim (top_sentence ss) [
  | none ↦ some s
  | some t ↦ if ltb t.rank s.rank then some s else some t
]

abbrev pub is_allowed : List AllowedSentence → Option ℕ → Bool
is_allowed allowed none = false
is_allowed allowed (some n) = not (is_null (rank_of n allowed))

-- The code, cut down to the highest rank where it is not allowed.
abbrev pub clipped : List AllowedSentence → Option ℕ → Option ℕ
clipped allowed s =
    if is_allowed allowed s
    then s
    else elim (top_sentence allowed) [ none ↦ none | some t ↦ some t.code ]

abbrev pub sentencing_reason_max : ℕ
sentencing_reason_max = 100

abbrev pub is_long : Option Text → Bool
is_long none = false
is_long (some r) = ltb sentencing_reason_max (length r)

-- The contract's check of a decision.
abbrev pub checked : Bool → SentencingDecision → Option SentencingDecision
checked is_typed d = if is_typed && not (is_long d.sentencing_reason) then some d else none

-- The reason that a template gives in the place of a long one.
abbrev pub templated : ℕ → Sentenced → Option (Option Text) → Option SentencingDecision
templated code s none = none
templated code s (some r) = checked s.is_typed (record {
  sentence = code;
  sentencing_reason = r;
  reason_source = template;
  factors = s.factors;
})

abbrev pub as_given : ℕ → Sentenced → Option SentencingDecision
as_given code s = checked s.is_typed (record {
  sentence = code;
  sentencing_reason = s.sentencing_reason;
  reason_source = ai;
  factors = s.factors;
})

abbrev pub parse_reason : Env → ℕ → Sentenced → Option SentencingDecision
parse_reason env code s =
    if is_long s.sentencing_reason
    then templated code s (env.reason_template code)
    else as_given code s

abbrev pub with_code : (ℕ → Option SentencingDecision) → Option ℕ → Option SentencingDecision
with_code parse none = none
with_code parse (some code) = parse code

-- `none` stands for a ValueError, and for an empty list of allowed sentences, which the contract of
-- the snapshot excludes.
unfoldable pub parse_sentencing : Env → Jury → Sentenced → Option SentencingDecision
parse_sentencing env j s =
    with_code (λ code. parse_reason env code s) (clipped j.allowed_sentences s.sentence)

unfoldable pub take_decision : Jury → Option SentencingDecision → State → State
unfolding rule_sentencing
take_decision j none st = rule_sentencing j st
take_decision j (some d) st = record st { sentencing = some d; sentencing_source = some by_ai }

unfoldable pub after_sentencing : Env → Case → Option (Answer Sentenced) → State → Turn
unfolding parse_sentencing take_decision
after_sentencing env c none st = went (take_decision c.jury none st)
after_sentencing env c (some (output s)) st =
    went (take_decision c.jury (parse_sentencing env c.jury s) st)
after_sentencing env c (some no_output) st = went (take_decision c.jury none st)
after_sentencing env c (some (failed k)) st = went (take_decision c.jury none st)
after_sentencing env c (some stale_evidence) st = invalidated
after_sentencing env c (some crashed) st = raised

unfoldable pub sentencing : Env → Case → Call Sentenced → State → Turn
unfolding call_model after_sentencing
sentencing env c call st =
    after_sentencing env c (call_model env sentencing_node st.expires call) st

abbrev is_history : Fact → Bool
is_history f = elim f.fact_type [
  | spend ↦ true
  | verdict ↦ true
  | rule ↦ false
  | rule_hit ↦ false
  | aggregate ↦ elim f.repeat_count [ none ↦ false | some n ↦ leb 1 n ]
  | other_fact ↦ false
]

abbrev is_rule_fact : Fact → Bool
is_rule_fact f = elim f.fact_type [
  | spend ↦ false
  | verdict ↦ false
  | rule ↦ true
  | rule_hit ↦ true
  | aggregate ↦ false
  | other_fact ↦ false
]

abbrev facts_of : Option Dossier → List Fact
facts_of none = []
facts_of (some d) = filter (λ (f : Fact). not (f.label == 0)) d.facts

-- ungrounded_angles, as a test. The history angles are REPETITION and FUTURE_PROPHECY, the rule angle
-- RULE_PERSONIFICATION.
unfoldable pub is_ungrounded : Option Dossier → AttackAngle → Bool
is_ungrounded d conversion = false
is_ungrounded d repetition = not (any is_history (facts_of d))
is_ungrounded d excuse_dissection = false
is_ungrounded d future_prophecy = not (any is_history (facts_of d))
is_ungrounded d rule_personification = not (any is_rule_fact (facts_of d))
is_ungrounded d alternative_mockery = false

abbrev angle_order : List AttackAngle
angle_order =
    conversion ∷ repetition ∷ future_prophecy ∷ rule_personification ∷ alternative_mockery ∷ []

abbrev is_lenient : VerdictResult → Bool
is_lenient guilty = false
is_lenient innocent = true
is_lenient agree = true
is_lenient disagree = false

-- `angle_order` is ANGLE_ORDER without EXCUSE_DISSECTION, which comes first.
unfoldable pub writer_angles : Case → Option Dossier → List AttackAngle
unfolding is_ungrounded
writer_angles c d =
    if is_lenient c.jury.result
    then excuse_dissection ∷ []
    else excuse_dissection ∷ filter (λ a. not (is_ungrounded d a)) angle_order
