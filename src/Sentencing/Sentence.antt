-- ===== src/Sentencing/Sentence.antt =====
-- The sentence that graphs/sentencing.py decides on.
use geoji_agent.Base.{
  ℕ, ◌≤◌, ◌≡◌, refl, sym, subst, inl, inr, ◌⊎◌, Bool, true, false, not, ◌&&◌, Option, none, some,
  List, [], ◌∷◌, arith, Bool-cases, Option-cases, Among, map, ltb, ◌==◌, ==_iff, length,
  if◌then◌else◌,
}
use geoji_agent.Budget.{sentencing as sentencing_node}
use geoji_agent.Texts.{ai, template, Text, SentencingDecision}
use geoji_agent.Rules.{AllowedSentence, Jury, rank_of}
use geoji_agent.Sentencing.{
  Case, Env, State, Turn, went, invalidated, raised, Answer, output, no_output, failed,
  stale_evidence, crashed, Call, call_model,
}
use geoji_agent.Sentencing.Decision.{
  Sentenced, sentencing, after_sentencing, take_decision, parse_sentencing, parse_reason, templated,
  as_given, with_code, clipped, checked, is_long, top_sentence, rule_sentencing,
  sentencing_reason_max,
}

abbrev pub codes : List AllowedSentence → List ℕ
codes = map (λ (s : AllowedSentence). s.code)

abbrev pub IsShort : Option Text → Type 0
IsShort none = Unit
IsShort (some r) = length r ≤ sentencing_reason_max

-- The sentence is one of the allowed ones, or the fallback, and the reason keeps to its limit.
abbrev pub IsLawful : Jury → SentencingDecision → Type 0
IsLawful j d =
    (Among d.sentence (codes j.allowed_sentences) ⊎ (d.sentence ≡ j.fallback_sentence))
    × IsShort d.sentencing_reason

rank_of-Among : (n r : ℕ) (ss : List AllowedSentence) → rank_of n ss ≡ some r → Among n (codes ss)
rank_of-Among n r [] e = cc
rank_of-Among n r (s ∷ ss) e = elim (Bool-cases (s.code == n)) [
  | inl q ↦ inl (sym ((==_iff s.code n).0 q))
  | inr q ↦ inr (rank_of-Among n r ss (ground arith))
]

top_sentence-Among :
    (ss : List AllowedSentence) (t : AllowedSentence)
    → top_sentence ss ≡ some t
    → Among t.code (codes ss)
top_sentence-Among [] t e = cc
top_sentence-Among (s ∷ ss) t e = elim (Option-cases (top_sentence ss)) [
  | inl q ↦ inl (ground (arith, q))
  | inr (u, q) ↦ elim (Bool-cases (ltb u.rank s.rank)) [
    | inl f ↦ inl (ground (arith, q, f))
    | inr f ↦
        let same : u ≡ t = ground (arith, q, f) in
        inr (
          subst (λ (x : AllowedSentence). Among x.code (codes ss)) same (top_sentence-Among ss u q))
  ]
]

clipped-Among :
    (ss : List AllowedSentence) (o : Option ℕ) (n : ℕ) → clipped ss o ≡ some n → Among n (codes ss)
clipped-Among ss none n e = elim (Option-cases (top_sentence ss)) [
  | inl q ↦ ground (arith, q)
  | inr (t, q) ↦ subst (λ x. Among x (codes ss)) (ground (arith, q)) (top_sentence-Among ss t q)
]
clipped-Among ss (some m) n e = elim (Option-cases (rank_of m ss)) [
  | inl f ↦ elim (Option-cases (top_sentence ss)) [
    | inl q ↦ ground (arith, q, f)
    | inr (t, q) ↦
        subst (λ x. Among x (codes ss)) (ground (arith, q, f)) (top_sentence-Among ss t q)
  ]
  | inr (r, f) ↦ subst (λ x. Among x (codes ss)) (ground (arith, f)) (rank_of-Among m r ss f)
]

short : (o : Option Text) → is_long o ≡ false → IsShort o
short none h = tt
short (some r) h = ground arith

-- A decision, if there is one, of the code and with a short reason.
abbrev IsOf : ℕ → Option SentencingDecision → Type 0
IsOf code none = Unit
IsOf code (some d) = (d.sentence ≡ code) × IsShort d.sentencing_reason

checked-IsOf : (b : Bool) (x : SentencingDecision) → IsOf x.sentence (checked b x)
checked-IsOf b x = elim (Bool-cases (b && not (is_long x.sentencing_reason))) [
  | inl e ↦ rw e (refl, short x.sentencing_reason (ground arith))
  | inr e ↦ rw e tt
]

templated-IsOf :
    (code : ℕ) (s : Sentenced) (r : Option (Option Text)) → IsOf code (templated code s r)
templated-IsOf code s none = tt
templated-IsOf code s (some r) = checked-IsOf s.is_typed (record {
  sentence = code;
  sentencing_reason = r;
  reason_source = template;
  factors = s.factors;
})

either-IsOf :
    (code : ℕ) (b : Bool) (x y : Option SentencingDecision)
    → IsOf code x
    → IsOf code y
    → IsOf code (if b then x else y)
either-IsOf code true x y h k = h
either-IsOf code false x y h k = k

parse_reason-IsOf : (env : Env) (code : ℕ) (s : Sentenced) → IsOf code (parse_reason env code s)
parse_reason-IsOf env code s =
    either-IsOf code (is_long s.sentencing_reason) (templated code s (env.reason_template code))
      (as_given code s) (templated-IsOf code s (env.reason_template code))
      (checked-IsOf s.is_typed (record {
        sentence = code;
        sentencing_reason = s.sentencing_reason;
        reason_source = ai;
        factors = s.factors;
      }))

-- The decision of an output is lawful, if there is one.
abbrev LawfulIf : Jury → Option SentencingDecision → Type 0
LawfulIf j none = Unit
LawfulIf j (some d) = IsLawful j d

of-LawfulIf :
    (j : Jury) (code : ℕ) (o : Option SentencingDecision)
    → Among code (codes j.allowed_sentences)
    → IsOf code o
    → LawfulIf j o
of-LawfulIf j code none m h = tt
of-LawfulIf j code (some d) m h =
    (inl (subst (λ x. Among x (codes j.allowed_sentences)) (sym h.0) m), h.1)

with_code-LawfulIf :
    (env : Env) (j : Jury) (s : Sentenced) (o : Option ℕ)
    → clipped j.allowed_sentences s.sentence ≡ o
    → LawfulIf j (with_code (λ code. parse_reason env code s) o)
with_code-LawfulIf env j s none e = tt
with_code-LawfulIf env j s (some code) e =
    of-LawfulIf j code (parse_reason env code s)
      (clipped-Among j.allowed_sentences s.sentence code e) (parse_reason-IsOf env code s)

parse_sentencing-LawfulIf :
    (env : Env) (j : Jury) (s : Sentenced) → LawfulIf j (parse_sentencing env j s)
unfolding parse_sentencing
parse_sentencing-LawfulIf env j s =
    with_code-LawfulIf env j s (clipped j.allowed_sentences s.sentence) refl

-- A state with a lawful decision.
abbrev pub HasSentence : Jury → State → Type 0
HasSentence j st = (d : SentencingDecision) × (st.sentencing ≡ some d) × IsLawful j d

abbrev pub Decides : Jury → Turn → Type 0
Decides j (went new) = HasSentence j new
Decides j invalidated = Unit
Decides j raised = Unit

take_decision-HasSentence :
    (j : Jury) (o : Option SentencingDecision) (st : State)
    → LawfulIf j o
    → HasSentence j (take_decision j o st)
unfolding take_decision rule_sentencing
take_decision-HasSentence j none st h = (_, refl, (inr refl, tt))
take_decision-HasSentence j (some d) st h = (d, refl, h)

after_sentencing-Decides :
    (env : Env) (c : Case) (o : Option (Answer Sentenced)) (st : State)
    → Decides c.jury (after_sentencing env c o st)
unfolding after_sentencing
after_sentencing-Decides env c none st = take_decision-HasSentence c.jury none st tt
after_sentencing-Decides env c (some (output s)) st =
    take_decision-HasSentence c.jury (parse_sentencing env c.jury s) st
      (parse_sentencing-LawfulIf env c.jury s)
after_sentencing-Decides env c (some no_output) st = take_decision-HasSentence c.jury none st tt
after_sentencing-Decides env c (some (failed k)) st = take_decision-HasSentence c.jury none st tt
after_sentencing-Decides env c (some stale_evidence) st = tt
after_sentencing-Decides env c (some crashed) st = tt

-- Whatever the model answers, the node of the sentence leaves a decision, unless an exception leaves
-- it: its code is an allowed one or the fallback of the policy, and its reason keeps to its limit.
pub sentencing-Decides :
    (env : Env) (c : Case) (call : Call Sentenced) (st : State)
    → Decides c.jury (sentencing env c call st)
unfolding sentencing
sentencing-Decides env c call st =
    after_sentencing-Decides env c (call_model env sentencing_node st.expires call) st
