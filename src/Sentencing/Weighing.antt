-- ===== src/Sentencing/Weighing.antt =====
-- The rounds of the evaluator of graphs/sentencing.py: what one sends, the report that it makes of the
-- answer, and what the issues of the report ask for.
use geoji_agent.Base.{
  Bool, true, false, not, ◌||◌, Option, none, some, List, [], ◌∷◌, ◌++◌, map, if◌then◌else◌, any,
  filter,
}
use geoji_agent.Texts.{
  Intensity, same_intensity, Source, template, TextDraft, WriterDraft, SentencingDecision,
  same_draft,
}
use geoji_agent.Report.{
  Pass, stated, absent, not_boolean, Check, Key, known, Entry, Report, IssueCode, missing_intensity,
  missing_check, pass_not_boolean, check_failed, Issue, texts, one_text, whole, policy,
  sentence_check, reason_check, same_key, has_key, merge_same_intensity, forgive_check,
  forgive_entry, pass_template_entry,
}
use geoji_agent.Sentencing.{Case, Env, Kept, scope}

-- What a round works on, `drafts` and `draft_sources` among it.
pub record Bench : Type 0 where
  pub drafts : Intensity → Option TextDraft
  pub sources : Intensity → Option Source
  pub decision : Option SentencingDecision
  pub writer_draft : WriterDraft
  pub kept : List Kept

abbrev pub draft_of : List TextDraft → Intensity → Option TextDraft
draft_of [] i = none
draft_of (t ∷ ts) i = elim (draft_of ts i) [
  | none ↦ if same_intensity t.intensity i then some t else none
  | some u ↦ some u
]

abbrev is_unchanged : List TextDraft → Kept → Bool
unfolding same_draft
is_unchanged ts k = elim (draft_of ts k.intensity) [ none ↦ false | some t ↦ same_draft t k.text ]

abbrev reused : Bench → List Kept
unfolding same_draft
reused b = filter (is_unchanged b.writer_draft.texts) b.kept

abbrev or_else : List Intensity → List Intensity → List Intensity
or_else [] js = js
or_else (i ∷ is) js = i ∷ is

-- The intensities that a round sends.
unfoldable pub round_scope : Case → Bench → List Intensity
unfolding scope reused
round_scope c b =
    or_else
      (filter (λ i. not (any (λ (k : Kept). same_intensity k.intensity i) (reused b))) (scope c))
      (scope c)

abbrev pub with_key : Key → List Entry → List Entry
with_key k = filter (λ (e : Entry). same_key e.key k)

abbrev in_order : List Intensity → List Entry → List Entry
in_order [] es = es
in_order (i ∷ is) es =
    with_key (known i) es ++ in_order is (filter (λ (e : Entry). not (same_key e.key (known i))) es)

abbrev map_check : Option Check → Option Check
unfolding forgive_check
map_check none = none
map_check (some k) = some (forgive_check k)

-- The report of a round: the fresh entries merged, forgiven, passed where they are of a template, and
-- the reused ones, in the order of the targets.
unfoldable pub round_report : Env → Case → Bench → Report → Report
unfolding merge_same_intensity forgive_entry forgive_check pass_template_entry scope reused
round_report env c b r =
    let fresh =
      map (λ e. pass_template_entry b.writer_draft.texts (forgive_entry e))
        (merge_same_intensity r.texts) in
    let old =
      filter (λ (e : Entry). not (has_key e.key fresh)) (map (λ (k : Kept). k.entry) (reused b)) in
    record {
      policy_version = env.policy_version;
      sentence_check = map_check r.sentence_check;
      sentencing_reason_check = map_check r.sentencing_reason_check;
      texts = in_order (scope c) (fresh ++ old);
    }

abbrev pub pass_of : Intensity → List Entry → Pass
pass_of i [] = absent
pass_of i (e ∷ es) = let rest = pass_of i es in if same_key e.key (known i) then e.passes else rest

abbrev pub is_stated_true : Pass → Bool
is_stated_true (stated b) = b
is_stated_true absent = false
is_stated_true not_boolean = false

abbrev pub is_reason : Issue → Bool
is_reason issue = elim issue.place [
  | whole ↦ false
  | policy ↦ false
  | sentence_check ↦ false
  | reason_check ↦ true
  | texts ↦ false
  | one_text n ↦ false
]

abbrev is_per_text_code : IssueCode → Bool
is_per_text_code missing_intensity = true
is_per_text_code missing_check = true
is_per_text_code pass_not_boolean = true
is_per_text_code check_failed = true
is_per_text_code _ = false

abbrev is_per_text : Issue → Bool
is_per_text issue = elim issue.place [
  | whole ↦ false
  | policy ↦ false
  | sentence_check ↦ false
  | reason_check ↦ false
  | texts ↦ is_per_text_code issue.code
  | one_text n ↦ is_per_text_code issue.code
]

abbrev pub is_global : Issue → Bool
is_global issue = not (is_reason issue || is_per_text issue)

-- The decision after a failed check of its reason.
pub data Reasoned : Type 0 where
  reasoned : Option SentencingDecision → Reasoned
  no_reason reason_raised : Reasoned

unfoldable pub new_reason : Env → Bool → Option SentencingDecision → Reasoned
new_reason env false d = reasoned d
new_reason env true none = no_reason
new_reason env true (some d) = elim (env.reason_template d.sentence) [
  | none ↦ reason_raised
  | some r ↦ elim r [
    | none ↦ no_reason
    | some text ↦
        reasoned (some (record d { sentencing_reason = some text; reason_source = template }))
  ]
]
