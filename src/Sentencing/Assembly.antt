-- ===== src/Sentencing/Assembly.antt =====
-- `assemble` and `deterministic_validate` of graphs/sentencing.py: the text rules on the drafts, with
-- their repairs.
use geoji_agent.Base.{
  ℕ, zero, suc, Bool, true, false, not, ◌&&◌, ◌||◌, Option, none, some, List, [], ◌∷◌, ◌++◌, leb,
  ◌==◌, if◌then◌else◌, is_null, any, filter, length,
}
use geoji_agent.Retry.{ErrorCode, schema_invalid, eval_failed}
use geoji_agent.Texts.{
  Intensity, mild, spicy, hell, same_intensity, member, all, Source, template, TextDraft,
  guilty_light, WriterDraft, SentencingDecision, card_ok, writer_draft_ok,
}
use geoji_agent.Rules.{Issue, apply_text_rules}
use geoji_agent.Sentencing.{
  Case, Env, Dossier, State, Turn, went, raised, to_repair, to_evaluator, is_regenerate, scope,
  is_source, can_repair, put, template_for,
}
use geoji_agent.Sentencing.Drafts.{is_empty}

-- What assemble returns.
pub data Assembled : Type 0 where
  assembled : (Intensity → Option TextDraft) → (Intensity → Option Source) → WriterDraft → Assembled
  all_template : (Intensity → Option TextDraft) → (Intensity → Option Source) → Assembled
  refused : ErrorCode → Assembled
  to_rewrite : List Intensity → Assembled
  assemble_raised : Assembled

-- `set(drafts) == set(targets)`
abbrev pub has_exactly : (Intensity → Option TextDraft) → List Intensity → Bool
has_exactly drafts targets =
    all (λ i. not (is_null (drafts i))) targets
    && all (λ i. is_null (drafts i) || member i targets) (mild ∷ spicy ∷ hell ∷ [])

abbrev text_onto : Option TextDraft → List TextDraft → List TextDraft
text_onto none ts = ts
text_onto (some t) ts = t ∷ ts

-- `[drafts[i] for i in targets]`, where none is missing.
abbrev pub collect : (Intensity → Option TextDraft) → List Intensity → List TextDraft
collect drafts [] = []
collect drafts (i ∷ is) = text_onto (drafts i) (collect drafts is)

-- `{t.intensity: t for t in texts}`
abbrev by_intensity : List TextDraft → Intensity → Option TextDraft
by_intensity [] i = none
by_intensity (t ∷ ts) i = elim (by_intensity ts i) [
  | none ↦ if same_intensity t.intensity i then some t else none
  | some u ↦ some u
]

abbrev pub is_global : ℕ → Issue → Bool
is_global count issue = elim issue.index [ none ↦ true | some n ↦ leb count n ]

abbrev is_at : ℕ → Issue → Bool
is_at n issue = elim issue.index [ none ↦ false | some m ↦ m == n ]

-- The targets, from a position on, that an issue names.
abbrev named : List Issue → ℕ → List Intensity → List Intensity
named issues n [] = []
named issues n (i ∷ is) =
    let rest = named issues (suc n) is in if any (is_at n) issues then i ∷ rest else rest

-- The targets whose rebuilt text is no card.
abbrev no_card : List Intensity → List TextDraft → List Intensity
unfolding card_ok
no_card [] ts = []
no_card (i ∷ is) [] = []
no_card (i ∷ is) (t ∷ ts) = let rest = no_card is ts in if card_ok t then rest else i ∷ rest

-- `bad`, in the order of its keys.
unfoldable pub bad_targets : List Issue → List Intensity → List TextDraft → List Intensity
unfolding no_card
bad_targets issues targets texts =
    let by_rules = named issues 0 targets in
    by_rules ++ filter (λ i. not (member i by_rules)) (no_card targets texts)

pub data Replaced : Type 0 where
  replaced : (Intensity → Option TextDraft) → (Intensity → Option Source) → Replaced
  not_replaced : ErrorCode → Replaced

-- Each bad text gives way to its template.
unfoldable pub replace :
    Env
    → Case
    → Option SentencingDecision
    → List Intensity
    → (Intensity → Option TextDraft)
    → (Intensity → Option Source)
    → Replaced
unfolding template_for
replace env c decision [] drafts sources = replaced drafts sources
replace env c decision (i ∷ is) drafts sources =
    if is_source template (sources i)
    then not_replaced schema_invalid
    else elim (template_for env c i decision) [
      | none ↦ not_replaced eval_failed
      | some t ↦ replace env c decision is (put i (some t) drafts) (put i (some template) sources)
    ]

-- A draft without bad texts.
unfoldable pub conclude : List Intensity → (Intensity → Option Source) → WriterDraft → Assembled
unfolding writer_draft_ok
conclude targets sources d =
    if not (writer_draft_ok d)
    then refused schema_invalid
    else if all (λ i. is_source template (sources i)) targets
    then all_template (by_intensity d.texts) sources
    else assembled (by_intensity d.texts) sources d

-- The draft that the rules see.
abbrev pub body : Option ℕ → List TextDraft → WriterDraft
body hints texts = record { texts = texts; meme_tag = guilty_light; meme_hints = hints }

abbrev pub go_on :
    ((Intensity → Option TextDraft) → (Intensity → Option Source) → Assembled)
    → Replaced
    → Assembled
go_on rest (replaced drafts sources) = rest drafts sources
go_on rest (not_replaced code) = refused code

abbrev pub or_raise : (Dossier → Assembled) → Option Dossier → Assembled
or_raise rest none = assemble_raised
or_raise rest (some d) = rest d

-- The rounds of assemble; `clock` is the time of can_repair, which is asked at most once.
unfoldable pub assemble_rounds :
    ℕ
    → Env
    → Case
    → State
    → Dossier
    → ℕ
    → Bool
    → Option SentencingDecision
    → (Intensity → Option TextDraft)
    → (Intensity → Option Source)
    → Assembled
unfolding apply_text_rules conclude bad_targets can_repair replace scope
assemble_rounds zero env c st d clock allow_repair decision drafts sources = refused schema_invalid
assemble_rounds (suc n) env c st d clock allow_repair decision drafts sources =
    let targets = scope c in
    let rules =
      apply_text_rules env.lexicon d.label_map decision c.jury targets
        (body st.work.hints (collect drafts targets)) in
    let bad = bad_targets rules.issues targets rules.draft.texts in
    if not (has_exactly drafts targets)
    then refused schema_invalid
    else if any (is_global (length targets)) rules.issues
    then refused schema_invalid
    else if is_empty bad
    then conclude targets sources rules.draft
    else if is_regenerate c
    then refused eval_failed
    else if allow_repair && can_repair env c st clock bad
    then to_rewrite bad
    else go_on (assemble_rounds n env c st d clock allow_repair decision)
        (replace env c decision bad drafts sources)

unfoldable pub assemble :
    Env
    → Case
    → State
    → ℕ
    → Bool
    → Option SentencingDecision
    → (Intensity → Option TextDraft)
    → (Intensity → Option Source)
    → Assembled
unfolding assemble_rounds
assemble env c st clock allow_repair decision drafts sources =
    or_raise (λ d. assemble_rounds 2 env c st d clock allow_repair decision drafts sources)
      st.dossier

abbrev pub after_validation : Assembled → State → Turn
after_validation (assembled drafts sources d) st = went (record st {
  work = record st.work { drafts = drafts; sources = sources };
  writer_draft = some d;
  failure = none;
  route = to_evaluator;
})
after_validation (all_template drafts sources) st = went (record st {
  work = record st.work { drafts = drafts; sources = sources };
  failure = some eval_failed;
  route = to_evaluator;
})
after_validation (refused code) st = went (record st { failure = some code; route = to_evaluator })
after_validation (to_rewrite bad) st =
    went (record st { failure = none; route = to_repair; repair_targets = bad; eval_kept = [] })
after_validation assemble_raised st = raised

unfoldable pub deterministic_validate : Env → Case → ℕ → State → Turn
unfolding assemble
deterministic_validate env c clock st =
    after_validation (assemble env c st clock true st.sentencing st.work.drafts st.work.sources) st
