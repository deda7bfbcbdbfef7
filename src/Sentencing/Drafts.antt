-- ===== src/Sentencing/Drafts.antt =====
-- The nodes of graphs/sentencing.py that have the texts written: the calls, one for each intensity, and
-- the join. An INVALID_CARD keeps no preview here, since only prompts read it.
use geoji_agent.Base.{
  ℕ, Bool, true, false, not, ◌&&◌, ◌||◌, Option, none, some, List, [], ◌∷◌, ◌++◌, ◌==◌,
  if◌then◌else◌, is_null, any, filter, length,
}
use geoji_agent.Retry.{ErrorKind, other, ErrorCode, schema_invalid, writer_failure_code}
use geoji_agent.Budget.{writer as writer_node, node_timeout}
use geoji_agent.Texts.{
  Intensity, same_intensity, all, Source, ai, template, same_angle, TextDraft, SentencingDecision,
  card_ok,
}
use geoji_agent.Sentencing.{
  Case, Env, Dossier, Drafting, State, Turn, went, invalidated, raised, to_validate, to_repair,
  output, no_output, failed, stale_evidence, crashed, Call, call_model, is_regenerate, scope,
  is_source, may_repair, put, template_for,
}
use geoji_agent.Sentencing.Decision.{writer_angles}

-- What the writer's model returns: a draft of the contract's types, with the hints, or something else.
pub data Written : Type 0 where
  drafted : TextDraft → Option ℕ → Written
  unreadable : Written

-- The outcome of write_one.
pub data Outcome : Type 0 where
  wrote : TextDraft → Option ℕ → Outcome
  invalid_card skipped : Outcome
  call_failed : ErrorKind → Outcome
  write_invalidated write_raised : Outcome

abbrev is_requested : Case → Option Dossier → Intensity → TextDraft → Bool
is_requested c d i t =
    same_intensity t.intensity i && any (same_angle t.attack_angle) (writer_angles c d)

-- The draft with the source that the code writes into it, if it is a card and of what was asked for.
abbrev read_card : Case → Option Dossier → Intensity → Written → Outcome
unfolding card_ok
read_card c d i unreadable = invalid_card
read_card c d i (drafted t hints) =
    let card : TextDraft = record t { source = ai } in
    if not (card_ok card)
    then invalid_card
    else if is_requested c d i card
    then wrote card hints
    else call_failed other

unfoldable pub write_one : Env → Case → State → Intensity → Call Written → Outcome
unfolding call_model read_card
write_one env c st i call = elim (call_model env writer_node st.expires call) [
  | none ↦ skipped
  | some answer ↦ elim answer [
    | output w ↦ read_card c st.dossier i w
    | no_output ↦ call_failed other
    | failed k ↦ call_failed k
    | stale_evidence ↦ write_invalidated
    | crashed ↦ write_raised
  ]
]

abbrev only_default : Case → Intensity → Option ℕ → Option ℕ → Option ℕ
only_default c i new old = if same_intensity i c.jury.default_intensity then new else old

abbrev record_error : Outcome → List (Option ErrorKind)
record_error (wrote t h) = none ∷ []
record_error invalid_card = some other ∷ []
record_error skipped = []
record_error (call_failed k) = some k ∷ []
record_error write_invalidated = []
record_error write_raised = []

abbrev is_skipped : Outcome → Bool
is_skipped skipped = true
is_skipped _ = false

abbrev is_invalid_card : Outcome → Bool
is_invalid_card invalid_card = true
is_invalid_card _ = false

-- A template takes the place of what the writer did not give; a regeneration makes none.
unfoldable pub fallback : Env → Case → Option SentencingDecision → Intensity → Option TextDraft
unfolding template_for
fallback env c decision i = if is_regenerate c then none else template_for env c i decision

abbrev pub source_of : Option TextDraft → Option Source
source_of none = none
source_of (some t) = some template

-- One round of the loop of fan_out.
unfoldable pub settle_one :
    Env → Case → Option SentencingDecision → Intensity → Outcome → Drafting → Drafting
unfolding fallback
settle_one env c decision i (wrote t h) w = record w {
  drafts = put i (some t) w.drafts;
  sources = put i (some ai) w.sources;
  hints = only_default c i h w.hints;
  invalid = put i false w.invalid;
  errors = w.errors ++ none ∷ [];
}
settle_one env c decision i o w = record w {
  drafts = put i (fallback env c decision i) w.drafts;
  sources = put i (source_of (fallback env c decision i)) w.sources;
  hints = only_default c i none w.hints;
  budget_skipped = w.budget_skipped || is_skipped o;
  invalid = put i (is_invalid_card o) w.invalid;
  errors = w.errors ++ record_error o;
}

unfoldable pub settle_all :
    Env
    → Case
    → Option SentencingDecision
    → (Intensity → Outcome)
    → List Intensity
    → Drafting
    → Drafting
unfolding settle_one
settle_all env c decision outcome [] w = w
settle_all env c decision outcome (i ∷ is) w =
    settle_all env c decision outcome is (settle_one env c decision i (outcome i) w)

-- The first exception of the gathered calls, in their order.
pub data Exception : Type 0 where
  no_exception invalidation other_exception : Exception

abbrev exception_of : Outcome → Exception → Exception
exception_of write_invalidated rest = invalidation
exception_of write_raised rest = other_exception
exception_of (wrote t h) rest = rest
exception_of invalid_card rest = rest
exception_of skipped rest = rest
exception_of (call_failed k) rest = rest

abbrev pub first_exception : (Intensity → Outcome) → List Intensity → Exception
first_exception outcome [] = no_exception
first_exception outcome (i ∷ is) = exception_of (outcome i) (first_exception outcome is)

unfoldable pub outcomes : Env → Case → State → (Intensity → Call Written) → Intensity → Outcome
unfolding write_one
outcomes env c st calls i = write_one env c st i (calls i)

-- fan_out, the drafting afterwards.
unfoldable pub fan_out : Env → Case → List Intensity → (Intensity → Call Written) → State → Drafting
unfolding settle_all outcomes
fan_out env c is calls st =
    settle_all env c st.sentencing (outcomes env c st calls) is
      (record st.work { budget_skipped = false })

-- The gathered calls end, and the state becomes the new one, or the first exception leaves the node.
abbrev pub after_calls : Exception → State → Turn
after_calls no_exception new = went new
after_calls invalidation new = invalidated
after_calls other_exception new = raised

unfoldable pub writer : Env → Case → (Intensity → Call Written) → State → Turn
unfolding outcomes fan_out scope
writer env c calls st =
    after_calls (first_exception (outcomes env c st calls) (scope c))
      (record st { work = fan_out env c (scope c) calls st })

unfoldable pub invalid_list : Case → Drafting → List Intensity
unfolding scope
invalid_list c w = filter w.invalid (scope c)

abbrev pub is_empty {ℓ} : {A : Type ℓ} → List A → Bool
is_empty [] = true
is_empty (x ∷ xs) = false

-- The code of a join that has too little from the writer.
unfoldable pub join_code : Case → Drafting → ErrorCode
unfolding scope
join_code c w =
    if not (is_empty (invalid_list c w))
      && all (λ i. is_source ai (w.sources i) || w.invalid i) (scope c)
    then schema_invalid
    else writer_failure_code w.errors w.budget_skipped

-- Nothing of the AI, or in a regeneration something that is not.
unfoldable pub too_little : Case → Drafting → Bool
unfolding scope
too_little c w =
    let not_ai = filter (λ i. not (is_source ai (w.sources i))) (scope c) in
    length not_ai == length (scope c) || is_regenerate c && not (is_empty not_ai)

-- `early` is the time of the test on the remaining time, `late` that of the node's budget.
unfoldable pub join : Env → Case → ℕ → ℕ → State → Turn
unfolding may_repair node_timeout invalid_list join_code too_little scope
join env c early late st =
    if not (is_empty (invalid_list c st.work))
      && may_repair env c st early
      && not (is_null (node_timeout writer_node env.budget st.expires late))
    then went (record st {
      failure = none;
      route = to_repair;
      repair_targets = invalid_list c st.work;
      eval_kept = [];
    })
    else if too_little c st.work
    then went (record st { failure = some (join_code c st.work) })
    else if any (λ i. is_null (st.work.drafts i)) (scope c)
    then went (record st { failure = some schema_invalid })
    else went (record st { failure = none; route = to_validate })
