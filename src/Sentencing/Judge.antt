-- ===== src/Sentencing/Judge.antt =====
-- The calls of the evaluator in graphs/sentencing.py: one or two in a round. The counting of violations
-- is left out.
use geoji_agent.Base.{
  Bool, true, false, not, ◌&&◌, Option, none, some, List, [], ◌∷◌, ltb, if◌then◌else◌, is_null, any,
  length, eq_bool,
}
use geoji_agent.Retry.{
  ErrorKind, other, degraded, auth, budget as out_of_budget, ErrorCode, eval_failed,
  budget_exceeded, vendor_unavailable,
}
use geoji_agent.Budget.{evaluator as evaluator_node}
use geoji_agent.Texts.{Intensity, hell, member, SentencingDecision}
use geoji_agent.Report.{stated, Check, Report, merge_reports}
use geoji_agent.Sentencing.{
  Case, Env, State, output, no_output, failed, stale_evidence, crashed, Call, call_model,
  needs_sentence,
}

-- The outcome of one call of the evaluator.
pub data Judged : Type 0 where
  judged : Report → Judged
  not_started : Judged
  judge_failed : ErrorKind → Judged
  judge_invalidated judge_raised : Judged

abbrev passing_check : Option Check
passing_check = some (record { passes = stated true; violations = [] })

-- Where no sentence is due, its two checks are filled in.
abbrev fill_checks : Case → Report → Report
fill_checks c r =
    if needs_sentence c
    then r
    else record r { sentence_check = passing_check; sentencing_reason_check = passing_check }

unfoldable pub judge_one : Env → Case → State → Call Report → Judged
unfolding call_model
judge_one env c st call = elim (call_model env evaluator_node st.expires call) [
  | none ↦ not_started
  | some answer ↦ elim answer [
    | output r ↦ judged (fill_checks c r)
    | no_output ↦ judge_failed other
    | failed k ↦ judge_failed k
    | stale_evidence ↦ judge_invalidated
    | crashed ↦ judge_raised
  ]
]

-- All the calls of a round: the first exception, or an error, or no budget, or the merged report.
-- The errors are those of the records, for the code of the failure.
pub data Evaluated : Type 0 where
  evaluated : Report → Evaluated
  skipped : Evaluated
  errors : List ErrorKind → Evaluated
  evaluate_invalidated evaluate_raised : Evaluated

abbrev pair_up : Judged → Judged → Evaluated
pair_up judge_invalidated b = evaluate_invalidated
pair_up judge_raised b = evaluate_raised
pair_up (judged r) (judged s) = evaluated (merge_reports r (s ∷ []))
pair_up (judged r) not_started = skipped
pair_up (judged r) (judge_failed k) = errors (k ∷ [])
pair_up (judged r) judge_invalidated = evaluate_invalidated
pair_up (judged r) judge_raised = evaluate_raised
pair_up not_started (judged s) = skipped
pair_up not_started not_started = skipped
pair_up not_started (judge_failed k) = errors (k ∷ [])
pair_up not_started judge_invalidated = evaluate_invalidated
pair_up not_started judge_raised = evaluate_raised
pair_up (judge_failed j) (judged s) = errors (j ∷ [])
pair_up (judge_failed j) not_started = errors (j ∷ [])
pair_up (judge_failed j) (judge_failed k) = errors (j ∷ k ∷ [])
pair_up (judge_failed j) judge_invalidated = evaluate_invalidated
pair_up (judge_failed j) judge_raised = evaluate_raised

abbrev alone : Judged → Evaluated
alone (judged r) = evaluated (merge_reports r [])
alone not_started = skipped
alone (judge_failed k) = errors (k ∷ [])
alone judge_invalidated = evaluate_invalidated
alone judge_raised = evaluate_raised

abbrev hell_apart : Env → List Intensity → Bool
hell_apart env is = member hell is && env.has_hell_model

-- The call of a round with the model for `hell`, and the one without.
pub record JudgeCalls : Type 0 where
  pub plain : Call Report
  pub for_hell : Call Report

-- evaluate. A group of `hell` alone, where it is apart, is the call for `hell`.
unfoldable pub evaluate :
    Env → Case → State → Option SentencingDecision → List Intensity → JudgeCalls → Evaluated
unfolding judge_one
evaluate env c st decision is calls =
    if not (eq_bool (needs_sentence c) (not (is_null decision)))
    then errors []
    else if not (hell_apart env is)
    then alone (judge_one env c st calls.plain)
    else if ltb 1 (length is)
    then pair_up (judge_one env c st calls.plain) (judge_one env c st calls.for_hell)
    else alone (judge_one env c st calls.for_hell)

abbrev is_out_of_budget : ErrorKind → Bool
is_out_of_budget out_of_budget = true
is_out_of_budget _ = false

abbrev is_blocked : ErrorKind → Bool
is_blocked degraded = true
is_blocked auth = true
is_blocked _ = false

unfoldable pub vendor_failure_code : List ErrorKind → ErrorCode
vendor_failure_code ks =
    if any is_out_of_budget ks
    then budget_exceeded
    else if any is_blocked ks
    then vendor_unavailable
    else eval_failed
