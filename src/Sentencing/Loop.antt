-- ===== src/Sentencing/Loop.antt =====
-- run_evaluator of graphs/sentencing.py: one round, the loop of three, and the update of the state. The
-- errors of saving an output are left out; `failed(code)` of the source is `rejected_with`.
use geoji_agent.Base.{
  ℕ, zero, suc, ◌+◌, Bool, true, false, not, ◌&&◌, ◌||◌, Option, none, some, List, [], ◌∷◌, ◌++◌,
  ltb, if◌then◌else◌, any, filter, length,
}
use geoji_agent.Retry.{ErrorCode, eval_failed, deadline_exceeded}
use geoji_agent.Texts.{Intensity, member, all, ai, template, TextDraft, WriterDraft}
use geoji_agent.Report.{known, Entry, Report, Issue, is_rejected, validate_evaluation}
use geoji_agent.Sentencing.{
  Case, Env, Kept, State, Turn, went, invalidated, raised, to_repair, to_finalize, is_regenerate,
  scope, is_source, may_repair,
}
use geoji_agent.Sentencing.Assembly.{
  Assembled, assembled, all_template, refused, to_rewrite, assemble_raised, assemble, replace,
  Replaced, replaced, not_replaced,
}
use geoji_agent.Sentencing.Judge.{
  Evaluated, JudgeCalls, evaluate, vendor_failure_code, evaluated, skipped, errors,
  evaluate_invalidated, evaluate_raised,
}
use geoji_agent.Sentencing.Weighing.{
  Bench, draft_of, round_scope, with_key, round_report, pass_of, is_stated_true, is_reason,
  is_global, Reasoned, new_reason, reasoned, no_reason, reason_raised,
}

-- How run_evaluator ends.
pub data Verdict : Type 0 where
  passed : Bench → Report → Verdict
  repair_of : Bench → List Intensity → List Kept → Verdict
  rejected_with : ErrorCode → Verdict
  no_budget verdict_invalidated verdict_raised : Verdict

-- One round: the end of the loop, or what the next round works on.
pub data Round : Type 0 where
  ends : Verdict → Round
  again : Bench → Round

abbrev kept_of : List Entry → List TextDraft → List Intensity → List Kept
kept_of es ts [] = []
kept_of es ts (i ∷ is) =
    let rest = kept_of es ts is in
    elim (draft_of ts i) [
      | none ↦ rest
      | some t ↦ elim (with_key (known i) es) [
        | [] ↦ rest
        | e ∷ more ↦ record { intensity = i; text = t; entry = e } ∷ rest
      ]
    ]

abbrev pub after_assemble : Bench → Assembled → Round
after_assemble b (assembled drafts sources d) = again (record {
  drafts = drafts;
  sources = sources;
  decision = b.decision;
  writer_draft = d;
  kept = [];
})
after_assemble b (all_template drafts sources) = ends (rejected_with eval_failed)
after_assemble b (refused code) = ends (rejected_with eval_failed)
after_assemble b (to_rewrite bad) = ends (rejected_with eval_failed)
after_assemble b assemble_raised = ends verdict_raised

-- With the templates in place: to the repair, or on with the draft put together again.
unfoldable pub after_replace :
    Env → Case → State → ℕ → Bench → Bool → List Intensity → List Kept → Replaced → Round
unfolding assemble
after_replace env c st clock b repair rejected kept (not_replaced code) =
    ends (rejected_with eval_failed)
after_replace env c st clock b true rejected kept (replaced drafts sources) =
    ends (repair_of (record b { drafts = drafts; sources = sources }) rejected kept)
after_replace env c st clock b false rejected kept (replaced drafts sources) =
    after_assemble b (assemble env c st clock false b.decision drafts sources)

unfoldable pub rejected_of : Case → Report → List Intensity
unfolding scope
rejected_of c report = filter (λ i. is_rejected (pass_of i report.texts)) (scope c)

abbrev incomplete_of : Case → Report → List Intensity
unfolding scope
incomplete_of c report =
    filter
      (λ i.
        not (is_rejected (pass_of i report.texts)) && not (is_stated_true (pass_of i report.texts)))
      (scope c)

-- What the next evaluation may take over.
abbrev keep : Case → Bool → Report → Bench → List Kept
unfolding scope
keep c reason_failed report b =
    if reason_failed
    then []
    else kept_of report.texts b.writer_draft.texts
        (filter (λ i. is_stated_true (pass_of i report.texts)) (scope c))

unfoldable pub wants_repair : Env → Case → State → ℕ → Report → Bench → Bool
unfolding may_repair scope
wants_repair env c st clock report b =
    ltb 0 (length (rejected_of c report))
    && may_repair env c st clock
    && all (λ i. is_source ai (b.sources i)) (rejected_of c report)

-- The texts that failed are rewritten, or give way to templates and the draft is put together again.
unfoldable pub mend_texts : Env → Case → State → ℕ → Bool → Report → Bench → Round
unfolding replace after_replace wants_repair rejected_of incomplete_of keep
mend_texts env c st clock reason_failed report b =
    let repair = wants_repair env c st clock report b in
    after_replace env c st clock b repair (rejected_of c report) (keep c reason_failed report b) (
      replace env c b.decision
        (if repair then incomplete_of c report else rejected_of c report ++ incomplete_of c report)
        b.drafts b.sources)

abbrev pub no_issue : List Issue → Bool
no_issue [] = true
no_issue (x ∷ xs) = false

unfoldable pub after_reason : Env → Case → State → ℕ → Bool → Report → Bench → Reasoned → Round
unfolding mend_texts
after_reason env c st clock failed_reason report b (reasoned d) =
    mend_texts env c st clock failed_reason report (record b { decision = d })
after_reason env c st clock failed_reason report b no_reason = ends (rejected_with eval_failed)
after_reason env c st clock failed_reason report b reason_raised = ends verdict_raised

-- What a round makes of its report; `is_last` in the last round.
unfoldable pub weigh : Env → Case → State → ℕ → Bool → Report → Bench → Round
unfolding validate_evaluation new_reason after_reason scope
weigh env c st clock is_last report b =
    let issues = validate_evaluation env.parses report (scope c) env.policy_version in
    if no_issue issues
    then ends (passed b report)
    else if is_last || is_regenerate c || any is_global issues
    then ends (rejected_with eval_failed)
    else after_reason env c st clock (any is_reason issues) report b
        (new_reason env (any is_reason issues) b.decision)

unfoldable pub after_evaluate : Env → Case → State → ℕ → Bool → Bench → Evaluated → Round
unfolding vendor_failure_code round_report weigh
after_evaluate env c st clock is_last b (evaluated r) =
    weigh env c st clock is_last (round_report env c b r) b
after_evaluate env c st clock is_last b skipped = ends no_budget
after_evaluate env c st clock is_last b (errors ks) = ends (rejected_with (vendor_failure_code ks))
after_evaluate env c st clock is_last b evaluate_invalidated = ends verdict_invalidated
after_evaluate env c st clock is_last b evaluate_raised = ends verdict_raised

unfoldable pub judge_round : Env → Case → State → ℕ → Bool → JudgeCalls → Bench → Round
unfolding evaluate after_evaluate round_scope
judge_round env c st clock is_last calls b =
    after_evaluate env c st clock is_last b (evaluate env c st b.decision (round_scope c b) calls)

-- What the world does in a round.
pub record RoundInput : Type 0 where
  pub clock : ℕ
  pub calls : JudgeCalls

-- _EVAL_ROUNDS
abbrev pub eval_rounds : ℕ
eval_rounds = 3

abbrev pub is_zero : ℕ → Bool
is_zero zero = true
is_zero (suc n) = false

abbrev pub continue : (Bench → Verdict × ℕ) → ℕ → Round → Verdict × ℕ
continue rest n (ends v) = (v, suc n)
continue rest n (again b) = rest b

-- The loop with the rounds that are left, and how many it took.
unfoldable pub run_rounds : ℕ → Env → Case → State → (ℕ → RoundInput) → ℕ → Bench → Verdict × ℕ
unfolding judge_round
run_rounds zero env c st inputs n b = (rejected_with eval_failed, n)
run_rounds (suc left) env c st inputs n b =
    continue (run_rounds left env c st inputs (suc n)) n
      (judge_round env c st (inputs n).clock (is_zero left) (inputs n).calls b)

abbrev pub bench_of : State → WriterDraft → Bench
bench_of st d = record {
  drafts = st.work.drafts;
  sources = st.work.sources;
  decision = st.sentencing;
  writer_draft = d;
  kept = st.eval_kept;
}

-- The update of the state.
unfoldable pub take_verdict : Env → Case → Verdict → ℕ → State → Turn
unfolding scope
take_verdict env c (passed b report) n st = went (record st {
  sentencing = b.decision;
  work = record st.work { drafts = b.drafts; sources = b.sources };
  writer_draft = some b.writer_draft;
  evaluation = some report;
  draft_hash = some (env.draft_hash b.writer_draft b.decision);
  eval_kept = [];
  failure = none;
  route = to_finalize;
  eval_round = st.eval_round + n;
})
take_verdict env c (repair_of b rejected kept) n st = went (record st {
  sentencing = b.decision;
  work = record st.work { drafts = b.drafts; sources = b.sources };
  evaluation = none;
  draft_hash = none;
  repair_targets = rejected;
  eval_kept = kept;
  failure = none;
  route = to_repair;
  eval_round = st.eval_round + n;
})
take_verdict env c (rejected_with code) n st = went (record st {
  work = record st.work { sources = λ i. if member i (scope c) then some template else none };
  failure = some code;
  eval_kept = [];
  eval_round = st.eval_round + n;
})
take_verdict env c no_budget n st =
    went (record st {
      failure = some deadline_exceeded;
      eval_kept = [];
      eval_round = st.eval_round + n;
    })
take_verdict env c verdict_invalidated n st = invalidated
take_verdict env c verdict_raised n st = raised

unfoldable pub evaluate_draft : Env → Case → (ℕ → RoundInput) → Option WriterDraft → State → Turn
unfolding run_rounds take_verdict
evaluate_draft env c inputs none st = raised
evaluate_draft env c inputs (some d) st =
    let r = run_rounds eval_rounds env c st inputs 0 (bench_of st d) in
    take_verdict env c r.0 r.1 st

unfoldable pub evaluator : Env → Case → (ℕ → RoundInput) → State → Turn
unfolding evaluate_draft
evaluator env c inputs st = evaluate_draft env c inputs st.writer_draft st
