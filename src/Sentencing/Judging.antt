-- ===== src/Sentencing/Judging.antt =====
-- The evaluator, the repair, the finalize and the failure of graphs/sentencing.py lower the measure and
-- keep the invariant.
use geoji_agent.Base.{
  ℕ, ◌+◌, ◌≡◌, refl, sym, subst, inl, inr, Bool, true, false, not, ◌&&◌, Option, none, some, arith,
  Bool-cases, ltb,
}
use geoji_agent.Texts.{Intensity, template, WriterDraft}
use geoji_agent.Sentencing.{Case, Env, State, Call, may_repair, is_source}
use geoji_agent.Sentencing.Drafts.{
  Written, outcomes, first_exception, Exception, no_exception, invalidation, other_exception,
  after_calls, is_empty,
}
use geoji_agent.Sentencing.Weighing.{Bench}
use geoji_agent.Sentencing.Loop.{
  Verdict, passed, repair_of, rejected_with, no_budget, verdict_invalidated, verdict_raised,
  RoundInput, run_rounds, eval_rounds, bench_of, take_verdict, evaluator, evaluate_draft,
}
use geoji_agent.Sentencing.Rounds.{IsSound, run_rounds-IsSound}
use geoji_agent.Sentencing.Finish.{
  writer_repair, FinalizeReply, finalized, gone, epoch_conflict, unprocessable, finalize_error,
  finalize_reply, finalize, is_evaluated, ai_texts, generation_failed,
}
use geoji_agent.Sentencing.Run.{
  at_validate, at_evaluator, at_repair, at_finalize, at_failed, next, settle,
}
use geoji_agent.Sentencing.Invariant.{IsOpen, Invariant, measure, Reaches, Follows, failed_or_lem}
use geoji_agent.Sentencing.Checks.{IsJudged-as, repair_invariant}

module _ (env : Env) (c : Case) where
  take_verdict-Follows :
      (st : State) (d : WriterDraft) (v : Verdict) (n : ℕ)
      → IsOpen c st
      → IsSound env c st (bench_of st d) v
      → Follows env c at_evaluator
          (measure env at_evaluator st)
          (settle st (take_verdict env c v n st))
  unfolding Follows next take_verdict
  take_verdict-Follows st d (passed b r) n h s = (
    omega arith,
    (
      (
        h.0,
        λ y i.
            subst (λ (x : Bench). is_source template (x.sources i) ≡ false) (sym (s.2 y)) (h.1 y i),
      ),
      record {
        draft = b.writer_draft;
        report = r;
        has_draft = refl;
        has_report = refl;
        no_issues = s.0;
        has_hash = refl;
        decided = s.1;
      },
    ),
  )
  take_verdict-Follows st d (repair_of b is kept) n h s = (omega arith, ((h.0, λ y. cc), s.0, s.1))
  take_verdict-Follows st d (rejected_with code) n h s = (omega arith, h.0)
  take_verdict-Follows st d no_budget n h s = (omega arith, h.0)
  take_verdict-Follows st d verdict_invalidated n h s = (omega arith, h.0)
  take_verdict-Follows st d verdict_raised n h s = tt

  evaluate_draft-Follows :
      (inputs : ℕ → RoundInput) (o : Option WriterDraft) (st : State)
      → IsOpen c st
      → Follows env c at_evaluator
          (measure env at_evaluator st)
          (settle st (evaluate_draft env c inputs o st))
  unfolding evaluate_draft Follows
  evaluate_draft-Follows inputs none st h = tt
  evaluate_draft-Follows inputs (some d) st h =
      take_verdict-Follows st d (run_rounds eval_rounds env c st inputs 0 (bench_of st d)).0
        (run_rounds eval_rounds env c st inputs 0 (bench_of st d)).1 h
        (run_rounds-IsSound env c st (bench_of st d) inputs).0

  pub evaluator-Follows :
      (inputs : ℕ → RoundInput) (st : State)
      → IsOpen c st
      → Follows env c at_evaluator
          (measure env at_evaluator st)
          (settle st (evaluator env c inputs st))
  unfolding evaluator
  evaluator-Follows inputs st h = evaluate_draft-Follows inputs st.writer_draft st h

  after_repair-Follows :
      (e : Exception) (calls : Intensity → Call Written) (st new : State)
      → IsOpen c st
      → ltb st.repair_count env.immediate_repair_max ≡ true
      → IsOpen c new
      → new.repair_count ≡ st.repair_count + 1
      → Follows env c at_repair (measure env at_repair st) (settle st (after_calls e new))
  unfolding Follows next
  after_repair-Follows no_exception calls st new h lt k e =
      failed_or_lem (Reaches env c (measure env at_repair st) new) new at_validate
        (λ f. (ground arith, k)) (ground arith, k.0)
  after_repair-Follows invalidation calls st new h lt k e = (ground arith, h.0)
  after_repair-Follows other_exception calls st new h lt k e = tt

  pub writer_repair-Follows :
      (calls : Intensity → Call Written) (st : State)
      → Invariant env c at_repair st
      → Follows env c at_repair
          (measure env at_repair st)
          (settle st (writer_repair env c calls st))
  unfolding writer_repair
  writer_repair-Follows calls st h =
      after_repair-Follows (first_exception (outcomes env c st calls) st.repair_targets) calls st _
        h.0 h.1 (h.0.0, λ y. cc (h.2)) refl

  finalize_reply-Follows :
      (clock : ℕ) (r : FinalizeReply) (st : State)
      → Invariant env c at_finalize st
      → Follows env c at_finalize
          (measure env at_finalize st)
          (settle st (finalize_reply env c clock r st))
  unfolding Follows next finalize_reply
  finalize_reply-Follows clock finalized st h = (omega arith, λ s. (IsJudged-as env c h.1, h.0.1))
  finalize_reply-Follows clock gone st h = (omega arith, λ s. cc)
  finalize_reply-Follows clock epoch_conflict st h = (omega arith, h.0.0)
  finalize_reply-Follows clock unprocessable st h =
      elim (Bool-cases (not (is_empty (ai_texts c st)) && may_repair env c st clock)) [
        | inl e ↦ rw e (omega arith, repair_invariant env c st h.0 clock (ground arith))
        | inr e ↦ rw e (omega arith, h.0.0)
      ]
  finalize_reply-Follows clock finalize_error st h = tt

  pub finalize-Follows :
      (clock : ℕ) (is_stale : Bool) (r : FinalizeReply) (st : State)
      → Invariant env c at_finalize st
      → Follows env c at_finalize
          (measure env at_finalize st)
          (settle st (finalize env c clock is_stale r st))
  unfolding Follows next finalize
  finalize-Follows clock is_stale r st h = elim (Bool-cases (is_evaluated env st)) [
    | inr e ↦ rw e tt
    | inl e ↦ elim (Bool-cases is_stale) [
      | inl f ↦ rw (e, f) (omega arith, h.0.0)
      | inr f ↦ rw (e, f) (finalize_reply-Follows clock r st h)
    ]
  ]

  pub generation_failed-Follows :
      (is_sent : Bool) (st : State)
      → st.finalize_outcome ≡ none
      → Follows env c at_failed
          (measure env at_failed st)
          (settle st (generation_failed is_sent st))
  unfolding Follows next generation_failed
  generation_failed-Follows false st h = tt
  generation_failed-Follows true st h = (omega arith, λ s. cc h)
