-- ===== src/Sentencing/Finish.antt =====
-- The repair, the finalize and the failure of graphs/sentencing.py. Metrics and alerts are left out.
use geoji_agent.Base.{
  ℕ, ◌+◌, Bool, true, false, not, ◌&&◌, none, some, List, [], ◌∷◌, ◌==◌, if◌then◌else◌, is_null,
  filter,
}
use geoji_agent.Retry.{evidence_invalidated, schema_invalid}
use geoji_agent.Texts.{Intensity, ai}
use geoji_agent.Sentencing.{
  Case, Env, State, Turn, went, raised, Call, to_repair, to_end, saved, discarded, scope, is_source,
  may_repair,
}
use geoji_agent.Sentencing.Drafts.{Written, outcomes, first_exception, after_calls, fan_out}

unfoldable pub writer_repair : Env → Case → (Intensity → Call Written) → State → Turn
unfolding outcomes fan_out
writer_repair env c calls st =
    after_calls (first_exception (outcomes env c st calls) st.repair_targets) (record st {
      work = record (fan_out env c st.repair_targets calls st) {
        budget_skipped = st.work.budget_skipped;
      };
      repair_count = st.repair_count + 1;
      repair_targets = [];
      evaluation = none;
      draft_hash = none;
      failure = none;
    })

-- The backend's answer; `gone` is a 409 of STALE_GENERATION or DEADLINE_EXCEEDED, `epoch_conflict` one
-- of EVIDENCE_INVALIDATED, `unprocessable` a 422, and `finalize_error` everything else.
pub data FinalizeReply : Type 0 where
  finalized gone epoch_conflict unprocessable finalize_error : FinalizeReply

-- The hash of the draft and the decision in the state is the one that was evaluated.
abbrev pub is_evaluated : Env → State → Bool
is_evaluated env st = elim st.draft_hash [
  | none ↦ false
  | some h ↦ elim st.writer_draft [
    | none ↦ false
    | some d ↦ not (is_null st.evaluation) && env.draft_hash d st.sentencing == h
  ]
]

unfoldable pub ai_texts : Case → State → List Intensity
unfolding scope
ai_texts c st = filter (λ i. is_source ai (st.work.sources i)) (scope c)

abbrev is_empty {ℓ} : {A : Type ℓ} → List A → Bool
is_empty [] = true
is_empty (x ∷ xs) = false

unfoldable pub finalize_reply : Env → Case → ℕ → FinalizeReply → State → Turn
unfolding may_repair ai_texts
finalize_reply env c clock finalized st =
    went (record st { failure = none; route = to_end; finalize_outcome = some saved })
finalize_reply env c clock gone st =
    went (record st { failure = none; route = to_end; finalize_outcome = some discarded })
finalize_reply env c clock epoch_conflict st =
    went (record st { failure = some evidence_invalidated })
finalize_reply env c clock unprocessable st =
    if not (is_empty (ai_texts c st)) && may_repair env c st clock
    then went (record st {
      failure = none;
      repair_targets = ai_texts c st;
      eval_kept = [];
      route = to_repair;
    })
    else went (record st { failure = some schema_invalid })
finalize_reply env c clock finalize_error st = raised

-- `is_stale` is the answer of the last test of the epochs, before the backend is called.
unfoldable pub finalize : Env → Case → ℕ → Bool → FinalizeReply → State → Turn
unfolding finalize_reply
finalize env c clock is_stale reply st =
    if not (is_evaluated env st)
    then raised
    else if is_stale
    then went (record st { failure = some evidence_invalidated })
    else finalize_reply env c clock reply st

-- The call to the backend succeeds, or raises.
unfoldable pub generation_failed : Bool → State → Turn
generation_failed false st = raised
generation_failed true st = went st
