-- ===== src/Sentencing/Start.antt =====
-- The nodes of graphs/sentencing.py at the start: the begin and the dossier.
use geoji_agent.Base.{
  ℕ, ◌+◌, min, Bool, true, false, not, ◌&&◌, Option, none, some, List, ltb, leb, if◌then◌else◌, any,
}
use geoji_agent.Retry.{schema_invalid, evidence_invalidated}
use geoji_agent.Budget.{from_db, remaining_s, inline_context_reserve}
use geoji_agent.Texts.{Text, Intensity, Source, SentencingDecision, member}
use geoji_agent.Sentencing.{
  Dossier, Case, Env, fixed, from_prep, inline, minimal, to_prep, to_inline, to_minimal, State,
  Turn, went, invalidated, raised, Answer, output, no_output, failed, stale_evidence, crashed,
  is_regenerate, needs_sentence, requested_of,
}

-- `fixed_sentencing` of the answer to begin-generation.
pub record FixedSentencing : Type 0 where
  pub sentence : ℕ
  pub sentencing_reason : Option Text
  pub reason_source : Source

-- The answer, with the time of the database that is read after it.
pub data BeginReply : Type 0 where
  begun : ℕ → ℕ → Option FixedSentencing → BeginReply
  conflict begin_failed : BeginReply

abbrev pub is_outside : Option (List Intensity) → List Intensity → Bool
is_outside none targets = false
is_outside (some wanted) targets = any (λ i. not (member i targets)) wanted

abbrev pub decision_of : FixedSentencing → SentencingDecision
decision_of f = record {
  sentence = f.sentence;
  sentencing_reason = f.sentencing_reason;
  reason_source = f.reason_source;
  factors = 0;
}

-- A sentence where none is due, or none where a regeneration needs one.
abbrev pub misplaced : Case → Option FixedSentencing → Bool
misplaced c none = is_regenerate c && needs_sentence c
misplaced c (some f) = not (needs_sentence c)

abbrev pub begin_deadline : Env → Case → ℕ → ℕ → ℕ
begin_deadline env c started expires =
    if is_regenerate c then min expires (started + env.text_retry_timeout) else expires

abbrev pub take_fixed : Option FixedSentencing → State → State
take_fixed none st = st
take_fixed (some f) st = record st {
  sentencing = some (decision_of f);
  sentencing_source = some fixed;
}

-- The state after an answer that is no refusal: `begin`, `deadline` and the test of the intensities.
unfoldable pub opened : Env → Case → ℕ → ℕ → ℕ → ℕ → State → State
unfolding from_db
opened env c started clock deadline_at db_now st = record st {
  begun = true;
  expires = begin_deadline env c started (from_db deadline_at db_now clock);
  failure =
      if is_outside (requested_of c) c.jury.target_intensities
      then some schema_invalid
      else st.failure;
}

unfoldable pub begin_generation : Env → Case → ℕ → ℕ → BeginReply → State → Turn
unfolding opened
begin_generation env c started clock conflict st = went st
begin_generation env c started clock begin_failed st = raised
begin_generation env c started clock (begun deadline_at db_now f) st =
    let new = opened env c started clock deadline_at db_now st in
    if misplaced c f
    then went (record new { failure = some schema_invalid })
    else went (take_fixed f new)

-- `remaining_s - reserve > 0` and the least remaining time.
unfoldable pub inline_fits : Env → ℕ → Bool
inline_fits env remaining =
    ltb (inline_context_reserve env.budget) remaining
    && leb env.inline_context_min_remaining remaining

unfoldable pub load_valid_prep : Env → Case → ℕ → Option Dossier → State → Turn
unfolding inline_fits remaining_s
load_valid_prep env c clock (some d) st =
    went (record st { dossier = some d; dossier_source = some from_prep; route = to_prep })
load_valid_prep env c clock none st =
    if is_regenerate c
    then went (record st { route = to_minimal })
    else if inline_fits env (remaining_s st.expires clock)
    then went (record st { route = to_inline })
    else went (record st { route = to_minimal })

-- save_dossier with its answer, whether the epochs were stale, and the dossier that the state keeps.
unfoldable pub minimal_dossier_node : Dossier → Bool → State → Turn
minimal_dossier_node d is_stale st = went (record st {
  dossier = some d;
  dossier_source = some minimal;
  failure = if is_stale then some evidence_invalidated else none;
})

abbrev pub keep_inline : Dossier → Bool → State → Turn
keep_inline d is_stale st = went (record st {
  dossier = some d;
  dossier_source = some inline;
  failure = if is_stale then some evidence_invalidated else none;
})

-- `code` is the dossier that the program makes of the answer to resolve-evidence.
abbrev pub after_context : Dossier → Answer Dossier → Bool → State → Turn
after_context code (output d) is_stale st = keep_inline d is_stale st
after_context code no_output is_stale st = keep_inline code is_stale st
after_context code (failed k) is_stale st = keep_inline code is_stale st
after_context code stale_evidence is_stale st = invalidated
after_context code crashed is_stale st = keep_inline code is_stale st

-- The call improves the dossier, if there is time for one.
unfoldable pub inline_context : Env → ℕ → Dossier → Answer Dossier → Bool → State → Turn
unfolding remaining_s
inline_context env clock code answer is_stale st =
    if ltb (inline_context_reserve env.budget) (remaining_s st.expires clock)
      && ltb 0 env.budget.writer_node_timeout
    then after_context code answer is_stale st
    else keep_inline code is_stale st
