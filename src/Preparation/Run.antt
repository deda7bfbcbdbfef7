-- ===== src/Preparation/Run.antt =====
-- src/geoji_ai/graphs/preparation.py, the nodes that make banter and a run of the graph, and the
-- handler of application/prepare_case.py around it.
use geoji_agent.Base.{
  ℕ, suc, String, Bool, true, false, not, ◌&&◌, Option, none, some, List, [], ◌∷◌, map,
  if◌then◌else◌, filter,
}
use geoji_agent.Evidence.{Fact, is_empty, target_pack}
use geoji_agent.Texts.{Intensity, Lexicon}
use geoji_agent.Jobs.{completes, cancels, fails}
use geoji_agent.Handling.{
  Outcome, sends, raises, outcome_of, settle_backend_error, no_overrides, snapshot_not_found,
}
use geoji_agent.Preparation.{
  Dossier, Candidate, Banter, target_intensities, holds, put, parse_candidates, filter_banter,
}
use geoji_agent.Preparation.Graph.{
  Status, stale_event, complete_prep, Escape, snapshot_missing, invalidated, other_exception, Turn,
  went, threw, ◌>>=◌, plain, State, BanterReply, banter_threw, banter_failed, no_output,
  banter_answer, World, Env, Payload, load_case, load_reusable_prep, recall_candidates,
  resolve_sources, build_db_evidence, analyze_reason, persist_dossier, is_ready,
}

-- `positions`: the target intensities with their call indexes.
abbrev pub numbered : ℕ → List Intensity → List (Intensity × ℕ)
numbered n [] = []
numbered n (i ∷ is) = (i, n) ∷ numbered (suc n) is

abbrev pub missing : Banter → List (Intensity × ℕ) → List (Intensity × ℕ)
missing copied positions = filter (λ (e : Intensity × ℕ). not (holds e.0 copied)) positions

-- The result of one call: no candidates, or those of the answer.
abbrev pub outcome : (ℕ → ℕ) → BanterReply → Turn (Option (List Candidate))
outcome uuids (banter_threw e) = threw e
outcome uuids banter_failed = went none
outcome uuids no_output = went none
outcome uuids (banter_answer items) = went (some (parse_candidates uuids items))

abbrev pub Gathered : Type 0
Gathered = List (Intensity × Option (List Candidate))

-- All calls run; the first exception in their order is raised after them.
unfoldable pub gather :
    (ℕ → ℕ)
    → (Intensity → ℕ → List Fact → BanterReply)
    → List Fact
    → List (Intensity × ℕ)
    → Turn Gathered
unfolding parse_candidates
gather uuids call allowed [] = went []
gather uuids call allowed ((i, n) ∷ is) = do
  candidates ← outcome uuids (call i n allowed)
  rest ← gather uuids call allowed is
  went ((i, candidates) ∷ rest)

abbrev pub keep_result : Intensity → Option (List Candidate) → State → State
keep_result i none st = st
keep_result i (some cs) st = record st { banter = put i cs st.banter; banter_ok = i ∷ st.banter_ok }

unfoldable pub keep_results : Gathered → State → State
keep_results [] st = st
keep_results ((i, candidates) ∷ rest) st = keep_results rest (keep_result i candidates st)

abbrev pub write_banter : World → State → Option Dossier → Turn State
write_banter w st none = threw (other_exception plain)
write_banter w st (some d) = do
  let allowed = target_pack st.case.snapshot.room_ids d.facts
  results ←
      gather w.uuids w.banter allowed (missing st.copied (numbered 0 (target_intensities st.case)))
  went (keep_results results (record st { banter = st.copied }))

unfoldable pub generate_banter : World → State → Turn State
generate_banter w st = write_banter w st st.dossier

abbrev pub labels : List Fact → List ℕ
labels fs = map (λ f. f.label) fs

abbrev pub allowed_labels : State → Option Dossier → List ℕ
allowed_labels st none = labels st.evidence
allowed_labels st (some d) = labels (target_pack st.case.snapshot.room_ids d.facts)

abbrev pub filter_all : Lexicon → List ℕ → Banter → Banter
filter_all lex allowed [] = []
filter_all lex allowed ((i, cs) ∷ b) =
    (i, filter_banter lex cs i allowed) ∷ filter_all lex allowed b

unfoldable pub validate_banter : Env → State → State
validate_banter env st = record st {
  banter = filter_all env.lexicon (allowed_labels st st.dossier) st.banter;
}

abbrev pub with_status : State → Option Bool → State
with_status st (some true) = record st { status = complete_prep }
with_status st _ = st

abbrev pub store_banter : World → State → Bool → Option ℕ → State
store_banter w st false (some prep) = with_status st (w.save_banter prep st.banter)
store_banter w st _ _ = st

unfoldable pub persist_banter : World → State → State
persist_banter w st = store_banter w st (is_empty st.banter_ok && is_empty st.copied) st.prep_id

-- The edges.
abbrev pub after_persist : Env → World → State → Turn State
after_persist env w st =
    if is_ready st.status && w.has_llm
    then (do made ← generate_banter w st; went (persist_banter w (validate_banter env made)))
    else went st

abbrev pub make_dossier : Env → World → State → Turn State
make_dossier env w st = do
  found ← resolve_sources env w (recall_candidates env w st)
  built ← build_db_evidence env w found
  analyze_reason w built

abbrev pub after_reuse : Env → World → State → Turn State
after_reuse env w st = if st.reuse_dossier then went st else make_dossier env w st

abbrev pub prepare : Env → World → State → Turn State
prepare env w st = do
  ready ← after_reuse env w (load_reusable_prep w st)
  kept ← persist_dossier w ready
  after_persist env w kept

abbrev pub is_stale : Status → Bool
is_stale stale_event = true
is_stale _ = false

abbrev pub after_load : Env → World → State → Turn State
after_load env w st = if is_stale st.status then went st else prepare env w st

-- `none`: the payload of the job is not that of a PREPARE, and the assertion on it fails.
unfoldable pub run_preparation : Env → World → Option Payload → Turn State
run_preparation env w none = threw (other_exception plain)
run_preparation env w (some p) = do st ← load_case w p; after_load env w st

abbrev pub evidence_invalidated : String
evidence_invalidated = "EVIDENCE_INVALIDATED"

-- The world that the handler gives its graph; without a store of preparations it raises.
module _ (id worker generation : ℕ) where
  abbrev pub on_escape : Escape → Outcome
  on_escape snapshot_missing = sends (cancels id worker generation snapshot_not_found)
  on_escape invalidated = sends (fails id worker generation evidence_invalidated none)
  on_escape (other_exception e) =
      outcome_of (settle_backend_error id worker generation no_overrides e)

  abbrev pub after_run : Turn State → Outcome
  after_run (went st) = sends (completes id worker generation)
  after_run (threw e) = on_escape e

  abbrev pub run_or_raise : Bool → Env → World → Option Payload → Outcome
  run_or_raise false env w p = raises
  run_or_raise true env w p = after_run (run_preparation env w p)

  unfoldable pub prepare_handler : Bool → Env → World → Option Payload → Outcome
  unfolding run_preparation settle_backend_error
  prepare_handler has_store env w p = run_or_raise has_store env w p
