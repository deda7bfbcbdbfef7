-- ===== src/Preparation/Graph.antt =====
-- src/geoji_ai/graphs/preparation.py, the nodes and a run of the graph. The answers of the backend, the
-- stores and the model are functions of what is sent to them; the run's own values (`_Run`) stand in
-- the state. Logs are left out, and so are the prompts around what is sent.
use geoji_agent.Base.{
  ℕ, ◌-◌, Bool, true, false, ◌&&◌, Option, none, some, List, [], ◌∷◌, ◌==◌, leb, length,
  if◌then◌else◌,
}
use geoji_agent.Evidence.{Fact, Snapshot, Resolved, Phrases, RoomRule, build_evidence}
use geoji_agent.Texts.{Intensity, Lexicon}
use geoji_agent.Handling.{Refusal}
use geoji_agent.Preparation.{
  Dossier, Output, Analysis, merge_inferred_facts, Banter, Case, copied_banter, Raw,
  MemoryCandidate, merge_candidates,
}

pub data Status : Type 0 where
  unset loaded stale_event dossier_ready complete_prep invalidated_prep : Status

-- ports.preparation.PrepSaveResult and ValidPrep
pub record PrepSaved : Type 0 where
  pub prep_id : ℕ
  pub status : Status
  pub reused : Bool

pub record ValidPrep : Type 0 where
  pub dossier : Dossier
  pub banter : Banter
  pub prep_id : ℕ

-- What a node is left with: SnapshotNotFound, EvidenceInvalidated, or another exception.
pub data Escape : Type 0 where
  snapshot_missing invalidated : Escape
  other_exception : Refusal → Escape

pub data Turn (A : Type 0) : Type 0 where
  went : A → Turn A
  threw : Escape → Turn A

infixl 5 ◌>>=◌
abbrev pub ◌>>=◌ : {A B : Type 0} → Turn A → (A → Turn B) → Turn B
went a >>= f = f a
threw e >>= f = threw e

-- An exception without the attributes that a handler asks for.
abbrev pub plain : Refusal
plain = record { error_code = none; retry_after_s = none; status = none; code = none }

pub record State : Type 0 where
  pub case : Case
  pub candidates : List MemoryCandidate
  pub resolved : Option Resolved
  pub evidence : List Fact
  pub dossier_id : Option ℕ
  pub reason_analysis : Option Analysis
  pub banter : Banter
  pub status : Status
  pub context_failed : Bool
  pub dossier : Option Dossier
  pub prep_id : Option ℕ
  pub banter_ok : List Intensity
  pub reuse_dossier : Bool
  pub copied : Banter

pub data Include : Type 0 where
  rules aggregates recent_verdicts style_comments : Include

-- ResolveEvidenceRequest
pub record Request : Type 0 where
  pub candidates : List MemoryCandidate
  pub include : List Include

-- The recall: there is no memory, it fails or takes too long, or it finds groups of candidates.
pub data Recall : Type 0 where
  no_memory recall_failed : Recall
  recalled : List (List MemoryCandidate) → Recall

pub data ContextReply : Type 0 where
  context_invalidated context_error : ContextReply
  context_answer : Option Output → ContextReply

-- One intensity's call: it raises beyond the node (an invalidation, or a failure to store the answer),
-- fails, gives no output, or an answer.
pub data BanterReply : Type 0 where
  banter_threw : Escape → BanterReply
  banter_failed no_output : BanterReply
  banter_answer : Option (List (Option Raw)) → BanterReply

pub record World : Type 0 where
  pub has_llm : Bool
  pub snapshot : Turn Case
  pub valid_prep : Option (Option ValidPrep)
  pub recall : Recall
  pub resolve : Request → Option Resolved
  pub context : List Fact → ContextReply
  pub save_prep : Dossier → Bool → Turn PrepSaved
  pub valid_prep_again : Turn (Option ValidPrep)
  pub banter : Intensity → ℕ → List Fact → BanterReply
  pub save_banter : ℕ → Banter → Option Bool
  pub dossier_uuid : ℕ
  pub uuids : ℕ → ℕ

-- The settings and the parameters; `dossier_key` is that of domain/input_hash.py.
pub record Env : Type 0 where
  pub lexicon : Lexicon
  pub phrases : Phrases
  pub rule_matcher : ℕ → RoomRule → Bool
  pub pack_limit : ℕ
  pub recall_limit : ℕ
  pub comment_style : Bool
  pub dossier_key : Case → ℕ

-- PreparePayload
pub record Payload : Type 0 where
  pub post_version : ℕ
  pub audience_version : ℕ

abbrev pub initial_state : Case → Status → State
initial_state c status = record {
  case = c;
  candidates = [];
  resolved = none;
  evidence = [];
  dossier_id = none;
  reason_analysis = none;
  banter = [];
  status = status;
  context_failed = false;
  dossier = none;
  prep_id = none;
  banter_ok = [];
  reuse_dossier = false;
  copied = [];
}

abbrev pub is_current : Payload → Case → Bool
is_current p c =
    c.snapshot.post_version == p.post_version && c.audience_version == p.audience_version

unfoldable pub load_case : World → Payload → Turn State
load_case w p = do
  c ← w.snapshot
  went (initial_state c (if is_current p c then loaded else stale_event))

abbrev pub take_valid : State → Option (Option ValidPrep) → State
take_valid st (some (some v)) = record st {
  dossier = some v.dossier;
  reuse_dossier = true;
  copied = copied_banter v.banter st.case;
  dossier_id = some v.dossier.dossier_id;
  evidence = v.dossier.facts;
}
take_valid st _ = st

unfoldable pub load_reusable_prep : World → State → State
load_reusable_prep w st = take_valid st w.valid_prep

abbrev pub recalled_of : ℕ → Recall → List MemoryCandidate
recalled_of limit no_memory = []
recalled_of limit recall_failed = []
recalled_of limit (recalled groups) = merge_candidates groups limit

unfoldable pub recall_candidates : Env → World → State → State
recall_candidates env w st = record st { candidates = recalled_of env.recall_limit w.recall }

abbrev pub evidence_include : Bool → List Include
evidence_include style =
    rules ∷ aggregates ∷ recent_verdicts ∷ (if style then style_comments ∷ [] else [])

-- ResolveEvidenceRequest takes 20 candidates at most; it is made before the call is guarded.
abbrev pub request_max : ℕ
request_max = 20

unfoldable pub resolve_sources : Env → World → State → Turn State
resolve_sources env w st =
    if leb (length st.candidates) request_max
    then went (record st {
      resolved =
          w.resolve
            (record { candidates = st.candidates; include = evidence_include env.comment_style });
    })
    else threw (other_exception plain)

-- `_f0_only`: nothing is resolved; its aggregates do not reach the pack, which holds one fact.
abbrev pub empty_window : ℕ
empty_window = 2_592_000_000_000

abbrev pub f0_only : Snapshot → Resolved
f0_only s = record {
  aggregates = record {
    repeat_same_category = 0;
    excludes_post_id = 0;
    start_at = s.created_at - empty_window;
    end_at = s.created_at;
    rule_version = 0;
  };
  room_rules = [];
  recent_verdicts = [];
  sources = [];
}

abbrev pub dossier_from_resolved : Env → (ℕ → ℕ) → Snapshot → Option Resolved → Option (List Fact)
dossier_from_resolved env uuids s none =
    build_evidence env.phrases (λ category rule. false) uuids 1 s (f0_only s)
dossier_from_resolved env uuids s (some r) =
    build_evidence env.phrases env.rule_matcher uuids env.pack_limit s r

abbrev pub keep_facts : Env → World → State → Option (List Fact) → Turn State
keep_facts env w st none = threw (other_exception plain)
keep_facts env w st (some facts) = went (record st {
  dossier = some (record {
    dossier_id = w.dossier_uuid;
    post_id = st.case.snapshot.post_id;
    snapshot_hash = env.dossier_key st.case;
    facts = facts;
    privacy_versions = st.case.privacy_versions;
  });
  evidence = facts;
})

unfoldable pub build_db_evidence : Env → World → State → Turn State
build_db_evidence env w st =
    keep_facts env w st (dossier_from_resolved env w.uuids st.case.snapshot st.resolved)

abbrev pub take_context : World → State → Dossier → ContextReply → Turn State
take_context w st d context_invalidated = threw invalidated
take_context w st d context_error = went (record st { context_failed = true })
take_context w st d (context_answer o) =
    let m = merge_inferred_facts w.uuids d o in
    went (record st { dossier = some m.0; evidence = m.0.facts; reason_analysis = m.1 })

abbrev pub ask_context : Bool → World → State → Option Dossier → Turn State
ask_context llm w st none = threw (other_exception plain)
ask_context false w st (some d) = went st
ask_context true w st (some d) = take_context w st d (w.context d.facts)

unfoldable pub analyze_reason : World → State → Turn State
analyze_reason w st = ask_context w.has_llm w st st.dossier

abbrev pub take_again : State → Option ValidPrep → State
take_again st none = record st { status = invalidated_prep }
take_again st (some v) = record st {
  status = dossier_ready;
  dossier = some v.dossier;
  copied = copied_banter v.banter st.case;
  dossier_id = some v.dossier.dossier_id;
  evidence = v.dossier.facts;
}

abbrev pub is_ready : Status → Bool
is_ready dossier_ready = true
is_ready _ = false

abbrev pub reload : World → State → Turn State
reload w st = do again ← w.valid_prep_again; went (take_again st again)

abbrev pub after_save : World → State → Dossier → PrepSaved → Turn State
after_save w st d saved =
    let kept = record st { prep_id = some saved.prep_id } in
    if saved.reused
    then (if is_ready saved.status
        then reload w kept
        else went (record kept { status = saved.status }))
    else went (record kept { status = dossier_ready; dossier_id = some d.dossier_id })

abbrev pub save_dossier : World → State → Option Dossier → Turn State
save_dossier w st none = threw (other_exception plain)
save_dossier w st (some d) = do saved ← w.save_prep d st.reuse_dossier; after_save w st d saved

unfoldable pub persist_dossier : World → State → Turn State
persist_dossier w st = save_dossier w st st.dossier
