-- ===== src/Handling.antt =====
-- application/backend_errors.py and application/sentence_case.py: what a worker does with its job
-- when the backend refuses, and around a run of the sentencing graph. A handler ends with one
-- statement of the queue, or raises and leaves the job to the worker. The backend's answers are
-- inputs; an exception is the attributes that the code asks for, `none` for one that is missing or of
-- another type. Logs are left out.
pub mod Freed
pub mod Others
pub mod Tests
use text.Mathlib.Text.{◌==◌ as same_text}
use geoji_agent.Base.{ℕ, String, Bool, true, false, ◌==◌, ◌||◌, Option, none, some, if◌then◌else◌}
use geoji_agent.Jobs.{
  Call, completes, cancels, fails, JobKind, prepare, sentence, text_retry, retain, jury_vote,
}
use geoji_agent.Sentencing.{Mode, initial, regenerate, Case, Env}
use geoji_agent.Sentencing.Run.{Visit, Run, ended, run_raised, unfinished, run_graph}

pub record Refusal : Type 0 where
  pub error_code : Option String
  pub retry_after_s : Option ℕ
  pub status : Option ℕ
  pub code : Option String

pub data Action : Type 0 where
  complete_it cancel_it fail_it : Action

pub record BackendErrorAction : Type 0 where
  pub action : Action
  pub error_code : Option String

-- `overrides`, a mapping from a status or None and a code or None.
abbrev pub Overrides : Type 0
Overrides = Option ℕ → Option String → Option BackendErrorAction

abbrev pub no_overrides : Overrides
no_overrides _ _ = none

abbrev pub is_code : String → Option String → Bool
is_code s none = false
is_code s (some c) = same_text c s

abbrev pub is_auth : ℕ → Bool
is_auth status = (status == 401) || (status == 403)

-- `a or b` on two lookups.
abbrev pub or_else : {A : Type 0} → Option A → Option A → Option A
or_else (some a) _ = some a
or_else none b = b

abbrev pub get_or : {A : Type 0} → A → Option A → A
get_or a none = a
get_or _ (some b) = b

-- `error_code or code`, where an empty string counts as none.
abbrev pub or_code : String → Option String → String
or_code code none = code
or_code code (some named) = if same_text named "" then code else named

abbrev pub backend_unavailable : String
backend_unavailable = "BACKEND_UNAVAILABLE"

abbrev pub backend_auth : String
backend_auth = "BACKEND_AUTH"

abbrev pub backend_auth_retry_after_s : ℕ
backend_auth_retry_after_s = 60

abbrev pub default_action : String → BackendErrorAction
default_action code = record {
  action = if same_text code "STALE_GENERATION" then complete_it else fail_it;
  error_code = none;
}

module _ (id worker generation : ℕ) where
  abbrev pub take_action : String → Action → Option String → Call
  take_action code complete_it named = completes id worker generation
  take_action code cancel_it named = cancels id worker generation (or_code code named)
  take_action code fail_it named = fails id worker generation (or_code code named) none

  abbrev pub take : String → BackendErrorAction → Call
  take code a = take_action code a.action a.error_code

  abbrev pub auth_failure : Call
  auth_failure = fails id worker generation backend_auth (some backend_auth_retry_after_s)

  abbrev pub without_rule : Overrides → ℕ → String → Call
  without_rule rules status code =
      if is_auth status
      then auth_failure
      else take code (
          get_or (default_action code)
            (or_else (rules (some status) none) (rules none (some code))))

  abbrev pub by_rule : Overrides → ℕ → String → Option BackendErrorAction → Call
  by_rule rules status code (some a) = take code a
  by_rule rules status code none = without_rule rules status code

  abbrev pub answered : Overrides → Option ℕ → Option String → Option Call
  answered rules (some status) (some code) =
      some (by_rule rules status code (rules (some status) (some code)))
  answered rules _ _ = none

  -- The statement that settles the job, or `none` for an exception that the code does not know.
  unfoldable pub settle_backend_error : Overrides → Refusal → Option Call
  settle_backend_error rules e =
      if is_code backend_unavailable e.error_code
      then some (fails id worker generation backend_unavailable e.retry_after_s)
      else answered rules e.status e.code

  -- `none`: the handler raises.
  unfoldable pub stub_handler : Option Refusal → Option Refusal → Option Call
  unfolding settle_backend_error
  stub_handler (some e) _ = settle_backend_error no_overrides e
  stub_handler none (some e) = settle_backend_error no_overrides e
  stub_handler none none = some (completes id worker generation)

-- The attributes of SnapshotNotFound.
abbrev pub snapshot_not_found : String
snapshot_not_found = "SNAPSHOT_NOT_FOUND"

-- What the body of the handler raises: SnapshotNotFound, or another exception.
pub data Raised : Type 0 where
  not_found : Raised
  refused : Refusal → Raised

-- The answer to `backend.snapshot`: with the mode, the snapshot fixes the case of the graph.
pub data SnapshotReply : Type 0 where
  snapshot : (Mode → Case) → SnapshotReply
  snapshot_raised : Raised → SnapshotReply

pub data Outcome : Type 0 where
  sends : Call → Outcome
  raises : Outcome
  runs_on : Outcome

abbrev pub mode_of : JobKind → Mode
mode_of text_retry = regenerate
mode_of _ = initial

abbrev pub outcome_of : Option Call → Outcome
outcome_of none = raises
outcome_of (some c) = sends c

-- What the world does while the handler runs. `has_payload`: parse_payload gives the payload of a
-- SENTENCE or a TEXT_RETRY, so that the assertion on it holds. `graph` is the world of the graph's nodes, `escaped` is
-- the exception with which a run that raises is left.
pub record World : Type 0 where
  pub has_payload : Bool
  pub has_llm : Bool
  pub begin_refused : Option Refusal
  pub report_refused : Option Refusal
  pub snapshot_reply : SnapshotReply
  pub graph : ℕ → Visit
  pub escaped : Raised

module _ (id worker generation : ℕ) where
  abbrev pub on_exception : Raised → Outcome
  on_exception not_found = sends (cancels id worker generation snapshot_not_found)
  on_exception (refused e) = outcome_of (settle_backend_error id worker generation no_overrides e)

  abbrev pub after_graph : World → Run → Outcome
  after_graph w (ended st) = sends (completes id worker generation)
  after_graph w run_raised = on_exception w.escaped
  after_graph w unfinished = runs_on

  abbrev pub after_snapshot : ℕ → Env → JobKind → World → SnapshotReply → Outcome
  after_snapshot fuel env kind w (snapshot case_of) =
      after_graph w (run_graph fuel env (case_of (mode_of kind)) w.graph)
  after_snapshot fuel env kind w (snapshot_raised e) = on_exception e

  abbrev pub with_model : Bool → ℕ → Env → JobKind → World → Outcome
  with_model false fuel env kind w =
      outcome_of (stub_handler id worker generation w.begin_refused w.report_refused)
  with_model true fuel env kind w = after_snapshot fuel env kind w w.snapshot_reply

  abbrev pub with_payload : Bool → ℕ → Env → JobKind → World → Outcome
  with_payload false fuel env kind w = raises
  with_payload true fuel env kind w = with_model w.has_llm fuel env kind w

  unfoldable pub sentence_handler : ℕ → Env → JobKind → World → Outcome
  sentence_handler fuel env kind w = with_payload w.has_payload fuel env kind w
