-- ===== src/Jobs/Queue.antt =====
-- The rows of `ai.jobs`: src/geoji_ai/contracts/jobs.py.
use geoji_agent.Base.{ℕ, String, Bool, true, false, Option, ◌==◌}

pub data JobKind : Type 0 where
  prepare sentence text_retry retain jury_vote : JobKind

pub data JobStatus : Type 0 where
  queued running succeeded failed cancelled : JobStatus

abbrev pub kind_code : JobKind → ℕ
kind_code prepare = 0
kind_code sentence = 1
kind_code text_retry = 2
kind_code retain = 3
kind_code jury_vote = 4

abbrev pub same_kind : JobKind → JobKind → Bool
same_kind a b = kind_code a == kind_code b

abbrev pub is_queued : JobStatus → Bool
is_queued queued = true
is_queued _ = false

abbrev pub is_running : JobStatus → Bool
is_running running = true
is_running _ = false

-- The columns that no statement of the adapter writes or tests.
pub record Event : Type 0 where
  pub event_id : String
  pub event_type : String
  pub dedupe_key : String
  pub aggregate_id : String
  pub aggregate_version : ℕ
  pub schema_version : ℕ
  pub payload : String
  pub trace_id : String

pub record Job : Type 0 where
  pub id : ℕ
  pub event : Event
  pub kind : JobKind
  pub status : JobStatus
  pub priority : ℕ
  pub attempts : ℕ
  pub max_attempts : ℕ
  pub available_at : ℕ
  pub deadline_at : Option ℕ
  pub lease_until : Option ℕ
  pub owner_id : Option ℕ
  pub generation_id : Option ℕ
  pub last_error_code : Option String
  pub created_at : ℕ
  pub updated_at : ℕ

abbrev pub key : Job → ℕ
key j = j.id
