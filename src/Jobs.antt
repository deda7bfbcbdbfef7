-- ===== src/Jobs.antt =====
-- src/geoji_ai/adapters/postgres_jobs.py on the rows of src/geoji_ai/contracts/jobs.py: the queue
-- `ai.jobs`, one function for each SQL statement. `now()` is an argument, in microseconds; uuids,
-- worker names and times are numbers, since the statements only compare and add them. A table is
-- its list of rows, keyed by `id`. The statements of database/migrations (the table's checks) that a
-- statement can break are written out as the result `none`.
mod Queue
pub mod Claim
pub mod Change
pub mod Invariant
pub mod Lease
pub mod Live
pub mod Count
pub mod Tests
pub use Queue.*
use geoji_agent.Base.{
  ℕ, ◌+◌, ◌-◌, String, Bool, true, false, not, ◌&&◌, ◌||◌, Option, none, some, List, [], ◌∷◌, ltb,
  leb, ◌==◌, if◌then◌else◌, eq_col, lt_col, le_col, gt_col, is_null, any, update_where, rowcount,
}

-- CLAIM_SQL, the test of `next_job` without the row lock.
unfoldable pub claimable : List JobKind → ℕ → Job → Bool
claimable kinds now j =
    is_queued j.status
    && any (same_kind j.kind) kinds
    && ltb j.attempts j.max_attempts
    && leb j.available_at now
    && (is_null j.deadline_at || gt_col j.deadline_at now)

-- `ORDER BY priority DESC, available_at, created_at, id`
unfoldable pub precedes : Job → Job → Bool
precedes a b =
    if ltb b.priority a.priority
    then true
    else if ltb a.priority b.priority
    then false
    else if ltb a.available_at b.available_at
    then true
    else if ltb b.available_at a.available_at
    then false
    else if ltb a.created_at b.created_at
    then true
    else if ltb b.created_at a.created_at
    then false
    else ltb a.id b.id

-- `... LIMIT 1`: the first row of that order among those that pass a test.
abbrev pub earlier : (Job → Bool) → Job → Option Job → Option Job
earlier p j none = if p j then some j else none
earlier p j (some k) = if p j && precedes j k then some j else some k

unfoldable pub first : (Job → Bool) → List Job → Option Job
first p [] = none
first p (j ∷ js) = earlier p j (first p js)

-- CLAIM_SQL, the SET list.
abbrev pub start : ℕ → ℕ → ℕ → ℕ → Job → Job
start worker generation lease_s now j = record j {
  status = running;
  owner_id = some worker;
  generation_id = some generation;
  lease_until = some (now + lease_s);
  attempts = j.attempts + 1;
  updated_at = now;
}

-- `SKIP LOCKED`: rows that another transaction has locked are passed over.
abbrev pub candidate : List JobKind → (ℕ → Bool) → ℕ → Job → Bool
candidate kinds locked now j = claimable kinds now j && not (locked j.id)

unfoldable pub claim : List JobKind → ℕ → ℕ → ℕ → (ℕ → Bool) → ℕ → List Job → Option Job × List Job
claim kinds worker generation lease_s locked now t = elim (first (candidate kinds locked now) t) [
  | none ↦ (none, t)
  | some k ↦ (
    some (start worker generation lease_s now k),
    update_where (λ j. j.id == k.id) (start worker generation lease_s now) t,
  )
]

-- OWNERSHIP_WHERE
unfoldable pub owned : ℕ → ℕ → ℕ → ℕ → Job → Bool
owned id worker generation now j =
    j.id == id
    && eq_col j.owner_id worker
    && eq_col j.generation_id generation
    && is_running j.status
    && gt_col j.lease_until now

-- `_own`: run a statement under the ownership test, and say whether a row was hit.
unfoldable pub own : (Job → Bool) → (Job → Job) → List Job → Bool × List Job
own p f t = (not (rowcount p t == 0), update_where p f t)

abbrev pub beat_row : ℕ → ℕ → Job → Job
beat_row lease_s now j = record j { updated_at = now; lease_until = some (now + lease_s) }

abbrev pub complete_row : ℕ → Job → Job
complete_row now j = record j { updated_at = now; status = succeeded }

abbrev pub cancel_row : String → ℕ → Job → Job
cancel_row code now j = record j {
  updated_at = now;
  status = cancelled;
  last_error_code = some code;
  owner_id = none;
  generation_id = none;
  lease_until = none;
}

-- FAIL_SQL, the CASE.
abbrev pub fail_status : ℕ → ℕ → Job → JobStatus
fail_status retry_after now j =
    if same_kind j.kind sentence && le_col j.deadline_at (now + retry_after)
    then cancelled
    else if leb j.max_attempts j.attempts
    then failed
    else queued

abbrev pub fail_row : String → ℕ → ℕ → Job → Job
fail_row code retry_after now j = record j {
  updated_at = now;
  status = fail_status retry_after now j;
  available_at = now + retry_after;
  last_error_code = some code;
  owner_id = none;
  generation_id = none;
  lease_until = none;
}

abbrev pub release_row : ℕ → Job → Job
release_row now j = record j {
  updated_at = now;
  status = queued;
  attempts = j.attempts - 1;
  owner_id = none;
  generation_id = none;
  lease_until = none;
}

pub heartbeat : ℕ → ℕ → ℕ → ℕ → ℕ → List Job → Bool × List Job
unfolding own
heartbeat id worker generation lease_s now =
    own (owned id worker generation now) (beat_row lease_s now)

pub complete : ℕ → ℕ → ℕ → ℕ → List Job → Bool × List Job
unfolding own
complete id worker generation now = own (owned id worker generation now) (complete_row now)

pub cancel : ℕ → ℕ → ℕ → String → ℕ → List Job → Bool × List Job
unfolding own
cancel id worker generation code now = own (owned id worker generation now) (cancel_row code now)

-- `retry_after_s=None` is 0 seconds.
abbrev pub retry_delay : Option ℕ → ℕ
retry_delay none = 0
retry_delay (some s) = s

pub fail : ℕ → ℕ → ℕ → String → Option ℕ → ℕ → List Job → Bool × List Job
unfolding own
fail id worker generation code retry_after_s now =
    own (owned id worker generation now) (fail_row code (retry_delay retry_after_s) now)

-- `none`: `attempts - 1` would break the table's check `attempts >= 0`, so the statement raises.
pub release : ℕ → ℕ → ℕ → ℕ → List Job → Option (Bool × List Job)
unfolding own
release id worker generation now t =
    if any (λ j. owned id worker generation now j && j.attempts == 0) t
    then none
    else some (own (owned id worker generation now) (release_row now) t)

-- REAPER_SQL
unfoldable pub lapsed : ℕ → Job → Bool
lapsed now j = is_running j.status && lt_col j.lease_until now

abbrev pub reap_status : ℕ → Job → JobStatus
reap_status now j =
    if same_kind j.kind text_retry
    then failed
    else if same_kind j.kind sentence && (is_null j.deadline_at || le_col j.deadline_at now)
    then cancelled
    else if leb j.max_attempts j.attempts
    then failed
    else queued

abbrev pub coalesce : Option String → String → Option String
coalesce none s = some s
coalesce (some c) s = some c

abbrev pub reap_row : ℕ → Job → Job
reap_row now j = record j {
  status = reap_status now j;
  owner_id = none;
  generation_id = none;
  lease_until = none;
  last_error_code = coalesce j.last_error_code "LEASE_EXPIRED";
  updated_at = now;
}

pub reap : ℕ → List Job → ℕ × List Job
reap now t = (rowcount (lapsed now) t, update_where (lapsed now) (reap_row now) t)

-- One statement of the adapter, by any worker, at a time of the database's clock.
pub data Call : Type 0 where
  claims : List JobKind → (worker generation lease_s : ℕ) → (ℕ → Bool) → Call
  beats : (id worker generation lease_s : ℕ) → Call
  completes : (id worker generation : ℕ) → Call
  cancels : (id worker generation : ℕ) → String → Call
  fails : (id worker generation : ℕ) → String → Option ℕ → Call
  releases : (id worker generation : ℕ) → Call
  reaps : Call

abbrev pub after : List Job → Option (Bool × List Job) → List Job
after t none = t
after t (some (_, u)) = u

pub step : List Job → ℕ × Call → List Job
unfolding claim heartbeat complete cancel fail release reap
step t (now, claims kinds w g lease_s locked) = (claim kinds w g lease_s locked now t).1
step t (now, beats id w g lease_s) = (heartbeat id w g lease_s now t).1
step t (now, completes id w g) = (complete id w g now t).1
step t (now, cancels id w g code) = (cancel id w g code now t).1
step t (now, fails id w g code retry) = (fail id w g code retry now t).1
step t (now, releases id w g) = after t (release id w g now t)
step t (now, reaps) = (reap now t).1

unfoldable pub run : List Job → List (ℕ × Call) → List Job
run t [] = t
run t (e ∷ es) = run (step t e) es
