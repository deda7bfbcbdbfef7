-- ===== src/Worker.antt =====
-- src/geoji_ai/workers/heartbeat.py and workers/main.py: the heartbeat that watches a lease, the slot
-- loop that claims and runs jobs, the map of the jobs in flight and their release at shutdown. What
-- the queue answers and how a handler ends are inputs; what the loop asks of the queue is a list of
-- statements of Jobs. Times of the heartbeat are microseconds of the process's monotonic clock.
pub mod Beats
pub mod Flight
pub mod Shutdown
pub mod Tests
use geoji_agent.Base.{
  ℕ, ◌+◌, ◌-◌, String, Bool, true, false, not, ◌&&◌, ◌||◌, Option, none, some, List, [], ◌∷◌, ◌++◌,
  ltb, leb, ◌==◌, if◌then◌else◌, find,
}
use geoji_agent.Jobs.{Job, Call, releases, fails}

-- One round of `_beat`: what `heartbeat` answers, or an exception or timeout, and the time after it.
pub data Beat : Type 0 where
  alive lost : ℕ → Beat
  error : ℕ → Beat

-- `none`: the handler's task is cancelled and the heartbeat ends. Else the last success.
unfoldable pub beat : ℕ → ℕ → ℕ → Beat → Option ℕ
beat interval lease last_ok (alive now) = some now
beat interval lease last_ok (lost now) = none
beat interval lease last_ok (error now) =
    if ltb (now - last_ok + interval) lease then some last_ok else none

-- `_beat` over its rounds.
unfoldable pub beats : ℕ → ℕ → ℕ → List Beat → Option ℕ
unfolding beat
beats interval lease last_ok [] = some last_ok
beats interval lease last_ok (b ∷ bs) = elim (beat interval lease last_ok b) [
  | none ↦ none
  | some t ↦ beats interval lease t bs
]

pub record InFlight : Type 0 where
  pub job_id : ℕ
  pub worker_id : ℕ
  pub generation_id : ℕ

-- How `run_job` ends in the slot loop: the handler returned; it was cancelled because the heartbeat
-- lost the lease; the loop itself was cancelled or the process shuts down; the handler raised.
pub data Ending : Type 0 where
  clean lease_lost interrupted crashed : Ending

-- The slot loops' steps, interleaved: an answer to `claim` (with the shutdown flag as it stands after
-- it), and the end of a running job.
pub data Step : Type 0 where
  claim_failed : Step
  nothing_claimed : Step
  claimed : InFlight → Bool → Step
  ended : InFlight → Ending → Step

abbrev pub flight_key : InFlight → ℕ
flight_key e = e.job_id

-- `self._inflight`, a dictionary by job id.
abbrev pub discard : ℕ → List InFlight → List InFlight
discard id [] = []
discard id (e ∷ es) = if e.job_id == id then discard id es else e ∷ discard id es

abbrev pub register : InFlight → List InFlight → List InFlight
register e es = e ∷ discard e.job_id es

-- The dictionary after a step. A claim that comes back after the shutdown has begun is not run.
unfoldable pub flight_step : List InFlight → Step → List InFlight
flight_step es claim_failed = es
flight_step es nothing_claimed = es
flight_step es (claimed e true) = es
flight_step es (claimed e false) = register e es
flight_step es (ended e clean) = discard e.job_id es
flight_step es (ended e lease_lost) = discard e.job_id es
flight_step es (ended e interrupted) = es
flight_step es (ended e crashed) = discard e.job_id es

-- HANDLER_ERROR_RETRY_AFTER_S in microseconds.
abbrev pub handler_error_retry_after : ℕ
handler_error_retry_after = 5_000_000

-- What a step asks of the queue.
unfoldable pub step_calls : Step → List Call
step_calls claim_failed = []
step_calls nothing_claimed = []
step_calls (claimed e true) = releases e.job_id e.worker_id e.generation_id ∷ []
step_calls (claimed e false) = []
step_calls (ended e clean) = []
step_calls (ended e lease_lost) = []
step_calls (ended e interrupted) = []
step_calls (ended e crashed) =
    fails e.job_id e.worker_id e.generation_id "HANDLER_ERROR" (some handler_error_retry_after) ∷ []

-- `_release_inflight`
unfoldable pub release_inflight : List InFlight → List Call
release_inflight [] = []
release_inflight (e ∷ es) = releases e.job_id e.worker_id e.generation_id ∷ release_inflight es

unfoldable pub flight : List InFlight → List Step → List InFlight
unfolding flight_step
flight es [] = es
flight es (s ∷ ss) = flight (flight_step es s) ss

-- `_alert_if_exhausted`, with the notifier's presence as a Boolean.
unfoldable pub alerts_exhausted : Bool → Job → Bool → Bool
alerts_exhausted notifier job updated = notifier && updated && leb job.max_attempts job.attempts
