-- ===== src/Jobs/Tests.antt =====
-- A small queue, runs of the statements of postgres_jobs.py on it, and the theorems at it.
use mathlib.Core.Option
use geoji_agent.Base.{
  ℕ, ◌+◌, ◌≤◌, ◌≡◌, refl, ◌⊎◌, inl, Bool, true, false, none, some, List, [], ◌∷◌, arith, find,
}
use geoji_agent.Jobs.{
  Job, Event, sentence, JobStatus, queued, running, cancelled, Call, claims, beats, fails, releases,
  reaps, key, claimable, candidate, claim, start, owned, lapsed, fail_row, reap_row, release_row,
  release, run, step, first, precedes, reap, fail, complete, heartbeat, cancel, own,
}
use geoji_agent.Jobs.Claim.{Claimed, claim-Claimed}
use geoji_agent.Jobs.Invariant.{RowOk, run-RowOk, run-terminal, is_terminal}
use geoji_agent.Jobs.Lease.{run-held, IsFenced, run-IsFenced}
use geoji_agent.Jobs.Live.{fail_row_live, release_strands}
use geoji_agent.Jobs.Count.{claims_of, releases_of, claims_bounded, taken, given}

abbrev event : Event
event = record {
  event_id = "e";
  event_type = "verdict.confirmed";
  dedupe_key = "sentence:v1:1";
  aggregate_id = "v1";
  aggregate_version = 1;
  schema_version = 1;
  payload = "{}";
  trace_id = "t";
}

abbrev waiting : Job
waiting = record {
  id = 1;
  event = event;
  kind = sentence;
  status = queued;
  priority = 100;
  attempts = 0;
  max_attempts = 2;
  available_at = 5;
  deadline_at = some 90;
  lease_until = none;
  owner_id = none;
  generation_id = none;
  last_error_code = none;
  created_at = 5;
  updated_at = 5;
}

-- Held by worker 7 under generation 70 until 20.
abbrev pub busy : Job
busy = record waiting {
  id = 2;
  status = running;
  priority = 30;
  attempts = 1;
  lease_until = some 20;
  owner_id = some 7;
  generation_id = some 70;
}

abbrev over : Job
over = record waiting { id = 3; status = cancelled; last_error_code = some "POST_DELETED" }

abbrev pub queue : List Job
queue = waiting ∷ busy ∷ over ∷ []

abbrev open_rows : ℕ → Bool
open_rows _ = false

abbrev history : List (ℕ × Call)
history =
    (10, claims (sentence ∷ []) 8 80 15 open_rows)
    ∷ (12, beats 1 8 80 15)
    ∷ (15, fails 1 8 80 "HANDLER_ERROR" (some 5))
    ∷ (19, reaps)
    ∷ (20, claims (sentence ∷ []) 9 90 15 open_rows)
    ∷ (22, releases 1 9 90)
    ∷ []

program : Unit {0}
unfolding run step claim first claimable precedes heartbeat complete cancel fail release reap owned
    own lapsed claims_of releases_of taken given
program = tt

-- The failed attempt counts, the released one is given back.
history_ends :
    Option.map {B = JobStatus × ℕ × ℕ}
      (λ j. (j.status, j.attempts, j.available_at))
      (find key 1 (run queue history))
    ≡ some (queued, 1, 20)
unfolding program
history_ends = refl

history_counts : (claims_of 1 queue history ≡ 2) × (releases_of 1 queue history ≡ 1)
unfolding program
history_counts = (refl, refl)

claim-Claimed_example :
    Claimed
      (candidate (sentence ∷ []) open_rows 10)
      (start 8 80 15 10)
      queue
      (claim (sentence ∷ []) 8 80 15 open_rows 10 queue)
claim-Claimed_example = claim-Claimed (sentence ∷ []) 8 80 15 open_rows 10 queue (ground arith)

run-RowOk_example : (k : Job) × (find key 2 (run queue history) ≡ some k) × RowOk k
run-RowOk_example = run-RowOk history queue 2 busy (ground arith) refl (ground arith)

run-terminal_example : find key 3 (run queue history) ≡ some over
run-terminal_example = run-terminal history queue 3 over (ground arith) refl refl

run-held_example : find key 2 (run queue history) ≡ some busy
run-held_example =
    run-held history queue 7 70 20 busy (ground arith) refl (ground arith) (ground arith)

-- The reaper took row 2 from generation 70, and generation 80 claims it.
abbrev reclaimed : List (ℕ × Call)
reclaimed = (31, claims (sentence ∷ []) 8 80 15 open_rows) ∷ (33, beats 2 7 70 15) ∷ []

run-IsFenced_example : IsFenced 2 70 (run (reap_row 30 busy ∷ []) reclaimed)
run-IsFenced_example =
    run-IsFenced reclaimed (reap_row 30 busy ∷ []) 2 70 (reap_row 30 busy) (ground arith) refl
      (λ e. cc) (ground arith)

fail_row_live_example :
    let k = fail_row "HANDLER_ERROR" 5 12 busy in
    (is_terminal k.status ≡ true) ⊎ (claimable (sentence ∷ []) (12 + 5) k ≡ true)
unfolding owned
fail_row_live_example =
    fail_row_live "HANDLER_ERROR" 5 2 7 70 12 busy (ground arith) (inl refl) refl

-- Lease to 120, deadline 90: released at 100.
abbrev late : Job
late = record busy { lease_until = some 120 }

release_strands_example :
    find key 2 (run (step (late ∷ []) (100, releases 2 7 70)) ((130, reaps) ∷ []))
    ≡ some (release_row 100 late)
unfolding owned
release_strands_example =
    release_strands ((130, reaps) ∷ []) (late ∷ []) 2 7 70 100 90 late (ground arith) refl
      (ground arith) refl refl (omega arith) (omega arith)

claims_bounded_example : claims_of 1 queue history ≤ 2 + releases_of 1 queue history
claims_bounded_example =
    claims_bounded history queue 1 waiting (ground arith) refl (ground arith) refl

abbrev waiting_later : Job
waiting_later = record waiting {
  attempts = 1;
  available_at = 20;
  last_error_code = some "HANDLER_ERROR";
  updated_at = 22;
}
