-- ===== src/Worker/Tests.antt =====
-- Runs of the heartbeat, the slot loops and the shutdown of workers/main.py.
use geoji_agent.Base.{◌≡◌, refl, false, none, some, List, [], ◌∷◌, arith, find}
use geoji_agent.Jobs.{Job, key, release_row, sentence, running, run, owned}
use geoji_agent.Worker.{
  InFlight, Step, claimed, ended, lease_lost, crashed, Beat, alive, error, flight, flight_step,
  release_inflight,
}
use geoji_agent.Worker.Shutdown.{stamped, shutdown-returns}

abbrev rounds : List Beat
rounds = alive 5 ∷ error 12 ∷ []

abbrev row : Job
row = record {
  id = 2;
  event = record {
    event_id = "e";
    event_type = "verdict.confirmed";
    dedupe_key = "sentence:v1:1";
    aggregate_id = "v1";
    aggregate_version = 1;
    schema_version = 1;
    payload = "{}";
    trace_id = "t";
  };
  kind = sentence;
  status = running;
  priority = 30;
  attempts = 2;
  max_attempts = 2;
  available_at = 5;
  deadline_at = some 90;
  lease_until = some 20;
  owner_id = some 7;
  generation_id = some 70;
  last_error_code = none;
  created_at = 5;
  updated_at = 5;
}

abbrev mine : InFlight
mine = record { job_id = 2; worker_id = 7; generation_id = 70 }

abbrev other : InFlight
other = record { job_id = 3; worker_id = 8; generation_id = 80 }

abbrev before : List Step
before = claimed other false ∷ []

abbrev between : List Step
between = ended other crashed ∷ []

shutdown-returns_example :
    find key 2 (
      run (row ∷ []) (
        stamped 9
          (release_inflight (flight [] (claimed other false ∷ claimed mine false ∷ between)))))
    ≡ some (release_row 9 row)
unfolding owned
shutdown-returns_example =
    shutdown-returns 9 [] before between mine (row ∷ []) row ((λ e. ground arith), tt)
      (ground arith) refl (ground arith) refl

-- The same job under a new generation in another slot of the process, and then the end of the old run:
-- the map has lost the new one.
abbrev again : InFlight
again = record mine { generation_id = 71 }

overlap_forgets :
    flight [] (claimed mine false ∷ claimed again false ∷ ended mine lease_lost ∷ []) ≡ []
unfolding flight flight_step
overlap_forgets = refl
