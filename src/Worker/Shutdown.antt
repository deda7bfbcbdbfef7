-- ===== src/Worker/Shutdown.antt =====
-- What the shutdown of workers/main.py does to the queue of postgres_jobs.py.
use geoji_agent.Base.{
  ℕ, ◌≡◌, ap, ◌∙◌, true, false, some, List, [], ◌∷◌, ◌++◌, arith, Bool-cases, inl, inr, find, All,
  Among, IsKeyed,
}
use geoji_agent.Jobs.{Job, Call, releases, key, owned, release_row, run, step}
use geoji_agent.Jobs.Change.{step-Change, step-IsKeyed}
use geoji_agent.Jobs.Invariant.{RowOk}
use geoji_agent.Worker.{InFlight, Step, claimed, release_inflight, flight}
use geoji_agent.Worker.Flight.{Quiet, release_inflight-covers}

abbrev pub stamped : ℕ → List Call → List (ℕ × Call)
stamped now [] = []
stamped now (c ∷ cs) = (now, c) ∷ stamped now cs

abbrev release_call : InFlight → Call
release_call f = releases f.job_id f.worker_id f.generation_id

-- A row that has been given back is left alone by the releases that follow.
returned-stays :
    (now : ℕ) (es : List InFlight) (t : List Job) (i : ℕ) (j : Job)
    → IsKeyed key t
    → find key i t ≡ some (release_row now j)
    → find key i (run t (stamped now (release_inflight es))) ≡ some (release_row now j)
unfolding release_inflight run owned
returned-stays now [] t i j u e = e
returned-stays now (f ∷ es) t i j u e =
    let (k, e', c) = step-Change t i (release_row now j) u e (now, release_call f) in
    let same : k ≡ release_row now j = ground arith in
    returned-stays now es (step t (now, release_call f)) i j
      (step-IsKeyed t (now, release_call f) u) (e' ∙ ap some same)

releases-return :
    (now : ℕ) (es : List InFlight) (t : List Job) (e : InFlight) (j : Job)
    → IsKeyed key t
    → find key e.job_id t ≡ some j
    → RowOk j
    → owned e.job_id e.worker_id e.generation_id now j ≡ true
    → Among (release_call e) (release_inflight es)
    → find key e.job_id (run t (stamped now (release_inflight es))) ≡ some (release_row now j)
unfolding release_inflight run owned
releases-return now [] t e j u there v own among = elim among [ ]
releases-return now (f ∷ es) t e j u there v own among =
    let (k, there', c) = step-Change t e.job_id j u there (now, release_call f) in
    let keyed = step-IsKeyed t (now, release_call f) u in
    elim (Bool-cases (owned f.job_id f.worker_id f.generation_id now j)) [
      | inl hit ↦
          returned-stays now es (step t (now, release_call f)) e.job_id j keyed
            (there' ∙ ap some (ground (arith, v.shaped)))
      | inr miss ↦
          releases-return now es (step t (now, release_call f)) e j keyed
            (there' ∙ ap some (ground arith)) v own (later miss among)
    ]
  where
    later :
        owned f.job_id f.worker_id f.generation_id now j ≡ false
        → Among (release_call e) (release_inflight (f ∷ es))
        → Among (release_call e) (release_inflight es)
    later miss (inl same) = absurd (ground arith)
    later miss (inr among) = among

-- At a shutdown the queue gets back what a slot still runs: if a job was claimed and started, no later
-- step ended it or started it again, and its row is still owned under that claim, then after the shutdown's
-- releases the row is as one release leaves it, queued and with the attempt given back, whatever else
-- was in flight.
pub shutdown-returns :
    (now : ℕ) (es : List InFlight) (ss us : List Step) (e : InFlight) (t : List Job) (j : Job)
    → All (Quiet e.job_id) us
    → IsKeyed key t
    → find key e.job_id t ≡ some j
    → RowOk j
    → owned e.job_id e.worker_id e.generation_id now j ≡ true
    → find key e.job_id
        (run t (stamped now (release_inflight (flight es (ss ++ claimed e false ∷ us)))))
      ≡ some (release_row now j)
shutdown-returns now es ss us e t j quiet u there v own =
    releases-return now (flight es (ss ++ claimed e false ∷ us)) t e j u there v own
      (release_inflight-covers es ss us e quiet)
