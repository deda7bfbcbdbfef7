-- ===== src/Worker/Flight.antt =====
-- The jobs in flight of workers/main.py and their release at shutdown.
use geoji_agent.Base.{
  ℕ, ◌≡◌, ◌≢◌, refl, ap, ◌∙◌, true, false, some, List, [], ◌∷◌, ◌++◌, arith, Bool-cases, inl, inr,
  find, All, Among, ◌==◌,
}
use geoji_agent.Jobs.{releases}
use geoji_agent.Worker.{
  InFlight, Step, clean, lease_lost, interrupted, crashed, claim_failed, nothing_claimed, claimed,
  ended, flight_key, discard, flight_step, release_inflight, flight,
}

-- The step is not one of the job `id`, unless its run is interrupted.
abbrev pub Quiet : ℕ → Step → Type 0
Quiet id (claimed e false) = e.job_id ≢ id
Quiet id (ended e interrupted) = Unit
Quiet id (ended e end) = e.job_id ≢ id
Quiet id s = Unit

find-discard :
    (id i : ℕ) (es : List InFlight)
    → i ≢ id
    → find flight_key id (discard i es) ≡ find flight_key id es
find-discard id i [] other = refl
find-discard id i (e ∷ es) other = ground (arith, find-discard id i es other)

flight_step-keeps :
    (id : ℕ) (es : List InFlight) (s : Step)
    → Quiet id s
    → find flight_key id (flight_step es s) ≡ find flight_key id es
unfolding flight_step
flight_step-keeps id es claim_failed q = refl
flight_step-keeps id es nothing_claimed q = refl
flight_step-keeps id es (claimed e true) q = refl
flight_step-keeps id es (claimed e false) q = ground (arith, find-discard id e.job_id es q)
flight_step-keeps id es (ended e clean) q = find-discard id e.job_id es q
flight_step-keeps id es (ended e lease_lost) q = find-discard id e.job_id es q
flight_step-keeps id es (ended e interrupted) q = refl
flight_step-keeps id es (ended e crashed) q = find-discard id e.job_id es q

flight-keeps :
    (id : ℕ) (es : List InFlight) (ss : List Step)
    → All (Quiet id) ss
    → find flight_key id (flight es ss) ≡ find flight_key id es
unfolding flight
flight-keeps id es [] q = refl
flight-keeps id es (s ∷ ss) q =
    flight-keeps id (flight_step es s) ss q.1 ∙ flight_step-keeps id es s q.0

flight-append :
    (es : List InFlight) (ss us : List Step) → flight es (ss ++ us) ≡ flight (flight es ss) us
unfolding flight
flight-append es [] us = refl
flight-append es (s ∷ ss) us = flight-append (flight_step es s) ss us

find-released :
    (id : ℕ) (es : List InFlight) (e : InFlight)
    → find flight_key id es ≡ some e
    → Among (releases e.job_id e.worker_id e.generation_id) (release_inflight es)
unfolding release_inflight
find-released id [] e h = absurd cc
find-released id (f ∷ es) e h = elim (Bool-cases (f.job_id == id)) [
  | inl hit ↦ inl (ground arith)
  | inr miss ↦ inr (find-released id es e (ground arith))
]

find-started :
    (es : List InFlight) (e : InFlight)
    → find flight_key e.job_id (flight_step es (claimed e false)) ≡ some e
unfolding flight_step
find-started es e = ground arith

-- A job that a slot has claimed and started is given back at shutdown if no later step of any slot
-- ends it, other than by interrupting it, or starts the same job again: its release, under the worker and
-- the generation of the claim, is among the statements that the shutdown sends.
pub release_inflight-covers :
    (es : List InFlight) (ss us : List Step) (e : InFlight)
    → All (Quiet e.job_id) us
    → Among
        (releases e.job_id e.worker_id e.generation_id)
        (release_inflight (flight es (ss ++ claimed e false ∷ us)))
release_inflight-covers es ss us e quiet = find-released e.job_id _ e (
    ap (find flight_key e.job_id) (flight-append es ss (claimed e false ∷ us))
    ∙ unfold flight in
      flight-keeps e.job_id (flight_step (flight es ss) (claimed e false)) us quiet
      ∙ find-started (flight es ss) e)
