-- ===== src/Worker/Beats.antt =====
-- What the heartbeat of workers/heartbeat.py allows, and the alert of workers/main.py.
use geoji_agent.Base.{
  ℕ, ◌+◌, ◌≤◌, ◌<◌, ◌≡◌, String, Bool, true, some, List, [], ◌∷◌, arith, Option-cases, inl, inr,
}
use geoji_agent.Jobs.{Job, fail_row}
use geoji_agent.Jobs.Invariant.{is_terminal}
use geoji_agent.Worker.{Beat, alive, lost, error, beat, beats, alerts_exhausted}

abbrev pub time_of : Beat → ℕ
time_of (alive now) = now
time_of (lost now) = now
time_of (error now) = now

-- The rounds' times do not go back.
abbrev pub Ordered : ℕ → List Beat → Type 0
Ordered t [] = Unit
Ordered t (b ∷ bs) = (t ≤ time_of b) × Ordered (time_of b) bs

abbrev pub last_time : ℕ → List Beat → ℕ
last_time t [] = t
last_time t (b ∷ bs) = last_time (time_of b) bs

beats-within_from :
    (interval lease last_ok now ok' : ℕ) (bs : List Beat)
    → Ordered now bs
    → last_ok ≤ now
    → now + interval < last_ok + lease
    → interval < lease
    → beats interval lease last_ok bs ≡ some ok'
    → (ok' ≤ last_time now bs) × (last_time now bs + interval < ok' + lease)
unfolding beats beat
beats-within_from interval lease last_ok now ok' [] ordered passed room short e = ground arith
beats-within_from interval lease last_ok now ok' (b ∷ bs) ordered passed room short e =
    elim (Option-cases (beat interval lease last_ok b)) [
      | inl n ↦ ground arith
      | inr (t, n) ↦
          beats-within_from interval lease t (time_of b) ok' bs ordered.1
            (ground (arith, ordered.0, n)) (ground (arith, ordered.0, n)) short (ground (arith, n))
    ]

-- While the heartbeat lets the handler run, the next renewal starts within the lease counted from the
-- last success: with an interval shorter than the lease and times that do not go back, the last
-- round's time plus the interval is before the last success plus the lease.
pub beats-within :
    (interval lease start ok' : ℕ) (bs : List Beat)
    → interval < lease
    → Ordered start bs
    → beats interval lease start bs ≡ some ok'
    → last_time start bs + interval < ok' + lease
beats-within interval lease start ok' bs short ordered e =
    (beats-within_from interval lease start start ok' bs ordered (omega arith) (omega arith) short
      e).1

-- The alert that a job's attempts are exhausted is raised only where the failure has ended the job:
-- the row that the failed attempt leaves is terminal, whatever the delay and the time.
pub alerts_exhausted-terminal :
    (notifier updated : Bool) (job : Job) (code : String) (delay now : ℕ)
    → alerts_exhausted notifier job updated ≡ true
    → is_terminal (fail_row code delay now job).status ≡ true
unfolding alerts_exhausted
alerts_exhausted-terminal notifier updated job code delay now e = ground arith
