-- ===== src/Jobs/Live.antt =====
-- Whether a row that goes back to the queue can be claimed again. `fail` and `reap` of
-- postgres_jobs.py see to it; `release` does not look at the deadline.
use geoji_agent.Base.{
  ℕ, ◌+◌, ◌≤◌, ◌≡◌, refl, ap, ◌∙◌, ◌⊎◌, true, none, some, List, [], ◌∷◌, arith, find, IsKeyed, All,
  String,
}
use geoji_agent.Jobs.{
  Job, sentence, queued, Call, claims, beats, completes, cancels, fails, releases, reaps, key,
  claimable, owned, lapsed, fail_row, reap_row, release_row, run, step,
}
use geoji_agent.Jobs.Invariant.{RowOk, is_terminal}
use geoji_agent.Jobs.Change.{Change, run-keeps, step-Change, step-IsKeyed}

-- How the rows of the queue are declared (dispatch.py, JOB_ROUTES): a deadline stands on a SENTENCE
-- or on a job with a single attempt.
abbrev pub IsRouted : Job → Type 0
IsRouted j = (j.kind ≡ sentence) ⊎ ((j.deadline_at ≡ none) ⊎ (j.max_attempts ≡ 1))

-- A failed attempt never strands a routed row: it ends the row for good, or a worker of its kind can
-- claim it as soon as the delay is over.
pub fail_row_live :
    (code : String) (retry id w g now : ℕ) (j : Job)
    → RowOk j
    → IsRouted j
    → owned id w g now j ≡ true
    → let k = fail_row code retry now j in
      (is_terminal k.status ≡ true) ⊎ (claimable (j.kind ∷ []) (now + retry) k ≡ true)
unfolding owned claimable
fail_row_live code retry id w g now j v r o = ground arith

-- Nor does a lapsed lease: the reaper ends the row for good, or it can be claimed at once.
pub reap_row_live :
    (now : ℕ) (j : Job)
    → RowOk j
    → IsRouted j
    → j.available_at ≤ now
    → lapsed now j ≡ true
    → let k = reap_row now j in
      (is_terminal k.status ≡ true) ⊎ (claimable (j.kind ∷ []) now k ≡ true)
unfolding lapsed claimable
reap_row_live now j v r a o = ground arith

-- Queued with a deadline that has passed.
record IsStranded (end : ℕ) (j : Job) : Type 0 where
  is_queued : j.status ≡ queued
  deadline : j.deadline_at ≡ some end

abbrev From : ℕ → ℕ × Call → Type 0
From end c = end ≤ c.0

Change-stranded :
    (end : ℕ) (j : Job)
    → IsStranded end j
    → (c : ℕ × Call) (x k : Job) → From end c
    → x ≡ j
    → Change c x k
    → k ≡ j
unfolding claimable owned lapsed
Change-stranded end j s (now, claims kinds w' g' lease_s locked) x k h e c = ground arith
Change-stranded end j s (now, beats id w' g' lease_s) x k h e c = ground arith
Change-stranded end j s (now, completes id w' g') x k h e c = ground arith
Change-stranded end j s (now, cancels id w' g' code) x k h e c = ground arith
Change-stranded end j s (now, fails id w' g' code retry) x k h e c = ground arith
Change-stranded end j s (now, releases id w' g') x k h e c = ground arith
Change-stranded end j s (now, reaps) x k h e c = ground arith

-- A release at or after the deadline strands the row: it is queued, and no history of statements at
-- that time or later ever changes it again.
pub release_strands :
    (es : List (ℕ × Call)) (t : List Job) (id w g now end : ℕ) (j : Job)
    → IsKeyed key t
    → find key id t ≡ some j
    → RowOk j
    → owned id w g now j ≡ true
    → j.deadline_at ≡ some end
    → end ≤ now
    → All (λ c. now ≤ c.0) es
    → find key id (run (step t (now, releases id w g)) es) ≡ some (release_row now j)
unfolding owned
release_strands es t id w g now end j u e v o d late after =
    let (k, e', c) = step-Change t id j u e (now, releases id w g) in
    let first : k ≡ release_row now j = ground (arith, v.shaped) in
    let stranded : IsStranded end (release_row now j) = record { is_queued = refl; deadline = d } in
    let (x, e'', same) =
      run-keeps (λ x. x ≡ release_row now j) (λ c. now ≤ c.0)
        (λ c x y h. Change-stranded end (release_row now j) stranded c x y (omega arith)) es
        (step t (now, releases id w g)) id k after (step-IsKeyed t (now, releases id w g) u) e'
        first in
    e'' ∙ ap some same
