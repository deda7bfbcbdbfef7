-- ===== src/Jobs/Invariant.antt =====
-- The rows of `ai.jobs` under every statement of postgres_jobs.py: the checks of the table
-- (database/migrations/001_ai_jobs.sql) and the shape that each status has.
use geoji_agent.Base.{
  ℕ, ◌≤◌, ◌<◌, ◌≡◌, ◌≢◌, refl, ap, ◌∙◌, Bool, true, false, none, some, List, [], ◌∷◌, arith, find,
  IsKeyed, All-true, is_null, All, any, ◌&&◌, ◌==◌,
}
use geoji_agent.Jobs.{
  Job, JobStatus, queued, running, succeeded, failed, cancelled, Call, claims, beats, completes,
  cancels, fails, releases, reaps, key, claimable, owned, lapsed, release, run,
}
use geoji_agent.Jobs.Change.{Change, run-keeps}

-- No lease is left on the row.
abbrev pub IsFree : Job → Type 0
IsFree j = (j.owner_id ≡ none) × (j.generation_id ≡ none) × (j.lease_until ≡ none)

abbrev pub Shape : JobStatus → Job → Type 0
Shape queued j = IsFree j
Shape running j =
    (0 < j.attempts)
    × (is_null j.owner_id ≡ false)
    × (is_null j.generation_id ≡ false)
    × (is_null j.lease_until ≡ false)
Shape succeeded j = 0 < j.attempts
Shape failed j = IsFree j
Shape cancelled j = IsFree j

pub record RowOk (j : Job) : Type 0 where
  pub counted : j.attempts ≤ j.max_attempts
  pub shaped : Shape j.status j

pub Change-RowOk : (c : ℕ × Call) (j k : Job) → RowOk j → Change c j k → RowOk k
unfolding claimable owned lapsed
Change-RowOk (now, claims kinds w g lease_s locked) j k v h = ground arith
Change-RowOk (now, beats id w g lease_s) j k v h = ground arith
Change-RowOk (now, completes id w g) j k v h = ground arith
Change-RowOk (now, cancels id w g code) j k v h = ground arith
Change-RowOk (now, fails id w g code retry) j k v h = ground arith
Change-RowOk (now, releases id w g) j k v h = ground arith
Change-RowOk (now, reaps) j k v h = ground arith

-- A row that satisfies the table's checks on the columns that the statements write, and its status's
-- shape, does so after any history of statements by any workers, and is still there.
pub run-RowOk :
    (es : List (ℕ × Call)) (t : List Job) (i : ℕ) (j : Job)
    → IsKeyed key t
    → find key i t ≡ some j
    → RowOk j
    → (k : Job) × (find key i (run t es) ≡ some k) × RowOk k
run-RowOk es t i j u e v =
    run-keeps RowOk (λ _. Unit {0}) (λ c x y _ h change. Change-RowOk c x y h change) es t i j
      (All-true es) u e v

empties : ℕ → ℕ → ℕ → ℕ → Job → Bool
empties id w g now j = owned id w g now j && j.attempts == 0

no_empties : (id w g now : ℕ) (t : List Job) → All RowOk t → any (empties id w g now) t ≡ false
unfolding empties owned
no_empties id w g now [] h = refl
no_empties id w g now (j ∷ t) h = ground (arith, h.0, no_empties id w g now t h.1)

-- On a table of well-shaped rows a release does not break the check `attempts >= 0`: it returns.
pub release_returns : (id w g now : ℕ) (t : List Job) → All RowOk t → release id w g now t ≢ none
unfolding release
release_returns id w g now t h =
    let fits = no_empties id w g now t h in unfold empties in rw fits (λ e. cc)

abbrev pub is_terminal : JobStatus → Bool
is_terminal queued = false
is_terminal running = false
is_terminal _ = true

Change-terminal :
    (j : Job)
    → is_terminal j.status ≡ true
    → (c : ℕ × Call) (x k : Job) → x ≡ j
    → Change c x k
    → k ≡ j
unfolding claimable owned lapsed
Change-terminal j h (now, claims kinds w g lease_s locked) x k e c = ground arith
Change-terminal j h (now, beats id w g lease_s) x k e c = ground arith
Change-terminal j h (now, completes id w g) x k e c = ground arith
Change-terminal j h (now, cancels id w g code) x k e c = ground arith
Change-terminal j h (now, fails id w g code retry) x k e c = ground arith
Change-terminal j h (now, releases id w g) x k e c = ground arith
Change-terminal j h (now, reaps) x k e c = ground arith

-- A row that has succeeded, failed or been cancelled is never changed again, in any column, by any
-- history of statements.
pub run-terminal :
    (es : List (ℕ × Call)) (t : List Job) (i : ℕ) (j : Job)
    → IsKeyed key t
    → find key i t ≡ some j
    → is_terminal j.status ≡ true
    → find key i (run t es) ≡ some j
run-terminal es t i j u e h =
    let (k, e', same) =
      run-keeps (λ k. k ≡ j) (λ _. Unit {0}) (λ c x y _. Change-terminal j h c x y) es t i j
        (All-true es) u e refl in
    e' ∙ ap some same
