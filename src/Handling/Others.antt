-- ===== src/Handling/Others.antt =====
-- The handlers of application/sentence_case.py, prepare_case.py and jury_vote_case.py leave their row.
use geoji_agent.Base.{
  ℕ, ◌+◌, ◌*◌, ◌<◌, ◌≡◌, ◌⊎◌, Bool, true, false, Option, none, some, List, find, IsKeyed,
}
use geoji_agent.Jobs.{Job, JobKind, Call, key, owned}
use geoji_agent.Sentencing
use geoji_agent.Handling.{
  World, sentence_handler, Outcome, sends, raises, Raised, not_found, refused, no_overrides,
  snapshot_not_found,
}
use geoji_agent.Handling.Freed.{
  IsSettled, IsFreed, completes-Frees, cancels-Frees, fails-Frees, settle_backend_error-AllFree,
  outcome_of-IsSettled, finishes, sentence_handler-settles,
}
use geoji_agent.Preparation.Graph.{
  Escape, snapshot_missing, invalidated, other_exception, Turn, went, threw, State,
}
use geoji_agent.Preparation.Graph
use geoji_agent.Preparation.Run.{
  on_escape, after_run, prepare_handler, run_preparation, evidence_invalidated,
}
use geoji_agent.Jury
use geoji_agent.Jury.{
  Step, did, failed, Ended, on_raised, after_vote, jury_handler, run_jury_vote, overrides,
}

module _ (i w g : ℕ) where
  escaped-IsSettled : (e : Escape) → IsSettled i w g (on_escape i w g e)
  escaped-IsSettled snapshot_missing = cancels-Frees i w g snapshot_not_found
  escaped-IsSettled invalidated = fails-Frees i w g evidence_invalidated none
  escaped-IsSettled (other_exception e) =
      outcome_of-IsSettled i w g _ (settle_backend_error-AllFree i w g no_overrides e)

  prepared-IsSettled : (r : Turn State) → IsSettled i w g (after_run i w g r)
  prepared-IsSettled (went st) = completes-Frees i w g
  prepared-IsSettled (threw e) = escaped-IsSettled e

  prepare_handler-IsSettled :
      (has_store : Bool) (env : Graph.Env) (v : Graph.World) (p : Option Graph.Payload)
      → IsSettled i w g (prepare_handler i w g has_store env v p)
  unfolding prepare_handler
  prepare_handler-IsSettled false env v p = _
  prepare_handler-IsSettled true env v p = prepared-IsSettled (run_preparation env v p)

  raised-IsSettled : (e : Raised) → IsSettled i w g (on_raised i w g e)
  raised-IsSettled not_found = cancels-Frees i w g snapshot_not_found
  raised-IsSettled (refused e) =
      outcome_of-IsSettled i w g _ (settle_backend_error-AllFree i w g overrides e)

  voted-IsSettled : (r : Step Ended) → IsSettled i w g (after_vote i w g r)
  voted-IsSettled (did e) = completes-Frees i w g
  voted-IsSettled (failed e) = raised-IsSettled e

  jury_handler-IsSettled :
      (env : Jury.Env) (v : Jury.World) (p : Jury.Payload)
      → IsSettled i w g (jury_handler i w g env v p)
  unfolding jury_handler
  jury_handler-IsSettled env v p = voted-IsSettled (run_jury_vote env v p)

-- The outcome of a handler: it raises, or it sends one statement to the queue after which the row that
-- its worker owns is not RUNNING.
abbrev pub Leaves : ℕ → ℕ → ℕ → ℕ → List Job → Outcome → Type 0
Leaves i w g now t r = (r ≡ raises) ⊎ ((c : Call) × (r ≡ sends c) × IsFreed i w g now t c)

-- Whatever the backend, the stores and the models answer, the handlers of a SENTENCE or TEXT_RETRY, of
-- a PREPARE and of a JURY_VOTE job come to their end, the first with fuel for the graph's repairs: each
-- raises, or sends one statement to the queue after which the row is not RUNNING, if its worker owns
-- the row when the statement runs.
pub handlers-Leaves :
    (i w g now : ℕ) (t : List Job) (j : Job) (fuel : ℕ) (sentencing : Sentencing.Env)
    (kind : JobKind) (v : World) (has_store : Bool) (preparation : Graph.Env) (v' : Graph.World)
    (p : Option Graph.Payload) (jury : Jury.Env) (v'' : Jury.World) (q : Jury.Payload)
    → 10 + 4 * sentencing.immediate_repair_max < fuel
    → IsKeyed key t
    → find key i t ≡ some j
    → owned i w g now j ≡ true
    → Leaves i w g now t (sentence_handler i w g fuel sentencing kind v)
      × Leaves i w g now t (prepare_handler i w g has_store preparation v' p)
      × Leaves i w g now t (jury_handler i w g jury v'' q)
handlers-Leaves i w g now t j fuel sentencing kind v has_store preparation v' p jury v'' q enough u
      e o =
    (
      sentence_handler-settles i w g now fuel sentencing kind v t j enough u e o,
      finishes i w g now t j _ u e o (prepare_handler-IsSettled i w g has_store preparation v' p),
      finishes i w g now t j _ u e o (jury_handler-IsSettled i w g jury v'' q),
    )
