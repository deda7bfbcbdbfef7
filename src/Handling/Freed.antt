-- ===== src/Handling/Freed.antt =====
-- What the handlers of application/sentence_case.py leave behind in the queue.
use geoji_agent.Base.{
  ℕ, ◌+◌, ◌*◌, ◌<◌, ◌≡◌, ◌≢◌, refl, ◌⊎◌, inl, inr, Bool, true, false, Option, none, some, List,
  arith, if◌then◌else◌, find, IsKeyed, String,
}
use geoji_agent.Jobs.{Job, running, Call, completes, cancels, fails, key, owned, step, JobKind}
use geoji_agent.Jobs.Change.{Change, step-Change}
use geoji_agent.Sentencing.{Env}
use geoji_agent.Sentencing.Run.{Run, ended, run_raised}
use geoji_agent.Sentencing.Ends.{run_graph-ends}
use geoji_agent.Handling.{
  Refusal, Action, complete_it, cancel_it, fail_it, BackendErrorAction, Overrides, no_overrides,
  take_action, answered, by_rule, settle_backend_error, stub_handler, SnapshotReply, snapshot,
  snapshot_raised, Raised, not_found, refused, on_exception, Outcome, sends, raises, runs_on, World,
  outcome_of, after_graph, after_snapshot, with_model, with_payload, sentence_handler, mode_of,
  is_code, is_auth, backend_unavailable, backend_auth, backend_auth_retry_after_s, get_or, or_else,
  default_action, snapshot_not_found,
}

-- The statement frees the row: at any time at which the lease still runs, a row that the worker owns
-- is not RUNNING after it.
abbrev pub Frees : ℕ → ℕ → ℕ → Call → Type 0
Frees i w g c =
    (now : ℕ) (j k : Job) → owned i w g now j ≡ true → Change (now, c) j k → k.status ≢ running

abbrev pub IsSettled : ℕ → ℕ → ℕ → Outcome → Type 0
IsSettled i w g (sends c) = Frees i w g c
IsSettled i w g raises = Unit
IsSettled i w g runs_on = false ≡ true

either : {A : Type 0} (P : A → Type 0) (b : Bool) (x y : A) → P x → P y → P (if b then x else y)
either P true x y h k = h
either P false x y h k = k

module _ (i w g : ℕ) where
  pub completes-Frees : Frees i w g (completes i w g)
  completes-Frees now j k o c = ground arith

  pub cancels-Frees : (code : String) → Frees i w g (cancels i w g code)
  cancels-Frees code now j k o c = ground arith

  pub fails-Frees : (code : String) (retry : Option ℕ) → Frees i w g (fails i w g code retry)
  fails-Frees code retry now j k o c = ground arith

  -- An answer to an exception, if there is one.
  abbrev pub AllFree : Option Call → Type 0
  AllFree none = Unit
  AllFree (some c) = Frees i w g c

  take_action-Frees :
      (code : String) (a : Action) (named : Option String)
      → Frees i w g (take_action i w g code a named)
  take_action-Frees code complete_it named = completes-Frees
  take_action-Frees code cancel_it named = cancels-Frees _
  take_action-Frees code fail_it named = fails-Frees _ none

  by_rule-Frees :
      (rules : Overrides) (status : ℕ) (code : String) (a : Option BackendErrorAction)
      → Frees i w g (by_rule i w g rules status code a)
  by_rule-Frees rules status code (some a) = take_action-Frees code a.action a.error_code
  by_rule-Frees rules status code none =
      either (Frees i w g) (is_auth status) _ _
        (fails-Frees backend_auth (some backend_auth_retry_after_s))
        (let a =
            get_or (default_action code)
              (or_else (rules (some status) none) (rules none (some code))) in
          take_action-Frees code a.action a.error_code)

  answered-AllFree :
      (rules : Overrides) (status : Option ℕ) (code : Option String)
      → AllFree (answered i w g rules status code)
  answered-AllFree rules (some status) (some code) = by_rule-Frees rules status code _
  answered-AllFree rules (some status) none = _
  answered-AllFree rules none code = _

  pub settle_backend_error-AllFree :
      (rules : Overrides) (e : Refusal) → AllFree (settle_backend_error i w g rules e)
  unfolding settle_backend_error
  settle_backend_error-AllFree rules e =
      either AllFree (is_code backend_unavailable e.error_code) _ _
        (fails-Frees backend_unavailable e.retry_after_s) (answered-AllFree rules e.status e.code)

  stub_handler-AllFree : (a b : Option Refusal) → AllFree (stub_handler i w g a b)
  unfolding stub_handler
  stub_handler-AllFree (some e) b = settle_backend_error-AllFree no_overrides e
  stub_handler-AllFree none (some e) = settle_backend_error-AllFree no_overrides e
  stub_handler-AllFree none none = completes-Frees

  pub outcome_of-IsSettled : (c : Option Call) → AllFree c → IsSettled i w g (outcome_of c)
  outcome_of-IsSettled none h = h
  outcome_of-IsSettled (some c) h = h

  on_exception-IsSettled : (e : Raised) → IsSettled i w g (on_exception i w g e)
  on_exception-IsSettled not_found = cancels-Frees snapshot_not_found
  on_exception-IsSettled (refused e) =
      outcome_of-IsSettled _ (settle_backend_error-AllFree no_overrides e)

  after_graph-IsSettled :
      (v : World) (r : Run)
      → ((st : _) × (r ≡ ended st)) ⊎ (r ≡ run_raised)
      → IsSettled i w g (after_graph i w g v r)
  after_graph-IsSettled v r (inl (st, e)) = rw e completes-Frees
  after_graph-IsSettled v r (inr e) = rw e (on_exception-IsSettled v.escaped)

  module _ (fuel : ℕ) (env : Env) (enough : 10 + 4 * env.immediate_repair_max < fuel)
      (kind : JobKind) (v : World) where
    after_snapshot-IsSettled :
        (r : SnapshotReply) → IsSettled i w g (after_snapshot i w g fuel env kind v r)
    after_snapshot-IsSettled (snapshot case_of) =
        after_graph-IsSettled v _ (run_graph-ends env (case_of (mode_of kind)) v.graph fuel enough)
    after_snapshot-IsSettled (snapshot_raised e) = on_exception-IsSettled e

    with_model-IsSettled : (b : Bool) → IsSettled i w g (with_model i w g b fuel env kind v)
    with_model-IsSettled false = outcome_of-IsSettled _ (stub_handler-AllFree _ _)
    with_model-IsSettled true = after_snapshot-IsSettled v.snapshot_reply

    with_payload-IsSettled : (b : Bool) → IsSettled i w g (with_payload i w g b fuel env kind v)
    with_payload-IsSettled false = _
    with_payload-IsSettled true = with_model-IsSettled v.has_llm

    sentence_handler-IsSettled : IsSettled i w g (sentence_handler i w g fuel env kind v)
    unfolding sentence_handler
    sentence_handler-IsSettled = with_payload-IsSettled v.has_payload

-- What a statement makes of a table in which the worker owns the row `i`.
abbrev pub IsFreed : ℕ → ℕ → ℕ → ℕ → List Job → Call → Type 0
IsFreed i w g now t c = (k : Job) × (find key i (step t (now, c)) ≡ some k) × (k.status ≢ running)

freed :
    (i w g now : ℕ) (t : List Job) (j : Job) (c : Call)
    → IsKeyed key t
    → find key i t ≡ some j
    → owned i w g now j ≡ true
    → Frees i w g c
    → IsFreed i w g now t c
freed i w g now t j c u e o h =
    let (k, found, change) = step-Change t i j u e (now, c) in (k, found, h now j k o change)

pub finishes :
    (i w g now : ℕ) (t : List Job) (j : Job) (r : Outcome)
    → IsKeyed key t
    → find key i t ≡ some j
    → owned i w g now j ≡ true
    → IsSettled i w g r
    → (r ≡ raises) ⊎ ((c : Call) × (r ≡ sends c) × IsFreed i w g now t c)
finishes i w g now t j (sends c) u e o h = inr (c, refl, freed i w g now t j c u e o h)
finishes i w g now t j raises u e o h = inl refl
finishes i w g now t j runs_on u e o h = cc (h)

-- Whatever the backend, the model and the clocks answer, with fuel for the graph's repairs the handler
-- of a SENTENCE or TEXT_RETRY job comes to its end: it raises, or it sends one statement to the queue
-- after which the row is not RUNNING, if its worker owns the row when the statement runs.
pub sentence_handler-settles :
    (i w g now fuel : ℕ) (env : Env) (kind : JobKind) (v : World) (t : List Job) (j : Job)
    → 10 + 4 * env.immediate_repair_max < fuel
    → IsKeyed key t
    → find key i t ≡ some j
    → owned i w g now j ≡ true
    → (sentence_handler i w g fuel env kind v ≡ raises)
      ⊎ ((c : Call) × (sentence_handler i w g fuel env kind v ≡ sends c) × IsFreed i w g now t c)
sentence_handler-settles i w g now fuel env kind v t j enough u e o =
    finishes i w g now t j _ u e o (sentence_handler-IsSettled i w g fuel env enough kind v)
