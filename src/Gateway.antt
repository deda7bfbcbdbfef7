-- ===== src/Gateway.antt =====
-- src/geoji_ai/application/llm_gateway.py: `LLMGateway.scoped_call`, the one path to a vendor. What
-- the vendor, the ledger, the epoch check and the task's cancellation do is an input, attempt by
-- attempt; the run is its outcome, the trace of the effects in their order, and the vendor's health
-- afterwards. A cancellation that
-- arrives while the ledger is being closed is left out: the close is shielded. Times are microseconds; a remaining time of `none` is the source's infinity. Logs and
-- the cost telemetry's inside are left out.
pub mod Closing
pub mod Retrying
pub mod Books
pub mod Tests
use geoji_agent.Base.{
  ℕ, zero, suc, ◌+◌, ◌-◌, ◌*◌, String, Bool, true, false, not, ◌&&◌, ◌||◌, Option, none, some, List,
  [], ◌∷◌, ◌++◌, ltb, leb, ◌==◌, if◌then◌else◌, min,
}
use geoji_agent.Base.Int.{ℤ}
use geoji_agent.Retry.{
  ErrorKind, timeout, transport, degraded, budget, backoff_seconds, ledger_status, LedgerStatus,
}
use geoji_agent.Vendor.{Failures, record_failure, record_success, is_degraded}

abbrev pub writer_slots : ℕ
writer_slots = 3

abbrev pub evaluator_slots : ℕ
evaluator_slots = 2

-- `none` stands for the ValueError.
unfoldable pub writer_call_index : ℕ → ℕ → Option ℕ
writer_call_index repair_count position =
    if ltb position writer_slots then some (repair_count * writer_slots + position) else none

unfoldable pub evaluator_call_index : ℕ → Bool → ℕ
evaluator_call_index eval_round hell_apart =
    eval_round * evaluator_slots + (if hell_apart then 1 else 0)

-- `_stale`: the epochs agree, or some differ, or the check fails, or the task is cancelled in it.
pub data EpochCheck : Type 0 where
  current stale check_failed check_cancelled : EpochCheck

-- What `wait_for(structured_call(...))` does: an LLMError with its kind, Retry-After and known cost.
pub data Reply : Type 0 where
  answered : Reply
  llm_error : ErrorKind → Option ℤ → Reply
  timed_out : Reply
  crashed : Reply
  cancelled : Reply

-- What the world does in one turn of the loop.
pub record Turn : Type 0 where
  pub reply : Reply
  pub clock : ℕ
  pub remaining : Option ℕ
  pub sleep_cancelled : Bool
  pub check : EpochCheck

pub data ReserveReply : Type 0 where
  booked refused reserve_failed reserve_cancelled : ReserveReply

-- The inputs before the loop; `cached` is what `_lookup` returns, with its failures as a miss.
pub record Call : Type 0 where
  pub vendor : String
  pub clock : ℕ
  pub first_check : EpochCheck
  pub cached : Bool
  pub priced : Bool
  pub reservation : ReserveReply
  pub timeout_us : ℕ
  pub reserve_us : ℕ

pub data Event : Type 0 where
  checked_epoch : Event
  looked_up : Event
  reserved : Event
  sent : ℕ → Event
  slept : ℕ → Event
  settled : Event
  failed : Event
  marked_unknown : Event
  tracked_cost : Event

pub data Outcome : Type 0 where
  fresh : Outcome
  reused : Outcome
  raised : ErrorKind → Outcome
  evidence_invalidated : Outcome
  aborted : Outcome
  value_error : Outcome
  out_of_fuel : Outcome

pub record Run : Type 0 where
  pub outcome : Outcome
  pub trace : List Event
  pub health : Failures

-- A turn of the loop ends the call or goes on with a timeout.
pub data Next : Type 0 where
  done : Outcome → List Event → Failures → Next
  again : List Event → ℕ → Failures → Next

-- `except BaseException` with `closed` false.
abbrev pub abort : List Event → Failures → Next
abort es h = done aborted (es ++ marked_unknown ∷ []) h

-- From `closed = True` in the error branch on. `ledger_status` raises after `closed` is set, so such
-- an error leaves the ledger open.
abbrev pub close_error : ErrorKind → Bool → List Event → Failures → Next
unfolding ledger_status
close_error kind stale_before_retry es h = elim (ledger_status kind) [
  | none ↦ done value_error es h
  | some s ↦
      done (if stale_before_retry then evidence_invalidated else raised kind)
        (es
          ++ (elim s [ LedgerStatus.unknown ↦ marked_unknown | LedgerStatus.failed ↦ failed ])
            ∷ tracked_cost
            ∷ [])
        h
]

-- After the sleep: the epoch is checked once more.
abbrev pub recheck : Turn → ErrorKind → ℕ → List Event → Failures → Next
recheck turn kind retry_timeout es h = elim turn.check [
  | current ↦ again es retry_timeout h
  | stale ↦ close_error kind true es h
  | check_failed ↦ close_error kind false es h
  | check_cancelled ↦ abort es h
]

-- `min(timeout_s, remaining - reserve - wait)`; zero where the source's value is not positive.
abbrev pub retry_timeout_of : Call → Turn → ℕ → ℕ
retry_timeout_of call turn wait = elim turn.remaining [
  | none ↦ call.timeout_us
  | some r ↦ min call.timeout_us (r - call.reserve_us - wait)
]

-- The branch of an error, after the vendor's health has been told.
abbrev pub on_error : Call → Turn → ℕ → ErrorKind → Option ℤ → List Event → Failures → Next
unfolding backoff_seconds
on_error call turn attempt kind retry_after es h =
    elim (backoff_seconds kind attempt turn.remaining retry_after call.reserve_us) [
      | none ↦ close_error kind false es h
      | some wait ↦
          let t = retry_timeout_of call turn wait in
          if ltb 0 t
          then if turn.sleep_cancelled
            then abort (es ++ slept wait ∷ []) h
            else recheck turn kind t (es ++ slept wait ∷ checked_epoch ∷ []) h
          else close_error kind false es h
    ]

-- One turn of `while True`.
unfoldable pub take_turn : Call → Turn → ℕ → ℕ → Failures → Next
unfolding record_failure record_success
take_turn call turn attempt t h = elim turn.reply [
  | answered ↦ done fresh (sent t ∷ settled ∷ tracked_cost ∷ []) (record_success call.vendor h)
  | llm_error kind after ↦
      on_error call turn attempt kind after (sent t ∷ [])
        (record_failure call.vendor kind turn.clock h)
  | timed_out ↦
      on_error call turn attempt timeout none (sent t ∷ [])
        (record_failure call.vendor timeout turn.clock h)
  | crashed ↦ on_error call turn attempt transport none (sent t ∷ []) h
  | cancelled ↦ abort (sent t ∷ []) h
]

abbrev pub prepend : List Event → Run → Run
prepend es r = record r { trace = es ++ r.trace }

abbrev pub proceed : (ℕ → Failures → Run) → Next → Run
proceed rest (done o es g) = record { outcome = o; trace = es; health = g }
proceed rest (again es t g) = prepend es (rest t g)

-- `while True` on fuel, from a turn number and its timeout.
unfoldable pub run_turns : Call → (ℕ → Turn) → ℕ → ℕ → ℕ → Failures → Run
unfolding take_turn
run_turns call world zero attempt t h = record { outcome = out_of_fuel; trace = []; health = h }
run_turns call world (suc n) attempt t h =
    proceed (λ t' g. run_turns call world n (suc attempt) t' g)
      (take_turn call (world attempt) attempt t h)

abbrev pub stop : Outcome → List Event → Failures → Run
stop o es h = record { outcome = o; trace = es; health = h }

-- From the lookup on, the first epoch check having passed.
abbrev pub lookup_and_call : Call → (ℕ → Turn) → ℕ → Failures → Run
unfolding run_turns
lookup_and_call call world fuel h =
    if call.cached
    then stop reused (checked_epoch ∷ looked_up ∷ []) h
    else if call.priced
    then elim call.reservation [
      | booked ↦
          prepend (checked_epoch ∷ looked_up ∷ reserved ∷ [])
            (run_turns call world fuel 1 call.timeout_us h)
      | refused ↦ stop (raised budget) (checked_epoch ∷ looked_up ∷ []) h
      | reserve_failed ↦ stop (raised transport) (checked_epoch ∷ looked_up ∷ []) h
      | reserve_cancelled ↦ stop aborted (checked_epoch ∷ looked_up ∷ []) h
    ]
    else stop (raised budget) (checked_epoch ∷ looked_up ∷ []) h

unfoldable pub scoped_call : Call → (ℕ → Turn) → ℕ → Failures → Run
unfolding is_degraded run_turns
scoped_call call world fuel h =
    if is_degraded call.vendor call.clock h
    then stop (raised degraded) [] h
    else elim call.first_check [
      | current ↦ lookup_and_call call world fuel h
      | stale ↦ stop evidence_invalidated (checked_epoch ∷ []) h
      | check_failed ↦ stop (raised transport) (checked_epoch ∷ []) h
      | check_cancelled ↦ stop aborted (checked_epoch ∷ []) h
    ]
