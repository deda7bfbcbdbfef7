-- ===== src/Retry/Bounds.antt =====
-- What the tables and the backoff of domain/retries.py guarantee to the callers.
use geoji_agent.Base.{
  ℕ, ◌+◌, ◌≤◌, ◌≡◌, ◌≢◌, Bool, true, false, Option, some, List, arith, if◌then◌else◌, any, ◌↔◌,
}
use geoji_agent.Base.Int.{ℤ}
use geoji_agent.Retry.{
  ErrorKind, ErrorCode, schedule_text_retry, classify_generation_error, classify_vendor_error,
  writer_failure_code, is_budget, ledger_status, failed, unknown, is_retryable, retry_allowed,
  backoff_seconds, wait_of, no_ledger, is_unclear, budget_exceeded,
}

-- A wait that is granted is the vendor's Retry-After (zero where it gave none or a negative one), is
-- for the first attempt and a retryable kind only, and leaves the reserve untouched: reserve and wait
-- fit in the time that remains.
pub backoff-fits :
    (kind : ErrorKind) (attempt r : ℕ) (after : Option ℤ) (reserve wait : ℕ)
    → backoff_seconds kind attempt (some r) after reserve ≡ some wait
    → (wait ≡ wait_of after) × (reserve + wait ≤ r) × (attempt ≡ 1) × (is_retryable kind ≡ true)
unfolding backoff_seconds retry_allowed is_retryable
backoff-fits kind attempt r after reserve wait e = ground arith

-- Conversely, the first failure of a retryable kind is retried whenever reserve and wait fit.
pub backoff-granted :
    (kind : ErrorKind) (r : ℕ) (after : Option ℤ) (reserve : ℕ)
    → is_retryable kind ≡ true
    → reserve + wait_of after ≤ r
    → backoff_seconds kind 1 (some r) after reserve ≡ some (wait_of after)
unfolding backoff_seconds retry_allowed is_retryable
backoff-granted kind r after reserve k fits = ground arith

-- Every kind of vendor error leads to a text retry of the case, never to a final fallback: a code
-- that the vendor table gives is in the second row of the fallback table.
pub vendor_error_text_retry :
    (kind : ErrorKind) (code : ErrorCode)
    → classify_vendor_error kind ≡ some code
    → classify_generation_error code ≡ some schedule_text_retry
unfolding classify_generation_error classify_vendor_error
vendor_error_text_retry kind code e = ground arith

-- The writer's failure has the priority budget, then time, then vendor: the code is BUDGET_EXCEEDED
-- exactly if one of the errors is BUDGET.
pub writer_failure_code-budget :
    (errors : List (Option ErrorKind)) (skipped : Bool)
    → (writer_failure_code errors skipped ≡ budget_exceeded) ↔ (any is_budget errors ≡ true)
unfolding writer_failure_code
writer_failure_code-budget errors skipped = ground arith

-- For every error that has a row in the ledger the status is defined, and it is UNKNOWN, which keeps
-- the reservation, exactly if the vendor may have answered: for TIMEOUT and TRANSPORT.
pub ledger_status-unclear :
    (kind : ErrorKind)
    → kind ≢ ErrorKind.other
    → no_ledger kind ≡ false
    → ledger_status kind ≡ some (if is_unclear kind then unknown else failed)
unfolding ledger_status no_ledger is_unclear classify_vendor_error
ledger_status-unclear kind known ledgered = ground arith
