-- ===== src/Retry/Tests.antt =====
-- The tables and the backoff of domain/retries.py at a few errors.
use geoji_agent.Base.{◌≡◌, refl, none, some}
use geoji_agent.Base.Int.{pos}
use geoji_agent.Retry.{
  rate_limit, classify_vendor_error, classify_generation_error, backoff_seconds, retry_allowed,
  is_retryable, writer_failure_code, ledger_status, is_unclear, no_ledger,
}

errors : Unit {0}
unfolding backoff_seconds retry_allowed is_retryable classify_vendor_error classify_generation_error
    ledger_status no_ledger is_unclear writer_failure_code
errors = tt

no_wait_left : backoff_seconds rate_limit 1 (some 5) (some (pos 3)) 3 ≡ none
unfolding errors
no_wait_left = refl
