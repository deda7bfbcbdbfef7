-- ===== src/Retry.antt =====
-- src/geoji_ai/domain/retries.py: what an error of the vendor becomes (a generation error code, a
-- ledger status), whether the call is made again, and after how long. Seconds are microseconds.
pub mod Bounds
pub mod Tests
use geoji_agent.Base.{
  ℕ, ◌+◌, ◌-◌, Bool, true, false, ◌&&◌, ◌||◌, Option, none, some, List, [], ◌∷◌, ltb, ◌==◌,
  if◌then◌else◌, min, any,
}
use geoji_agent.Base.Int.{ℤ, pos_part}

-- `LLMError.kind`; `other` is a kind that the table does not name.
pub data ErrorKind : Type 0 where
  schema parse refusal rate_limit server timeout transport auth degraded budget other : ErrorKind

-- The generation error codes; `unlisted` is a code that neither table names.
pub data ErrorCode : Type 0 where
  ai_not_ready policy_error evidence_invalidated vendor_unavailable budget_exceeded eval_failed
        schema_invalid deadline_exceeded unlisted :
      ErrorCode

pub data FallbackAction : Type 0 where
  no_retry schedule_text_retry : FallbackAction

-- `none` stands for the ValueError.
unfoldable pub classify_generation_error : ErrorCode → Option FallbackAction
classify_generation_error ai_not_ready = some no_retry
classify_generation_error policy_error = some no_retry
classify_generation_error evidence_invalidated = some no_retry
classify_generation_error vendor_unavailable = some schedule_text_retry
classify_generation_error budget_exceeded = some schedule_text_retry
classify_generation_error eval_failed = some schedule_text_retry
classify_generation_error schema_invalid = some schedule_text_retry
classify_generation_error deadline_exceeded = some schedule_text_retry
classify_generation_error unlisted = none

-- _VENDOR_ERROR_CODE
unfoldable pub classify_vendor_error : ErrorKind → Option ErrorCode
classify_vendor_error schema = some schema_invalid
classify_vendor_error parse = some schema_invalid
classify_vendor_error refusal = some vendor_unavailable
classify_vendor_error rate_limit = some vendor_unavailable
classify_vendor_error server = some vendor_unavailable
classify_vendor_error timeout = some deadline_exceeded
classify_vendor_error transport = some vendor_unavailable
classify_vendor_error auth = some vendor_unavailable
classify_vendor_error degraded = some vendor_unavailable
classify_vendor_error budget = some budget_exceeded
classify_vendor_error other = none

abbrev pub is_budget : Option ErrorKind → Bool
is_budget (some budget) = true
is_budget _ = false

abbrev pub is_deadline_code : Option ErrorCode → Bool
is_deadline_code (some deadline_exceeded) = true
is_deadline_code _ = false

abbrev pub is_late : Option ErrorKind → Bool
unfolding classify_vendor_error
is_late none = false
is_late (some k) = is_deadline_code (classify_vendor_error k)

pub writer_failure_code : List (Option ErrorKind) → Bool → ErrorCode
writer_failure_code errors budget_skipped =
    if any is_budget errors
    then budget_exceeded
    else if budget_skipped || any is_late errors
    then deadline_exceeded
    else vendor_unavailable

pub data LedgerStatus : Type 0 where
  failed unknown : LedgerStatus

-- NO_LEDGER_KINDS
unfoldable pub no_ledger : ErrorKind → Bool
no_ledger degraded = true
no_ledger budget = true
no_ledger _ = false

-- _UNKNOWN_LEDGER_KINDS
unfoldable pub is_unclear : ErrorKind → Bool
is_unclear timeout = true
is_unclear transport = true
is_unclear _ = false

-- `none` stands for the ValueError.
unfoldable pub ledger_status : ErrorKind → Option LedgerStatus
unfolding no_ledger is_unclear classify_vendor_error
ledger_status kind = elim (classify_vendor_error kind) [
  | none ↦ none
  | some _ ↦ if no_ledger kind then none else if is_unclear kind then some unknown else some failed
]

-- RETRYABLE_KINDS
unfoldable pub is_retryable : ErrorKind → Bool
is_retryable rate_limit = true
is_retryable server = true
is_retryable _ = false

unfoldable pub retry_allowed : ErrorKind → ℕ → Bool
unfolding is_retryable
retry_allowed kind attempt = is_retryable kind && attempt == 1

-- `max(retry_after_s or 0.0, 0.0)`
abbrev pub wait_of : Option ℤ → ℕ
wait_of none = 0
wait_of (some s) = pos_part s

-- The remaining time is `none` where the source has infinity. `remaining - reserve < 0` or
-- `wait > remaining - reserve` gives up.
unfoldable pub backoff_seconds : ErrorKind → ℕ → Option ℕ → Option ℤ → ℕ → Option ℕ
unfolding retry_allowed
backoff_seconds kind attempt remaining retry_after reserve =
    if retry_allowed kind attempt
    then elim remaining [
      | none ↦ some (wait_of retry_after)
      | some r ↦
          if ltb r reserve || ltb (r - reserve) (wait_of retry_after)
          then none
          else some (min (wait_of retry_after) (r - reserve))
    ]
    else none
