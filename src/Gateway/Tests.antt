-- ===== src/Gateway/Tests.antt =====
-- Runs of `scoped_call` of llm_gateway.py: a rate limit, then an answer; and the theorems at them.
use geoji_agent.Base.{
  ℕ, ◌≡◌, ◌≢◌, refl, true, false, none, some, [], ◌∷◌, arith, if◌then◌else◌, ◌==◌,
}
use geoji_agent.Base.Int.{pos, ◌+ℤ◌}
use geoji_agent.Retry.{
  rate_limit, backoff_seconds, retry_allowed, is_retryable, ledger_status, no_ledger, is_unclear,
  classify_vendor_error,
}
use geoji_agent.Vendor.{
  no_failures, is_degraded, record_failure, record_success, append, is_degraded_kind, degraded_at,
}
use geoji_agent.Ledger.{Books, CallSpec, reserve, book_call, ensure_budget, over_cap}
use geoji_agent.Ledger.Balance.{IsBalanced}
use geoji_agent.Ledger.Close.{NoneLeft}
use geoji_agent.Gateway.{
  Call, Turn, answered, llm_error, current, booked, scoped_call, take_turn, run_turns,
  checked_epoch, looked_up, reserved, sent, slept, settled, tracked_cost, out_of_fuel,
}
use geoji_agent.Gateway.Closing.{follow, Phase, is_settled, is_ledgered, scoped_call-settled}
use geoji_agent.Gateway.Retrying.{scoped_call-ends}
use geoji_agent.Gateway.Books.{Bill, perform, scoped_call-books}

abbrev call : Call
call = record {
  vendor = "xai";
  clock = 0;
  first_check = current;
  cached = false;
  priced = true;
  reservation = booked;
  timeout_us = 6000000;
  reserve_us = 500000;
}

abbrev limited : Turn
limited = record {
  reply = llm_error rate_limit (some (pos 1000000));
  clock = 2000000;
  remaining = some 5000000;
  sleep_cancelled = false;
  check = current;
}

abbrev world : ℕ → Turn
world n = record limited {
  reply = if n == 1 then llm_error rate_limit (some (pos 1000000)) else answered;
}

ledgered : (n : ℕ) → is_ledgered (world n).reply ≡ true
unfolding ledger_status no_ledger is_unclear classify_vendor_error
ledgered n = ground arith

program : Unit {0}
unfolding scoped_call run_turns take_turn is_degraded degraded_at backoff_seconds retry_allowed
    is_retryable ledger_status no_ledger is_unclear classify_vendor_error record_failure
    record_success append is_degraded_kind
program = tt

-- The retry is sent with what remains after the reserve and the wait.
run_retries :
    (scoped_call call world 2 no_failures).trace
    ≡ checked_epoch
      ∷ looked_up
      ∷ reserved
      ∷ sent 6000000
      ∷ slept 1000000
      ∷ checked_epoch
      ∷ sent 3500000
      ∷ settled
      ∷ tracked_cost
      ∷ []
unfolding program
run_retries = refl

scoped_call-settled_example :
    is_settled (follow Phase.fresh (scoped_call call world 2 no_failures).trace) ≡ true
scoped_call-settled_example = scoped_call-settled call world ledgered 0 no_failures

scoped_call-ends_example :
    (scoped_call call world 5 no_failures ≡ scoped_call call world 2 no_failures)
    × ((scoped_call call world 2 no_failures).outcome ≢ out_of_fuel)
scoped_call-ends_example = scoped_call-ends call world 3 no_failures

abbrev spec : CallSpec
spec = record {
  node = "writer";
  call_index = 0;
  vendor = "xai";
  model = "m";
  est_max_micro_usd = 40;
  request_hash = "h";
  generation_id = none;
  job_id = none;
}

abbrev bill : Bill
bill = record {
  usage = record {
    prompt_tokens = 10;
    completion_tokens = 5;
    reasoning_tokens = 0;
    cached_tokens = 0;
  };
  cost = record { ticks = some 250000; micro_usd = none };
  request_id = some "r";
  error_usage = none;
  error_cost = none;
  closed_at = 9;
}

abbrev no_books : Books
no_books = record { budgets = []; calls = [] }

empty-IsBalanced : IsBalanced no_books
empty-IsBalanced = record {
  keyed_budgets = tt;
  keyed_calls = tt;
  calls_ok = tt;
  balance = λ k. refl;
}

abbrev one_booked : Books
one_booked = book_call 1 7 spec 3 (ensure_budget 7 100 []) []

scoped_call-books_example :
    IsBalanced (perform 1 bill (scoped_call call world 2 no_failures).trace one_booked)
    × NoneLeft 1 (perform 1 bill (scoped_call call world 2 no_failures).trace one_booked)
unfolding program reserve over_cap ◌+ℤ◌
scoped_call-books_example =
    scoped_call-books call world ledgered 0 no_failures bill 100 1 7 3 spec no_books one_booked
      empty-IsBalanced refl refl refl
