-- ===== src/Ledger/Tests.antt =====
-- A small ledger and the theorems at it: one call booked under key 7, settled, or lost and swept.
use geoji_agent.Base.{◌≡◌, refl, none, some, List, [], ◌∷◌, find}
use geoji_agent.Base.Int.{pos, ◌+ℤ◌, ◌-ℤ◌, ◌≤ℤ◌}
use geoji_agent.Ledger.Costs.{Usage, Cost}
use geoji_agent.Ledger.{
  Budget, Books, CallSpec, CallRow, reserve, granted, book_call, ensure_budget, budget_key,
  over_cap, unknown_row, new_call, add_reserved, close, settle,
}
use geoji_agent.Ledger.Sweep.{
  sweep_unknown, SweepReport, per_key_from, sorted, move_budgets, moved_keys, add_amount, place,
  mark_swept,
}
use geoji_agent.Ledger.Sweep.Balance.{sweep_unknown-IsBalanced}
use geoji_agent.Ledger.Balance.{IsBalanced, reserve-IsBalanced}
use geoji_agent.Ledger.Bounds.{committed, reserve_within_cap}
use geoji_agent.Ledger.Close.{settled, errored, lost, conclude, conclude_once, conclude-IsBalanced}
use geoji_agent.Ledger.Cache.{NodeResult, NodeResultKey}

abbrev spec : CallSpec
spec = record {
  node = "writer";
  call_index = 0;
  vendor = "xai";
  model = "m";
  est_max_micro_usd = 40;
  request_hash = "h";
  generation_id = some 5;
  job_id = none;
}

abbrev start : Books
start = record { budgets = []; calls = [] }

start-IsBalanced : IsBalanced start
start-IsBalanced = record {
  keyed_budgets = tt;
  keyed_calls = tt;
  calls_ok = tt;
  balance = λ k. refl;
}

abbrev booked_budget : Budget
unfolding ◌+ℤ◌
booked_budget =
    add_reserved 40
      (record { post_id = 7; cap_micro_usd = 100; spent_micro_usd = 0; reserved_micro_usd = pos 0 })

abbrev one_booked : Books
unfolding ◌+ℤ◌
one_booked = book_call 1 7 spec 3 (ensure_budget 7 100 []) []

granted_one : reserve 100 1 7 spec 3 start ≡ granted one_booked
unfolding reserve over_cap ◌+ℤ◌
granted_one = refl

booked-IsBalanced : IsBalanced one_booked
booked-IsBalanced =
    reserve-IsBalanced 100 1 7 spec 3 start one_booked start-IsBalanced refl granted_one

reserve-IsBalanced_example : IsBalanced one_booked
reserve-IsBalanced_example =
    reserve-IsBalanced 100 1 7 spec 3 start one_booked start-IsBalanced refl granted_one

reserve_within_cap_example :
    (b : Budget) × (find budget_key 7 one_booked.budgets ≡ some b)
    × (committed b ≤ℤ pos b.cap_micro_usd)
reserve_within_cap_example = reserve_within_cap 100 1 7 spec 3 start one_booked granted_one

abbrev used : Usage
used = record { prompt_tokens = 10; completion_tokens = 5; reasoning_tokens = 0; cached_tokens = 0 }

abbrev paid : Cost
paid = record { ticks = some 250000; micro_usd = none }

conclude-IsBalanced_example : IsBalanced (conclude 1 (settled used paid none) 9 one_booked)
conclude-IsBalanced_example =
    conclude-IsBalanced 1 (settled used paid none) 9 one_booked booked-IsBalanced

conclude_once_example :
    conclude 1 lost 12 (conclude 1 (errored none none) 9 one_booked)
    ≡ conclude 1 (errored none none) 9 one_booked
conclude_once_example = conclude_once 1 (errored none none) lost 9 12 one_booked

-- A cost of 25 micro-USD leaves nothing reserved.
settled_amounts :
    (conclude 1 (settled used paid none) 9 one_booked).budgets
    ≡ record { post_id = 7; cap_micro_usd = 100; spent_micro_usd = 25; reserved_micro_usd = pos 0 }
      ∷ []
unfolding close settle ◌-ℤ◌ one_booked booked_budget ◌+ℤ◌
settled_amounts = refl

-- At 1000 the call has been open for longer than 500.
abbrev row : CallRow
row = mark_swept (unknown_row 1000 (new_call 1 7 spec 3))

abbrev swept : Books
swept = record {
  budgets =
      record { post_id = 7; cap_micro_usd = 100; spent_micro_usd = 40; reserved_micro_usd = pos 0 }
      ∷ [];
  calls = row ∷ [];
}

abbrev report : SweepReport
report = record { calls = 1; micro_usd = 40; budget_keys = 1; reserved_calls = 1 }

sweep_runs : sweep_unknown 500 1000 one_booked ≡ some (report, swept)
unfolding sweep_unknown per_key_from sorted move_budgets moved_keys add_amount place one_booked ◌+ℤ◌
    ◌-ℤ◌
sweep_runs = refl

sweep_unknown-IsBalanced_example : IsBalanced swept
sweep_unknown-IsBalanced_example =
    sweep_unknown-IsBalanced 500 1000 one_booked swept report booked-IsBalanced sweep_runs

abbrev result_key : NodeResultKey
result_key = record {
  request_hash = "h";
  model_id = "m";
  prompt_version = "p1";
  policy_version = "q1";
  privacy_versions = "[]";
}

abbrev results : List NodeResult
results =
    record {
      call_id = 1;
      request_hash = "h";
      model_id = "m";
      prompt_version = "p1";
      policy_version = "q1";
      privacy_versions = "[]";
      validated_output = "out";
      created_at = 10;
      expires_at = 50;
      invalidated_at = none;
    }
    ∷ []
