-- ===== src/Ledger/Sweep.antt =====
-- `sweep_unknown` of postgres_call_ledger.py: old open reservations become UNKNOWN, and what the
-- UNKNOWN calls reserved becomes spent. `older_than` is in microseconds.
pub mod Amounts
pub mod Balance
use geoji_agent.Base.{
  ℕ, ◌+◌, Bool, true, false, ◌&&◌, Option, none, some, List, [], ◌∷◌, ltb, ◌==◌, if◌then◌else◌,
  eq_col, is_null, update_where, rowcount, select_where, sum_of, length, lt_col,
}
use geoji_agent.Base.Int.{pos, ◌+ℤ◌, ◌-ℤ◌}
use geoji_agent.Ledger.{Budget, CallRow, CallStatus, reserved, unknown, Books, unknown_row}

abbrev pub is_reserved : CallStatus → Bool
is_reserved reserved = true
is_reserved _ = false

abbrev pub is_unknown : CallStatus → Bool
is_unknown unknown = true
is_unknown _ = false

-- `started_at < now() - make_interval(secs => :older_than_s)`, with the subtraction moved over.
abbrev pub is_old : ℕ → ℕ → CallRow → Bool
is_old older_than now c = elim c.started_at [ none ↦ false | some s ↦ ltb (s + older_than) now ]

-- _SWEEP_STALE_RESERVED_SQL
abbrev pub stale : ℕ → ℕ → CallRow → Bool
stale older_than now c = is_reserved c.status && is_old older_than now c

-- _SWEEP_UNKNOWN_SQL
abbrev pub sweepable : ℕ → ℕ → CallRow → Bool
sweepable older_than now c =
    is_unknown c.status && is_null c.actual_micro_usd && is_old older_than now c

abbrev pub mark_swept : CallRow → CallRow
mark_swept c = record c { actual_micro_usd = some c.estimated_max_micro_usd }

-- `per_key[post_id] += est`
unfoldable pub add_amount : ℕ → ℕ → List (ℕ × ℕ) → List (ℕ × ℕ)
add_amount k est [] = (k, est) ∷ []
add_amount k est ((j, n) ∷ d) = if j == k then (j, n + est) ∷ d else (j, n) ∷ add_amount k est d

abbrev pub add_call : CallRow → List (ℕ × ℕ) → List (ℕ × ℕ)
add_call c d = elim c.post_id [ none ↦ d | some k ↦ add_amount k c.estimated_max_micro_usd d ]

unfoldable pub per_key_from : List (ℕ × ℕ) → List CallRow → List (ℕ × ℕ)
per_key_from d [] = d
per_key_from d (c ∷ cs) = per_key_from (add_call c d) cs

-- `sorted(per_key)`
unfoldable pub place : ℕ × ℕ → List (ℕ × ℕ) → List (ℕ × ℕ)
place e [] = e ∷ []
place e (f ∷ d) = if ltb f.0 e.0 then f ∷ place e d else e ∷ f ∷ d

unfoldable pub sorted : List (ℕ × ℕ) → List (ℕ × ℕ)
sorted [] = []
sorted (e ∷ d) = place e (sorted d)

-- _SWEEP_BUDGET_SQL
abbrev pub move_budget : ℕ → Budget → Budget
move_budget amount b = record b {
  spent_micro_usd = b.spent_micro_usd + amount;
  reserved_micro_usd = b.reserved_micro_usd -ℤ pos amount;
}

unfoldable pub move_budgets : List (ℕ × ℕ) → List Budget → List Budget
move_budgets [] bs = bs
move_budgets ((k, amount) ∷ d) bs =
    move_budgets d (update_where (λ b. b.post_id == k) (move_budget amount) bs)

-- The keys whose update hit a row.
unfoldable pub moved_keys : List (ℕ × ℕ) → List Budget → ℕ
moved_keys [] bs = 0
moved_keys ((k, amount) ∷ d) bs =
    (if rowcount (λ b. b.post_id == k) bs == 0 then 0 else 1)
    + moved_keys d (update_where (λ b. b.post_id == k) (move_budget amount) bs)

pub record SweepReport : Type 0 where
  pub calls : ℕ
  pub micro_usd : ℕ
  pub budget_keys : ℕ
  pub reserved_calls : ℕ

-- `none`: `older_than` is not positive, and the source raises.
unfoldable pub sweep_unknown : ℕ → ℕ → Books → Option (SweepReport × Books)
unfolding per_key_from sorted move_budgets moved_keys add_amount place
sweep_unknown older_than now l =
    if older_than == 0
    then none
    else let marked = update_where (stale older_than now) (unknown_row now) l.calls in
      let rows = select_where (sweepable older_than now) marked in
      let amounts = sorted (per_key_from [] rows) in
      some (
        record {
          calls = length rows;
          micro_usd = sum_of (λ c. c.estimated_max_micro_usd) rows;
          budget_keys = moved_keys amounts l.budgets;
          reserved_calls = rowcount (stale older_than now) l.calls;
        },
        record {
          budgets = move_budgets amounts l.budgets;
          calls = update_where (sweepable older_than now) mark_swept marked;
        },
      )
