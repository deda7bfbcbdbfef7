-- ===== src/Budget.antt =====
-- src/geoji_ai/domain/budget.py: the time that a node of a case's graph may take, and the amount that
-- a call reserves. Times are microseconds, of the database or of the process's monotonic clock; a
-- price is in millionths of a USD for a million tokens, the finest that the price table writes.
pub mod Deadlines
pub mod Amounts
pub mod Tests
use geoji_agent.Base.{
  ℕ, suc, ◌+◌, ◌-◌, ◌*◌, ◌/◌, Bool, true, false, Option, none, some, ltb, leb, ◌==◌, if◌then◌else◌,
  min, max,
}

-- NODE_NAMES. A name that is none of these raises in the source.
pub data Node : Type 0 where
  sentencing writer evaluator : Node

-- The three settings that _CAP_SETTING names.
pub record Settings : Type 0 where
  pub sentencing_node_timeout : ℕ
  pub writer_node_timeout : ℕ
  pub evaluator_node_timeout : ℕ

-- FINALIZE_RESERVE_SECONDS
abbrev pub finalize_reserve : ℕ
finalize_reserve = 500_000

abbrev pub node_cap : Node → Settings → ℕ
node_cap sentencing s = s.sentencing_node_timeout
node_cap writer s = s.writer_node_timeout
node_cap evaluator s = s.evaluator_node_timeout

abbrev pub reserve_after : Node → Settings → ℕ
reserve_after sentencing s = 0
reserve_after evaluator s = finalize_reserve
reserve_after writer s = node_cap evaluator s + finalize_reserve

abbrev pub inline_context_reserve : Settings → ℕ
inline_context_reserve s = node_cap writer s + node_cap evaluator s + finalize_reserve

-- Deadline.from_db, the expiry on the monotonic clock. A deadline that has passed puts the expiry
-- before `clock`, and not below zero, where `remaining` reads zero all the same.
unfoldable pub from_db : ℕ → ℕ → ℕ → ℕ
from_db deadline_at db_now clock = clock + deadline_at - db_now

-- Deadline.remaining_s
unfoldable pub remaining_s : ℕ → ℕ → ℕ
remaining_s expires clock = expires - clock

-- Deadline.node_timeout; a budget that is not positive is `none`.
unfoldable pub node_timeout : Node → Settings → ℕ → ℕ → Option ℕ
unfolding remaining_s
node_timeout name s expires clock =
    let budget = min (node_cap name s) (remaining_s expires clock - reserve_after name s) in
    if budget == 0 then none else some budget

-- `math.ceil` of a quotient by a million.
abbrev pub ceil_micro : ℕ → ℕ
ceil_micro total = (total + 999_999) / 1_000_000

-- est_max_micro_usd on token counts that are not negative.
unfoldable pub est_max_micro_usd : ℕ → ℕ → ℕ → ℕ → ℕ
est_max_micro_usd prompt_tokens max_output_tokens price_in price_out =
    ceil_micro (prompt_tokens * price_in + max_output_tokens * price_out)
