-- ===== src/Budget/Deadlines.antt =====
-- What `Deadline.node_timeout` of domain/budget.py keeps free for the steps that follow.
use geoji_agent.Base.{ℕ, ◌+◌, ◌-◌, ◌≤◌, ◌≡◌, some, arith}
use geoji_agent.Budget.{
  Node, sentencing, writer, evaluator, Settings, node_cap, reserve_after, inline_context_reserve,
  finalize_reserve, remaining_s, node_timeout, from_db,
}

-- A node is given some time only if it is positive, within the node's cap, and together with what is
-- reserved for the steps after it within the time that remains.
pub node_timeout-fits :
    (name : Node) (s : Settings) (expires clock t : ℕ)
    → node_timeout name s expires clock ≡ some t
    → (1 ≤ t) × (t ≤ node_cap name s) × (t + reserve_after name s ≤ remaining_s expires clock)
unfolding node_timeout remaining_s
node_timeout-fits sentencing s expires clock t e = ground arith
node_timeout-fits writer s expires clock t e = ground arith
node_timeout-fits evaluator s expires clock t e = ground arith

-- A writer that starts leaves the evaluator its whole cap: if the writer is given `t` at `clock`, then
-- at any time within `t` the evaluator, whose cap is positive, is given all of it, and after that the
-- reserve for finalize is still there.
pub writer-leaves_evaluator :
    (s : Settings) (expires clock t later : ℕ)
    → 1 ≤ node_cap evaluator s
    → node_timeout writer s expires clock ≡ some t
    → later ≤ clock + t
    → (node_timeout evaluator s expires later ≡ some (node_cap evaluator s))
      × (finalize_reserve ≤ remaining_s expires (later + node_cap evaluator s))
unfolding node_timeout remaining_s
writer-leaves_evaluator s expires clock t later positive e soon = ground arith

-- An inline context that ends while its reserve is left does not cost the writer any time: the writer
-- is given its whole cap.
pub inline_context-leaves_writer :
    (s : Settings) (expires clock : ℕ)
    → 1 ≤ node_cap writer s
    → inline_context_reserve s ≤ remaining_s expires clock
    → node_timeout writer s expires clock ≡ some (node_cap writer s)
unfolding node_timeout remaining_s
inline_context-leaves_writer s expires clock positive left = ground arith

-- The remaining time at the moment of the reading is the database's difference, and it shrinks by what
-- the monotonic clock advances, down to zero.
pub from_db-remaining :
    (deadline_at db_now clock d : ℕ)
    → remaining_s (from_db deadline_at db_now clock) (clock + d) ≡ deadline_at - db_now - d
unfolding from_db remaining_s
from_db-remaining deadline_at db_now clock d = omega arith
