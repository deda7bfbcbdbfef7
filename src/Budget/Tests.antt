-- ===== src/Budget/Tests.antt =====
-- The deadlines and amounts of domain/budget.py at the default caps of core/config.py.
use geoji_agent.Base.{◌+◌, ◌≤◌, ◌≡◌, refl, some, arith}
use geoji_agent.Budget.{
  evaluator, Settings, node_cap, finalize_reserve, remaining_s, node_timeout, from_db,
  est_max_micro_usd,
}
use geoji_agent.Budget.Deadlines.{writer-leaves_evaluator}

abbrev settings : Settings
settings = record {
  sentencing_node_timeout = 2_000_000;
  writer_node_timeout = 10_000_000;
  evaluator_node_timeout = 30_000_000;
}

clocks : Unit {0}
unfolding node_timeout remaining_s from_db est_max_micro_usd
clocks = tt

writer-leaves_evaluator_example :
    (node_timeout evaluator settings 40_000_000 9_000_000 ≡ some (node_cap evaluator settings))
    × (finalize_reserve ≤ remaining_s 40_000_000 (9_000_000 + node_cap evaluator settings))
unfolding clocks
writer-leaves_evaluator_example =
    writer-leaves_evaluator settings 40_000_000 5_000_000 4_500_000 9_000_000 (omega arith) refl
      (omega arith)
