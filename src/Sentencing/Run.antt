-- ===== src/Sentencing/Run.antt =====
-- The edges of graphs/sentencing.py and a run of the graph: at each node the world answers what the
-- node asks, and the next node is read from the state that the node leaves.
use geoji_agent.Base.{
  ℕ, zero, suc, Bool, true, false, not, ◌&&◌, Option, none, some, if◌then◌else◌, is_null,
}
use geoji_agent.Retry.{evidence_invalidated}
use geoji_agent.Texts.{Intensity}
use geoji_agent.Sentencing.{
  Dossier, Case, Env, fixed, by_ai, by_rule, SentencingSource, Route, to_prep, to_inline,
  to_minimal, to_validate, to_repair, to_evaluator, to_finalize, to_end, unset, State,
  initial_state, Turn, went, invalidated, raised, Answer, Call, is_regenerate, needs_sentence,
}
use geoji_agent.Sentencing.Start.{
  BeginReply, begin_generation, load_valid_prep, minimal_dossier_node, inline_context,
}
use geoji_agent.Sentencing.Decision.{Sentenced, sentencing}
use geoji_agent.Sentencing.Drafts.{Written, writer, join}
use geoji_agent.Sentencing.Assembly.{deterministic_validate}
use geoji_agent.Sentencing.Loop.{RoundInput, evaluator}
use geoji_agent.Sentencing.Finish.{writer_repair, FinalizeReply, finalize, generation_failed}

-- The nodes of the graph, with its END.
pub data Node : Type 0 where
  at_begin at_prep at_inline at_minimal at_sentencing at_writer at_join at_validate at_evaluator
        at_repair at_finalize at_failed at_end :
      Node

-- What the world does while one node runs. A node reads what it asks for.
pub record Visit : Type 0 where
  pub started : ℕ
  pub clock : ℕ
  pub late_clock : ℕ
  pub begin : BeginReply
  pub prep : Option Dossier
  pub code_dossier : Dossier
  pub context : Answer Dossier
  pub save_stale : Bool
  pub sentence : Call Sentenced
  pub write : Intensity → Call Written
  pub rounds : ℕ → RoundInput
  pub finalize_stale : Bool
  pub finalize_reply : FinalizeReply
  pub failure_sent : Bool

-- The function of a node.
unfoldable pub visit : Env → Case → Visit → Node → State → Turn
unfolding begin_generation load_valid_prep minimal_dossier_node inline_context sentencing writer
    join deterministic_validate evaluator writer_repair finalize generation_failed
visit env c v at_begin st = begin_generation env c v.started v.clock v.begin st
visit env c v at_prep st = load_valid_prep env c v.clock v.prep st
visit env c v at_inline st = inline_context env v.clock v.code_dossier v.context v.save_stale st
visit env c v at_minimal st = minimal_dossier_node v.code_dossier v.save_stale st
visit env c v at_sentencing st = sentencing env c v.sentence st
visit env c v at_writer st = writer env c v.write st
visit env c v at_join st = join env c v.clock v.late_clock st
visit env c v at_validate st = deterministic_validate env c v.clock st
visit env c v at_evaluator st = evaluator env c v.rounds st
visit env c v at_repair st = writer_repair env c v.write st
visit env c v at_finalize st = finalize env c v.clock v.finalize_stale v.finalize_reply st
visit env c v at_failed st = generation_failed v.failure_sent st
visit env c v at_end st = went st

abbrev pub is_fixed : Option SentencingSource → Bool
is_fixed none = false
is_fixed (some s) = elim s [ by_ai ↦ false | by_rule ↦ false | fixed ↦ true ]

abbrev pub sentencing_or_writer : Case → State → Node
sentencing_or_writer c st =
    if not (is_regenerate c) && not (is_fixed st.sentencing_source) && needs_sentence c
    then at_sentencing
    else at_writer

abbrev after_prep : Case → State → Node
after_prep c st = elim st.route [
  | to_prep ↦ sentencing_or_writer c st
  | to_inline ↦ at_inline
  | to_minimal ↦ at_minimal
  | to_validate ↦ sentencing_or_writer c st
  | to_repair ↦ sentencing_or_writer c st
  | to_evaluator ↦ sentencing_or_writer c st
  | to_finalize ↦ sentencing_or_writer c st
  | to_end ↦ sentencing_or_writer c st
  | unset ↦ sentencing_or_writer c st
]

abbrev pub is_repair : Route → Bool
is_repair to_repair = true
is_repair _ = false

abbrev pub failed_or : State → Node → Node
failed_or st n = if is_null st.failure then n else at_failed

abbrev pub repair_or : State → Node → Node
repair_or st n = failed_or st (if is_repair st.route then at_repair else n)

-- The conditional edges: failed_or and the functions after_... of the source.
unfoldable pub next : Case → Node → State → Node
next c at_begin st = if st.begun then failed_or st at_prep else at_end
next c at_prep st = after_prep c st
next c at_inline st = failed_or st (sentencing_or_writer c st)
next c at_minimal st = failed_or st (sentencing_or_writer c st)
next c at_sentencing st = failed_or st at_writer
next c at_writer st = failed_or st at_join
next c at_join st = repair_or st at_validate
next c at_validate st = repair_or st at_evaluator
next c at_evaluator st = repair_or st at_finalize
next c at_repair st = failed_or st at_validate
next c at_finalize st = repair_or st at_end
next c at_failed st = at_end
next c at_end st = at_end

-- `logged`: EvidenceInvalidated in a node becomes its failure; `none` stands for another exception.
abbrev pub settle : State → Turn → Option State
settle st (went new) = some new
settle st invalidated = some (record st { failure = some evidence_invalidated })
settle st raised = none

abbrev pub is_end : Node → Bool
is_end at_end = true
is_end _ = false

pub data Run : Type 0 where
  ended : State → Run
  run_raised : Run
  unfinished : Run

abbrev pub proceed : (State → Run) → Option State → Run
proceed rest none = run_raised
proceed rest (some st) = rest st

abbrev pub stop_or : Bool → State → Run → Run
stop_or true st r = ended st
stop_or false st r = r

-- A run from a node on, with the visits numbered on from `n`.
unfoldable pub run : ℕ → Env → Case → (ℕ → Visit) → ℕ → Node → State → Run
unfolding visit next
run zero env c world n node st = unfinished
run (suc fuel) env c world n node st = stop_or (is_end node) st (
    proceed (λ new. run fuel env c world (suc n) (next c node new) new)
      (settle st (visit env c (world n) node st)))

unfoldable pub run_graph : ℕ → Env → Case → (ℕ → Visit) → Run
unfolding run
run_graph fuel env c world = run fuel env c world 0 at_begin initial_state
