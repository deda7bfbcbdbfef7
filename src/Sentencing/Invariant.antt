-- ===== src/Sentencing/Invariant.antt =====
-- What holds between the nodes of graphs/sentencing.py, and a measure that each node lowers.
use geoji_agent.Base.{
  ℕ, ◌+◌, ◌-◌, ◌*◌, ◌<◌, ◌≡◌, inl, inr, true, false, Option, none, some, [], Bool-cases,
  Option-cases, ltb,
}
use geoji_agent.Texts.{Intensity, template, WriterDraft}
use geoji_agent.Report.{Report, validate_evaluation}
use geoji_agent.Sentencing.{Case, Env, State, Drafting, is_regenerate, scope, is_source, saved}
use geoji_agent.Sentencing.Rounds.{has_decision}
use geoji_agent.Sentencing.Run.{
  Node, at_begin, at_prep, at_inline, at_minimal, at_sentencing, at_writer, at_join, at_validate,
  at_evaluator, at_repair, at_finalize, at_failed, at_end, next, failed_or, repair_or, is_repair,
}

-- The draft in the state and the decision have passed an evaluation without issues, and the hash is
-- theirs; the decision is there exactly if a sentence is due.
pub record IsJudged (env : Env) (c : Case) (st : State) : Type 0 where
  pub draft : WriterDraft
  pub report : Report
  pub has_draft : st.writer_draft ≡ some draft
  pub has_report : st.evaluation ≡ some report
  pub no_issues : validate_evaluation env.parses report (scope c) env.policy_version ≡ []
  pub has_hash : st.draft_hash ≡ some (env.draft_hash draft st.sentencing)
  pub decided : has_decision c st.sentencing ≡ true

abbrev pub NoTemplate : Drafting → Type 0
NoTemplate w = (i : Intensity) → is_source template (w.sources i) ≡ false

-- In a regeneration no text is a template.
abbrev pub IsPure : Case → State → Type 0
IsPure c st = is_regenerate c ≡ true → NoTemplate st.work

abbrev pub IsOpen : Case → State → Type 0
IsOpen c st = (st.finalize_outcome ≡ none) × IsPure c st

abbrev pub Invariant : Env → Case → Node → State → Type 0
Invariant env c at_begin st = IsOpen c st
Invariant env c at_prep st = IsOpen c st
Invariant env c at_inline st = IsOpen c st
Invariant env c at_minimal st = IsOpen c st
Invariant env c at_sentencing st = IsOpen c st
Invariant env c at_writer st = IsOpen c st
Invariant env c at_join st = IsOpen c st
Invariant env c at_validate st = IsOpen c st
Invariant env c at_evaluator st = IsOpen c st
Invariant env c at_repair st =
    IsOpen c st × (ltb st.repair_count env.immediate_repair_max ≡ true) × (is_regenerate c ≡ false)
Invariant env c at_finalize st = IsOpen c st × IsJudged env c st
Invariant env c at_failed st = st.finalize_outcome ≡ none
Invariant env c at_end st = st.finalize_outcome ≡ some saved → IsJudged env c st × IsPure c st

abbrev repairs_left : Env → State → ℕ
repairs_left env st = env.immediate_repair_max - st.repair_count

-- A repair leads back to the rules, four levels up, and uses up one of the repairs that are left.
abbrev pub measure : Env → Node → State → ℕ
measure env at_begin st = 10 + 4 * repairs_left env st
measure env at_prep st = 9 + 4 * repairs_left env st
measure env at_inline st = 8 + 4 * repairs_left env st
measure env at_minimal st = 8 + 4 * repairs_left env st
measure env at_sentencing st = 7 + 4 * repairs_left env st
measure env at_writer st = 6 + 4 * repairs_left env st
measure env at_join st = 5 + 4 * repairs_left env st
measure env at_validate st = 4 + 4 * repairs_left env st
measure env at_evaluator st = 3 + 4 * repairs_left env st
measure env at_repair st = 1 + 4 * repairs_left env st
measure env at_finalize st = 2 + 4 * repairs_left env st
measure env at_failed st = 1
measure env at_end st = 0

-- A node and its state come below a number, with the invariant.
abbrev pub Reaches : Env → Case → ℕ → State → Node → Type 0
Reaches env c m st n = (measure env n st < m) × Invariant env c n st

-- What a step from a node gives.
unfoldable pub Follows : Env → Case → Node → ℕ → Option State → Type 0
unfolding next
Follows env c node m none = Unit
Follows env c node m (some new) = Reaches env c m new (next c node new)

pub failed_or_lem :
    (P : Node → Type 0) (st : State) (n : Node)
    → (st.failure ≡ none → P n)
    → P at_failed
    → P (failed_or st n)
failed_or_lem P st n h k = elim (Option-cases st.failure) [
  | inl e ↦ rw e (h e)
  | inr (v, e) ↦ rw e k
]

pub repair_or_lem :
    (P : Node → Type 0) (st : State) (n : Node)
    → (st.failure ≡ none → is_repair st.route ≡ true → P at_repair)
    → (st.failure ≡ none → is_repair st.route ≡ false → P n)
    → P at_failed
    → P (repair_or st n)
repair_or_lem P st n r h k = elim (Bool-cases (is_repair st.route)) [
  | inl e ↦ rw e (failed_or_lem P st at_repair (λ f. r f e) k)
  | inr e ↦ rw e (failed_or_lem P st n (λ f. h f e) k)
]
