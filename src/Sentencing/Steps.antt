-- ===== src/Sentencing/Steps.antt =====
-- The nodes of graphs/sentencing.py up to the sentence lower the measure and keep the invariant.
use geoji_agent.Base.{
  ℕ, ◌<◌, ◌≡◌, inl, inr, Bool, true, false, not, ◌&&◌, Option, none, some, arith, Bool-cases, ltb,
  if◌then◌else◌,
}
use geoji_agent.Retry.{evidence_invalidated}
use geoji_agent.Budget.{remaining_s, inline_context_reserve, sentencing as sentencing_node}
use geoji_agent.Texts.{SentencingDecision}
use geoji_agent.Sentencing.{
  Dossier, Case, Env, State, Answer, Call, output, no_output, failed, stale_evidence, crashed,
  is_regenerate, needs_sentence, call_model, from_prep, inline, minimal, to_prep,
}
use geoji_agent.Sentencing.Start.{
  BeginReply, begun, conflict, begin_failed, begin_generation, misplaced, load_valid_prep,
  inline_fits, minimal_dossier_node, inline_context, opened, take_fixed, after_context, keep_inline,
}
use geoji_agent.Sentencing.Decision.{
  Sentenced, sentencing, take_decision, after_sentencing, parse_sentencing, rule_sentencing,
}
use geoji_agent.Sentencing.Run.{
  Node, at_begin, at_prep, at_inline, at_minimal, at_sentencing, at_writer, at_end, next, failed_or,
  sentencing_or_writer, is_fixed, settle,
}
use geoji_agent.Sentencing.Invariant.{IsOpen, Invariant, measure, Reaches, Follows, failed_or_lem}

if_lem : (P : Node → Type 0) (b : Bool) (m n : Node) → P m → P n → P (if b then m else n)
if_lem P true m n h k = h
if_lem P false m n h k = k

module _ (env : Env) (c : Case) where
  -- To a node one deeper, if nothing failed.
  pub down :
      (m : ℕ) (st : State) (n : Node)
      → (measure env n st < m)
      → Invariant env c n st
      → 1 < m
      → st.finalize_outcome ≡ none
      → Reaches env c m st (failed_or st n)
  down m st n le h one f = failed_or_lem (Reaches env c m st) st n (λ e. (le, h)) (one, f)

  -- The edge behind the dossier.
  sentencing_or_writer-Reaches :
      (m : ℕ) (st : State)
      → IsOpen c st
      → measure env at_sentencing st < m
      → Reaches env c m st (sentencing_or_writer c st)
  sentencing_or_writer-Reaches m st h le =
      elim (Bool-cases
        (not (is_regenerate c) && not (is_fixed st.sentencing_source) && needs_sentence c)) [
          | inl e ↦ rw e (le, h)
          | inr e ↦ rw e (omega (arith, le), h)
        ]

  pub begin_generation-Follows :
      (started clock : ℕ) (r : BeginReply) (st : State)
      → IsOpen c st
      → Follows env c at_begin
          (measure env at_begin st)
          (settle st (begin_generation env c started clock r st))
  unfolding Follows next begin_generation opened
  begin_generation-Follows started clock begin_failed st h = tt
  begin_generation-Follows started clock conflict st h =
      if_lem (Reaches env c (measure env at_begin st) st) st.begun (failed_or st at_prep) at_end
        (failed_or_lem (Reaches env c (measure env at_begin st) st) st at_prep
          (λ f. (omega arith, h)) (omega arith, h.0))
        (omega arith, λ s. cc (h.0))
  begin_generation-Follows started clock (begun deadline_at db_now none) st h =
      elim (Bool-cases (misplaced c none)) [
        | inl e ↦ rw e (omega arith, h.0)
        | inr e ↦ rw e (
            down (measure env at_begin st)
              (take_fixed none (opened env c started clock deadline_at db_now st)) at_prep
              (omega arith) h (omega arith) h.0)
      ]
  begin_generation-Follows started clock (begun deadline_at db_now (some f)) st h =
      elim (Bool-cases (misplaced c (some f))) [
        | inl e ↦ rw e (omega arith, h.0)
        | inr e ↦ rw e (
            down (measure env at_begin st)
              (take_fixed (some f) (opened env c started clock deadline_at db_now st)) at_prep
              (omega arith) h (omega arith) h.0)
      ]

  pub load_valid_prep-Follows :
      (clock : ℕ) (prep : Option Dossier) (st : State)
      → IsOpen c st
      → Follows env c at_prep
          (measure env at_prep st)
          (settle st (load_valid_prep env c clock prep st))
  unfolding Follows next load_valid_prep
  load_valid_prep-Follows clock (some d) st h =
      sentencing_or_writer-Reaches (measure env at_prep st)
        (record st { dossier = some d; dossier_source = some from_prep; route = to_prep }) h
        (omega arith)
  load_valid_prep-Follows clock none st h = elim (Bool-cases (is_regenerate c)) [
    | inl e ↦ rw e (omega arith, h)
    | inr e ↦ elim (Bool-cases (inline_fits env (remaining_s st.expires clock))) [
      | inl f ↦ rw (e, f) (omega arith, h)
      | inr f ↦ rw (e, f) (omega arith, h)
    ]
  ]

  -- After a dossier, from a node as deep as both its nodes.
  dossier-Reaches :
      (m : ℕ) (st : State)
      → IsOpen c st
      → measure env at_sentencing st < m
      → 1 < m
      → Reaches env c m st (failed_or st (sentencing_or_writer c st))
  dossier-Reaches m st h le one =
      failed_or_lem (Reaches env c m st) st (sentencing_or_writer c st)
        (λ f. sentencing_or_writer-Reaches m st h le) (one, h.0)

  pub minimal_dossier_node-Follows :
      (d : Dossier) (is_stale : Bool) (st : State)
      → IsOpen c st
      → Follows env c at_minimal
          (measure env at_minimal st)
          (settle st (minimal_dossier_node d is_stale st))
  unfolding Follows next minimal_dossier_node
  minimal_dossier_node-Follows d is_stale st h =
      dossier-Reaches (measure env at_minimal st)
        (record st {
          dossier = some d;
          dossier_source = some minimal;
          failure = if is_stale then some evidence_invalidated else none;
        })
        h (omega arith) (omega arith)

  keep_inline-Follows :
      (d : Dossier) (is_stale : Bool) (st : State)
      → IsOpen c st
      → Follows env c at_inline (measure env at_inline st) (settle st (keep_inline d is_stale st))
  unfolding Follows next
  keep_inline-Follows d is_stale st h =
      dossier-Reaches (measure env at_inline st)
        (record st {
          dossier = some d;
          dossier_source = some inline;
          failure = if is_stale then some evidence_invalidated else none;
        })
        h (omega arith) (omega arith)

  after_context-Follows :
      (code : Dossier) (answer : Answer Dossier) (is_stale : Bool) (st : State)
      → IsOpen c st
      → Follows env c at_inline
          (measure env at_inline st)
          (settle st (after_context code answer is_stale st))
  unfolding Follows next
  after_context-Follows code (output d) is_stale st h = keep_inline-Follows d is_stale st h
  after_context-Follows code no_output is_stale st h = keep_inline-Follows code is_stale st h
  after_context-Follows code (failed k) is_stale st h = keep_inline-Follows code is_stale st h
  after_context-Follows code stale_evidence is_stale st h = (omega arith, h.0)
  after_context-Follows code crashed is_stale st h = keep_inline-Follows code is_stale st h

  -- A node with an edge to the failure, which EvidenceInvalidated takes.
  pub inline_context-Follows :
      (clock : ℕ) (code : Dossier) (answer : Answer Dossier) (is_stale : Bool) (st : State)
      → IsOpen c st
      → Follows env c at_inline
          (measure env at_inline st)
          (settle st (inline_context env clock code answer is_stale st))
  unfolding Follows next inline_context
  inline_context-Follows clock code answer is_stale st h =
      elim (Bool-cases (
        ltb (inline_context_reserve env.budget) (remaining_s st.expires clock)
        && ltb 0 env.budget.writer_node_timeout)) [
          | inl e ↦ rw e (after_context-Follows code answer is_stale st h)
          | inr e ↦ rw e (keep_inline-Follows code is_stale st h)
        ]

  take_decision-Follows :
      (o : Option SentencingDecision) (st : State)
      → IsOpen c st
      → Follows env c at_sentencing
          (measure env at_sentencing st)
          (some (take_decision c.jury o st))
  unfolding Follows next take_decision rule_sentencing
  take_decision-Follows none st h =
      down (measure env at_sentencing st) (take_decision c.jury none st) at_writer (omega arith) h
        (omega arith) h.0
  take_decision-Follows (some d) st h =
      down (measure env at_sentencing st) (take_decision c.jury (some d) st) at_writer (omega arith)
        h (omega arith) h.0

  after_sentencing-Follows :
      (o : Option (Answer Sentenced)) (st : State)
      → IsOpen c st
      → Follows env c at_sentencing
          (measure env at_sentencing st)
          (settle st (after_sentencing env c o st))
  unfolding Follows next after_sentencing
  after_sentencing-Follows none st h = take_decision-Follows none st h
  after_sentencing-Follows (some (output s)) st h =
      take_decision-Follows (parse_sentencing env c.jury s) st h
  after_sentencing-Follows (some no_output) st h = take_decision-Follows none st h
  after_sentencing-Follows (some (failed k)) st h = take_decision-Follows none st h
  after_sentencing-Follows (some stale_evidence) st h = (omega arith, h.0)
  after_sentencing-Follows (some crashed) st h = tt

  pub sentencing-Follows :
      (call : Call Sentenced) (st : State)
      → IsOpen c st
      → Follows env c at_sentencing
          (measure env at_sentencing st)
          (settle st (sentencing env c call st))
  unfolding sentencing
  sentencing-Follows call st h =
      after_sentencing-Follows (call_model env sentencing_node st.expires call) st h
