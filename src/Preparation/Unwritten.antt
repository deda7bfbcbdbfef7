-- ===== src/Preparation/Unwritten.antt =====
-- Up to the saving of the dossier, a run of graphs/preparation.py makes no banter.
use geoji_agent.Base.{Bool, true, false, Option, none, some, List, leb, length}
use geoji_agent.Evidence.{Fact}
use geoji_agent.Preparation.{Dossier}
use geoji_agent.Preparation.Graph.{
  ValidPrep, went, threw, State, World, Env, ContextReply, context_invalidated, context_error,
  context_answer, take_valid, recall_candidates, resolve_sources, keep_facts, build_db_evidence,
  take_context, ask_context, analyze_reason, request_max,
}
use geoji_agent.Preparation.Run.{make_dossier, after_reuse}
use geoji_agent.Preparation.Shown.{Ensures, bind-Ensures, one_of}
use geoji_agent.Preparation.Kept.{NoBanter}

module _ (env : Env) (w : World) where
  pub reuse-NoBanter :
      (st : State) (v : Option (Option ValidPrep)) → NoBanter st → NoBanter (take_valid st v)
  reuse-NoBanter st none h = h
  reuse-NoBanter st (some none) h = h
  reuse-NoBanter st (some (some v)) h = h

  context-NoBanter :
      (st : State) (d : Dossier) (r : ContextReply)
      → NoBanter st
      → Ensures NoBanter (take_context w st d r)
  context-NoBanter st d context_invalidated h = tt
  context-NoBanter st d context_error h = h
  context-NoBanter st d (context_answer o) h = h

  asked-NoBanter :
      (llm : Bool) (st : State) (o : Option Dossier)
      → NoBanter st
      → Ensures NoBanter (ask_context llm w st o)
  asked-NoBanter llm st none h = tt
  asked-NoBanter false st (some d) h = h
  asked-NoBanter true st (some d) h = context-NoBanter st d _ h

  facts-NoBanter :
      (st : State) (o : Option (List Fact)) → NoBanter st → Ensures NoBanter (keep_facts env w st o)
  facts-NoBanter st none h = tt
  facts-NoBanter st (some fs) h = h

  resolved-NoBanter : (st : State) → NoBanter st → Ensures NoBanter (resolve_sources env w st)
  unfolding resolve_sources
  resolved-NoBanter st h =
      one_of NoBanter (leb (length st.candidates) request_max) (went _) (threw _) h tt

  made-NoBanter : (st : State) → NoBanter st → Ensures NoBanter (make_dossier env w st)
  unfolding build_db_evidence analyze_reason recall_candidates
  made-NoBanter st h =
      bind-Ensures NoBanter NoBanter (resolve_sources env w (recall_candidates env w st)) _
        (resolved-NoBanter _ h)
        (λ found n.
          bind-Ensures NoBanter NoBanter (build_db_evidence env w found) (analyze_reason w)
            (facts-NoBanter found _ n) (λ built b. asked-NoBanter w.has_llm built built.dossier b))

  pub reused-NoBanter : (st : State) → NoBanter st → Ensures NoBanter (after_reuse env w st)
  reused-NoBanter st h =
      one_of NoBanter st.reuse_dossier (went st) (make_dossier env w st) h (made-NoBanter st h)
