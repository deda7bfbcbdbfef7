-- ===== src/Preparation/Ends.antt =====
-- How a run of graphs/preparation.py ends.
use geoji_agent.Base.{
  ℕ, ◌≡◌, refl, ◌∙◌, inl, inr, Bool, true, false, Option, none, some, [], ◌∷◌, if◌then◌else◌, ◌&&◌,
  Bool-cases, some_eq,
}
use geoji_agent.Evidence.{is_empty}
use geoji_agent.Preparation.{Case, Dossier}
use geoji_agent.Preparation.Graph.{
  Status, unset, loaded, stale_event, dossier_ready, complete_prep, invalidated_prep, Turn, went,
  threw, ◌>>=◌, State, World, Env, Payload, load_case, load_reusable_prep, persist_dossier,
  is_ready, initial_state, is_current,
}
use geoji_agent.Preparation.Run.{
  Gathered, gather, keep_result, keep_results, write_banter, generate_banter, validate_banter,
  with_status, store_banter, persist_banter, after_persist, after_reuse, prepare, after_load,
  run_preparation,
}
use geoji_agent.Preparation.Shown.{Ensures, bind-Ensures, IsFit, validated-IsFit}
use geoji_agent.Preparation.Kept.{
  Ending, IsKept, NoBanter, kept-Ending, rests-Ending, persist_dossier-IsKept,
}
use geoji_agent.Preparation.Unwritten.{reuse-NoBanter, reused-NoBanter}

module _ (env : Env) (w : World) where
  -- What the banter of one run leaves as it was.
  abbrev Same : State → State → Type 0
  Same a b =
      (b.status ≡ a.status) × (b.prep_id ≡ a.prep_id) × (b.dossier ≡ a.dossier) × (b.case ≡ a.case)

  keep_results-Same : (a : State) (r : Gathered) (b : State) → Same a b → Same a (keep_results r b)
  unfolding keep_results
  keep_results-Same a [] b h = h
  keep_results-Same a ((i, none) ∷ r) b h = keep_results-Same a r b h
  keep_results-Same a ((i, some cs) ∷ r) b h = keep_results-Same a r (keep_result i (some cs) b) h

  -- The states that a run can end in.
  pub record IsPrepared (st : State) : Type 0 where
    pub fit : IsFit env.lexicon st st.dossier
    pub ending : Ending w st

  stored-IsPrepared :
      (st v : State) (k : IsKept w st)
      → v.status ≡ dossier_ready
      → v.prep_id ≡ some k.s.prep_id
      → IsFit env.lexicon v v.dossier
      → (b : Bool) (p : Option ℕ) → p ≡ some k.s.prep_id
      → IsPrepared (store_banter w v b p)
  stored-IsPrepared st v k ready e fit false (some prep) same =
      go (w.save_banter prep v.banter) refl
    where
      go : (r : Option Bool) → w.save_banter prep v.banter ≡ r → IsPrepared (with_status v r)
      go none h = record { fit = fit; ending = rests-Ending w st v k e (inl ready) }
      go (some false) h = record { fit = fit; ending = rests-Ending w st v k e (inl ready) }
      go (some true) h = record {
        fit = fit;
        ending = rests-Ending w st _ k e (inr (refl, rw (some_eq same) at h));
      }
  stored-IsPrepared st v k ready e fit true (some prep) same = record {
    fit = fit;
    ending = rests-Ending w st v k e (inl ready);
  }
  stored-IsPrepared st v k ready e fit b none same = cc

  finish :
      (st made : State) (d : Dossier) (k : IsKept w st)
      → st.status ≡ dossier_ready
      → st.dossier ≡ some d
      → Same st made
      → IsPrepared (persist_banter w (validate_banter env made))
  unfolding persist_banter validate_banter
  finish st made d k ready e (a, b, c, f) =
      stored-IsPrepared st (validate_banter env made) k (a ∙ ready) (b ∙ k.prep)
        (validated-IsFit env made d made.dossier (c ∙ e))
        (is_empty made.banter_ok && is_empty made.copied) made.prep_id (b ∙ k.prep)

  persisted-IsPrepared : (st : State) → IsKept w st → Ensures IsPrepared (after_persist env w st)
  unfolding generate_banter
  persisted-IsPrepared st k = elim (Bool-cases (is_ready st.status && w.has_llm)) [
    | inl go ↦ rw go (written (ready st.status go) st.dossier refl)
    | inr stop ↦ rw stop (record { fit = unfit st.dossier; ending = kept-Ending w st k })
  ]
    where
      unfit : (o : Option Dossier) → IsFit env.lexicon st o
      unfit none = k.empty
      unfit (some d) = rw k.empty tt

      ready : (s : Status) → (is_ready s && w.has_llm) ≡ true → s ≡ dossier_ready
      ready dossier_ready h = refl
      ready unset h = cc
      ready loaded h = cc
      ready stale_event h = cc
      ready complete_prep h = cc
      ready invalidated_prep h = cc

      written :
          st.status ≡ dossier_ready
          → (o : Option Dossier) → st.dossier ≡ o
          → Ensures IsPrepared
              (write_banter w st o >>= λ made. went (persist_banter w (validate_banter env made)))
      written r none e = tt
      written r (some d) e = go (gather w.uuids w.banter _ _)
        where
          go :
              (g : Turn Gathered)
              → Ensures IsPrepared (
                  (g >>= λ results. went (keep_results results (record st { banter = st.copied })))
                  >>= λ made. went (persist_banter w (validate_banter env made)))
          go (threw x) = tt
          go (went results) =
              finish st (keep_results results (record st { banter = st.copied })) d k r e (
                keep_results-Same st results (record st { banter = st.copied })
                  (refl, refl, refl, refl))

  prepare-IsPrepared : (st : State) → NoBanter st → Ensures IsPrepared (prepare env w st)
  unfolding load_reusable_prep
  prepare-IsPrepared st h =
      bind-Ensures NoBanter IsPrepared (after_reuse env w (load_reusable_prep w st)) _
        (reused-NoBanter env w _ (reuse-NoBanter env w st w.valid_prep h))
        (λ ready b.
          bind-Ensures (IsKept w) IsPrepared (persist_dossier w ready) _
            (persist_dossier-IsKept w ready b) persisted-IsPrepared)

  loaded-IsPrepared :
      (c : Case) (b : Bool)
      → Ensures IsPrepared (after_load env w (initial_state c (if b then loaded else stale_event)))
  loaded-IsPrepared c true = prepare-IsPrepared (initial_state c loaded) refl
  loaded-IsPrepared c false = record { fit = refl; ending = Ending.outdated refl refl }

  case-IsPrepared :
      (p : Payload) (t : Turn Case)
      → Ensures IsPrepared (
          (t >>= λ c. went (initial_state c (if is_current p c then loaded else stale_event)))
          >>= after_load env w)
  case-IsPrepared p (threw e) = tt
  case-IsPrepared p (went c) = loaded-IsPrepared c (is_current p c)

  -- Whatever the backend, the stores and the model answer, a run of the preparation that does not
  -- raise ends in one of three ways. The event is outdated, and nothing was saved. Or a new
  -- preparation was saved, and is ready, or complete with a banter that the store accepted: no failure
  -- of the banter takes it back. Or one was there already, and the run stands on it. In each case
  -- every candidate of the banter is clean at its intensity, within the limits of a card, and each of
  -- its labels stands for a fact of the dossier that the rooms of the audience may use.
  pub run_preparation-IsPrepared :
      (p : Option Payload) → Ensures IsPrepared (run_preparation env w p)
  unfolding run_preparation load_case
  run_preparation-IsPrepared none = tt
  run_preparation-IsPrepared (some p) = case-IsPrepared p w.snapshot
