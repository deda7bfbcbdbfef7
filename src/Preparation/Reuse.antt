-- ===== src/Preparation/Reuse.antt =====
-- A preparation that is used again (D-27 of graphs/preparation.py).
use geoji_agent.Base.{◌≡◌, refl, Option, some, List}
use geoji_agent.Evidence.{Fact, Resolved}
use geoji_agent.Preparation.Graph.{
  World, Env, Payload, Recall, Request, ContextReply, ValidPrep, load_case, load_reusable_prep,
  persist_dossier,
}
use geoji_agent.Preparation.Run.{run_preparation, generate_banter, persist_banter}

abbrev pub asks_anew :
    World → Recall → (Request → Option Resolved) → (List Fact → ContextReply) → World
asks_anew w recall resolve context = record w {
  recall = recall;
  resolve = resolve;
  context = context;
}

-- With a valid preparation at hand, a run neither recalls, resolves nor asks for the context of the
-- case: whatever the memory, the backend and the model would answer there, the run is the same.
pub run_preparation-reuse :
    (env : Env) (w : World) (p : Option Payload) (v : ValidPrep) (recall : Recall)
    (resolve : Request → Option Resolved) (context : List Fact → ContextReply)
    → w.valid_prep ≡ some (some v)
    → run_preparation env (asks_anew w recall resolve context) p ≡ run_preparation env w p
unfolding run_preparation load_case load_reusable_prep persist_dossier generate_banter
    persist_banter
run_preparation-reuse env w p v recall resolve context e = rw e refl
