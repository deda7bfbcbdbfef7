-- ===== src/Preparation/Kept.antt =====
-- What the node persist_dossier of graphs/preparation.py leaves, and how a run may end from there.
use geoji_agent.Base.{
  ◌≡◌, refl, ◌⊎◌, inl, inr, Bool, true, false, Option, none, some, [], Bool-cases,
}
use geoji_agent.Preparation.{Dossier}
use geoji_agent.Preparation.Graph.{
  stale_event, dossier_ready, complete_prep, invalidated_prep, PrepSaved, ValidPrep, Turn, went,
  threw, ◌>>=◌, State, World, take_again, after_save, save_dossier, persist_dossier, is_ready,
}
use geoji_agent.Preparation.Shown.{Ensures}

-- What a run comes to after its dossier is saved as `s`.
abbrev pub Rests : World → PrepSaved → State → Type 0
Rests w s st =
    (st.status ≡ dossier_ready)
    ⊎ ((st.status ≡ complete_prep) × (w.save_banter s.prep_id st.banter ≡ some true))

-- How a run ends: at an outdated event, with a preparation of its own, or with one that was there.
pub data Ending (w : World) (st : State) : Type 0 where
  outdated : st.status ≡ stale_event → st.prep_id ≡ none → Ending w st
  fresh :
      (d : Dossier) (reuse : Bool) (s : PrepSaved)
      → w.save_prep d reuse ≡ went s
      → s.reused ≡ false
      → st.prep_id ≡ some s.prep_id
      → Rests w s st
      → Ending w st
  found :
      (d : Dossier) (reuse : Bool) (s : PrepSaved)
      → w.save_prep d reuse ≡ went s
      → s.reused ≡ true
      → st.prep_id ≡ some s.prep_id
      → (Rests w s st) ⊎ ((st.status ≡ s.status) ⊎ (st.status ≡ invalidated_prep))
      → Ending w st

-- What the save of a dossier leaves: a new row, or one that was there.
abbrev pub Left : PrepSaved → State → Type 0
Left s st =
    ((s.reused ≡ false) × (st.status ≡ dossier_ready))
    ⊎ ((s.reused ≡ true)
        × ((st.status ≡ dossier_ready) ⊎ ((st.status ≡ s.status) ⊎ (st.status ≡ invalidated_prep))))

-- The state after the dossier has been saved as `s`.
pub record IsKept (w : World) (st : State) : Type 0 where
  pub d : Dossier
  pub reuse : Bool
  pub s : PrepSaved
  pub at : w.save_prep d reuse ≡ went s
  pub prep : st.prep_id ≡ some s.prep_id
  pub empty : st.banter ≡ []
  pub ends : Left s st

abbrev pub NoBanter : State → Type 0
NoBanter st = st.banter ≡ []

module _ (w : World) where
  reload-IsKept :
      (st : State) (d : Dossier) (reuse : Bool) (s : PrepSaved)
      → w.save_prep d reuse ≡ went s
      → s.reused ≡ true
      → st.prep_id ≡ some s.prep_id
      → st.banter ≡ []
      → (again : Turn (Option ValidPrep))
      → Ensures (IsKept w) (again >>= λ v. went (take_again st v))
  reload-IsKept st d reuse s e u p b (threw x) = tt
  reload-IsKept st d reuse s e u p b (went none) = record {
    d = d;
    reuse = reuse;
    s = s;
    at = e;
    prep = p;
    empty = b;
    ends = inr (u, inr (inr refl));
  }
  reload-IsKept st d reuse s e u p b (went (some v)) = record {
    d = d;
    reuse = reuse;
    s = s;
    at = e;
    prep = p;
    empty = b;
    ends = inr (u, inl refl);
  }

  after_save-IsKept :
      (st : State) (d : Dossier) (reuse : Bool) (s : PrepSaved)
      → w.save_prep d reuse ≡ went s
      → st.banter ≡ []
      → Ensures (IsKept w) (after_save w st d s)
  after_save-IsKept st d reuse s e b = elim (Bool-cases s.reused) [
    | inl u ↦ rw u (elim (Bool-cases (is_ready s.status)) [
      | inl r ↦ rw r (
          reload-IsKept (record st { prep_id = some s.prep_id }) d reuse s e u refl b
            w.valid_prep_again)
      | inr r ↦ rw r (record {
        d = d;
        reuse = reuse;
        s = s;
        at = e;
        prep = refl;
        empty = b;
        ends = inr (u, inr (inl refl));
      })
    ])
    | inr u ↦ rw u (record {
      d = d;
      reuse = reuse;
      s = s;
      at = e;
      prep = refl;
      empty = b;
      ends = inl (u, refl);
    })
  ]

  saved-IsKept :
      (st : State) (d : Dossier) (t : Turn PrepSaved)
      → w.save_prep d st.reuse_dossier ≡ t
      → st.banter ≡ []
      → Ensures (IsKept w) (t >>= after_save w st d)
  saved-IsKept st d (threw x) e b = tt
  saved-IsKept st d (went s) e b = after_save-IsKept st d st.reuse_dossier s e b

  pub persist_dossier-IsKept :
      (st : State) → NoBanter st → Ensures (IsKept w) (persist_dossier w st)
  unfolding persist_dossier
  persist_dossier-IsKept st b = go st.dossier
    where
      go : (o : Option Dossier) → Ensures (IsKept w) (save_dossier w st o)
      go none = tt
      go (some d) = saved-IsKept st d _ refl b

  pub kept-Ending : (st : State) → IsKept w st → Ending w st
  kept-Ending st k = go k.ends
    where
      go : Left k.s st → Ending w st
      go (inl (u, ready)) = Ending.fresh k.d k.reuse k.s k.at u k.prep (inl ready)
      go (inr (u, inl ready)) = Ending.found k.d k.reuse k.s k.at u k.prep (inl (inl ready))
      go (inr (u, inr other)) = Ending.found k.d k.reuse k.s k.at u k.prep (inr other)

  pub rests-Ending :
      (st new : State) (k : IsKept w st)
      → new.prep_id ≡ some k.s.prep_id
      → Rests w k.s new
      → Ending w new
  rests-Ending st new k p r = go k.ends
    where
      go : Left k.s st → Ending w new
      go (inl (u, x)) = Ending.fresh k.d k.reuse k.s k.at u p r
      go (inr (u, x)) = Ending.found k.d k.reuse k.s k.at u p (inl r)
