-- ===== src/Preparation/Saved.antt =====
-- A dossier through `save_prep` and back by `load_valid_prep`, in postgres_preparation.py.
use geoji_agent.Base.{
  Among, ℕ, suc, ◌≡◌, refl, Bool, true, false, Option, none, some, List, [], ◌∷◌, ◌++◌, map, arith,
  ◌==◌, leb, subst, any, if◌then◌else◌,
}
use geoji_agent.Evidence.{Fact}
use geoji_agent.Preparation.{Dossier, Case}
use geoji_agent.Preparation.Graph.{PrepSaved}
use geoji_agent.Preparation.Merged.{IsNumbered}
use geoji_agent.Preparation.Sources.{Triple, has, has-saved}
use geoji_agent.Preparation.Store.{
  evidence_ok, Prep, EvidenceRow, Tables, Keys, Commit, committed, stale_epochs, violated,
  evidence_row, with_dossier, dossier_ok, check_epochs, stale_scopes, new_prep, saved_new,
  with_prep, insert_prep, or_existing, save_prep,
}
use geoji_agent.Preparation.Loading.{
  same_epochs, load_valid_prep, sources_of, insert_label, facts_of,
}

-- A fact as it is read: its sources are those in their table.
abbrev pub read_back : Keys → Tables → Fact → Fact
read_back keys t f = record f {
  draft = record f.draft { sources = sources_of keys f.uuid t.sources };
}

-- No evidence stands under a dossier yet.
abbrev pub NoneOf : ℕ → List EvidenceRow → Type 0
NoneOf id [] = Unit
NoneOf id (r ∷ rs) = ((r.dossier_id == id) ≡ false) × NoneOf id rs

module _ (keys : Keys) (t : Tables) (id : ℕ) where
  facts_of-others : (rs : List EvidenceRow) → NoneOf id rs → facts_of keys t id rs ≡ []
  unfolding facts_of
  facts_of-others [] h = refl
  facts_of-others (r ∷ rs) (h, hs) = rw h (facts_of-others rs hs)

  insert_label-first :
      (f : Fact) (i : ℕ) (fs : List Fact)
      → f.label ≡ i
      → IsNumbered (suc i) fs
      → insert_label f (map (read_back keys t) fs) ≡ f ∷ map (read_back keys t) fs
  unfolding insert_label
  insert_label-first f i [] e h = refl
  insert_label-first f i (g ∷ gs) e (h, hs) =
      let before : leb f.label g.label ≡ true = ground (arith, e, h) in rw before refl

  facts_of-saved :
      (i : ℕ) (fs : List Fact) (rs : List EvidenceRow)
      → IsNumbered i fs
      → NoneOf id rs
      → facts_of keys t id (map (evidence_row id) fs ++ rs) ≡ map (read_back keys t) fs
  unfolding facts_of
  facts_of-saved i [] rs h k = facts_of-others rs k
  facts_of-saved i (f ∷ fs) rs (h, hs) k =
      let same : (id == id) ≡ true = ground arith in
      rw (same, facts_of-saved (suc i) fs rs hs k)
        (insert_label-first (read_back keys t f) i fs h hs)

module _ (keys : Keys) (prompt id now : ℕ) (d : Dossier) (c : Case) (t : Tables) where
  abbrev new : Prep
  new = new_prep (keys.input_hash c) prompt id now d c

  -- A commit that found no row has written the preparation and its dossier.
  abbrev Writes : Commit PrepSaved → Type 0
  Writes (committed s u) =
      s.reused ≡ false
      → (s.prep_id ≡ id)
        × (u ≡ with_dossier (with_prep t new) d)
        × (dossier_ok (with_prep t new) d ≡ true)
  Writes (stale_epochs ks) = Unit
  Writes violated = Unit

  inserted-Writes : Writes (insert_prep false t d new)
  inserted-Writes =
      split (any (λ (s : Prep). s.id == id) t.preps) (dossier_ok (with_prep t new) d) refl
    where
      split :
          (a b : Bool)
          → dossier_ok (with_prep t new) d ≡ b
          → Writes (
              if a
              then violated
              else (if b
                  then committed (saved_new id) (with_dossier (with_prep t new) d)
                  else violated))
      split true b k = tt
      split false true k = λ e. (refl, refl, k)
      split false false k = tt

  saved-Writes :
      (ks : List ℕ) (o : Option Prep)
      → Writes (check_epochs ks (or_existing t o (insert_prep false t d new)))
  saved-Writes [] none = inserted-Writes
  saved-Writes [] (some r) = λ e. cc
  saved-Writes (k ∷ ks) o = tt

  loaded-new :
      same_epochs d.privacy_versions c.privacy_versions ≡ true
      → IsNumbered 0 d.facts
      → NoneOf d.dossier_id t.evidence
      → (u : Tables) → u ≡ with_dossier (with_prep t new) d
      → load_valid_prep keys c prompt u
        ≡ some (record {
          dossier = record d {
            facts = map (read_back keys u) d.facts;
            privacy_versions = c.privacy_versions;
          };
          banter = [];
          prep_id = id;
        })
  unfolding load_valid_prep
  loaded-new epochs n k u e =
      let same : (m : ℕ) → (m == m) ≡ true = λ m. ground arith in
      rw
        (
          e,
          same d.dossier_id,
          same c.snapshot.post_id,
          same prompt,
          same (keys.input_hash c),
          epochs,
          facts_of-saved keys (with_dossier (with_prep t new) d) d.dossier_id 0 d.facts t.evidence n
              k,
        )
        refl

-- A dossier that a save has put under a new preparation is what the next load for the same case and
-- prompt version hands out, with the preparation's id and no banter: all its columns, its facts in
-- their order, each as it was up to its sources, of which none is lost and none is new. The dossier
-- has the epochs of the case, its facts are numbered from F0, no evidence had its id and no source
-- the uuid of one of its facts.
pub save_prep-loaded :
    (keys : Keys) (prompt id now : ℕ) (d : Dossier) (c : Case) (t u : Tables) (s : PrepSaved)
    → same_epochs d.privacy_versions c.privacy_versions ≡ true
    → IsNumbered 0 d.facts
    → NoneOf d.dossier_id t.evidence
    → ((f : Fact) → Among f d.facts → sources_of keys f.uuid t.sources ≡ [])
    → save_prep keys prompt id now false d c t ≡ committed s u
    → s.reused ≡ false
    → (load_valid_prep keys c prompt u
        ≡ some (record {
          dossier = record d {
            facts = map (read_back keys u) d.facts;
            privacy_versions = c.privacy_versions;
          };
          banter = [];
          prep_id = id;
        }))
      × ((f : Fact)
          → Among f d.facts
          → (x : Triple) → has x (read_back keys u f).draft.sources ≡ has x f.draft.sources)
unfolding save_prep
save_prep-loaded keys prompt id now d c t u s epochs n k free e f =
    let written : Writes keys prompt id now d c t (committed s u) =
      subst (Writes keys prompt id now d c t) e
        (saved-Writes keys prompt id now d c t (stale_scopes t d.privacy_versions) _) in
    let (same_id, at, ok) = written f in
    let stands : evidence_ok t.evidence d.facts ≡ true = ground (arith, ok) in
    (
      loaded-new keys prompt id now d c t epochs n k u at,
      λ g among x.
          rw at (has-saved keys x t.sources g t.evidence d.facts among stands (free g among)),
    )
