-- ===== src/Preparation/Keyed.antt =====
-- The key of ai.trial_prep: `save_prep` of postgres_preparation.py inserts one row for a case and a
-- prompt version, however often it is called.
use geoji_agent.Base.{
  ℕ, ◌≡◌, refl, subst, Bool, true, false, Option, none, some, List, [], ◌∷◌, arith, any, find,
  update_where, if◌then◌else◌, ◌==◌,
}
use geoji_agent.Texts.{Intensity}
use geoji_agent.Preparation.{Dossier, Banter, Case}
use geoji_agent.Preparation.Graph.{PrepSaved}
use geoji_agent.Preparation.Store.{
  Entry, Prep, Tables, Keys, Commit, committed, stale_epochs, violated, stale_scopes,
  insert_dossier, dossier_ok, with_dossier, check_epochs, prep_at, new_prep, saved_new, with_prep,
  insert_prep, or_existing, save_prep, key, banter_json, open_for, complete_row, save_under,
  save_at, save_banter,
}
use geoji_agent.Preparation.Complete.{Call, saves, banters, after, step, run}

-- UNIQUE (post_id, input_hash, prompt_version): no two rows agree on the key.
abbrev pub IsUnique : List Prep → Type 0
IsUnique [] = Unit
IsUnique (r ∷ rs) = (prep_at r.post_id r.input_hash r.prompt_version rs ≡ none) × IsUnique rs

prep_at-update :
    (post hash prompt id : ℕ) (json : List (Intensity × Entry)) (rs : List Prep)
    → prep_at post hash prompt rs ≡ none
    → prep_at post hash prompt (update_where (open_for id) (complete_row json) rs) ≡ none
prep_at-update post hash prompt id json [] h = h
prep_at-update post hash prompt id json (r ∷ rs) h =
    ground (arith, prep_at-update post hash prompt id json rs)

IsUnique-update :
    (id : ℕ) (json : List (Intensity × Entry)) (rs : List Prep)
    → IsUnique rs
    → IsUnique (update_where (open_for id) (complete_row json) rs)
IsUnique-update id json [] u = tt
IsUnique-update id json (r ∷ rs) u = (rekeyed (open_for id r), IsUnique-update id json rs u.1)
  where
    rekeyed :
        (b : Bool)
        → let x = if b then complete_row json r else r in
          prep_at x.post_id x.input_hash x.prompt_version
            (update_where (open_for id) (complete_row json) rs)
          ≡ none
    rekeyed true = prep_at-update r.post_id r.input_hash r.prompt_version id json rs u.0
    rekeyed false = prep_at-update r.post_id r.input_hash r.prompt_version id json rs u.0

module _ (keys : Keys) where
  inserted-IsUnique :
      (reuse : Bool) (t : Tables) (d : Dossier) (new : Prep)
      → IsUnique (new ∷ t.preps)
      → IsUnique t.preps
      → IsUnique (after t (insert_prep reuse t d new)).preps
  inserted-IsUnique reuse t d new u v = split (any (λ (s : Prep). s.id == new.id) t.preps) reuse
    where
      stored :
          (b : Bool)
          → IsUnique
              (after t (
                if b
                then committed (saved_new new.id) (with_dossier (with_prep t new) d)
                else violated)).preps
      stored true = u
      stored false = v

      split :
          (b r : Bool)
          → IsUnique
              (after t (
                if b
                then violated
                else if r
                then committed (saved_new new.id) (with_prep t new)
                else insert_dossier (saved_new new.id) (with_prep t new) d)).preps
      split true r = v
      split false true = u
      split false false = stored (dossier_ok (with_prep t new) d)

  checked-IsUnique :
      (t : Tables) (ks : List ℕ) (c : Commit PrepSaved)
      → IsUnique t.preps
      → IsUnique (after t c).preps
      → IsUnique (after t (check_epochs ks c)).preps
  checked-IsUnique t [] c u h = h
  checked-IsUnique t (k ∷ ks) c u h = u

  saved-IsUnique :
      (prompt id now : ℕ) (reuse : Bool) (d : Dossier) (c : Case) (t : Tables) (o : Option Prep)
      → prep_at c.snapshot.post_id (keys.input_hash c) prompt t.preps ≡ o
      → IsUnique t.preps
      → IsUnique
          (after t (
            or_existing t o
              (insert_prep reuse t d (new_prep (keys.input_hash c) prompt id now d c)))).preps
  saved-IsUnique prompt id now reuse d c t none e u =
      inserted-IsUnique reuse t d (new_prep (keys.input_hash c) prompt id now d c) (e, u) u
  saved-IsUnique prompt id now reuse d c t (some r) e u = u

  banters-IsUnique :
      (id : ℕ) (b : Banter) (t : Tables) (o : Option Prep)
      → IsUnique t.preps
      → IsUnique (save_at keys id b t o).1.preps
  banters-IsUnique id b t none u = u
  banters-IsUnique id b t (some s) u = under s.dossier_id
    where
      under : (d : Option ℕ) → IsUnique (save_under keys id b t s d).1.preps
      under none = u
      under (some d) = IsUnique-update id (banter_json keys d s.prompt_version b) t.preps u

  -- No history of saves gives two preparations the same post, input and prompt version.
  pub run-IsUnique :
      (es : List Call) (t : Tables) → IsUnique t.preps → IsUnique (run keys t es).preps
  unfolding run save_prep save_banter
  run-IsUnique [] t u = u
  run-IsUnique (saves prompt id now reuse d c ∷ es) t u =
      run-IsUnique es (step keys t (saves prompt id now reuse d c)) (
        checked-IsUnique t (stale_scopes t d.privacy_versions) _ u
          (saved-IsUnique prompt id now reuse d c t _ refl u))
  run-IsUnique (banters id b ∷ es) t u =
      run-IsUnique es (step keys t (banters id b)) (banters-IsUnique id b t (find key id t.preps) u)

  -- After a save there is a row under the key, and the result speaks of it.
  abbrev IsAt : Case → ℕ → Commit PrepSaved → Type 0
  IsAt c prompt (committed s t) =
      (r : Prep) × (prep_at c.snapshot.post_id (keys.input_hash c) prompt t.preps ≡ some r)
      × (s.prep_id ≡ r.id)
      × (s.status ≡ r.status)
  IsAt c prompt (stale_epochs ks) = Unit
  IsAt c prompt violated = Unit

  inserted-IsAt :
      (prompt id now : ℕ) (reuse : Bool) (d : Dossier) (c : Case) (t : Tables)
      → IsAt c prompt (insert_prep reuse t d (new_prep (keys.input_hash c) prompt id now d c))
  inserted-IsAt prompt id now reuse d c t = split (any (λ (s : Prep). s.id == new.id) t.preps) reuse
    where
      new : Prep
      new = new_prep (keys.input_hash c) prompt id now d c

      at_head : prep_at c.snapshot.post_id (keys.input_hash c) prompt (new ∷ t.preps) ≡ some new
      at_head = ground arith

      stored :
          (b : Bool)
          → IsAt c prompt (
              if b
              then committed (saved_new new.id) (with_dossier (with_prep t new) d)
              else violated)
      stored true = (new, at_head, refl, refl)
      stored false = tt

      split :
          (b r : Bool)
          → IsAt c prompt (
              if b
              then violated
              else if r
              then committed (saved_new new.id) (with_prep t new)
              else insert_dossier (saved_new new.id) (with_prep t new) d)
      split true r = tt
      split false true = (new, at_head, refl, refl)
      split false false = stored (dossier_ok (with_prep t new) d)

  saved-IsAt :
      (prompt id now : ℕ) (reuse : Bool) (d : Dossier) (c : Case) (t : Tables) (o : Option Prep)
      (ks : List ℕ)
      → prep_at c.snapshot.post_id (keys.input_hash c) prompt t.preps ≡ o
      → IsAt c prompt (
          check_epochs ks (
            or_existing t o
              (insert_prep reuse t d (new_prep (keys.input_hash c) prompt id now d c))))
  saved-IsAt prompt id now reuse d c t none [] e = inserted-IsAt prompt id now reuse d c t
  saved-IsAt prompt id now reuse d c t (some r) [] e = (r, e, refl, refl)
  saved-IsAt prompt id now reuse d c t o (k ∷ ks) e = tt

  -- Saving the same case under the same prompt version again, with whatever dossier has no stale
  -- epoch, writes nothing: it finds the row of the first save, with the status that it has.
  pub save_prep_twice :
      (prompt id now id' now' : ℕ) (reuse reuse' : Bool) (d d' : Dossier) (c : Case) (t u : Tables)
      (s : PrepSaved)
      → save_prep keys prompt id now reuse d c t ≡ committed s u
      → stale_scopes u d'.privacy_versions ≡ []
      → save_prep keys prompt id' now' reuse' d' c u ≡ committed (record s { reused = true }) u
  unfolding save_prep
  save_prep_twice prompt id now id' now' reuse reuse' d d' c t u s e fresh =
      let (r, at, same_id, same_status) =
        subst (IsAt c prompt) e
          (saved-IsAt prompt id now reuse d c t _ (stale_scopes t d.privacy_versions) refl) in
      rw (fresh, at, same_id, same_status) refl
