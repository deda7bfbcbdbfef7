-- ===== src/Preparation/Complete.antt =====
-- The rows of ai.trial_prep under every method of postgres_preparation.py that writes them.
use mathlib.Core.Option
use geoji_agent.Base.{
  ℕ, ◌≡◌, refl, sym, ap, ◌∙◌, ◌⊎◌, inl, inr, Bool, true, false, Option, none, some, List, [], ◌∷◌,
  arith, any, find, find-update_where, Bool-cases, if◌then◌else◌, is_null, ◌==◌,
}
use geoji_agent.Texts.{Intensity}
use geoji_agent.Preparation.{Dossier, Banter, Case}
use geoji_agent.Preparation.Graph.{PrepSaved, is_ready}
use geoji_agent.Preparation.Store.{
  Entry, Prep, Tables, Keys, Commit, committed, stale_epochs, violated, stale_scopes,
  insert_dossier, dossier_ok, with_dossier, check_epochs, prep_at, new_prep, saved_new, with_prep,
  insert_prep, or_existing, save_prep, key, banter_json, open_for, complete_row, update_banter,
  save_under, save_at, save_banter,
}

-- A call of the store, with what the database draws for it.
pub data Call : Type 0 where
  saves : (prompt id now : ℕ) → Bool → Dossier → Case → Call
  banters : ℕ → Banter → Call

abbrev pub after : {A : Type 0} → Tables → Commit A → Tables
after t (committed a u) = u
after t (stale_epochs ks) = t
after t violated = t

abbrev pub step : Keys → Tables → Call → Tables
step keys t (saves prompt id now reuse d c) = after t (save_prep keys prompt id now reuse d c t)
step keys t (banters id b) = (save_banter keys id b t).1

unfoldable pub run : Keys → Tables → List Call → Tables
run keys t [] = t
run keys t (e ∷ es) = run keys (step keys t e) es

-- A row stays as it is, or gets its banter, if it was ready and had none.
abbrev pub Evolves : Prep → Prep → Type 0
Evolves r s =
    (s ≡ r)
    ⊎ ((is_ready r.status ≡ true)
        × (r.banter_json ≡ none)
        × (json : List (Intensity × Entry)) × (s ≡ complete_row json r))

abbrev Kept : ℕ → Prep → Tables → Type 0
Kept i r t = (s : Prep) × (find key i t.preps ≡ some s) × Evolves r s

Evolves-trans : (a b c : Prep) → Evolves a b → Evolves b c → Evolves a c
Evolves-trans a b c (inl e) (inl f) = inl (f ∙ e)
Evolves-trans a b c (inl e) (inr (ready, empty, json, f)) = inr (
  ap (λ (x : Prep). is_ready x.status) (sym e) ∙ ready,
  ap (λ (x : Prep). x.banter_json) (sym e) ∙ empty,
  json,
  f ∙ ap (complete_row json) e,
)
Evolves-trans a b c (inr (ready, empty, json, f)) (inl g) = inr (ready, empty, json, g ∙ f)
Evolves-trans a b c (inr (ready, empty, json, f)) (inr (again, empty', json', g)) =
    cc (ap (λ (x : Prep). is_ready x.status) (sym f) ∙ again)

-- Under an insertion.
any_id :
    (id i : ℕ) (rs : List Prep) (r : Prep)
    → any (λ (s : Prep). s.id == id) rs ≡ false
    → find key i rs ≡ some r
    → (id == i) ≡ false
any_id id i [] r h e = cc
any_id id i (s ∷ rs) r h e = ground (arith, any_id id i rs r)

module _ (keys : Keys) (i : ℕ) where
  inserted-Kept :
      (r : Prep) (reuse : Bool) (t : Tables) (d : Dossier) (new : Prep)
      → find key i t.preps ≡ some r
      → Kept i r (after t (insert_prep reuse t d new))
  inserted-Kept r reuse t d new e = elim (Bool-cases (any (λ (s : Prep). s.id == new.id) t.preps)) [
    | inl used ↦ rw used (r, e, inl refl)
    | inr free ↦ rw free (fits reuse (found free))
  ]
    where
      found :
          any (λ (s : Prep). s.id == new.id) t.preps ≡ false → find key i (new ∷ t.preps) ≡ some r
      found free = rw (any_id new.id i t.preps r free e) e

      stored :
          (b : Bool)
          → find key i (new ∷ t.preps) ≡ some r
          → Kept i r (
              after t (
                if b
                then committed (saved_new new.id) (with_dossier (with_prep t new) d)
                else violated))
      stored true f = (r, f, inl refl)
      stored false f = (r, e, inl refl)

      fits :
          (b : Bool)
          → find key i (new ∷ t.preps) ≡ some r
          → Kept i r (
              after t (
                if b
                then committed (saved_new new.id) (with_prep t new)
                else insert_dossier (saved_new new.id) (with_prep t new) d))
      fits true f = (r, f, inl refl)
      fits false f = stored (dossier_ok (with_prep t new) d) f

  checked-Kept :
      (r : Prep) (t : Tables) (ks : List ℕ) (c : Commit PrepSaved)
      → find key i t.preps ≡ some r
      → Kept i r (after t c)
      → Kept i r (after t (check_epochs ks c))
  checked-Kept r t [] c e h = h
  checked-Kept r t (k ∷ ks) c e h = (r, e, inl refl)

  existing-Kept :
      (r : Prep) (t : Tables) (o : Option Prep) (c : Commit PrepSaved)
      → find key i t.preps ≡ some r
      → Kept i r (after t c)
      → Kept i r (after t (or_existing t o c))
  existing-Kept r t none c e h = h
  existing-Kept r t (some s) c e h = (r, e, inl refl)

  updated-Kept :
      (r : Prep) (id : ℕ) (json : List (Intensity × Entry)) (t : Tables)
      → find key i t.preps ≡ some r
      → Kept i r (update_banter id json t).1
  updated-Kept r id json t e = (
    _,
    find-update_where key (open_for id) (complete_row json) (λ x. refl) i t.preps
        ∙ ap (Option.map _) e,
    split (open_for id r) refl,
  )
    where
      split : (b : Bool) → open_for id r ≡ b → Evolves r (if b then complete_row json r else r)
      split false h = inl refl
      split true h = inr (ground arith, null r.banter_json (ground arith), json, refl)
        where
          null : (o : Option (List (Intensity × Entry))) → is_null o ≡ true → o ≡ none
          null none h = refl
          null (some x) h = cc

  banters-Kept :
      (r : Prep) (id : ℕ) (b : Banter) (t : Tables) (o : Option Prep)
      → find key i t.preps ≡ some r
      → Kept i r (save_at keys id b t o).1
  banters-Kept r id b t none e = (r, e, inl refl)
  banters-Kept r id b t (some s) e = under s.dossier_id
    where
      under : (d : Option ℕ) → Kept i r (save_under keys id b t s d).1
      under none = (r, e, inl refl)
      under (some d) = updated-Kept r id (banter_json keys d s.prompt_version b) t e

  step-Kept :
      (r : Prep) (t : Tables) (c : Call) → find key i t.preps ≡ some r → Kept i r (step keys t c)
  unfolding save_prep save_banter
  step-Kept r t (saves prompt id now reuse d c) e =
      checked-Kept r t (stale_scopes t d.privacy_versions) _ e (
        existing-Kept r t (prep_at c.snapshot.post_id (keys.input_hash c) prompt t.preps) _ e
          (inserted-Kept r reuse t d (new_prep (keys.input_hash c) prompt id now d c) e))
  step-Kept r t (banters id b) e = banters-Kept r id b t (find key id t.preps) e

-- Through any history of saves by any workers a preparation stays, with every column, until its banter
-- is stored; that happens to a ready row without banter only, once, and a complete row never
-- changes again.
pub run-Evolves :
    (keys : Keys) (i : ℕ) (es : List Call) (t : Tables) (r : Prep)
    → find key i t.preps ≡ some r
    → (s : Prep) × (find key i (run keys t es).preps ≡ some s) × Evolves r s
unfolding run
run-Evolves keys i [] t r e = (r, e, inl refl)
run-Evolves keys i (c ∷ es) t r e =
    let (s, f, first) = step-Kept keys i r t c e in
    let (u, g, later) = run-Evolves keys i es (step keys t c) s f in
    (u, g, Evolves-trans r s u first later)
