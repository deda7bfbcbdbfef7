-- ===== src/Preparation/Completed.antt =====
-- What UPDATE_BANTER_SQL does to the rows that the SELECTs of postgres_preparation.py find: it turns
-- each into its completed form, in the same places.
use mathlib.Core.Option
use mathlib.Core.List.{map-append}
use geoji_agent.Base.{
  ℕ, ◌≡◌, refl, sym, ap, ◌∙◌, inl, inr, Bool, true, Option, none, some, List, [], ◌∷◌, map, arith,
  filter, if◌then◌else◌, Bool-cases, update_where, ◌==◌,
}
use geoji_agent.Texts.{Intensity}
use geoji_agent.Preparation.{Case}
use geoji_agent.Preparation.Graph.{
  Status, unset, loaded, stale_event, dossier_ready, complete_prep, invalidated_prep, is_ready,
}
use geoji_agent.Preparation.Store.{Entry, Prep, DossierRow, Tables, Keys, open_for, complete_row}
use geoji_agent.Preparation.Loading.{
  Joined, is_usable, is_valid, joined_with, joined, first, exact_rows, is_newer, insert_newest,
  sort_newest, partial_rows, has_epochs, Chosen, as_partial, choose_partial, choose,
}

ready_is_usable : (s : Status) → is_ready s ≡ true → is_usable s ≡ true
ready_is_usable dossier_ready h = refl
ready_is_usable unset h = cc
ready_is_usable loaded h = cc
ready_is_usable stale_event h = cc
ready_is_usable complete_prep h = cc
ready_is_usable invalidated_prep h = cc

filter-map :
    {A : Type 0} (p : A → Bool) (f : A → A)
    → ((x : A) → p (f x) ≡ p x)
    → (xs : List A) → filter p (map f xs) ≡ map f (filter p xs)
filter-map p f same [] = refl
filter-map p f same (x ∷ xs) = elim (Bool-cases (p x)) [
  | inl e ↦ rw (same x, e) (ap (f x ∷◌) (filter-map p f same xs))
  | inr e ↦ rw (same x, e) (filter-map p f same xs)
]

first-map : {A : Type 0} (f : A → A) (xs : List A) → first (map f xs) ≡ Option.map f (first xs)
first-map f [] = refl
first-map f (x ∷ xs) = refl

module _ (id : ℕ) (json : List (Intensity × Entry)) where
  abbrev pub completed : Prep → Prep
  completed r = if open_for id r then complete_row json r else r

  abbrev pub completed_row : Joined → Joined
  completed_row j = record j { prep = completed j.prep }

  abbrev pub completed_choice : Chosen → Chosen
  completed_choice k = record k { row = completed_row k.row }

  abbrev pub with_banter : Tables → Tables
  with_banter t = record t { preps = update_where (open_for id) (complete_row json) t.preps }

  completed-is_valid :
      (post prompt : ℕ) (r : Prep) (d : DossierRow)
      → is_valid post prompt (completed r) d ≡ is_valid post prompt r d
  completed-is_valid post prompt r d = elim (Bool-cases (open_for id r)) [
    | inl o ↦
        let ready : is_ready r.status ≡ true = ground (arith, o) in
        rw (o, ready_is_usable r.status ready) refl
    | inr o ↦ rw o refl
  ]

  joined_with-completed :
      (post prompt : ℕ) (r : Prep) (ds : List DossierRow)
      → joined_with post prompt (completed r) ds ≡ map completed_row (joined_with post prompt r ds)
  joined_with-completed post prompt r [] = refl
  joined_with-completed post prompt r (d ∷ ds) = elim (Bool-cases (is_valid post prompt r d)) [
    | inl e ↦
        rw (completed-is_valid post prompt r d, e)
          (ap (record { prep = completed r; dossier = d } ∷◌)
            (joined_with-completed post prompt r ds))
    | inr e ↦ rw (completed-is_valid post prompt r d, e) (joined_with-completed post prompt r ds)
  ]

  joined-completed :
      (post prompt : ℕ) (ds : List DossierRow) (rs : List Prep)
      → joined post prompt ds (update_where (open_for id) (complete_row json) rs)
        ≡ map completed_row (joined post prompt ds rs)
  joined-completed post prompt ds [] = refl
  joined-completed post prompt ds (r ∷ rs) =
      rw (joined_with-completed post prompt r ds, joined-completed post prompt ds rs)
        (sym (map-append completed_row (joined_with post prompt r ds) _))

  -- The update keeps all that the statements filter and sort by.
  kept_created_at : (r : Prep) → (completed r).created_at ≡ r.created_at
  kept_created_at r = ground arith

  pub kept_id : (r : Prep) → (completed r).id ≡ r.id
  kept_id r = ground arith

  kept_hash : (r : Prep) → (completed r).input_hash ≡ r.input_hash
  kept_hash r = ground arith

  insert_newest-completed :
      (j : Joined) (ks : List Joined)
      → insert_newest (completed_row j) (map completed_row ks)
        ≡ map completed_row (insert_newest j ks)
  unfolding insert_newest
  insert_newest-completed j [] = refl
  insert_newest-completed j (k ∷ ks) = elim (Bool-cases (is_newer j k)) [
    | inl e ↦
        rw (kept_created_at j.prep, kept_created_at k.prep, kept_id j.prep, kept_id k.prep, e) refl
    | inr e ↦
        rw (kept_created_at j.prep, kept_created_at k.prep, kept_id j.prep, kept_id k.prep, e)
          (ap (completed_row k ∷◌) (insert_newest-completed j ks))
  ]

  sort_newest-completed :
      (js : List Joined) → sort_newest (map completed_row js) ≡ map completed_row (sort_newest js)
  unfolding sort_newest
  sort_newest-completed [] = refl
  sort_newest-completed (j ∷ js) =
      ap (insert_newest (completed_row j)) (sort_newest-completed js)
      ∙ insert_newest-completed j (sort_newest js)

  module _ (keys : Keys) (c : Case) (prompt : ℕ) (t : Tables) where
    exact_rows-completed :
        exact_rows keys c prompt (with_banter t) ≡ map completed_row (exact_rows keys c prompt t)
    exact_rows-completed = rw (joined-completed c.snapshot.post_id prompt t.dossiers t.preps) (
        filter-map (λ (j : Joined). j.prep.input_hash == keys.input_hash c) completed_row
          (λ j. rw (kept_hash j.prep) refl) (joined c.snapshot.post_id prompt t.dossiers t.preps))

    partial_rows-completed :
        partial_rows keys c prompt (with_banter t)
        ≡ map completed_row (partial_rows keys c prompt t)
    partial_rows-completed = rw (joined-completed c.snapshot.post_id prompt t.dossiers t.preps) (
        ap sort_newest (
          filter-map (λ (j : Joined). j.dossier.snapshot_hash == keys.dossier_key c) completed_row
            (λ j. refl) (joined c.snapshot.post_id prompt t.dossiers t.preps))
        ∙ sort_newest-completed (
            filter (λ (j : Joined). j.dossier.snapshot_hash == keys.dossier_key c)
              (joined c.snapshot.post_id prompt t.dossiers t.preps)))

    choose_partial-completed :
        choose_partial keys c prompt (with_banter t)
        ≡ Option.map completed_choice (choose_partial keys c prompt t)
    choose_partial-completed =
        ap (λ rows. as_partial (first (filter (has_epochs c) rows))) partial_rows-completed
        ∙ ap (λ rows. as_partial (first rows))
            (filter-map (has_epochs c) completed_row (λ j. refl) (partial_rows keys c prompt t))
        ∙ last (filter (has_epochs c) (partial_rows keys c prompt t))
      where
        last :
            (rows : List Joined)
            → as_partial (first (map completed_row rows))
              ≡ Option.map completed_choice (as_partial (first rows))
        last [] = refl
        last (j ∷ rows) = refl

    choose-completed :
        (o : Option Joined)
        → choose keys c prompt (with_banter t) (Option.map completed_row o)
          ≡ Option.map completed_choice (choose keys c prompt t o)
    choose-completed none = choose_partial-completed
    choose-completed (some j) = elim (Bool-cases (has_epochs c j)) [
      | inl e ↦ rw e refl
      | inr e ↦ rw e choose_partial-completed
    ]

    -- After the update a load chooses the same row, in its completed form.
    pub chosen-completed :
        choose keys c prompt (with_banter t) (first (exact_rows keys c prompt (with_banter t)))
        ≡ Option.map completed_choice (choose keys c prompt t (first (exact_rows keys c prompt t)))
    chosen-completed =
        ap (λ rows. choose keys c prompt (with_banter t) (first rows)) exact_rows-completed
        ∙ ap (choose keys c prompt (with_banter t))
            (first-map completed_row (exact_rows keys c prompt t))
        ∙ choose-completed (first (exact_rows keys c prompt t))
