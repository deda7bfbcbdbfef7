-- ===== src/Preparation/Stored.antt =====
-- The banter of a preparation through `save_banter` and back by `load_valid_prep`, in
-- postgres_preparation.py.
use mathlib.Core.Option
use geoji_agent.Base.{
  ℕ, ◌≡◌, refl, ap, ◌∙◌, Bool, true, Option, none, some, List, [], ◌∷◌, arith, find, IsKeyed,
  rowcount_at_key, find-update_where, find-Among, ◌==◌, rowcount, sym, some_eq,
}
use geoji_agent.Texts.{Intensity}
use geoji_agent.Preparation.{Banter, Case}
use geoji_agent.Preparation.Graph.{complete_prep, ValidPrep}
use geoji_agent.Preparation.Store.{
  Entry, Prep, EvidenceRow, Tables, Keys, key, banter_json, open_for, complete_row, save_at,
  save_under, save_banter, update_banter,
}
use geoji_agent.Preparation.Loading.{
  Chosen, exact_rows, first, choose, parse_banter, stored_banter, facts_of, valid_of, load_chosen,
  load_valid_prep,
}
use geoji_agent.Preparation.Completed.{
  completed, completed_choice, with_banter, chosen-completed, kept_id,
}
use geoji_agent.Preparation.Loaded.{IsChosen, choose-IsChosen}

parse_banter-banter_json :
    (keys : Keys) (is_exact : Bool) (dossier_id prompt : ℕ) (b : Banter)
    → parse_banter is_exact
        (λ i. keys.banter_key dossier_id i prompt)
        (banter_json keys dossier_id prompt b)
      ≡ b
parse_banter-banter_json keys is_exact dossier_id prompt [] = refl
parse_banter-banter_json keys is_exact dossier_id prompt ((i, cs) ∷ b) =
    ground (arith, parse_banter-banter_json keys is_exact dossier_id prompt b)

-- The evidence does not change with the banter.
facts_of-with_banter :
    (keys : Keys) (t : Tables) (id : ℕ) (json : List (Intensity × Entry)) (d : ℕ)
    (rs : List EvidenceRow)
    → facts_of keys (with_banter id json t) d rs ≡ facts_of keys t d rs
unfolding facts_of
facts_of-with_banter keys t id json d [] = refl
facts_of-with_banter keys t id json d (r ∷ rs) = rw (facts_of-with_banter keys t id json d rs) refl

module _ (keys : Keys) (id : ℕ) (b : Banter) (t u : Tables) where
  -- A save that is accepted has found a row that was open, with a dossier, and has completed it.
  record IsAccepted : Type 0 where
    row : Prep
    dossier_id : ℕ
    found : find key id t.preps ≡ some row
    has_dossier : row.dossier_id ≡ some dossier_id
    opened : open_for id row ≡ true
    after : u ≡ with_banter id (banter_json keys dossier_id row.prompt_version b) t

  accepted : IsKeyed key t.preps → save_banter keys id b t ≡ (true, u) → IsAccepted
  unfolding save_banter
  accepted k done = at (find key id t.preps) refl done
    where
      updated :
          (r : Prep) (dossier_id : ℕ)
          → find key id t.preps ≡ some r
          → r.dossier_id ≡ some dossier_id
          → update_banter id (banter_json keys dossier_id r.prompt_version b) t ≡ (true, u)
          → IsAccepted
      updated r dossier_id e has hit =
          let counted : (rowcount (open_for id) t.preps == 1) ≡ true =
            ap (λ (x : Bool × Tables). x.0) hit in
          record {
            row = r;
            dossier_id = dossier_id;
            found = e;
            has_dossier = has;
            opened =
                ground
                  (arith, e, rowcount_at_key key (open_for id) id (λ x h. ground arith) t.preps k);
            after = ap (λ (x : Bool × Tables). x.1) (sym hit);
          }

      under :
          (r : Prep) (o : Option ℕ)
          → find key id t.preps ≡ some r
          → r.dossier_id ≡ o
          → save_under keys id b t r o ≡ (true, u)
          → IsAccepted
      under r none e has hit = cc
      under r (some dossier_id) e has hit = updated r dossier_id e has hit

      at :
          (o : Option Prep)
          → find key id t.preps ≡ o
          → save_at keys id b t o ≡ (true, u)
          → IsAccepted
      at none e hit = cc
      at (some r) e hit = under r r.dossier_id e refl hit

  module _ (c : Case) (prompt : ℕ) (k : IsKeyed key t.preps) (a : IsAccepted) where
    -- The row that a load chooses is the one that the save has completed.
    loaded-after :
        (o : Option Chosen) (v : ValidPrep)
        → choose keys c prompt t (first (exact_rows keys c prompt t)) ≡ o
        → load_chosen keys c prompt t o ≡ some v
        → v.prep_id ≡ id
        → load_chosen keys c prompt u (
            Option.map
              (completed_choice id (banter_json keys a.dossier_id a.row.prompt_version b))
              o)
          ≡ some (record v { banter = b })
    loaded-after none v e l p = cc
    loaded-after (some ch) v e l p = ap some (
        rw
          (
            a.after,
            sym read,
            facts_of-with_banter keys t id json ch.row.dossier.id t.evidence,
            kept_id id json ch.row.prep,
          )
          (ap (λ x. record (valid_of keys c prompt t ch) { banter = x }) banter_back))
      where
        json : List (Intensity × Entry)
        json = banter_json keys a.dossier_id a.row.prompt_version b

        read : valid_of keys c prompt t ch ≡ v
        read = some_eq l

        source : IsChosen keys c prompt t ch
        source = choose-IsChosen keys c prompt t ch e

        same_id : ch.row.prep.id ≡ id
        same_id = ap (λ (x : ValidPrep). x.prep_id) read ∙ p

        same_row : ch.row.prep ≡ a.row
        same_row = some_eq (
            sym (find-Among key t.preps ch.row.prep k source.row.in_preps)
            ∙ ap (λ n. find key n t.preps) same_id
            ∙ a.found)

        open_row : open_for id ch.row.prep ≡ true
        open_row = ap (open_for id) same_row ∙ a.opened

        same_prompt : a.row.prompt_version ≡ prompt
        same_prompt = let valid = source.row.valid in ground (arith, valid, same_row)

        same_dossier : a.dossier_id ≡ ch.row.dossier.id
        same_dossier =
            let valid = source.row.valid in
            let has : ch.row.prep.dossier_id ≡ some a.dossier_id =
              ap (λ (x : Prep). x.dossier_id) same_row ∙ a.has_dossier in
            ground (arith, valid, has)

        banter_back :
            stored_banter keys prompt
              (completed_choice id json ch)
              (completed id json ch.row.prep).banter_json
            ≡ b
        banter_back =
            rw (open_row, same_prompt, same_dossier)
              (parse_banter-banter_json keys ch.is_exact ch.row.dossier.id prompt b)

-- A preparation that a load hands out, and whose banter `save_banter` then accepts, is handed out again
-- by the next load for the same case and prompt version, with this banter as it was given and all else
-- as it was, whether its row was made for the same input or only its dossier serves; and its row is
-- complete.
pub save_banter-loaded :
    (keys : Keys) (c : Case) (prompt id : ℕ) (b : Banter) (t u : Tables) (v : ValidPrep)
    → IsKeyed key t.preps
    → load_valid_prep keys c prompt t ≡ some v
    → v.prep_id ≡ id
    → save_banter keys id b t ≡ (true, u)
    → (load_valid_prep keys c prompt u ≡ some (record v { banter = b }))
      × (s : Prep) × (find key id u.preps ≡ some s)
      × (s.status ≡ complete_prep)
unfolding load_valid_prep
save_banter-loaded keys c prompt id b t u v k l p done =
    let a = accepted keys id b t u k done in
    let json = banter_json keys a.dossier_id a.row.prompt_version b in
    (
      ap
            (λ (x : Tables).
              load_chosen keys c prompt u
                (choose keys c prompt x (first (exact_rows keys c prompt x))))
            a.after
          ∙ ap (load_chosen keys c prompt u) (chosen-completed id json keys c prompt t)
          ∙ loaded-after keys id b t u c prompt k a _ v refl l p,
      complete_row json a.row,
      ap (λ (x : Tables). find key id x.preps) a.after
          ∙ find-update_where key (open_for id) (complete_row json) (λ x. refl) id t.preps
          ∙ ap (Option.map _) a.found
          ∙ rw a.opened refl,
      refl,
    )
