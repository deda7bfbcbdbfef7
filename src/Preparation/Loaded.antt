-- ===== src/Preparation/Loaded.antt =====
-- What `load_valid_prep` of postgres_preparation.py may hand out, and the banter that it reads back.
use geoji_agent.Base.{
  ℕ, ◌≡◌, refl, ◌⊎◌, inl, inr, Bool, true, false, Option, none, some, List, [], ◌∷◌, arith, All,
  Among, All-append, All-kept, All-map, if◌then◌else◌, ◌==◌, leb, subst,
}
use geoji_agent.Evidence.{Fact}
use geoji_agent.Texts.{Intensity}
use geoji_agent.Preparation.{Candidate, Case}
use geoji_agent.Preparation.Graph.{ValidPrep}
use geoji_agent.Preparation.Store.{Entry, keyed, bare, Prep, DossierRow, EvidenceRow, Tables, Keys}
use geoji_agent.Preparation.Loading.{
  Joined, is_valid, joined_with, joined, first, exact_rows, is_newer, insert_newest, sort_newest,
  partial_rows, has_epochs, Chosen, as_partial, choose_partial, choose, parse_banter, stored_banter,
  fact_of, insert_label, is_evidence_of, facts_of, valid_of, load_chosen, load_valid_prep,
}

abbrev Given : {A : Type 0} → (A → Type 0) → Option A → Type 0
Given P none = Unit
Given P (some a) = P a

first-Given : {A : Type 0} (P : A → Type 0) (xs : List A) → All P xs → Given P (first xs)
first-Given P [] h = tt
first-Given P (x ∷ xs) h = h.0

All-Among : {A : Type 0} (xs : List A) → All (λ x. Among x xs) xs
All-Among [] = tt
All-Among (x ∷ xs) =
    (inl refl, All-map (λ y. Among y xs) (λ y. Among y (x ∷ xs)) (λ y m. inr m) xs (All-Among xs))

module _ (keys : Keys) (c : Case) (prompt : ℕ) (t : Tables) where
  -- A row of the join.
  pub record IsJoined (j : Joined) : Type 0 where
    pub in_preps : Among j.prep t.preps
    pub in_dossiers : Among j.dossier t.dossiers
    pub valid : is_valid c.snapshot.post_id prompt j.prep j.dossier ≡ true

  joined_with-All :
      (r : Prep) (ds : List DossierRow)
      → Among r t.preps
      → All (λ d. Among d t.dossiers) ds
      → All IsJoined (joined_with c.snapshot.post_id prompt r ds)
  joined_with-All r [] m h = tt
  joined_with-All r (d ∷ ds) m h =
      split (is_valid c.snapshot.post_id prompt r d) refl (joined_with-All r ds m h.1)
    where
      split :
          (b : Bool)
          → is_valid c.snapshot.post_id prompt r d ≡ b
          → All IsJoined (joined_with c.snapshot.post_id prompt r ds)
          → All IsJoined (
              if b
              then record { prep = r; dossier = d } ∷ joined_with c.snapshot.post_id prompt r ds
              else joined_with c.snapshot.post_id prompt r ds)
      split true e rest = (record { in_preps = m; in_dossiers = h.0; valid = e }, rest)
      split false e rest = rest

  joined-All :
      (rs : List Prep)
      → All (λ r. Among r t.preps) rs
      → All IsJoined (joined c.snapshot.post_id prompt t.dossiers rs)
  joined-All [] h = tt
  joined-All (r ∷ rs) h =
      All-append IsJoined (joined_with c.snapshot.post_id prompt r t.dossiers) _
        (joined_with-All r t.dossiers h.0 (All-Among t.dossiers)) (joined-All rs h.1)

  insert-All :
      (P : Joined → Type 0) (j : Joined) (js : List Joined)
      → P j
      → All P js
      → All P (insert_newest j js)
  unfolding insert_newest
  insert-All P j [] p h = (p, tt)
  insert-All P j (k ∷ ks) p h = split (is_newer j k) (insert-All P j ks p h.1)
    where
      split :
          (b : Bool)
          → All P (insert_newest j ks)
          → All P (if b then j ∷ k ∷ ks else k ∷ insert_newest j ks)
      split true rest = (p, h)
      split false rest = (h.0, rest)

  sort-All : (P : Joined → Type 0) (js : List Joined) → All P js → All P (sort_newest js)
  unfolding sort_newest
  sort-All P [] h = tt
  sort-All P (j ∷ js) h = insert-All P j (sort_newest js) h.0 (sort-All P js h.1)

  -- The row that is chosen: it has the epochs of the case, and all of its banter is used only if it
  -- was made for the very same input.
  pub record IsChosen (k : Chosen) : Type 0 where
    pub row : IsJoined k.row
    pub epochs : has_epochs c k.row ≡ true
    pub input :
        ((k.is_exact ≡ true) × (k.row.prep.input_hash ≡ keys.input_hash c))
        ⊎ ((k.is_exact ≡ false) × (k.row.dossier.snapshot_hash ≡ keys.dossier_key c))

  abbrev HasHash : Joined → Type 0
  HasHash j = IsJoined j × (j.prep.input_hash ≡ keys.input_hash c)

  abbrev HasDossierKey : Joined → Type 0
  HasDossierKey j = IsJoined j × (j.dossier.snapshot_hash ≡ keys.dossier_key c)

  exact_rows-Given : Given HasHash (first (exact_rows keys c prompt t))
  exact_rows-Given = first-Given HasHash _ (
      All-kept IsJoined HasHash (λ j. j.prep.input_hash == keys.input_hash c)
        (λ j h e. (h, ground (arith, e))) _ (joined-All t.preps (All-Among t.preps)))

  partial_rows-All : All HasDossierKey (partial_rows keys c prompt t)
  partial_rows-All = sort-All HasDossierKey _ (
      All-kept IsJoined HasDossierKey (λ j. j.dossier.snapshot_hash == keys.dossier_key c)
        (λ j h e. (h, ground (arith, e))) _ (joined-All t.preps (All-Among t.preps)))

  partial-Given : Given IsChosen (choose_partial keys c prompt t)
  partial-Given = go _ (
      first-Given (λ j. HasDossierKey j × (has_epochs c j ≡ true)) _
        (All-kept HasDossierKey (λ j. HasDossierKey j × (has_epochs c j ≡ true)) (has_epochs c)
          (λ j h e. (h, e)) _ partial_rows-All))
    where
      go :
          (o : Option Joined)
          → Given (λ j. HasDossierKey j × (has_epochs c j ≡ true)) o
          → Given IsChosen (as_partial o)
      go none h = tt
      go (some j) h = record { row = h.0.0; epochs = h.1; input = inr (refl, h.0.1) }

  choose-Given : (o : Option Joined) → Given HasHash o → Given IsChosen (choose keys c prompt t o)
  choose-Given none h = partial-Given
  choose-Given (some j) h = split (has_epochs c j) refl
    where
      split :
          (b : Bool)
          → has_epochs c j ≡ b
          → Given IsChosen (
              if b
              then some (record { row = j; is_exact = true })
              else choose_partial keys c prompt t)
      split true e = record { row = h.0; epochs = e; input = inl (refl, h.1) }
      split false e = partial-Given

  pub choose-IsChosen :
      (k : Chosen)
      → choose keys c prompt t (first (exact_rows keys c prompt t)) ≡ some k
      → IsChosen k
  choose-IsChosen k e = subst (Given IsChosen) e (choose-Given _ exact_rows-Given)

  -- A fact stands in a row of evidence of the dossier that is not invalidated.
  abbrev pub StandsIn : ℕ → Fact → Type 0
  StandsIn id f =
      (r : EvidenceRow) × Among r t.evidence × (is_evidence_of id r ≡ true) × (f ≡ fact_of keys t r)

  label-All :
      (P : Fact → Type 0) (f : Fact) (fs : List Fact) → P f → All P fs → All P (insert_label f fs)
  unfolding insert_label
  label-All P f [] p h = (p, tt)
  label-All P f (g ∷ gs) p h = split (leb f.label g.label) (label-All P f gs p h.1)
    where
      split :
          (b : Bool)
          → All P (insert_label f gs)
          → All P (if b then f ∷ g ∷ gs else g ∷ insert_label f gs)
      split true rest = (p, h)
      split false rest = (h.0, rest)

  facts-All :
      (id : ℕ) (rs : List EvidenceRow)
      → All (λ r. Among r t.evidence) rs
      → All (StandsIn id) (facts_of keys t id rs)
  unfolding facts_of
  facts-All id [] h = tt
  facts-All id (r ∷ rs) h = split (is_evidence_of id r) refl (facts-All id rs h.1)
    where
      split :
          (b : Bool)
          → is_evidence_of id r ≡ b
          → All (StandsIn id) (facts_of keys t id rs)
          → All (StandsIn id) (
              if b
              then insert_label (fact_of keys t r) (facts_of keys t id rs)
              else facts_of keys t id rs)
      split true e rest = label-All (StandsIn id) (fact_of keys t r) _ (r, h.0, e, refl) rest
      split false e rest = rest

  abbrev pub entries : Option (List (Intensity × Entry)) → List (Intensity × Entry)
  entries none = []
  entries (some json) = json

  abbrev pub HasKey : ℕ → List (Intensity × Entry) → Intensity × List Candidate → Type 0
  HasKey id json e = Among (e.0, keyed (keys.banter_key id e.0 prompt) e.1) json

  parsed-All :
      (id : ℕ) (json js : List (Intensity × Entry))
      → All (λ e. Among e json) js
      → All (HasKey id json) (parse_banter false (λ i. keys.banter_key id i prompt) js)
  parsed-All id json [] h = tt
  parsed-All id json ((i, bare cs) ∷ js) h = parsed-All id json js h.1
  parsed-All id json ((i, keyed k cs) ∷ js) h =
      split (k == keys.banter_key id i prompt) refl (parsed-All id json js h.1)
    where
      split :
          (b : Bool)
          → (k == keys.banter_key id i prompt) ≡ b
          → All (HasKey id json) (parse_banter false (λ i. keys.banter_key id i prompt) js)
          → All (HasKey id json) (
              if b
              then (i, cs) ∷ parse_banter false (λ i. keys.banter_key id i prompt) js
              else parse_banter false (λ i. keys.banter_key id i prompt) js)
      split true e rest =
          let same : k ≡ keys.banter_key id i prompt = ground arith in
          (subst (λ n. Among (i, keyed n cs) json) same h.0, rest)
      split false e rest = rest

  stored-All :
      (k : Chosen)
      → k.is_exact ≡ false
      → (o : Option (List (Intensity × Entry)))
      → All (HasKey k.row.dossier.id (entries o)) (stored_banter keys prompt k o)
  stored-All k e none = tt
  stored-All k e (some json) = rw e (parsed-All k.row.dossier.id json json (All-Among json))

  -- What a valid preparation is read from.
  pub record IsLoaded (v : ValidPrep) : Type 0 where
    pub chosen : Chosen
    pub source : IsChosen chosen
    pub read : v ≡ valid_of keys c prompt t chosen
    pub stands : All (StandsIn chosen.row.dossier.id) v.dossier.facts
    pub keyed_banter :
        chosen.is_exact ≡ false
        → All (HasKey chosen.row.dossier.id (entries chosen.row.prep.banter_json)) v.banter

  chosen-Given :
      (o : Option Chosen) → Given IsChosen o → Given IsLoaded (load_chosen keys c prompt t o)
  chosen-Given none h = tt
  chosen-Given (some k) h = record {
    chosen = k;
    source = h;
    read = refl;
    stands = facts-All k.row.dossier.id t.evidence (All-Among t.evidence);
    keyed_banter = λ e. stored-All k e k.row.prep.banter_json;
  }

  -- A preparation that is handed out is a row of the table, with its dossier, for this post and this
  -- prompt version, ready or complete, and neither is invalidated. The dossier has exactly the epochs
  -- of the case, each of its facts is a row of its evidence that is not invalidated, and a row that was
  -- made for another input has at least the dossier's key of this case, and gives only such banter as
  -- has the key of this dossier, this intensity and this prompt version.
  pub load_valid_prep-IsLoaded :
      (v : ValidPrep) → load_valid_prep keys c prompt t ≡ some v → IsLoaded v
  unfolding load_valid_prep
  load_valid_prep-IsLoaded v e =
      subst (Given IsLoaded) e (chosen-Given _ (choose-Given _ exact_rows-Given))
