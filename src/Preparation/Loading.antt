-- ===== src/Preparation/Loading.antt =====
-- src/geoji_ai/adapters/postgres_preparation.py, what is read: a valid preparation and its evidence.
use geoji_agent.Base.{
  ℕ, Bool, true, false, ◌&&◌, ◌||◌, Option, none, some, List, [], ◌∷◌, ◌++◌, ltb, leb, ◌==◌,
  if◌then◌else◌, any, filter, is_null, eq_col,
}
use geoji_agent.Evidence.{Fact, SourceType}
use geoji_agent.Texts.{Intensity, all}
use geoji_agent.Preparation.{Banter, Case}
use geoji_agent.Preparation.Graph.{Status, dossier_ready, complete_prep, ValidPrep}
use geoji_agent.Preparation.Store.{
  Entry, keyed, bare, Prep, DossierRow, EvidenceRow, SourceRow, Tables, Keys,
}

abbrev pub same_pair : ℕ × ℕ → ℕ × ℕ → Bool
same_pair (k, m) (l, n) = k == l && m == n

abbrev pub covers : List (ℕ × ℕ) → List (ℕ × ℕ) → Bool
covers xs ys = all (λ y. any (same_pair y) xs) ys

-- Equality of the two sets of pairs.
unfoldable pub same_epochs : List (ℕ × ℕ) → List (ℕ × ℕ) → Bool
same_epochs xs ys = covers xs ys && covers ys xs

abbrev pub is_usable : Status → Bool
is_usable dossier_ready = true
is_usable complete_prep = true
is_usable _ = false

-- The JOIN with the conditions that both statements share.
pub record Joined : Type 0 where
  pub prep : Prep
  pub dossier : DossierRow

abbrev pub is_valid : ℕ → ℕ → Prep → DossierRow → Bool
is_valid post prompt r d =
    eq_col r.dossier_id d.id
    && r.post_id == post
    && r.prompt_version == prompt
    && is_usable r.status
    && is_null r.invalidated_at
    && is_null d.invalidated_at

abbrev pub joined_with : ℕ → ℕ → Prep → List DossierRow → List Joined
joined_with post prompt r [] = []
joined_with post prompt r (d ∷ ds) =
    let rest = joined_with post prompt r ds in
    if is_valid post prompt r d then record { prep = r; dossier = d } ∷ rest else rest

abbrev pub joined : ℕ → ℕ → List DossierRow → List Prep → List Joined
joined post prompt ds [] = []
joined post prompt ds (r ∷ rs) = joined_with post prompt r ds ++ joined post prompt ds rs

abbrev pub first {ℓ} : {A : Type ℓ} → List A → Option A
first [] = none
first (x ∷ xs) = some x

-- SELECT_VALID_PREP_SQL
abbrev pub exact_rows : Keys → Case → ℕ → Tables → List Joined
exact_rows keys c prompt t =
    filter (λ (j : Joined). j.prep.input_hash == keys.input_hash c)
      (joined c.snapshot.post_id prompt t.dossiers t.preps)

-- SELECT_PARTIAL_PREP_SQL: the latest first, then by id.
abbrev pub is_newer : Joined → Joined → Bool
is_newer a b =
    ltb b.prep.created_at a.prep.created_at
    || (a.prep.created_at == b.prep.created_at && leb a.prep.id b.prep.id)

unfoldable pub insert_newest : Joined → List Joined → List Joined
insert_newest j [] = j ∷ []
insert_newest j (k ∷ ks) =
    let rest = insert_newest j ks in if is_newer j k then j ∷ k ∷ ks else k ∷ rest

unfoldable pub sort_newest : List Joined → List Joined
unfolding insert_newest
sort_newest [] = []
sort_newest (j ∷ js) = insert_newest j (sort_newest js)

abbrev pub partial_rows : Keys → Case → ℕ → Tables → List Joined
partial_rows keys c prompt t = sort_newest (
    filter (λ (j : Joined). j.dossier.snapshot_hash == keys.dossier_key c)
      (joined c.snapshot.post_id prompt t.dossiers t.preps))

abbrev pub has_epochs : Case → Joined → Bool
has_epochs c j = same_epochs j.dossier.privacy_versions c.privacy_versions

-- The row, and whether all of its banter serves or only that with the right keys.
pub record Chosen : Type 0 where
  pub row : Joined
  pub is_exact : Bool

abbrev pub as_partial : Option Joined → Option Chosen
as_partial none = none
as_partial (some j) = some (record { row = j; is_exact = false })

abbrev pub choose_partial : Keys → Case → ℕ → Tables → Option Chosen
choose_partial keys c prompt t =
    as_partial (first (filter (has_epochs c) (partial_rows keys c prompt t)))

abbrev pub choose : Keys → Case → ℕ → Tables → Option Joined → Option Chosen
choose keys c prompt t none = choose_partial keys c prompt t
choose keys c prompt t (some j) =
    if has_epochs c j
    then some (record { row = j; is_exact = true })
    else choose_partial keys c prompt t

-- `_parse_banter`; with keys, an entry without the key of its intensity is left out.
abbrev pub parse_banter : Bool → (Intensity → ℕ) → List (Intensity × Entry) → Banter
parse_banter is_exact key_of [] = []
parse_banter is_exact key_of ((i, bare cs) ∷ es) =
    let rest = parse_banter is_exact key_of es in if is_exact then (i, cs) ∷ rest else rest
parse_banter is_exact key_of ((i, keyed k cs) ∷ es) =
    let rest = parse_banter is_exact key_of es in
    if is_exact || k == key_of i then (i, cs) ∷ rest else rest

abbrev pub stored_banter : Keys → ℕ → Chosen → Option (List (Intensity × Entry)) → Banter
stored_banter keys prompt c none = []
stored_banter keys prompt c (some json) =
    parse_banter c.is_exact (λ i. keys.banter_key c.row.dossier.id i prompt) json

-- SELECT_SOURCES_SQL for one row of evidence, in its order.
unfoldable pub insert_source :
    Keys → SourceType × ℕ × ℕ → List (SourceType × ℕ × ℕ) → List (SourceType × ℕ × ℕ)
insert_source keys s [] = s ∷ []
insert_source keys s (r ∷ rs) =
    let rest = insert_source keys s rs in if keys.source_before s r then s ∷ r ∷ rs else r ∷ rest

unfoldable pub sources_of : Keys → ℕ → List SourceRow → List (SourceType × ℕ × ℕ)
unfolding insert_source
sources_of keys id [] = []
sources_of keys id (r ∷ rs) =
    let rest = sources_of keys id rs in
    if r.evidence_id == id then insert_source keys r.source rest else rest

-- `_fact`
abbrev pub fact_of : Keys → Tables → EvidenceRow → Fact
fact_of keys t r = record {
  label = r.label;
  uuid = r.id;
  draft = record {
    epistemic_type = r.epistemic_type;
    fact_type = r.fact_type;
    text = r.text;
    scope = r.scope;
    aggregation = r.aggregation;
    occurred_at = r.occurred_at;
    sources = sources_of keys r.id t.sources;
  };
}

-- SELECT_EVIDENCE_SQL: in the order of the labels.
unfoldable pub insert_label : Fact → List Fact → List Fact
insert_label f [] = f ∷ []
insert_label f (g ∷ gs) =
    let rest = insert_label f gs in if leb f.label g.label then f ∷ g ∷ gs else g ∷ rest

abbrev pub is_evidence_of : ℕ → EvidenceRow → Bool
is_evidence_of id r = r.dossier_id == id && is_null r.invalidated_at

unfoldable pub facts_of : Keys → Tables → ℕ → List EvidenceRow → List Fact
unfolding insert_label sources_of
facts_of keys t id [] = []
facts_of keys t id (r ∷ rs) =
    let rest = facts_of keys t id rs in
    if is_evidence_of id r then insert_label (fact_of keys t r) rest else rest

abbrev pub valid_of : Keys → Case → ℕ → Tables → Chosen → ValidPrep
valid_of keys c prompt t chosen = record {
  dossier = record {
    dossier_id = chosen.row.dossier.id;
    post_id = chosen.row.dossier.post_id;
    snapshot_hash = chosen.row.dossier.snapshot_hash;
    facts = facts_of keys t chosen.row.dossier.id t.evidence;
    privacy_versions = c.privacy_versions;
  };
  banter = stored_banter keys prompt chosen chosen.row.prep.banter_json;
  prep_id = chosen.row.prep.id;
}

abbrev pub load_chosen : Keys → Case → ℕ → Tables → Option Chosen → Option ValidPrep
load_chosen keys c prompt t none = none
load_chosen keys c prompt t (some chosen) = some (valid_of keys c prompt t chosen)

unfoldable pub load_valid_prep : Keys → Case → ℕ → Tables → Option ValidPrep
load_valid_prep keys c prompt t =
    load_chosen keys c prompt t (choose keys c prompt t (first (exact_rows keys c prompt t)))
