-- ===== src/Preparation/Store.antt =====
-- src/geoji_ai/adapters/postgres_preparation.py on the tables of
-- database/migrations/002_preparation_evidence.sql: one function for each method. Uuids, hashes and the
-- database's clock are arguments; the JSON of a column is the value that it encodes. A constraint of
-- the tables that an INSERT can break is written out as the result `violated`.
use geoji_agent.Base.{
  ℕ, Bool, true, false, not, ◌&&◌, ◌||◌, Option, none, some, List, [], ◌∷◌, ◌++◌, map, leb, ◌==◌,
  if◌then◌else◌, any, filter, length, is_null, find, update_where, rowcount,
}
use geoji_agent.Evidence.{
  Fact, EpistemicType, FactType, Scope, SourceType, AggregationMeta, evidence_text_max, member,
  mismatched_scopes,
}
use geoji_agent.Texts.{Text, Intensity}
use geoji_agent.Preparation.{Dossier, fromkeys, same_triple, Candidate, Banter, Case}
use geoji_agent.Preparation.Graph.{Status, dossier_ready, complete_prep, PrepSaved, is_ready}

-- The value of `banter_json` at an intensity: the keyed form, or the old list.
pub data Entry : Type 0 where
  keyed : ℕ → List Candidate → Entry
  bare : List Candidate → Entry

-- A row of ai.trial_prep, of ai.dossiers, ai.evidence and ai.evidence_sources.
pub record Prep : Type 0 where
  pub id : ℕ
  pub post_id : ℕ
  pub post_version : ℕ
  pub audience_version : ℕ
  pub privacy_versions : List (ℕ × ℕ)
  pub prompt_version : ℕ
  pub input_hash : ℕ
  pub status : Status
  pub dossier_id : Option ℕ
  pub banter_json : Option (List (Intensity × Entry))
  pub created_at : ℕ
  pub invalidated_at : Option ℕ

pub record DossierRow : Type 0 where
  pub id : ℕ
  pub post_id : ℕ
  pub snapshot_hash : ℕ
  pub privacy_versions : List (ℕ × ℕ)
  pub invalidated_at : Option ℕ

pub record EvidenceRow : Type 0 where
  pub id : ℕ
  pub dossier_id : ℕ
  pub label : ℕ
  pub epistemic_type : EpistemicType
  pub fact_type : FactType
  pub text : Text
  pub scope : Scope
  pub aggregation : Option AggregationMeta
  pub occurred_at : Option ℕ
  pub invalidated_at : Option ℕ

pub record SourceRow : Type 0 where
  pub evidence_id : ℕ
  pub source : SourceType × ℕ × ℕ

pub record Tables : Type 0 where
  pub epochs : List (ℕ × ℕ)
  pub preps : List Prep
  pub dossiers : List DossierRow
  pub evidence : List EvidenceRow
  pub sources : List SourceRow

-- The hashes of domain/input_hash.py, and the order of two sources as SQL sorts them.
pub record Keys : Type 0 where
  pub input_hash : Case → ℕ
  pub dossier_key : Case → ℕ
  pub banter_key : ℕ → Intensity → ℕ → ℕ
  pub source_before : SourceType × ℕ × ℕ → SourceType × ℕ × ℕ → Bool

-- A transaction commits, finds stale epochs (EvidenceInvalidated), or breaks a constraint.
pub data Commit (A : Type 0) : Type 0 where
  committed : A → Tables → Commit A
  stale_epochs : List ℕ → Commit A
  violated : Commit A

abbrev pub scope_keys : List (ℕ × ℕ) → List ℕ
scope_keys pairs = map (λ (p : ℕ × ℕ). p.0) pairs

-- EPOCH_SQL
abbrev pub current_epochs : Tables → List (ℕ × ℕ) → List (ℕ × ℕ)
current_epochs t pairs = filter (λ (e : ℕ × ℕ). member e.0 (scope_keys pairs)) t.epochs

unfoldable pub stale_scopes : Tables → List (ℕ × ℕ) → List ℕ
stale_scopes t pairs = mismatched_scopes pairs (current_epochs t pairs)

abbrev pub evidence_row : ℕ → Fact → EvidenceRow
evidence_row dossier_id f = record {
  id = f.uuid;
  dossier_id = dossier_id;
  label = f.label;
  epistemic_type = f.draft.epistemic_type;
  fact_type = f.draft.fact_type;
  text = f.draft.text;
  scope = f.draft.scope;
  aggregation = f.draft.aggregation;
  occurred_at = f.draft.occurred_at;
  invalidated_at = none;
}

abbrev pub source_rows_of : Fact → List SourceRow
source_rows_of f =
    map (λ s. record { evidence_id = f.uuid; source = s }) (fromkeys same_triple f.draft.sources)

abbrev pub source_rows : List Fact → List SourceRow
source_rows [] = []
source_rows (f ∷ fs) = source_rows_of f ++ source_rows fs

-- The keys and checks of ai.evidence, for rows that are inserted together.
abbrev pub evidence_ok : List EvidenceRow → List Fact → Bool
evidence_ok rows [] = true
evidence_ok rows (f ∷ fs) =
    not (any (λ (r : EvidenceRow). r.id == f.uuid) rows)
    && not (any (λ (g : Fact). g.uuid == f.uuid || g.label == f.label) fs)
    && leb (length f.draft.text) evidence_text_max
    && evidence_ok rows fs

abbrev pub dossier_row : Dossier → DossierRow
dossier_row d = record {
  id = d.dossier_id;
  post_id = d.post_id;
  snapshot_hash = d.snapshot_hash;
  privacy_versions = d.privacy_versions;
  invalidated_at = none;
}

abbrev pub with_dossier : Tables → Dossier → Tables
with_dossier t d = record t {
  dossiers = dossier_row d ∷ t.dossiers;
  evidence = map (evidence_row d.dossier_id) d.facts ++ t.evidence;
  sources = source_rows d.facts ++ t.sources;
}

abbrev pub dossier_ok : Tables → Dossier → Bool
dossier_ok t d =
    not (any (λ (r : DossierRow). r.id == d.dossier_id) t.dossiers)
    && evidence_ok t.evidence d.facts

-- `_insert_dossier`, and the result of the transaction around it.
abbrev pub insert_dossier : {A : Type 0} → A → Tables → Dossier → Commit A
insert_dossier a t d = if dossier_ok t d then committed a (with_dossier t d) else violated

abbrev pub check_epochs : {A : Type 0} → List ℕ → Commit A → Commit A
check_epochs [] c = c
check_epochs (k ∷ ks) c = stale_epochs (k ∷ ks)

unfoldable pub save_dossier : Tables → Dossier → Commit ℕ
unfolding stale_scopes
save_dossier t d =
    check_epochs (stale_scopes t d.privacy_versions) (insert_dossier d.dossier_id t d)

-- UNIQUE (post_id, input_hash, prompt_version)
abbrev pub same_key : ℕ → ℕ → ℕ → Prep → Bool
same_key post hash prompt r =
    r.post_id == post && r.input_hash == hash && r.prompt_version == prompt

-- SELECT_PREP_KEY_SQL
abbrev pub prep_at : ℕ → ℕ → ℕ → List Prep → Option Prep
prep_at post hash prompt [] = none
prep_at post hash prompt (r ∷ rs) =
    if same_key post hash prompt r then some r else prep_at post hash prompt rs

-- INSERT_PREP_SQL
abbrev pub new_prep : ℕ → ℕ → ℕ → ℕ → Dossier → Case → Prep
new_prep hash prompt id now d c = record {
  id = id;
  post_id = c.snapshot.post_id;
  post_version = c.snapshot.post_version;
  audience_version = c.audience_version;
  privacy_versions = d.privacy_versions;
  prompt_version = prompt;
  input_hash = hash;
  status = dossier_ready;
  dossier_id = some d.dossier_id;
  banter_json = none;
  created_at = now;
  invalidated_at = none;
}

abbrev pub saved_new : ℕ → PrepSaved
saved_new id = record { prep_id = id; status = dossier_ready; reused = false }

abbrev pub with_prep : Tables → Prep → Tables
with_prep t r = record t { preps = r ∷ t.preps }

abbrev pub insert_prep : Bool → Tables → Dossier → Prep → Commit PrepSaved
insert_prep reuse t d r =
    if any (λ (s : Prep). s.id == r.id) t.preps
    then violated
    else if reuse
    then committed (saved_new r.id) (with_prep t r)
    else insert_dossier (saved_new r.id) (with_prep t r) d

abbrev pub or_existing : Tables → Option Prep → Commit PrepSaved → Commit PrepSaved
or_existing t none c = c
or_existing t (some r) c = committed (record { prep_id = r.id; status = r.status; reused = true }) t

unfoldable pub save_prep :
    Keys → (prompt id now : ℕ) → Bool → Dossier → Case → Tables → Commit PrepSaved
unfolding stale_scopes
save_prep keys prompt id now reuse d c t = check_epochs (stale_scopes t d.privacy_versions) (
    or_existing t (prep_at c.snapshot.post_id (keys.input_hash c) prompt t.preps)
      (insert_prep reuse t d (new_prep (keys.input_hash c) prompt id now d c)))

abbrev pub key : Prep → ℕ
key r = r.id

-- `_banter_json`
abbrev pub banter_json : Keys → ℕ → ℕ → Banter → List (Intensity × Entry)
banter_json keys dossier_id prompt [] = []
banter_json keys dossier_id prompt ((i, cs) ∷ b) =
    (i, keyed (keys.banter_key dossier_id i prompt) cs) ∷ banter_json keys dossier_id prompt b

-- UPDATE_BANTER_SQL
abbrev pub open_for : ℕ → Prep → Bool
open_for id r = r.id == id && is_null r.banter_json && is_ready r.status

abbrev pub complete_row : List (Intensity × Entry) → Prep → Prep
complete_row json r = record r { banter_json = some json; status = complete_prep }

abbrev pub update_banter : ℕ → List (Intensity × Entry) → Tables → Bool × Tables
update_banter id json t = (
  rowcount (open_for id) t.preps == 1,
  record t { preps = update_where (open_for id) (complete_row json) t.preps },
)

abbrev pub save_under : Keys → ℕ → Banter → Tables → Prep → Option ℕ → Bool × Tables
save_under keys id b t r none = (false, t)
save_under keys id b t r (some dossier_id) =
    update_banter id (banter_json keys dossier_id r.prompt_version b) t

abbrev pub save_at : Keys → ℕ → Banter → Tables → Option Prep → Bool × Tables
save_at keys id b t none = (false, t)
save_at keys id b t (some r) = save_under keys id b t r r.dossier_id

unfoldable pub save_banter : Keys → ℕ → Banter → Tables → Bool × Tables
save_banter keys id b t = save_at keys id b t (find key id t.preps)
