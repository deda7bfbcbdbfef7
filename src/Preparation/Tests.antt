-- ===== src/Preparation/Tests.antt =====
-- A small PREPARE job of graphs/preparation.py on small tables of postgres_preparation.py, and the
-- theorems at them.
use geoji_agent.Base.{
  Among, ◌+◌, ◌≡◌, refl, true, false, none, some, [], ◌∷◌, find, IsKeyed, length, map,
}
use geoji_agent.Evidence.{
  Fact, rooms, private, build_evidence, usable, target_pack, mismatched_scopes, mismatched_from,
}
use geoji_agent.Evidence.Tests.{snapshot, resolved, phrases, every, pack}
use geoji_agent.Texts.{mild, spicy}
use geoji_agent.Sentencing.Tests.{lexicon}
use geoji_agent.Rules.{guilty}
use geoji_agent.Preparation.{
  Dossier, Item, Output, rule_hit, reason_analysis, merge_inferred_facts, repeat_offense,
  cheaper_alternative, Banter, Case, Raw, filter_banter, parse_candidates, narrowest_scope, strip,
  strip_left, strip_right, target_intensities, copied_banter, merge_candidates, best_of, improve,
  sort_score, insert_score,
}
use geoji_agent.Preparation.Inferred.{Qualifies}
use geoji_agent.Preparation.Merged.{IsMerged, StandsFor, merge_inferred_facts-IsMerged}
use geoji_agent.Preparation.Graph.{
  Env, World, State, Payload, Turn, went, threw, PrepSaved, dossier_ready, complete_prep, recalled,
  context_answer, banter_answer, ValidPrep, Status, unset, load_case, load_reusable_prep,
  recall_candidates, resolve_sources, build_db_evidence, analyze_reason, persist_dossier,
  recall_failed, context_error,
}
use geoji_agent.Preparation.Run.{
  run_preparation, generate_banter, validate_banter, persist_banter, gather, keep_results,
}
use geoji_agent.Preparation.Shown.{Ensures}
use geoji_agent.Preparation.Ends.{IsPrepared, run_preparation-IsPrepared}
use geoji_agent.Preparation.Reuse.{asks_anew, run_preparation-reuse}
use geoji_agent.Preparation.Store.{
  Prep, Tables, Keys, committed, save_prep, save_banter, stale_scopes, key,
}
use geoji_agent.Preparation.Complete.{Call, saves, banters, run, Evolves, run-Evolves}
use geoji_agent.Preparation.Keyed.{save_prep_twice}
use geoji_agent.Preparation.Loading.{
  load_valid_prep, same_epochs, sort_newest, insert_newest, facts_of, insert_label, sources_of,
  insert_source,
}
use geoji_agent.Preparation.Loaded.{IsLoaded, load_valid_prep-IsLoaded}
use geoji_agent.Preparation.Sources.{Triple, has}
use geoji_agent.Preparation.Saved.{read_back, save_prep-loaded}
use geoji_agent.Preparation.Stored.{save_banter-loaded}

abbrev case : Case
case = record {
  snapshot = snapshot;
  post_rest = 0;
  audience_version = 1;
  room_snapshots =
      record { room_id = 10; rule_version = 1; intensity = spicy }
      ∷ record { room_id = 11; rule_version = 1; intensity = mild }
      ∷ [];
  privacy_versions = (1, 0) ∷ [];
  intake_result = none;
  default_intensity = none;
}

abbrev dossier : Dossier
dossier = record {
  dossier_id = 900;
  post_id = 1;
  snapshot_hash = 5;
  facts = pack;
  privacy_versions = (1, 0) ∷ [];
}

abbrev answer : Output
answer = record {
  facts =
      some (record { kind = some rule_hit; source_refs = some (0 ∷ 0 ∷ []); text = some (67 ∷ []) })
      ∷ some (record { kind = some rule_hit; source_refs = some (7 ∷ []); text = some (67 ∷ []) })
      ∷ some (record {
        kind = some reason_analysis;
        source_refs = some (0 ∷ []);
        text = some (68 ∷ []);
      })
      ∷ none
      ∷ [];
  reason_analysis = some 4;
}

-- One fact is inferred, the one on an unknown label is dropped, one text goes to the analysis.
merged_once : length (merge_inferred_facts (λ n. n + 50) dossier (some answer)).0.facts ≡ 2
unfolding merge_inferred_facts
merged_once = refl

merge_inferred_facts-IsMerged_example :
    IsMerged pack answer.facts (merge_inferred_facts (λ n. n + 50) dossier (some answer)).0.facts
    × ((i : Item)
        → Among (some i) answer.facts
        → Qualifies pack i
        → StandsFor pack (merge_inferred_facts (λ n. n + 50) dossier (some answer)).0.facts i)
merge_inferred_facts-IsMerged_example =
    merge_inferred_facts-IsMerged (λ n. n + 50) dossier (some answer)

-- A private fact stays private, whatever it is combined with.
kept_private :
    usable
      (narrowest_scope (
        record { visibility = rooms; room_ids = 10 ∷ 11 ∷ [] }
        ∷ record { visibility = private; room_ids = [] }
        ∷ []))
      (10 ∷ [])
    ≡ false
unfolding narrowest_scope usable
kept_private = refl

common_rooms :
    narrowest_scope (
      record { visibility = rooms; room_ids = 10 ∷ 11 ∷ [] }
      ∷ record { visibility = rooms; room_ids = 11 ∷ 12 ∷ [] }
      ∷ [])
    ≡ record { visibility = rooms; room_ids = 11 ∷ [] }
unfolding narrowest_scope
common_rooms = refl

abbrev raw : Raw
raw = record {
  text = some (32 ∷ 65 ∷ 66 ∷ []);
  strategy = some repeat_offense;
  fits = some guilty ∷ none ∷ [];
  evidence_labels = 0 ∷ 9 ∷ [];
}

abbrev pub env : Env
env = record {
  lexicon = lexicon;
  phrases = phrases;
  rule_matcher = every;
  pack_limit = 12;
  recall_limit = 5;
  comment_style = false;
  dossier_key = λ c. 5;
}

abbrev pub world : World
world = record {
  has_llm = true;
  snapshot = went case;
  valid_prep = some none;
  recall = recalled [];
  resolve = λ request. some resolved;
  context = λ facts. context_answer (some answer);
  save_prep = λ d reuse. went (record { prep_id = 70; status = dossier_ready; reused = false });
  valid_prep_again = went none;
  banter = λ i n facts. banter_answer (some (some raw ∷ none ∷ []));
  save_banter = λ prep b. some true;
  dossier_uuid = 901;
  uuids = λ n. n + 50;
}

abbrev pub current : Payload
current = record { post_version = 1; audience_version = 1 }

run_preparation-IsPrepared_example :
    Ensures (IsPrepared env world) (run_preparation env world (some current))
run_preparation-IsPrepared_example = run_preparation-IsPrepared env world (some current)

abbrev status_of : Turn State → Status
status_of (went st) = st.status
status_of (threw e) = unset

-- The run comes to its end, with banter that the store accepts.
completed : status_of (run_preparation env world (some current)) ≡ complete_prep
unfolding run_preparation load_case load_reusable_prep recall_candidates resolve_sources
    build_db_evidence build_evidence analyze_reason merge_inferred_facts persist_dossier
    generate_banter validate_banter persist_banter target_intensities target_pack usable gather
    parse_candidates keep_results filter_banter narrowest_scope merge_candidates best_of improve
    sort_score insert_score copied_banter strip strip_left strip_right
completed = refl

abbrev stored : ValidPrep
stored = record { dossier = dossier; banter = []; prep_id = 70 }

abbrev again : World
again = record world { valid_prep = some (some stored) }

run_preparation-reuse_example :
    run_preparation env
      (asks_anew again recall_failed (λ r. none) (λ f. context_error))
      (some current)
    ≡ run_preparation env again (some current)
run_preparation-reuse_example =
    run_preparation-reuse env again (some current) stored recall_failed (λ r. none)
      (λ f. context_error) refl

abbrev keys : Keys
keys = record {
  input_hash = λ c. c.audience_version + 30;
  dossier_key = λ c. 5;
  banter_key = λ d i p. d + p;
  source_before = λ a b. true;
}

abbrev empty : Tables
empty = record { epochs = []; preps = []; dossiers = []; evidence = []; sources = [] }

abbrev first_save : Call
first_save = saves 3 70 20 false dossier case

abbrev saved : Tables
saved = run keys empty (first_save ∷ [])

abbrev saved_row : Prep
saved_row = record {
  id = 70;
  post_id = 1;
  post_version = 1;
  audience_version = 1;
  privacy_versions = (1, 0) ∷ [];
  prompt_version = 3;
  input_hash = 31;
  status = dossier_ready;
  dossier_id = some 900;
  banter_json = none;
  created_at = 20;
  invalidated_at = none;
}

abbrev banter : Banter
banter =
    (
      spicy,
      record {
        candidate_id = 1;
        text = 65 ∷ [];
        strategy = cheaper_alternative;
        fits = [];
        evidence_labels = [];
      }
          ∷ [],
    )
    ∷ []

found_row : find key 70 saved.preps ≡ some saved_row
unfolding run save_prep stale_scopes mismatched_scopes mismatched_from
found_row = refl

run-Evolves_example :
    (s : Prep) × (find key 70 (run keys saved (banters 70 banter ∷ banters 70 [] ∷ [])).preps
      ≡ some s)
    × Evolves saved_row s
run-Evolves_example =
    run-Evolves keys 70 (banters 70 banter ∷ banters 70 [] ∷ []) saved saved_row found_row

two_saves : IsKeyed key saved.preps
unfolding run save_prep stale_scopes mismatched_scopes mismatched_from
two_saves = (refl, tt)

abbrev new_saved : PrepSaved
new_saved = record { prep_id = 70; status = dossier_ready; reused = false }

saved_first : save_prep keys 3 70 20 false dossier case empty ≡ committed new_saved saved
unfolding run save_prep stale_scopes mismatched_scopes mismatched_from
saved_first = refl

fresh_epochs : stale_scopes saved ((1, 0) ∷ []) ≡ []
unfolding run save_prep stale_scopes mismatched_scopes mismatched_from
fresh_epochs = refl

save_prep_twice_example :
    save_prep keys 3 71 25 true dossier case saved
    ≡ committed (record { prep_id = 70; status = dossier_ready; reused = true }) saved
save_prep_twice_example =
    save_prep_twice keys 3 70 20 71 25 false true dossier dossier case empty saved new_saved
      saved_first fresh_epochs

epochs_kept : same_epochs dossier.privacy_versions case.privacy_versions ≡ true
unfolding same_epochs
epochs_kept = refl

no_sources : (f : Fact) → Among f dossier.facts → sources_of keys f.uuid empty.sources ≡ []
unfolding sources_of
no_sources f k = refl

save_prep-loaded_example :
    (load_valid_prep keys case 3 saved
      ≡ some (record {
        dossier = record dossier {
          facts = map (read_back keys saved) dossier.facts;
          privacy_versions = case.privacy_versions;
        };
        banter = [];
        prep_id = 70;
      }))
    × ((f : Fact)
        → Among f dossier.facts
        → (x : Triple) → has x (read_back keys saved f).draft.sources ≡ has x f.draft.sources)
save_prep-loaded_example =
    save_prep-loaded keys 3 70 20 dossier case empty saved new_saved epochs_kept (refl, tt) tt
      no_sources saved_first refl

banter_accepted : save_banter keys 70 banter saved ≡ (true, run keys saved (banters 70 banter ∷ []))
unfolding run save_prep save_banter stale_scopes mismatched_scopes mismatched_from
banter_accepted = refl

abbrev loaded : ValidPrep
loaded = record { dossier = dossier; banter = []; prep_id = 70 }

found_valid : load_valid_prep keys case 3 saved ≡ some loaded
unfolding run save_prep stale_scopes mismatched_scopes mismatched_from load_valid_prep same_epochs
    sort_newest insert_newest facts_of insert_label sources_of insert_source
found_valid = refl

load_valid_prep-IsLoaded_example : IsLoaded keys case 3 saved loaded
load_valid_prep-IsLoaded_example = load_valid_prep-IsLoaded keys case 3 saved loaded found_valid

save_banter-loaded_example :
    (load_valid_prep keys case 3 (run keys saved (banters 70 banter ∷ []))
      ≡ some (record loaded { banter = banter }))
    × (s : Prep) × (find key 70 (run keys saved (banters 70 banter ∷ [])).preps ≡ some s)
    × (s.status ≡ complete_prep)
save_banter-loaded_example =
    save_banter-loaded keys case 3 70 banter saved (run keys saved (banters 70 banter ∷ [])) loaded
      two_saves found_valid refl banter_accepted
