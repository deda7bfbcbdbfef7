-- ===== src/Evidence.antt =====
-- src/geoji_ai/application/build_evidence.py with domain/visibility.py, domain/privacy.py and
-- domain/aggregation.py: which facts a verdict may be written from, and for whom. Rooms, posts,
-- rules, scope keys and uuids are numbers, times microseconds, and a text the list of its code points.
-- How a sentence is phrased (the f-strings) and the matcher of rules are parameters.
mod Visible
mod Repeats
pub mod Scopes
pub mod Pack
pub mod Counting
pub mod Tests
unfoldable pub use Visible.*
unfoldable pub use Repeats.*
use geoji_agent.Base.{
  ℕ, suc, ◌+◌, ◌-◌, Bool, true, false, not, ◌&&◌, ◌||◌, Option, none, some, List, [], ◌∷◌, ◌++◌,
  map, ltb, leb, ◌==◌, if◌then◌else◌, any, take, select_where, rowcount, is_null,
}

abbrev pub Text : Type 0
Text = List ℕ

pub data EpistemicType : Type 0 where
  db_record user_claim model_inference : EpistemicType

pub data FactType : Type 0 where
  spend verdict mitigation rule aggregate : FactType

pub record Snapshot : Type 0 where
  pub post_id : ℕ
  pub post_version : ℕ
  pub category : ℕ
  pub created_at : ℕ
  pub public_share_enabled : Bool
  pub room_ids : List ℕ

pub record RoomRule : Type 0 where
  pub rule_id : ℕ
  pub version : ℕ
  pub room_id : ℕ

pub record RecentVerdict : Type 0 where
  pub post_id : ℕ
  pub post_version : ℕ
  pub judged_at : ℕ
  pub scope : Scope

pub data SourceType : Type 0 where
  post_source verdict_source rule_source other_source : SourceType

abbrev pub same_source_type : SourceType → SourceType → Bool
same_source_type post_source post_source = true
same_source_type verdict_source verdict_source = true
same_source_type rule_source rule_source = true
same_source_type other_source other_source = true
same_source_type _ _ = false

pub record EvidenceSource : Type 0 where
  pub source_type : SourceType
  pub source_id : ℕ
  pub source_version : ℕ
  pub scope : Scope

pub record Resolved : Type 0 where
  pub aggregates : Aggregates
  pub room_rules : List RoomRule
  pub recent_verdicts : List RecentVerdict
  pub sources : List EvidenceSource

-- _Draft
pub record Draft : Type 0 where
  pub epistemic_type : EpistemicType
  pub fact_type : FactType
  pub text : Text
  pub scope : Scope
  pub aggregation : Option AggregationMeta
  pub occurred_at : Option ℕ
  pub sources : List (SourceType × ℕ × ℕ)

-- A fact under its label `F{index}`, with its uuid.
pub record Fact : Type 0 where
  pub label : ℕ
  pub uuid : ℕ
  pub draft : Draft

-- The phrasing of each kind of fact; the fields that only the phrasing reads are not in the records.
pub record Phrases : Type 0 where
  pub this_case : Snapshot → Text
  pub status : Aggregates → Text
  pub repeats : Aggregates → Text
  pub rule_text : RoomRule → Text
  pub prior : RecentVerdict → Text
  pub memory : EvidenceSource → Text

-- EVIDENCE_TEXT_MAX of ports/preparation.py
abbrev pub evidence_text_max : ℕ
evidence_text_max = 500

abbrev pub clip : Text → Text
clip t = take evidence_text_max t

-- The enumeration; `uuids` draws a fresh uuid for each fact.
abbrev pub label_from : (ℕ → ℕ) → ℕ → List Draft → List Fact
label_from uuids i [] = []
label_from uuids i (d ∷ ds) =
    record { label = i; uuid = uuids i; draft = d } ∷ label_from uuids (suc i) ds

module _ (phrases : Phrases) (matcher : ℕ → RoomRule → Bool) where
  abbrev pub audience_scope : Snapshot → Scope
  audience_scope s = record {
    visibility = if s.public_share_enabled then public else rooms;
    room_ids = s.room_ids;
  }

  abbrev pub this_case : Snapshot → Draft
  this_case s = record {
    epistemic_type = user_claim;
    fact_type = spend;
    text = clip (phrases.this_case s);
    scope = audience_scope s;
    aggregation = none;
    occurred_at = some s.created_at;
    sources = (post_source, s.post_id, s.post_version) ∷ [];
  }

  abbrev pub aggregate_draft : Snapshot → Aggregates → Text → Draft
  aggregate_draft s a t = record {
    epistemic_type = db_record;
    fact_type = aggregate;
    text = clip t;
    scope = audience_scope s;
    aggregation = some (meta_of a);
    occurred_at = none;
    sources = [];
  }

  abbrev pub current_of : Snapshot → CurrentCase
  current_of s = record { post_id = s.post_id; category = s.category; created_at = s.created_at }

  abbrev pub aggregate_drafts : Snapshot → Aggregates → List Draft
  unfolding aggregates_ok
  aggregate_drafts s a =
      if aggregates_ok a (current_of s)
      then aggregate_draft s a (phrases.status a) ∷ aggregate_draft s a (phrases.repeats a) ∷ []
      else []

  abbrev pub rule_draft : RoomRule → Draft
  rule_draft r = record {
    epistemic_type = db_record;
    fact_type = rule;
    text = clip (phrases.rule_text r);
    scope = record { visibility = rooms; room_ids = r.room_id ∷ [] };
    aggregation = none;
    occurred_at = none;
    sources = (rule_source, r.rule_id, r.version) ∷ [];
  }

  abbrev pub rule_drafts : Snapshot → List RoomRule → List Draft
  rule_drafts s rs = map rule_draft (select_where (matcher s.category) rs)

  abbrev pub prior_draft : RecentVerdict → Draft
  prior_draft v = record {
    epistemic_type = db_record;
    fact_type = verdict;
    text = clip (phrases.prior v);
    scope = v.scope;
    aggregation = none;
    occurred_at = some v.judged_at;
    sources = (post_source, v.post_id, v.post_version) ∷ [];
  }

  -- `others.sort(key=judged_at, reverse=True)`: stable, the latest first.
  pub place : RecentVerdict → List RecentVerdict → List RecentVerdict
  place v [] = v ∷ []
  place v (w ∷ ws) = if leb w.judged_at v.judged_at then v ∷ w ∷ ws else w ∷ place v ws

  pub sort_latest : List RecentVerdict → List RecentVerdict
  unfolding place
  sort_latest [] = []
  sort_latest (v ∷ vs) = place v (sort_latest vs)

  abbrev pub prior_drafts : Snapshot → List RecentVerdict → List Draft
  unfolding sort_latest
  prior_drafts s vs =
      map prior_draft (sort_latest (select_where (λ v. not (v.post_id == s.post_id)) vs))

  abbrev pub memory_type : SourceType → Option FactType
  memory_type post_source = some spend
  memory_type verdict_source = some verdict
  memory_type rule_source = none
  memory_type other_source = none

  abbrev pub memory_drafts : List EvidenceSource → List Draft
  memory_drafts [] = []
  memory_drafts (e ∷ es) =
      let rest = memory_drafts es in
      elim (memory_type e.source_type) [
        | none ↦ rest
        | some t ↦
            record {
              epistemic_type = db_record;
              fact_type = t;
              text = clip (phrases.memory e);
              scope = e.scope;
              aggregation = none;
              occurred_at = none;
              sources = (e.source_type, e.source_id, e.source_version) ∷ [];
            }
            ∷ rest
      ]

  abbrev pub drafts : Snapshot → Resolved → List Draft
  drafts s r =
      this_case s ∷ aggregate_drafts s r.aggregates
      ++ rule_drafts s r.room_rules
      ++ prior_drafts s r.recent_verdicts
      ++ memory_drafts r.sources

  -- `none`: `pack_limit` is below one, and the source raises.
  unfoldable pub build_evidence : (ℕ → ℕ) → ℕ → Snapshot → Resolved → Option (List Fact)
  build_evidence uuids pack_limit s r =
      if ltb pack_limit 1 then none else some (label_from uuids 0 (take pack_limit (drafts s r)))

-- resolve_label; the label map has the facts' labels and uuids.
pub resolve_label : ℕ → List Fact → Option ℕ
resolve_label label [] = none
resolve_label label (f ∷ fs) = if f.label == label then some f.uuid else resolve_label label fs

unfoldable pub target_pack : List ℕ → List Fact → List Fact
unfolding usable
target_pack target facts = select_where (λ f. usable f.draft.scope target) facts
