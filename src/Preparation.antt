-- ===== src/Preparation.antt =====
-- src/geoji_ai/graphs/preparation.py, the pure functions: facts that a model infers are put behind the
-- facts of the code, and banter is filtered. The JSON of an answer is what the code tests of it: a
-- value of another type is `none`, a label F<n> its number; a label of another form is a number that
-- no fact has. `uuids` draws a fresh uuid for the fact or the candidate at an index.
mod Candidates
pub mod Narrow
pub mod Cited
pub mod Inferred
pub mod Merged
pub mod Graph
pub mod Run
pub mod Clean
pub mod Shown
pub mod Kept
pub mod Unwritten
pub mod Ends
pub mod Reuse
pub mod Store
pub mod Loading
pub mod Complete
pub mod Keyed
pub mod Loaded
pub mod Sources
pub mod Saved
pub mod Completed
pub mod Stored
pub mod Tests
unfoldable pub use Candidates.*
use geoji_agent.Base.{
  ℕ, suc, ◌+◌, Bool, true, false, not, ◌&&◌, ◌||◌, Option, none, some, List, [], ◌∷◌, ◌++◌, map,
  ltb, leb, ◌==◌, if◌then◌else◌, any, filter, length, take,
}
use geoji_agent.Evidence.{
  Scope, public, rooms, private, Visibility, member, is_empty, Fact, Draft, model_inference,
  FactType, rule, mitigation, SourceType, same_source_type, clip, Snapshot, Resolved, Aggregates,
  Phrases, RoomRule, build_evidence,
}
use geoji_agent.Texts.{
  Text, Intensity, mild, spicy, hell, Lexicon, is_space, card_statement_max, death_word_hits,
  profanity_hits, same_intensity, all,
}
use geoji_agent.Texts
use geoji_agent.Rules.{VerdictResult}

-- ports.preparation.Dossier; the label map is read off the facts, which hold their uuids.
pub record Dossier : Type 0 where
  pub dossier_id : ℕ
  pub post_id : ℕ
  pub snapshot_hash : ℕ
  pub facts : List Fact
  pub privacy_versions : List (ℕ × ℕ)

-- `dict.fromkeys`: the first of each run of equal elements.
abbrev pub fromkeys {ℓ} : {A : Type ℓ} → (A → A → Bool) → List A → List A
fromkeys eq [] = []
fromkeys eq (x ∷ xs) = x ∷ filter (λ y. not (eq x y)) (fromkeys eq xs)

abbrev pub is_private : Scope → Bool
is_private s = elim s.visibility [ private ↦ true | _ ↦ false ]

abbrev pub is_rooms : Scope → Bool
is_rooms s = elim s.visibility [ rooms ↦ true | _ ↦ false ]

abbrev pub room_sets : List Scope → List (List ℕ)
room_sets [] = []
room_sets (s ∷ ss) = let rest = room_sets ss in if is_rooms s then s.room_ids ∷ rest else rest

-- frozenset.intersection
abbrev pub intersection : List ℕ → List (List ℕ) → List ℕ
intersection r [] = r
intersection r (s ∷ ss) = intersection (filter (λ x. member x s) r) ss

abbrev pub among_rooms : List (List ℕ) → Scope
among_rooms [] = record { visibility = public; room_ids = [] }
among_rooms (r ∷ rs) = record { visibility = rooms; room_ids = intersection r rs }

unfoldable pub narrowest_scope : List Scope → Scope
narrowest_scope scopes =
    if any is_private scopes
    then record { visibility = private; room_ids = [] }
    else among_rooms (room_sets scopes)

-- ALLOWED_FACT_KINDS; another kind is `none` in an item.
pub data Kind : Type 0 where
  rule_hit mitigation_kind reason_analysis : Kind

pub record Item : Type 0 where
  pub kind : Option Kind
  pub source_refs : Option (List ℕ)
  pub text : Option Text

-- The answer: its items, `none` for one that is no mapping, and its own analysis, whose content no
-- code reads.
pub record Output : Type 0 where
  pub facts : List (Option Item)
  pub reason_analysis : Option ℕ

pub record Analysis : Type 0 where
  pub base : Option ℕ
  pub facts : List Text

-- `by_label[...]`: of facts with the same label the last.
abbrev pub or_else {ℓ} : {A : Type ℓ} → Option A → Option A → Option A
or_else (some a) b = some a
or_else none b = b

abbrev pub by_label : List Fact → ℕ → Option Fact
by_label [] l = none
by_label (f ∷ fs) l = or_else (by_label fs l) (if f.label == l then some f else none)

-- `all(ref in by_label for ref in refs)`, with the facts that are found.
abbrev pub with_fact : Option Fact → Option (List Fact) → Option (List Fact)
with_fact (some f) (some fs) = some (f ∷ fs)
with_fact _ _ = none

abbrev pub referenced : List Fact → List ℕ → Option (List Fact)
referenced facts [] = some []
referenced facts (l ∷ ls) = with_fact (by_label facts l) (referenced facts ls)

abbrev pub same_triple : SourceType × ℕ × ℕ → SourceType × ℕ × ℕ → Bool
same_triple (a, i, v) (b, j, w) = same_source_type a b && i == j && v == w

abbrev pub all_sources : List Fact → List (SourceType × ℕ × ℕ)
all_sources [] = []
all_sources (f ∷ fs) = f.draft.sources ++ all_sources fs

-- The fact of an item; the scope is the narrowest of the referenced ones.
abbrev pub inferred : FactType → Text → List Fact → Draft
inferred fact_type body refs = record {
  epistemic_type = model_inference;
  fact_type = fact_type;
  text = clip body;
  scope = narrowest_scope (map (λ f. f.draft.scope) refs);
  aggregation = none;
  occurred_at = none;
  sources = fromkeys same_triple (all_sources refs);
}

-- What an item adds: nothing, a fact, or a text of the analysis.
pub data Added : Type 0 where
  dropped : Added
  fact_of : Draft → Added
  text_of : Text → Added

abbrev pub by_kind : Kind → Text → List Fact → Added
by_kind rule_hit body refs = fact_of (inferred rule body refs)
by_kind mitigation_kind body refs = fact_of (inferred mitigation body refs)
by_kind reason_analysis body refs = text_of body

abbrev pub has_words : Text → Bool
has_words t = any (λ c. not (is_space c)) t

abbrev pub grounded : Kind → Text → Option (List Fact) → Added
grounded kind body none = dropped
grounded kind body (some refs) = by_kind kind body refs

abbrev pub checked : List Fact → Kind → Text → List ℕ → Added
checked known kind body [] = dropped
checked known kind body (l ∷ ls) =
    if has_words body
    then grounded kind body (referenced known (fromkeys ◌==◌ (l ∷ ls)))
    else dropped

abbrev pub read_item : List Fact → Option Kind → Option Text → Option (List ℕ) → Added
read_item known (some kind) (some body) (some refs) = checked known kind body refs
read_item known _ _ _ = dropped

abbrev pub item_of : List Fact → Option Item → Added
item_of known none = dropped
item_of known (some i) = read_item known i.kind i.text i.source_refs

abbrev pub Collected : Type 0
Collected = List Fact × List Text

abbrev pub add : (ℕ → ℕ) → Added → Collected → Collected
add uuids dropped (facts, texts) = (facts, texts)
add uuids (fact_of d) (facts, texts) =
    (facts ++ record { label = length facts; uuid = uuids (length facts); draft = d } ∷ [], texts)
add uuids (text_of t) (facts, texts) = (facts, texts ++ t ∷ [])

-- The loop; `known` are the facts of the dossier, `facts` those so far.
abbrev pub collect : (ℕ → ℕ) → List Fact → List (Option Item) → Collected → Collected
collect uuids known [] c = c
collect uuids known (i ∷ is) c = collect uuids known is (add uuids (item_of known i) c)

unfoldable pub merge_inferred_facts : (ℕ → ℕ) → Dossier → Option Output → Dossier × Option Analysis
merge_inferred_facts uuids d none = (d, none)
merge_inferred_facts uuids d (some o) =
    let c = collect uuids d.facts o.facts (d.facts, []) in
    (record d { facts = c.0 }, some (record { base = o.reason_analysis; facts = c.1 }))
