-- ===== src/Evidence/Repeats.antt =====
-- src/geoji_ai/domain/aggregation.py: the purchases of a category in the 30 days before a case.
use geoji_agent.Base.{ℕ, ◌+◌, ◌-◌, Bool, not, ◌&&◌, List, ltb, leb, ◌==◌, rowcount}

-- 30 days
abbrev pub window : ℕ
window = 2_592_000_000_000

pub record CurrentCase : Type 0 where
  pub post_id : ℕ
  pub category : ℕ
  pub created_at : ℕ

pub record PastPost : Type 0 where
  pub post_id : ℕ
  pub category : ℕ
  pub is_spent : Bool
  pub created_at : ℕ

-- The test of count_repeat_same_category, with the window's subtraction moved over.
abbrev pub counts : CurrentCase → PastPost → Bool
counts current post =
    not (post.post_id == current.post_id)
    && post.category == current.category
    && post.is_spent
    && leb current.created_at (post.created_at + window)
    && ltb post.created_at current.created_at

unfoldable pub count_repeat_same_category : CurrentCase → List PastPost → ℕ
count_repeat_same_category current past = rowcount (counts current) past

-- The answer's `aggregates`, read and with the types that the contract model gives.
pub record Aggregates : Type 0 where
  pub repeat_same_category : ℕ
  pub excludes_post_id : ℕ
  pub start_at : ℕ
  pub end_at : ℕ
  pub rule_version : ℕ

-- check_backend_aggregates and validate_aggregation: no problem is found.
unfoldable pub aggregates_ok : Aggregates → CurrentCase → Bool
aggregates_ok a current =
    a.excludes_post_id == current.post_id
    && a.end_at == current.created_at
    && a.end_at == (a.start_at + window)
    && ltb a.start_at a.end_at

pub record AggregationMeta : Type 0 where
  pub rule_version : ℕ
  pub start_at : ℕ
  pub end_at : ℕ
  pub excludes_post_id : ℕ

-- The `meta` that goes with a fact on the aggregates.
abbrev pub meta_of : Aggregates → AggregationMeta
meta_of a = record {
  rule_version = a.rule_version;
  start_at = a.start_at;
  end_at = a.end_at;
  excludes_post_id = a.excludes_post_id;
}

-- build_aggregation, for a case later than the window is long.
abbrev pub build_aggregation : CurrentCase → ℕ → AggregationMeta
build_aggregation current version = record {
  rule_version = version;
  start_at = current.created_at - window;
  end_at = current.created_at;
  excludes_post_id = current.post_id;
}
