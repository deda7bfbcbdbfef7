-- ===== src/Evidence/Counting.antt =====
-- The repeats that domain/aggregation.py counts, against the window that the backend declares.
use geoji_agent.Base.{
  ℕ, ◌≡◌, refl, Bool, true, not, ◌&&◌, List, [], ◌∷◌, arith, leb, ltb, ◌==◌, rowcount,
}
use geoji_agent.Evidence.{
  CurrentCase, PastPost, Aggregates, count_repeat_same_category, meta_of, build_aggregation,
  aggregates_ok,
}

-- A past purchase of the category that lies in the declared window and is not the excluded post.
abbrev pub in_declared : Aggregates → ℕ → PastPost → Bool
in_declared a category post =
    not (post.post_id == a.excludes_post_id)
    && post.category == category
    && post.is_spent
    && leb a.start_at post.created_at
    && ltb post.created_at a.end_at

-- If the backend's aggregates pass the check, then what the rule counts for the current case is the
-- number of purchases of its category in the window that they declare, the post that they exclude left
-- out: the two sides count the same.
pub count_repeat-declared :
    (a : Aggregates) (current : CurrentCase) (past : List PastPost)
    → aggregates_ok a current ≡ true
    → count_repeat_same_category current past ≡ rowcount (in_declared a current.category) past
unfolding count_repeat_same_category aggregates_ok
count_repeat-declared a current [] ok = refl
count_repeat-declared a current (p ∷ past) ok =
    ground (arith, count_repeat-declared a current past ok)

-- The meta of aggregates that pass the check is the one that the rule builds itself for the case.
pub meta_of-build_aggregation :
    (a : Aggregates) (current : CurrentCase)
    → aggregates_ok a current ≡ true
    → meta_of a ≡ build_aggregation current a.rule_version
unfolding aggregates_ok
meta_of-build_aggregation a current ok = ground arith
