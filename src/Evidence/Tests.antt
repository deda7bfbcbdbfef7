-- ===== src/Evidence/Tests.antt =====
-- A small case of application/build_evidence.py and the theorems at it.
use geoji_agent.Base.{ℕ, ◌≡◌, refl, inl, Bool, true, false, some, List, [], ◌∷◌}
use geoji_agent.Evidence.{
  rooms, private, Snapshot, Resolved, Phrases, RoomRule, Aggregates, CurrentCase, PastPost, Fact,
  build_evidence, this_case, target_pack, usable, mismatched_scopes, mismatched_from, Text,
}
use geoji_agent.Evidence.Scopes.{sees, target_pack-sees}

abbrev pub snapshot : Snapshot
snapshot = record {
  post_id = 1;
  post_version = 1;
  category = 4;
  created_at = 3_000_000_000_000;
  public_share_enabled = false;
  room_ids = 10 ∷ 11 ∷ [];
}

abbrev pub declared : Aggregates
declared = record {
  repeat_same_category = 1;
  excludes_post_id = 1;
  start_at = 408_000_000_000;
  end_at = 3_000_000_000_000;
  rule_version = 1;
}

abbrev pub resolved : Resolved
resolved = record {
  aggregates = declared;
  room_rules = record { rule_id = 5; version = 1; room_id = 10 } ∷ [];
  recent_verdicts =
      record {
        post_id = 2;
        post_version = 1;
        judged_at = 7;
        scope = record { visibility = private; room_ids = [] };
      }
      ∷ [];
  sources = [];
}

abbrev pub words : Text
words = 65 ∷ 66 ∷ []

abbrev pub phrases : Phrases
phrases = record {
  this_case = λ s. words;
  status = λ a. words;
  repeats = λ a. words;
  rule_text = λ r. words;
  prior = λ v. words;
  memory = λ e. words;
}

abbrev pub every : ℕ → RoomRule → Bool
every category r = true

abbrev uuids : ℕ → ℕ
uuids n = n

abbrev pub pack : List Fact
pack = record { label = 0; uuid = 0; draft = this_case phrases every snapshot } ∷ []

made : build_evidence phrases every uuids 1 snapshot resolved ≡ some pack
unfolding build_evidence
made = refl

target_pack-sees_example : sees 11 (record { visibility = rooms; room_ids = 10 ∷ 11 ∷ [] }) ≡ true
unfolding target_pack usable
target_pack-sees_example =
    target_pack-sees (11 ∷ []) pack
      (record { label = 0; uuid = 0; draft = this_case phrases every snapshot }) 11 (inl refl) refl

mismatched_once : mismatched_scopes ((2, 0) ∷ (3, 1) ∷ (3, 1) ∷ []) ((3, 2) ∷ []) ≡ 3 ∷ []
unfolding mismatched_scopes mismatched_from
mismatched_once = refl

abbrev current : CurrentCase
current = record { post_id = 1; category = 4; created_at = 3_000_000_000_000 }

abbrev past : List PastPost
past =
    record { post_id = 2; category = 4; is_spent = true; created_at = 500_000_000_000 }
    ∷ record { post_id = 3; category = 4; is_spent = true; created_at = 400_000_000_000 }
    ∷ []
