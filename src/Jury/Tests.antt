-- ===== src/Jury/Tests.antt =====
-- A vote of graphs/jury_vote.py on a small post, and the theorem at it.
use geoji_agent.Base.{
  ℕ, ◌≡◌, refl, String, Bool, true, false, none, some, List, [], ◌∷◌, if◌then◌else◌,
}
use geoji_agent.Texts.{Text, spicy, contains}
use geoji_agent.Handling.{Refusal, settle_backend_error}
use geoji_agent.Preparation.{strip, strip_left, strip_right}
use geoji_agent.Jobs.{cancels, fails, completes}
use geoji_agent.Jury.{
  spent, guilty, Token, small, large, number, parse_amount, read_tokens, Case, Payload, Output, ai,
  template, answered, did, failed, type_error, Request, World, Env, vote_of, room_node, juror_node,
  validate_node, validate_juror_output, has_grounded_amounts, overrides,
}
use geoji_agent.Jury.Fair.{IsFair, vote_of-IsFair}

-- 2만 5천 and 1.5만
amounts_read :
    (parse_amount (false, number 2 1 ∷ large 10_000 ∷ number 5 1 ∷ small 1_000 ∷ [])
      ≡ some (false, 25_000))
    × (parse_amount (false, number 15 10 ∷ large 10_000 ∷ []) ≡ some (false, 15_000))
    × (parse_amount (false, small 1_000 ∷ small 1_000 ∷ []) ≡ none)
    × (parse_amount (true, number 1 2 ∷ []) ≡ none)
unfolding parse_amount read_tokens
amounts_read = (refl, refl, refl, refl)

abbrev case : Case
case = record {
  post_type = spent;
  amount_krw = 25_000;
  item = 65 ∷ [];
  reason = some (66 ∷ []);
  room_snapshots = record { room_id = 10; rule_version = 1; intensity = spicy } ∷ [];
}

-- The code point 84 stands for 25,000 won, 85 for 3,000 won.
abbrev pub find_amounts : Text → List (Bool × List Token)
unfolding contains
find_amounts t =
    if contains (84 ∷ []) t
    then (false, number 25_000 1 ∷ []) ∷ []
    else if contains (85 ∷ []) t
    then (false, number 3_000 1 ∷ []) ∷ []
    else []

abbrev pub env : Env
env = record { find_amounts = find_amounts; templates = λ i post_type. 70 ∷ 71 ∷ [] }

abbrev said : Text → Output
said t = record { has_other_keys = false; verdict = some guilty; reason = some t }

abbrev pub world : Text → World
world t = record {
  has_llm = true;
  snapshot = did case;
  juror = answered (said t);
  remember = did tt;
  cast = λ q. did 5;
}

abbrev pub payload : Payload
payload = record { post_id = 1; room_id = 10; voter_id = 77 }

abbrev vote : Request
vote = record {
  post_id = 1;
  room_id = 10;
  voter_id = 77;
  verdict = guilty;
  reason = 65 ∷ 84 ∷ [];
  source = ai;
}

voted : vote_of env (world (32 ∷ 65 ∷ 84 ∷ 32 ∷ [])) payload ≡ did (some vote)
unfolding vote_of room_node juror_node validate_node validate_juror_output has_grounded_amounts
    parse_amount read_tokens find_amounts contains strip strip_left strip_right
voted = refl

-- An amount that the post does not name sends the table's vote.
ungrounded :
    vote_of env (world (65 ∷ 85 ∷ [])) payload
    ≡ did (some (record vote { reason = 70 ∷ 71 ∷ []; source = template }))
unfolding vote_of room_node juror_node validate_node validate_juror_output has_grounded_amounts
    parse_amount read_tokens find_amounts contains strip strip_left strip_right
ungrounded = refl

-- A vote on a post without a reason ends in the exception, which the handler passes on.
no_reason :
    vote_of env
      (record (world (65 ∷ [])) { snapshot = did (record case { reason = none }) })
      payload
    ≡ failed type_error
unfolding vote_of room_node juror_node validate_node validate_juror_output strip strip_left
    strip_right
no_reason = refl

abbrev plain : Refusal
plain = record { error_code = none; retry_after_s = none; status = none; code = none }

plain_escapes : settle_backend_error 2 7 70 overrides plain ≡ none
unfolding settle_backend_error
plain_escapes = refl

not_shared : vote_of env (world (65 ∷ [])) (record payload { room_id = 11 }) ≡ did none
unfolding vote_of room_node
not_shared = refl

-- The overrides of the juror: an exact rule goes before the one on authentication.
abbrev refusal : ℕ → String → Refusal
refusal s c = record { error_code = none; retry_after_s = none; status = some s; code = some c }

overridden :
    (settle_backend_error 2 7 70 overrides (refusal 403 "NOT_AI_JUROR")
      ≡ some (fails 2 7 70 "NOT_AI_JUROR" none))
    × (settle_backend_error 2 7 70 overrides (refusal 409 "VOTING_CLOSED")
        ≡ some (completes 2 7 70))
    × (settle_backend_error 2 7 70 overrides (refusal 404 "NOT_FOUND")
        ≡ some (cancels 2 7 70 "SNAPSHOT_NOT_FOUND"))
unfolding settle_backend_error
overridden = (refl, refl, refl)

vote_of-IsFair_example :
    (c : Case) × (did case ≡ did c) × IsFair env (world (32 ∷ 65 ∷ 84 ∷ 32 ∷ [])) payload c vote
vote_of-IsFair_example = vote_of-IsFair env (world (32 ∷ 65 ∷ 84 ∷ 32 ∷ [])) payload vote voted
