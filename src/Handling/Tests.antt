-- ===== src/Handling/Tests.antt =====
-- The handler of application/sentence_case.py on a queue with one row in hand.
use geoji_agent.Base.{ℕ, [], ◌∷◌, ◌≡◌, refl, true, none, some, arith}
use geoji_agent.Jobs.{sentence, completes, cancels, fails, owned}
use geoji_agent.Jobs.Tests.{busy, queue}
use geoji_agent.Sentencing.Tests.{env, case, answers}
use geoji_agent.Handling.{
  Refusal, World, snapshot, not_found, sentence_handler, settle_backend_error, no_overrides,
  stub_handler, Overrides, cancel_it,
}
use geoji_agent.Handling.Others.{Leaves, handlers-Leaves}
use geoji_agent.Preparation.Run.{prepare_handler}
use geoji_agent.Preparation.Tests.{env as preparation, world as prepared, current}
use geoji_agent.Jury.{jury_handler}
use geoji_agent.Jury.Tests.{env as jury, world as voted, payload}

abbrev refusal : ℕ → Refusal
refusal s = record {
  error_code = none;
  retry_after_s = none;
  status = some s;
  code = some "FORBIDDEN";
}

abbrev world : World
world = record {
  has_payload = true;
  has_llm = true;
  begin_refused = none;
  report_refused = none;
  snapshot_reply = snapshot case;
  graph = answers none;
  escaped = not_found;
}

-- The order of the rules of settle_backend_error: the exact one, authentication, the others.
abbrev exact : Overrides
exact (some status) (some code) = some (record { action = cancel_it; error_code = none })
exact _ _ = none

abbrev any_status : Overrides
any_status none (some code) = some (record { action = cancel_it; error_code = some "GONE" })
any_status _ _ = none

exact_first : settle_backend_error 2 7 70 exact (refusal 403) ≡ some (cancels 2 7 70 "FORBIDDEN")
unfolding settle_backend_error
exact_first = refl

then_auth :
    settle_backend_error 2 7 70 any_status (refusal 403)
    ≡ some (fails 2 7 70 "BACKEND_AUTH" (some 60))
unfolding settle_backend_error
then_auth = refl

then_others : settle_backend_error 2 7 70 any_status (refusal 409) ≡ some (cancels 2 7 70 "GONE")
unfolding settle_backend_error
then_others = refl

by_default :
    settle_backend_error 2 7 70 no_overrides (refusal 409) ≡ some (fails 2 7 70 "FORBIDDEN" none)
unfolding settle_backend_error
by_default = refl

stub_completes : stub_handler 2 7 70 none none ≡ some (completes 2 7 70)
unfolding stub_handler
stub_completes = refl

still_holding : owned 2 7 70 12 busy ≡ true
unfolding owned
still_holding = refl

handlers-Leaves_example :
    Leaves 2 7 70 12 queue (sentence_handler 2 7 70 40 env sentence world)
    × Leaves 2 7 70 12 queue (prepare_handler 2 7 70 true preparation prepared (some current))
    × Leaves 2 7 70 12 queue (jury_handler 2 7 70 jury (voted (65 ∷ [])) payload)
handlers-Leaves_example =
    handlers-Leaves 2 7 70 12 queue busy 40 env sentence world true preparation prepared
      (some current) jury (voted (65 ∷ [])) payload (omega arith) (ground arith) refl still_holding
