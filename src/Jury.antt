-- ===== src/Jury.antt =====
-- src/geoji_ai/graphs/jury_vote.py with contracts/juror.py and domain/juror_amounts.py: one vote of the
-- demo juror; and the handler of application/jury_vote_case.py around it. The answers of the backend
-- and the model are inputs; an answer of the model is what the code tests of it. A text is the list of
-- its code points. The regular expressions that find amounts and their tokens, and the fixture of
-- templates, are parameters.
mod Amounts
pub mod Fair
pub mod Tests
unfoldable pub use Amounts.*
use geoji_agent.Base.{
  ℕ, String, ◌+◌, ◌*◌, ◌/◌, ◌%◌, Bool, true, false, not, ◌&&◌, ◌||◌, Option, none, some, List, [],
  ◌∷◌, ◌++◌, leb, ltb, ◌==◌, if◌then◌else◌, any, length,
}
use text.Mathlib.Text.{◌==◌ as same_text}
use geoji_agent.Texts.{Text, Intensity, within, all}
use geoji_agent.Jobs.{completes, cancels}
use geoji_agent.Handling.{
  Raised, not_found, refused, Refusal, Overrides, BackendErrorAction, cancel_it, fail_it,
  complete_it, Outcome, sends, outcome_of, settle_backend_error, snapshot_not_found,
}
use geoji_agent.Preparation.{Room, strip}

pub data PostType : Type 0 where
  spent considering : PostType

-- JurorVerdict
pub data Verdict : Type 0 where
  guilty not_guilty agree disagree : Verdict

-- VERDICTS_BY_POST_TYPE
abbrev pub allowed_verdict : PostType → Verdict → Bool
allowed_verdict spent guilty = true
allowed_verdict spent not_guilty = true
allowed_verdict considering agree = true
allowed_verdict considering disagree = true
allowed_verdict _ _ = false

-- TEMPLATE_VERDICT_BY_POST_TYPE
abbrev pub template_verdict : PostType → Verdict
template_verdict spent = guilty
template_verdict considering = disagree

abbrev pub juror_reason_max : ℕ
juror_reason_max = 60

-- The snapshot, as far as a vote reads it.
pub record Case : Type 0 where
  pub post_type : PostType
  pub amount_krw : ℕ
  pub item : Text
  pub reason : Option Text
  pub room_snapshots : List Room

unfoldable pub has_grounded_amounts : Finder → Text → ℕ → Text → Text → Bool
unfolding parse_amount
has_grounded_amounts find reason amount_krw item post_reason =
    all
      (is_allowed (
        (false, amount_krw)
        ∷ stated_amounts (all_amounts (find item) ++ all_amounts (find post_reason))))
      (all_amounts (find reason))

-- JuryVotePayload
pub record Payload : Type 0 where
  pub post_id : ℕ
  pub room_id : ℕ
  pub voter_id : ℕ

-- What the answer of the model holds: other keys than the two, and a verdict and a reason that are
-- strings; a verdict that is none of the four is `none`.
pub record Output : Type 0 where
  pub has_other_keys : Bool
  pub verdict : Option Verdict
  pub reason : Option Text

abbrev pub is_line_break : ℕ → Bool
is_line_break c = c == 10 || c == 13

abbrev pub check_vote : PostType → Verdict → Text → Option (Verdict × Text)
check_vote post_type verdict reason =
    if allowed_verdict post_type verdict
      && not (any is_line_break reason)
      && within 1 juror_reason_max (length (strip reason))
    then some (verdict, strip reason)
    else none

abbrev pub check_parts : PostType → Option Verdict → Option Text → Option (Verdict × Text)
check_parts post_type (some verdict) (some reason) = check_vote post_type verdict reason
check_parts post_type _ _ = none

unfoldable pub validate_juror_output : Output → PostType → Option (Verdict × Text)
validate_juror_output o post_type =
    if o.has_other_keys then none else check_parts post_type o.verdict o.reason

pub data Source : Type 0 where
  ai template : Source

pub data Fallback : Type 0 where
  no_llm evidence_invalidated llm_error timed_out no_output invalid_output ungrounded_amount :
      Fallback

-- The call of the model: an exception that the node catches, one that it does not, an answer that
-- stopped early or is no mapping, or an output.
pub data Reply : Type 0 where
  caught : Fallback → Reply
  uncaught : Raised → Reply
  unusable : Reply
  answered : Output → Reply

pub data Step (A : Type 0) : Type 0 where
  did : A → Step A
  failed : Raised → Step A

infixl 5 ◌>>=◌
abbrev pub ◌>>=◌ : {A B : Type 0} → Step A → (A → Step B) → Step B
did a >>= f = f a
failed e >>= f = failed e

-- JuryVoteRequest; the job and the generation are those of the handler.
pub record Request : Type 0 where
  pub post_id : ℕ
  pub room_id : ℕ
  pub voter_id : ℕ
  pub verdict : Verdict
  pub reason : Text
  pub source : Source

pub record World : Type 0 where
  pub has_llm : Bool
  pub snapshot : Step Case
  pub juror : Reply
  pub remember : Step (Unit {0})
  pub cast : Request → Step ℕ

pub record Env : Type 0 where
  pub find_amounts : Finder
  pub templates : Intensity → PostType → Text

abbrev pub template_vote : Env → Intensity → PostType → Verdict × Text
template_vote env i post_type = (template_verdict post_type, env.templates i post_type)

-- room_node: the intensity of the room, or `none` if it is no longer shared.
unfoldable pub room_node : ℕ → List Room → Option Intensity
room_node id [] = none
room_node id (r ∷ rs) = if r.room_id == id then some r.intensity else room_node id rs

pub data Juror : Type 0 where
  fell_back : Fallback → Juror
  raw_output : Output → Juror

abbrev pub read_reply : Reply → Step Juror
read_reply (caught f) = did (fell_back f)
read_reply (uncaught e) = failed e
read_reply unusable = did (fell_back no_output)
read_reply (answered o) = did (raw_output o)

unfoldable pub juror_node : World → Step Juror
juror_node w = if w.has_llm then read_reply w.juror else did (fell_back no_llm)

pub record Decision : Type 0 where
  pub vote : Verdict × Text
  pub source : Source
  pub fallback : Option Fallback

abbrev pub by_template : Env → Case → Intensity → Fallback → Decision
by_template env c i f = record {
  vote = template_vote env i c.post_type;
  source = template;
  fallback = some f;
}

abbrev pub by_model : World → Verdict × Text → Step Decision
by_model w vote = do stored ← w.remember; did (record { vote = vote; source = ai; fallback = none })

-- `unicodedata.normalize` refuses the reason of a post that has none: the TypeError leaves the graph.
abbrev pub type_error : Raised
type_error =
    refused (record { error_code = none; retry_after_s = none; status = none; code = none })

abbrev pub is_grounded : Env → Case → Text → Option Text → Step Bool
is_grounded env c reason none = failed type_error
is_grounded env c reason (some post_reason) =
    did (has_grounded_amounts env.find_amounts reason c.amount_krw c.item post_reason)

abbrev pub take_grounded : Env → World → Case → Intensity → Verdict × Text → Bool → Step Decision
take_grounded env w c i vote true = by_model w vote
take_grounded env w c i vote false = did (by_template env c i ungrounded_amount)

abbrev pub take_vote : Env → World → Case → Intensity → Option (Verdict × Text) → Step Decision
take_vote env w c i none = did (by_template env c i invalid_output)
take_vote env w c i (some vote) = do
  grounded ← is_grounded env c vote.1 c.reason
  take_grounded env w c i vote grounded

unfoldable pub validate_node : Env → World → Case → Intensity → Juror → Step Decision
validate_node env w c i (fell_back f) = did (by_template env c i f)
validate_node env w c i (raw_output o) = take_vote env w c i (validate_juror_output o c.post_type)

abbrev pub request_of : Payload → Decision → Request
request_of p d = record {
  post_id = p.post_id;
  room_id = p.room_id;
  voter_id = p.voter_id;
  verdict = d.vote.0;
  reason = d.vote.1;
  source = d.source;
}

-- The run up to the vote: no request for a room that is not shared.
abbrev pub in_room : Env → World → Payload → Case → Option Intensity → Step (Option Request)
in_room env w p c none = did none
in_room env w p c (some i) = do
  juror ← juror_node w
  decision ← validate_node env w c i juror
  did (some (request_of p decision))

unfoldable pub vote_of : Env → World → Payload → Step (Option Request)
vote_of env w p = do c ← w.snapshot; in_room env w p c (room_node p.room_id c.room_snapshots)

-- SKIPPED, or CAST with the vote's id.
pub data Ended : Type 0 where
  skipped : Ended
  cast : ℕ → Ended

abbrev pub cast_node : World → Option Request → Step Ended
cast_node w none = did skipped
cast_node w (some q) = do vote_id ← w.cast q; did (cast vote_id)

unfoldable pub run_jury_vote : Env → World → Payload → Step Ended
unfolding vote_of
run_jury_vote env w p = do q ← vote_of env w p; cast_node w q

-- _BACKEND_ERROR_OVERRIDES
abbrev pub for_status : ℕ → Option BackendErrorAction
for_status status =
    if status == 422
    then some (record { action = fail_it; error_code = some "SCHEMA_INVALID" })
    else none

abbrev pub for_code : String → Option BackendErrorAction
for_code code =
    if same_text code "VOTING_CLOSED" || same_text code "ALREADY_VOTED"
    then some (record { action = complete_it; error_code = none })
    else none

abbrev pub for_both : ℕ → String → Option BackendErrorAction
for_both status code =
    if status == 404 && same_text code "NOT_FOUND"
    then some (record { action = cancel_it; error_code = some "SNAPSHOT_NOT_FOUND" })
    else if status == 403 && same_text code "NOT_AI_JUROR"
    then some (record { action = fail_it; error_code = some "NOT_AI_JUROR" })
    else none

abbrev pub overrides : Overrides
overrides (some status) (some code) = for_both status code
overrides (some status) none = for_status status
overrides none (some code) = for_code code
overrides none none = none

module _ (id worker generation : ℕ) where
  abbrev pub on_raised : Raised → Outcome
  on_raised not_found = sends (cancels id worker generation snapshot_not_found)
  on_raised (refused e) = outcome_of (settle_backend_error id worker generation overrides e)

  abbrev pub after_vote : Step Ended → Outcome
  after_vote (did e) = sends (completes id worker generation)
  after_vote (failed e) = on_raised e

  unfoldable pub jury_handler : Env → World → Payload → Outcome
  unfolding run_jury_vote
  jury_handler env w p = after_vote (run_jury_vote env w p)
