-- ===== src/Dispatch/Routes.antt =====
-- JOB_ROUTES and SLOT_KINDS of src/geoji_ai/workers/dispatch.py.
use geoji_agent.Base.{ℕ, String, Option, none, some, List, [], ◌∷◌, if◌then◌else◌}
use geoji_agent.Jobs.{JobKind, prepare, sentence, text_retry, retain, jury_vote, same_kind}

-- A piece of a `str.format` template: literal text, or a field in braces.
pub data Piece : Type 0 where
  lit : String → Piece
  field : String → Piece

pub record JobRoute : Type 0 where
  pub event_type : String
  pub kind : JobKind
  pub priority : ℕ
  pub max_attempts : ℕ
  pub deadline_after_s : Option ℕ
  pub dedupe_template : List Piece
  pub aggregate_fields : String × String

abbrev pub post_created : JobRoute
post_created = record {
  event_type = "post.created";
  kind = prepare;
  priority = 30;
  max_attempts = 2;
  deadline_after_s = none;
  dedupe_template =
      lit "prepare:"
      ∷ field "post_id"
      ∷ lit ":"
      ∷ field "post_version"
      ∷ lit ":"
      ∷ field "audience_version"
      ∷ [];
  aggregate_fields = ("post_id", "post_version");
}

abbrev pub verdict_confirmed : JobRoute
verdict_confirmed = record {
  event_type = "verdict.confirmed";
  kind = sentence;
  priority = 100;
  max_attempts = 2;
  deadline_after_s = some 90;
  dedupe_template = lit "sentence:" ∷ field "verdict_id" ∷ lit ":" ∷ field "verdict_version" ∷ [];
  aggregate_fields = ("verdict_id", "verdict_version");
}

abbrev pub sentence_finalized : JobRoute
sentence_finalized = record {
  event_type = "sentence.finalized";
  kind = retain;
  priority = 10;
  max_attempts = 5;
  deadline_after_s = none;
  dedupe_template = lit "retain:verdict:" ∷ field "verdict_id" ∷ lit ":" ∷ field "version" ∷ [];
  aggregate_fields = ("verdict_id", "version");
}

abbrev pub verdict_text_retry : JobRoute
verdict_text_retry = record {
  event_type = "verdict.text_retry";
  kind = text_retry;
  priority = 50;
  max_attempts = 1;
  deadline_after_s = some 60;
  dedupe_template =
      lit "text-retry:"
      ∷ field "verdict_id"
      ∷ lit ":"
      ∷ field "verdict_version"
      ∷ lit ":"
      ∷ field "round"
      ∷ [];
  aggregate_fields = ("verdict_id", "verdict_version");
}

abbrev pub comment_approved : JobRoute
comment_approved = record {
  event_type = "comment.approved";
  kind = retain;
  priority = 10;
  max_attempts = 5;
  deadline_after_s = none;
  dedupe_template = lit "retain:comment:" ∷ field "comment_id" ∷ lit ":" ∷ field "version" ∷ [];
  aggregate_fields = ("comment_id", "version");
}

abbrev pub jury_vote_requested : JobRoute
jury_vote_requested = record {
  event_type = "jury.vote_requested";
  kind = jury_vote;
  priority = 60;
  max_attempts = 2;
  deadline_after_s = none;
  dedupe_template =
      lit "jury-vote:"
      ∷ field "post_id"
      ∷ lit ":"
      ∷ field "room_id"
      ∷ lit ":"
      ∷ field "voter_id"
      ∷ [];
  aggregate_fields = ("post_id", "post_version");
}

-- JOB_ROUTES, in the order of the source.
abbrev pub job_routes : List JobRoute
job_routes =
    post_created ∷ verdict_confirmed ∷ sentence_finalized ∷ verdict_text_retry ∷ comment_approved
    ∷ jury_vote_requested ∷ []

abbrev keep_kind : JobKind → List JobRoute → List JobRoute
keep_kind k [] = []
keep_kind k (r ∷ rs) = if same_kind r.kind k then r ∷ keep_kind k rs else keep_kind k rs

-- ROUTES_BY_KIND[k]: the routes of a kind, in order.
unfoldable pub routes_by_kind : JobKind → List JobRoute
routes_by_kind k = keep_kind k job_routes

abbrev head_route : List JobRoute → Option JobRoute
head_route [] = none
head_route (r ∷ _) = some r

-- DEFAULT_ROUTE_BY_KIND[k]; `none` is a missing key.
unfoldable pub default_route : JobKind → Option JobRoute
unfolding routes_by_kind
default_route k = head_route (routes_by_kind k)

pub data Slot : Type 0 where
  sentence_slot prepare_slot background_slot jury_slot : Slot

-- SLOT_KINDS
unfoldable pub slot_kinds : Slot → List JobKind
slot_kinds sentence_slot = sentence ∷ []
slot_kinds prepare_slot = prepare ∷ []
slot_kinds background_slot = text_retry ∷ retain ∷ []
slot_kinds jury_slot = jury_vote ∷ []
