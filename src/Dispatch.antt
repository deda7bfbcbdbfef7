-- ===== src/Dispatch.antt =====
-- src/geoji_ai/workers/dispatch.py: the table of job routes, the slots and the key of a job, and the
-- INSERT that scripts/enqueue_job.py makes from a route, on the table of
-- database/migrations/001_ai_jobs.sql with its checks and keys. `show` is Python's `str` of an integer
-- and `dumps` is `json.dumps` of the payload.
mod Routes
pub mod Insert
pub mod Tests
unfoldable pub use Routes.*
use Prim.Native.String.{◌++◌}
use text.Mathlib.Text.{◌==◌ as same_text}
use geoji_agent.Base.{
  ℕ, ◌+◌, ◌*◌, String, Bool, true, false, not, ◌&&◌, ◌||◌, Option, none, some, List, [], ◌∷◌, map,
  any, if◌then◌else◌, ltb, leb, ◌==◌, is_null,
}
use geoji_agent.Base.Int.{ℤ, pos, negsuc}
use geoji_agent.Jobs.{
  Job, JobKind, prepare, sentence, text_retry, retain, jury_vote, same_kind, queued, is_running,
}

pub data Value : Type 0 where
  str : String → Value
  num : ℤ → Value

abbrev pub Payload : Type 0
Payload = List (String × Value)

-- `payload[name]`; `none` is a KeyError.
pub get : String → Payload → Option Value
get name [] = none
get name ((n, v) ∷ p) = if same_text n name then some v else get name p

module _ (show : ℤ → String) where
  -- `str(value)`
  abbrev pub text_of : Value → String
  text_of (str s) = s
  text_of (num n) = show n

  abbrev join : String → Option String → Option String
  join s none = none
  join s (some r) = some (s ++ r)

  pub format : List Piece → Payload → Option String
  format [] p = some ""
  format (lit s ∷ ps) p = join s (format ps p)
  format (field name ∷ ps) p = elim (get name p) [
    | none ↦ none
    | some v ↦ join (text_of v) (format ps p)
  ]

  pub build_dedupe_key : JobRoute → Payload → Option String
  unfolding format get
  build_dedupe_key route p = format route.dedupe_template p

-- `int(value)`; `none` is the ValueError on a text, which no payload model of the source stores in a
-- version field.
abbrev int_of : Option Value → Option ℤ
int_of (some (num n)) = some n
int_of _ = none

-- A bigint column takes no larger integer; a negative one would break the check that 0 breaks too.
abbrev pub bigint_end : ℕ
bigint_end = 9_223_372_036_854_775_808

abbrev column_of : Option ℤ → Option ℕ
column_of (some (pos n)) = if ltb n bigint_end then some n else none
column_of _ = none

abbrev micros : ℕ → ℕ
micros s = s * 1_000_000

abbrev deadline : JobRoute → ℕ → Option ℕ
deadline route now = elim route.deadline_after_s [ none ↦ none | some s ↦ some (now + micros s) ]

-- The row of _INSERT_TEMPLATE; the columns that it does not name take the table's defaults.
abbrev pub new_job :
    JobRoute → ℕ → ℕ → (event_id dedupe aggregate : String) → ℕ → (payload trace : String) → Job
new_job route id now event_id dedupe aggregate version payload trace = record {
  id = id;
  event = record {
    event_id = event_id;
    event_type = route.event_type;
    dedupe_key = dedupe;
    aggregate_id = aggregate;
    aggregate_version = version;
    schema_version = 1;
    payload = payload;
    trace_id = trace;
  };
  kind = route.kind;
  status = queued;
  priority = route.priority;
  attempts = 0;
  max_attempts = route.max_attempts;
  available_at = now;
  deadline_at = deadline route now;
  lease_until = none;
  owner_id = none;
  generation_id = none;
  last_error_code = none;
  created_at = now;
  updated_at = now;
}

-- `ON CONFLICT (dedupe_key) DO NOTHING`
abbrev pub conflicts : String → List Job → Bool
conflicts dedupe t = any (λ j. same_text j.event.dedupe_key dedupe) t

-- The CHECKs of ai.jobs; those on `kind` and `status` hold of the values of their types.
unfoldable pub check_row : Job → Bool
check_row j =
    ltb 0 j.event.aggregate_version
    && j.event.schema_version == 1
    && ltb 0 j.max_attempts
    && leb j.attempts j.max_attempts
    && (not (is_running j.status)
        || (not (is_null j.owner_id)
            && not (is_null j.generation_id)
            && not (is_null j.lease_until)))

-- PRIMARY KEY (id) and UNIQUE (event_id), which ON CONFLICT does not name.
unfoldable pub is_taken : Job → List Job → Bool
is_taken j t = any (λ k. k.id == j.id || same_text k.event.event_id j.event.event_id) t

-- The statement: the checks go before the conflict, the other keys after it; what they refuse is an
-- exception, `none`.
abbrev pub insert_row : Job → List Job → Option (Option ℕ × List Job)
insert_row j t =
    if not (check_row j)
    then none
    else if conflicts j.event.dedupe_key t
    then some (none, t)
    else if is_taken j t
    then none
    else some (some j.id, j ∷ t)

-- `_insert`: the id of the new row, or `none` if the key was there already. The outer `none` is an
-- exception, raised while the parameters are built or by the database.
pub insert :
    (ℤ → String)
    → (Payload → String)
    → JobRoute
    → Payload
    → ℕ
    → ℕ
    → (event_id trace : String) → List Job
    → Option (Option ℕ × List Job)
unfolding build_dedupe_key get check_row is_taken
insert show dumps route p id now event_id trace t = elim (build_dedupe_key show route p) [
  | none ↦ none
  | some dedupe ↦ elim (get route.aggregate_fields.0 p) [
    | none ↦ none
    | some aggregate ↦ elim (column_of (int_of (get route.aggregate_fields.1 p))) [
      | none ↦ none
      | some version ↦
          insert_row
            (new_job route id now event_id dedupe (text_of show aggregate) version (dumps p) trace)
            t
    ]
  ]
]
