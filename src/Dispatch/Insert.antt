-- ===== src/Dispatch/Insert.antt =====
-- The rows that JOB_ROUTES of dispatch.py puts into the queue, and the slot that serves them.
use text.Mathlib.Text.{◌==◌ as same_text}
use text.Mathlib.TextPositions.{eq_refl}
use geoji_agent.Base.{
  ℕ, ◌<◌, ◌≤◌, ◌≢◌, ◌==◌, ◌||◌, ◌&&◌, ltb, is_null, ap, ◌∙◌, ◌≡◌, refl, ◌⊎◌, inl, inr, String, true,
  false, Option, none, some, List, [], ◌∷◌, arith, any, All, All-Among, Among, sym, subst,
  Option-cases,
}
use geoji_agent.Base.Int.{ℤ, pos, negsuc}
use geoji_agent.Jobs.{
  Job, running, JobKind, prepare, sentence, text_retry, retain, jury_vote, same_kind, claimable,
}
use geoji_agent.Jobs.Invariant.{RowOk}
use geoji_agent.Jobs.Live.{IsRouted}
use geoji_agent.Dispatch.{
  JobRoute, Payload, Value, Slot, sentence_slot, prepare_slot, background_slot, jury_slot,
  slot_kinds, job_routes, new_job, conflicts, check_row, bigint_end, int_of, column_of, text_of,
  get, build_dedupe_key, insert,
}

pub record RouteOk (r : JobRoute) : Type 0 where
  tried : 0 < r.max_attempts
  bounded : (r.kind ≡ sentence) ⊎ ((r.deadline_after_s ≡ none) ⊎ (r.max_attempts ≡ 1))
  ahead : (s : ℕ) → r.deadline_after_s ≡ some s → 0 < s

-- The checks of the table on a row: its CHECKs, and the range of its bigint column.
pub record IsChecked (j : Job) : Type 0 where
  pub version : 0 < j.event.aggregate_version
  pub in_range : j.event.aggregate_version < bigint_end
  pub schema : j.event.schema_version ≡ 1
  pub tries : 0 < j.max_attempts
  pub counted : j.attempts ≤ j.max_attempts
  pub leased :
      j.status ≡ running
      → (is_null j.owner_id ≡ false)
        × (is_null j.generation_id ≡ false)
        × (is_null j.lease_until ≡ false)

-- It shares none of the three keys with another row.
abbrev pub IsApart : Job → Job → Type 0
IsApart j k =
    (k.id ≢ j.id)
    × (k.event.event_id ≢ j.event.event_id)
    × (k.event.dedupe_key ≢ j.event.dedupe_key)

-- What a successful insert has put into the table.
pub record IsInserted (r : JobRoute) (id now : ℕ) (t u : List Job) : Type 0 where
  pub job : Job
  pub grown : u ≡ job ∷ t
  pub named : job.id ≡ id
  pub kind : job.kind ≡ r.kind
  pub checked : IsChecked job
  pub apart : All (IsApart job) t
  pub shaped : RowOk job
  pub routed : IsRouted job
  pub ready : claimable (r.kind ∷ []) now job ≡ true

rows-IsApart :
    (j : Job) (t : List Job)
    → conflicts j.event.dedupe_key t ≡ false
    → any (λ k. k.id == j.id || same_text k.event.event_id j.event.event_id) t ≡ false
    → All (IsApart j) t
rows-IsApart j [] h f = tt
rows-IsApart j (k ∷ t) h f = (
  (
    λ e. ground (arith, h, f, e),
    λ e.
        let same : same_text k.event.event_id j.event.event_id ≡ true =
          ap (same_text k.event.event_id) (sym e) ∙ eq_refl k.event.event_id in
        ground (arith, f, same),
    λ e.
        let same : same_text k.event.dedupe_key j.event.dedupe_key ≡ true =
          ap (same_text k.event.dedupe_key) (sym e) ∙ eq_refl k.event.dedupe_key in
        ground (arith, h, same),
  ),
  rows-IsApart j t (ground (arith, h)) (ground (arith, f)),
)

in_column : (o : Option ℤ) (n : ℕ) → column_of o ≡ some n → n < bigint_end
in_column none n e = cc
in_column (some (negsuc m)) n e = cc
in_column (some (pos m)) n e = ground (arith, e)

module _ (r : JobRoute) (ok : RouteOk r) (id now : ℕ) (t : List Job) where
  new_job-IsInserted :
      (event_id dedupe aggregate : String) (version : ℕ) (payload trace : String)
      → 0 < version
      → version < bigint_end
      → conflicts dedupe t ≡ false
      → any (λ k. k.id == id || same_text k.event.event_id event_id) t ≡ false
      → IsInserted r id now t (new_job r id now event_id dedupe aggregate version payload trace ∷ t)
  unfolding claimable
  new_job-IsInserted event_id dedupe aggregate version payload trace some_version fits new free =
      record {
        job = new_job r id now event_id dedupe aggregate version payload trace;
        grown = refl;
        named = refl;
        kind = refl;
        checked = record {
          version = some_version;
          in_range = fits;
          schema = refl;
          tries = ok.tried;
          counted = omega arith;
          leased = λ e. cc;
        };
        apart =
            rows-IsApart (new_job r id now event_id dedupe aggregate version payload trace) t new
              free;
        shaped = record { counted = omega arith; shaped = (refl, refl, refl) };
        routed = ground (arith, ok.bounded);
        ready = ground (arith, ok.tried, deadline_ahead r.deadline_after_s ok.ahead);
      }
    where
      deadline_ahead :
          (o : Option ℕ)
          → ((s : ℕ) → o ≡ some s → 0 < s)
          → (o ≡ none) ⊎ ((s : ℕ) × (o ≡ some s) × (0 < s))
      deadline_ahead none h = inl refl
      deadline_ahead (some s) h = inr (s, refl, h s refl)

module _ (show : ℤ → String) (dumps : Payload → String) (r : JobRoute) (p : Payload) where
  -- What a successful insert has computed on its way.
  record Inserted (id now : ℕ) (event_id trace : String) (t u : List Job) : Type 0 where
    dedupe : String
    aggregate : Value
    version : ℕ
    has_key : build_dedupe_key show r p ≡ some dedupe
    has_aggregate : get r.aggregate_fields.0 p ≡ some aggregate
    has_version : column_of (int_of (get r.aggregate_fields.1 p)) ≡ some version
    fits : 0 < version
    tried : 0 < r.max_attempts
    is_new : conflicts dedupe t ≡ false
    is_free : any (λ k. k.id == id || same_text k.event.event_id event_id) t ≡ false
    grown :
        u ≡ new_job r id now event_id dedupe (text_of show aggregate) version (dumps p) trace ∷ t

  insert-Inserted :
      (id now : ℕ) (event_id trace : String) (t : List Job) (i : ℕ) (u : List Job)
      → insert show dumps r p id now event_id trace t ≡ some (some i, u)
      → Inserted id now event_id trace t u
  unfolding insert
  insert-Inserted id now event_id trace t i u e = elim (Option-cases (build_dedupe_key show r p)) [
    | inl no_key ↦ ground arith
    | inr (dedupe, k) ↦ elim (Option-cases (get r.aggregate_fields.0 p)) [
      | inl no_aggregate ↦ ground arith
      | inr (a, ka) ↦ elim (Option-cases (column_of (int_of (get r.aggregate_fields.1 p)))) [
        | inl no_version ↦ ground arith
        | inr (v, kv) ↦ record {
          dedupe = dedupe;
          aggregate = a;
          version = v;
          has_key = k;
          has_aggregate = ka;
          has_version = kv;
          fits = ground arith;
          tried = ground arith;
          is_new = ground arith;
          is_free = ground arith;
          grown = ground arith;
        }
      ]
    ]
  ]

  insert_one :
      (ok : RouteOk r) (id now : ℕ) (event_id trace : String) (t : List Job) (i : ℕ) (u : List Job)
      → insert show dumps r p id now event_id trace t ≡ some (some i, u)
      → IsInserted r id now t u
  insert_one ok id now event_id trace t i u e =
      let d = insert-Inserted id now event_id trace t i u e in
      subst (IsInserted r id now t) (sym d.grown) (
        new_job-IsInserted r ok id now t event_id d.dedupe (text_of show d.aggregate) d.version
          (dumps p) trace d.fits
          (in_column (int_of (get r.aggregate_fields.1 p)) d.version d.has_version) d.is_new
          d.is_free)

  -- The key makes the insert idempotent: the same route and payload again, under fresh ids and at any
  -- time, adds nothing.
  pub insert_twice :
      (id now id' now' : ℕ) (event_id trace event_id' trace' : String) (t u : List Job) (i : ℕ)
      → insert show dumps r p id now event_id trace t ≡ some (some i, u)
      → insert show dumps r p id' now' event_id' trace' u ≡ some (none, u)
  unfolding insert check_row
  insert_twice id now id' now' event_id trace event_id' trace' t u i e =
      let d = insert-Inserted id now event_id trace t i u e in
      let known : conflicts d.dedupe u ≡ true = rw d.grown (ground (arith, eq_refl d.dedupe)) in
      let passes : (ltb 0 d.version && ltb 0 r.max_attempts) ≡ true =
        ground (arith, d.fits, d.tried) in
      let passed : check_row (
            new_job r id' now' event_id' d.dedupe (text_of show d.aggregate) d.version (dumps p)
              trace')
          ≡ true =
        ground (arith, passes) in
      rw (d.has_key, insert, d.has_aggregate, d.has_version, known, passed) refl

-- An insert from a route of JOB_ROUTES that adds a row adds one that satisfies the table's checks (its
-- version is positive and fits its column, its schema version is 1, its attempts are within its
-- maximum), that shares no id, event id or dedupe key with another row, whose deadline, if any, stands
-- on a SENTENCE or on a single attempt, and that a worker of its kind can claim at once.
pub insert-IsInserted :
    (show : ℤ → String) (dumps : Payload → String) (r : JobRoute) (p : Payload) (id now : ℕ)
    (event_id trace : String) (t : List Job) (i : ℕ) (u : List Job)
    → Among r job_routes
    → insert show dumps r p id now event_id trace t ≡ some (some i, u)
    → IsInserted r id now t u
insert-IsInserted show dumps r p id now event_id trace t i u m =
    insert_one show dumps r p (All-Among RouteOk r job_routes routes_ok m) id now event_id trace t i
      u
  where
    routes_ok : All RouteOk job_routes
    routes_ok = ground arith

-- Every kind of job is claimed by exactly one slot.
pub slot_kinds_partition :
    (k : JobKind)
    → (s : Slot) × (any (same_kind k) (slot_kinds s) ≡ true)
      × ((s' : Slot) → any (same_kind k) (slot_kinds s') ≡ true → s' ≡ s)
unfolding slot_kinds
slot_kinds_partition prepare = (prepare_slot, refl, λ s' h. ground arith)
slot_kinds_partition sentence = (sentence_slot, refl, λ s' h. ground arith)
slot_kinds_partition text_retry = (background_slot, refl, λ s' h. ground arith)
slot_kinds_partition retain = (background_slot, refl, λ s' h. ground arith)
slot_kinds_partition jury_vote = (jury_slot, refl, λ s' h. ground arith)
