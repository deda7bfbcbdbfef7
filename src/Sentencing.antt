-- ===== src/Sentencing.antt =====
-- src/geoji_ai/graphs/sentencing.py: the graph that writes a verdict, as a state machine. This file has
-- its state, what is fixed in a run, and what the world answers while a node runs; the children have
-- the nodes, the edges and the theorems. Times are microseconds of the monotonic clock. The prompts,
-- the logs and the metrics are left out, and so is the saving of an output for a later attempt. The
-- fixture of templates, the hash of a draft and the contract's parsing of a report are parameters.
pub mod Start
pub mod Decision
pub mod Drafts
pub mod Assembly
pub mod Judge
pub mod Weighing
pub mod Loop
pub mod Finish
pub mod Run
pub mod Rounds
pub mod Invariant
pub mod Steps
pub mod Writing
pub mod Checks
pub mod Judging
pub mod Ends
pub mod Sentence
pub mod Tests
use geoji_agent.Base.{
  ℕ, suc, ◌+◌, ◌-◌, Bool, true, false, not, ◌&&◌, ◌||◌, Option, none, some, List, [], ◌∷◌, ltb, leb,
  if◌then◌else◌, is_null, map, filter,
}
use geoji_agent.Retry.{ErrorKind, ErrorCode}
use geoji_agent.Budget.{Node, Settings, node_timeout, remaining_s}
use geoji_agent.Texts.{
  Text, Intensity, same_intensity, member, all, Source, ai, template, same_source, opinion,
  AttackAngle, TextDraft, WriterDraft, SentencingDecision, Lexicon, card_ok,
}
use geoji_agent.Rules.{Jury, LabelMap, VerdictResult, guilty, innocent, agree, disagree}
use geoji_agent.Report.{Report, Entry}

pub data Mode : Type 0 where
  initial regenerate : Mode

pub data FactType : Type 0 where
  spend verdict rule rule_hit aggregate other_fact : FactType

-- `repeat_count` is the number that the search for the sentence of repeats finds in the text.
pub record Fact : Type 0 where
  pub label : ℕ
  pub fact_type : FactType
  pub repeat_count : Option ℕ

pub record Dossier : Type 0 where
  pub facts : List Fact
  pub label_map : LabelMap

-- The job and its snapshot, as far as the graph reads them; `requested` are the intensities of the
-- payload of a TEXT_RETRY job.
pub record Case : Type 0 where
  pub mode : Mode
  pub is_spent : Bool
  pub jury : Jury
  pub requested : Option (List Intensity)
  pub template_angle : AttackAngle

-- The settings and the parameters. `render` gives the headline and the lines of a template, or `none`
-- where it has none; the outer `none` of `reason_template` stands for TemplateUnavailable.
pub record Env : Type 0 where
  pub budget : Settings
  pub immediate_repair_max : ℕ
  pub inline_context_min_remaining : ℕ
  pub text_retry_timeout : ℕ
  pub policy_version : ℕ
  pub has_hell_model : Bool
  pub lexicon : Lexicon
  pub render : Option ℕ → Option (Text × List Text)
  pub reason_template : ℕ → Option (Option Text)
  pub draft_hash : WriterDraft → Option SentencingDecision → ℕ
  pub parses : Report → Bool

pub data SentencingSource : Type 0 where
  by_ai by_rule fixed : SentencingSource

pub data DossierSource : Type 0 where
  from_prep inline minimal : DossierSource

pub data Route : Type 0 where
  to_prep to_inline to_minimal to_validate to_repair to_evaluator to_finalize to_end unset : Route

pub data FinalizeOutcome : Type 0 where
  saved discarded : FinalizeOutcome

-- What the writer's calls leave in the state: `drafts`, `draft_sources`, `meme_hints`,
-- `writer_budget_skipped`, `writer_invalid` and the errors of the writer's records in `calls`.
pub record Drafting : Type 0 where
  pub drafts : Intensity → Option TextDraft
  pub sources : Intensity → Option Source
  pub hints : Option ℕ
  pub budget_skipped : Bool
  pub invalid : Intensity → Bool
  pub errors : List (Option ErrorKind)

-- An entry of `eval_kept`.
pub record Kept : Type 0 where
  pub intensity : Intensity
  pub text : TextDraft
  pub entry : Entry

pub record State : Type 0 where
  pub begun : Bool
  pub expires : ℕ
  pub dossier : Option Dossier
  pub dossier_source : Option DossierSource
  pub sentencing : Option SentencingDecision
  pub sentencing_source : Option SentencingSource
  pub work : Drafting
  pub writer_draft : Option WriterDraft
  pub evaluation : Option Report
  pub draft_hash : Option ℕ
  pub repair_count : ℕ
  pub repair_targets : List Intensity
  pub eval_kept : List Kept
  pub eval_round : ℕ
  pub failure : Option ErrorCode
  pub route : Route
  pub finalize_outcome : Option FinalizeOutcome

abbrev pub initial_state : State
initial_state = record {
  begun = false;
  expires = 0;
  dossier = none;
  dossier_source = none;
  sentencing = none;
  sentencing_source = none;
  work = record {
    drafts = λ i. none;
    sources = λ i. none;
    hints = none;
    budget_skipped = false;
    invalid = λ i. false;
    errors = [];
  };
  writer_draft = none;
  evaluation = none;
  draft_hash = none;
  repair_count = 0;
  repair_targets = [];
  eval_kept = [];
  eval_round = 0;
  failure = none;
  route = unset;
  finalize_outcome = none;
}

-- A node ends with a new state, or by EvidenceInvalidated, or by another exception.
pub data Turn : Type 0 where
  went : State → Turn
  invalidated raised : Turn

-- What the vendor does in one call, of those that the graph waits for.
pub data Answer (A : Type 0) : Type 0 where
  output : A → Answer A
  no_output : Answer A
  failed : ErrorKind → Answer A
  stale_evidence crashed : Answer A

-- A call and the time at which it gets its place in the semaphore.
pub record Call (A : Type 0) : Type 0 where
  pub clock : ℕ
  pub answer : Answer A

-- call_model; `none` if the node's budget is spent.
unfoldable pub call_model : {A : Type 0} → Env → Node → ℕ → Call A → Option (Answer A)
unfolding node_timeout
call_model env name expires c = elim (node_timeout name env.budget expires c.clock) [
  | none ↦ none
  | some timeout ↦ some c.answer
]

abbrev pub is_regenerate : Case → Bool
is_regenerate c = elim c.mode [ initial ↦ false | regenerate ↦ true ]

abbrev pub is_guilty : VerdictResult → Bool
is_guilty guilty = true
is_guilty innocent = false
is_guilty agree = false
is_guilty disagree = false

abbrev pub needs_sentence : Case → Bool
needs_sentence c = is_guilty c.jury.result && c.is_spent

-- _requested
abbrev pub requested_of : Case → Option (List Intensity)
requested_of c = elim c.mode [ initial ↦ none | regenerate ↦ c.requested ]

abbrev narrow : Option (List Intensity) → List Intensity → List Intensity
narrow none targets = targets
narrow (some wanted) targets = filter (λ i. member i wanted) targets

-- _scope
unfoldable pub scope : Case → List Intensity
scope c = narrow (requested_of c) c.jury.target_intensities

abbrev pub repair_min_remaining : ℕ
repair_min_remaining = 5_000_000

abbrev pub is_source : Source → Option Source → Bool
is_source s none = false
is_source s (some t) = same_source s t

-- The conditions that a repair shares: the mode, the count and the time that is left.
unfoldable pub may_repair : Env → Case → State → ℕ → Bool
unfolding remaining_s
may_repair env c st clock =
    not (is_regenerate c)
    && ltb st.repair_count env.immediate_repair_max
    && leb repair_min_remaining (remaining_s st.expires clock)

-- can_repair
unfoldable pub can_repair : Env → Case → State → ℕ → List Intensity → Bool
unfolding may_repair
can_repair env c st clock targets =
    may_repair env c st clock && all (λ i. is_source ai (st.work.sources i)) targets

-- A dict with one key written, or taken out.
abbrev pub put {ℓ} : {A : Type ℓ} → Intensity → A → (Intensity → A) → Intensity → A
put i v m j = if same_intensity i j then v else m j

-- template_text_draft: a card of the template's lines, if they fit one.
unfoldable pub template_for : Env → Case → Intensity → Option SentencingDecision → Option TextDraft
unfolding card_ok
template_for env c i decision =
    let sentence : Option ℕ = elim decision [ none ↦ none | some d ↦ some d.sentence ] in
    elim (env.render sentence) [
      | none ↦ none
      | some (headline, lines) ↦
          let t : TextDraft = record {
            intensity = i;
            headline = headline;
            statement = map (λ l. record { text = l; kind = opinion; evidence_labels = [] }) lines;
            attack_angle = c.template_angle;
            source = template;
            extra = 0;
          } in
          if is_guilty c.jury.result && is_null sentence
          then none
          else if card_ok t
          then some t
          else none
    ]
