-- ===== src/Report.antt =====
-- The report of the evaluator: its checks in src/geoji_ai/domain/validation.py, and its merging, the
-- codes that do not reject and the passing of templates in src/geoji_ai/graphs/sentencing.py. What a
-- model returns may lack a field or give it another type; items that are no objects, which the
-- source drops, are left out. Texts and the details of a violation are numbers; the parsing by the
-- contract's class is a parameter.
pub mod Complete
pub mod Merging
pub mod Tests
use geoji_agent.Base.{
  ℕ, zero, suc, Bool, true, false, not, ◌&&◌, ◌||◌, Option, none, some, List, [], ◌∷◌, ◌++◌, map,
  ◌==◌, if◌then◌else◌, length, any, filter,
}
use geoji_agent.Texts.{Intensity, same_intensity, member, all, TextDraft, Source, ai, template}

-- The value of `pass`.
pub data Pass : Type 0 where
  absent not_boolean : Pass
  stated : Bool → Pass

pub data ViolationCode : Type 0 where
  ungrounded_claim : ViolationCode
  other_violation : ℕ → ViolationCode

pub record Violation : Type 0 where
  pub code : ViolationCode
  pub detail : ℕ

pub record Check : Type 0 where
  pub passes : Pass
  pub violations : List Violation

-- An intensity, or the text that stands in its place.
pub data Key : Type 0 where
  known : Intensity → Key
  unlisted : ℕ → Key

pub record Entry : Type 0 where
  pub key : Key
  pub passes : Pass
  pub violations : List Violation
  pub problem_sentences : List ℕ

-- A check is `none` where it is no object.
pub record Report : Type 0 where
  pub policy_version : ℕ
  pub sentence_check : Option Check
  pub sentencing_reason_check : Option Check
  pub texts : List Entry

pub data IssueCode : Type 0 where
  invalid_schema policy_version_mismatch missing_check pass_not_boolean check_failed
        duplicate_intensity missing_intensity intensity_set_mismatch :
      IssueCode

-- The path of an issue, as far as the graph reads it.
pub data Place : Type 0 where
  whole policy sentence_check reason_check texts : Place
  one_text : ℕ → Place

pub record Issue : Type 0 where
  pub code : IssueCode
  pub place : Place

abbrev pub same_key : Key → Key → Bool
same_key (known i) (known j) = same_intensity i j
same_key (known i) (unlisted n) = false
same_key (unlisted m) (known j) = false
same_key (unlisted m) (unlisted n) = m == n

abbrev pub has_key : Key → List Entry → Bool
has_key k [] = false
has_key k (e ∷ es) = same_key k e.key || has_key k es

abbrev pub is_expected : List Intensity → Key → Bool
is_expected targets (known i) = member i targets
is_expected targets (unlisted n) = false

-- An issue unless the test holds.
unfoldable pub unless : Bool → IssueCode → Place → List Issue
unless true c p = []
unless false c p = record { code = c; place = p } ∷ []

-- _check_pass
unfoldable pub check_pass : Pass → Place → List Issue
check_pass absent p = record { code = missing_check; place = p } ∷ []
check_pass not_boolean p = record { code = pass_not_boolean; place = p } ∷ []
check_pass (stated true) p = []
check_pass (stated false) p = record { code = check_failed; place = p } ∷ []

unfoldable pub check_issues : Option Check → Place → List Issue
unfolding check_pass
check_issues none p = record { code = missing_check; place = p } ∷ []
check_issues (some c) p = check_pass c.passes p

unfoldable pub entry_issues : List Key → ℕ → List Entry → List Issue
unfolding unless check_pass
entry_issues seen n [] = []
entry_issues seen n (e ∷ es) =
    unless (not (any (same_key e.key) seen)) duplicate_intensity (one_text n)
    ++ (check_pass e.passes (one_text n) ++ entry_issues (e.key ∷ seen) (suc n) es)

unfoldable pub missing_issues : List Intensity → List Entry → List Issue
unfolding unless
missing_issues [] es = []
missing_issues (i ∷ is) es =
    unless (has_key (known i) es) missing_intensity texts ++ missing_issues is es

unfoldable pub outside_issues : List Intensity → List Entry → List Issue
unfolding unless
outside_issues targets [] = []
outside_issues targets (e ∷ es) =
    unless (is_expected targets e.key) intensity_set_mismatch texts ++ outside_issues targets es

-- `parses` is EvaluationReport.model_validate, as a test.
unfoldable pub validate_evaluation : (Report → Bool) → Report → List Intensity → ℕ → List Issue
unfolding unless check_issues entry_issues missing_issues outside_issues
validate_evaluation parses r targets policy_version =
    unless (parses r) invalid_schema whole
    ++ (unless (r.policy_version == policy_version) policy_version_mismatch policy
        ++ (check_issues r.sentence_check sentence_check
            ++ (check_issues r.sentencing_reason_check reason_check
                ++ (entry_issues [] 0 r.texts
                    ++ (missing_issues targets r.texts ++ outside_issues targets r.texts)))))

abbrev pub is_advisory : ViolationCode → Bool
is_advisory ungrounded_claim = true
is_advisory (other_violation n) = false

abbrev same_code : ViolationCode → ViolationCode → Bool
same_code ungrounded_claim ungrounded_claim = true
same_code (other_violation m) (other_violation n) = m == n
same_code ungrounded_claim (other_violation n) = false
same_code (other_violation m) ungrounded_claim = false

abbrev same_violation : Violation → Violation → Bool
same_violation v w = same_code v.code w.code && v.detail == w.detail

-- _dedup_dicts and dict.fromkeys: the first of each group of equal items.
abbrev dedup {ℓ} : {A : Type ℓ} → (A → A → Bool) → List A → List A → List A
dedup same seen [] = []
dedup same seen (x ∷ xs) =
    let rest = dedup same (x ∷ seen) xs in if any (same x) seen then rest else x ∷ rest

-- A value that is absent counts as one that is no boolean, since the sum is written back.
abbrev pub both_pass : Pass → Pass → Pass
both_pass (stated a) (stated b) = stated (a && b)
both_pass (stated a) absent = not_boolean
both_pass (stated a) not_boolean = not_boolean
both_pass absent q = not_boolean
both_pass not_boolean q = not_boolean

abbrev pub merge_entry : Entry → Entry → Entry
merge_entry a b = record a {
  passes = both_pass a.passes b.passes;
  violations = dedup same_violation [] (a.violations ++ b.violations);
  problem_sentences = dedup (λ m n. m == n) [] (a.problem_sentences ++ b.problem_sentences);
}

-- Into the entry with its key, or behind the others.
abbrev pub absorb : Entry → List Entry → List Entry
absorb e [] = e ∷ []
absorb e (m ∷ ms) =
    let rest = absorb e ms in if same_key e.key m.key then merge_entry m e ∷ ms else m ∷ rest

abbrev pub merge_onto : List Entry → List Entry → List Entry
merge_onto done [] = done
merge_onto done (e ∷ es) = merge_onto (absorb e done) es

abbrev pub is_listed : Key → Bool
is_listed (known i) = true
is_listed (unlisted n) = false

abbrev pub is_known : Entry → Bool
is_known e = is_listed e.key

-- _merge_same_intensity; entries of no known intensity stay as they are, last.
unfoldable pub merge_same_intensity : List Entry → List Entry
merge_same_intensity es = merge_onto [] (filter is_known es) ++ filter (λ e. not (is_known e)) es

-- One of the two checks, in all the outputs.
abbrev merge_checks : List (Option Check) → Option Check
merge_checks [] = some (record { passes = stated true; violations = [] })
merge_checks (none ∷ cs) = none
merge_checks (some c ∷ cs) = elim (merge_checks cs) [
  | none ↦ none
  | some d ↦ elim (both_pass c.passes d.passes) [
    | absent ↦ some (record { passes = not_boolean; violations = [] })
    | not_boolean ↦ some (record { passes = not_boolean; violations = [] })
    | stated b ↦ some (record { passes = stated b; violations = c.violations ++ d.violations })
  ]
]

abbrev all_texts : List Report → List Entry
all_texts [] = []
all_texts (r ∷ rs) = r.texts ++ all_texts rs

-- _merge_reports. The version of the policy is the graph's to fill in.
unfoldable pub merge_reports : Report → List Report → Report
merge_reports r [] = r
merge_reports r (s ∷ rs) = record r {
  sentence_check = merge_checks (map (λ (o : Report). o.sentence_check) (r ∷ s ∷ rs));
  sentencing_reason_check =
      merge_checks (map (λ (o : Report). o.sentencing_reason_check) (r ∷ s ∷ rs));
  texts = all_texts (r ∷ s ∷ rs);
}

abbrev pub kept_violations : List Violation → List Violation
kept_violations = filter (λ (v : Violation). not (is_advisory v.code))

abbrev pub is_none {ℓ} : {A : Type ℓ} → List A → Bool
is_none [] = true
is_none (x ∷ xs) = false

-- _forgive_advisory on one check: the new value of `pass`, and whether it was turned.
abbrev pub is_forgiven : Pass → List Violation → Bool
is_forgiven (stated false) vs = not (is_none vs) && is_none (kept_violations vs)
is_forgiven (stated true) vs = false
is_forgiven absent vs = false
is_forgiven not_boolean vs = false

abbrev pub is_rejected : Pass → Bool
is_rejected (stated false) = true
is_rejected (stated true) = false
is_rejected absent = false
is_rejected not_boolean = false

unfoldable pub forgive_check : Check → Check
forgive_check c = record c {
  passes = if is_forgiven c.passes c.violations then stated true else c.passes;
  violations = if is_rejected c.passes then kept_violations c.violations else c.violations;
}

unfoldable pub forgive_entry : Entry → Entry
forgive_entry e = record e {
  passes = if is_forgiven e.passes e.violations then stated true else e.passes;
  violations = if is_rejected e.passes then kept_violations e.violations else e.violations;
  problem_sentences = if is_forgiven e.passes e.violations then [] else e.problem_sentences;
}

abbrev pub is_template : Key → List TextDraft → Bool
is_template k [] = false
is_template k (t ∷ ts) =
    same_key k (known t.intensity) && elim t.source [ ai ↦ false | template ↦ true ]
    || is_template k ts

-- _pass_template_entries on one entry.
unfoldable pub pass_template_entry : List TextDraft → Entry → Entry
pass_template_entry draft e =
    if is_template e.key draft
    then record e { passes = stated true; violations = []; problem_sentences = [] }
    else e
