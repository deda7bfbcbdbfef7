-- ===== src/Report/Tests.antt =====
-- Runs of the checks and the merging of a report, and the theorems at them.
use geoji_agent.Base.{◌≡◌, ◌↔◌, refl, true, false, some, List, [], ◌∷◌}
use geoji_agent.Texts.{Intensity, mild, hell}
use geoji_agent.Report.{
  Pass, stated, absent, ungrounded_claim, known, unlisted, Entry, Report, has_key,
  validate_evaluation, unless, check_issues, check_pass, entry_issues, missing_issues,
  outside_issues, merge_same_intensity, forgive_entry, missing_intensity, texts,
}
use geoji_agent.Report.Complete.{Passes, validate_evaluation_iff}
use geoji_agent.Report.Merging.{NoRepeat, passes_at, merge_same_intensity-passes}

abbrev entry : Intensity → Pass → Entry
entry i p = record { key = known i; passes = p; violations = []; problem_sentences = [] }

abbrev report : Report
report = record {
  policy_version = 2;
  sentence_check = some (record { passes = stated true; violations = [] });
  sentencing_reason_check = some (record { passes = stated true; violations = [] });
  texts = entry mild (stated true) ∷ [];
}

accepted : validate_evaluation (λ r. true) report (mild ∷ []) 2 ≡ []
unfolding validate_evaluation unless check_issues check_pass entry_issues missing_issues
    outside_issues
accepted = refl

incomplete :
    validate_evaluation (λ r. true) report (mild ∷ hell ∷ []) 2
    ≡ record { code = missing_intensity; place = texts } ∷ []
unfolding validate_evaluation unless check_issues check_pass entry_issues missing_issues
    outside_issues
incomplete = refl

-- One intensity twice, and one that no contract knows.
abbrev split : List Entry
split =
    entry hell (stated true)
    ∷ record { key = unlisted 9; passes = absent; violations = []; problem_sentences = [] }
    ∷ entry hell (stated false)
    ∷ []

merged :
    merge_same_intensity split
    ≡ entry hell (stated false)
      ∷ record { key = unlisted 9; passes = absent; violations = []; problem_sentences = [] }
      ∷ []
unfolding merge_same_intensity
merged = refl

abbrev doubted : Entry
doubted = record {
  key = known mild;
  passes = stated false;
  violations = record { code = ungrounded_claim; detail = 0 } ∷ [];
  problem_sentences = 4 ∷ [];
}

forgiven : forgive_entry doubted ≡ entry mild (stated true)
unfolding forgive_entry
forgiven = refl

validate_evaluation_iff_example :
    (validate_evaluation (λ r. true) report (mild ∷ []) 2 ≡ [])
    ↔ Passes (λ r. true) report (mild ∷ []) 2
validate_evaluation_iff_example = validate_evaluation_iff (λ r. true) report (mild ∷ []) 2

merge_same_intensity-passes_example :
    NoRepeat (merge_same_intensity split)
    × ((i : Intensity) → has_key (known i) (merge_same_intensity split) ≡ has_key (known i) split)
    × ((i : Intensity)
        → passes_at (known i) (merge_same_intensity split) ≡ passes_at (known i) split)
merge_same_intensity-passes_example = merge_same_intensity-passes split
