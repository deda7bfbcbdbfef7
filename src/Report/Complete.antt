-- ===== src/Report/Complete.antt =====
-- validate_evaluation against a description of a report that passes.
use geoji_agent.Base.{
  ℕ, suc, ◌≡◌, ◌↔◌, refl, Bool, true, false, not, Option, none, some, List, [], ◌∷◌, ◌++◌, arith,
  All, append_nil, any, ==_iff, ◌==◌,
}
use geoji_agent.Texts.{Intensity}
use geoji_agent.Report.{
  Pass, absent, not_boolean, stated, Check, Key, known, Entry, Report, IssueCode, Place, texts,
  same_key, has_key, is_expected, unless, check_pass, check_issues, entry_issues, missing_issues,
  outside_issues, validate_evaluation, duplicate_intensity, one_text, missing_intensity,
  intensity_set_mismatch, invalid_schema, whole, policy_version_mismatch, policy, sentence_check,
  reason_check,
}

abbrev pub CheckPasses : Option Check → Type 0
CheckPasses c = (k : Check) × (c ≡ some k) × (k.passes ≡ stated true)

-- The entries are of keys that are neither among the given ones nor twice among themselves.
abbrev pub IsDistinct : List Key → List Entry → Type 0
IsDistinct seen [] = Unit
IsDistinct seen (e ∷ es) = (any (same_key e.key) seen ≡ false) × IsDistinct (e.key ∷ seen) es

abbrev pub IsPassing : Entry → Type 0
IsPassing e = e.passes ≡ stated true

-- A report that passes: it parses, it is of the policy, both checks pass, and it has one entry for
-- each target and no other, which passes.
pub record Passes (parses : Report → Bool) (r : Report) (targets : List Intensity) (version : ℕ)
    : Type 0 where
  pub parsed : parses r ≡ true
  pub of_policy : r.policy_version ≡ version
  pub sentence_passes : CheckPasses r.sentence_check
  pub reason_passes : CheckPasses r.sentencing_reason_check
  pub distinct : IsDistinct [] r.texts
  pub passing : All IsPassing r.texts
  pub answered : All (λ i. has_key (known i) r.texts ≡ true) targets
  pub expected : All (λ (e : Entry). is_expected targets e.key ≡ true) r.texts

unless_iff : (b : Bool) (c : IssueCode) (p : Place) → (unless b c p ≡ []) ↔ (b ≡ true)
unfolding unless
unless_iff true c p = (λ e. refl, λ e. refl)
unless_iff false c p = (λ e. cc, λ e. cc)

check_pass_iff : (q : Pass) (p : Place) → (check_pass q p ≡ []) ↔ (q ≡ stated true)
unfolding check_pass
check_pass_iff absent p = (λ e. cc, λ e. cc)
check_pass_iff not_boolean p = (λ e. cc, λ e. cc)
check_pass_iff (stated true) p = (λ e. refl, λ e. refl)
check_pass_iff (stated false) p = (λ e. cc, λ e. cc)

check_issues_iff : (c : Option Check) (p : Place) → (check_issues c p ≡ []) ↔ CheckPasses c
unfolding check_issues
check_issues_iff none p = (λ e. cc, λ h. cc h.1)
check_issues_iff (some c) p = (
  λ e. (c, refl, (check_pass_iff c.passes p).0 e),
  λ h. (check_pass_iff c.passes p).1 (ground (arith, h.1, h.2)),
)

nil_append {ℓ} : {A : Type ℓ} (xs ys : List A) → xs ≡ [] → ys ≡ [] → xs ++ ys ≡ []
nil_append xs ys e f = rw (e, f) refl

entry_issues_iff :
    (seen : List Key) (n : ℕ) (es : List Entry)
    → (entry_issues seen n es ≡ []) ↔ (IsDistinct seen es × All IsPassing es)
unfolding entry_issues
entry_issues_iff seen n [] = (λ e. (tt, tt), λ h. refl)
entry_issues_iff seen n (e ∷ es) =
    let fresh = unless_iff (not (any (same_key e.key) seen)) duplicate_intensity (one_text n) in
    let here = check_pass_iff e.passes (one_text n) in
    let rest = entry_issues_iff (e.key ∷ seen) (suc n) es in
    (
      λ q.
          let a =
            append_nil (unless (not (any (same_key e.key) seen)) duplicate_intensity (one_text n))
              (check_pass e.passes (one_text n) ++ entry_issues (e.key ∷ seen) (suc n) es) q in
          let b =
            append_nil (check_pass e.passes (one_text n)) (entry_issues (e.key ∷ seen) (suc n) es)
              a.1 in
          let f : any (same_key e.key) seen ≡ false = ground (arith, fresh.0 a.0) in
          let r = rest.0 b.1 in ((f, r.0), (here.0 b.0, r.1)),
      λ h.
          let f : not (any (same_key e.key) seen) ≡ true = ground (arith, h.0.0) in
          nil_append _ _ (fresh.1 f) (nil_append _ _ (here.1 h.1.0) (rest.1 (h.0.1, h.1.1))),
    )

missing_issues_iff :
    (is : List Intensity) (es : List Entry)
    → (missing_issues is es ≡ []) ↔ All (λ i. has_key (known i) es ≡ true) is
unfolding missing_issues
missing_issues_iff [] es = (λ e. tt, λ h. refl)
missing_issues_iff (i ∷ is) es =
    let here = unless_iff (has_key (known i) es) missing_intensity texts in
    let rest = missing_issues_iff is es in
    (
      λ q.
          let a =
            append_nil (unless (has_key (known i) es) missing_intensity texts)
              (missing_issues is es) q in
          (here.0 a.0, rest.0 a.1),
      λ h. nil_append _ _ (here.1 h.0) (rest.1 h.1),
    )

outside_issues_iff :
    (targets : List Intensity) (es : List Entry)
    → (outside_issues targets es ≡ []) ↔ All (λ (e : Entry). is_expected targets e.key ≡ true) es
unfolding outside_issues
outside_issues_iff targets [] = (λ e. tt, λ h. refl)
outside_issues_iff targets (e ∷ es) =
    let here = unless_iff (is_expected targets e.key) intensity_set_mismatch texts in
    let rest = outside_issues_iff targets es in
    (
      λ q.
          let a =
            append_nil (unless (is_expected targets e.key) intensity_set_mismatch texts)
              (outside_issues targets es) q in
          (here.0 a.0, rest.0 a.1),
      λ h. nil_append _ _ (here.1 h.0) (rest.1 h.1),
    )

-- The list of issues is empty exactly for a report that parses, is of the policy, whose two checks
-- pass, and that has one entry for each target and no other, all of which pass.
pub validate_evaluation_iff :
    (parses : Report → Bool) (r : Report) (targets : List Intensity) (version : ℕ)
    → (validate_evaluation parses r targets version ≡ []) ↔ Passes parses r targets version
unfolding validate_evaluation
validate_evaluation_iff parses r targets version =
    let parsed = unless_iff (parses r) invalid_schema whole in
    let of_policy = unless_iff (r.policy_version == version) policy_version_mismatch policy in
    let sentence_passes = check_issues_iff r.sentence_check sentence_check in
    let reason_passes = check_issues_iff r.sentencing_reason_check reason_check in
    let entries = entry_issues_iff [] 0 r.texts in
    let answered = missing_issues_iff targets r.texts in
    let expected = outside_issues_iff targets r.texts in
    (
      λ q.
          let a = append_nil _ _ q in
          let b = append_nil _ _ a.1 in
          let c = append_nil _ _ b.1 in
          let d = append_nil _ _ c.1 in
          let e = append_nil _ _ d.1 in
          let f = append_nil _ _ e.1 in
          let h = entries.0 e.0 in
          record {
            parsed = parsed.0 a.0;
            of_policy = (==_iff r.policy_version version).0 (of_policy.0 b.0);
            sentence_passes = sentence_passes.0 c.0;
            reason_passes = reason_passes.0 d.0;
            distinct = h.0;
            passing = h.1;
            answered = answered.0 f.0;
            expected = expected.0 f.1;
          },
      λ h. nil_append _ _ (parsed.1 h.parsed) (
          nil_append _ _ (of_policy.1 ((==_iff r.policy_version version).1 h.of_policy)) (
            nil_append _ _ (sentence_passes.1 h.sentence_passes) (
              nil_append _ _ (reason_passes.1 h.reason_passes) (
                nil_append _ _ (entries.1 (h.distinct, h.passing))
                  (nil_append _ _ (answered.1 h.answered) (expected.1 h.expected)))))),
    )
