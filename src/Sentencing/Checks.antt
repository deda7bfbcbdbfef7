-- ===== src/Sentencing/Checks.antt =====
-- The join and the text rules of graphs/sentencing.py lower the measure and keep the invariant.
use geoji_agent.Base.{
  ℕ, zero, suc, ◌≡◌, refl, sym, subst, inl, inr, Bool, true, false, not, ◌&&◌, Option, none, some,
  List, arith, Bool-cases, ltb, is_null, if◌then◌else◌, any, length,
}
use geoji_agent.Budget.{writer as writer_node, node_timeout}
use geoji_agent.Texts.{
  Intensity, all, Source, template, WriterDraft, SentencingDecision, TextDraft, writer_draft_ok,
}
use geoji_agent.Rules.{apply_text_rules}
use geoji_agent.Sentencing.{
  Dossier, Case, Env, State, to_end, saved, is_regenerate, scope, may_repair, can_repair, is_source,
}
use geoji_agent.Sentencing.Drafts.{join, invalid_list, too_little, is_empty}
use geoji_agent.Sentencing.Assembly.{
  Assembled, assembled, all_template, refused, to_rewrite, assemble_raised, after_validation,
  deterministic_validate, assemble, assemble_rounds, conclude, bad_targets, replace, Replaced,
  replaced, not_replaced, go_on, or_raise, is_global, has_exactly, collect, body,
}
use geoji_agent.Sentencing.Run.{at_join, at_validate, next, settle}
use geoji_agent.Sentencing.Invariant.{IsJudged, IsOpen, measure, Follows}

branch :
    (P : Assembled → Type 0) (b : Bool) (x y : Assembled)
    → (b ≡ true → P x)
    → (b ≡ false → P y)
    → P (if b then x else y)
branch P true x y h k = h refl
branch P false x y h k = k refl

module _ (env : Env) (c : Case) where
  pub IsJudged-as :
      {st : State}
      → IsJudged env c st
      → IsJudged env c (record st { failure = none; route = to_end; finalize_outcome = some saved })
  IsJudged-as {st} j = record {
    draft = j.draft;
    report = j.report;
    has_draft = j.has_draft;
    has_report = j.has_report;
    no_issues = j.no_issues;
    has_hash = j.has_hash;
    decided = j.decided;
  }

  may_repair-count :
      (st : State) (clock : ℕ)
      → may_repair env c st clock ≡ true
      → (ltb st.repair_count env.immediate_repair_max ≡ true) × (is_regenerate c ≡ false)
  unfolding may_repair
  may_repair-count st clock h = (ground arith, ground arith)

  pub repair_invariant :
      (st : State)
      → IsOpen c st
      → (clock : ℕ) → may_repair env c st clock ≡ true
      → IsOpen c st
        × (ltb st.repair_count env.immediate_repair_max ≡ true)
        × (is_regenerate c ≡ false)
  repair_invariant st h clock e = let m = may_repair-count st clock e in (h, m.0, m.1)

  can_repair-count :
      (st : State) (clock : ℕ) (is : List Intensity)
      → can_repair env c st clock is ≡ true
      → ltb st.repair_count env.immediate_repair_max ≡ true
  unfolding can_repair may_repair
  can_repair-count st clock is h = ground arith

  pub join-Follows :
      (early late : ℕ) (st : State)
      → IsOpen c st
      → Follows env c at_join (measure env at_join st) (settle st (join env c early late st))
  unfolding Follows next join
  join-Follows early late st h =
      let repairs =
        not (is_empty (invalid_list c st.work))
        && may_repair env c st early
        && not (is_null (node_timeout writer_node env.budget st.expires late)) in
      elim (Bool-cases repairs) [
        | inl e ↦ rw e (omega arith, repair_invariant st h early (ground arith))
        | inr e ↦ elim (Bool-cases (too_little c st.work)) [
          | inl f ↦ rw (e, f) (omega arith, h.0)
          | inr f ↦ elim (Bool-cases (any (λ i. is_null (st.work.drafts i)) (scope c))) [
            | inl g ↦ rw (e, f, g) (omega arith, h.0)
            | inr g ↦ rw (e, f, g) (omega arith, h)
          ]
        ]
      ]

  -- What assemble promises: a rewrite only where one is allowed, and in a regeneration the sources
  -- that it was given.
  Promises : State → (Intensity → Option Source) → Assembled → Type 0
  Promises st sources (assembled drafts sources' d) = is_regenerate c ≡ true → sources' ≡ sources
  Promises st sources (all_template drafts sources') = Unit
  Promises st sources (refused code) = Unit
  Promises st sources (to_rewrite bad) =
      (ltb st.repair_count env.immediate_repair_max ≡ true) × (is_regenerate c ≡ false)
  Promises st sources assemble_raised = Unit

  conclude-Promises :
      (st : State) (is : List Intensity) (sources : Intensity → Option Source) (d : WriterDraft)
      → Promises st sources (conclude is sources d)
  unfolding conclude Promises
  conclude-Promises st is sources d = elim (Bool-cases (writer_draft_ok d)) [
    | inl e ↦ elim (Bool-cases (all (λ i. is_source template (sources i)) is)) [
      | inl f ↦ rw (e, f) tt
      | inr f ↦ rw (e, f) (λ y. refl)
    ]
    | inr e ↦ rw e tt
  ]

  -- Outside a regeneration the sources that were given do not matter.
  Promises-initial :
      (st : State) (s t : Intensity → Option Source) (a : Assembled)
      → is_regenerate c ≡ false
      → Promises st s a
      → Promises st t a
  unfolding Promises
  Promises-initial st s t (assembled drafts sources d) n h = λ y. cc
  Promises-initial st s t (all_template drafts sources) n h = tt
  Promises-initial st s t (refused code) n h = tt
  Promises-initial st s t (to_rewrite bad) n h = h
  Promises-initial st s t assemble_raised n h = tt

  go_on-Promises :
      (st : State) (rest : (Intensity → Option TextDraft) → (Intensity → Option Source) → Assembled)
      (sources : Intensity → Option Source) (r : Replaced)
      → is_regenerate c ≡ false
      → ((drafts' : Intensity → Option TextDraft) (sources' : Intensity → Option Source)
          → Promises st sources' (rest drafts' sources'))
      → Promises st sources (go_on rest r)
  unfolding Promises
  go_on-Promises st rest sources (replaced drafts' sources') n h =
      Promises-initial st sources' sources (rest drafts' sources') n (h drafts' sources')
  go_on-Promises st rest sources (not_replaced code) n h = tt

  assemble_rounds-Promises :
      (n : ℕ) (st : State) (d : Dossier) (clock : ℕ) (allow : Bool)
      (decision : Option SentencingDecision) (drafts : Intensity → Option TextDraft)
      (sources : Intensity → Option Source)
      → Promises st sources (assemble_rounds n env c st d clock allow decision drafts sources)
  unfolding Promises assemble_rounds
  assemble_rounds-Promises zero st d clock allow decision drafts sources = tt
  assemble_rounds-Promises (suc n) st d clock allow decision drafts sources =
      let targets = scope c in
      let rules =
        apply_text_rules env.lexicon d.label_map decision c.jury targets
          (body st.work.hints (collect drafts targets)) in
      let bad = bad_targets rules.issues targets rules.draft.texts in
      let P = Promises st sources in
      branch P (not (has_exactly drafts targets)) _ _ (λ e. tt)
        (λ e.
          branch P (any (is_global (length targets)) rules.issues) _ _ (λ f. tt)
            (λ f.
              branch P (is_empty bad) _ _ (λ g. conclude-Promises st targets sources rules.draft)
                (λ g.
                  branch P (is_regenerate c) _ _ (λ h. tt)
                    (λ h.
                      branch P (allow && can_repair env c st clock bad) _ _
                        (λ k. (can_repair-count st clock bad (ground arith), h))
                        (λ k.
                          go_on-Promises st (assemble_rounds n env c st d clock allow decision)
                            sources (replace env c decision bad drafts sources) h
                            (assemble_rounds-Promises n st d clock allow decision))))))

  or_raise-Promises :
      (st : State) (sources : Intensity → Option Source) (rest : Dossier → Assembled)
      (o : Option Dossier)
      → ((d : Dossier) → Promises st sources (rest d))
      → Promises st sources (or_raise rest o)
  unfolding Promises
  or_raise-Promises st sources rest none h = tt
  or_raise-Promises st sources rest (some d) h = h d

  after_validation-Follows :
      (a : Assembled) (st : State)
      → IsOpen c st
      → Promises st st.work.sources a
      → Follows env c at_validate (measure env at_validate st) (settle st (after_validation a st))
  unfolding Follows next Promises
  after_validation-Follows (assembled drafts sources d) st h p = (
    omega arith,
    (h.0, λ y i. subst (λ s. is_source template (s i) ≡ false) (sym (p y)) (h.1 y i)),
  )
  after_validation-Follows (all_template drafts sources) st h p = (omega arith, h.0)
  after_validation-Follows (refused code) st h p = (omega arith, h.0)
  after_validation-Follows (to_rewrite bad) st h p = (omega arith, (h, p.0, p.1))
  after_validation-Follows assemble_raised st h p = tt

  pub deterministic_validate-Follows :
      (clock : ℕ) (st : State)
      → IsOpen c st
      → Follows env c at_validate
          (measure env at_validate st)
          (settle st (deterministic_validate env c clock st))
  unfolding deterministic_validate assemble
  deterministic_validate-Follows clock st h = after_validation-Follows _ st h (
      or_raise-Promises st st.work.sources
        (λ d. assemble_rounds 2 env c st d clock true st.sentencing st.work.drafts st.work.sources)
        st.dossier
        (λ d.
          assemble_rounds-Promises 2 st d clock true st.sentencing st.work.drafts st.work.sources))
