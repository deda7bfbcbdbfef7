-- ===== src/Sentencing/Rounds.antt =====
-- What holds of the evaluator's rounds in graphs/sentencing.py: a property of the loop's end, from one
-- of each round.
use geoji_agent.Base.{
  ℕ, zero, suc, ◌+◌, ◌≤◌, ◌≡◌, refl, inl, inr, Bool, true, false, not, ◌||◌, eq_bool, is_null,
  Option, List, [], ◌∷◌, arith, Bool-cases, ltb, any,
}
use geoji_agent.Retry.{eval_failed}
use geoji_agent.Texts.{SentencingDecision, Intensity}
use geoji_agent.Report.{Report, Issue, validate_evaluation}
use geoji_agent.Sentencing.{
  Kept, Case, Env, State, scope, may_repair, is_regenerate, needs_sentence,
}
use geoji_agent.Sentencing.Assembly.{
  Assembled, assembled, all_template, refused, to_rewrite, assemble_raised, assemble, Replaced,
  replaced, not_replaced,
}
use geoji_agent.Sentencing.Judge.{
  Evaluated, evaluated, skipped, errors, evaluate_invalidated, evaluate_raised, evaluate,
  JudgeCalls,
}
use geoji_agent.Sentencing.Weighing.{
  Reasoned, reasoned, no_reason, reason_raised, Bench, is_global, is_reason, new_reason,
  round_report, round_scope,
}
use geoji_agent.Sentencing.Loop.{
  Verdict, passed, repair_of, rejected_with, no_budget, verdict_invalidated, verdict_raised, Round,
  ends, again, after_assemble, after_replace, wants_repair, mend_texts, after_reason, weigh,
  after_evaluate, judge_round, RoundInput, is_zero, run_rounds, no_issue, continue, eval_rounds,
}

abbrev pub RoundHolds : (Verdict → Type 0) → (Bench → Type 0) → Round → Type 0
RoundHolds P Q (ends v) = P v
RoundHolds P Q (again b) = Q b

continue-Holds :
    (P : Verdict → Type 0) (Q : Bench → Type 0) (rest : Bench → Verdict × ℕ) (n m : ℕ) (r : Round)
    → RoundHolds P Q r
    → suc n ≤ m
    → ((b : Bench) → Q b → P (rest b).0 × ((rest b).1 ≤ m))
    → P (continue rest n r).0 × ((continue rest n r).1 ≤ m)
continue-Holds P Q rest n m (ends v) h le k = (h, le)
continue-Holds P Q rest n m (again b) h le k = k b h

-- The rounds keep what each of them keeps, and there are at most as many as are left.
pub run_rounds-Holds :
    (P : Verdict → Type 0) (Q : Bench → Type 0) (env : Env) (c : Case) (st : State)
    → P (rejected_with eval_failed)
    → ((clock : ℕ) (is_last : Bool) (calls : JudgeCalls) (b : Bench)
        → Q b
        → RoundHolds P Q (judge_round env c st clock is_last calls b))
    → (left : ℕ) (inputs : ℕ → RoundInput) (n : ℕ) (b : Bench) → Q b
    → P (run_rounds left env c st inputs n b).0
      × ((run_rounds left env c st inputs n b).1 ≤ left + n)
unfolding run_rounds
run_rounds-Holds P Q env c st at_end step zero inputs n b q = (at_end, omega arith)
run_rounds-Holds P Q env c st at_end step (suc left) inputs n b q =
    continue-Holds P Q (run_rounds left env c st inputs (suc n)) n (suc left + n)
      (judge_round env c st (inputs n).clock (is_zero left) (inputs n).calls b)
      (step (inputs n).clock (is_zero left) (inputs n).calls b q) (omega arith)
      (λ b' q'.
        let ih = run_rounds-Holds P Q env c st at_end step left inputs (suc n) b' q' in
        (ih.0, omega (arith, ih.1)))

abbrev pub has_decision : Case → Option SentencingDecision → Bool
has_decision c d = eq_bool (needs_sentence c) (not (is_null d))

-- What the end of the rounds on a bench says: a pass comes of a report without issues, on a decision
-- where one is due and none elsewhere, and in a regeneration on the bench that came in; a repair is
-- asked for below the limit and in no regeneration.
abbrev pub IsSound : Env → Case → State → Bench → Verdict → Type 0
IsSound env c st b0 (passed b r) =
    (validate_evaluation env.parses r (scope c) env.policy_version ≡ [])
    × (has_decision c b.decision ≡ true)
    × (is_regenerate c ≡ true → b ≡ b0)
IsSound env c st b0 (repair_of b is kept) =
    (ltb st.repair_count env.immediate_repair_max ≡ true) × (is_regenerate c ≡ false)
IsSound env c st b0 (rejected_with code) = Unit
IsSound env c st b0 no_budget = Unit
IsSound env c st b0 verdict_invalidated = Unit
IsSound env c st b0 verdict_raised = Unit

module _ (env : Env) (c : Case) (st : State) (b0 : Bench) where
  Sound : Round → Type 0
  Sound = RoundHolds (IsSound env c st b0) (λ b. is_regenerate c ≡ true → b ≡ b0)

  after_assemble-Sound :
      (b : Bench) (a : Assembled) → is_regenerate c ≡ false → Sound (after_assemble b a)
  unfolding Sound
  after_assemble-Sound b (assembled drafts sources d) n = λ y. cc
  after_assemble-Sound b (all_template drafts sources) n = tt
  after_assemble-Sound b (refused code) n = tt
  after_assemble-Sound b (to_rewrite bad) n = tt
  after_assemble-Sound b assemble_raised n = tt

  after_replace-Sound :
      (clock : ℕ) (b : Bench) (repair : Bool) (is : List Intensity) (kept : List Kept)
      (r : Replaced)
      → is_regenerate c ≡ false
      → (repair ≡ true → ltb st.repair_count env.immediate_repair_max ≡ true)
      → Sound (after_replace env c st clock b repair is kept r)
  unfolding Sound after_replace
  after_replace-Sound clock b true is kept (not_replaced code) n h = tt
  after_replace-Sound clock b false is kept (not_replaced code) n h = tt
  after_replace-Sound clock b true is kept (replaced drafts sources) n h = (h refl, n)
  after_replace-Sound clock b false is kept (replaced drafts sources) n h =
      after_assemble-Sound b (assemble env c st clock false b.decision drafts sources) n

  wants_repair-count :
      (clock : ℕ) (report : Report) (b : Bench)
      → wants_repair env c st clock report b ≡ true
      → ltb st.repair_count env.immediate_repair_max ≡ true
  unfolding wants_repair may_repair
  wants_repair-count clock report b h = ground arith

  mend_texts-Sound :
      (clock : ℕ) (failed : Bool) (report : Report) (b : Bench)
      → is_regenerate c ≡ false
      → Sound (mend_texts env c st clock failed report b)
  unfolding mend_texts
  mend_texts-Sound clock failed report b n =
      after_replace-Sound clock b (wants_repair env c st clock report b) _ _ _ n
        (wants_repair-count clock report b)

  after_reason-Sound :
      (clock : ℕ) (failed : Bool) (report : Report) (b : Bench) (r : Reasoned)
      → is_regenerate c ≡ false
      → Sound (after_reason env c st clock failed report b r)
  unfolding Sound after_reason
  after_reason-Sound clock failed report b (reasoned d) n =
      mend_texts-Sound clock failed report (record b { decision = d }) n
  after_reason-Sound clock failed report b no_reason n = tt
  after_reason-Sound clock failed report b reason_raised n = tt

  no_issue-nil : (is : List Issue) → no_issue is ≡ true → is ≡ []
  no_issue-nil [] e = refl
  no_issue-nil (x ∷ xs) e = cc

  weigh-Sound :
      (clock : ℕ) (is_last : Bool) (report : Report) (b : Bench)
      → has_decision c b.decision ≡ true
      → (is_regenerate c ≡ true → b ≡ b0)
      → Sound (weigh env c st clock is_last report b)
  unfolding Sound weigh
  weigh-Sound clock is_last report b d same =
      let issues = validate_evaluation env.parses report (scope c) env.policy_version in
      elim (Bool-cases (no_issue issues)) [
        | inl e ↦ rw e (no_issue-nil issues e, d, same)
        | inr e ↦ elim (Bool-cases (is_last || is_regenerate c || any is_global issues)) [
          | inl f ↦ rw (e, f) tt
          | inr f ↦
              rw (e, f)
                (after_reason-Sound clock (any is_reason issues) report b
                  (new_reason env (any is_reason issues) b.decision) (ground arith))
        ]
      ]

  after_evaluate-Sound :
      (clock : ℕ) (is_last : Bool) (b : Bench) (e : Evaluated)
      → ((r : Report) → e ≡ evaluated r → has_decision c b.decision ≡ true)
      → (is_regenerate c ≡ true → b ≡ b0)
      → Sound (after_evaluate env c st clock is_last b e)
  unfolding Sound after_evaluate
  after_evaluate-Sound clock is_last b (evaluated r) d same =
      weigh-Sound clock is_last (round_report env c b r) b (d r refl) same
  after_evaluate-Sound clock is_last b skipped d same = tt
  after_evaluate-Sound clock is_last b (errors ks) d same = tt
  after_evaluate-Sound clock is_last b evaluate_invalidated d same = tt
  after_evaluate-Sound clock is_last b evaluate_raised d same = tt

  evaluate-has_decision :
      (d : Option SentencingDecision) (is : List Intensity) (calls : JudgeCalls) (r : Report)
      → evaluate env c st d is calls ≡ evaluated r
      → has_decision c d ≡ true
  unfolding evaluate
  evaluate-has_decision d is calls r e = elim (Bool-cases (has_decision c d)) [
    | inl h ↦ h
    | inr h ↦ ground (arith, h, e)
  ]

  judge_round-Sound :
      (clock : ℕ) (is_last : Bool) (calls : JudgeCalls) (b : Bench)
      → (is_regenerate c ≡ true → b ≡ b0)
      → Sound (judge_round env c st clock is_last calls b)
  unfolding judge_round
  judge_round-Sound clock is_last calls b same =
      after_evaluate-Sound clock is_last b (evaluate env c st b.decision (round_scope c b) calls)
        (evaluate-has_decision b.decision (round_scope c b) calls) same

  -- The rounds on a bench end soundly, and are at most three.
  pub run_rounds-IsSound :
      (inputs : ℕ → RoundInput)
      → IsSound env c st b0 (run_rounds eval_rounds env c st inputs 0 b0).0
        × ((run_rounds eval_rounds env c st inputs 0 b0).1 ≤ eval_rounds)
  unfolding Sound
  run_rounds-IsSound inputs =
      run_rounds-Holds (IsSound env c st b0) (λ b. is_regenerate c ≡ true → b ≡ b0) env c st tt
        judge_round-Sound eval_rounds inputs 0 b0 (λ y. refl)
