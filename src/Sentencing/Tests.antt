-- ===== src/Sentencing/Tests.antt =====
-- Runs of the graph of graphs/sentencing.py, a first verdict and a regeneration, and the theorems at
-- them.
use geoji_agent.Base.{
  ℕ, ◌+◌, ◌≡◌, ◌⊎◌, refl, Bool, true, false, none, some, Option, [], ◌∷◌, arith, leb,
}
use geoji_agent.Budget.{node_timeout, remaining_s, from_db}
use geoji_agent.Retry.{timeout}
use geoji_agent.Texts.{
  hell, opinion, TextDraft, excuse_dissection, ai, Lexicon, card_ok, validate_card_line,
  text_draft_ok, writer_draft_ok, contains, profanity_hits, death_word_hits, replace_invest,
  same_draft,
}
use geoji_agent.Rules.{
  Jury, guilty, apply_text_rules, rebuild_text, without_ids, rebuild_issues, text_issues,
  issues_from, raised, lexicon_rules, is_banmal_suspect, correct_meme_tag, all_refs, evidence_refs,
}
use geoji_agent.Report.{
  Report, stated, known, validate_evaluation, unless, check_issues, check_pass, entry_issues,
  missing_issues, outside_issues, merge_same_intensity, merge_reports, forgive_check, forgive_entry,
  pass_template_entry,
}
use geoji_agent.Sentencing.{
  Mode, initial, regenerate, Dossier, Case, Env, State, output, failed, saved, call_model, scope,
  may_repair, can_repair, template_for, initial_state,
}
use geoji_agent.Sentencing.Start.{
  begun, begin_generation, opened, load_valid_prep, inline_fits, minimal_dossier_node,
  inline_context, FixedSentencing,
}
use geoji_agent.Sentencing.Decision.{
  rule_sentencing, parse_sentencing, take_decision, after_sentencing, sentencing, is_ungrounded,
  writer_angles,
}
use geoji_agent.Sentencing.Drafts.{
  drafted, write_one, settle_one, settle_all, outcomes, fan_out, writer, invalid_list, too_little,
  join_code, join, fallback,
}
use geoji_agent.Sentencing.Assembly.{
  replace, conclude, bad_targets, assemble_rounds, assemble, deterministic_validate,
}
use geoji_agent.Sentencing.Judge.{judge_one, evaluate, vendor_failure_code}
use geoji_agent.Sentencing.Weighing.{round_report, round_scope, new_reason}
use geoji_agent.Sentencing.Loop.{
  weigh, after_reason, after_evaluate, after_replace, wants_repair, rejected_of, mend_texts,
  judge_round, run_rounds, take_verdict, evaluate_draft, evaluator,
}
use geoji_agent.Sentencing.Finish.{
  writer_repair, finalized, finalize_reply, finalize, ai_texts, generation_failed,
}
use geoji_agent.Sentencing.Run.{
  Visit, visit, next, Run, ended, run_raised, unfinished, run, run_graph,
}
use geoji_agent.Sentencing.Invariant.{IsJudged, NoTemplate}
use geoji_agent.Sentencing.Ends.{run_graph-ends, run_graph-IsJudged, run_graph-NoTemplate}
use geoji_agent.Sentencing.Sentence.{Decides, sentencing-Decides}

abbrev pub lexicon : Lexicon
lexicon = record {
  profanity = [];
  spicy_allowed = [];
  death_words = [];
  worn_phrases = [];
  has_id = λ t. false;
  strip_ids = λ t. t;
  internal_code = λ t. false;
  sentences = λ t. t ∷ [];
}

abbrev pub env : Env
env = record {
  budget = record {
    sentencing_node_timeout = 6_000_000;
    writer_node_timeout = 10_000_000;
    evaluator_node_timeout = 30_000_000;
  };
  immediate_repair_max = 1;
  inline_context_min_remaining = 5_000_000;
  text_retry_timeout = 60_000_000;
  policy_version = 2;
  has_hell_model = false;
  lexicon = lexicon;
  render = λ s. none;
  reason_template = λ s. none;
  draft_hash = λ d s. 77;
  parses = λ r. true;
}

abbrev jury : Jury
jury = record {
  result = guilty;
  allowed_sentences = record { code = 5; rank = 1 } ∷ record { code = 6; rank = 2 } ∷ [];
  fallback_sentence = 5;
  target_intensities = hell ∷ [];
  default_intensity = hell;
}

abbrev pub case : Mode → Case
case mode = record {
  mode = mode;
  is_spent = true;
  jury = jury;
  requested = none;
  template_angle = excuse_dissection;
}

abbrev card : TextDraft
card = record {
  intensity = hell;
  headline = 100 ∷ [];
  statement = record { text = 200 ∷ []; kind = opinion; evidence_labels = [] } ∷ [];
  attack_angle = excuse_dissection;
  source = ai;
  extra = 0;
}

abbrev report : Bool → Report
report b = record {
  policy_version = 2;
  sentence_check = some (record { passes = stated true; violations = [] });
  sentencing_reason_check = some (record { passes = stated true; violations = [] });
  texts =
      record { key = known hell; passes = stated b; violations = []; problem_sentences = [] } ∷ [];
}

abbrev dossier : Dossier
dossier = record { facts = []; label_map = λ l. none }

-- From the tenth node on, the second evaluation among them, the evaluator accepts.
abbrev accepts : ℕ → Bool
accepts n = leb 9 n

-- The vendor's sentence is outside the list, and its first evaluation rejects.
abbrev pub answers : Option FixedSentencing → ℕ → Visit
answers f n = record {
  started = 0;
  clock = 0;
  late_clock = 0;
  begin = begun 90_000_000 0 f;
  prep = none;
  code_dossier = dossier;
  context = output dossier;
  save_stale = false;
  sentence = record {
    clock = 0;
    answer =
        output
          (record { sentence = some 9; sentencing_reason = none; factors = 0; is_typed = true });
  };
  write = λ i. record { clock = 0; answer = output (drafted card none) };
  rounds = λ k. record {
    clock = 0;
    calls = record {
      plain = record { clock = 0; answer = output (report (accepts n)) };
      for_hell = record { clock = 0; answer = failed timeout };
    };
  };
  finalize_stale = false;
  finalize_reply = finalized;
  failure_sent = true;
}

abbrev fixed_sentence : Option FixedSentencing
fixed_sentence = some (record { sentence = 6; sentencing_reason = none; reason_source = ai })

abbrev state_of : Run → State
state_of (ended st) = st
state_of run_raised = initial_state
state_of unfinished = initial_state

abbrev first : State
first = state_of (run_graph 40 env (case initial) (answers none))

abbrev second : State
second = state_of (run_graph 40 env (case regenerate) (λ n. answers fixed_sentence (n + 7)))

first_ends : run_graph 40 env (case initial) (answers none) ≡ ended first
unfolding node_timeout remaining_s from_db card_ok validate_card_line text_draft_ok writer_draft_ok
    contains profanity_hits death_word_hits replace_invest same_draft apply_text_rules rebuild_text
    without_ids rebuild_issues text_issues issues_from raised lexicon_rules is_banmal_suspect
    correct_meme_tag all_refs evidence_refs validate_evaluation unless check_issues check_pass
    entry_issues missing_issues outside_issues merge_same_intensity merge_reports forgive_check
    forgive_entry pass_template_entry call_model scope may_repair can_repair template_for
    begin_generation opened load_valid_prep inline_fits minimal_dossier_node inline_context
    rule_sentencing parse_sentencing take_decision after_sentencing sentencing is_ungrounded
    writer_angles write_one settle_one settle_all outcomes fan_out writer invalid_list too_little
    join_code join fallback replace conclude bad_targets assemble_rounds assemble
    deterministic_validate judge_one evaluate vendor_failure_code round_report round_scope
    new_reason weigh after_reason after_evaluate after_replace wants_repair rejected_of mend_texts
    judge_round run_rounds take_verdict evaluate_draft evaluator writer_repair finalize_reply
    finalize ai_texts generation_failed visit next run run_graph
first_ends = refl

-- One repair, and then saved.
first_saved : (first.finalize_outcome ≡ some saved) × (first.repair_count ≡ 1)
unfolding node_timeout remaining_s from_db card_ok validate_card_line text_draft_ok writer_draft_ok
    contains profanity_hits death_word_hits replace_invest same_draft apply_text_rules rebuild_text
    without_ids rebuild_issues text_issues issues_from raised lexicon_rules is_banmal_suspect
    correct_meme_tag all_refs evidence_refs validate_evaluation unless check_issues check_pass
    entry_issues missing_issues outside_issues merge_same_intensity merge_reports forgive_check
    forgive_entry pass_template_entry call_model scope may_repair can_repair template_for
    begin_generation opened load_valid_prep inline_fits minimal_dossier_node inline_context
    rule_sentencing parse_sentencing take_decision after_sentencing sentencing is_ungrounded
    writer_angles write_one settle_one settle_all outcomes fan_out writer invalid_list too_little
    join_code join fallback replace conclude bad_targets assemble_rounds assemble
    deterministic_validate judge_one evaluate vendor_failure_code round_report round_scope
    new_reason weigh after_reason after_evaluate after_replace wants_repair rejected_of mend_texts
    judge_round run_rounds take_verdict evaluate_draft evaluator writer_repair finalize_reply
    finalize ai_texts generation_failed visit next run run_graph
first_saved = (refl, refl)

second_ends :
    run_graph 40 env (case regenerate) (λ n. answers fixed_sentence (n + 7)) ≡ ended second
unfolding node_timeout remaining_s from_db card_ok validate_card_line text_draft_ok writer_draft_ok
    contains profanity_hits death_word_hits replace_invest same_draft apply_text_rules rebuild_text
    without_ids rebuild_issues text_issues issues_from raised lexicon_rules is_banmal_suspect
    correct_meme_tag all_refs evidence_refs validate_evaluation unless check_issues check_pass
    entry_issues missing_issues outside_issues merge_same_intensity merge_reports forgive_check
    forgive_entry pass_template_entry call_model scope may_repair can_repair template_for
    begin_generation opened load_valid_prep inline_fits minimal_dossier_node inline_context
    rule_sentencing parse_sentencing take_decision after_sentencing sentencing is_ungrounded
    writer_angles write_one settle_one settle_all outcomes fan_out writer invalid_list too_little
    join_code join fallback replace conclude bad_targets assemble_rounds assemble
    deterministic_validate judge_one evaluate vendor_failure_code round_report round_scope
    new_reason weigh after_reason after_evaluate after_replace wants_repair rejected_of mend_texts
    judge_round run_rounds take_verdict evaluate_draft evaluator writer_repair finalize_reply
    finalize ai_texts generation_failed visit next run run_graph
second_ends = refl

second_saved : second.finalize_outcome ≡ some saved
unfolding node_timeout remaining_s from_db card_ok validate_card_line text_draft_ok writer_draft_ok
    contains profanity_hits death_word_hits replace_invest same_draft apply_text_rules rebuild_text
    without_ids rebuild_issues text_issues issues_from raised lexicon_rules is_banmal_suspect
    correct_meme_tag all_refs evidence_refs validate_evaluation unless check_issues check_pass
    entry_issues missing_issues outside_issues merge_same_intensity merge_reports forgive_check
    forgive_entry pass_template_entry call_model scope may_repair can_repair template_for
    begin_generation opened load_valid_prep inline_fits minimal_dossier_node inline_context
    rule_sentencing parse_sentencing take_decision after_sentencing sentencing is_ungrounded
    writer_angles write_one settle_one settle_all outcomes fan_out writer invalid_list too_little
    join_code join fallback replace conclude bad_targets assemble_rounds assemble
    deterministic_validate judge_one evaluate vendor_failure_code round_report round_scope
    new_reason weigh after_reason after_evaluate after_replace wants_repair rejected_of mend_texts
    judge_round run_rounds take_verdict evaluate_draft evaluator writer_repair finalize_reply
    finalize ai_texts generation_failed visit next run run_graph
second_saved = refl

run_graph-ends_example :
    ((st : State) × (run_graph 40 env (case initial) (answers none) ≡ ended st))
    ⊎ (run_graph 40 env (case initial) (answers none) ≡ run_raised)
run_graph-ends_example = run_graph-ends env (case initial) (answers none) 40 (omega arith)

run_graph-IsJudged_example : IsJudged env (case initial) first
run_graph-IsJudged_example =
    run_graph-IsJudged env (case initial) (answers none) 40 first (omega arith) first_ends
      first_saved.0

run_graph-NoTemplate_example : NoTemplate second.work
run_graph-NoTemplate_example =
    run_graph-NoTemplate env (case regenerate) (λ n. answers fixed_sentence (n + 7)) 40 second
      (omega arith) second_ends second_saved refl

sentencing-Decides_example :
    Decides jury (sentencing env (case initial) (answers none 0).sentence initial_state)
sentencing-Decides_example =
    sentencing-Decides env (case initial) (answers none 0).sentence initial_state
