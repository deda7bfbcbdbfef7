-- ===== src/Sentencing/Ends.antt =====
-- How a run of graphs/sentencing.py ends.
use geoji_agent.Base.{
  ℕ, zero, suc, ◌+◌, ◌*◌, ◌<◌, ◌≡◌, refl, inl, inr, Bool, true, false, Option, none, some, arith,
  ◌⊎◌, subst,
}
use geoji_agent.Sentencing.{Case, Env, State, initial_state, saved, is_regenerate}
use geoji_agent.Sentencing.Run.{
  Node, at_begin, at_prep, at_inline, at_minimal, at_sentencing, at_writer, at_join, at_validate,
  at_evaluator, at_repair, at_finalize, at_failed, at_end, Visit, visit, next, settle, is_end, Run,
  ended, run_raised, unfinished, proceed, stop_or, run, run_graph,
}
use geoji_agent.Sentencing.Invariant.{IsJudged, NoTemplate, Invariant, measure, Reaches, Follows}
use geoji_agent.Sentencing.Steps.{
  begin_generation-Follows, load_valid_prep-Follows, minimal_dossier_node-Follows,
  inline_context-Follows, sentencing-Follows,
}
use geoji_agent.Sentencing.Writing.{writer-Follows}
use geoji_agent.Sentencing.Checks.{join-Follows, deterministic_validate-Follows}
use geoji_agent.Sentencing.Judging.{
  evaluator-Follows, writer_repair-Follows, finalize-Follows, generation_failed-Follows,
}

module _ (env : Env) (c : Case) where
  visit-Follows :
      (v : Visit) (node : Node) (st : State)
      → is_end node ≡ false
      → Invariant env c node st
      → Follows env c node (measure env node st) (settle st (visit env c v node st))
  unfolding visit
  visit-Follows v at_begin st n h = begin_generation-Follows env c v.started v.clock v.begin st h
  visit-Follows v at_prep st n h = load_valid_prep-Follows env c v.clock v.prep st h
  visit-Follows v at_inline st n h =
      inline_context-Follows env c v.clock v.code_dossier v.context v.save_stale st h
  visit-Follows v at_minimal st n h =
      minimal_dossier_node-Follows env c v.code_dossier v.save_stale st h
  visit-Follows v at_sentencing st n h = sentencing-Follows env c v.sentence st h
  visit-Follows v at_writer st n h = writer-Follows env c v.write st h
  visit-Follows v at_join st n h = join-Follows env c v.clock v.late_clock st h
  visit-Follows v at_validate st n h = deterministic_validate-Follows env c v.clock st h
  visit-Follows v at_evaluator st n h = evaluator-Follows env c v.rounds st h
  visit-Follows v at_repair st n h = writer_repair-Follows env c v.write st h
  visit-Follows v at_finalize st n h =
      finalize-Follows env c v.clock v.finalize_stale v.finalize_reply st h
  visit-Follows v at_failed st n h = generation_failed-Follows env c v.failure_sent st h
  visit-Follows v at_end st n h = cc

  at_the_end :
      (node : Node) (st : State)
      → is_end node ≡ true
      → Invariant env c node st
      → Invariant env c at_end st
  at_the_end at_begin st e h = cc
  at_the_end at_prep st e h = cc
  at_the_end at_inline st e h = cc
  at_the_end at_minimal st e h = cc
  at_the_end at_sentencing st e h = cc
  at_the_end at_writer st e h = cc
  at_the_end at_join st e h = cc
  at_the_end at_validate st e h = cc
  at_the_end at_evaluator st e h = cc
  at_the_end at_repair st e h = cc
  at_the_end at_finalize st e h = cc
  at_the_end at_failed st e h = cc
  at_the_end at_end st e h = h

  IsFinished : Run → Type 0
  IsFinished (ended st) = Invariant env c at_end st
  IsFinished run_raised = Unit
  IsFinished unfinished = ◌≡◌ {A = ℕ} 0 1

  proceed-IsFinished :
      (node : Node) (m : ℕ) (rest : State → Run) (o : Option State)
      → Follows env c node m o
      → ((new : State) → Reaches env c m new (next c node new) → IsFinished (rest new))
      → IsFinished (proceed rest o)
  unfolding Follows IsFinished
  proceed-IsFinished node m rest none f h = tt
  proceed-IsFinished node m rest (some new) f h = h new f

  stop_or-IsFinished :
      (b : Bool) (st : State) (r : Run)
      → (b ≡ true → Invariant env c at_end st)
      → (b ≡ false → IsFinished r)
      → IsFinished (stop_or b st r)
  unfolding IsFinished
  stop_or-IsFinished true st r h k = h refl
  stop_or-IsFinished false st r h k = k refl

  no_fuel : (m : ℕ) → m < 0 → false ≡ true
  no_fuel m h = ground arith

  run-IsFinished :
      (world : ℕ → Visit) (fuel n : ℕ) (node : Node) (st : State)
      → measure env node st < fuel
      → Invariant env c node st
      → IsFinished (run fuel env c world n node st)
  unfolding run
  run-IsFinished world zero n node st le h = cc (no_fuel (measure env node st) le)
  run-IsFinished world (suc fuel) n node st le h =
      stop_or-IsFinished (is_end node) st _ (λ e. at_the_end node st e h)
        (λ e.
          proceed-IsFinished node (measure env node st)
            (λ new. run fuel env c world (suc n) (next c node new) new)
            (settle st (visit env c (world n) node st)) (visit-Follows (world n) node st e h)
            (λ new r.
              run-IsFinished world fuel (suc n) (next c node new) new (omega (arith, r.0, le)) r.1))

  -- Enough fuel: ten nodes before the first finalize, and four for each repair.
  abbrev pub IsEnough : ℕ → Type 0
  IsEnough fuel = 10 + 4 * env.immediate_repair_max < fuel

  run_graph-IsFinished :
      (world : ℕ → Visit) (fuel : ℕ) → IsEnough fuel → IsFinished (run_graph fuel env c world)
  unfolding run_graph
  run_graph-IsFinished world fuel le =
      run-IsFinished world fuel 0 at_begin initial_state (omega (arith, le)) (refl, λ y i. refl)

  finished : (r : Run) → IsFinished r → ((st : State) × (r ≡ ended st)) ⊎ (r ≡ run_raised)
  unfolding IsFinished
  finished (ended st) h = inl (st, refl)
  finished run_raised h = inr refl
  finished unfinished h = ground arith

  -- Whatever the world answers, a run of the graph ends, at its END or by an exception, within eleven
  -- nodes and four more for each repair that the settings allow.
  pub run_graph-ends :
      (world : ℕ → Visit) (fuel : ℕ)
      → IsEnough fuel
      → ((st : State) × (run_graph fuel env c world ≡ ended st))
        ⊎ (run_graph fuel env c world ≡ run_raised)
  run_graph-ends world fuel le =
      finished (run_graph fuel env c world) (run_graph-IsFinished world fuel le)

  ended-Invariant : (r : Run) (st : State) → r ≡ ended st → IsFinished r → Invariant env c at_end st
  unfolding IsFinished
  ended-Invariant r st e h = subst IsFinished e h

  -- With enough fuel, a run that ends with its draft saved has a draft that passed: a report without
  -- issues on it, the hash of this draft and this decision, and a decision exactly if a sentence is due.
  pub run_graph-IsJudged :
      (world : ℕ → Visit) (fuel : ℕ) (st : State)
      → IsEnough fuel
      → run_graph fuel env c world ≡ ended st
      → st.finalize_outcome ≡ some saved
      → IsJudged env c st
  run_graph-IsJudged world fuel st le e s =
      (ended-Invariant (run_graph fuel env c world) st e (run_graph-IsFinished world fuel le) s).0

  -- With enough fuel, a regeneration that ends with its draft saved has no text that is a template.
  pub run_graph-NoTemplate :
      (world : ℕ → Visit) (fuel : ℕ) (st : State)
      → IsEnough fuel
      → run_graph fuel env c world ≡ ended st
      → st.finalize_outcome ≡ some saved
      → is_regenerate c ≡ true
      → NoTemplate st.work
  run_graph-NoTemplate world fuel st le e s y =
      (ended-Invariant (run_graph fuel env c world) st e (run_graph-IsFinished world fuel le) s).1 y
