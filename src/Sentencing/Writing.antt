-- ===== src/Sentencing/Writing.antt =====
-- The writer of graphs/sentencing.py lowers the measure and keeps the invariant.
use geoji_agent.Base.{◌≡◌, refl, true, false, Option, none, some, List, [], ◌∷◌, arith}
use geoji_agent.Texts.{Intensity, Source, ai, template, SentencingDecision}
use geoji_agent.Sentencing.{Case, Env, State, Drafting, Call, is_regenerate, scope, is_source, put}
use geoji_agent.Sentencing.Drafts.{
  Written, Outcome, wrote, invalid_card, skipped, call_failed, write_invalidated, write_raised,
  settle_one, settle_all, fan_out, outcomes, first_exception, Exception, no_exception, invalidation,
  other_exception, after_calls, fallback, source_of, writer,
}
use geoji_agent.Sentencing.Run.{at_writer, at_join, next, settle}
use geoji_agent.Sentencing.Invariant.{IsOpen, NoTemplate, measure, Follows}
use geoji_agent.Sentencing.Steps.{down}

module _ (env : Env) (c : Case) where
  fallback-none :
      (d : Option SentencingDecision) (i : Intensity)
      → is_regenerate c ≡ true
      → fallback env c d i ≡ none
  unfolding fallback
  fallback-none d i y = ground (arith, y)

  put-NoTemplate :
      (i : Intensity) (o : Option Source) (w : Drafting)
      → is_source template o ≡ false
      → NoTemplate w
      → (j : Intensity) → is_source template (put i o w.sources j) ≡ false
  put-NoTemplate i o w e h j = ground (arith, e, h j)

  other_outcome :
      (d : Option SentencingDecision) (i : Intensity) (w : Drafting)
      → is_regenerate c ≡ true
      → NoTemplate w
      → (j : Intensity)
      → is_source template (put i (source_of (fallback env c d i)) w.sources j) ≡ false
  other_outcome d i w y h =
      put-NoTemplate i (source_of (fallback env c d i)) w (rw (fallback-none d i y) refl) h

  -- A regeneration adds no template.
  settle_one-NoTemplate :
      (d : Option SentencingDecision) (i : Intensity) (o : Outcome) (w : Drafting)
      → is_regenerate c ≡ true
      → NoTemplate w
      → NoTemplate (settle_one env c d i o w)
  unfolding settle_one
  settle_one-NoTemplate d i (wrote t hints) w y h = put-NoTemplate i (some ai) w refl h
  settle_one-NoTemplate d i invalid_card w y h = other_outcome d i w y h
  settle_one-NoTemplate d i skipped w y h = other_outcome d i w y h
  settle_one-NoTemplate d i (call_failed k) w y h = other_outcome d i w y h
  settle_one-NoTemplate d i write_invalidated w y h = other_outcome d i w y h
  settle_one-NoTemplate d i write_raised w y h = other_outcome d i w y h

  settle_all-NoTemplate :
      (d : Option SentencingDecision) (o : Intensity → Outcome) (is : List Intensity) (w : Drafting)
      → is_regenerate c ≡ true
      → NoTemplate w
      → NoTemplate (settle_all env c d o is w)
  unfolding settle_all
  settle_all-NoTemplate d o [] w y h = h
  settle_all-NoTemplate d o (i ∷ is) w y h =
      settle_all-NoTemplate d o is (settle_one env c d i (o i) w) y
        (settle_one-NoTemplate d i (o i) w y h)

  fan_out-NoTemplate :
      (is : List Intensity) (calls : Intensity → Call Written) (st : State)
      → is_regenerate c ≡ true
      → NoTemplate st.work
      → NoTemplate (fan_out env c is calls st)
  unfolding fan_out
  fan_out-NoTemplate is calls st y h =
      settle_all-NoTemplate st.sentencing (outcomes env c st calls) is
        (record st.work { budget_skipped = false }) y h

  after_writing :
      (e : Exception) (st : State) (calls : Intensity → Call Written)
      → IsOpen c st
      → Follows env c at_writer
          (measure env at_writer st)
          (settle st (after_calls e (record st { work = fan_out env c (scope c) calls st })))
  unfolding Follows next
  after_writing no_exception st calls h =
      down env c (measure env at_writer st) (record st { work = fan_out env c (scope c) calls st })
        at_join (omega arith) (h.0, λ y. fan_out-NoTemplate (scope c) calls st y (h.1 y))
        (omega arith) h.0
  after_writing invalidation st calls h = (omega arith, h.0)
  after_writing other_exception st calls h = tt

  pub writer-Follows :
      (calls : Intensity → Call Written) (st : State)
      → IsOpen c st
      → Follows env c at_writer (measure env at_writer st) (settle st (writer env c calls st))
  unfolding writer
  writer-Follows calls st h =
      after_writing (first_exception (outcomes env c st calls) (scope c)) st calls h
