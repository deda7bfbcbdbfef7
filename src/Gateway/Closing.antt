-- ===== src/Gateway/Closing.antt =====
-- The order of the effects of `scoped_call` in llm_gateway.py, as a machine that reads the trace: the
-- ledger row of a call that was booked is closed once, by the last effect but for the cost's report.
use geoji_agent.Base.{
  ℕ, suc, ◌≡◌, ◌≢◌, refl, Bool, true, false, Option, none, some, List, [], ◌∷◌, ◌++◌, arith,
  if◌then◌else◌, Option-cases, inl, inr, is_null,
}
use geoji_agent.Retry.{
  backoff_seconds, retry_allowed, ledger_status, no_ledger, is_unclear, is_retryable,
  classify_vendor_error,
}
use geoji_agent.Gateway.Retrying.{second_ends}
use geoji_agent.Vendor.{Failures, is_degraded}
use geoji_agent.Gateway.{
  Call, Turn, Reply, Next, Event, Run, again, done, sent, slept, checked_epoch, looked_up, reserved,
  settled, failed, marked_unknown, tracked_cost, take_turn, run_turns, proceed, llm_error,
  scoped_call,
}

-- Where a call stands: before the epoch check, before the lookup, before the booking, cleared to send
-- for the first time, sent, asleep, cleared to send again, closed, reported.
pub data Phase : Type 0 where
  fresh checked missed cleared waiting asleep rechecked shut over : Phase

-- The effects that a phase allows.
abbrev pub move : Phase → Event → Option Phase
move fresh checked_epoch = some checked
move checked looked_up = some missed
move missed reserved = some cleared
move cleared (sent t) = some waiting
move rechecked (sent t) = some waiting
move waiting settled = some shut
move waiting failed = some shut
move waiting marked_unknown = some shut
move waiting (slept w) = some asleep
move asleep checked_epoch = some rechecked
move asleep marked_unknown = some shut
move rechecked failed = some shut
move rechecked marked_unknown = some shut
move shut tracked_cost = some over
move _ _ = none

abbrev pub follow : Phase → List Event → Option Phase
follow p [] = some p
follow p (e ∷ es) = elim (move p e) [ none ↦ none | some q ↦ follow q es ]

-- Nothing is booked, or what was booked is closed.
abbrev pub is_settled : Option Phase → Bool
is_settled (some fresh) = true
is_settled (some checked) = true
is_settled (some missed) = true
is_settled (some shut) = true
is_settled (some over) = true
is_settled _ = false

-- The kinds of the vendor's errors have a row in the ledger.
abbrev pub is_ledgered : Reply → Bool
unfolding ledger_status no_ledger is_unclear classify_vendor_error
is_ledgered (llm_error kind _) = if is_null (ledger_status kind) then false else true
is_ledgered _ = true

abbrev pub may_send : Phase → Bool
may_send cleared = true
may_send rechecked = true
may_send _ = false

abbrev pub ends_or_rechecks : Phase → Next → Bool
ends_or_rechecks p (done o es g) = is_settled (follow p es)
ends_or_rechecks p (again es t g) = elim (follow p es) [ some rechecked ↦ true | _ ↦ false ]

take_turn-follows :
    (call : Call) (turn : Turn) (attempt t : ℕ) (h : Failures) (p : Phase)
    → may_send p ≡ true
    → is_ledgered turn.reply ≡ true
    → ends_or_rechecks p (take_turn call turn attempt t h) ≡ true
unfolding take_turn backoff_seconds retry_allowed is_retryable ledger_status no_ledger is_unclear
    classify_vendor_error
take_turn-follows call turn attempt t h p may ok = ground arith

follow-append :
    (p : Phase) (es fs : List Event) (q : Phase)
    → follow p es ≡ some q
    → follow p (es ++ fs) ≡ follow q fs
follow-append p [] fs q e = ground arith
follow-append p (x ∷ es) fs q e = elim (Option-cases (move p x)) [
  | inl n ↦ ground arith
  | inr (r, n) ↦ ground (arith, follow-append r es fs q)
]

-- A turn that ends the call leaves it settled.
done-follows :
    (p : Phase) (rest : ℕ → Failures → Run) (x : Next)
    → ((es : List Event) (t : ℕ) (g : Failures) → x ≢ again es t g)
    → ends_or_rechecks p x ≡ true
    → is_settled (follow p (proceed rest x).trace) ≡ true
done-follows p rest (done o es g) only e = e
done-follows p rest (again es t g) only e = absurd (only es t g refl)

-- One that goes on hands over a call that may send again.
again-follows :
    (p : Phase) (rest : ℕ → Failures → Run) (x : Next)
    → ((t : ℕ) (g : Failures) → is_settled (follow rechecked (rest t g).trace) ≡ true)
    → ends_or_rechecks p x ≡ true
    → is_settled (follow p (proceed rest x).trace) ≡ true
again-follows p rest (done o es g) next e = e
again-follows p rest (again es t g) next e =
    rw (follow-append p es (rest t g).trace rechecked (is_rechecked (follow p es) e)) (next t g)
  where
    is_rechecked :
        (o : Option Phase)
        → elim o [ some rechecked ↦ true | _ ↦ false ] ≡ true
        → o ≡ some rechecked
    is_rechecked o e = ground arith

module _ (call : Call) (world : ℕ → Turn) (ok : (n : ℕ) → is_ledgered (world n).reply ≡ true) where
  last_turn-follows :
      (n m t : ℕ) (h : Failures) (p : Phase)
      → may_send p ≡ true
      → is_settled (follow p (run_turns call world (suc n) (suc (suc m)) t h).trace) ≡ true
  unfolding run_turns
  last_turn-follows n m t h p may =
      done-follows p _ (take_turn call (world (suc (suc m))) (suc (suc m)) t h)
        (second_ends call (world (suc (suc m))) m t h)
        (take_turn-follows call (world (suc (suc m))) (suc (suc m)) t h p may (ok (suc (suc m))))

  first_turn-follows :
      (n t : ℕ) (h : Failures)
      → is_settled (follow cleared (run_turns call world (suc (suc n)) 1 t h).trace) ≡ true
  unfolding run_turns
  first_turn-follows n t h =
      again-follows cleared _ (take_turn call (world 1) 1 t h)
        (λ t' g. last_turn-follows n 0 t' g rechecked refl)
        (take_turn-follows call (world 1) 1 t h cleared refl (ok 1))

  -- If the errors that the vendor raises are of kinds with a row in the ledger, then on any fuel from
  -- two on the effects of a call come in the order that the machine allows, and at its end nothing is
  -- booked or the booking has been closed. So a booking comes after an epoch check and a lookup; each
  -- request is sent for a booked call only and after an epoch check of its own; a booked call is closed
  -- exactly once, whether it is answered, fails, is cancelled or finds its evidence stale; and nothing
  -- is sent after the close.
  pub scoped_call-settled :
      (n : ℕ) (h : Failures)
      → is_settled (follow fresh (scoped_call call world (suc (suc n)) h).trace) ≡ true
  unfolding scoped_call is_degraded
  scoped_call-settled n h = ground (arith, first_turn-follows n call.timeout_us h)

abbrev pub sends : List Event → ℕ
sends [] = 0
sends (sent t ∷ es) = suc (sends es)
sends (_ ∷ es) = sends es
