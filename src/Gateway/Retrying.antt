-- ===== src/Gateway/Retrying.antt =====
-- The retry of `scoped_call` in llm_gateway.py: when it happens, within what time, and that the loop
-- ends.
use geoji_agent.Base.{
  ℕ, suc, ◌+◌, ◌≤◌, ◌≡◌, ◌≢◌, refl, ap, Option, none, some, List, [], ◌∷◌, arith,
}
use geoji_agent.Base.Int.{ℤ}
use geoji_agent.Retry.{backoff_seconds, wait_of, is_retryable, retry_allowed, ledger_status}
use geoji_agent.Vendor.{Failures}
use geoji_agent.Gateway.{
  Call, Turn, Reply, Next, Event, Run, again, done, sent, slept, checked_epoch, take_turn,
  run_turns, proceed, prepend, llm_error, out_of_fuel, scoped_call,
}

-- The Retry-After of a reply.
abbrev pub after_of : Reply → Option ℤ
after_of (llm_error _ a) = a
after_of _ = none

-- The loop goes on only after the first attempt, with the remaining time `r` known: it has slept for
-- the vendor's Retry-After and checked the epoch, and the next attempt's timeout, which is positive and at most
-- the call's, fits with that wait and the reserve in the time that remained.
pub retry-fits :
    (call : Call) (turn : Turn) (attempt t r : ℕ) (h g : Failures) (es : List Event) (t' : ℕ)
    → turn.remaining ≡ some r
    → take_turn call turn attempt t h ≡ again es t' g
    → (attempt ≡ 1)
      × (es ≡ sent t ∷ slept (wait_of (after_of turn.reply)) ∷ checked_epoch ∷ [])
      × (1 ≤ t')
      × (t' ≤ call.timeout_us)
      × (call.reserve_us + wait_of (after_of turn.reply) + t' ≤ r)
unfolding take_turn backoff_seconds retry_allowed is_retryable ledger_status
retry-fits call turn attempt t r h g es t' known e = ground arith

-- After the second attempt the loop does not go on.
pub second_ends :
    (call : Call) (turn : Turn) (n t : ℕ) (h : Failures) (es : List Event) (t' : ℕ) (g : Failures)
    → take_turn call turn (suc (suc n)) t h ≢ again es t' g
unfolding take_turn backoff_seconds retry_allowed ledger_status
second_ends call turn n t h es t' g = ground arith

proceed_same :
    (f g : ℕ → Failures → Run) (x : Next)
    → ((t : ℕ) (h : Failures) → f t h ≡ g t h)
    → proceed f x ≡ proceed g x
proceed_same f g (done o es h) e = refl
proceed_same f g (again es t h) e = ap (prepend es) (e t h)

proceed_done :
    (f g : ℕ → Failures → Run) (x : Next)
    → ((es : List Event) (t : ℕ) (h : Failures) → x ≢ again es t h)
    → proceed f x ≡ proceed g x
proceed_done f g (done o es h) only = refl
proceed_done f g (again es t h) only = absurd (only es t h refl)

abbrev EndsWell : Next → Type 0
EndsWell (done o es g) = o ≢ out_of_fuel
EndsWell (again es t g) = Unit

proceed-ends :
    (f : ℕ → Failures → Run) (x : Next)
    → ((t : ℕ) (h : Failures) → (f t h).outcome ≢ out_of_fuel)
    → EndsWell x
    → (proceed f x).outcome ≢ out_of_fuel
proceed-ends f (done o es h) next w = w
proceed-ends f (again es t h) next w = next t h

take_turn-ends :
    (call : Call) (turn : Turn) (attempt t : ℕ) (h : Failures)
    → EndsWell (take_turn call turn attempt t h)
unfolding take_turn backoff_seconds retry_allowed ledger_status
take_turn-ends call turn attempt t h = ground arith

module _ (call : Call) (world : ℕ → Turn) where
  last_turn-same :
      (n m t : ℕ) (h : Failures)
      → run_turns call world (suc n) (suc (suc m)) t h ≡ run_turns call world 1 (suc (suc m)) t h
  unfolding run_turns
  last_turn-same n m t h =
      proceed_done _ _ (take_turn call (world (suc (suc m))) (suc (suc m)) t h)
        (second_ends call (world (suc (suc m))) m t h)

  run_turns-same :
      (n t : ℕ) (h : Failures)
      → run_turns call world (suc (suc n)) 1 t h ≡ run_turns call world 2 1 t h
  unfolding run_turns
  run_turns-same n t h =
      proceed_same _ _ (take_turn call (world 1) 1 t h) (λ t' g. last_turn-same n 0 t' g)

  last_turn-ends :
      (m t : ℕ) (h : Failures) → (run_turns call world 1 (suc (suc m)) t h).outcome ≢ out_of_fuel
  unfolding run_turns
  last_turn-ends m t h =
      not_again (take_turn call (world (suc (suc m))) (suc (suc m)) t h)
        (second_ends call (world (suc (suc m))) m t h)
        (take_turn-ends call (world (suc (suc m))) (suc (suc m)) t h)
    where
      not_again :
          (x : Next)
          → ((es : List Event) (t : ℕ) (g : Failures) → x ≢ again es t g)
          → EndsWell x
          → (proceed (λ t' g. run_turns call world 0 (suc (suc (suc m))) t' g) x).outcome
            ≢ out_of_fuel
      not_again (done o es g) only w = w
      not_again (again es t g) only w = absurd (only es t g refl)

  run_turns-ends : (t : ℕ) (h : Failures) → (run_turns call world 2 1 t h).outcome ≢ out_of_fuel
  unfolding run_turns
  run_turns-ends t h =
      proceed-ends _ (take_turn call (world 1) 1 t h) (λ t' g. last_turn-ends 0 t' g)
        (take_turn-ends call (world 1) 1 t h)

-- Two turns are enough: the loop has ended within them, so more fuel gives the same run, and a run on
-- that fuel has not run out.
pub scoped_call-ends :
    (call : Call) (world : ℕ → Turn) (n : ℕ) (h : Failures)
    → (scoped_call call world (suc (suc n)) h ≡ scoped_call call world 2 h)
      × ((scoped_call call world 2 h).outcome ≢ out_of_fuel)
unfolding scoped_call
scoped_call-ends call world n h = (
  ground (arith, run_turns-same call world n call.timeout_us h),
  ground (arith, run_turns-ends call world call.timeout_us h),
)
