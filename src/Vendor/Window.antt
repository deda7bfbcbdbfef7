-- ===== src/Vendor/Window.antt =====
-- The window of domain/vendor_health.py against its statement: three failures of a counted kind in a
-- row, within 60 seconds, the last at most 60 seconds ago.
use text.Mathlib.Text.{◌==◌ as same_text}
use text.Mathlib.TextEquality.{eq_iff}
use geoji_agent.Base.{
  ℕ, ◌-◌, ◌≡◌, refl, String, Bool, true, false, ◌&&◌, List, [], ◌∷◌, arith, leb, if◌then◌else◌,
}
use geoji_agent.Retry.{ErrorKind}
use geoji_agent.Vendor.{
  is_degraded_kind, Failures, put, append, record_failure, record_success, degraded_at, is_degraded,
  degraded_window, no_failures,
}

-- What happened to a vendor, the latest first.
pub data Event : Type 0 where
  failure : ErrorKind → ℕ → Event
  success : Event

-- The code's history of one vendor.
abbrev pub replay : String → List Event → Failures
unfolding record_failure record_success append is_degraded_kind
replay v [] = no_failures
replay v (failure kind t ∷ es) = record_failure v kind t (replay v es)
replay v (success ∷ es) = record_success v (replay v es)

-- The description: the times of the counted failures since the last success, the latest first.
abbrev pub streak : List Event → List ℕ
unfolding is_degraded_kind
streak [] = []
streak (failure kind t ∷ es) = if is_degraded_kind kind then t ∷ streak es else streak es
streak (success ∷ es) = []

abbrev pub down : ℕ → List ℕ → Bool
down now (t ∷ _ ∷ s ∷ _) = leb (now - t) degraded_window && leb (t - s) degraded_window
down now _ = false

-- The deque: the last three of the streak, the oldest first.
abbrev pub kept : List ℕ → List ℕ
kept [] = []
kept (a ∷ []) = a ∷ []
kept (a ∷ b ∷ []) = b ∷ a ∷ []
kept (a ∷ b ∷ c ∷ _) = c ∷ b ∷ a ∷ []

append-kept : (t : ℕ) (ts : List ℕ) → append t (kept ts) ≡ kept (t ∷ ts)
unfolding append
append-kept t [] = refl
append-kept t (a ∷ []) = refl
append-kept t (a ∷ b ∷ []) = refl
append-kept t (a ∷ b ∷ c ∷ ts) = refl

same_text_refl : (v : String) → same_text v v ≡ true
same_text_refl v = (eq_iff v v).1 refl

put_get : (v : String) (ts : List ℕ) (fs : Failures) → put v ts fs v ≡ ts
put_get v ts fs = rw (same_text_refl v) refl

replay-kept : (v : String) (es : List Event) → replay v es v ≡ kept (streak es)
unfolding record_failure record_success is_degraded_kind
replay-kept v [] = refl
replay-kept v (failure kind t ∷ es) = ground (
  arith,
  put_get v (append t (replay v es v)) (replay v es),
  append-kept t (streak es),
  replay-kept v es,
)
replay-kept v (success ∷ es) = put_get v [] (replay v es)

down-kept : (now : ℕ) (ts : List ℕ) → degraded_at now (kept ts) ≡ down now ts
unfolding degraded_at
down-kept now [] = refl
down-kept now (a ∷ []) = refl
down-kept now (a ∷ b ∷ []) = refl
down-kept now (a ∷ b ∷ c ∷ ts) = ground arith

-- After any history of a vendor, kept in a window of three, the code reports it degraded exactly if
-- the counted failures since its last success are at least three, the last of them at most 60 seconds
-- ago and the third last at most 60 seconds before that. Failures of other kinds neither count nor
-- break the row.
pub is_degraded_iff :
    (v : String) (now : ℕ) (es : List Event)
    → is_degraded v now (replay v es) ≡ down now (streak es)
unfolding is_degraded
is_degraded_iff v now es = rw (replay-kept v es) (down-kept now (streak es))
