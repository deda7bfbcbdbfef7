-- ===== src/Vendor.antt =====
-- src/geoji_ai/domain/vendor_health.py: the failure times of each vendor, in microseconds of the
-- process's monotonic clock, and the test for a vendor that is down. The dictionary is a function
-- from vendor to its deque, empty for a missing key, since `is_degraded` reads the two alike.
pub mod Window
pub mod Tests
use text.Mathlib.Text.{◌==◌ as same_text}
use geoji_agent.Base.{
  ℕ, ◌+◌, ◌-◌, String, Bool, true, false, ◌&&◌, ◌||◌, Option, none, some, List, [], ◌∷◌, ◌++◌, ltb,
  leb, length, if◌then◌else◌,
}
use geoji_agent.Retry.{ErrorKind, server, transport}

abbrev pub degraded_threshold : ℕ
degraded_threshold = 3

abbrev pub degraded_window : ℕ
degraded_window = 60000000

-- DEGRADED_KINDS
unfoldable pub is_degraded_kind : ErrorKind → Bool
is_degraded_kind server = true
is_degraded_kind transport = true
is_degraded_kind _ = false

abbrev pub Failures : Type 0
Failures = String → List ℕ

abbrev pub no_failures : Failures
no_failures v = []

abbrev pub put : String → List ℕ → Failures → Failures
put vendor times fs v = if same_text v vendor then times else fs v

-- `deque(maxlen=3).append`: a full deque loses its oldest entry.
unfoldable pub append : ℕ → List ℕ → List ℕ
append t [] = t ∷ []
append t (a ∷ []) = a ∷ t ∷ []
append t (a ∷ b ∷ []) = a ∷ b ∷ t ∷ []
append t (a ∷ b ∷ xs) = b ∷ xs ++ t ∷ []

unfoldable pub record_failure : String → ErrorKind → ℕ → Failures → Failures
unfolding is_degraded_kind append
record_failure vendor kind now fs =
    if is_degraded_kind kind then put vendor (append now (fs vendor)) fs else fs

unfoldable pub record_success : String → Failures → Failures
record_success vendor fs = put vendor [] fs

-- `times[0]` and `times[-1]`, with their length tested first.
abbrev pub first_of : List ℕ → ℕ
first_of [] = 0
first_of (t ∷ _) = t

abbrev pub last_of : List ℕ → ℕ
last_of [] = 0
last_of (t ∷ []) = t
last_of (_ ∷ s ∷ ts) = last_of (s ∷ ts)

unfoldable pub degraded_at : ℕ → List ℕ → Bool
degraded_at now times =
    if ltb (length times) degraded_threshold
    then false
    else if ltb degraded_window (now - last_of times)
    then false
    else leb (last_of times - first_of times) degraded_window

unfoldable pub is_degraded : String → ℕ → Failures → Bool
unfolding degraded_at
is_degraded vendor now fs = degraded_at now (fs vendor)
