-- ===== src/Alerts/Watch.antt =====
-- The watch of telemetry/alerts.py against its statement: the age has been over the threshold at every
-- observation since one that is `sustain` ago.
use geoji_agent.Base.{
  ℕ, ◌-◌, ◌≡◌, refl, Bool, false, Option, none, some, List, [], ◌∷◌, arith, ltb, leb, if◌then◌else◌,
}
use geoji_agent.Alerts.{observe}

-- An observation: the oldest age, if any job waits, and the time.
abbrev pub Observation : Type 0
Observation = Option ℕ × ℕ

-- The code's state after the observations, the latest first.
abbrev pub since : ℕ → ℕ → List Observation → Option ℕ
unfolding observe
since threshold sustain [] = none
since threshold sustain ((age, now) ∷ os) =
    (observe threshold sustain (since threshold sustain os) age now).0

abbrev pub alerts : ℕ → ℕ → List Observation → Bool
unfolding observe
alerts threshold sustain [] = false
alerts threshold sustain ((age, now) ∷ os) =
    (observe threshold sustain (since threshold sustain os) age now).1

abbrev pub is_over : ℕ → Observation → Bool
is_over threshold (none, now) = false
is_over threshold (some age, now) = ltb threshold age

-- The description: the time of the first observation of the row of observations over the threshold
-- that ends with the latest.
abbrev pub row_start : ℕ → List Observation → Option ℕ
row_start threshold [] = none
row_start threshold (o ∷ os) =
    let earlier = row_start threshold os in
    if is_over threshold o then elim earlier [ none ↦ some o.1 | some s ↦ some s ] else none

abbrev pub lasts : ℕ → ℕ → Option ℕ → Bool
lasts sustain now none = false
lasts sustain now (some s) = leb sustain (now - s)

since-row_start :
    (threshold sustain : ℕ) (os : List Observation)
    → since threshold sustain os ≡ row_start threshold os
unfolding observe
since-row_start threshold sustain [] = refl
since-row_start threshold sustain ((none, now) ∷ os) = refl
since-row_start threshold sustain ((some age, now) ∷ os) =
    ground (arith, since-row_start threshold sustain os)

-- After any observations the watch alerts exactly if those over the threshold, in a row up to the
-- latest, began at least `sustain` before it.
pub alerts-sustained :
    (threshold sustain : ℕ) (age : Option ℕ) (now : ℕ) (os : List Observation)
    → alerts threshold sustain ((age, now) ∷ os)
      ≡ lasts sustain now (row_start threshold ((age, now) ∷ os))
unfolding observe
alerts-sustained threshold sustain none now os = refl
alerts-sustained threshold sustain (some age) now os =
    ground (arith, since-row_start threshold sustain os)
