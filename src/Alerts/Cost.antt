-- ===== src/Alerts/Cost.antt =====
-- The daily cost alert of telemetry/alerts.py.
use geoji_agent.Base.{
  ℕ, ◌+◌, ◌*◌, ◌≤◌, ◌≡◌, Bool, true, false, ◌||◌, none, some, List, [], ◌∷◌, arith, ltb, ◌==◌,
  if◌then◌else◌, is_null,
}
use geoji_agent.Alerts.{Costs, no_costs, add, check, was_alerted, krw_per_usd, micro}

-- What the tracker is asked: to add an amount (of an evaluation or not) or to check, on a day.
pub data Ask : Type 0 where
  adds : ℕ → Bool → ℕ → Ask
  checks : ℕ → Ask

abbrev pub after : ℕ → Costs → List Ask → Costs
unfolding add check
after threshold c [] = c
after threshold c (adds amount e day ∷ xs) = after threshold (add amount e day c) xs
after threshold c (checks day ∷ xs) = after threshold (check threshold day c).1 xs

-- The number of alerts that the checks of `day` return.
abbrev pub alerts_on : ℕ → ℕ → Costs → List Ask → ℕ
unfolding add check
alerts_on threshold day c [] = 0
alerts_on threshold day c (adds amount e d ∷ xs) = alerts_on threshold day (add amount e d c) xs
alerts_on threshold day c (checks d ∷ xs) =
    (if d == day then (elim (check threshold d c).0 [ none ↦ 0 | some _ ↦ 1 ]) else 0)
    + alerts_on threshold day (check threshold d c).1 xs

-- What the service has spent on `day`: evaluations are left out.
abbrev pub spent_on : ℕ → List Ask → ℕ
spent_on day [] = 0
spent_on day (adds amount false d ∷ xs) = (if d == day then amount else 0) + spent_on day xs
spent_on day (_ ∷ xs) = spent_on day xs

service_after :
    (threshold day : ℕ) (c : Costs) (xs : List Ask)
    → (after threshold c xs).service day ≡ c.service day + spent_on day xs
unfolding add check
service_after threshold day c [] = omega arith
service_after threshold day c (adds amount true d ∷ xs) =
    service_after threshold day (add amount true d c) xs
service_after threshold day c (adds amount false d ∷ xs) =
    ground (arith, service_after threshold day (add amount false d c) xs)
service_after threshold day c (checks d ∷ xs) =
    ground (arith, service_after threshold day (check threshold d c).1 xs)

alerts_on-bounded :
    (threshold day : ℕ) (c : Costs) (xs : List Ask)
    → alerts_on threshold day c xs ≤ (if was_alerted day c then 0 else 1)
unfolding add check
alerts_on-bounded threshold day c [] = ground arith
alerts_on-bounded threshold day c (adds amount true d ∷ xs) =
    alerts_on-bounded threshold day (add amount true d c) xs
alerts_on-bounded threshold day c (adds amount false d ∷ xs) =
    alerts_on-bounded threshold day (add amount false d c) xs
alerts_on-bounded threshold day c (checks d ∷ xs) =
    ground (arith, alerts_on-bounded threshold day (check threshold d c).1 xs)

-- Whatever is added and checked, in any order, a day has one cost alert at most.
pub alerts_on-once : (threshold day : ℕ) (xs : List Ask) → alerts_on threshold day no_costs xs ≤ 1
alerts_on-once threshold day xs = alerts_on-bounded threshold day no_costs xs

-- A check after any history alerts exactly if the day has not been alerted and what the service spent
-- on it, evaluations left out, reaches the threshold at 1450 won for the dollar.
pub check-reached :
    (threshold day : ℕ) (xs : List Ask)
    → is_null (check threshold day (after threshold no_costs xs)).0 ≡ (
        was_alerted day (after threshold no_costs xs)
        || ltb (spent_on day xs * krw_per_usd) (threshold * micro))
unfolding check
check-reached threshold day xs = ground (arith, service_after threshold day no_costs xs)
