-- ===== src/Alerts.antt =====
-- src/geoji_ai/telemetry/alerts.py: the watch on the queue's age, the daily cost and the grouping of
-- alerts. Times are microseconds of the process's monotonic clock, ages in microseconds, days numbers,
-- amounts micro-USD. A dictionary is a function with a default where the source reads it with one.
pub mod Watch
pub mod Cost
pub mod Notify
pub mod Tests
use geoji_agent.Base.{
  ℕ, suc, ◌+◌, ◌-◌, ◌*◌, ◌/◌, Bool, true, false, not, ◌&&◌, ◌||◌, Option, none, some, List, [], ◌∷◌,
  ltb, leb, ◌==◌, if◌then◌else◌, any,
}

-- ALERT_WINDOW_SECONDS
abbrev pub alert_window : ℕ
alert_window = 300_000_000

-- QueueAgeWatch.observe: the new `_since`, and whether it returns an alert.
unfoldable pub observe : (threshold sustain : ℕ) → Option ℕ → Option ℕ → ℕ → Option ℕ × Bool
observe threshold sustain since none now = (none, false)
observe threshold sustain since (some age) now =
    if leb age threshold then (none, false) else (elim since [
      | none ↦ (some now, not (ltb (now - now) sustain))
      | some s ↦ (some s, not (ltb (now - s) sustain))
    ])

abbrev pub krw_per_usd : ℕ
krw_per_usd = 1450

abbrev pub micro : ℕ
micro = 1_000_000

-- DailyCostTracker's state; `alerted` is a set of days.
pub record Costs : Type 0 where
  pub service : ℕ → ℕ
  pub evaluation : ℕ → ℕ
  pub alerted : List ℕ

abbrev pub no_costs : Costs
no_costs = record { service = λ d. 0; evaluation = λ d. 0; alerted = [] }

abbrev pub add_on : ℕ → ℕ → (ℕ → ℕ) → ℕ → ℕ
add_on day amount bucket d = if d == day then bucket d + amount else bucket d

-- DailyCostTracker.add
unfoldable pub add : ℕ → Bool → ℕ → Costs → Costs
add amount true day c = record c { evaluation = add_on day amount c.evaluation }
add amount false day c = record c { service = add_on day amount c.service }

-- The details of the cost alert.
pub record CostAlert : Type 0 where
  pub day : ℕ
  pub service_krw : ℕ
  pub eval_krw : ℕ
  pub threshold_krw : ℕ

abbrev pub was_alerted : ℕ → Costs → Bool
was_alerted day c = any (λ d. d == day) c.alerted

-- DailyCostTracker.check
unfoldable pub check : ℕ → ℕ → Costs → Option CostAlert × Costs
check threshold_krw day c =
    if was_alerted day c || ltb (c.service day * krw_per_usd) (threshold_krw * micro)
    then (none, c)
    else (
      some (record {
        day = day;
        service_krw = c.service day * krw_per_usd / micro;
        eval_krw = c.evaluation day * krw_per_usd / micro;
        threshold_krw = threshold_krw;
      }),
      record c { alerted = day ∷ c.alerted },
    )

-- AlertNotifier's state for one kind; the source keeps it in two dictionaries by kind.
pub record Sent : Type 0 where
  pub last_sent : Option ℕ
  pub suppressed : ℕ

abbrev pub never_sent : Sent
never_sent = record { last_sent = none; suppressed = 0 }

-- `now - last < window`
abbrev pub in_window : ℕ → ℕ → Option ℕ → Bool
in_window window now none = false
in_window window now (some last) = ltb (now - last) window

-- AlertNotifier.notify: what goes to the sink is the number of alerts grouped since the last; `none`
-- is an alert that is grouped itself.
unfoldable pub notify : ℕ → ℕ → Sent → Option ℕ × Sent
notify window now s =
    if in_window window now s.last_sent
    then (none, record s { suppressed = suc s.suppressed })
    else (some s.suppressed, record { last_sent = some now; suppressed = 0 })
