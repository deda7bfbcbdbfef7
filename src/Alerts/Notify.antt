-- ===== src/Alerts/Notify.antt =====
-- The grouping of alerts of telemetry/alerts.py.
use geoji_agent.Base.{ℕ, suc, ◌+◌, ◌≤◌, ◌≡◌, refl, Option, none, some, List, [], ◌∷◌, arith, length}
use geoji_agent.Alerts.{Sent, notify, never_sent}

-- The state after alerts at the given times, in their order.
abbrev pub after : ℕ → Sent → List ℕ → Sent
unfolding notify
after window s [] = s
after window s (t ∷ ts) = after window (notify window t s).1 ts

-- What the sink has been told of: an alert sent counts itself and the ones grouped with it.
abbrev pub told : ℕ → Sent → List ℕ → ℕ
unfolding notify
told window s [] = 0
told window s (t ∷ ts) =
    (elim (notify window t s).0 [ none ↦ 0 | some n ↦ suc n ])
    + told window (notify window t s).1 ts

told-grouped :
    (window : ℕ) (s : Sent) (ts : List ℕ)
    → told window s ts + (after window s ts).suppressed ≡ length ts + s.suppressed
unfolding notify
told-grouped window s [] = refl
told-grouped window s (t ∷ ts) = ground (arith, told-grouped window (notify window t s).1 ts)

-- No alert is forgotten: after any sequence of alerts of a kind, those that the sink was told of, sent
-- or counted in a later one, and those still held back are all of them.
pub told_complete :
    (window : ℕ) (ts : List ℕ)
    → told window never_sent ts + (after window never_sent ts).suppressed ≡ length ts
told_complete window ts = omega (arith, told-grouped window never_sent ts)

-- The times at which something was sent.
abbrev pub sent_at : ℕ → Sent → List ℕ → List ℕ
unfolding notify
sent_at window s [] = []
sent_at window s (t ∷ ts) =
    let rest = sent_at window (notify window t s).1 ts in
    elim (notify window t s).0 [ none ↦ rest | some _ ↦ t ∷ rest ]

-- Each time is at least a window after the one before it.
abbrev pub Spaced : ℕ → Option ℕ → List ℕ → Type 0
Spaced window last [] = Unit
Spaced window none (t ∷ ts) = Spaced window (some t) ts
Spaced window (some s) (t ∷ ts) = (s + window ≤ t) × Spaced window (some t) ts

sent_at-Spaced_from :
    (window : ℕ) (s : Sent) (ts : List ℕ)
    → 1 ≤ window
    → Spaced window s.last_sent (sent_at window s ts)
unfolding notify
sent_at-Spaced_from window s [] w = tt
sent_at-Spaced_from window s (t ∷ ts) w =
    ground (arith, sent_at-Spaced_from window (notify window t s).1 ts w)

-- Alerts of a kind that are sent are at least a window apart.
pub sent_at-Spaced :
    (window : ℕ) (ts : List ℕ) → 1 ≤ window → Spaced window none (sent_at window never_sent ts)
sent_at-Spaced window ts w = sent_at-Spaced_from window never_sent ts w
