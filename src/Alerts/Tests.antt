-- ===== src/Alerts/Tests.antt =====
-- Runs of telemetry/alerts.py.
use geoji_agent.Base.{ℕ, ◌≡◌, refl, true, false, none, some, List, [], ◌∷◌}
use geoji_agent.Alerts.{never_sent, notify}
use geoji_agent.Alerts.Watch.{Observation, alerts, lasts, row_start, alerts-sustained}
use geoji_agent.Alerts.Cost.{Ask, adds, checks}
use geoji_agent.Alerts.Notify.{sent_at}

abbrev earlier : List Observation
earlier = (some 80, 400) ∷ (some 75, 200) ∷ (none, 100) ∷ []

alerts-sustained_example :
    alerts 60 300 ((some 90, 500) ∷ earlier)
    ≡ lasts 300 500 (row_start 60 ((some 90, 500) ∷ earlier))
alerts-sustained_example = alerts-sustained 60 300 (some 90) 500 earlier

abbrev asks : List Ask
asks =
    adds 4_000_000 false 1 ∷ adds 9_000_000 true 1 ∷ checks 1 ∷ adds 1_000 false 1 ∷ checks 1 ∷ []

abbrev times : List ℕ
times = 10 ∷ 20 ∷ 310 ∷ 320 ∷ []

sent_twice : sent_at 300 never_sent times ≡ 10 ∷ 310 ∷ []
unfolding notify
sent_twice = refl
