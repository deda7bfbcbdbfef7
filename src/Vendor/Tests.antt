-- ===== src/Vendor/Tests.antt =====
-- Runs of domain/vendor_health.py on a short history.
use geoji_agent.Base.{◌≡◌, refl, true, false, List, [], ◌∷◌}
use geoji_agent.Retry.{server, transport, rate_limit}
use geoji_agent.Vendor.{
  is_degraded, record_failure, record_success, is_degraded_kind, append, degraded_at,
}
use geoji_agent.Vendor.Window.{Event, failure, success, replay, is_degraded_iff, down, streak}

abbrev history : List Event
history =
    failure server 50000000
    ∷ failure rate_limit 40000000
    ∷ failure transport 30000000
    ∷ failure server 20000000
    ∷ success
    ∷ failure server 1
    ∷ []

is_degraded_iff_example :
    is_degraded "xai" 60000000 (replay "xai" history) ≡ down 60000000 (streak history)
is_degraded_iff_example = is_degraded_iff "xai" 60000000 history

program : Unit {0}
unfolding is_degraded record_failure record_success is_degraded_kind append degraded_at
program = tt

history_is_down : is_degraded "xai" 60000000 (replay "xai" history) ≡ true
unfolding program
history_is_down = refl

history_is_forgotten : is_degraded "xai" 110000001 (replay "xai" history) ≡ false
unfolding program
history_is_forgotten = refl
