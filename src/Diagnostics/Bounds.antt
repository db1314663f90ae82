-- ===== src/Diagnostics/Bounds.antt =====
-- The counters of the two recorders against the events that they were told.
use cee.Prelude.{ℕ, ◌≤◌, ◌<◌, true, false, List, [], ◌∷◌, arith}
use cee.Execution.Types.{
  Event, observe_step, observe_sandbox_probe, observe_circuit_breaker, observe_probe_outcome,
  observe_suspension,
}
use cee.Diagnostics.{Report, record_event, report_after, probe_refusal_rate, intent_miss_rate}

-- No more probes refused than ran.
pub record IsSound (r : Report) : Type 0 where
  pub refused : r.probes_refused ≤ r.probes_run

record_event-IsSound : (event : Event) (r : Report) → IsSound r → IsSound (record_event event r)
unfolding record_event
record_event-IsSound (observe_probe_outcome w s true) r h = omega arith
record_event-IsSound (observe_probe_outcome w s false) r h = omega arith
record_event-IsSound (observe_suspension w s) r h = omega arith
record_event-IsSound (observe_circuit_breaker w s) r h = omega arith
record_event-IsSound (observe_step w s) r h = omega arith
record_event-IsSound (observe_sandbox_probe w s) r h = omega arith

report_after-IsSound :
    (before : Report) (events : List Event) → IsSound before → IsSound (report_after before events)
unfolding report_after
report_after-IsSound before [] h = h
report_after-IsSound before (event ∷ events) h =
    record_event-IsSound event _ (report_after-IsSound before events h)

-- A rate, as a pair: its denominator is positive, and its numerator is at most the denominator.
abbrev pub IsRate : ℕ × ℕ → Type 0
IsRate (part, total) = (part ≤ total) × (0 < total)

-- Whatever the engine tells a sound recorder, the probe refusal rate and the intent miss rate lie
-- between 0 and 1.
pub rates_bounds :
    (before : Report) (events : List Event)
    → IsSound before
    → IsRate (probe_refusal_rate (report_after before events))
      × IsRate (intent_miss_rate (report_after before events))
unfolding probe_refusal_rate intent_miss_rate
rates_bounds before events h =
    let sound = report_after-IsSound before events h in ground (arith, sound.refused)
