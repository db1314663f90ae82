-- ===== src/Scorecard/Agree.antt =====
-- The scorecard beside the diagnostics, told the same events.
use cee.Prelude.{ℕ, ◌<◌, ◌≡◌, refl, List, [], ◌∷◌, arith, true, false}
use cee.Execution.Types.{
  Event, observe_step, observe_sandbox_probe, observe_circuit_breaker, observe_probe_outcome,
  observe_suspension,
}
use cee.Scorecard.{Scorecard, snapshot, determinism_ratio, cognitive_ops}
use cee.Diagnostics as Diagnostics

-- What the scorecard of a run shows, beside the report of the diagnostics.
pub record IsOfRun (s : Scorecard) (r : Diagnostics.Report) : Type 0 where
  pub no_calls : s.llm_calls ≡ 0
  pub trips : s.circuit_breaker_trips ≡ r.breaker_trips

record_event-IsOfRun :
    (event : Event) (s : Scorecard) (r : Diagnostics.Report)
    → IsOfRun s r
    → IsOfRun (cee.Scorecard.record_event event s) (Diagnostics.record_event event r)
unfolding cee.Scorecard.record_event Diagnostics.record_event
record_event-IsOfRun (observe_step w i) s r h = record { no_calls = h.no_calls; trips = h.trips }
record_event-IsOfRun (observe_sandbox_probe w i) s r h = record {
  no_calls = h.no_calls;
  trips = h.trips;
}
record_event-IsOfRun (observe_circuit_breaker w i) s r h = record {
  no_calls = h.no_calls;
  trips = omega (arith, h.trips);
}
record_event-IsOfRun (observe_probe_outcome w i true) s r h = record {
  no_calls = h.no_calls;
  trips = h.trips;
}
record_event-IsOfRun (observe_probe_outcome w i false) s r h = record {
  no_calls = h.no_calls;
  trips = h.trips;
}
record_event-IsOfRun (observe_suspension w i) s r h = record {
  no_calls = h.no_calls;
  trips = h.trips;
}

snapshot-IsOfRun :
    (events : List Event)
    → IsOfRun (snapshot events) (Diagnostics.report_after Diagnostics.new_recorder events)
unfolding snapshot Diagnostics.report_after
snapshot-IsOfRun [] = record { no_calls = refl; trips = refl }
snapshot-IsOfRun (event ∷ events) = record_event-IsOfRun event _ _ (snapshot-IsOfRun events)

-- a ratio of 1
abbrev pub IsWhole : ℕ × ℕ → Type 0
IsWhole (part, total) = (part ≡ total) × (0 < total)

-- Two fresh recorders that are told only the events of the engine count the same trips of the circuit
-- breaker, and the scorecard's determinism ratio is 1: the engine alone calls no model.
pub snapshot_lem :
    (events : List Event)
    → ((snapshot events).circuit_breaker_trips
        ≡ (Diagnostics.report_after Diagnostics.new_recorder events).breaker_trips)
      × IsWhole (determinism_ratio (snapshot events))
unfolding determinism_ratio cognitive_ops
snapshot_lem events =
    let both = snapshot-IsOfRun events in (both.trips, ground (arith, both.no_calls))
