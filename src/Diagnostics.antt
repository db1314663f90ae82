-- ===== src/Diagnostics.antt =====
-- diagnostics/diagnostics.go: the counters of a deployment. The printed text is not modelled. A rate
-- is the pair of its numerator and its denominator.
pub mod Bounds
use cee.Prelude.{ℕ, ◌+◌, Bool, true, false, eqb, List, [], ◌∷◌, if◌then◌else◌}
use cee.Execution.Types.{
  Event, observe_step, observe_sandbox_probe, observe_circuit_breaker, observe_probe_outcome,
  observe_suspension,
}

pub record Report : Type 0 where
  pub intent_matches : ℕ
  pub intent_misses : ℕ
  pub probes_run : ℕ
  pub probes_refused : ℕ
  pub runs : ℕ
  pub suspensions : ℕ
  pub breaker_trips : ℕ

abbrev pub new_recorder : Report
new_recorder = record {
  intent_matches = 0;
  intent_misses = 0;
  probes_run = 0;
  probes_refused = 0;
  runs = 0;
  suspensions = 0;
  breaker_trips = 0;
}

-- a share of nothing is zero
abbrev pub share : ℕ → ℕ → ℕ × ℕ
share part total = if eqb total 0 then (0, 1) else (part, total)

unfoldable pub intent_miss_rate : Report → ℕ × ℕ
intent_miss_rate r = share r.intent_misses (r.intent_matches + r.intent_misses)

unfoldable pub probe_refusal_rate : Report → ℕ × ℕ
probe_refusal_rate r = share r.probes_refused r.probes_run

unfoldable pub escalation_rate : Report → ℕ × ℕ
escalation_rate r = share r.suspensions r.runs

unfoldable pub observe_run : Report → Report
observe_run r = record r { runs = r.runs + 1 }

unfoldable pub observe_match : Bool → Report → Report
observe_match true r = record r { intent_matches = r.intent_matches + 1 }
observe_match false r = record r { intent_misses = r.intent_misses + 1 }

-- The methods that the engine calls.
unfoldable pub record_event : Event → Report → Report
record_event (observe_probe_outcome w s true) r = record r { probes_run = r.probes_run + 1 }
record_event (observe_probe_outcome w s false) r = record r {
  probes_run = r.probes_run + 1;
  probes_refused = r.probes_refused + 1;
}
record_event (observe_suspension w s) r = record r { suspensions = r.suspensions + 1 }
record_event (observe_circuit_breaker w s) r = record r { breaker_trips = r.breaker_trips + 1 }
record_event (observe_step w s) r = r
record_event (observe_sandbox_probe w s) r = r

-- The counters after the events, the latest first, from those before.
unfoldable pub report_after : Report → List Event → Report
unfolding record_event
report_after before [] = before
report_after before (event ∷ events) = record_event event (report_after before events)
