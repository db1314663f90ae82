-- ===== src/Scorecard.antt =====
-- scorecard/scorecard.go: the counters of one run. The clock and the printed text are not modelled.
-- A ratio is the pair of its numerator and its denominator.
pub mod Agree
use cee.Prelude.{ℕ, ◌+◌, eqb, List, [], ◌∷◌, if◌then◌else◌}
use cee.Execution.Types.{
  Event, observe_step, observe_sandbox_probe, observe_circuit_breaker, observe_probe_outcome,
  observe_suspension,
}

pub record Scorecard : Type 0 where
  pub deterministic_steps : ℕ
  pub llm_calls : ℕ
  pub sandbox_probes : ℕ
  pub circuit_breaker_trips : ℕ

unfoldable pub cognitive_ops : Scorecard → ℕ
cognitive_ops s = s.deterministic_steps + s.llm_calls

-- 1 where nothing was counted
unfoldable pub determinism_ratio : Scorecard → ℕ × ℕ
unfolding cognitive_ops
determinism_ratio s =
    if eqb (cognitive_ops s) 0 then (1, 1) else (s.deterministic_steps, cognitive_ops s)

unfoldable pub llm_calls_eliminated_vs_agent : Scorecard → ℕ
llm_calls_eliminated_vs_agent s = s.deterministic_steps

abbrev pub new_recorder : Scorecard
new_recorder = record {
  deterministic_steps = 0;
  llm_calls = 0;
  sandbox_probes = 0;
  circuit_breaker_trips = 0;
}

-- The methods of the recorder that the engine calls. It has none for a probe's outcome or for a
-- suspension, and the engine's type assertions pass it over for those.
unfoldable pub record_event : Event → Scorecard → Scorecard
record_event (observe_step w s) r = record r { deterministic_steps = r.deterministic_steps + 1 }
record_event (observe_sandbox_probe w s) r = record r { sandbox_probes = r.sandbox_probes + 1 }
record_event (observe_circuit_breaker w s) r = record r {
  circuit_breaker_trips = r.circuit_breaker_trips + 1;
}
record_event (observe_probe_outcome w s healthy) r = r
record_event (observe_suspension w s) r = r

unfoldable pub record_extraction : Scorecard → Scorecard
record_extraction r = record r { llm_calls = r.llm_calls + 1 }

-- The counters after the events, the latest first.
unfoldable pub snapshot : List Event → Scorecard
unfolding record_event
snapshot [] = new_recorder
snapshot (event ∷ events) = record_event event (snapshot events)
