-- ===== src/Tests/Library.antt =====
-- The action library, the sandbox and the counters.
use cee.Prelude.{true, false, [], ◌∷◌, arith}
use cee.Value.{Context, strings}
use cee.Entities.{ProbeRequest, model_derived_key}
use cee.Execution.Exec.{ok}
use cee.Execution.Types.{observe_probe_outcome}
use cee.Sandbox.{Sandbox}
use cee.Diagnostics.{report_after, new_recorder, probe_refusal_rate, intent_miss_rate}
use cee.Diagnostics.Bounds.{rates_bounds, IsRate}

abbrev guessed_amount : Context
guessed_amount = (model_derived_key, strings ("amount" ∷ [])) ∷ []

abbrev gate : ProbeRequest
gate = record { probe_ref = "gate"; domain_id = "shop"; step_context = [] }

abbrev box : Sandbox (Unit {0})
box = ("gate", (λ ctx w. (ok (true, ""), w))) ∷ []

rates_bounds_example :
    IsRate
      (probe_refusal_rate (report_after new_recorder (observe_probe_outcome "w" "s" false ∷ [])))
    × IsRate
        (intent_miss_rate (report_after new_recorder (observe_probe_outcome "w" "s" false ∷ [])))
rates_bounds_example =
    rates_bounds new_recorder (observe_probe_outcome "w" "s" false ∷ [])
      (record { refused = omega arith })
