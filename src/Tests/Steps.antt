-- ===== src/Tests/Steps.antt =====
-- Steps that fail, are refused, or run in circles.
use cee.Prelude.{String, ◌≡◌, refl, false, List, [], ◌∷◌, ◌⊎◌, inl, reverse}
use cee.Maps.{lookup}
use cee.Value.{Context, Value}
use cee.Entities.{WorkflowResult}
use cee.Execution.Errors.{step_limit_exceeded, depth_limit_exceeded}
use cee.Execution.Texts.{error_text}
use cee.Execution.Exec.{ok, err, panic, Exec}
use cee.Execution.Types.{
  leaf, composite, CompositeStep, Machine, LeafStep, Workflow, step_id, circuit_breaker_policy_ref,
}
use cee.Execution.Failure.{fallback_of}
use cee.Execution.Compensate.{Completed, unwind, Unwound}
use cee.Execution.Compensate.Report.{Unwinds, Panics, unwind_reports}
use cee.Execution.Engine.{Frame, goto, leaf_step, break_circuit, loop, turn, run}
use cee.Execution.Engine.Gating.{refused_action}
use cee.Execution.Engine.Breaker.{
  break_circuit-fallback, break_circuit-Abandoned, Abandoned, IsDiverted, told,
}
use cee.Execution.Engine.Structural.{IsStructural, entered, loop-structural}
use cee.Execution.Engine.Depth.{run-nested, IsNested}
use cee.Tests.Data.{World, host, pay, fail, step_of, workflow_of, engine_of, start, at, refuse}

abbrev gated : LeafStep World
gated = step_of "pay" pay "account" "back" "" ""

abbrev shop : Workflow World
shop =
    workflow_of "pay"
      (("pay", leaf gated) ∷ ("refund", leaf (step_of "refund" pay "" "" "" "")) ∷ [])

refused_action_example :
    leaf_step host (engine_of shop) shop (record gated { run = fail }) (at "pay" []) 0 start
    ≡ leaf_step host (engine_of shop) shop gated (at "pay" []) 0 start
refused_action_example =
    refused_action host (engine_of shop) shop gated (at "pay" []) 0 start refuse
      (inl (record { healthy = false; detected_failure_mode = "closed" })) fail refl refl refl refl

break_circuit-fallback_example :
    (after : Frame) × (break_circuit host
        (engine_of shop)
        shop
        (leaf gated)
        "closed"
        (at "pay" [])
        start
      ≡ (ok (goto after), told shop (leaf gated) start))
    × IsDiverted "flag" "pay" "closed" (at "pay" []) after
unfolding lookup circuit_breaker_policy_ref step_id
break_circuit-fallback_example =
    break_circuit-fallback host (engine_of shop) shop (leaf gated) "closed" (at "pay" []) start
      (record { policy_id = "back"; fallback_step_ref = "flag" }) refl refl refl

abbrev paid_twice : List Completed
paid_twice =
    record { step_id = "one"; compensate_step = "refund" }
    ∷ record { step_id = "two"; compensate_step = "missing" }
    ∷ []

abbrev plain_step : LeafStep World
plain_step = step_of "pay" fail "" "" "" ""

break_circuit-Abandoned_example :
    Abandoned host shop "pay" "no funds" (at "pay" paid_twice) (told shop (leaf plain_step) start) (
      break_circuit host
        (engine_of shop)
        shop
        (leaf plain_step)
        "no funds"
        (at "pay" paid_twice)
        start)
unfolding fallback_of circuit_breaker_policy_ref step_id
break_circuit-Abandoned_example =
    break_circuit-Abandoned host (engine_of shop) shop (leaf plain_step) "no funds"
      (at "pay" paid_twice) start refl

unwind_reports_example :
    ((u : Unwound) × (m : Machine World) × (unwind host shop paid_twice [] start ≡ (ok u, m))
      × Unwinds host shop (reverse paid_twice) [] start u.undone u.failures m)
    ⊎ ((v : Value) × (m : Machine World) × (unwind host shop paid_twice [] start ≡ (panic v, m))
        × Panics host shop (reverse paid_twice) v m)
unwind_reports_example = unwind_reports host shop paid_twice [] start

-- a composite step into its own workflow
abbrev again : CompositeStep
again = record {
  step_id = "again";
  sub_workflow_ref = "w";
  circuit_breaker_policy_ref = "back";
  on_success = "";
}

abbrev nest : Workflow World
nest = workflow_of "again" (("again", composite again) ∷ [])

abbrev runaway : String → Context → Exec (Machine World) WorkflowResult
runaway ref ctx m = (err (step_limit_exceeded ref 5 []), m)

loop-structural_example :
    (IsStructural (step_limit_exceeded "w" 5 [])
      × (loop host (engine_of nest) "w" nest runaway 0 3 (at "again" []) start
          ≡ (err (step_limit_exceeded "w" 5 []), start)))
    ⊎ ((¬ IsStructural (step_limit_exceeded "w" 5 []))
        × (turn host (engine_of nest) "w" nest runaway 0 (at "again" []) start
            ≡ break_circuit host
                (engine_of nest)
                nest
                (composite again)
                (error_text host.show (step_limit_exceeded "w" 5 []))
                (entered host (engine_of nest) "w" nest runaway 0 again (at "again" []))
                start))
unfolding lookup
loop-structural_example =
    loop-structural host (engine_of nest) "w" nest runaway 0 2 again (at "again" []) start start
      (step_limit_exceeded "w" 5 []) refl refl refl

abbrev OnlyNest : String → Type 0
OnlyNest ref = ref ≡ "w"

nest-IsNested : IsNested (engine_of nest) OnlyNest
unfolding lookup
nest-IsNested = record {
  inner = λ ref p. again;
  outer = λ ref p. nest;
  registered = λ ref p. rw p refl;
  entry = λ ref p. refl;
  first = λ ref p. refl;
  nested = λ ref p. refl;
}

run-nested_example :
    (deepest : String) × OnlyNest deepest
    × (run host (engine_of nest) "w" [] start ≡ (err (depth_limit_exceeded deepest 2), start))
run-nested_example =
    run-nested host (engine_of nest) OnlyNest nest-IsNested 4 refl "w" [] start refl
