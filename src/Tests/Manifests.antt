-- ===== src/Tests/Manifests.antt =====
-- A small manifest, read and registered.
use cee.Prelude.{String, ◌≡◌, refl, none, [], ◌∷◌, ◌⊎◌, inl, has}
use cee.Maps.{lookup}
use cee.Execution.Errors.{Err}
use cee.Execution.Types.{new_engine}
use cee.Registry.{Domain, Registry, new_registry}
use cee.Manifest.Specs.{File, StepSpec}
use cee.Manifest.Steps.{Hooks, build_step, build_steps, build_workflows, check_branches}
use cee.Manifest.Load.{load, build_domain}
use cee.Manifest.Load.Shaped.{load-IsLoaded, IsLoaded}
use cee.Manifest.Validate.{validate_step, is_ok, branch_fault}
use cee.Manifest.Validate.Refers.{validate_step-Refers, Known, MayUndo, MayFallBack}
use cee.Tests.Joins.{show}
use cee.Tests.Data.{World, pay, workflow_of}

abbrev pub step_spec : String → String → StepSpec
step_spec id kind = record {
  step_id = id;
  kind = kind;
  action_ref = "pay";
  params = [];
  sandbox_probe_ref = "";
  circuit_breaker_policy_ref = "";
  on_success = "";
  sub_workflow_ref = "";
  branches = "a" ∷ "b" ∷ [];
  compensate_with = "";
}

abbrev shop_file : File
shop_file = record {
  name = "shop";
  intents = [];
  policies = [];
  workflows =
      record {
        workflow_id = "w";
        entry_step_id = "fan";
        steps = step_spec "fan" "parallel" ∷ step_spec "pay" "leaf" ∷ [];
      }
      ∷ [];
}

abbrev pub hooks : Hooks World
hooks = ("pay", pay) ∷ []

abbrev unmarshal : String → File ⊎ Err
unmarshal text = inl shop_file

load-IsLoaded_example :
    (d : Domain World) × (load hooks [] unmarshal "{}" ≡ inl d) × IsLoaded hooks [] d
unfolding load build_domain build_workflows build_steps build_step check_branches has lookup
load-IsLoaded_example = (_, refl, load-IsLoaded hooks [] unmarshal "{}" refl)

abbrev small : Domain World
small = record { name = "shop"; intents = []; workflows = workflow_of "pay" [] ∷ []; policies = [] }

abbrev empty_registry : Registry World
empty_registry = new_registry [] (new_engine none)

abbrev fan : StepSpec
fan = record (step_spec "fan" "parallel") {
  on_success = "pay";
  circuit_breaker_policy_ref = "back";
}

validate_step-Refers_example :
    Known ("fan" ∷ "pay" ∷ []) "pay"
    × MayUndo ("fan" ∷ "pay" ∷ []) fan
    × MayFallBack ("fan" ∷ "pay" ∷ []) (("back", "pay") ∷ []) fan
unfolding validate_step is_ok branch_fault has lookup
validate_step-Refers_example =
    validate_step-Refers {W = World} show [] "w" ("fan" ∷ "pay" ∷ []) ("a" ∷ "b" ∷ [])
      (("back", "pay") ∷ []) fan refl
