-- ===== src/Tests/Diffs.antt =====
-- Two manifests of one workflow that pays, or that holds the money back.
use cee.Prelude.{
  String, Bool, ◌≡◌, refl, true, false, Option, none, some, List, [], ◌∷◌, ◌⊎◌, inl, has,
}
use cee.Maps.{lookup, insert, insert_all}
use cee.Value.{bool, Value}
use cee.Execution.Errors.{Err}
use cee.Execution.Exec.{ok, ◌>>=◌}
use cee.Execution.Types.{Action, outside, register_workflow, new_engine}
use cee.Execution.Failure.{observe, merge}
use cee.Execution.Engine.{
  turn, take_step, leaf_step, run_action, after_action, loop, run, run_from, enter,
}
use cee.Registry.{register_domain, register_policies, register_workflows}
use cee.Manifest.Specs.{File}
use cee.Manifest.Load.{load, build_domain}
use cee.Manifest.Steps.{build_workflows, build_steps, build_step}
use cee.Stdlib.Actions.{Library}
use cee.Policydiff.{Report, compare, build}
use cee.Bench.{SuiteEvent}
use cee.Policydiff.Unchanged.{IsUnchanged, compare-same}
use cee.Tests.Joins.{show}
use cee.Tests.Data.{World, pay, host, start}
use cee.Tests.Manifests.{step_spec}

abbrev hold : Action World
hold ctx w = (ok (("paid", bool false) ∷ []), w)

abbrev std : Library World
std = ("pay", λ params. inl pay) ∷ ("hold", λ params. inl hold) ∷ []

abbrev policy : String → File
policy action = record {
  name = "shop";
  intents = [];
  policies = [];
  workflows =
      record {
        workflow_id = "w";
        entry_step_id = "s";
        steps = record (step_spec "s" "leaf") { action_ref = action } ∷ [];
      }
      ∷ [];
}

abbrev unmarshal : Bool → File ⊎ Err
unmarshal true = inl (policy "pay")
unmarshal false = inl (policy "hold")

abbrev marshal : Value → Option String
marshal (bool true) = some "true"
marshal (bool false) = some "false"
marshal v = none

abbrev past : List SuiteEvent
past = record { workflow_ref = "w"; context = [] } ∷ []

compare-same_example :
    (rep : Report) × ((compare marshal show host unmarshal std true true past start).0 ≡ ok rep)
    × IsUnchanged rep
    × (rep.events ≡ 1)
unfolding load build_domain build_workflows build_steps build_step has lookup register_domain build
    run loop turn take_step leaf_step run_action after_action observe outside merge ◌>>=◌ insert
    insert_all run_from enter register_policies register_workflows register_workflow new_engine
compare-same_example =
    compare-same marshal show host unmarshal std true past start ((inl _, λ s. refl), tt)
