-- ===== src/Tests/Validation.antt =====
-- A workflow that passes the checks, and a graph with a cycle.
use cee.Prelude.{
  String, ◌≡◌, refl, true, none, some, [], ◌∷◌, inl, has, suc, ◌*◌, ◌≤◌, ◌↔◌, length, List, eq_iff,
  arith,
}
use cee.Maps.{lookup, insert, insert_all}
use cee.Value.{bool}
use cee.Execution.Exec.{◌>>=◌}
use cee.Execution.Types.{Step, Workflow, leaf, outside, step_id}
use cee.Execution.Failure.{observe, merge}
use cee.Execution.Engine.{Frame, turn, take_step, leaf_step, run_action, after_action}
use cee.Execution.Engine.Rounds.{Rounds, here, forward}
use cee.Registry.{Domain}
use cee.Manifest.Specs.{File, WorkflowSpec}
use cee.Manifest.Steps.{build_steps, workflow_of}
use cee.Manifest.Load.{build_domain}
use cee.Manifest.FindCycle.{Edges, edges_of, find_cycle}
use cee.Manifest.FindCycle.Walks.{Edge, IsCycle}
use cee.Manifest.FindCycle.Complete.{find_cycle_lem}
use cee.Manifest.Reach.{walk}
use cee.Manifest.Validate.{is_ok, validate_step}
use cee.Manifest.Graph.{validate_step_graph, validate_sub_workflow_acyclic, workflow_ids_of}
use cee.Manifest.ValidateFile.{fallbacks_of, validate_workflow, validate_file}
use cee.Manifest.ValidateFile.Acyclic.{validate_workflow-Rounds}
use cee.Manifest.ValidateFile.Loads.{validate_file-build_domain, StepsProvided}
use cee.Tests.Data.{step_of, World, host, pay, engine_of, start, at}
use cee.Tests.Joins.{show}
use cee.Tests.Manifests.{step_spec, hooks}
use cee.Tests.Waiting.{no_sub}

-- two steps, one after the other
abbrev two_steps : WorkflowSpec
two_steps = record {
  workflow_id = "w";
  entry_step_id = "pay";
  steps = record (step_spec "pay" "leaf") { on_success = "ship" } ∷ step_spec "ship" "leaf" ∷ [];
}

abbrev pub two_files : File
two_files = record { name = "shop"; intents = []; policies = []; workflows = two_steps ∷ [] }

-- a leaf step, a composite step into the two steps, and a parallel step
abbrev mixed_steps : WorkflowSpec
mixed_steps = record {
  workflow_id = "all";
  entry_step_id = "pay";
  steps =
      record (step_spec "pay" "leaf") { on_success = "inner" }
      ∷ record (step_spec "inner" "composite") {
        action_ref = "";
        sub_workflow_ref = "w";
        on_success = "both";
      }
      ∷ record (step_spec "both" "parallel") { action_ref = ""; branches = "w" ∷ "v" ∷ [] }
      ∷ [];
}

abbrev mixed_file : File
mixed_file = record two_files {
  workflows = two_steps ∷ record two_steps { workflow_id = "v" } ∷ mixed_steps ∷ [];
}

validate_file-build_domain_example : (d : Domain World) × (build_domain hooks [] mixed_file ≡ inl d)
unfolding validate_file is_ok has lookup validate_step_graph find_cycle insert walk validate_step
    validate_sub_workflow_acyclic workflow_ids_of fallbacks_of
validate_file-build_domain_example =
    validate_file-build_domain show [] hooks mixed_file refl (two, (two, (mixed, tt)))
  where
    two : StepsProvided show [] hooks [] ("w" ∷ "v" ∷ "all" ∷ []) two_steps.steps
    two = ((λ is_leaf missing. (pay, refl)), ((λ is_leaf missing. (pay, refl)), tt))

    mixed : StepsProvided show [] hooks [] ("w" ∷ "v" ∷ "all" ∷ []) mixed_steps.steps
    mixed = (
      (λ is_leaf missing. (pay, refl)),
      ((λ is_leaf missing. absurd (cc is_leaf)), ((λ is_leaf missing. absurd (cc is_leaf)), tt)),
    )

-- a pays b, and b pays a
abbrev ring : Edges
ring = ("a", "b" ∷ []) ∷ ("b", "a" ∷ []) ∷ []

ring_inside :
    (x y : String)
    → Edge ring x y
    → (has x ("a" ∷ "b" ∷ []) ≡ true) × (has y ("a" ∷ "b" ∷ []) ≡ true)
unfolding has edges_of lookup
ring_inside x y e = ground (arith, eq_iff "a" x, eq_iff "b" x, eq_iff "a" y, eq_iff "b" y)

find_cycle_lem_example :
    ((c : List String) → find_cycle ("a" ∷ "b" ∷ []) ring ≡ some c → IsCycle ring c)
    × ((find_cycle ("a" ∷ "b" ∷ []) ring ≡ none) ↔ ((c : List String) → ¬ IsCycle ring c))
find_cycle_lem_example = find_cycle_lem ring ("a" ∷ "b" ∷ []) ring_inside

-- the cycle that is found
ring_cycle : find_cycle ("a" ∷ "b" ∷ []) ring ≡ some ("a" ∷ "b" ∷ "a" ∷ [])
unfolding find_cycle lookup insert
ring_cycle = refl

abbrev built : List (String × Step World)
built =
    ("pay", leaf (step_of "pay" pay "" "" "ship" ""))
    ∷ ("ship", leaf (step_of "ship" pay "" "" "" ""))
    ∷ []

abbrev two : Workflow World
two = workflow_of hooks [] two_steps built

abbrev paid_once : Frame
paid_once = record {
  step_id = "ship";
  ctx = ("paid", bool true) ∷ [];
  done = [];
  trace = "pay" ∷ [];
}

-- the first round
one_round :
    Rounds host
      (engine_of two)
      two
      no_sub
      0
      "w"
      (at "pay" [])
      start
      1
      0
      paid_once
      (turn host (engine_of two) "w" two no_sub 0 (at "pay" []) start).1
unfolding turn take_step leaf_step run_action after_action observe merge outside ◌>>=◌ lookup
    step_id insert_all insert
one_round =
    forward here
      (record {
        not_the_end = refl;
        step = leaf (step_of "pay" pay "" "" "ship" "");
        found = refl;
        turned = refl;
      })
      refl

validate_workflow-Rounds_example : 1 ≤ length two_steps.steps * suc 0
unfolding validate_workflow is_ok has lookup build_steps insert validate_step_graph find_cycle walk
    validate_step
validate_workflow-Rounds_example =
    validate_workflow-Rounds show [] ("w" ∷ []) [] two_steps hooks "shop" {built = built} host
      (engine_of two) no_sub 0 "w" refl refl one_round
