-- ===== src/Manifest/Graph.antt =====
-- The graphs that manifest/validate.go searches: the steps of a workflow by `on_success` and by fallback,
-- and the workflows by their sub-workflows.
pub mod EdgesOf
use cee.Prelude.{
  String, Bool, true, none, some, List, [], ◌∷◌, ◌++◌, ◌==◌, ◌&&◌, not, if◌then◌else◌, has, suc,
  length, Option, join, quote,
}
use cee.Maps.{Map, lookup, insert}
use cee.Manifest.Specs.{StepSpec, WorkflowSpec}
use cee.Manifest.FindCycle.{Edges, edges_of, find_cycle}
use cee.Manifest.Reach.{walk}
use cee.Manifest.Validate.{Issue, error_of, warning_of}

-- the ids of the steps that have one
unfoldable pub step_ids_of : List StepSpec → List String
step_ids_of [] = []
step_ids_of (s ∷ steps) =
    let rest = step_ids_of steps in if s.step_id == "" then rest else s.step_id ∷ rest

-- edges[from] = append(edges[from], targets...)
unfoldable pub add_edges : String → List String → Edges → Edges
add_edges from [] edges = edges
add_edges from (to ∷ targets) edges =
    add_edges from targets (insert from (edges_of edges from ++ to ∷ []) edges)

pub record Graph : Type 0 where
  pub order : List String
  pub success : Edges
  pub all_edges : Edges

module _ (step_ids : List String) (policy_fallbacks : Map String) where
  unfoldable pub success_targets : StepSpec → List String
  success_targets s =
      if not (s.on_success == "") && has s.on_success step_ids then s.on_success ∷ [] else []

  unfoldable pub fallback_targets : StepSpec → List String
  fallback_targets s = elim (lookup s.circuit_breaker_policy_ref policy_fallbacks) [
    | none ↦ []
    | some fallback ↦ if has fallback step_ids then fallback ∷ [] else []
  ]

  -- the body of the loop over the steps
  unfoldable pub add_step : StepSpec → Graph → Graph
  unfolding add_edges success_targets fallback_targets
  add_step s g = if s.step_id == "" then g else record {
    order = g.order ++ s.step_id ∷ [];
    success = add_edges s.step_id (success_targets s) g.success;
    all_edges =
        add_edges s.step_id (fallback_targets s)
          (add_edges s.step_id (success_targets s) g.all_edges);
  }

  unfoldable pub add_steps : List StepSpec → Graph → Graph
  unfolding add_step
  add_steps [] g = g
  add_steps (s ∷ steps) g = add_steps steps (add_step s g)

  abbrev pub step_graph : List StepSpec → Graph
  step_graph steps = add_steps steps (record { order = []; success = []; all_edges = [] })

abbrev pub cycle_issue : String → Option (List String) → Option (List String) → List Issue
cycle_issue workflow_id (some loop) _ = error_of (
    "workflow "
    ∷ quote workflow_id
    ∷ " has an on_success cycle: "
    ∷ join " -> " loop
    ∷ " -- Engine.Run would spin until it hits the step limit"
    ∷ [])
cycle_issue workflow_id none (some loop) = warning_of (
    "workflow "
    ∷ quote workflow_id
    ∷ " can loop through a circuit breaker fallback: "
    ∷ join " -> " loop
    ∷ " -- only spins if the steps keep failing, but it will not terminate on its own if they do"
    ∷ [])
cycle_issue workflow_id none none = []

unfoldable pub unreachable_issues : WorkflowSpec → List String → Map Bool → List Issue
unreachable_issues wf [] reached = []
unreachable_issues wf (id ∷ order) reached =
    elim (lookup id reached) [
      | some _ ↦ []
      | none ↦ warning_of (
          "workflow "
          ∷ quote wf.workflow_id
          ∷ " step "
          ∷ quote id
          ∷ " is unreachable from entry_step_id "
          ∷ quote wf.entry_step_id
          ∷ [])
    ]
    ++ unreachable_issues wf order reached

-- `walk_lem` shows that the fuel given is enough for a result.
abbrev pub reached_or : Option (Map Bool) → Map Bool
reached_or none = []
reached_or (some reached) = reached

abbrev pub reached_from : String → Graph → Map Bool
reached_from entry g = reached_or (walk g.all_edges (suc (length g.order)) entry [])

abbrev pub graph_issues : WorkflowSpec → Graph → List Issue
graph_issues wf g =
    cycle_issue wf.workflow_id (find_cycle g.order g.success) (find_cycle g.order g.all_edges)
    ++ unreachable_issues wf g.order (reached_from wf.entry_step_id g)

-- `validateStepGraph`
unfoldable pub validate_step_graph :
    WorkflowSpec → (step_ids : List String) → (policy_fallbacks : Map String) → List Issue
unfolding unreachable_issues add_steps
validate_step_graph wf step_ids policy_fallbacks =
    graph_issues wf (step_graph step_ids policy_fallbacks wf.steps)

-- the targets that a step has among the workflows
unfoldable pub known_branches : List String → List String → List String
known_branches known [] = []
known_branches known (branch ∷ branches) =
    let rest = known_branches known branches in
    if not (branch == "") && has branch known then branch ∷ rest else rest

unfoldable pub workflow_targets : List String → StepSpec → List String
unfolding known_branches
workflow_targets known s =
    (if s.kind == "composite" && (not (s.sub_workflow_ref == "") && has s.sub_workflow_ref known)
      then s.sub_workflow_ref ∷ []
      else [])
    ++ (if s.kind == "parallel" then known_branches known s.branches else [])

unfoldable pub add_calls : List String → String → List StepSpec → Edges → Edges
unfolding workflow_targets
add_calls known id [] edges = edges
add_calls known id (s ∷ steps) edges =
    add_calls known id steps (add_edges id (workflow_targets known s) edges)

unfoldable pub call_graph : List String → List WorkflowSpec → Edges → Edges
unfolding add_calls
call_graph known [] edges = edges
call_graph known (wf ∷ wfs) edges =
    call_graph known wfs (add_calls known wf.workflow_id wf.steps edges)

unfoldable pub workflow_ids_of : List WorkflowSpec → List String
workflow_ids_of [] = []
workflow_ids_of (wf ∷ wfs) = wf.workflow_id ∷ workflow_ids_of wfs

abbrev call_cycle_issue : Option (List String) → List Issue
call_cycle_issue none = []
call_cycle_issue (some loop) = error_of (
    "sub-workflow cycle: "
    ∷ join " -> " loop
    ∷ " -- Engine.Run would recurse until the process dies of stack overflow"
    ∷ [])

-- `validateSubWorkflowAcyclic`
unfoldable pub validate_sub_workflow_acyclic : List WorkflowSpec → List Issue
unfolding call_graph workflow_ids_of
validate_sub_workflow_acyclic wfs =
    let ids = workflow_ids_of wfs in call_cycle_issue (find_cycle ids (call_graph ids wfs []))
