-- ===== src/Manifest/Steps.antt =====
-- `buildStep` and `resolveAction` of manifest/manifest.go, and the loop over the steps of a workflow.
pub mod Checked
use cee.Prelude.{
  String, Bool, true, false, Option, none, some, List, [], ◌∷◌, ◌++◌, ◌⊎◌, inl, inr, ◌==◌, ◌&&◌,
  not, if◌then◌else◌, concat, quote, has,
}
use cee.Maps.{Map, lookup, insert}
use cee.Value.{Context}
use cee.Entities.{IntentNode}
use cee.Execution.Errors.{Err, plain, wrap}
use cee.Execution.Types.{
  Action, LeafStep, Step, leaf, composite, parallel, CircuitBreakerPolicy, Workflow,
}
use cee.Stdlib.Actions.{Factory, Library}
use cee.Registry.{Domain}
use cee.Manifest.Specs.{StepSpec, WorkflowSpec}

abbrev pub Hooks : Type 0 → Type 0
Hooks W = Map (Action W)

-- the return at the first error
infixl 5 ◌and_then◌
abbrev pub ◌and_then◌ : {A B : Type 0} → A ⊎ Err → (A → B ⊎ Err) → B ⊎ Err
inl a and_then f = f a
inr failure and_then f = inr failure

-- the place of a step, with which every message about it begins
abbrev pub located : (domain workflow : String) → StepSpec → String
located domain workflow spec = concat (
    "manifest: domain "
    ∷ quote domain
    ∷ " workflow "
    ∷ quote workflow
    ∷ " step "
    ∷ quote spec.step_id
    ∷ [])

abbrev pub bad_step : {A : Type 0} → (domain workflow : String) → StepSpec → List String → A ⊎ Err
bad_step domain workflow spec what = inr (plain (concat (located domain workflow spec ∷ what)))

-- The loop over the branches, with those seen so far.
unfoldable pub check_branches :
    (domain workflow : String) → StepSpec → List String → List String → (Unit {0}) ⊎ Err
check_branches domain workflow spec [] seen = inl tt
check_branches domain workflow spec (branch ∷ branches) seen =
    let rest = check_branches domain workflow spec branches (branch ∷ seen) in
    if branch == ""
    then bad_step domain workflow spec (" lists an empty branch" ∷ [])
    else if has branch seen
    then bad_step domain workflow spec (
        " lists branch "
        ∷ quote branch
        ∷ " twice; running one workflow twice in parallel joins it against itself"
        ∷ [])
    else rest

module _ {W : Type 0} (hooks : Hooks W) (std : Library W) where
  abbrev pub action_failure :
      {A : Type 0} → (domain workflow : String) → StepSpec → A ⊎ Err → A ⊎ Err
  action_failure domain workflow spec (inl action) = inl action
  action_failure domain workflow spec (inr failure) = inr (
      wrap (concat (located domain workflow spec ∷ " action " ∷ quote spec.action_ref ∷ ": " ∷ []))
        failure)

  -- an action of the standard library, or else of the hooks
  unfoldable pub resolve_action : (domain workflow : String) → StepSpec → Action W ⊎ Err
  resolve_action domain workflow spec = elim (lookup spec.action_ref std) [
    | some factory ↦ action_failure domain workflow spec (factory spec.params)
    | none ↦ elim (lookup spec.action_ref hooks) [
      | some action ↦ inl action
      | none ↦ bad_step domain workflow spec (
          " references unregistered action_ref "
          ∷ quote spec.action_ref
          ∷ " (not in the standard library or the provided hooks)"
          ∷ [])
    ]
  ]

  abbrev pub leaf_of : StepSpec → Action W → Step W
  leaf_of spec action = leaf (record {
    step_id = spec.step_id;
    run = action;
    sandbox_probe_ref = spec.sandbox_probe_ref;
    circuit_breaker_policy_ref = spec.circuit_breaker_policy_ref;
    on_success = spec.on_success;
    compensate_step_ref = spec.compensate_with;
  })

  abbrev pub composite_of : StepSpec → Step W
  composite_of spec = composite (record {
    step_id = spec.step_id;
    sub_workflow_ref = spec.sub_workflow_ref;
    circuit_breaker_policy_ref = spec.circuit_breaker_policy_ref;
    on_success = spec.on_success;
  })

  abbrev pub parallel_of : StepSpec → Step W
  parallel_of spec = parallel (record {
    step_id = spec.step_id;
    branches = spec.branches;
    circuit_breaker_policy_ref = spec.circuit_breaker_policy_ref;
    on_success = spec.on_success;
  })

  unfoldable pub build_leaf : (domain workflow : String) → StepSpec → Step W ⊎ Err
  unfolding resolve_action
  build_leaf domain workflow spec =
      resolve_action domain workflow spec and_then λ action. inl (leaf_of spec action)

  abbrev pub build_composite : (domain workflow : String) → StepSpec → Step W ⊎ Err
  build_composite domain workflow spec =
      if spec.sub_workflow_ref == ""
      then bad_step domain workflow spec (" is composite but has no sub_workflow_ref" ∷ [])
      else inl (composite_of spec)

  unfoldable pub build_parallel : (domain workflow : String) → StepSpec → List String → Step W ⊎ Err
  build_parallel domain workflow spec [] =
      bad_step domain workflow spec (" is parallel but has no branches" ∷ [])
  build_parallel domain workflow spec (branch ∷ branches) =
      check_branches domain workflow spec (branch ∷ branches) [] and_then λ _.
      inl (parallel_of spec)

  unfoldable pub build_step : (domain workflow : String) → StepSpec → Step W ⊎ Err
  unfolding build_leaf build_parallel
  build_step domain workflow spec =
      if spec.kind == "leaf"
      then build_leaf domain workflow spec
      else if spec.kind == "composite"
      then build_composite domain workflow spec
      else if spec.kind == "parallel"
      then build_parallel domain workflow spec spec.branches
      else bad_step domain workflow spec (
          " has unknown type "
          ∷ quote spec.kind
          ∷ " (want \"leaf\", \"composite\" or \"parallel\")"
          ∷ [])

  -- the steps of a workflow, one after another into the map
  unfoldable pub build_steps :
      (domain workflow : String) → List StepSpec → Map (Step W) → Map (Step W) ⊎ Err
  unfolding build_step
  build_steps domain workflow [] steps = inl steps
  build_steps domain workflow (spec ∷ specs) steps =
      build_step domain workflow spec and_then λ step.
      build_steps domain workflow specs (insert spec.step_id step steps)

  -- A workflow gets its domain only when it is registered.
  abbrev pub workflow_of : WorkflowSpec → Map (Step W) → Workflow W
  workflow_of spec steps = record {
    workflow_id = spec.workflow_id;
    domain_id = "";
    entry_step_id = spec.entry_step_id;
    steps = steps;
  }

  unfoldable pub build_workflows : (domain : String) → List WorkflowSpec → List (Workflow W) ⊎ Err
  unfolding build_steps
  build_workflows domain [] = inl []
  build_workflows domain (spec ∷ specs) =
      build_steps domain spec.workflow_id spec.steps [] and_then λ steps.
      build_workflows domain specs and_then λ ws. inl (workflow_of spec steps ∷ ws)
