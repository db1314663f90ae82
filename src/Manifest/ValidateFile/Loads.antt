-- ===== src/Manifest/ValidateFile/Loads.antt =====
-- A file that is reported without an error loads.
use cee.Prelude.{
  String, ◌≡◌, refl, ap, ◌∙◌, true, none, some, List, [], ◌∷◌, ◌++◌, inl, inr, ◌==◌, Bool-cases,
}
use cee.Maps.{Map, lookup, insert}
use cee.Value.{Value}
use cee.Entities.{IntentNode}
use cee.Execution.Types.{Action, Step, Workflow}
use cee.Stdlib.Actions.{Library}
use cee.Registry.{Domain}
use cee.Manifest.Specs.{File, IntentSpec, StepSpec, WorkflowSpec, conflicting_entry}
use cee.Manifest.Steps.{Hooks, ◌and_then◌, build_steps, build_workflows, workflow_of}
use cee.Manifest.Load.{build_intents, node_of, build_domain}
use cee.Manifest.Load.Shaped.{made, domain_of}
use cee.Manifest.Graph.{step_ids_of, workflow_ids_of, validate_sub_workflow_acyclic}
use cee.Manifest.Validate.{is_ok, validate_step}
use cee.Manifest.Validate.Sound.{is_ok-append, validate_step-build_step}
use cee.Manifest.ValidateFile.{
  step_id_issues, entry_issues, steps_issues, missing_workflow_id, validate_workflow,
  workflows_issues, policy_issues, fallbacks_of, intent_id_issues, entry_ref_issues, target_issues,
  intents_issues, name_issues, validate_file,
}

module _ {W : Type 0} (show : Value → String) (std : Library W) (hooks : Hooks W)
    (fallbacks : Map String) (workflow_ids : List String) where
  -- the hooks have the actions of the leaf steps that the library lacks
  abbrev pub StepsProvided : List StepSpec → Type 0
  StepsProvided [] = Unit
  StepsProvided (s ∷ steps) =
      ((s.kind == "leaf") ≡ true
        → lookup s.action_ref std ≡ none
        → (a : Action W) × (lookup s.action_ref hooks ≡ some a))
      × StepsProvided steps

  abbrev pub AllProvided : List WorkflowSpec → Type 0
  AllProvided [] = Unit
  AllProvided (wf ∷ wfs) = StepsProvided wf.steps × AllProvided wfs

  build_steps_total :
      (domain : String) (wf : WorkflowSpec) (ids : List String) (specs : List StepSpec)
      (steps : Map (Step W))
      → is_ok (steps_issues show std wf ids workflow_ids fallbacks specs) ≡ true
      → StepsProvided specs
      → (built : Map (Step W)) × (build_steps hooks std domain wf.workflow_id specs steps
          ≡ inl built)
  unfolding steps_issues build_steps
  build_steps_total domain wf ids [] steps h p = (steps, refl)
  build_steps_total domain wf ids (s ∷ specs) steps h p =
      let (here, later) =
        is_ok-append (validate_step show std wf.workflow_id ids workflow_ids fallbacks s)
          (steps_issues show std wf ids workflow_ids fallbacks specs) h in
      let (step, b) =
        validate_step-build_step show std wf.workflow_id ids workflow_ids fallbacks s hooks domain
          here p.0 in
      let (built, q) =
        build_steps_total domain wf ids specs (insert s.step_id step steps) later p.1 in
      (
        built,
        ap
              (λ x. x and_then λ step.
                build_steps hooks std domain wf.workflow_id specs (insert s.step_id step steps))
              b
            ∙ q,
      )

  build_workflows_total :
      (domain : String) (wfs : List WorkflowSpec)
      → is_ok (workflows_issues show std workflow_ids fallbacks wfs) ≡ true
      → AllProvided wfs
      → (ws : List (Workflow W)) × (build_workflows hooks std domain wfs ≡ inl ws)
  unfolding workflows_issues validate_workflow build_workflows
  build_workflows_total domain [] h p = ([], refl)
  build_workflows_total domain (wf ∷ wfs) h p =
      let ids = step_ids_of wf.steps in
      let later = steps_issues show std wf ids workflow_ids fallbacks wf.steps in
      let entry = entry_issues wf ids fallbacks in
      let named = step_id_issues wf.workflow_id wf.steps [] in
      let (here, rest) =
        is_ok-append (missing_workflow_id show std wf ++ (named ++ (entry ++ later)))
          (workflows_issues show std workflow_ids fallbacks wfs) h in
      let (a, here₁) =
        is_ok-append (missing_workflow_id show std wf) (named ++ (entry ++ later)) here in
      let (b, here₂) = is_ok-append named (entry ++ later) here₁ in
      let (c, d) = is_ok-append entry later here₂ in
      let (steps, q) = build_steps_total domain wf ids wf.steps [] d p.0 in
      let (ws, r) = build_workflows_total domain wfs rest p.1 in
      (
        workflow_of hooks std wf steps ∷ ws,
        ap
              (λ x. x and_then λ steps. build_workflows hooks std domain wfs and_then λ ws.
                inl (workflow_of hooks std wf steps ∷ ws))
              q
            ∙ ap (λ x. x and_then λ ws. inl (workflow_of hooks std wf steps ∷ ws)) r,
      )

  build_intents_total :
      (domain : String) (intents : List IntentSpec)
      → is_ok (intents_issues show std workflow_ids intents) ≡ true
      → (nodes : List IntentNode) × (build_intents domain intents ≡ inl nodes)
  unfolding intents_issues build_intents is_ok
  build_intents_total domain [] h = ([], refl)
  build_intents_total domain (intent ∷ intents) h =
      let id = intent_id_issues show std intent in
      let entry = entry_ref_issues show std intent in
      let target = target_issues show std workflow_ids intent in
      let (here, rest) =
        is_ok-append (id ++ (entry ++ target)) (intents_issues show std workflow_ids intents) h in
      let (a, here₁) = is_ok-append id (entry ++ target) here in
      let (b, c) = is_ok-append entry target here₁ in
      let (nodes, q) = build_intents_total domain intents rest in
      elim (Bool-cases (conflicting_entry intent)) [
        | inl e ↦ absurd (cc (rw e at b))
        | inr e ↦ (
          node_of domain intent ∷ nodes,
          rw e (ap (λ x. x and_then λ nodes. inl (node_of domain intent ∷ nodes)) q),
        )
      ]

module _ {W : Type 0} (show : Value → String) (std : Library W) (hooks : Hooks W) where
  -- A file that is reported without an error is turned into a domain by the loader with the same
  -- library, if the hooks have the actions that its leaf steps name and the library lacks.
  pub validate_file-build_domain :
      (file : File)
      → is_ok (validate_file show std file) ≡ true
      → AllProvided show std hooks
          (fallbacks_of show std file.policies [])
          (workflow_ids_of file.workflows)
          file.workflows
      → (d : Domain W) × (build_domain hooks std file ≡ inl d)
  unfolding validate_file build_domain is_ok
  validate_file-build_domain file h provided =
      let ids = workflow_ids_of file.workflows in
      let policies = fallbacks_of show std file.policies [] in
      let named = name_issues show std file in
      let policy = policy_issues show std file.policies in
      let flows = workflows_issues show std ids policies file.workflows in
      let calls = validate_sub_workflow_acyclic file.workflows in
      let intents = intents_issues show std ids file.intents in
      let (a, h₁) = is_ok-append named (policy ++ (flows ++ (calls ++ intents))) h in
      let (b, h₂) = is_ok-append policy (flows ++ (calls ++ intents)) h₁ in
      let (c, h₃) = is_ok-append flows (calls ++ intents) h₂ in
      let (d, i) = is_ok-append calls intents h₃ in
      let (ws, p) =
        build_workflows_total show std hooks policies ids file.name file.workflows c provided in
      let (nodes, q) = build_intents_total show std hooks policies ids file.name file.intents i in
      elim (Bool-cases (file.name == "")) [
        | inl e ↦ absurd (cc (rw e at a))
        | inr e ↦ (
          domain_of hooks std file nodes ws,
          rw e (
              ap (λ x. x and_then made hooks std file) q
              ∙ ap (λ x. x and_then λ ws. inl (domain_of hooks std file nodes ws)) p),
        )
      ]
