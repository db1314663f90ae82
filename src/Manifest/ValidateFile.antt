-- ===== src/Manifest/ValidateFile.antt =====
-- `validateWorkflow` and `Validate` of manifest/validate.go. What a function adds to the report is the
-- list of issues that it returns. `json.Unmarshal` is a parameter, and a set of ids is a list.
pub mod Acyclic
pub mod Loads
use cee.Prelude.{
  String, Bool, true, false, none, some, List, [], ◌∷◌, ◌++◌, ◌⊎◌, inl, inr, ◌==◌, not,
  if◌then◌else◌, has, has_char, quote,
}
use cee.Maps.{Map, lookup, insert}
use cee.Value.{Value}
use cee.Execution.Errors.{Err}
use cee.Execution.Texts.{error_text}
use cee.Stdlib.Actions.{Library}
use cee.Manifest.Specs.{
  File, IntentSpec, PolicySpec, StepSpec, WorkflowSpec, entry_workflow, conflicting_entry,
}
use cee.Manifest.Validate.{Issue, error_of, warning_of, validate_step}
use cee.Manifest.Graph.{
  step_ids_of, validate_step_graph, validate_sub_workflow_acyclic, workflow_ids_of,
}

abbrev pub duplicate_issues : String → StepSpec → List String → List Issue
duplicate_issues workflow_id s seen =
    if has s.step_id seen
    then error_of
        ("workflow " ∷ quote workflow_id ∷ " has duplicate step_id " ∷ quote s.step_id ∷ [])
    else []

unfoldable pub step_id_issues : String → List StepSpec → List String → List Issue
step_id_issues workflow_id [] seen = []
step_id_issues workflow_id (s ∷ steps) seen =
    if s.step_id == ""
    then error_of ("workflow " ∷ quote workflow_id ∷ " has a step with no step_id" ∷ [])
      ++ step_id_issues workflow_id steps seen
    else duplicate_issues workflow_id s seen ++ step_id_issues workflow_id steps (s.step_id ∷ seen)

unfoldable pub entry_issues : WorkflowSpec → List String → Map String → List Issue
entry_issues wf step_ids policy_fallbacks =
    if wf.entry_step_id == ""
    then error_of ("workflow " ∷ quote wf.workflow_id ∷ " has no entry_step_id" ∷ [])
    else if has wf.entry_step_id step_ids
    then validate_step_graph wf step_ids policy_fallbacks
    else error_of (
        "workflow "
        ∷ quote wf.workflow_id
        ∷ " entry_step_id "
        ∷ quote wf.entry_step_id
        ∷ " is not one of its steps"
        ∷ [])

module _ {W : Type 0} (show : Value → String) (std : Library W) where
  unfoldable pub steps_issues :
      WorkflowSpec → (step_ids workflow_ids : List String) → Map String → List StepSpec → List Issue
  steps_issues wf step_ids workflow_ids policy_fallbacks [] = []
  steps_issues wf step_ids workflow_ids policy_fallbacks (s ∷ steps) =
      validate_step show std wf.workflow_id step_ids workflow_ids policy_fallbacks s
      ++ steps_issues wf step_ids workflow_ids policy_fallbacks steps

  abbrev pub missing_workflow_id : WorkflowSpec → List Issue
  missing_workflow_id wf =
      if wf.workflow_id == "" then error_of ("a workflow is missing workflow_id" ∷ []) else []

  -- `validateWorkflow`
  unfoldable pub validate_workflow : List String → Map String → WorkflowSpec → List Issue
  unfolding step_ids_of step_id_issues entry_issues steps_issues
  validate_workflow workflow_ids policy_fallbacks wf =
      let step_ids = step_ids_of wf.steps in
      missing_workflow_id wf
      ++ (step_id_issues wf.workflow_id wf.steps []
          ++ (entry_issues wf step_ids policy_fallbacks
              ++ steps_issues wf step_ids workflow_ids policy_fallbacks wf.steps))

  unfoldable pub workflows_issues : List String → Map String → List WorkflowSpec → List Issue
  unfolding validate_workflow
  workflows_issues workflow_ids policy_fallbacks [] = []
  workflows_issues workflow_ids policy_fallbacks (wf ∷ wfs) =
      validate_workflow workflow_ids policy_fallbacks wf
      ++ workflows_issues workflow_ids policy_fallbacks wfs

  unfoldable pub policy_issues : List PolicySpec → List Issue
  policy_issues [] = []
  policy_issues (p ∷ policies) =
      (if p.policy_id == ""
        then error_of ("a policy is missing policy_id" ∷ [])
        else if p.fallback_step_ref == ""
        then error_of ("policy " ∷ quote p.policy_id ∷ " has no fallback_step_ref" ∷ [])
        else [])
      ++ policy_issues policies

  -- the map that the loop over the policies fills
  unfoldable pub fallbacks_of : List PolicySpec → Map String → Map String
  fallbacks_of [] fallbacks = fallbacks
  fallbacks_of (p ∷ policies) fallbacks =
      fallbacks_of policies
        (if p.policy_id == "" then fallbacks else insert p.policy_id p.fallback_step_ref fallbacks)

  abbrev pub intent_id_issues : IntentSpec → List Issue
  intent_id_issues intent =
      if intent.node_id == ""
      then error_of ("an intent is missing node_id" ∷ [])
      else if has_char 46 intent.node_id
      then []
      else warning_of (
          "intent node_id "
          ∷ quote intent.node_id
          ∷ " has no domain prefix (convention: <domain>.<name>)"
          ∷ [])

  abbrev pub entry_ref_issues : IntentSpec → List Issue
  entry_ref_issues intent =
      if conflicting_entry intent
      then error_of (
          "intent "
          ∷ quote intent.node_id
          ∷ " sets both entry_workflow_ref ("
          ∷ quote intent.entry_workflow_ref
          ∷ ") and the deprecated entry_step_ref ("
          ∷ quote intent.deprecated_entry_step_ref
          ∷ ") to different values; keep one"
          ∷ [])
      else if intent.deprecated_entry_step_ref == ""
      then []
      else warning_of (
          "intent "
          ∷ quote intent.node_id
          ∷ " uses entry_step_ref, which is deprecated and will be removed; rename it to "
          ∷ "entry_workflow_ref (the value is a workflow_id, which is what the old name got wrong)"
          ∷ [])

  abbrev pub target_issues : List String → IntentSpec → List Issue
  target_issues workflow_ids intent =
      if entry_workflow intent == ""
      then error_of ("intent " ∷ quote intent.node_id ∷ " has no entry_workflow_ref" ∷ [])
      else if has (entry_workflow intent) workflow_ids
      then []
      else error_of (
          "intent "
          ∷ quote intent.node_id
          ∷ " entry_workflow_ref "
          ∷ quote (entry_workflow intent)
          ∷ " does not match any workflow_id"
          ∷ [])

  unfoldable pub intents_issues : List String → List IntentSpec → List Issue
  intents_issues workflow_ids [] = []
  intents_issues workflow_ids (intent ∷ intents) =
      (intent_id_issues intent ++ (entry_ref_issues intent ++ target_issues workflow_ids intent))
      ++ intents_issues workflow_ids intents

  abbrev pub name_issues : File → List Issue
  name_issues file = if file.name == "" then error_of ("missing domain name" ∷ []) else []

  -- `Validate` from the decoded file on
  unfoldable pub validate_file : File → List Issue
  unfolding workflows_issues policy_issues fallbacks_of intents_issues
  validate_file file =
      let workflow_ids = workflow_ids_of file.workflows in
      name_issues file
      ++ (policy_issues file.policies
          ++ (workflows_issues workflow_ids (fallbacks_of file.policies []) file.workflows
              ++ (validate_sub_workflow_acyclic file.workflows
                  ++ intents_issues workflow_ids file.intents)))

  abbrev pub validate_decoded : File ⊎ Err → List Issue
  validate_decoded (inl file) = validate_file file
  validate_decoded (inr failure) = error_of ("invalid JSON: " ∷ error_text show failure ∷ [])

  unfoldable pub validate : {Bytes : Type 0} → (Bytes → File ⊎ Err) → Bytes → List Issue
  unfolding validate_file
  validate unmarshal text = validate_decoded (unmarshal text)
