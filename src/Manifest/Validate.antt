-- ===== src/Manifest/Validate.antt =====
-- The checks that manifest/validate.go makes of one step, and of the report that they end in.
-- The checks of workflows and files are those of Manifest/ValidateFile and Manifest/Graph.
pub mod Sound
pub mod Refers
use cee.Prelude.{
  String, Bool, true, false, none, some, List, [], ◌∷◌, ◌++◌, inl, inr, ◌==◌, ◌&&◌, ◌||◌, not,
  if◌then◌else◌, concat, quote, has,
}
use cee.Maps.{Map, lookup}
use cee.Value.{Value}
use cee.Execution.Texts.{error_text}
use cee.Stdlib.Actions.{Library}
use cee.Manifest.Specs.{StepSpec}

pub data Severity : Type 0 where
  error : Severity
  warning : Severity

pub record Issue : Type 0 where
  pub severity : Severity
  pub message : String

abbrev pub is_error : Severity → Bool
is_error error = true
is_error warning = false

-- `Report.OK`
unfoldable pub is_ok : List Issue → Bool
is_ok [] = true
is_ok (issue ∷ issues) = let rest = is_ok issues in if is_error issue.severity then false else rest

abbrev pub error_of : List String → List Issue
error_of what = record { severity = error; message = concat what } ∷ []

abbrev pub warning_of : List String → List Issue
warning_of what = record { severity = warning; message = concat what } ∷ []

abbrev pub errf : String → List String → List Issue
errf place what = record { severity = error; message = concat (place ∷ ": " ∷ what) } ∷ []

abbrev pub warnf : String → List String → List Issue
warnf place what = record { severity = warning; message = concat (place ∷ ": " ∷ what) } ∷ []

-- what is wrong with a branch, given those seen before it
unfoldable pub branch_fault :
    String → (workflow_ids : List String) → List String → String → List Issue
branch_fault place workflow_ids seen branch =
    if branch == ""
    then errf place ("branches contains an empty workflow_id" ∷ [])
    else if not (has branch workflow_ids)
    then errf place ("branch " ∷ quote branch ∷ " does not match any workflow_id" ∷ [])
    else if has branch seen
    then errf place (
        "branch "
        ∷ quote branch
        ∷ " is listed twice; running one workflow twice in parallel joins it against itself"
        ∷ [])
    else []

-- The loop over the branches, with those seen so far, the faulty ones among them.
unfoldable pub branch_issues :
    String → (workflow_ids : List String) → List String → List String → List Issue
unfolding branch_fault
branch_issues place workflow_ids [] seen = []
branch_issues place workflow_ids (branch ∷ branches) seen =
    branch_fault place workflow_ids seen branch
    ++ branch_issues place workflow_ids branches (branch ∷ seen)

abbrev pub single : String → List String → List Issue
single place (branch ∷ []) =
    warnf place ("a parallel step with one branch is a composite step spelled the long way" ∷ [])
single place _ = []

module _ {W : Type 0} (show : Value → String) (std : Library W) (workflow_id : String)
    (step_ids workflow_ids : List String) (policy_fallbacks : Map String) (s : StepSpec) where
  abbrev pub place : String
  place = concat ("workflow " ∷ quote workflow_id ∷ " step " ∷ quote s.step_id ∷ [])

  abbrev pub misplaced : Bool
  misplaced = s.kind == "composite" || s.kind == "parallel"

  unfoldable pub on_success_issues : List Issue
  on_success_issues =
      if not (s.on_success == "") && not (has s.on_success step_ids)
      then errf place ("on_success " ∷ quote s.on_success ∷ " is not a step in this workflow" ∷ [])
      else []

  unfoldable pub compensation_issues : List Issue
  compensation_issues =
      if s.compensate_with == ""
      then []
      else (if has s.compensate_with step_ids
          then []
          else errf place (
              "compensate_with "
              ∷ quote s.compensate_with
              ∷ " is not a step in this workflow"
              ∷ []))
        ++ (if s.compensate_with == s.step_id
            then errf place ("compensate_with points at itself" ∷ [])
            else [])
        ++ (if misplaced
            then errf place ("only a leaf step can declare compensate_with" ∷ [])
            else [])

  unfoldable pub breaker_issues : List Issue
  breaker_issues =
      if s.circuit_breaker_policy_ref == ""
      then []
      else elim (lookup s.circuit_breaker_policy_ref policy_fallbacks) [
        | none ↦ errf place (
            "circuit_breaker_policy_ref "
            ∷ quote s.circuit_breaker_policy_ref
            ∷ " is not a declared policy"
            ∷ [])
        | some fallback ↦
            if not (fallback == "") && not (has fallback step_ids)
            then errf place (
                "policy "
                ∷ quote s.circuit_breaker_policy_ref
                ∷ " falls back to step "
                ∷ quote fallback
                ∷ ", which does not exist in this workflow"
                ∷ [])
            else []
      ]

  unfoldable pub action_issues : List Issue
  action_issues = elim (lookup s.action_ref std) [
    | none ↦ warnf place (
        "action_ref "
        ∷ quote s.action_ref
        ∷ " is not a standard action; its existence is verified against Go hooks at load time"
        ∷ [])
    | some factory ↦ elim (factory s.params) [
      | inl action ↦ []
      | inr failure ↦
          errf place
            ("action " ∷ quote s.action_ref ∷ " misconfigured: " ∷ error_text show failure ∷ [])
    ]
  ]

  unfoldable pub leaf_issues : List Issue
  unfolding action_issues
  leaf_issues =
      if s.action_ref == "" then errf place ("leaf step has no action_ref" ∷ []) else action_issues

  unfoldable pub composite_issues : List Issue
  composite_issues =
      if s.sub_workflow_ref == ""
      then errf place ("composite step has no sub_workflow_ref" ∷ [])
      else if has s.sub_workflow_ref workflow_ids
      then []
      else errf place
          ("sub_workflow_ref " ∷ quote s.sub_workflow_ref ∷ " does not match any workflow_id" ∷ [])

  unfoldable pub parallel_issues : List String → List Issue
  unfolding branch_issues
  parallel_issues [] = errf place ("parallel step has no branches" ∷ [])
  parallel_issues (branch ∷ branches) =
      branch_issues place workflow_ids (branch ∷ branches) [] ++ single place (branch ∷ branches)

  -- the switch on the type
  unfoldable pub kind_issues : List Issue
  unfolding leaf_issues composite_issues parallel_issues
  kind_issues =
      if s.kind == "leaf"
      then leaf_issues
      else if s.kind == "composite"
      then composite_issues
      else if s.kind == "parallel"
      then parallel_issues s.branches
      else errf place
          ("unknown type " ∷ quote s.kind ∷ " (want \"leaf\", \"composite\" or \"parallel\")" ∷ [])

  -- `validateStep`: what it adds to the report
  unfoldable pub validate_step : List Issue
  unfolding on_success_issues compensation_issues breaker_issues kind_issues
  validate_step = on_success_issues ++ (compensation_issues ++ (breaker_issues ++ kind_issues))
