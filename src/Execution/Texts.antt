-- ===== src/Execution/Texts.antt =====
-- The `Error` methods of execution/*.go. `show` is what `fmt` prints of a value under %v; the
-- engine's own formats are written out.
use cee.Prelude.{
  String, List, [], ◌∷◌, ◌++◌, map, ◌==◌, if◌then◌else◌, length, concat, join, decimal, quote,
}
use cee.Value.{Value}
use cee.Execution.Errors.{
  Err, plain, wrap, circuit_breaker_tripped, step_limit_exceeded, depth_limit_exceeded, suspended,
  no_suspension_support, nested_suspension_unsupported, no_branches, conflicting_branch_writes,
  branches_failed, branch_panicked, not_authorized, CompensationFailure, BranchFailure,
}

unfoldable pub compensation_failure_text : CompensationFailure → String
compensation_failure_text f =
    concat (f.step_id ∷ " (via " ∷ f.compensate_step ∷ "): " ∷ f.reason ∷ [])

unfoldable pub branch_failure_text : BranchFailure → String
branch_failure_text f = concat (f.branch ∷ ": " ∷ f.reason ∷ [])

-- a part of the summary for a list that is not empty
abbrev part_of {ℓ} : {A : Type ℓ} → List A → String → List String
part_of [] s = []
part_of (x ∷ xs) s = s ∷ []

abbrev bracketed : List String → String
bracketed [] = ""
bracketed (p ∷ ps) = concat (" [" ∷ join " | " (p ∷ ps) ∷ "]" ∷ [])

unfoldable pub compensation_summary : List String → List CompensationFailure → String
unfolding compensation_failure_text
compensation_summary undone failures = bracketed (
    part_of undone (concat ("undone: " ∷ join ", " undone ∷ []))
    ++ part_of failures
        (concat ("COULD NOT UNDO: " ∷ join "; " (map compensation_failure_text failures) ∷ [])))

abbrev who : String → String
who identity = if identity == "" then "an unidentified caller" else identity

abbrev because : String → String
because reason = if reason == "" then "" else concat (": " ∷ reason ∷ [])

module _ (show : Value → String) where
  unfoldable pub error_text : Err → String
  unfolding compensation_summary branch_failure_text
  error_text (plain message) = message
  error_text (wrap prefix e) = concat (prefix ∷ error_text e ∷ [])
  error_text (circuit_breaker_tripped step_id reason compensated failures) = concat (
      "circuit breaker tripped at step "
      ∷ quote step_id
      ∷ ": "
      ∷ reason
      ∷ compensation_summary compensated failures
      ∷ [])
  error_text (step_limit_exceeded workflow_id limit recent_steps) = concat (
      "workflow "
      ∷ quote workflow_id
      ∷ " exceeded the "
      ∷ decimal limit
      ∷ " step limit (likely an on_success cycle); most recent steps: ["
      ∷ join " " recent_steps
      ∷ "]"
      ∷ [])
  error_text (depth_limit_exceeded workflow_id limit) = concat (
      "workflow "
      ∷ quote workflow_id
      ∷ " exceeded the "
      ∷ decimal limit
      ∷ " sub-workflow nesting limit (likely a sub_workflow_ref cycle)"
      ∷ [])
  error_text (suspended reason audience) = concat ("workflow suspended: " ∷ reason ∷ [])
  error_text (no_suspension_support workflow_id step_id) = concat (
      "step "
      ∷ quote step_id
      ∷ " in workflow "
      ∷ quote workflow_id
      ∷ " suspended but no Store is configured; call Engine.SetStore first"
      ∷ [])
  error_text (nested_suspension_unsupported workflow_id step_id) = concat (
      "step "
      ∷ quote step_id
      ∷ " suspended inside sub-workflow "
      ∷ quote workflow_id
      ∷ "; suspension is only supported at the top level"
      ∷ [])
  error_text (no_branches workflow_id step_id) = concat (
      "step "
      ∷ quote step_id
      ∷ " in workflow "
      ∷ quote workflow_id
      ∷ " is parallel but declares no branches"
      ∷ [])
  error_text (conflicting_branch_writes step_id field b v c w) = concat (
      "parallel step "
      ∷ quote step_id
      ∷ " cannot join: branches "
      ∷ quote b
      ∷ " and "
      ∷ quote c
      ∷ " both wrote "
      ∷ quote field
      ∷ ", as "
      ∷ show v
      ∷ " and "
      ∷ show w
      ∷ "; which one wins would depend on nothing the workflow states, so have them write "
      ∷ "different fields"
      ∷ [])
  error_text (branches_failed step_id total failures) = concat (
      decimal (length failures)
      ∷ " of "
      ∷ decimal total
      ∷ " branches of parallel step "
      ∷ quote step_id
      ∷ " failed: "
      ∷ join "; " (map branch_failure_text failures)
      ∷ [])
  error_text (branch_panicked step_id branch value) = concat (
      "branch "
      ∷ quote branch
      ∷ " of parallel step "
      ∷ quote step_id
      ∷ " panicked: "
      ∷ show value
      ∷ [])
  error_text (not_authorized audience identity workflow_id reason) = concat (
      who identity
      ∷ " may not resume "
      ∷ quote workflow_id
      ∷ " (audience "
      ∷ quote audience
      ∷ ")"
      ∷ because reason
      ∷ [])
