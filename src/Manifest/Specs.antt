-- ===== src/Manifest/Specs.antt =====
-- The records of a manifest file, as manifest/manifest.go declares them.
use cee.Prelude.{String, Bool, List, ◌==◌, ◌&&◌, not, if◌then◌else◌}
use cee.Value.{Context}

pub record IntentSpec : Type 0 where
  pub node_id : String
  pub examples : List String
  pub entry_workflow_ref : String
  pub deprecated_entry_step_ref : String

pub record PolicySpec : Type 0 where
  pub policy_id : String
  pub fallback_step_ref : String

pub record StepSpec : Type 0 where
  pub step_id : String
  pub kind : String
  pub action_ref : String
  pub params : Context
  pub sandbox_probe_ref : String
  pub circuit_breaker_policy_ref : String
  pub on_success : String
  pub sub_workflow_ref : String
  pub branches : List String
  pub compensate_with : String

pub record WorkflowSpec : Type 0 where
  pub workflow_id : String
  pub entry_step_id : String
  pub steps : List StepSpec

pub record File : Type 0 where
  pub name : String
  pub intents : List IntentSpec
  pub policies : List PolicySpec
  pub workflows : List WorkflowSpec

unfoldable pub entry_workflow : IntentSpec → String
entry_workflow s =
    if s.entry_workflow_ref == "" then s.deprecated_entry_step_ref else s.entry_workflow_ref

unfoldable pub conflicting_entry : IntentSpec → Bool
conflicting_entry s =
    not (s.entry_workflow_ref == "")
    && (not (s.deprecated_entry_step_ref == "")
        && not (s.entry_workflow_ref == s.deprecated_entry_step_ref))
