-- ===== src/Entities.antt =====
-- entities/entities.go: the data that the components exchange.
use cee.Prelude.{String, Bool, List}
use cee.Value.{Context}

pub record ProbeRequest : Type 0 where
  pub probe_ref : String
  pub domain_id : String
  pub step_context : Context

pub record ProbeResult : Type 0 where
  pub healthy : Bool
  pub detected_failure_mode : String

pub record WorkflowResult : Type 0 where
  pub output : Context
  pub state_pointer : String
  pub trace : List String

abbrev pub model_derived_key : String
model_derived_key = "cee.model_derived"

pub record IntentNode : Type 0 where
  pub node_id : String
  pub domain_id : String
  pub examples : List String
  pub entry_workflow_ref : String
  pub metadata : Context

pub record ExtractionRequest : Type 0 where
  pub raw_text : String
  pub schema_ref : String
  pub domain_id : String

pub record ExtractionResult : Type 0 where
  pub success : Bool
  pub structured_payload : Context
  pub model_derived : List String
  pub validation_errors : List String

-- `F` stands for float64.
pub record MatchResult (F : Type 0) : Type 0 where
  pub matched : Bool
  pub node_ref : String
  pub confidence : F
  pub entry_workflow_ref : String
