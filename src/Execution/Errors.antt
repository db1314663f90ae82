-- ===== src/Execution/Errors.antt =====
-- The error types of execution/*.go. A Go error is a chain of wrappings round a last
-- error; `errors.As` finds one of the engine's error types exactly when the last error has it.
use cee.Prelude.{ℕ, String, Bool, true, false, Option, none, some, List}
use cee.Value.{Value}

pub record CompensationFailure : Type 0 where
  pub step_id : String
  pub compensate_step : String
  pub reason : String

pub record BranchFailure : Type 0 where
  pub branch : String
  pub reason : String

pub data Err : Type 0 where
  plain : String → Err
  wrap : String → Err → Err
  circuit_breaker_tripped :
      (step_id reason : String) (compensated : List String)
      (compensation_failures : List CompensationFailure)
      → Err
  step_limit_exceeded : (workflow_id : String) (limit : ℕ) (recent_steps : List String) → Err
  depth_limit_exceeded : (workflow_id : String) (limit : ℕ) → Err
  suspended : (reason audience : String) → Err
  no_suspension_support : (workflow_id step_id : String) → Err
  nested_suspension_unsupported : (workflow_id step_id : String) → Err
  no_branches : (workflow_id step_id : String) → Err
  conflicting_branch_writes :
      (step_id field first_branch : String) (first_value : Value) (second_branch : String)
      (second_value : Value)
      → Err
  branches_failed : (step_id : String) (total : ℕ) (failures : List BranchFailure) → Err
  branch_panicked : (step_id branch : String) (value : Value) → Err
  not_authorized : (audience identity workflow_id reason : String) → Err

-- The last error of the chain, at which `errors.As` ends.
unfoldable pub cause : Err → Err
cause (wrap prefix e) = cause e
cause e = e

-- The seven error types that go round the circuit breaker.
abbrev pub is_structural : Err → Bool
is_structural (step_limit_exceeded w n r) = true
is_structural (depth_limit_exceeded w n) = true
is_structural (nested_suspension_unsupported w s) = true
is_structural (no_suspension_support w s) = true
is_structural (no_branches w s) = true
is_structural (conflicting_branch_writes s f b v c w) = true
is_structural (branch_panicked s b v) = true
is_structural e = false

unfoldable pub bypasses_breaker : Err → Bool
unfolding cause
bypasses_breaker e = is_structural (cause e)

-- errors.As(err, &suspended): the reason and the audience
unfoldable pub as_suspended : Err → Option (String × String)
unfolding cause
as_suspended e = elim (cause e) [ suspended reason audience ↦ some (reason, audience) | _ ↦ none ]

abbrev pub tripped_of : Err → Option Err
tripped_of (circuit_breaker_tripped step_id reason compensated failures) =
    some (circuit_breaker_tripped step_id reason compensated failures)
tripped_of e = none

abbrev pub denied_of : Err → Option Err
denied_of (not_authorized audience identity workflow_id reason) =
    some (not_authorized audience identity workflow_id reason)
denied_of e = none

-- errors.As(err, &tripped): the error of a circuit breaker
unfoldable pub as_tripped : Err → Option Err
unfolding cause
as_tripped e = tripped_of (cause e)

-- errors.As(err, &denied): the refusal of a caller
unfoldable pub as_denied : Err → Option Err
unfolding cause
as_denied e = denied_of (cause e)
