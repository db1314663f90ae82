-- ===== src/Execution/Suspend.antt =====
-- `Engine.suspend` of execution/engine.go: a run that waits is saved under a fresh pointer.
pub mod Parks
use cee.Prelude.{Option, ◌⊎◌, ℕ, String, none, some, List, ltb, if◌then◌else◌, inl, inr}
use cee.Value.{Context}
use cee.Entities.{WorkflowResult}
use cee.Execution.Errors.{Err, wrap, nested_suspension_unsupported, no_suspension_support}
use cee.Execution.Exec.{Exec, pure, raise, attempt, ◌>>=◌}
use cee.Execution.Types.{Workflow, Store, State, Engine, Machine, Host, outside, observe_suspension}
use cee.Execution.Failure.{observe}

module _ {W : Type 0} (host : Host W) (e : Engine W) (workflow : Workflow W) where
  abbrev pub parked_state : String → String → String → String → Context → List String → State
  parked_state pointer step_id reason audience ctx trace = record {
    pointer = pointer;
    workflow_id = workflow.workflow_id;
    step_id = step_id;
    reason = reason;
    audience = audience;
    ctx = ctx;
    trace = trace;
  }

  -- what follows the save: the observer is told, and the result carries the pointer
  unfoldable pub after_save : State → (Unit {0}) ⊎ Err → Exec (Machine W) WorkflowResult
  after_save state (inl _) =
      observe (observe_suspension workflow.workflow_id state.step_id) >>= λ _.
      pure (record { output = state.ctx; state_pointer = state.pointer; trace = state.trace })
  after_save state (inr failed) = raise (wrap "could not save suspended workflow: " failed)

  unfoldable pub park : Store W → State → Exec (Machine W) WorkflowResult
  unfolding after_save
  park store state = attempt (outside (store.save state)) >>= after_save state

  -- a suspension at the top level, with the store of the engine
  unfoldable pub suspend_to :
      String
      → String × String
      → Context
      → List String
      → Option (Store W)
      → Exec (Machine W) WorkflowResult
  unfolding park
  suspend_to step_id waiting ctx trace none =
      raise (no_suspension_support workflow.workflow_id step_id)
  suspend_to step_id (reason, audience) ctx trace (some store) =
      outside host.new_pointer >>= λ pointer.
      park store (parked_state pointer step_id reason audience ctx trace)

  unfoldable pub suspend :
      String → String × String → Context → List String → ℕ → Exec (Machine W) WorkflowResult
  unfolding suspend_to
  suspend step_id waiting ctx trace depth =
      if ltb 0 depth
      then raise (nested_suspension_unsupported workflow.workflow_id step_id)
      else suspend_to step_id waiting ctx trace e.store
