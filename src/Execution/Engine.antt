-- ===== src/Execution/Engine.antt =====
-- `Engine.run` and `Engine.runFrom` of execution/engine.go. The step limit is the bound of the
-- recursion over the rounds that are left, and the depth limit that of the recursion over the levels
-- that are left: no fuel is added to what the source counts.
pub mod Gating
pub mod Breaker
pub mod Stays
pub mod Cycle
pub mod Resolved
pub mod Rounds
pub mod Structural
pub mod Depth
use cee.Prelude.{
  Option, ℕ, zero, suc, ◌+◌, String, Bool, false, none, some, List, [], ◌∷◌, ◌++◌, ◌⊎◌, inl, inr,
  ◌==◌, if◌then◌else◌, concat, quote,
}
use cee.Maps.{lookup}
use cee.Value.{Value, Context}
use cee.Entities.{WorkflowResult, ProbeRequest, ProbeResult}
use cee.Execution.Errors.{
  Err, plain, step_limit_exceeded, depth_limit_exceeded, bypasses_breaker, as_suspended,
}
use cee.Execution.Texts.{error_text}
use cee.Execution.Exec.{Exec, pure, raise, attempt, ◌>>=◌, ◌>>◌}
use cee.Execution.Types.{
  LeafStep, CompositeStep, ParallelStep, Step, leaf, composite, parallel, step_id, Workflow, Prober,
  Engine, Machine, Host, outside, observe_step, observe_sandbox_probe, observe_circuit_breaker,
  observe_probe_outcome,
}
use cee.Execution.Failure.{merge, tail, observe, on_failure}
use cee.Execution.Compensate.{Completed, abandon}
use cee.Execution.Parallel.{run_parallel}
use cee.Execution.Suspend.{suspend}

-- The variables of the loop in `runFrom`.
pub record Frame : Type 0 where
  pub step_id : String
  pub ctx : Context
  pub done : List Completed
  pub trace : List String

-- What one round does: go on at another step, or return.
pub data Move : Type 0 where
  goto : Frame → Move
  finish : WorkflowResult → Move

abbrev pub finished : Frame → WorkflowResult
finished fr = record { output = fr.ctx; state_pointer = ""; trace = fr.trace }

-- the completed steps after one more
abbrev pub with_completed : {W : Type 0} → LeafStep W → List Completed → List Completed
with_completed s done =
    if s.compensate_step_ref == ""
    then done
    else done ++ record { step_id = s.step_id; compensate_step = s.compensate_step_ref } ∷ []

-- healthy := err == nil && probeResult.Healthy
abbrev pub is_healthy : ProbeResult ⊎ Err → Bool
is_healthy (inl result) = result.healthy
is_healthy (inr failure) = false

abbrev pub refusal : (Value → String) → ProbeResult ⊎ Err → String
refusal show (inl result) = result.detected_failure_mode
refusal show (inr failure) = error_text show failure

abbrev pub request : {W : Type 0} → Workflow W → LeafStep W → Frame → ProbeRequest
request workflow s fr = record {
  probe_ref = s.sandbox_probe_ref;
  domain_id = workflow.domain_id;
  step_context = fr.ctx;
}

module _ {W : Type 0} (host : Host W) (e : Engine W) (workflow : Workflow W) where
  -- the jump to a fallback step, or the end of the run
  abbrev pub diverted : Frame → (String × Context) ⊎ Err → Exec (Machine W) Move
  diverted fr (inl (next, ctx)) = pure (goto (record fr { step_id = next; ctx = ctx }))
  diverted fr (inr cause) = abandon host workflow fr.done fr.ctx cause >>= λ final. raise final

  -- What stands behind every failure of a step: tell the observer, then ask the breaker.
  unfoldable pub break_circuit : Step W → String → Frame → Exec (Machine W) Move
  break_circuit step reason fr =
      observe (observe_circuit_breaker workflow.workflow_id (step_id step))
      >> diverted fr (on_failure e step reason fr.ctx)

  -- a failure of a sub-workflow or of a parallel step
  unfoldable pub fail_nested : Step W → Err → Frame → Exec (Machine W) Move
  unfolding break_circuit
  fail_nested step failure fr =
      if bypasses_breaker failure
      then raise failure
      else break_circuit step (error_text host.show failure) fr

  -- what follows a sub-workflow that returned or failed
  unfoldable pub after_composite :
      CompositeStep → Frame → WorkflowResult ⊎ Err → Exec (Machine W) Move
  unfolding fail_nested
  after_composite s fr (inl result) = pure (
      goto (record fr {
        step_id = s.on_success;
        ctx = merge fr.ctx result.output;
        trace = fr.trace ++ result.trace;
      }))
  after_composite s fr (inr failure) = fail_nested (composite s) failure fr

  -- the case *CompositeStep
  unfoldable pub composite_step :
      (String → Context → Exec (Machine W) WorkflowResult)
      → CompositeStep
      → Frame
      → Exec (Machine W) Move
  composite_step sub s fr = attempt (sub s.sub_workflow_ref fr.ctx) >>= after_composite s fr

  -- what follows branches that joined or failed
  unfoldable pub after_parallel :
      ParallelStep → Frame → (Context × List String) ⊎ Err → Exec (Machine W) Move
  unfolding fail_nested
  after_parallel s fr (inl (joined, branch_trace)) =
      pure (
        goto (record fr { step_id = s.on_success; ctx = joined; trace = fr.trace ++ branch_trace }))
  after_parallel s fr (inr failure) = fail_nested (parallel s) failure fr

  -- the case *ParallelStep
  unfoldable pub parallel_step :
      (String → Context → Exec (Machine W) WorkflowResult)
      → ParallelStep
      → Frame
      → Exec (Machine W) Move
  parallel_step sub s fr = attempt (run_parallel sub host workflow s fr.ctx) >>= after_parallel s fr

  -- an action that returned an error: it suspends the run, or it has failed
  unfoldable pub fail_action :
      LeafStep W → Err → Frame → ℕ → Option (String × String) → Exec (Machine W) Move
  unfolding break_circuit
  fail_action s failure fr depth (some waiting) =
      suspend host e workflow s.step_id waiting fr.ctx fr.trace depth >>= λ r. pure (finish r)
  fail_action s failure fr depth none = break_circuit (leaf s) (error_text host.show failure) fr

  -- what follows an action
  unfoldable pub after_action : LeafStep W → Frame → ℕ → Context ⊎ Err → Exec (Machine W) Move
  unfolding fail_action
  after_action s fr depth (inl output) = pure (
      goto (record fr {
        step_id = s.on_success;
        ctx = merge fr.ctx output;
        done = with_completed s fr.done;
      }))
  after_action s fr depth (inr failure) = fail_action s failure fr depth (as_suspended failure)

  -- the rest of the case *LeafStep, once no probe stands in the way
  unfoldable pub run_action : LeafStep W → Frame → ℕ → Exec (Machine W) Move
  run_action s fr depth =
      observe (observe_step workflow.workflow_id s.step_id)
      >> (attempt (outside (s.run fr.ctx)) >>= after_action s fr depth)

  -- what follows a probe
  unfoldable pub after_probe : LeafStep W → Frame → ℕ → ProbeResult ⊎ Err → Exec (Machine W) Move
  unfolding break_circuit
  after_probe s fr depth verdict =
      observe (observe_probe_outcome workflow.workflow_id s.step_id (is_healthy verdict))
      >> (if is_healthy verdict
          then run_action s fr depth
          else break_circuit (leaf s) (refusal host.show verdict) fr)

  -- a step that declares a probe, with the sandbox of the engine
  unfoldable pub probe_first : LeafStep W → Frame → ℕ → Option (Prober W) → Exec (Machine W) Move
  probe_first s fr depth none = raise (
      plain (
        concat (
          "step "
          ∷ quote s.step_id
          ∷ " declares sandbox_probe_ref "
          ∷ quote s.sandbox_probe_ref
          ∷ " but no sandbox is configured"
          ∷ [])))
  probe_first s fr depth (some probe) =
      observe (observe_sandbox_probe workflow.workflow_id s.step_id)
      >> (attempt (outside (probe (request workflow s fr))) >>= after_probe s fr depth)

  -- the case *LeafStep
  unfoldable pub leaf_step : LeafStep W → Frame → ℕ → Exec (Machine W) Move
  leaf_step s fr depth =
      if s.sandbox_probe_ref == "" then run_action s fr depth else probe_first s fr depth e.sandbox

  unfoldable pub take_step :
      (String → Context → Exec (Machine W) WorkflowResult)
      → ℕ
      → Step W
      → Frame
      → Exec (Machine W) Move
  take_step sub depth (leaf s) fr = leaf_step s fr depth
  take_step sub depth (composite s) fr = composite_step sub s fr
  take_step sub depth (parallel s) fr = parallel_step sub s fr

module _ {W : Type 0} (host : Host W) (e : Engine W) where
  module _ (workflow_ref : String) (workflow : Workflow W)
      (sub : String → Context → Exec (Machine W) WorkflowResult) (depth : ℕ) where
    -- taking the step that was found, once it is written to the trace
    unfoldable pub at_step : Frame → Option (Step W) → Exec (Machine W) Move
    at_step fr none = raise (
        plain (concat ("workflow " ∷ quote workflow_ref ∷ " has no step " ∷ quote fr.step_id ∷ [])))
    at_step fr (some step) =
        take_step host e workflow sub depth step
          (record fr { trace = fr.trace ++ step_id step ∷ [] })

    -- one round
    unfoldable pub turn : Frame → Exec (Machine W) Move
    unfolding at_step
    turn fr = at_step fr (lookup fr.step_id workflow.steps)

    abbrev pub follow :
        (Frame → Exec (Machine W) WorkflowResult) → Move → Exec (Machine W) WorkflowResult
    follow again (goto fr) = again fr
    follow again (finish result) = pure result

    -- the loop, with the number of rounds that the step limit leaves
    unfoldable pub loop : ℕ → Frame → Exec (Machine W) WorkflowResult
    loop zero fr =
        if fr.step_id == ""
        then pure (finished fr)
        else raise (step_limit_exceeded workflow_ref e.max_steps (tail fr.trace 10))
    loop (suc left) fr =
        if fr.step_id == "" then pure (finished fr) else turn fr >>= follow (loop left)

  abbrev pub first_step : String → Workflow W → String
  first_step start workflow = if start == "" then workflow.entry_step_id else start

  abbrev pub first_frame : String → Context → Frame
  first_frame step ctx = record { step_id = step; ctx = ctx; done = []; trace = [] }

  -- `runFrom` at a depth, with the number of levels from this depth on that the depth limit leaves.
  -- `enter` is the rest of it once the workflow is looked up.
  unfoldable pub enter :
      (String → Context → Exec (Machine W) WorkflowResult)
      → (depth : ℕ) → (workflow_ref start : String) → Context
      → Option (Workflow W)
      → Exec (Machine W) WorkflowResult
  enter sub depth workflow_ref start ctx none =
      raise (plain (concat ("no workflow registered for " ∷ quote workflow_ref ∷ [])))
  enter sub depth workflow_ref start ctx (some workflow) =
      loop workflow_ref workflow sub depth e.max_steps (first_frame (first_step start workflow) ctx)

  unfoldable pub run_from :
      (levels depth : ℕ) → (workflow_ref start : String) → Context → Exec (Machine W) WorkflowResult
  run_from zero depth workflow_ref start ctx = raise (depth_limit_exceeded workflow_ref e.max_depth)
  run_from (suc levels) depth workflow_ref start ctx =
      enter (λ ref c. run_from levels (depth + 1) ref "" c) depth workflow_ref start ctx
        (lookup workflow_ref e.workflows)

  -- The levels from depth 0 on: depths up to the limit are allowed.
  unfoldable pub run_at_top : String → String → Context → Exec (Machine W) WorkflowResult
  run_at_top = run_from (suc e.max_depth) 0

  -- `Engine.Run`
  unfoldable pub run : String → Context → Exec (Machine W) WorkflowResult
  unfolding run_at_top
  run workflow_ref ctx = run_at_top workflow_ref "" ctx
