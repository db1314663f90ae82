-- ===== src/Execution/Resume.antt =====
-- `Engine.ResumeAs` of execution/engine.go and `Engine.authorize` of execution/authorize.go.
pub mod Authorized
pub mod Continue
use cee.Prelude.{
  String, Bool, true, false, Option, none, some, [], ◌∷◌, ◌++◌, ◌⊎◌, inl, inr, ◌==◌, if◌then◌else◌,
  concat, quote,
}
use cee.Maps.{lookup, insert}
use cee.Value.{Context, str}
use cee.Entities.{WorkflowResult}
use cee.Execution.Errors.{Err, plain, wrap, not_authorized}
use cee.Execution.Texts.{error_text}
use cee.Execution.Exec.{Exec, Outcome, ok, err, pure, raise, attempt, ◌>>=◌, ◌>>◌}
use cee.Execution.Types.{
  Workflow, Authorizer, LeafStep, Step, leaf, composite, parallel, State, Store, Engine, Machine,
  Host, outside, ResumeAttempt,
}
use cee.Execution.Failure.{merge}
use cee.Execution.Engine.{run_at_top}

abbrev pub resumed_by_key : String
resumed_by_key = "cee.resumed_by"

-- A result and an error, which Go returns side by side.
abbrev pub Reply : Type 0
Reply = WorkflowResult × Option Err

abbrev pub empty_result : WorkflowResult
empty_result = record { output = []; state_pointer = ""; trace = [] }

module _ {W : Type 0} (host : Host W) (e : Engine W) where
  abbrev pub attempt_of : State → String → ResumeAttempt
  attempt_of state identity = record {
    audience = state.audience;
    identity = identity;
    workflow_id = state.workflow_id;
    step_id = state.step_id;
    reason = state.reason;
  }

  abbrev pub refused : State → String → String → Err
  refused state identity reason = not_authorized state.audience identity state.workflow_id reason

  -- the authorizer's answer, and the error of one that failed
  abbrev pub judged : State → String → (Bool × String) ⊎ Err → Exec (Machine W) (Unit {0})
  judged state identity (inl (true, reason)) = pure tt
  judged state identity (inl (false, reason)) = raise (refused state identity reason)
  judged state identity (inr failed) = raise (
      refused state identity
        (concat ("authorization check failed: " ∷ error_text host.show failed ∷ [])))

  -- `Engine.authorize` of a state that declares an audience, with the authorizer of the engine
  unfoldable pub authorize_with :
      State → String → Option (Authorizer W) → Exec (Machine W) (Unit {0})
  authorize_with state identity none = raise (
      refused state identity (
        concat (
          "this suspension declares an audience but no Authorizer is configured; "
          ∷ "call Engine.SetAuthorizer" ∷ [])))
  authorize_with state identity (some authorizer) =
      attempt (outside (authorizer (attempt_of state identity))) >>= judged state identity

  unfoldable pub authorize : State → String → Exec (Machine W) (Unit {0})
  unfolding authorize_with
  authorize state identity =
      if state.audience == "" then pure tt else authorize_with state identity e.authorizer

  -- the leaf step at which a saved run waits, as the engine has it now
  abbrev pub leaf_or_error : State → Option (Step W) → Outcome (LeafStep W)
  leaf_or_error state none = err (
      plain (
        concat (
          "workflow "
          ∷ quote state.workflow_id
          ∷ " no longer has the suspended step "
          ∷ quote state.step_id
          ∷ [])))
  leaf_or_error state (some (leaf s)) = ok s
  leaf_or_error state (some (composite s)) =
      err (
        plain (concat ("suspended step " ∷ quote state.step_id ∷ " is no longer a leaf step" ∷ [])))
  leaf_or_error state (some (parallel s)) =
      err (
        plain (concat ("suspended step " ∷ quote state.step_id ∷ " is no longer a leaf step" ∷ [])))

  abbrev pub registered_leaf : State → Option (Workflow W) → Outcome (LeafStep W)
  registered_leaf state none = err (
      plain (
        concat ("suspended workflow " ∷ quote state.workflow_id ∷ " is no longer registered" ∷ [])))
  registered_leaf state (some workflow) = leaf_or_error state (lookup state.step_id workflow.steps)

  unfoldable pub suspended_leaf : State → Outcome (LeafStep W)
  suspended_leaf state = registered_leaf state (lookup state.workflow_id e.workflows)

  abbrev pub claimed_or_error : State ⊎ Err → Exec (Machine W) State
  claimed_or_error (inl claimed) = pure claimed
  claimed_or_error (inr failed) = raise (wrap "could not claim resume pointer: " failed)

  -- the check of who asks, and the claim
  unfoldable pub claim_leaf :
      Store W → String → String → State → LeafStep W → Exec (Machine W) (State × LeafStep W)
  claim_leaf store pointer identity state s =
      authorize state identity
      >> ((attempt (outside (store.consume pointer)) >>= claimed_or_error) >>= λ claimed.
          pure (claimed, s))

  abbrev pub lifted : {A : Type 0} → Outcome A → Exec (Machine W) A
  lifted r m = (r, m)

  -- everything before the run goes on: look at the saved run, check who asks, and claim it
  unfoldable pub claim : Store W → String → String → Exec (Machine W) (State × LeafStep W)
  unfolding claim_leaf suspended_leaf
  claim store pointer identity = outside (store.load pointer) >>= λ state.
      lifted (suspended_leaf state) >>= claim_leaf store pointer identity state

  abbrev pub signed : String → Context → Context
  signed identity ctx = if identity == "" then ctx else insert resumed_by_key (str identity) ctx

  -- what the caller is given, from how the run ended and how the release did
  abbrev pub reply : State → WorkflowResult ⊎ Err → (Unit {0}) ⊎ Err → Reply
  reply claimed (inl result) (inl _) =
      (record result { trace = claimed.trace ++ result.trace }, none)
  reply claimed (inl result) (inr failed) =
      (result, some (wrap "run finished but its claim could not be released: " failed))
  reply claimed (inr failure) _ = (record empty_result { trace = claimed.trace }, some failure)

  -- the run from the step behind the one that waited, and the release of the claim
  unfoldable pub go_on :
      Store W → String → String → Context → State × LeafStep W → Exec (Machine W) Reply
  go_on store pointer identity resolution (claimed, s) =
      attempt (
        run_at_top host e claimed.workflow_id s.on_success
          (signed identity (merge claimed.ctx resolution)))
      >>= λ ended. attempt (outside (store.release pointer)) >>= λ released.
          pure (reply claimed ended released)

  abbrev pub or_refuse :
      (State × LeafStep W → Exec (Machine W) Reply)
      → (State × LeafStep W) ⊎ Err
      → Exec (Machine W) Reply
  or_refuse next (inl c) = next c
  or_refuse next (inr failure) = pure (empty_result, some failure)

  -- `Engine.ResumeAs`, with the store of the engine
  unfoldable pub resume_from : String → String → Context → Option (Store W) → Exec (Machine W) Reply
  unfolding claim go_on
  resume_from pointer identity resolution none =
      pure (empty_result, some (plain "no Store is configured; call Engine.SetStore first"))
  resume_from pointer identity resolution (some store) =
      attempt (claim store pointer identity) >>= or_refuse (go_on store pointer identity resolution)

  unfoldable pub resume_as : String → String → Context → Exec (Machine W) Reply
  unfolding resume_from
  resume_as pointer identity resolution = resume_from pointer identity resolution e.store

  -- `Engine.Resume`
  unfoldable pub resume : String → Context → Exec (Machine W) Reply
  unfolding resume_as
  resume pointer resolution = resume_as pointer "" resolution
