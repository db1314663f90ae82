-- ===== src/Execution/Parallel.antt =====
-- `Engine.runParallel` of execution/parallel.go. The branches run on goroutines of their own; the
-- model runs them to their ends one after another in declaration order, which is one of the
-- schedules, and keeps their outcomes by index as the source does. `sub` is `Engine.run` one level
-- further down.
pub mod Verdict
use cee.Prelude.{String, List, [], ◌∷◌, ◌++◌, ◌⊎◌, inl, inr, if◌then◌else◌, length}
use cee.Value.{Value, Context}
use cee.Entities.{WorkflowResult}
use cee.Execution.Errors.{
  Err, no_branches, branches_failed, branch_panicked, bypasses_breaker, BranchFailure,
}
use cee.Execution.Texts.{error_text}
use cee.Execution.Exec.{Exec, Outcome, ok, err, panic, pure, raise, ◌>>=◌, ◌then◌}
use cee.Execution.Types.{Workflow, ParallelStep, Machine, Host}
use cee.Execution.Failure.{merge}
use cee.Execution.Join.{Joining, nothing_joined, Finished, join_branches, clone_context}

abbrev pub BranchOutcome : Type 0
BranchOutcome = String × (WorkflowResult ⊎ Err)

-- The deferred `recover`: a panic is an error of the branch.
abbrev pub recovered : String → String → Outcome WorkflowResult → BranchOutcome
recovered step_id branch (ok result) = (branch, inl result)
recovered step_id branch (err e) = (branch, inr e)
recovered step_id branch (panic v) = (branch, inr (branch_panicked step_id branch v))

-- the joined fields over the context that the branches were given
abbrev pub merged : Context → Joining → Outcome (Context × List String)
merged ctx j = ok (merge ctx j.joined, j.trace)

-- branches that failed, as one error
abbrev pub all_succeeded :
    ParallelStep → List BranchFailure × List Finished → Outcome (List Finished)
all_succeeded s ([], finished) = ok finished
all_succeeded s (f ∷ fs, finished) = err (branches_failed s.step_id (length s.branches) (f ∷ fs))

module _ (show : Value → String) where
  -- The loop over the outcomes: the first error that goes round the breaker, or all failures, and
  -- the branches that succeeded.
  unfoldable pub sort_outcomes :
      List BranchOutcome
      → List BranchFailure × List Finished
      → Outcome (List BranchFailure × List Finished)
  sort_outcomes [] acc = ok acc
  sort_outcomes ((branch, inl result) ∷ rest) acc =
      sort_outcomes rest (acc.0, acc.1 ++ (branch, result) ∷ [])
  sort_outcomes ((branch, inr e) ∷ rest) acc =
      let others =
        sort_outcomes rest
          (acc.0 ++ record { branch = branch; reason = error_text show e } ∷ [], acc.1) in
      if bypasses_breaker e then err e else others

  -- What the step comes to, given how its branches ended: the joined context and their trace.
  unfoldable pub settle :
      ParallelStep → Context → List BranchOutcome → Outcome (Context × List String)
  settle s ctx outcomes =
      sort_outcomes outcomes ([], [])
      then all_succeeded s
      then (λ finished. join_branches s.step_id ctx finished nothing_joined)
      then merged ctx

module _ {W : Type 0} (sub : String → Context → Exec (Machine W) WorkflowResult) where
  unfoldable pub run_branch : String → Context → String → Exec (Machine W) BranchOutcome
  run_branch step_id ctx branch m =
      let (r, m') = sub branch (clone_context ctx) m in (ok (recovered step_id branch r), m')

  unfoldable pub run_branches :
      String → Context → List String → Exec (Machine W) (List BranchOutcome)
  run_branches step_id ctx [] = pure []
  run_branches step_id ctx (branch ∷ branches) = run_branch step_id ctx branch >>= λ o.
      run_branches step_id ctx branches >>= λ os. pure (o ∷ os)

  abbrev pub lift_outcome : {A : Type 0} → Outcome A → Exec (Machine W) A
  lift_outcome r s = (r, s)

  unfoldable pub run_parallel :
      Host W → Workflow W → ParallelStep → Context → Exec (Machine W) (Context × List String)
  unfolding run_branch
  run_parallel host workflow s ctx = elim s.branches [
    | [] ↦ raise (no_branches workflow.workflow_id s.step_id)
    | _ ∷ _ ↦ run_branches s.step_id ctx s.branches >>= λ outcomes.
        lift_outcome (settle host.show s ctx outcomes)
  ]
