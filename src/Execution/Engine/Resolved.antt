-- ===== src/Execution/Engine/Resolved.antt =====
-- A run never leaves the steps of a workflow whose references resolve.
use cee.Prelude.{String, ◌≡◌, refl, true, Option, none, some, ◌⊎◌, ◌==◌}
use cee.Maps.{lookup}
use cee.Value.{Context}
use cee.Entities.{WorkflowResult}
use cee.Execution.Exec.{ok, Exec}
use cee.Execution.Exec.Laws.{Ensures-raise}
use cee.Execution.Types.{Step, Workflow, Engine, Machine, Host, circuit_breaker_policy_ref}
use cee.Execution.Failure.{fallback_of}
use cee.Execution.Engine.{ℕ, Frame, Move, at_step, turn}
use cee.Execution.Engine.Stays.{Stays, Keeps, Keeps-take_step, on_success}

-- the empty id, at which a run ends, or the id of a step
abbrev pub Resolves : {W : Type 0} → Workflow W → String → Type 0
Resolves workflow id =
    ((id == "") ≡ true) ⊎ ((step : Step _) × (lookup id workflow.steps ≡ some step))

-- the references of every step resolve
pub record IsResolved {W : Type 0} (e : Engine W) (workflow : Workflow W) : Type 0 where
  pub success :
      (id : String) (step : Step W)
      → lookup id workflow.steps ≡ some step
      → Resolves workflow (on_success step)
  pub fallback :
      (id fallback : String) (step : Step W)
      → lookup id workflow.steps ≡ some step
      → fallback_of e (circuit_breaker_policy_ref step) ≡ some fallback
      → Resolves workflow fallback

module _ {W : Type 0} (host : Host W) (e : Engine W) (workflow : Workflow W)
    (sub : String → Context → Exec (Machine W) WorkflowResult) (depth : ℕ) (ref : String)
    (resolved : IsResolved e workflow) where
  at_step-Keeps :
      (fr : Frame) (o : Option (Step W))
      → lookup fr.step_id workflow.steps ≡ o
      → Keeps host e workflow (Resolves workflow) (at_step host e ref workflow sub depth fr o)
  unfolding at_step
  at_step-Keeps fr none h = Ensures-raise (Stays workflow (Resolves workflow)) _
  at_step-Keeps fr (some step) h =
      Keeps-take_step host e workflow (Resolves workflow) sub depth step _ (
        resolved.success fr.step_id step h,
        (λ fallback. resolved.fallback fr.step_id fallback step h),
      )

  -- In a workflow whose references resolve, a round that goes on goes on at a step of the workflow or
  -- at the empty id, which ends the run; a round that returns has suspended the run.
  pub turn-Stays :
      (fr : Frame) (m : Machine W) (mv : Move)
      → (turn host e ref workflow sub depth fr m).0 ≡ ok mv
      → Stays workflow (Resolves workflow) mv (turn host e ref workflow sub depth fr m).1
  unfolding turn
  turn-Stays fr m mv h = at_step-Keeps fr (lookup fr.step_id workflow.steps) refl m mv h
