-- ===== src/Execution/Engine/Cycle.antt =====
-- A run that has got into a cycle of steps does not return: the step limit ends it.
use cee.Prelude.{ℕ, zero, suc, String, ◌≡◌, refl, Option, none, some}
use cee.Maps.{lookup}
use cee.Value.{Context}
use cee.Entities.{WorkflowResult}
use cee.Execution.Exec.{ok, pure, Exec}
use cee.Execution.Exec.Laws.{Ensures-raise, Ensures-bind_of}
use cee.Execution.Types.{Step, Workflow, Engine, Machine, Host}
use cee.Execution.Engine.{Frame, Move, goto, finish, at_step, turn, follow, loop}
use cee.Execution.Suspend.Parks.{Parked, Parks}
use cee.Execution.Engine.Stays.{IsClosed, Stays, Keeps, Keeps-take_step}

module _ {W : Type 0} (host : Host W) (e : Engine W) (workflow : Workflow W) (P : String → Type 0)
    (sub : String → Context → Exec (Machine W) WorkflowResult) (depth : ℕ) (ref : String)
    (closed : IsClosed e workflow P) where
  Keeps-at_step :
      (fr : Frame) (o : Option (Step W))
      → P fr.step_id
      → lookup fr.step_id workflow.steps ≡ o
      → Keeps host e workflow P (at_step host e ref workflow sub depth fr o)
  unfolding at_step
  Keeps-at_step fr none p h = Ensures-raise (Stays workflow P) _
  Keeps-at_step fr (some step) p h = Keeps-take_step host e workflow P sub depth step _ (
    closed.success fr.step_id step p h,
    (λ fallback. closed.fallback fr.step_id fallback step p h),
  )

  Keeps-turn :
      (fr : Frame) → P fr.step_id → Keeps host e workflow P (turn host e ref workflow sub depth fr)
  unfolding turn
  Keeps-turn fr p = Keeps-at_step fr (lookup fr.step_id workflow.steps) p refl

  -- what follows a round that stays
  follow-Parks :
      (again : Frame → Exec (Machine W) WorkflowResult)
      → ((fr : Frame) → P fr.step_id → Parks host e workflow (again fr))
      → (mv : Move) (m : Machine W) → Stays workflow P mv m
      → (r : WorkflowResult) → (follow host e ref workflow sub depth again mv m).0 ≡ ok r
      → Parked workflow (follow host e ref workflow sub depth again mv m).1
  unfolding pure
  follow-Parks again parks (goto fr) m stays r h = parks fr stays m r h
  follow-Parks again parks (finish result) m stays r h = stays

  loop-Parks :
      (left : ℕ) (fr : Frame)
      → P fr.step_id
      → Parks host e workflow (loop host e ref workflow sub depth left fr)
  unfolding loop
  loop-Parks zero fr p =
      rw (closed.not_the_end fr.step_id p) (Ensures-raise (λ r m. Parked workflow m) _)
  loop-Parks (suc left) fr p = rw (closed.not_the_end fr.step_id p) (
      Ensures-bind_of (Stays workflow P) (λ r m. Parked workflow m)
        (turn host e ref workflow sub depth fr) _ (Keeps-turn fr p)
        (follow-Parks (loop host e ref workflow sub depth left) (loop-Parks left)))

  -- A run in a set of steps that neither `on_success` nor a fallback leaves never finishes: whatever
  -- the actions, the probes and the sub-workflows do, it returns only by suspending, and otherwise
  -- ends, at the step limit at the latest, in an error or a panic.
  pub loop-Parked :
      (left : ℕ) (fr : Frame) (m : Machine W) (r : WorkflowResult)
      → P fr.step_id
      → (loop host e ref workflow sub depth left fr m).0 ≡ ok r
      → Parked workflow (loop host e ref workflow sub depth left fr m).1
  loop-Parked left fr m r p h = loop-Parks left fr p m r h
