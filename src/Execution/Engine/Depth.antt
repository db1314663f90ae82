-- ===== src/Execution/Engine/Depth.antt =====
-- Workflows that nest in one another for ever meet the depth limit.
use cee.Prelude.{ℕ, zero, suc, ◌+◌, String, ◌≡◌, refl, true, false, some, ◌==◌, ap, ◌∙◌}
use cee.Maps.{lookup}
use cee.Value.{Context}
use cee.Entities.{WorkflowResult}
use cee.Execution.Errors.{Err, bypasses_breaker, depth_limit_exceeded}
use cee.Execution.Exec.{err, raise, Exec}
use cee.Execution.Types.{CompositeStep, composite, Workflow, Engine, Machine, Host}
use cee.Execution.Engine.Structural.{loop-bypassed}
use cee.Execution.Engine.{loop, enter, run_from, first_frame, first_step, run}

-- Workflows each of which enters at a composite step into another of them.
pub record IsNested {W : Type 0} (e : Engine W) (P : String → Type 0) : Type 0 where
  pub inner : (ref : String) → P ref → CompositeStep
  pub outer : (ref : String) → P ref → Workflow W
  pub registered : (ref : String) (p : P ref) → lookup ref e.workflows ≡ some (outer ref p)
  pub entry : (ref : String) (p : P ref) → ((outer ref p).entry_step_id == "") ≡ false
  pub first :
      (ref : String) (p : P ref)
      → lookup (outer ref p).entry_step_id (outer ref p).steps ≡ some (composite (inner ref p))
  pub nested : (ref : String) (p : P ref) → P (inner ref p).sub_workflow_ref

module _ {W : Type 0} (host : Host W) (e : Engine W) (P : String → Type 0) (nests : IsNested e P)
    (left : ℕ) (steps : e.max_steps ≡ suc left) where
  enter-nested :
      (sub : String → Context → Exec (Machine W) WorkflowResult) (depth : ℕ) (ref : String)
      (p : P ref) (ctx : Context) (m : Machine W) (failure : Err)
      → sub (nests.inner ref p).sub_workflow_ref ctx m ≡ (err failure, m)
      → bypasses_breaker failure ≡ true
      → enter host e sub depth ref "" ctx (lookup ref e.workflows) m ≡ (err failure, m)
  unfolding enter
  enter-nested sub depth ref p ctx m failure failed structural =
      ap (λ o. enter host e sub depth ref "" ctx o m) (nests.registered ref p)
      ∙ ap
          (λ n.
            loop host e ref (nests.outer ref p) sub depth n
              (first_frame host e (first_step host e "" (nests.outer ref p)) ctx) m)
          steps
      ∙ loop-bypassed host e ref (nests.outer ref p) sub depth left (nests.inner ref p) _ m m
          failure (nests.entry ref p) (nests.first ref p) failed structural

  run_from-nested :
      (levels depth : ℕ) (ref : String) (ctx : Context) (m : Machine W)
      → P ref
      → (deepest : String) × P deepest
        × (run_from host e levels depth ref "" ctx m
            ≡ (err (depth_limit_exceeded deepest e.max_depth), m))
  unfolding run_from raise bypasses_breaker
  run_from-nested zero depth ref ctx m p = (ref, p, refl)
  run_from-nested (suc levels) depth ref ctx m p =
      let (deepest, q, h) =
        run_from-nested levels (depth + 1) (nests.inner ref p).sub_workflow_ref ctx m
          (nests.nested ref p) in
      (
        deepest,
        q,
        enter-nested (λ r c. run_from host e levels (depth + 1) r "" c) depth ref p ctx m
            (depth_limit_exceeded deepest e.max_depth) h refl,
      )

  -- Workflows that nest in one another for ever end in the error of the depth limit, whatever their
  -- breakers say, with the world and the observer as they were.
  pub run-nested :
      (ref : String) (ctx : Context) (m : Machine W)
      → P ref
      → (deepest : String) × P deepest
        × (run host e ref ctx m ≡ (err (depth_limit_exceeded deepest e.max_depth), m))
  unfolding run
  run-nested ref ctx m p = run_from-nested (suc e.max_depth) 0 ref ctx m p
