-- ===== src/Execution/Engine/Structural.antt =====
-- The errors that go round the circuit breakers of execution/engine.go, and what becomes of an error of
-- a sub-workflow.
use cee.Prelude.{
  ℕ, suc, ◌++◌, String, ◌≡◌, refl, true, false, some, ◌==◌, ap, ◌∙◌, ◌⊎◌, inl, inr, [], ◌∷◌, List,
}
use cee.Maps.{lookup}
use cee.Value.{Context, Value}
use cee.Entities.{WorkflowResult}
use cee.Execution.Errors.{
  Err, plain, wrap, circuit_breaker_tripped, step_limit_exceeded, depth_limit_exceeded, suspended,
  no_suspension_support, nested_suspension_unsupported, no_branches, conflicting_branch_writes,
  branches_failed, branch_panicked, not_authorized, bypasses_breaker, cause,
}
use cee.Execution.Texts.{error_text}
use cee.Execution.Exec.{err, raise, Exec, attempt}
use cee.Execution.Exec.Laws.{bind_ok, bind_err, attempt_err}
use cee.Execution.Types.{CompositeStep, composite, Workflow, Engine, Machine, Host, step_id}
use cee.Execution.Engine.{
  Frame, after_composite, composite_step, fail_nested, break_circuit, take_step, at_step, turn,
  loop,
}

-- The errors that go round every circuit breaker: seven of them, however they are wrapped.
pub data IsStructural : Err → Type 0 where
  at_step_limit :
      {w : String} {n : ℕ} {recent : List String} → IsStructural (step_limit_exceeded w n recent)
  at_depth_limit : {w : String} {n : ℕ} → IsStructural (depth_limit_exceeded w n)
  nested_suspension : {w s : String} → IsStructural (nested_suspension_unsupported w s)
  no_suspension : {w s : String} → IsStructural (no_suspension_support w s)
  branchless : {w s : String} → IsStructural (no_branches w s)
  conflict : {s f b c : String} {v u : Value} → IsStructural (conflicting_branch_writes s f b v c u)
  panicked : {s b : String} {v : Value} → IsStructural (branch_panicked s b v)
  wrapped : {prefix : String} {e : Err} → IsStructural e → IsStructural (wrap prefix e)

IsStructural-bypasses_breaker : {e : Err} → IsStructural e → bypasses_breaker e ≡ true
unfolding bypasses_breaker cause
IsStructural-bypasses_breaker at_step_limit = refl
IsStructural-bypasses_breaker at_depth_limit = refl
IsStructural-bypasses_breaker nested_suspension = refl
IsStructural-bypasses_breaker no_suspension = refl
IsStructural-bypasses_breaker branchless = refl
IsStructural-bypasses_breaker conflict = refl
IsStructural-bypasses_breaker panicked = refl
IsStructural-bypasses_breaker (wrapped h) = IsStructural-bypasses_breaker h

no_structure : {e : Err} → bypasses_breaker e ≡ false → ¬ IsStructural e
no_structure passes h = absurd (cc (passes, IsStructural-bypasses_breaker h))

-- which of the two an error is
bypasses_breaker-IsStructural :
    (e : Err)
    → (IsStructural e × (bypasses_breaker e ≡ true))
      ⊎ ((¬ IsStructural e) × (bypasses_breaker e ≡ false))
unfolding bypasses_breaker cause
bypasses_breaker-IsStructural (plain t) = inr (no_structure refl, refl)
bypasses_breaker-IsStructural (circuit_breaker_tripped a b c d) = inr (no_structure refl, refl)
bypasses_breaker-IsStructural (suspended r a) = inr (no_structure refl, refl)
bypasses_breaker-IsStructural (branches_failed a n f) = inr (no_structure refl, refl)
bypasses_breaker-IsStructural (not_authorized a b c d) = inr (no_structure refl, refl)
bypasses_breaker-IsStructural (step_limit_exceeded w n r) = inl (at_step_limit, refl)
bypasses_breaker-IsStructural (depth_limit_exceeded w n) = inl (at_depth_limit, refl)
bypasses_breaker-IsStructural (nested_suspension_unsupported w s) = inl (nested_suspension, refl)
bypasses_breaker-IsStructural (no_suspension_support w s) = inl (no_suspension, refl)
bypasses_breaker-IsStructural (no_branches w s) = inl (branchless, refl)
bypasses_breaker-IsStructural (conflicting_branch_writes s f b v c u) = inl (conflict, refl)
bypasses_breaker-IsStructural (branch_panicked s b v) = inl (panicked, refl)
bypasses_breaker-IsStructural (wrap prefix e) = elim (bypasses_breaker-IsStructural e) [
  | inl (h, b) ↦ inl (wrapped h, b)
  | inr (h, b) ↦ inr (no_structure b, b)
]

module _ {W : Type 0} (host : Host W) (e : Engine W) (ref : String) (workflow : Workflow W)
    (sub : String → Context → Exec (Machine W) WorkflowResult) (depth : ℕ) where
  -- the frame, with the composite step in its trace
  abbrev pub entered : CompositeStep → Frame → Frame
  entered s fr = record fr { trace = fr.trace ++ s.step_id ∷ [] }

  turn-failed :
      (s : CompositeStep) (fr : Frame) (m m' : Machine W) (failure : Err)
      → lookup fr.step_id workflow.steps ≡ some (composite s)
      → sub s.sub_workflow_ref fr.ctx m ≡ (err failure, m')
      → turn host e ref workflow sub depth fr m
        ≡ fail_nested host e workflow (composite s) failure (entered s fr) m'
  unfolding turn at_step take_step composite_step after_composite step_id
  turn-failed s fr m m' failure found failed =
      ap (λ o. at_step host e ref workflow sub depth fr o m) found
      ∙ bind_ok (attempt (sub s.sub_workflow_ref fr.ctx))
          (after_composite host e workflow s (entered s fr)) m m'
          (attempt_err (sub s.sub_workflow_ref fr.ctx) m m' failed)

  pub loop-bypassed :
      (left : ℕ) (s : CompositeStep) (fr : Frame) (m m' : Machine W) (failure : Err)
      → (fr.step_id == "") ≡ false
      → lookup fr.step_id workflow.steps ≡ some (composite s)
      → sub s.sub_workflow_ref fr.ctx m ≡ (err failure, m')
      → bypasses_breaker failure ≡ true
      → loop host e ref workflow sub depth (suc left) fr m ≡ (err failure, m')
  unfolding loop fail_nested raise
  loop-bypassed left s fr m m' failure inside found failed structural = rw inside (
      bind_err (turn host e ref workflow sub depth fr) _ m m'
        (turn-failed s fr m m' failure found failed ∙ rw (structural) refl))

  -- A sub-workflow fails. If the error is one of the seven, however wrapped, the run above it ends with
  -- that very error, whatever breaker the composite step names: the observer is told of no breaker, and
  -- nothing is compensated. Any other error goes to the breaker of the composite step, by its text.
  pub loop-structural :
      (left : ℕ) (s : CompositeStep) (fr : Frame) (m m' : Machine W) (failure : Err)
      → (fr.step_id == "") ≡ false
      → lookup fr.step_id workflow.steps ≡ some (composite s)
      → sub s.sub_workflow_ref fr.ctx m ≡ (err failure, m')
      → (IsStructural failure
          × (loop host e ref workflow sub depth (suc left) fr m ≡ (err failure, m')))
        ⊎ ((¬ IsStructural failure)
            × (turn host e ref workflow sub depth fr m
                ≡ break_circuit host e workflow
                    (composite s)
                    (error_text host.show failure)
                    (entered s fr)
                    m'))
  unfolding fail_nested
  loop-structural left s fr m m' failure inside found failed =
      elim (bypasses_breaker-IsStructural failure) [
        | inl (h, b) ↦ inl (h, loop-bypassed left s fr m m' failure inside found failed b)
        | inr (h, b) ↦ inr (h, turn-failed s fr m m' failure found failed ∙ rw (b) refl)
      ]
