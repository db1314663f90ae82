-- ===== src/Execution/Engine/Stays.antt =====
-- One round inside a set of steps that no edge leaves.
use cee.Prelude.{
  subst, ℕ, String, ◌≡◌, false, Option, none, some, List, ◌⊎◌, inl, inr, ◌==◌, Option-cases,
}
use cee.Maps.{lookup}
use cee.Value.{Context}
use cee.Entities.{WorkflowResult, ProbeResult}
use cee.Execution.Errors.{Err, as_suspended, bypasses_breaker}
use cee.Execution.Texts.{error_text}
use cee.Execution.Exec.{raise, pure, Exec, attempt}
use cee.Execution.Exec.Laws.{
  Ensures-bind, ok-injective, Ensures-raise, Ensures-if, Ensures-bind_of, Ensures, Ensures-pure,
  pure-eq-ok,
}
use cee.Execution.Types.{
  LeafStep, CompositeStep, ParallelStep, Step, leaf, composite, parallel, Prober,
  circuit_breaker_policy_ref, Workflow, Engine, Machine, Host, outside,
}
use cee.Execution.Failure.{fallback_of}
use cee.Execution.Parallel.{run_parallel}
use cee.Execution.Suspend.{suspend}
use cee.Execution.Suspend.Parks.{Parked, Parks-suspend}
use cee.Execution.Engine.{
  request, Frame, Move, goto, finish, break_circuit, fail_nested, after_composite, composite_step,
  after_parallel, parallel_step, fail_action, after_action, run_action, after_probe, probe_first,
  leaf_step, take_step, is_healthy, refusal,
}
use cee.Execution.Engine.Breaker.{told, break_circuit-diverted, break_circuit-Abandoned}

abbrev pub on_success : {W : Type 0} → Step W → String
on_success (leaf s) = s.on_success
on_success (composite s) = s.on_success
on_success (parallel s) = s.on_success

-- A set of step ids that no edge of the workflow leaves: neither `on_success` nor a fallback. It does
-- not hold the empty id, at which a run ends.
pub record IsClosed {W : Type 0} (e : Engine W) (workflow : Workflow W) (P : String → Type 0)
    : Type 0 where
  pub not_the_end : (id : String) → P id → (id == "") ≡ false
  pub success :
      (id : String) (step : Step W)
      → P id
      → lookup id workflow.steps ≡ some step
      → P (on_success step)
  pub fallback :
      (id fallback : String) (step : Step W)
      → P id
      → lookup id workflow.steps ≡ some step
      → fallback_of e (circuit_breaker_policy_ref step) ≡ some fallback
      → P fallback

-- A round that stays inside the set, or parks the run.
abbrev pub Stays : {W : Type 0} → Workflow W → (String → Type 0) → Move → Machine W → Type 0
Stays workflow P (goto fr) m = P fr.step_id
Stays workflow P (finish r) m = Parked workflow m

module _ {W : Type 0} (host : Host W) (e : Engine W) (workflow : Workflow W)
    (P : String → Type 0) where
  -- a computation all of whose moves stay
  abbrev pub Keeps : Exec (Machine W) Move → Type 0
  Keeps = Ensures (Stays workflow P)

  Keeps-goto : (fr : Frame) → P fr.step_id → Keeps (pure (goto fr))
  Keeps-goto fr p = Ensures-pure (Stays workflow P) (goto fr) (λ m. p)

  Keeps-break_circuit :
      (step : Step W) (reason : String) (fr : Frame)
      → ((fallback : String)
          → fallback_of e (circuit_breaker_policy_ref step) ≡ some fallback
          → P fallback)
      → Keeps (break_circuit host e workflow step reason fr)
  Keeps-break_circuit step reason fr keep m mv h =
      elim (Option-cases (fallback_of e (circuit_breaker_policy_ref step))) [
        | inl p ↦ elim (break_circuit-Abandoned host e workflow step reason fr m p) [
          | inl (u, m1, q, a) ↦ absurd (cc (q, h))
          | inr (v, m1, q, b) ↦ absurd (cc (q, h))
        ]
        | inr (fallback, p) ↦
            let q = break_circuit-diverted host e workflow step reason fr m fallback p in
            rw q (
              subst (λ x. Stays workflow P x (told workflow step m)) (ok-injective (rw q at h))
                (keep fallback p))
      ]

  Keeps-fail_nested :
      (step : Step W) (failure : Err) (fr : Frame)
      → ((fallback : String)
          → fallback_of e (circuit_breaker_policy_ref step) ≡ some fallback
          → P fallback)
      → Keeps (fail_nested host e workflow step failure fr)
  unfolding fail_nested
  Keeps-fail_nested step failure fr keep =
      Ensures-if (Stays workflow P) (bypasses_breaker failure) (raise failure) _
        (Ensures-raise (Stays workflow P) failure)
        (Keeps-break_circuit step (error_text host.show failure) fr keep)

  -- what is shown of a step of the set
  abbrev pub StepKeeps : Step W → Type 0
  StepKeeps step =
      P (on_success step)
      × ((fallback : String)
          → fallback_of e (circuit_breaker_policy_ref step) ≡ some fallback
          → P fallback)

  Keeps-fail_action :
      (s : LeafStep W) (failure : Err) (fr : Frame) (depth : ℕ) (w : Option (String × String))
      → StepKeeps (leaf s)
      → Keeps (fail_action host e workflow s failure fr depth w)
  unfolding fail_action circuit_breaker_policy_ref pure
  Keeps-fail_action s failure fr depth none k = Keeps-break_circuit (leaf s) _ fr k.1
  Keeps-fail_action s failure fr depth (some waiting) k =
      Ensures-bind_of (λ r m. Parked workflow m) (Stays workflow P)
        (suspend host e workflow s.step_id waiting fr.ctx fr.trace depth) _
        (Parks-suspend host e workflow s.step_id waiting fr.ctx fr.trace depth)
        (λ r m parked mv p. subst (λ x. Stays workflow P x m) (pure-eq-ok (finish r) m p) parked)

  Keeps-after_action :
      (s : LeafStep W) (fr : Frame) (depth : ℕ) (r : Context ⊎ Err)
      → StepKeeps (leaf s)
      → Keeps (after_action host e workflow s fr depth r)
  unfolding after_action
  Keeps-after_action s fr depth (inl output) k = Keeps-goto _ k.0
  Keeps-after_action s fr depth (inr failure) k =
      Keeps-fail_action s failure fr depth (as_suspended failure) k

  Keeps-run_action :
      (s : LeafStep W) (fr : Frame) (depth : ℕ)
      → StepKeeps (leaf s)
      → Keeps (run_action host e workflow s fr depth)
  unfolding run_action
  Keeps-run_action s fr depth k = Ensures-bind (Stays workflow P) _ _ λ _.
      Ensures-bind (Stays workflow P) (attempt (outside (s.run fr.ctx))) _
        λ r. Keeps-after_action s fr depth r k

  Keeps-after_probe :
      (s : LeafStep W) (fr : Frame) (depth : ℕ) (verdict : ProbeResult ⊎ Err)
      → StepKeeps (leaf s)
      → Keeps (after_probe host e workflow s fr depth verdict)
  unfolding after_probe circuit_breaker_policy_ref
  Keeps-after_probe s fr depth verdict k = Ensures-bind (Stays workflow P) _ _ λ _.
      Ensures-if (Stays workflow P) (is_healthy verdict) _ _ (Keeps-run_action s fr depth k)
        (Keeps-break_circuit (leaf s) (refusal host.show verdict) fr k.1)

  Keeps-probe_first :
      (s : LeafStep W) (fr : Frame) (depth : ℕ) (probe : Option (Prober W))
      → StepKeeps (leaf s)
      → Keeps (probe_first host e workflow s fr depth probe)
  unfolding probe_first
  Keeps-probe_first s fr depth none k = Ensures-raise (Stays workflow P) _
  Keeps-probe_first s fr depth (some probe) k = Ensures-bind (Stays workflow P) _ _ λ _.
      Ensures-bind (Stays workflow P) (attempt (outside (probe (request workflow s fr)))) _
        λ verdict. Keeps-after_probe s fr depth verdict k

  Keeps-after_composite :
      (s : CompositeStep) (fr : Frame) (r : WorkflowResult ⊎ Err)
      → StepKeeps (composite s)
      → Keeps (after_composite host e workflow s fr r)
  unfolding after_composite
  Keeps-after_composite s fr (inl result) k = Keeps-goto _ k.0
  Keeps-after_composite s fr (inr failure) k = Keeps-fail_nested (composite s) failure fr k.1

  Keeps-after_parallel :
      (s : ParallelStep) (fr : Frame) (r : (Context × List String) ⊎ Err)
      → StepKeeps (parallel s)
      → Keeps (after_parallel host e workflow s fr r)
  unfolding after_parallel
  Keeps-after_parallel s fr (inl (joined, trace)) k = Keeps-goto _ k.0
  Keeps-after_parallel s fr (inr failure) k = Keeps-fail_nested (parallel s) failure fr k.1

  module _ (sub : String → Context → Exec (Machine W) WorkflowResult) (depth : ℕ) where
    pub Keeps-take_step :
        (step : Step W) (fr : Frame)
        → StepKeeps step
        → Keeps (take_step host e workflow sub depth step fr)
    unfolding take_step leaf_step composite_step parallel_step
    Keeps-take_step (leaf s) fr k =
        Ensures-if (Stays workflow P) (s.sandbox_probe_ref == "") _ _
          (Keeps-run_action s fr depth k) (Keeps-probe_first s fr depth e.sandbox k)
    Keeps-take_step (composite s) fr k =
        Ensures-bind (Stays workflow P) (attempt (sub s.sub_workflow_ref fr.ctx)) _
          λ r. Keeps-after_composite s fr r k
    Keeps-take_step (parallel s) fr k =
        Ensures-bind (Stays workflow P) (attempt (run_parallel sub host workflow s fr.ctx)) _
          λ r. Keeps-after_parallel s fr r k
