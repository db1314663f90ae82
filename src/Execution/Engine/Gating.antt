-- ===== src/Execution/Engine/Gating.antt =====
-- The sandbox gate: a step whose probe refuses is not carried out.
use cee.Prelude.{sym, ◌∙◌, ap, String, ◌≡◌, refl, false, some, ◌⊎◌, ℕ, ◌==◌, ◌∷◌}
use cee.Entities.{ProbeResult}
use cee.Execution.Errors.{Err}
use cee.Execution.Exec.{ok, caught, attempt, ◌>>=◌}
use cee.Execution.Types.{
  LeafStep, leaf, Workflow, Prober, Engine, Machine, Host, outside, Action, step_id,
  circuit_breaker_policy_ref, observe_probe_outcome, observe_sandbox_probe,
}
use cee.Execution.Failure.{on_failure, observe}
use cee.Execution.Engine.{
  Frame, leaf_step, probe_first, after_probe, break_circuit, is_healthy, refusal, request,
}

-- the machine when a probe has refused
abbrev pub after_refusal : {W : Type 0} → Workflow W → LeafStep W → W → Machine W → Machine W
after_refusal workflow s world m = record {
  world = world;
  events =
      observe_probe_outcome workflow.workflow_id s.step_id false
      ∷ observe_sandbox_probe workflow.workflow_id s.step_id
      ∷ m.events;
}

module _ {W : Type 0} (host : Host W) (e : Engine W) (workflow : Workflow W) (s : LeafStep W)
    (fr : Frame) (depth : ℕ) (m : Machine W) (probe : Prober W) (verdict : ProbeResult ⊎ Err) where
  refused_probe :
      caught (probe (request workflow s fr) m.world).0 ≡ ok verdict
      → is_healthy verdict ≡ false
      → probe_first host e workflow s fr depth (some probe) m
        ≡ break_circuit host e workflow
            (leaf s)
            (refusal host.show verdict)
            fr
            (after_refusal workflow s (probe (request workflow s fr) m.world).1 m)
  unfolding probe_first after_probe attempt outside observe ◌>>=◌
  refused_probe answered unhealthy = rw (answered, unhealthy)

  break_circuit-action :
      (other : Action W) (reason : String) (m' : Machine W)
      → break_circuit host e workflow (leaf s) reason fr m'
        ≡ break_circuit host e workflow (leaf (record s { run = other })) reason fr m'
  unfolding break_circuit on_failure step_id circuit_breaker_policy_ref
  break_circuit-action other reason m' = refl

  gated :
      (s.sandbox_probe_ref == "") ≡ false
      → e.sandbox ≡ some probe
      → leaf_step host e workflow s fr depth m
        ≡ probe_first host e workflow s fr depth (some probe) m
  unfolding leaf_step
  gated declared configured =
      rw declared (ap (λ p. probe_first host e workflow s fr depth p m) configured)

  -- A step whose probe refuses, or fails, goes to its breaker: the only thing done to the world is the
  -- probe, and the observer is told of the probe, of its refusal and of no step.
  pub refused_step :
      (s.sandbox_probe_ref == "") ≡ false
      → e.sandbox ≡ some probe
      → caught (probe (request workflow s fr) m.world).0 ≡ ok verdict
      → is_healthy verdict ≡ false
      → leaf_step host e workflow s fr depth m
        ≡ break_circuit host e workflow
            (leaf s)
            (refusal host.show verdict)
            fr
            (after_refusal workflow s (probe (request workflow s fr) m.world).1 m)
  refused_step declared configured answered unhealthy =
      gated declared configured ∙ refused_probe answered unhealthy

-- The action of a step whose probe refuses plays no part: with any other action in its place the step
-- does the same to the world, the observer and the run.
pub refused_action :
    {W : Type 0} (host : Host W) (e : Engine W) (workflow : Workflow W) (s : LeafStep W)
    (fr : Frame) (depth : ℕ) (m : Machine W) (probe : Prober W) (verdict : ProbeResult ⊎ Err)
    (other : Action W)
    → (s.sandbox_probe_ref == "") ≡ false
    → e.sandbox ≡ some probe
    → caught (probe (request workflow s fr) m.world).0 ≡ ok verdict
    → is_healthy verdict ≡ false
    → leaf_step host e workflow (record s { run = other }) fr depth m
      ≡ leaf_step host e workflow s fr depth m
refused_action host e workflow s fr depth m probe verdict other declared configured answered
      unhealthy =
    refused_step host e workflow (record s { run = other }) fr depth m probe verdict declared
      configured answered unhealthy
    ∙ sym (
        break_circuit-action host e workflow s fr depth m probe verdict other
          (refusal host.show verdict)
          (after_refusal workflow s (probe (request workflow s fr) m.world).1 m))
    ∙ sym (
        refused_step host e workflow s fr depth m probe verdict declared configured answered
          unhealthy)
