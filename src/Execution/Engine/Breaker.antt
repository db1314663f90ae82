-- ===== src/Execution/Engine/Breaker.antt =====
-- What a failed step comes to: its fallback step, or the end of the run with a report of what was
-- undone.
use cee.Prelude.{
  ◌∙◌, String, ◌≡◌, refl, none, some, List, [], ◌∷◌, ◌⊎◌, inl, inr, reverse, Option, ap, arith,
  eq_iff, ◌==◌, false,
}
use cee.Maps.{lookup}
use cee.Value.{Value, Context, str}
use cee.Execution.Errors.{circuit_breaker_tripped, cause}
use cee.Execution.Exec.{ok, err, panic, ◌>>=◌, raise, pure, Outcome}
use cee.Execution.Types.{
  CircuitBreakerPolicy, Step, step_id, circuit_breaker_policy_ref, Workflow, Engine, Machine, Host,
  observe_circuit_breaker,
}
use cee.Execution.Failure.{merge, observe, on_failure, fallback_of, failure_fields, diversion}
use cee.Execution.Failure.Laws.{lookup-merge}
use cee.Execution.Compensate.{Completed, Unwound, abandon}
use cee.Execution.Compensate.Report.{Unwinds, Panics, nothing, unwind_reports}
use cee.Execution.Engine.{Frame, Move, goto, break_circuit, diverted}

-- the machine once the observer is told of a breaker
abbrev pub told : {W : Type 0} → Workflow W → Step W → Machine W → Machine W
told workflow step m = record m {
  events = observe_circuit_breaker workflow.workflow_id (step_id step) ∷ m.events;
}

-- The ends of a run that is abandoned at a step, from a machine: the trip with the report of an unwind
-- that went through every completed step, or a panic of a compensation.
abbrev pub Abandoned :
    {W A : Type 0}
    → Host W
    → Workflow W
    → String
    → String
    → Frame
    → Machine W
    → Outcome A × Machine W
    → Type 0
Abandoned {W} host workflow id reason fr m r =
    ((u : Unwound) × (m' : Machine W) × (r
        ≡ (err (circuit_breaker_tripped id reason u.undone u.failures), m'))
      × Unwinds host workflow (reverse fr.done) fr.ctx m u.undone u.failures m')
    ⊎ ((v : Value) × (m' : Machine W) × (r ≡ (panic v, m'))
        × Panics host workflow (reverse fr.done) v m')

-- The frame in which a fallback step goes on after a failed step: the reason and the failed step are in
-- the context, the rest of it is as it was, and so are the completed steps and the trace.
pub record IsDiverted (fallback id reason : String) (before after : Frame) : Type 0 where
  pub at_fallback : after.step_id ≡ fallback
  pub reason_told : lookup "cee.failure_reason" after.ctx ≡ some (str reason)
  pub step_told : lookup "cee.failed_step" after.ctx ≡ some (str id)
  pub rest_kept :
      (k : String)
      → (k == "cee.failure_reason") ≡ false
      → (k == "cee.failed_step") ≡ false
      → lookup k after.ctx ≡ lookup k before.ctx
  pub done_kept : after.done ≡ before.done
  pub trace_kept : after.trace ≡ before.trace

module _ {W : Type 0} (host : Host W) (workflow : Workflow W) where
  Abandoned-step :
      (id reason : String) (fr : Frame) (m : Machine W)
      → Abandoned {A = Move} host workflow id reason fr m (
          (abandon host workflow fr.done fr.ctx (circuit_breaker_tripped id reason [] []) >>= λ e.
          raise e)
            m)
  unfolding abandon cause ◌>>=◌ raise
  Abandoned-step id reason fr m = abandoned fr.done fr.ctx m
    where
      abandoned :
          (done : List Completed) (ctx : Context) (m : Machine W)
          → Abandoned {A = Move} host workflow id reason
              (record fr { done = done; ctx = ctx })
              m
              ((abandon host workflow done ctx (circuit_breaker_tripped id reason [] []) >>= λ e.
                  raise e)
                m)
      abandoned [] ctx m = inl (record { undone = []; failures = [] }, m, refl, nothing)
      abandoned (c ∷ done) ctx m = elim (unwind_reports host workflow (c ∷ done) ctx m) [
        | inl (u, m', p, a) ↦ inl (u, m', rw p, a)
        | inr (v, m', p, h) ↦ inr (v, m', rw p, h)
      ]

module _ {W : Type 0} (host : Host W) (e : Engine W) (workflow : Workflow W) (step : Step W)
    (reason : String) (fr : Frame) (m : Machine W) where
  diverted_lem :
      (o : Option String)
      → fallback_of e (circuit_breaker_policy_ref step) ≡ o
      → break_circuit host e workflow step reason fr m
        ≡ diverted host e workflow fr (diversion step reason fr.ctx o) (told workflow step m)
  unfolding break_circuit observe ◌>>=◌ on_failure
  diverted_lem o h =
      ap (λ x. diverted host e workflow fr (diversion step reason fr.ctx x) (told workflow step m))
        h

  pub break_circuit-diverted :
      (fallback : String)
      → fallback_of e (circuit_breaker_policy_ref step) ≡ some fallback
      → break_circuit host e workflow step reason fr m ≡ (
        ok (
            goto (record fr {
              step_id = fallback;
              ctx = merge fr.ctx (failure_fields reason (step_id step));
            })),
        told workflow step m,
      )
  unfolding diversion pure
  break_circuit-diverted fallback h = diverted_lem (some fallback) h

  fallback_lem :
      (policy : CircuitBreakerPolicy)
      → (circuit_breaker_policy_ref step == "") ≡ false
      → lookup (circuit_breaker_policy_ref step) e.policies ≡ some policy
      → (policy.fallback_step_ref == "") ≡ false
      → fallback_of e (circuit_breaker_policy_ref step) ≡ some policy.fallback_step_ref
  unfolding fallback_of
  fallback_lem policy named found usable = rw (named, found, usable) refl

  failure_fields-IsDiverted :
      (fallback : String)
      → IsDiverted fallback (step_id step) reason fr (record fr {
        step_id = fallback;
        ctx = merge fr.ctx (failure_fields reason (step_id step));
      })
  unfolding lookup
  failure_fields-IsDiverted fallback = record {
    at_fallback = refl;
    reason_told = lookup-merge "cee.failure_reason" fr.ctx (failure_fields reason (step_id step));
    step_told = lookup-merge "cee.failed_step" fr.ctx (failure_fields reason (step_id step));
    rest_kept = λ k a b.
        lookup-merge k fr.ctx (failure_fields reason (step_id step))
        ∙ ground (
          arith,
          a,
          b,
          eq_iff k "cee.failure_reason",
          eq_iff "cee.failure_reason" k,
          eq_iff k "cee.failed_step",
          eq_iff "cee.failed_step" k,
        );
    done_kept = refl;
    trace_kept = refl;
  }

  -- A step fails whose policy is registered and names a fallback step. Then the observer is told of the
  -- breaker, nothing else happens, and the run goes on at the fallback step, with the reason and the
  -- failed step in the context and the rest of it, the completed steps and the trace as they were.
  pub break_circuit-fallback :
      (policy : CircuitBreakerPolicy)
      → (circuit_breaker_policy_ref step == "") ≡ false
      → lookup (circuit_breaker_policy_ref step) e.policies ≡ some policy
      → (policy.fallback_step_ref == "") ≡ false
      → (after : Frame) × (break_circuit host e workflow step reason fr m
          ≡ (ok (goto after), told workflow step m))
        × IsDiverted policy.fallback_step_ref (step_id step) reason fr after
  unfolding diversion pure
  break_circuit-fallback policy named found usable = (
    _,
    diverted_lem (some policy.fallback_step_ref) (fallback_lem policy named found usable),
    failure_fields-IsDiverted policy.fallback_step_ref,
  )

  -- A failed step with no fallback step ends the run with a trip that names the step and the reason. The
  -- trip reports an unwind of the completed steps that declared a compensation, after the observer was
  -- told of the breaker, as `Unwinds` describes it: what is listed as undone was run and returned, the
  -- last completed first, and the rest is listed as failed; only a panic of a compensation ends the run
  -- otherwise.
  pub break_circuit-Abandoned :
      fallback_of e (circuit_breaker_policy_ref step) ≡ none
      → Abandoned host workflow
          (step_id step)
          reason
          fr
          (told workflow step m)
          (break_circuit host e workflow step reason fr m)
  unfolding diversion
  break_circuit-Abandoned h =
      rw (diverted_lem none h)
        (Abandoned-step host workflow (step_id step) reason fr (told workflow step m))
