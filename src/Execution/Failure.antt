-- ===== src/Execution/Failure.antt =====
-- The helpers of execution/engine.go: merging contexts, the tail of a trace, telling the observer,
-- and `onFailure`, which looks up the circuit breaker of a step that failed.
pub mod Laws
use cee.Prelude.{
  ◌⊎◌, inl, inr, ℕ, ◌-◌, String, ◌==◌, Option, none, some, List, [], ◌∷◌, length, drop, leb,
  if◌then◌else◌,
}
use cee.Maps.{lookup, insert_all}
use cee.Value.{Context, str}
use cee.Execution.Errors.{Err, circuit_breaker_tripped}
use cee.Execution.Exec.{Exec, ok}
use cee.Execution.Types.{
  Step, step_id, circuit_breaker_policy_ref, Engine, CircuitBreakerPolicy, Machine, Event,
}

-- `merge`: a fresh map with the entries of both, those of the overlay last.
unfoldable pub merge : Context → Context → Context
merge base overlay = insert_all (insert_all [] base) overlay

-- `tail`: the last n elements
unfoldable pub tail {ℓ} : {A : Type ℓ} → List A → ℕ → List A
tail s n = if leb (length s) n then s else drop (length s - n) s

abbrev pub failure_reason_key : String
failure_reason_key = "cee.failure_reason"

abbrev pub failed_step_key : String
failed_step_key = "cee.failed_step"

-- the two fields that a fallback step is given
abbrev pub failure_fields : String → String → Context
failure_fields reason id = (failure_reason_key, str reason) ∷ (failed_step_key, str id) ∷ []

-- the fallback step of a policy, if it has one
abbrev usable : CircuitBreakerPolicy → Option String
usable p = if p.fallback_step_ref == "" then none else some p.fallback_step_ref

module _ {W : Type 0} where
  -- `Engine.observe`
  unfoldable pub observe : Event → Exec (Machine W) (Unit {0})
  observe event s = (ok tt, record s { events = event ∷ s.events })

  -- the fallback step of the policy that a step names, if there is one
  unfoldable pub fallback_of : Engine W → String → Option String
  fallback_of e ref =
      if ref == "" then none else elim (lookup ref e.policies) [ none ↦ none | some p ↦ usable p ]

  -- `Engine.onFailure`, from the fallback step that was found
  unfoldable pub diversion : Step W → String → Context → Option String → (String × Context) ⊎ Err
  diversion step reason ctx none = inr (circuit_breaker_tripped (step_id step) reason [] [])
  diversion step reason ctx (some fallback) =
      inl (fallback, merge ctx (failure_fields reason (step_id step)))

  unfoldable pub on_failure : Engine W → Step W → String → Context → (String × Context) ⊎ Err
  unfolding fallback_of diversion
  on_failure e step reason ctx =
      diversion step reason ctx (fallback_of e (circuit_breaker_policy_ref step))
