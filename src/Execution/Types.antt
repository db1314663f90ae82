-- ===== src/Execution/Types.antt =====
-- The data of execution/*.go. `W` is the world outside the engine: whatever actions, probes, stores
-- and authorizers read and change. An interface is a function or a record of functions over it, and
-- `none` is Go's nil interface value. Actions are taken to leave the map that they are given as it is.
use cee.Prelude.{ℕ, zero, suc, String, Bool, Option, none, List, []}
use cee.Maps.{Map, insert}
use cee.Value.{Value, Context, ℤ, pos, negsuc}
use cee.Entities.{ProbeRequest, ProbeResult}
use cee.Execution.Exec.{Exec}

abbrev pub Action : Type 0 → Type 0
Action W = Context → Exec W Context

pub record LeafStep (W : Type 0) : Type 0 where
  pub step_id : String
  pub run : Action W
  pub sandbox_probe_ref : String
  pub circuit_breaker_policy_ref : String
  pub on_success : String
  pub compensate_step_ref : String

pub record CompositeStep : Type 0 where
  pub step_id : String
  pub sub_workflow_ref : String
  pub circuit_breaker_policy_ref : String
  pub on_success : String

pub record ParallelStep : Type 0 where
  pub step_id : String
  pub branches : List String
  pub circuit_breaker_policy_ref : String
  pub on_success : String

-- The interface `Step`, which the package closes: no other type has its methods.
pub data Step (W : Type 0) : Type 0 where
  leaf : LeafStep W → Step W
  composite : CompositeStep → Step W
  parallel : ParallelStep → Step W

module _ {W : Type 0} where
  unfoldable pub step_id : Step W → String
  step_id (leaf s) = s.step_id
  step_id (composite s) = s.step_id
  step_id (parallel s) = s.step_id

  unfoldable pub circuit_breaker_policy_ref : Step W → String
  circuit_breaker_policy_ref (leaf s) = s.circuit_breaker_policy_ref
  circuit_breaker_policy_ref (composite s) = s.circuit_breaker_policy_ref
  circuit_breaker_policy_ref (parallel s) = s.circuit_breaker_policy_ref

pub record CircuitBreakerPolicy : Type 0 where
  pub policy_id : String
  pub fallback_step_ref : String

pub record Workflow (W : Type 0) : Type 0 where
  pub workflow_id : String
  pub domain_id : String
  pub entry_step_id : String
  pub steps : Map (Step W)

abbrev pub Prober : Type 0 → Type 0
Prober W = ProbeRequest → Exec W ProbeResult

-- A suspended run.
pub record State : Type 0 where
  pub pointer : String
  pub workflow_id : String
  pub step_id : String
  pub reason : String
  pub audience : String
  pub ctx : Context
  pub trace : List String

pub record Store (W : Type 0) : Type 0 where
  pub save : State → Exec W (Unit {0})
  pub load : String → Exec W State
  pub consume : String → Exec W State
  pub release : String → Exec W (Unit {0})

pub record ResumeAttempt : Type 0 where
  pub audience : String
  pub identity : String
  pub workflow_id : String
  pub step_id : String
  pub reason : String

abbrev pub Authorizer : Type 0 → Type 0
Authorizer W = ResumeAttempt → Exec W (Bool × String)

pub record Engine (W : Type 0) : Type 0 where
  pub sandbox : Option (Prober W)
  pub workflows : Map (Workflow W)
  pub policies : Map CircuitBreakerPolicy
  pub store : Option (Store W)
  pub authorizer : Option (Authorizer W)
  pub max_steps : ℕ
  pub max_depth : ℕ

-- What the engine takes from Go's library: the text of a value under %v, and the hex text of
-- sixteen random bytes, or the error of the random source.
pub record Host (W : Type 0) : Type 0 where
  pub show : Value → String
  pub new_pointer : Exec W String

-- What the engine tells an observer.
pub data Event : Type 0 where
  observe_step : (workflow_id step_id : String) → Event
  observe_sandbox_probe : (workflow_id step_id : String) → Event
  observe_circuit_breaker : (workflow_id step_id : String) → Event
  observe_probe_outcome : (workflow_id step_id : String) (healthy : Bool) → Event
  observe_suspension : (workflow_id step_id : String) → Event

-- The world, and what the engine has told its observer, the latest first.
pub record Machine (W : Type 0) : Type 0 where
  pub world : W
  pub events : List Event

module _ {W : Type 0} where
  -- a call of an action, a probe, a store or an authorizer
  unfoldable pub outside : {A : Type 0} → Exec W A → Exec (Machine W) A
  outside m s = let (r, w) = m s.world in (r, record s { world = w })

abbrev pub default_max_steps : ℕ
default_max_steps = 10_000

abbrev pub default_max_depth : ℕ
default_max_depth = 64

-- a limit that is not positive leaves the one that is set
abbrev positive_or : ℕ → ℤ → ℕ
positive_or old (pos zero) = old
positive_or old (pos (suc n)) = suc n
positive_or old (negsuc n) = old

module _ {W : Type 0} where
  unfoldable pub new_engine : Option (Prober W) → Engine W
  new_engine sandbox = record {
    sandbox = sandbox;
    workflows = [];
    policies = [];
    store = none;
    authorizer = none;
    max_steps = default_max_steps;
    max_depth = default_max_depth;
  }

  unfoldable pub set_store : Option (Store W) → Engine W → Engine W
  set_store s e = record e { store = s }

  unfoldable pub set_authorizer : Option (Authorizer W) → Engine W → Engine W
  set_authorizer a e = record e { authorizer = a }

  unfoldable pub set_limits : ℤ → ℤ → Engine W → Engine W
  set_limits max_steps max_depth e = record e {
    max_steps = positive_or e.max_steps max_steps;
    max_depth = positive_or e.max_depth max_depth;
  }

  unfoldable pub register_workflow : Workflow W → Engine W → Engine W
  register_workflow w e = record e { workflows = insert w.workflow_id w e.workflows }

  unfoldable pub register_policy : CircuitBreakerPolicy → Engine W → Engine W
  register_policy p e = record e { policies = insert p.policy_id p e.policies }
