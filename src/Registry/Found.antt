-- ===== src/Registry/Found.antt =====
-- What the engine finds once a domain is registered.
use cee.Prelude.{String, ◌≡◌, refl, Option, none, some, List, [], ◌∷◌, ◌==◌, if◌then◌else◌, arith}
use cee.Maps.{lookup, or_else, lookup-insert}
use cee.Execution.Types.{Workflow, CircuitBreakerPolicy, Engine, register_workflow, register_policy}
use cee.Registry.{Domain, Registry, owned, register_workflows, register_policies, register_domain}

-- the last policy with the id
abbrev pub last_policy : String → List CircuitBreakerPolicy → Option CircuitBreakerPolicy
last_policy id [] = none
last_policy id (p ∷ ps) =
    let rest = last_policy id ps in or_else rest (if p.policy_id == id then some p else none)

module _ {W : Type 0} where
  -- the last workflow with the id
  abbrev pub last_workflow : String → List (Workflow W) → Option (Workflow W)
  last_workflow id [] = none
  last_workflow id (w ∷ ws) =
      let rest = last_workflow id ws in or_else rest (if w.workflow_id == id then some w else none)

  abbrev pub claimed_by : String → Option (Workflow W) → Option (Workflow W)
  claimed_by name none = none
  claimed_by name (some w) = some (owned name w)

  register_workflows_lem :
      (name : String) (ws : List (Workflow W)) (e : Engine W) (id : String)
      → lookup id (register_workflows name ws e).workflows
        ≡ or_else (claimed_by name (last_workflow id ws)) (lookup id e.workflows)
  unfolding register_workflows register_workflow
  register_workflows_lem name [] e id = refl
  register_workflows_lem name (w ∷ ws) e id = ground (
    arith,
    register_workflows_lem name ws (register_workflow (owned name w) e) id,
    lookup-insert w.workflow_id id (owned name w) e.workflows,
  )

  register_policies_lem :
      (ps : List CircuitBreakerPolicy) (e : Engine W) (id : String)
      → lookup id (register_policies ps e).policies
        ≡ or_else (last_policy id ps) (lookup id e.policies)
  unfolding register_policies register_policy
  register_policies_lem [] e id = refl
  register_policies_lem (p ∷ ps) e id = ground (
    arith,
    register_policies_lem ps (register_policy p e) id,
    lookup-insert p.policy_id id p e.policies,
  )

  register_policies-workflows :
      (ps : List CircuitBreakerPolicy) (e : Engine W)
      → (register_policies ps e).workflows ≡ e.workflows
  unfolding register_policies register_policy
  register_policies-workflows [] e = refl
  register_policies-workflows (p ∷ ps) e = register_policies-workflows ps (register_policy p e)

  register_workflows-policies :
      (name : String) (ws : List (Workflow W)) (e : Engine W)
      → (register_workflows name ws e).policies ≡ e.policies
  unfolding register_workflows register_workflow
  register_workflows-policies name [] e = refl
  register_workflows-policies name (w ∷ ws) e =
      register_workflows-policies name ws (register_workflow (owned name w) e)

  -- After a domain is registered, the engine finds under a workflow id the last workflow of the domain
  -- with that id, owned by the domain, and under a policy id the last policy of the domain with that
  -- id; under an id that the domain does not have it finds what it found before.
  pub register_domain_lem :
      (d : Domain W) (r : Registry W) (id : String)
      → (lookup id (register_domain d r).engine.workflows
          ≡ or_else
              (claimed_by d.name (last_workflow id d.workflows))
              (lookup id r.engine.workflows))
        × (lookup id (register_domain d r).engine.policies
            ≡ or_else (last_policy id d.policies) (lookup id r.engine.policies))
  unfolding register_domain
  register_domain_lem d r id = (
    rw (
      register_policies-workflows d.policies (register_workflows d.name d.workflows r.engine),
      register_workflows_lem d.name d.workflows r.engine id,
    ),
    rw (
      register_policies_lem d.policies (register_workflows d.name d.workflows r.engine) id,
      register_workflows-policies d.name d.workflows r.engine,
    ),
  )
