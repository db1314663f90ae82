-- ===== src/Registry.antt =====
-- registry/registry.go: a domain is registered with the router and the engine in one go. The nodes of
-- the router (intentrouter/router.go), which `RegisterNode` adds to, are here; Intentrouter searches them.
pub mod Found
use cee.Prelude.{String, none, some, List, [], ◌∷◌, ◌++◌, map}
use cee.Maps.{Map, lookup, insert}
use cee.Entities.{IntentNode}
use cee.Execution.Types.{Workflow, CircuitBreakerPolicy, Engine, register_workflow, register_policy}

-- The nodes of a router, by domain.
abbrev pub Nodes : Type 0
Nodes = Map (List IntentNode)

-- the nodes of a domain, none for a domain that the router does not know
unfoldable pub nodes_for : String → Nodes → List IntentNode
nodes_for domain_id nodes = elim (lookup domain_id nodes) [ none ↦ [] | some ns ↦ ns ]

unfoldable pub register_node : IntentNode → Nodes → Nodes
unfolding nodes_for
register_node node nodes = insert node.domain_id (nodes_for node.domain_id nodes ++ node ∷ []) nodes

pub record Domain (W : Type 0) : Type 0 where
  pub name : String
  pub intents : List IntentNode
  pub workflows : List (Workflow W)
  pub policies : List CircuitBreakerPolicy

pub record Registry (W : Type 0) : Type 0 where
  pub nodes : Nodes
  pub engine : Engine W
  pub domains : Map (Domain W)

-- the loops over the parts of a domain
unfoldable pub register_nodes : List IntentNode → Nodes → Nodes
register_nodes [] nodes = nodes
register_nodes (node ∷ rest) nodes = register_nodes rest (register_node node nodes)

module _ {W : Type 0} where
  abbrev pub new_registry : Nodes → Engine W → Registry W
  new_registry nodes engine = record { nodes = nodes; engine = engine; domains = [] }

  -- The registry writes the name of the domain into the workflows, which the domain shares with the
  -- engine.
  abbrev pub owned : String → Workflow W → Workflow W
  owned name w = record w { domain_id = name }

  unfoldable pub register_workflows : String → List (Workflow W) → Engine W → Engine W
  register_workflows name [] e = e
  register_workflows name (w ∷ ws) e =
      register_workflows name ws (register_workflow (owned name w) e)

  unfoldable pub register_policies : List CircuitBreakerPolicy → Engine W → Engine W
  register_policies [] e = e
  register_policies (p ∷ ps) e = register_policies ps (register_policy p e)

  unfoldable pub register_domain : Domain W → Registry W → Registry W
  register_domain d r = record {
    nodes = register_nodes d.intents r.nodes;
    engine = register_policies d.policies (register_workflows d.name d.workflows r.engine);
    domains = insert d.name (record d { workflows = map (owned d.name) d.workflows }) r.domains;
  }

  unfoldable pub domains_of : Registry W → List String
  domains_of r = map (λ (entry : String × Domain W). entry.0) r.domains
