-- ===== src/Manifest/Load.antt =====
-- `Load` of manifest/manifest.go. `json.Unmarshal` is a parameter of `load`.
pub mod Shaped
use cee.Prelude.{
  String, Bool, true, false, Option, none, some, List, [], ◌∷◌, ◌++◌, ◌⊎◌, inl, inr, ◌==◌, ◌&&◌,
  not, if◌then◌else◌, concat, quote, has,
}
use cee.Maps.{Map, lookup, insert}
use cee.Value.{Context}
use cee.Entities.{IntentNode}
use cee.Execution.Errors.{Err, plain, wrap}
use cee.Execution.Types.{
  Action, LeafStep, Step, leaf, composite, parallel, CircuitBreakerPolicy, Workflow,
}
use cee.Stdlib.Actions.{Factory, Library}
use cee.Registry.{Domain}
use cee.Manifest.Specs.{IntentSpec, PolicySpec, File, entry_workflow, conflicting_entry}
use cee.Manifest.Steps.{Hooks, ◌and_then◌, build_workflows}
use cee.Prelude.{map}

abbrev pub node_of : (domain : String) → IntentSpec → IntentNode
node_of domain intent = record {
  node_id = intent.node_id;
  domain_id = domain;
  examples = intent.examples;
  entry_workflow_ref = entry_workflow intent;
  metadata = [];
}

unfoldable pub build_intents : (domain : String) → List IntentSpec → List IntentNode ⊎ Err
unfolding entry_workflow conflicting_entry
build_intents domain [] = inl []
build_intents domain (intent ∷ intents) =
    let rest = build_intents domain intents in
    if conflicting_entry intent
    then inr (
        plain (
          concat (
            "manifest: domain "
            ∷ quote domain
            ∷ " intent "
            ∷ quote intent.node_id
            ∷ " sets both entry_workflow_ref ("
            ∷ quote intent.entry_workflow_ref
            ∷ ") and the deprecated entry_step_ref ("
            ∷ quote intent.deprecated_entry_step_ref
            ∷ ") to different values; keep one"
            ∷ [])))
    else rest and_then λ nodes. inl (node_of domain intent ∷ nodes)

abbrev pub policy_of : PolicySpec → CircuitBreakerPolicy
policy_of p = record { policy_id = p.policy_id; fallback_step_ref = p.fallback_step_ref }

module _ {W : Type 0} (hooks : Hooks W) (std : Library W) where
  -- `Load` from the decoded file on
  unfoldable pub build_domain : File → Domain W ⊎ Err
  unfolding build_workflows build_intents
  build_domain file =
      if file.name == ""
      then inr (plain "manifest: missing domain name")
      else build_intents file.name file.intents and_then λ intents.
          build_workflows hooks std file.name file.workflows and_then λ ws. inl (record {
            name = file.name;
            intents = intents;
            workflows = ws;
            policies = map policy_of file.policies;
          })

  abbrev pub decoded : File ⊎ Err → File ⊎ Err
  decoded (inl file) = inl file
  decoded (inr failure) = inr (wrap "manifest: invalid JSON: " failure)

  unfoldable pub load : {Bytes : Type 0} → (Bytes → File ⊎ Err) → Bytes → Domain W ⊎ Err
  unfolding build_domain
  load unmarshal text = decoded (unmarshal text) and_then build_domain
