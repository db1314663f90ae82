-- ===== src/Manifest/Load/Shaped.antt =====
-- The domain that a manifest file is read as.
use cee.Prelude.{subst, String, ◌≡◌, false, List, [], ◌∷◌, ◌⊎◌, inl, inr, ◌==◌, Bool-cases, map}
use cee.Maps.{lookup}
use cee.Entities.{IntentNode}
use cee.Execution.Errors.{Err}
use cee.Execution.Types.{Workflow}
use cee.Stdlib.Actions.{Library}
use cee.Registry.{Domain}
use cee.Manifest.Specs.{WorkflowSpec, File}
use cee.Manifest.Steps.{Hooks, ◌and_then◌, build_steps, build_workflows, workflow_of}
use cee.Manifest.Steps.Checked.{AllStand, build_steps-AllStand, and_then-inl, inl_injective}
use cee.Manifest.Load.{build_intents, build_domain, decoded, load, policy_of}

abbrev pub AllShaped : {W : Type 0} → List (Workflow W) → Type 0
AllShaped [] = Unit
AllShaped (w ∷ ws) = AllStand w.steps × AllShaped ws

module _ {W : Type 0} (hooks : Hooks W) (std : Library W) where
  build_workflows-AllShaped :
      (domain : String) (specs : List WorkflowSpec) {ws : List (Workflow W)}
      → build_workflows hooks std domain specs ≡ inl ws
      → AllShaped ws
  unfolding build_workflows lookup
  build_workflows-AllShaped domain [] h = subst AllShaped (inl_injective h) tt
  build_workflows-AllShaped domain (spec ∷ specs) h =
      let (steps, p, q) =
        and_then-inl (build_steps hooks std domain spec.workflow_id spec.steps [])
          (λ steps. build_workflows hooks std domain specs and_then λ ws.
            inl (workflow_of hooks std spec steps ∷ ws))
          h in
      let (ws, r, t) =
        and_then-inl (build_workflows hooks std domain specs)
          (λ ws. inl (workflow_of hooks std spec steps ∷ ws)) q in
      let shaped : AllShaped (workflow_of hooks std spec steps ∷ ws) = (
        build_steps-AllStand domain spec.workflow_id hooks std spec.steps []
            (λ id step f. absurd (cc f)) p,
        build_workflows-AllShaped domain specs r,
      ) in
      subst AllShaped (inl_injective t) shaped

  abbrev pub domain_of : File → List IntentNode → List (Workflow W) → Domain W
  domain_of file intents ws = record {
    name = file.name;
    intents = intents;
    workflows = ws;
    policies = map policy_of file.policies;
  }

  abbrev pub made : File → List IntentNode → Domain W ⊎ Err
  made file intents = build_workflows hooks std file.name file.workflows and_then λ ws.
      inl (domain_of file intents ws)

  abbrev pub IsLoaded : Domain W → Type 0
  IsLoaded d = ((d.name == "") ≡ false) × AllShaped d.workflows

  build_domain-IsLoaded :
      (file : File) {d : Domain W} → build_domain hooks std file ≡ inl d → IsLoaded d
  unfolding build_domain
  build_domain-IsLoaded file h = elim (Bool-cases (file.name == "")) [
    | inl e ↦ absurd (cc (rw e at h))
    | inr e ↦
        let (intents, p, q) =
          and_then-inl (build_intents file.name file.intents) (made file) (rw e at h) in
        let (ws, r, t) =
          and_then-inl (build_workflows hooks std file.name file.workflows)
            (λ ws. inl (domain_of file intents ws)) q in
        subst IsLoaded (inl_injective t) (e, build_workflows-AllShaped file.name file.workflows r)
  ]

  -- A manifest that loads gives a domain with a name, in each of whose workflows every step that is
  -- found under an id has that id, every composite step names a sub-workflow, and every parallel step
  -- has branches, of which none is the empty id and none stands twice.
  pub load-IsLoaded :
      {Bytes : Type 0} (unmarshal : Bytes → File ⊎ Err) (text : Bytes) {d : Domain W}
      → load hooks std unmarshal text ≡ inl d
      → IsLoaded d
  unfolding load
  load-IsLoaded unmarshal text h =
      let (file, p, q) =
        and_then-inl (decoded hooks std (unmarshal text)) (build_domain hooks std) h in
      build_domain-IsLoaded file q
