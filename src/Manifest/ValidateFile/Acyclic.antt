-- ===== src/Manifest/ValidateFile/Acyclic.antt =====
-- A workflow that is reported without an error cannot run in circles along `on_success`.
use cee.Prelude.{
  String, ◌≡◌, refl, true, false, none, some, List, [], ◌∷◌, ◌++◌, ◌==◌, if◌then◌else◌, has, length,
  length-append, ℕ, suc, ◌+◌, ◌*◌, ◌<◌, ◌≤◌, arith, eq_refl, Bool-cases, inl, inr, Option,
}
use cee.Maps.{Map, lookup}
use cee.Value.{Value, Context}
use cee.Entities.{WorkflowResult}
use cee.Execution.Exec.{Exec}
use cee.Execution.Types.{Step, Engine, Machine, Host}
use cee.Execution.Engine.{Frame}
use cee.Execution.Engine.Stays.{on_success}
use cee.Execution.Engine.Rounds.{IsRanked, Rounds, Rounds-at_most}
use cee.Stdlib.Actions.{Library}
use cee.Manifest.Specs.{StepSpec, WorkflowSpec}
use cee.Manifest.Steps.{Hooks, build_steps, workflow_of}
use cee.Manifest.Steps.Checked.{IsBuilt, Describes, build_steps-AllFound}
use cee.Manifest.FindCycle.{edges_of, find_cycle}
use cee.Manifest.FindCycle.Walks.{Edge}
use cee.Manifest.FindCycle.Visits.{Within}
use cee.Manifest.FindCycle.Ranking.{Ranking, find_cycle-Ranking}
use cee.Manifest.Graph.{
  Graph, step_ids_of, add_step, add_steps, step_graph, success_targets, cycle_issue,
  unreachable_issues, reached_from, validate_step_graph,
}
use cee.Manifest.Graph.EdgesOf.{
  Between, Named, StepEdges, add_steps-Between, order-add_steps, StepEdges-add_steps,
}
use cee.Manifest.Validate.{is_ok, validate_step}
use cee.Manifest.Validate.Sound.{is_ok-append}
use cee.Manifest.Validate.Refers.{Known, validate_step-Refers}
use cee.Manifest.ValidateFile.{
  duplicate_issues, step_id_issues, entry_issues, steps_issues, missing_workflow_id,
  validate_workflow,
}

step_id_issues-Named :
    (ids : List String) (fallbacks : Map String) (workflow_id : String) (steps : List StepSpec)
    (seen : List String)
    → is_ok (step_id_issues workflow_id steps seen) ≡ true
    → Named ids fallbacks steps
unfolding step_id_issues is_ok
step_id_issues-Named ids fallbacks workflow_id [] seen h = tt
step_id_issues-Named ids fallbacks workflow_id (s ∷ steps) seen h =
    elim (Bool-cases (s.step_id == "")) [
      | inl e ↦ absurd (cc (rw e at h))
      | inr e ↦ (
        e,
        step_id_issues-Named ids fallbacks workflow_id steps (s.step_id ∷ seen)
            (is_ok-append (duplicate_issues workflow_id s seen)
              (step_id_issues workflow_id steps (s.step_id ∷ seen)) (rw e at h)).1,
      )
    ]

length-add_steps :
    (ids : List String) (fallbacks : Map String) (steps : List StepSpec) (g : Graph)
    → Named ids fallbacks steps
    → length (add_steps ids fallbacks steps g).order ≡ length g.order + length steps
unfolding add_steps add_step
length-add_steps ids fallbacks [] g n = omega arith
length-add_steps ids fallbacks (s ∷ steps) g n = ground (
  arith,
  n.0,
  length-append g.order (s.step_id ∷ []),
  length-add_steps ids fallbacks steps (add_step ids fallbacks s g) n.1,
)

no_cycle : (id : String) (a b : Option (List String)) → is_ok (cycle_issue id a b) ≡ true → a ≡ none
unfolding is_ok
no_cycle id none b h = refl
no_cycle id (some loop) b h = absurd (cc h)

entry_issues-find_cycle :
    (wf : WorkflowSpec) (ids : List String) (fallbacks : Map String)
    → is_ok (entry_issues wf ids fallbacks) ≡ true
    → find_cycle
        (step_graph ids fallbacks wf.steps).order
        (step_graph ids fallbacks wf.steps).success
      ≡ none
unfolding entry_issues validate_step_graph is_ok
entry_issues-find_cycle wf ids fallbacks h = elim (Bool-cases (wf.entry_step_id == "")) [
  | inl e ↦ absurd (cc (rw e at h))
  | inr e ↦ elim (Bool-cases (has wf.entry_step_id ids)) [
    | inr k ↦ absurd (cc (rw (e, k) at h))
    | inl k ↦
        let g = step_graph ids fallbacks wf.steps in
        no_cycle wf.workflow_id (find_cycle g.order g.success) (find_cycle g.order g.all_edges)
          (is_ok-append
            (cycle_issue wf.workflow_id (find_cycle g.order g.success)
              (find_cycle g.order g.all_edges))
            (unreachable_issues wf g.order (reached_from wf.entry_step_id g)) (rw (e, k) at h)).0
  ]
]

module _ {W : Type 0} (show : Value → String) (std : Library W) (workflow_ids : List String)
    (fallbacks : Map String) (wf : WorkflowSpec) where
  abbrev ids : List String
  ids = step_ids_of wf.steps

  abbrev graph : Graph
  graph = step_graph ids fallbacks wf.steps

  -- `on_success` leads down
  abbrev pub Falls : (String → ℕ) → String → Step W → Type 0
  Falls level id step = (if on_success step == "" then 0 else level (on_success step)) < level id

  Known-Falls :
      (level : String → ℕ) (s : StepSpec) (step : Step W)
      → Ranking graph.success graph.order level
      → has s.step_id graph.order ≡ true
      → ((y : String)
          → has y (success_targets ids fallbacks s) ≡ true
          → Edge graph.success s.step_id y)
      → Known ids s.on_success
      → IsBuilt s step
      → Falls level s.step_id step
  unfolding success_targets has
  Known-Falls level s step ranking known edge target b = elim (Bool-cases (s.on_success == "")) [
    | inl e ↦ rw (b.0, e) (ranking.positive s.step_id known)
    | inr e ↦
        rw (b.0, e) (ranking.falls s.step_id s.on_success (edge s.on_success (listed target e)))
  ]
    where
      listed :
          Known ids s.on_success
          → (s.on_success == "") ≡ false
          → has s.on_success (success_targets ids fallbacks s) ≡ true
      listed (inl q) e = absurd (cc (q, e))
      listed (inr k) e = rw (e, k, eq_refl s.on_success) refl

  steps-Falls :
      (level : String → ℕ) (specs : List StepSpec)
      → Ranking graph.success graph.order level
      → Within (step_ids_of specs) graph.order
      → Named ids fallbacks specs
      → StepEdges ids fallbacks graph.success specs
      → is_ok (steps_issues show std wf ids workflow_ids fallbacks specs) ≡ true
      → Describes (Falls level) specs
  unfolding steps_issues step_ids_of has
  steps-Falls level [] ranking known named edges h = tt
  steps-Falls level (s ∷ specs) ranking known named edges h =
      let (here, later) =
        is_ok-append (validate_step show std wf.workflow_id ids workflow_ids fallbacks s)
          (steps_issues show std wf ids workflow_ids fallbacks specs) h in
      let within : Within (s.step_id ∷ step_ids_of specs) graph.order = rw named.0 at known in
      (
        (λ step b.
            Known-Falls level s step ranking (within s.step_id (ground (arith, eq_refl s.step_id)))
              edges.0
              (validate_step-Refers show std wf.workflow_id ids workflow_ids fallbacks s here).0 b),
        steps-Falls level specs ranking (λ x p. within x (ground arith)) named.1 edges.1 later,
      )

  -- Every step of a workflow that is reported without an error falls in a ranking up to the number of
  -- steps.
  validate_workflow-IsRanked :
      (hooks : Hooks W) (domain : String) {built : Map (Step W)}
      → is_ok (validate_workflow show std workflow_ids fallbacks wf) ≡ true
      → build_steps hooks std domain wf.workflow_id wf.steps [] ≡ inl built
      → (level : String → ℕ) × IsRanked (workflow_of hooks std wf built) level (length wf.steps)
  unfolding validate_workflow lookup has edges_of
  validate_workflow-IsRanked hooks domain h b =
      let later = steps_issues show std wf ids workflow_ids fallbacks wf.steps in
      let entry = entry_issues wf ids fallbacks in
      let named = step_id_issues wf.workflow_id wf.steps [] in
      let (h₀, h₁) = is_ok-append (missing_workflow_id show std wf) (named ++ (entry ++ later)) h in
      let (h₂, h₃) = is_ok-append named (entry ++ later) h₁ in
      let (h₄, h₅) = is_ok-append entry later h₃ in
      let n = step_id_issues-Named ids fallbacks wf.workflow_id wf.steps [] h₂ in
      let empty : Graph = record { order = []; success = []; all_edges = [] } in
      let between : Between ids fallbacks graph =
        add_steps-Between ids fallbacks wf.steps empty n (λ x y e. absurd (cc e)) in
      let ordered : Within ids graph.order =
        λ z p. ground (arith, order-add_steps ids fallbacks wf.steps empty z n) in
      let (level, ranking) =
        find_cycle-Ranking graph.success graph.order
          (λ x y e. ((between x y e).0, ordered y (between x y e).1))
          (entry_issues-find_cycle wf ids fallbacks h₄) in
      (
        level,
        record {
          bound =
              λ x. omega (arith, ranking.bound x, length-add_steps ids fallbacks wf.steps empty n);
          falls =
              build_steps-AllFound (Falls level) domain wf.workflow_id hooks std wf.steps []
                (steps-Falls level wf.steps ranking ordered n
                  (StepEdges-add_steps ids fallbacks wf.steps empty n) h₅)
                (λ id step f. absurd (cc f)) b;
        },
      )

  -- A run through a workflow that is reported without an error makes at most as many rounds as the
  -- workflow has steps, and as many again for each diversion to a fallback step: it cannot go round in
  -- circles along `on_success`.
  pub validate_workflow-Rounds :
      (hooks : Hooks W) (domain : String) {built : Map (Step W)} (host : Host W) (e : Engine W)
      (sub : String → Context → Exec (Machine W) WorkflowResult) (depth : ℕ) (ref : String)
      {start : Frame} {m₀ : Machine W} {n f : ℕ} {fr : Frame} {m : Machine W}
      → is_ok (validate_workflow show std workflow_ids fallbacks wf) ≡ true
      → build_steps hooks std domain wf.workflow_id wf.steps [] ≡ inl built
      → Rounds host e (workflow_of hooks std wf built) sub depth ref start m₀ n f fr m
      → n ≤ length wf.steps * suc f
  validate_workflow-Rounds hooks domain {built} host e sub depth ref h b rounds =
      let (level, ranked) = validate_workflow-IsRanked hooks domain h b in
      Rounds-at_most host e (workflow_of hooks std wf built) sub depth ref level (length wf.steps)
        ranked rounds
